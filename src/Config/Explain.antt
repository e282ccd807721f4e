-- ===== src/Config/Explain.antt =====
-- src/config.rs: `explain_site_line`, `explain_redirect_line`.
use bare_server.Base.{List, [], ◌∷◌, ◌++◌, Bytes, codes, if◌then◌else◌}
use bare_server.Text.{beq, split_whitespace}

abbrev see_example : Bytes
see_example = codes ". See server.conf.example"

abbrev site_block : Bytes → Bytes → Bytes → Bytes → Bytes → Bytes
site_block host root cert key flag =
    codes ":\n\n"
    ++ (codes "    site " ++ (host ++ codes " {\n"))
    ++ (codes "        root = " ++ (root ++ codes "\n"))
    ++ (codes "        cert = " ++ (cert ++ codes "\n"))
    ++ (codes "        key  = " ++ (key ++ codes "\n"))
    ++ (flag ++ codes "    }")

abbrev site_words : List Bytes → Bytes
site_words (host ∷ root ∷ cert ∷ key ∷ []) = site_block host root cert key []
site_words (host ∷ root ∷ cert ∷ key ∷ flag ∷ []) =
    site_block host root cert key
      (if beq flag (codes "allow_http") then codes "        force_ssl = off\n" else [])
site_words words = see_example

unfoldable pub explain_site_line : Bytes → Bytes
explain_site_line v =
    codes "`site = ...` is not valid: a site is a block" ++ site_words (split_whitespace v)

abbrev redirect_words : List Bytes → Bytes
redirect_words (from ∷ to ∷ cert ∷ key ∷ []) =
    codes ":\n\n"
    ++ (codes "    site " ++ (from ++ codes " {\n"))
    ++ (codes "        cert = " ++ (cert ++ codes "\n"))
    ++ (codes "        key  = " ++ (key ++ codes "\n"))
    ++ (codes "        redirect * -> https://" ++ (to ++ codes "$0\n"))
    ++ codes "    }"
redirect_words words = see_example

unfoldable pub explain_redirect_line : Bytes → Bytes
explain_redirect_line v =
    codes "`redirect = ...` is not valid here: a redirect-only host is a site block with no root"
    ++ redirect_words (split_whitespace v)
