-- ===== src/Config/Lines.antt =====
-- src/config.rs, `parse_config`: the text of a line without its comment, and the parts it is split into.
use bare_server.Base.{
  is_nil, Bool, false, ◌&&◌, ◌||◌, not, Option, none, some, List, [], ◌∷◌, ◌++◌, reverse, ◌==◌,
  if◌then◌else◌, Bytes,
}
use bare_server.Text.{
  strip_prefix, split, before, from_first, trim, to_ascii_lowercase, keep_filled, cons_first,
}

abbrev starts_with_space : Bytes → Bool
starts_with_space [] = false
starts_with_space (c ∷ s) = c == b' ' || c == b'\t' || c == b'\n' || c == 0x0c || c == b'\r'

-- Only the first `#` of a line can start a comment: at its start, or behind ASCII white space.
unfoldable pub uncommented : Bytes → Bytes
uncommented raw =
    let head = before b'#' raw in
    if not (is_nil (from_first b'#' raw)) && (is_nil head || starts_with_space (reverse head))
    then head
    else raw

abbrev first_some : Option Bytes → Option Bytes → Option Bytes
first_some (some a) o = some a
first_some none o = o

-- What follows a keyword and a blank, or a keyword and a tab.
unfoldable pub after_keyword : Bytes → Bytes → Option Bytes
after_keyword word line =
    first_some (strip_prefix (word ++ (b' ' ∷ [])) line) (strip_prefix (word ++ (b'\t' ∷ [])) line)

-- `rest.split_once("->")`
unfoldable pub split_arrow : Bytes → Option (Bytes × Bytes)
split_arrow [] = none
split_arrow (c ∷ []) = none
split_arrow (c ∷ d ∷ s) =
    let later = cons_first c (split_arrow (d ∷ s)) in
    if c == b'-' && d == b'>' then some ([], s) else later

abbrev host_names : List Bytes → List Bytes
host_names [] = []
host_names (h ∷ hs) = to_ascii_lowercase (trim h) ∷ host_names hs

-- The names between the commas, without the empty ones.
unfoldable pub site_hosts : Bytes → List Bytes
site_hosts list = keep_filled (host_names (split b',' list))
