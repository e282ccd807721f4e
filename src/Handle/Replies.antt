-- ===== src/Handle/Replies.antt =====
-- src/main.rs, `handle_request`: the replies of a site, one by one.
use bare_server.Base.{
  is_nil, ◌≡◌, ◌⊎◌, refl, subst, Bool, true, false, ◌&&◌, ◌||◌, not, Option, none, some, ◌++◌,
  arith, leb, length, Bytes, codes, All, All-append, if◌then◌else◌,
}
use bare_server.Text.{beq, starts_with, before, from_first, before-All, from_first-All, IsByte, get}
use bare_server.Head.Framing.{IsFieldByte, IsLine, IsPrintable, is_line}
use bare_server.Percent.{percent_encode_path}
use bare_server.Percent.Safety.{percent_encode_path-IsLine}
use bare_server.Response.{StatusResponse, send_error, redirect_authority}
use bare_server.Route.{Resolved, entry, dir_index, canonical_form, fold_index}
use bare_server.Route
use bare_server.Redirects
use bare_server.Redirects.{finish, is_absolute, Redirects}
use bare_server.Redirects.Safety.{IsClean, IsPrintableText, resolve-IsPrintable}
use bare_server.Site.{Cached, Site, Vhosts}
use bare_server.Serve.{Reply, reply, Reads}
use bare_server.Acme.{OpenFile, acme_prefix, serve_acme_token}
use bare_server.Request.{RequestLine}
use bare_server.Handle.Hosts.{bad_request}
use bare_server.Handle.{
  Context, redirect_reply, origin, serve_entry, serve_resolved, serve_acme, serve_content,
  upgrade_or_serve, fold_or_upgrade, apply_rules, answer_decoded, answer_site, decode_path,
  max_path_len,
}
use bare_server.Handle.Location.{
  IsSafe, after_scheme, origin-IsLine, rule_location-IsLine, printable-IsLine,
  redirect_authority-IsLine, canonical_form-All, decode_path-IsByte,
}

module _ (is_plain : Bytes → Bool) (open_nofollow : Bytes → Option OpenFile)
    (open_body : Bytes → Option Reads) (c : Context) where
  -- What the reply of a site can be.
  pub data Replied (r : Reply) : Type 0 where
    failed :
        (status : StatusResponse) (keep_alive : Bool)
        → r ≡ reply (send_error status keep_alive c.is_head) keep_alive
        → Replied r
    content : (e : Cached) → r ≡ serve_entry is_plain open_nofollow open_body e c → Replied r
    challenge :
        (root decoded : Bytes)
        → r
          ≡ serve_acme_token is_plain open_nofollow root decoded c.keep_alive c.is_head
              c.site.policy
        → Replied r
    moved : (location : Bytes) → IsLine location → r ≡ redirect_reply location c → Replied r

  test : (b : Bool) (x y : Reply) → Replied x → Replied y → Replied (if b then x else y)
  test true x y f g = f
  test false x y f g = g

  module _ (s : IsSafe c) (target decoded : Bytes) (t : IsLine target)
      (d : All IsByte decoded) where
    query-IsLine : IsLine (from_first b'?' target)
    query-IsLine = from_first-All IsFieldByte b'?' target t

    own-IsLine :
        (path rest : Bytes)
        → All IsByte path
        → IsLine rest
        → IsLine (origin c ++ (percent_encode_path path ++ rest))
    own-IsLine path rest p r = All-append IsFieldByte (origin c) _ (origin-IsLine c s) (
        All-append IsFieldByte (percent_encode_path path) rest (percent_encode_path-IsLine path p)
          r)

    serve_resolved-Replied :
        (o : Option (Resolved Cached))
        → Replied
            (serve_resolved is_plain open_nofollow open_body o decoded (from_first b'?' target) c)
    unfolding serve_resolved
    serve_resolved-Replied (some (entry e)) = content e refl
    serve_resolved-Replied (some dir_index) =
        moved _
          (own-IsLine decoded _ d (All-append IsFieldByte (codes "/") _ (omega arith) query-IsLine))
          refl
    serve_resolved-Replied none = failed _ c.keep_alive refl

    serve_acme-Replied :
        (o : Option Bytes) → Replied (serve_acme is_plain open_nofollow open_body o decoded c)
    unfolding serve_acme
    serve_acme-Replied (some root) = challenge root decoded refl
    serve_acme-Replied none = failed _ c.keep_alive refl

    upgrade_or_serve-Replied :
        (is_acme : Bool)
        → Replied (
            upgrade_or_serve is_plain open_nofollow open_body is_acme target decoded
              (from_first b'?' target)
              c)
    unfolding upgrade_or_serve serve_content is_line
    upgrade_or_serve-Replied is_acme =
        test (c.redirect_https && not is_acme && c.site.force_ssl) _ _
          (moved _
            (after_scheme (codes "https://") _ refl (
              All-append IsFieldByte (redirect_authority c.host_key c.https_port (codes "443"))
                target
                (redirect_authority-IsLine c.host_key c.https_port (codes "443") s.host
                  s.https_port)
                t))
            refl)
          (test is_acme _ _ (serve_acme-Replied c.site.root)
            (serve_resolved-Replied (Route.resolve c.site.cache decoded)))

    fold_or_upgrade-Replied :
        (o : Option Bytes) (is_acme : Bool)
        → ((canon : Bytes) → o ≡ some canon → All IsByte canon)
        → Replied (
            fold_or_upgrade is_plain open_nofollow open_body o is_acme target decoded
              (from_first b'?' target)
              c)
    unfolding fold_or_upgrade
    fold_or_upgrade-Replied (some canon) is_acme h =
        moved _ (own-IsLine canon _ (h canon refl) query-IsLine) refl
    fold_or_upgrade-Replied none is_acme h = upgrade_or_serve-Replied is_acme

    folded-IsByte :
        (b : Bool) (canon : Bytes)
        → (if b then canonical_form decoded else none) ≡ some canon
        → All IsByte canon
    folded-IsByte true canon e = canonical_form-All IsByte decoded (omega arith) d e
    folded-IsByte false canon e = absurd (ground arith)

    apply_rules-Replied :
        (o : Option Bytes) (is_acme : Bool)
        → ((to : Bytes) → o ≡ some to → IsLine to)
        → Replied (
            apply_rules is_plain open_nofollow open_body o is_acme target decoded
              (from_first b'?' target)
              c)
    unfolding apply_rules
    apply_rules-Replied (some to) is_acme h =
        moved _ (rule_location-IsLine c _ to s query-IsLine (h to refl)) refl
    apply_rules-Replied none is_acme h =
        fold_or_upgrade-Replied _ is_acme (folded-IsByte (c.site.canonical_urls && not is_acme))

  ruled-IsLine :
      (path to : Bytes)
      → IsSafe c
      → IsPrintableText path
      → Redirects.resolve c.site.redirects path ≡ some to
      → IsLine to
  ruled-IsLine path to s p e =
      let (r, k, f) = s.rules in
      printable-IsLine to
        (resolve-IsPrintable path p r to k (subst (λ x. Redirects.resolve x path ≡ some to) f e))

  answer_decoded-Replied :
      (o : Option Bytes) (target : Bytes)
      → IsSafe c
      → IsPrintableText target
      → ((decoded : Bytes) → o ≡ some decoded → All IsByte decoded)
      → Replied (answer_decoded is_plain open_nofollow open_body o target c)
  unfolding answer_decoded
  answer_decoded-Replied none target s p h = failed _ false refl
  answer_decoded-Replied (some decoded) target s p h =
      apply_rules-Replied s target decoded (printable-IsLine target p) (h decoded refl) _
        (starts_with acme_prefix decoded) (unless (starts_with acme_prefix decoded))
    where
      unless :
          (b : Bool) (to : Bytes)
          → (if b then none else Redirects.resolve c.site.redirects (before b'?' target)) ≡ some to
          → IsLine to
      unless true to e = absurd (ground arith)
      unless false to e =
          ruled-IsLine (before b'?' target) to s (before-All IsPrintable b'?' target p) e

  pub answer_site-Replied :
      (r : RequestLine)
      → IsSafe c
      → IsPrintableText r.target
      → Replied (answer_site is_plain open_nofollow open_body r c)
  unfolding answer_site
  answer_site-Replied r s p =
      test (not (beq r.method (codes "GET")) && not c.is_head) _ _ (failed _ c.keep_alive refl) (
        test
          (is_nil (before b'?' r.target)
            || not (starts_with (codes "/") (before b'?' r.target))
            || leb max_path_len (length (before b'?' r.target)))
          _ _ (failed c.site.policy.errors.bad_request false refl)
          (answer_decoded-Replied (decode_path (before b'?' r.target)) r.target s p
            (λ decoded e. decode_path-IsByte (before b'?' r.target) e)))

-- The rules of a site are those that a clean list of rules becomes.
abbrev pub HasCleanRules : Site → Type 0
HasCleanRules site = (r : Redirects) × IsClean r × (site.redirects ≡ finish r)

module _ (is_plain : Bytes → Bool) (open_nofollow : Bytes → Option OpenFile)
    (open_body : Bytes → Option Reads) (vhosts : Vhosts) (want_ka redirect_https : Bool)
    (sni : Option Bytes) where
  -- What a reply of the server is: an error, or what a site can reply.
  abbrev pub IsWhole : Reply → Type 0
  IsWhole r =
      ((status : StatusResponse) × (keep_alive : Bool) × (is_head : Bool) × (r
          ≡ reply (send_error status keep_alive is_head) keep_alive))
      ⊎ ((c : Context) × (get c.host_key vhosts.sites ≡ some c.site)
          × Replied is_plain open_nofollow open_body c r)
