-- ===== src/Handle/Location.antt =====
-- src/main.rs, `handle_request`: the bytes of a Location.
use bare_server.Base.{
  is_nil, ℕ, ◌≡◌, refl, subst, Bool, true, false, ◌&&◌, ◌||◌, not, Option, none, some, [], ◌++◌,
  any, arith, ◌==◌, Bytes, codes, All, All-append, All-map, Bool-cases, inl, inr, if◌then◌else◌,
  >>=-eq-some,
}
use bare_server.Text.{
  beq, ends_with, is_utf8, is_utf8-IsByte, IsByte, strip_suffix, strip_suffix-All,
}
use bare_server.Head.Framing.{
  IsFieldByte, IsLine, IsPrintable, IsPrintable-IsFieldByte, is_line, is_line-IsLine,
}
use bare_server.Percent.{percent_decode}
use bare_server.Response.{redirect_authority}
use bare_server.Route.{canonical_form, fold_index}
use bare_server.Redirects.{finish, is_absolute, Redirects}
use bare_server.Redirects.Safety.{IsClean, IsPrintableText}
use bare_server.Handle.Hosts.{some-injective}
use bare_server.Handle.{Context, origin, rule_location, decode_path}

chosen-All :
    (P : ℕ → Type 0) (b : Bool) (x y : Bytes) → All P x → All P y → All P (if b then x else y)
chosen-All P true x y h k = h
chosen-All P false x y h k = k

pub redirect_authority-IsLine :
    (host port default : Bytes)
    → IsLine host
    → IsLine port
    → IsLine (redirect_authority host port default)
unfolding redirect_authority
redirect_authority-IsLine host port default h p =
    chosen-All IsFieldByte (is_nil port || beq port default) host _ h
      (All-append IsFieldByte host (codes ":" ++ port) h (omega arith, p))

-- A context whose host and ports are lines, and whose rules are clean.
pub record IsSafe (c : Context) : Type 0 where
  pub host : IsLine c.host_key
  pub https_port : IsLine c.https_port
  pub http_port : IsLine c.http_port
  pub rules : (r : Redirects) × IsClean r × (c.site.redirects ≡ finish r)

pub after_scheme :
    (scheme rest : Bytes) → is_line scheme ≡ true → IsLine rest → IsLine (scheme ++ rest)
after_scheme scheme rest h r = All-append IsFieldByte scheme rest (is_line-IsLine scheme h) r

pub origin-IsLine : (c : Context) → IsSafe c → IsLine (origin c)
unfolding origin is_line
origin-IsLine c s =
    chosen-All IsFieldByte (c.redirect_https && not c.site.force_ssl) _ _
      (after_scheme (codes "http://") _ refl
        (redirect_authority-IsLine c.host_key c.http_port (codes "80") s.host s.http_port))
      (after_scheme (codes "https://") _ refl
        (redirect_authority-IsLine c.host_key c.https_port (codes "443") s.host s.https_port))

pub rule_location-IsLine :
    (c : Context) (query to : Bytes)
    → IsSafe c
    → IsLine query
    → IsLine to
    → IsLine (rule_location c query to)
unfolding rule_location
rule_location-IsLine c query to s q t =
    let rest = chosen-All IsFieldByte (any (λ b. b == b'?') to) [] query tt q in
    let whole = All-append IsFieldByte to _ t rest in
    chosen-All IsFieldByte (is_absolute to) _ _ whole
      (All-append IsFieldByte (origin c) _ (origin-IsLine c s) whole)

pub printable-IsLine : (s : Bytes) → IsPrintableText s → IsLine s
printable-IsLine s h = All-map IsPrintable IsFieldByte s IsPrintable-IsFieldByte h

fold_index-All :
    (P : ℕ → Type 0) (stem : Bytes) (o : Option Bytes)
    → P b'/'
    → All P stem
    → ((dir : Bytes) → o ≡ some dir → All P dir)
    → All P (fold_index stem o)
unfolding fold_index
fold_index-All P stem none p h d = All-append P stem (codes "/") h (p, tt)
fold_index-All P stem (some dir) p h d =
    chosen-All P (is_nil dir || ends_with (codes "/") dir) dir _ (d dir refl)
      (All-append P stem (codes "/") h (p, tt))

pub canonical_form-All :
    (P : ℕ → Type 0) (path : Bytes) {canon : Bytes}
    → P b'/'
    → All P path
    → canonical_form path ≡ some canon
    → All P canon
unfolding canonical_form
canonical_form-All P path {canon} p h e =
    let (stem, s, f) = >>=-eq-some (strip_suffix (codes ".html") path) _ e in
    let all_stem = strip_suffix-All P (codes ".html") path s h in
    subst (All P) (some-injective _ _ f) (
      fold_index-All P stem (strip_suffix (codes "index") stem) p all_stem
        (λ dir k. strip_suffix-All P (codes "index") stem k all_stem))

pub decode_path-IsByte :
    (path : Bytes) {decoded : Bytes} → decode_path path ≡ some decoded → All IsByte decoded
unfolding decode_path
decode_path-IsByte path {decoded} e =
    let (b, d, f) = >>=-eq-some (percent_decode path) _ e in
    elim (Bool-cases (is_utf8 b)) [
      | inl u ↦
          subst (All IsByte) (some-injective b decoded (let k = rw u at f in k))
            (is_utf8-IsByte b u)
      | inr u ↦ absurd (let k = rw u at f in ground arith)
    ]
