-- ===== src/Watch/Contents.antt =====
-- src/main.rs, `watch`, the scan of the contents, and `error_page_bytes`. A site is known by its identity,
-- the address behind its `Arc`: a number, under which the live sites are kept. A map is walked in the order
-- of its association list. `tree_failed` decides only what is logged, and is left out.
pub mod Swap
pub mod Budget
use bare_server.Base.{
  ℕ, ◌+◌, Bool, true, false, ◌&&◌, not, Option, none, some, List, [], ◌∷◌, ◌==◌, if◌then◌else◌,
  Bytes,
}
use bare_server.Text.{Table, get, insert}
use bare_server.Response.{ErrorPages, errors_retained_bytes}
use bare_server.Site.{Cached}
use bare_server.Cache.{BuildPolicy}
use bare_server.Cache.Walk.{Entries, Walk, build_cache, cache_bytes}
use bare_server.Watch.{site_key}
use bare_server.Watch.Signature.{name_ltb}

-- What the scan reads of a `Site`, and its cache, which it swaps.
pub record LiveSite : Type 0 where
  pub id : ℕ
  pub root : Option Bytes
  pub policy : BuildPolicy
  pub map : Table Cached

unfoldable pub site_at : ℕ → List LiveSite → Option LiveSite
site_at i [] = none
site_at i (s ∷ sites) = if s.id == i then some s else site_at i sites

-- A write to `site.cache`.
unfoldable pub put_cache : ℕ → Table Cached → List LiveSite → List LiveSite
put_cache i map [] = []
put_cache i map (s ∷ sites) =
    (if s.id == i then record s { map = map } else s) ∷ put_cache i map sites

-- An entry of `targets`: its key, the root, and the smallest host name.
pub record Target : Type 0 where
  pub site : ℕ
  pub root : Bytes
  pub host : Bytes

abbrev pub renamed : Bytes → Target → Target
renamed host t = record t { host = if name_ltb host t.host then host else t.host }

-- `targets.entry(..)` with its two arms
unfoldable pub add_target : ℕ → Bytes → Bytes → List Target → List Target
add_target i root host [] = record { site = i; root = root; host = host } ∷ []
add_target i root host (t ∷ targets) =
    if t.site == i then renamed host t ∷ targets else t ∷ add_target i root host targets

abbrev pub add_host : Bytes → Option LiveSite → List Target → List Target
add_host host none targets = targets
add_host host (some s) targets = elim s.root [
  | none ↦ targets
  | some r ↦ add_target s.id r host targets
]

-- The loop over the virtual hosts, a table from names to sites.
unfoldable pub collect_targets : List LiveSite → Table ℕ → List Target → List Target
collect_targets sites [] targets = targets
collect_targets sites ((host, i) ∷ hosts) targets =
    collect_targets sites hosts (add_host host (site_at i sites) targets)

abbrev pub live_bytes : Option LiveSite → ℕ
live_bytes none = 0
live_bytes (some s) = cache_bytes s.map

-- What the caches of the targets but one hold.
unfoldable pub other_bytes : ℕ → List LiveSite → List Target → ℕ
other_bytes i sites [] = 0
other_bytes i sites (t ∷ targets) =
    (if t.site == i then 0 else live_bytes (site_at t.site sites)) + other_bytes i sites targets

unfoldable pub contains_id : ℕ → List ℕ → Bool
contains_id i [] = false
contains_id i (j ∷ seen) = if j == i then true else contains_id i seen

abbrev pub site_error_bytes : Option LiveSite → ℕ
site_error_bytes none = 0
site_error_bytes (some s) = errors_retained_bytes s.policy.served.errors

-- The error pages of the sites that `seen` has not yet.
unfoldable pub distinct_error_bytes : List LiveSite → Table ℕ → List ℕ → ℕ
distinct_error_bytes sites [] seen = 0
distinct_error_bytes sites ((host, i) ∷ hosts) seen =
    let again = distinct_error_bytes sites hosts seen in
    let first = distinct_error_bytes sites hosts (i ∷ seen) in
    if contains_id i seen then again else site_error_bytes (site_at i sites) + first

unfoldable pub error_page_bytes : ErrorPages → List LiveSite → Table ℕ → ℕ
error_page_bytes errors sites hosts =
    errors_retained_bytes errors + distinct_error_bytes sites hosts []

-- What the scan changes.
pub record Scan : Type 0 where
  pub sites : List LiveSite
  pub tree_applied : Table ℕ
  pub tree_last : Table ℕ

-- What it reads: the signature of a root, its entries, and the number that `BUILD_SEQ` gives a build.
module _ (gzip_compress brotli_compress : Bytes → ℕ → Bytes) (can_write : Bytes → Bool)
    (signature : Bytes → ℕ) (entries : Bytes → Option Entries) (seq : ℕ → ℕ) (errors : ErrorPages)
    (hosts : Table ℕ) where
  abbrev pub or_now : ℕ → Option ℕ → ℕ
  or_now now none = now
  or_now now (some sig) = sig

  -- The two arms behind the build.
  abbrev pub rebuilt_site : Target → Bytes → ℕ → Scan → Option Walk → Scan
  rebuilt_site t key now s none = s
  rebuilt_site t key now s (some w) = record s {
    sites = put_cache t.site w.map s.sites;
    tree_applied = insert key now s.tree_applied;
  }

  abbrev pub rebuild : List Target → Target → Bytes → ℕ → Scan → Option LiveSite → Scan
  rebuild targets t key now s none = s
  rebuild targets t key now s (some site) =
      let total = other_bytes t.site s.sites targets + error_page_bytes errors s.sites hosts in
      rebuilt_site t key now s (
        build_cache gzip_compress brotli_compress can_write (seq t.site) (entries t.root) total
          site.policy)

  abbrev pub is_settled : Bytes → ℕ → Scan → Bool
  is_settled key now s =
      not (now == or_now now (get key s.tree_applied)) && now == or_now now (get key s.tree_last)

  abbrev pub seen_now : Bytes → ℕ → Scan → Scan
  seen_now key now s = record s { tree_last = insert key now s.tree_last }

  unfoldable pub scan_target : List Target → Scan → Target → Scan
  scan_target targets s t =
      let key = site_key t.host t.root in
      let now = signature t.root in
      seen_now key now
        (if is_settled key now s then rebuild targets t key now s (site_at t.site s.sites) else s)

  unfoldable pub scan_targets : List Target → List Target → Scan → Scan
  scan_targets targets [] s = s
  scan_targets targets (t ∷ rest) s = scan_targets targets rest (scan_target targets s t)

  unfoldable pub scan_contents : Scan → Scan
  scan_contents s = let targets = collect_targets s.sites hosts [] in scan_targets targets targets s
