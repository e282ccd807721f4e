-- ===== src/Watch/Contents/Budget.antt =====
-- src/main.rs, `watch`: the budget over the scan of the contents.
use bare_server.Base.{
  ℕ, ◌+◌, ◌≤◌, ◌≡◌, inl, inr, refl, subst, Bool, true, false, Option, none, some, List, [], ◌∷◌,
  ◌==◌, arith, if◌then◌else◌, Bytes, Bool-cases, All,
}
use bare_server.Text.{Table}
use bare_server.Config.{memory}
use bare_server.Site.{Cached}
use bare_server.Response.{ErrorPages}
use bare_server.Cache.{BuildPolicy}
use bare_server.Cache.Walk.Budget.{build_cache-bound}
use bare_server.Cache.Walk.{Entries, Walk, build_cache, cache_bytes}
use bare_server.Watch.Contents.{
  LiveSite, site_at, put_cache, Target, collect_targets, other_bytes, error_page_bytes, Scan,
  rebuilt_site, rebuild, scan_target, scan_targets, scan_contents,
}
use bare_server.Watch.Contents.Swap.{
  AreDistinct, collect_targets-AreDistinct, held, other_bytes-held, held-other_bytes,
  live_bytes-put, other_bytes-put, distinct_error_bytes-put,
}

-- The site keeps its cache in RAM, under the budget of the server.
abbrev pub IsBudgeted : ℕ → LiveSite → Type 0
IsBudgeted max s = (s.policy.storage ≡ memory) × (s.policy.t.max_total_bytes ≡ max)

put_cache-All :
    (max i : ℕ) (m : Table Cached) (sites : List LiveSite)
    → All (IsBudgeted max) sites
    → All (IsBudgeted max) (put_cache i m sites)
unfolding put_cache
put_cache-All max i m [] h = tt
put_cache-All max i m (s ∷ sites) h = elim (Bool-cases (s.id == i)) [
  | inl e ↦ rw e (h.0, put_cache-All max i m sites h.1)
  | inr e ↦ rw e (h.0, put_cache-All max i m sites h.1)
]

site_at-IsBudgeted :
    (max i : ℕ) (sites : List LiveSite) {s : LiveSite}
    → All (IsBudgeted max) sites
    → site_at i sites ≡ some s
    → IsBudgeted max s
unfolding site_at
site_at-IsBudgeted max i [] h e = cc
site_at-IsBudgeted max i (r ∷ sites) {s = s} h e =
    test (r.id == i) (site_at-IsBudgeted max i sites h.1) e
  where
    test :
        (b : Bool)
        → (site_at i sites ≡ some s → IsBudgeted max s)
        → (if b then some r else site_at i sites) ≡ some s
        → IsBudgeted max s
    test true k e = let q : r ≡ s = ground arith in subst (IsBudgeted max) q h.0
    test false k e = k e

-- The bound of a build, on a root that may be missing.
built-fits :
    (g b : Bytes → ℕ → Bytes) (c : Bytes → Bool) (seq total : ℕ) (root : Option Entries)
    (p : BuildPolicy) (w : Walk)
    → p.storage ≡ memory
    → total ≤ p.t.max_total_bytes
    → build_cache g b c seq root total p ≡ some w
    → total + cache_bytes w.map ≤ p.t.max_total_bytes
unfolding build_cache
built-fits g b c seq total none p w s l h = cc
built-fits g b c seq total (some root) p w s l h =
    let k = build_cache-bound g b c p seq total root s l h in omega (arith, k.0, k.1)

module _ (g b : Bytes → ℕ → Bytes) (c : Bytes → Bool) (signature : Bytes → ℕ)
    (entries : Bytes → Option Entries) (seq : ℕ → ℕ) (errors : ErrorPages) (hosts : Table ℕ)
    (max : ℕ) where
  -- The caches of the targets and the error pages are in the budget.
  record IsWithin (ts : List Target) (s : Scan) : Type 0 where
    pub budgeted : All (IsBudgeted max) s.sites
    pub fits : held s.sites ts + error_page_bytes errors s.sites hosts ≤ max

  swap-IsWithin :
      (ts : List Target) (t : Target) (key : Bytes) (now : ℕ) (s : Scan) (site : LiveSite)
      → AreDistinct ts
      → IsWithin ts s
      → site_at t.site s.sites ≡ some site
      → (o : Option Walk)
      → build_cache g b c
          (seq t.site)
          (entries t.root)
          (other_bytes t.site s.sites ts + error_page_bytes errors s.sites hosts)
          site.policy
        ≡ o
      → IsWithin ts (rebuilt_site g b c signature entries seq errors hosts t key now s o)
  unfolding error_page_bytes
  swap-IsWithin ts t key now s site d w e none h = record { budgeted = w.budgeted; fits = w.fits }
  swap-IsWithin ts t key now s site d w e (some v) h =
      let q : IsBudgeted max site = site_at-IsBudgeted max t.site s.sites w.budgeted e in
      let l : other_bytes t.site s.sites ts + error_page_bytes errors s.sites hosts
          ≤ site.policy.t.max_total_bytes =
        omega (arith, q.1, w.fits, other_bytes-held t.site s.sites ts) in
      let f = built-fits g b c (seq t.site) _ (entries t.root) site.policy v q.0 l h in
      record {
        budgeted = put_cache-All max t.site v.map s.sites w.budgeted;
        fits = omega (
          arith,
          q.1,
          f,
          held-other_bytes t.site (put_cache t.site v.map s.sites) ts d,
          other_bytes-put t.site v.map s.sites ts,
          live_bytes-put t.site v.map s.sites,
          distinct_error_bytes-put t.site v.map s.sites hosts [],
        );
      }

  rebuild-IsWithin :
      (ts : List Target) (t : Target) (key : Bytes) (now : ℕ) (s : Scan)
      → AreDistinct ts
      → IsWithin ts s
      → (o : Option LiveSite) → site_at t.site s.sites ≡ o
      → IsWithin ts (rebuild g b c signature entries seq errors hosts ts t key now s o)
  rebuild-IsWithin ts t key now s d w none e = w
  rebuild-IsWithin ts t key now s d w (some site) e = swap-IsWithin ts t key now s site d w e _ refl

  scan_target-IsWithin :
      (ts : List Target) (t : Target) (s : Scan)
      → AreDistinct ts
      → IsWithin ts s
      → IsWithin ts (scan_target g b c signature entries seq errors hosts ts s t)
  unfolding scan_target
  scan_target-IsWithin ts t s d w =
      let r = test _ _ s (rebuild-IsWithin ts t _ _ s d w _ refl) w in
      record { budgeted = r.budgeted; fits = r.fits }
    where
      test :
          (x : Bool) (u v : Scan) → IsWithin ts u → IsWithin ts v → IsWithin ts (if x then u else v)
      test true u v h k = h
      test false u v h k = k

  scan_targets-IsWithin :
      (ts rest : List Target) (s : Scan)
      → AreDistinct ts
      → IsWithin ts s
      → IsWithin ts (scan_targets g b c signature entries seq errors hosts ts rest s)
  unfolding scan_targets
  scan_targets-IsWithin ts [] s d w = w
  scan_targets-IsWithin ts (t ∷ rest) s d w =
      scan_targets-IsWithin ts rest _ d (scan_target-IsWithin ts t s d w)

  -- A scan that rebuilds any number of sites, in any order, keeps all caches and error pages together in
  -- the budget of the server, if the sites keep their caches in RAM under that budget and were in it
  -- before.
  pub scan_contents-bound :
      (s : Scan)
      → All (IsBudgeted max) s.sites
      → held s.sites (collect_targets s.sites hosts []) + error_page_bytes errors s.sites hosts
        ≤ max
      → held
            (scan_contents g b c signature entries seq errors hosts s).sites
            (collect_targets s.sites hosts [])
          + error_page_bytes errors
              (scan_contents g b c signature entries seq errors hosts s).sites
              hosts
        ≤ max
  unfolding scan_contents
  scan_contents-bound s h l =
      (scan_targets-IsWithin (collect_targets s.sites hosts []) (collect_targets s.sites hosts []) s
        (collect_targets-AreDistinct s.sites hosts [] tt) (record { budgeted = h; fits = l })).fits
