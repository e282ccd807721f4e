-- ===== src/Watch/Contents/Swap.antt =====
-- src/main.rs, `watch`: the targets of the scan, and what the swap of one cache changes in the sums.
use bare_server.Base.{
  ℕ, ◌+◌, ◌≤◌, ◌≡◌, ◌≢◌, inl, inr, refl, ap, subst, false, Option, none, some, List, [], ◌∷◌, ◌==◌,
  arith, Bytes, Bool-cases,
}
use bare_server.Text.{Table}
use bare_server.Site.{Cached}
use bare_server.Cache.Walk.{cache_bytes}
use bare_server.Watch.Contents.{
  LiveSite, site_at, put_cache, Target, add_target, add_host, collect_targets, live_bytes,
  other_bytes, site_error_bytes, distinct_error_bytes,
}

-- No target is the given site.
abbrev pub Absent : ℕ → List Target → Type 0
Absent i [] = Unit
Absent i (t ∷ ts) = (t.site ≢ i) × Absent i ts

-- No two targets are the same site.
abbrev pub AreDistinct : List Target → Type 0
AreDistinct [] = Unit
AreDistinct (t ∷ ts) = Absent t.site ts × AreDistinct ts

add_target-Absent :
    (j i : ℕ) (root host : Bytes) (ts : List Target)
    → i ≢ j
    → Absent j ts
    → Absent j (add_target i root host ts)
unfolding add_target
add_target-Absent j i root host [] n a = (n, tt)
add_target-Absent j i root host (t ∷ ts) n a = elim (Bool-cases (t.site == i)) [
  | inl e ↦ rw e a
  | inr e ↦ rw e (a.0, add_target-Absent j i root host ts n a.1)
]

add_target-AreDistinct :
    (i : ℕ) (root host : Bytes) (ts : List Target)
    → AreDistinct ts
    → AreDistinct (add_target i root host ts)
unfolding add_target
add_target-AreDistinct i root host [] d = (tt, tt)
add_target-AreDistinct i root host (t ∷ ts) d = elim (Bool-cases (t.site == i)) [
  | inl e ↦ rw e d
  | inr e ↦ rw e (
    add_target-Absent t.site i root host ts (ground arith) d.0,
    add_target-AreDistinct i root host ts d.1,
  )
]

add_host-AreDistinct :
    (host : Bytes) (o : Option LiveSite) (ts : List Target)
    → AreDistinct ts
    → AreDistinct (add_host host o ts)
add_host-AreDistinct host none ts d = d
add_host-AreDistinct host (some s) ts d = rooted s.root
  where
    rooted :
        (r : Option Bytes) → AreDistinct (elim r [ none ↦ ts | some r ↦ add_target s.id r host ts ])
    rooted none = d
    rooted (some r) = add_target-AreDistinct s.id r host ts d

-- The scan has one entry for each site, however many names lead to it.
pub collect_targets-AreDistinct :
    (sites : List LiveSite) (hosts : Table ℕ) (ts : List Target)
    → AreDistinct ts
    → AreDistinct (collect_targets sites hosts ts)
unfolding collect_targets
collect_targets-AreDistinct sites [] ts d = d
collect_targets-AreDistinct sites ((host, i) ∷ hosts) ts d =
    collect_targets-AreDistinct sites hosts (add_host host (site_at i sites) ts)
      (add_host-AreDistinct host (site_at i sites) ts d)

-- What the caches of all targets hold.
unfoldable pub held : List LiveSite → List Target → ℕ
held sites [] = 0
held sites (t ∷ ts) = live_bytes (site_at t.site sites) + held sites ts

pub other_bytes-held :
    (i : ℕ) (sites : List LiveSite) (ts : List Target) → other_bytes i sites ts ≤ held sites ts
unfolding other_bytes held
other_bytes-held i sites [] = omega arith
other_bytes-held i sites (t ∷ ts) = ground (arith, other_bytes-held i sites ts)

held-Absent :
    (i : ℕ) (sites : List LiveSite) (ts : List Target)
    → Absent i ts
    → held sites ts ≡ other_bytes i sites ts
unfolding other_bytes held
held-Absent i sites [] a = refl
held-Absent i sites (t ∷ ts) a = ground (arith, a.0, held-Absent i sites ts a.1)

pub held-other_bytes :
    (i : ℕ) (sites : List LiveSite) (ts : List Target)
    → AreDistinct ts
    → held sites ts ≤ other_bytes i sites ts + live_bytes (site_at i sites)
unfolding other_bytes held
held-other_bytes i sites [] d = omega arith
held-other_bytes i sites (t ∷ ts) d = elim (Bool-cases (t.site == i)) [
  | inl e ↦
      let q : t.site ≡ i = ground arith in
      let a : Absent i ts = subst (λ j. Absent j ts) q d.0 in
      let l : live_bytes (site_at t.site sites) ≡ live_bytes (site_at i sites) =
        ap (λ j. live_bytes (site_at j sites)) q in
      rw e (omega (arith, l, held-Absent i sites ts a))
  | inr e ↦ rw e (omega (arith, held-other_bytes i sites ts d.1))
]

-- A swap of a cache is seen at its own site only.
site_at-put_other :
    (i j : ℕ) (m : Table Cached) (sites : List LiveSite)
    → i ≢ j
    → site_at j (put_cache i m sites) ≡ site_at j sites
unfolding site_at put_cache
site_at-put_other i j m [] n = refl
site_at-put_other i j m (s ∷ sites) n = elim (Bool-cases (s.id == i)) [
  | inl e ↦
      let f : (s.id == j) ≡ false = ground arith in rw e (rw f (site_at-put_other i j m sites n))
  | inr e ↦ rw e (elim (Bool-cases (s.id == j)) [
    | inl f ↦ rw f refl
    | inr f ↦ rw f (site_at-put_other i j m sites n)
  ])
]

pub live_bytes-put :
    (i : ℕ) (m : Table Cached) (sites : List LiveSite)
    → live_bytes (site_at i (put_cache i m sites)) ≤ cache_bytes m
unfolding site_at put_cache
live_bytes-put i m [] = omega arith
live_bytes-put i m (s ∷ sites) = elim (Bool-cases (s.id == i)) [
  | inl e ↦ rw e (rw e (omega arith))
  | inr e ↦ rw e (rw e (live_bytes-put i m sites))
]

error_bytes-put :
    (i j : ℕ) (m : Table Cached) (sites : List LiveSite)
    → site_error_bytes (site_at j (put_cache i m sites)) ≡ site_error_bytes (site_at j sites)
unfolding site_at put_cache
error_bytes-put i j m [] = refl
error_bytes-put i j m (s ∷ sites) = elim (Bool-cases (s.id == i)) [
  | inl e ↦ rw e (elim (Bool-cases (s.id == j)) [
    | inl f ↦ rw f refl
    | inr f ↦ rw f (error_bytes-put i j m sites)
  ])
  | inr e ↦ rw e (elim (Bool-cases (s.id == j)) [
    | inl f ↦ rw f refl
    | inr f ↦ rw f (error_bytes-put i j m sites)
  ])
]

pub other_bytes-put :
    (i : ℕ) (m : Table Cached) (sites : List LiveSite) (ts : List Target)
    → other_bytes i (put_cache i m sites) ts ≡ other_bytes i sites ts
unfolding other_bytes
other_bytes-put i m sites [] = refl
other_bytes-put i m sites (t ∷ ts) = elim (Bool-cases (t.site == i)) [
  | inl e ↦ rw e (rw (other_bytes-put i m sites ts) refl)
  | inr e ↦
      let n : i ≢ t.site = ground arith in
      rw e (rw (site_at-put_other i t.site m sites n) (rw (other_bytes-put i m sites ts) refl))
]

pub distinct_error_bytes-put :
    (i : ℕ) (m : Table Cached) (sites : List LiveSite) (hosts : Table ℕ) (seen : List ℕ)
    → distinct_error_bytes (put_cache i m sites) hosts seen ≡ distinct_error_bytes sites hosts seen
unfolding distinct_error_bytes
distinct_error_bytes-put i m sites [] seen = refl
distinct_error_bytes-put i m sites ((host, j) ∷ hosts) seen =
    rw
      (
        error_bytes-put i j m sites,
        distinct_error_bytes-put i m sites hosts seen,
        distinct_error_bytes-put i m sites hosts (j ∷ seen),
      )
      refl
