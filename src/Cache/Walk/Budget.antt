-- ===== src/Cache/Walk/Budget.antt =====
-- src/cache.rs, `build_cache`: the budget of a cache in RAM, and when a build fails.
use bare_server.Base.{
  ℕ, ◌+◌, ◌≤◌, ◌≡◌, inl, inr, refl, sym, ap, subst, Bool, true, false, Option, none, some, [], ◌∷◌,
  arith, ltb, if◌then◌else◌, Bytes, Bool-cases,
}
use bare_server.Text.{beq, beq_iff, Table, get, insert, get-insert}
use bare_server.Mime.{mime_for}
use bare_server.Config.{memory}
use bare_server.Site.{Cached, mem, retained_bytes}
use bare_server.Cache.{BuildPolicy, make_cached, is_some}
use bare_server.Cache.Walk.{Entries, Walk, load_file, walk, build_dir_of, build_cache, cache_bytes}
use bare_server.Cache.Walk.Found.{Listed, walk-keeps, walk-reaches}
use bare_server.Cache.Walk.Contents.{
  Loaded, kept, stored, load_file-Loaded, first_walk, build_cache-walk,
}

cache_bytes-insert :
    (url : Bytes) (cached : Cached) (m : Table Cached)
    → cache_bytes (insert url cached m) ≤ cache_bytes m + retained_bytes cached
unfolding cache_bytes insert
cache_bytes-insert url cached [] = omega arith
cache_bytes-insert url cached ((k, c) ∷ m) = elim (Bool-cases (beq k url)) [
  | inl e ↦ rw e (omega arith)
  | inr e ↦ rw e (omega (arith, cache_bytes-insert url cached m))
]

-- The cache has an entry for the URL.
abbrev pub Has : Bytes → Walk → Type 0
Has url w = is_some (get url w.map) ≡ true

insert-Has :
    (url k : Bytes) (cached : Cached) (m : Table Cached)
    → is_some (get url m) ≡ true
    → is_some (get url (insert k cached m)) ≡ true
insert-Has url k cached m h = rw (get-insert k url cached m) (ground arith)

insert-Has_same :
    (url : Bytes) (cached : Cached) (m : Table Cached)
    → is_some (get url (insert url cached m)) ≡ true
insert-Has_same url cached m = rw (get-insert url url cached m) (rw ((beq_iff url url).1 refl) refl)

module _ (g b : Bytes → ℕ → Bytes) (c : Bytes → Bool) (p : BuildPolicy) where
  -- What is charged covers what the cache holds, and stays in the budget.
  record IsCharged (start : ℕ) (w : Walk) : Type 0 where
    pub covers : start + cache_bytes w.map ≤ w.total
    pub fits : w.total ≤ p.t.max_total_bytes

  charged :
      (start : ℕ) (url : Bytes) (size : ℕ) (read : Option Bytes) (w v : Walk)
      → IsCharged start w
      → Loaded g b c p none url size read w v
      → IsCharged start v
  charged start url size read w v h (kept e f) = record {
    covers = subst (λ m. start + cache_bytes m ≤ v.total) (sym e) (omega (arith, h.covers, f));
    fits = omega (arith, h.fits, f);
  }
  charged start url size read w v h (stored content cached e m i f t r) = record {
    covers =
        subst (λ x. start + cache_bytes x ≤ v.total) (sym f)
          (omega (arith, h.covers, t, cache_bytes-insert url cached w.map));
    fits = r refl;
  }

  in_memory_walk :
      (seq total : ℕ) (root : Entries) {w : Walk}
      → p.storage ≡ memory
      → build_cache g b c seq (some root) total p ≡ some w
      → walk g b c p none [] root (first_walk g b c p total) ≡ (true, w)
  in_memory_walk seq total root {w} s h =
      subst
        (λ x. walk g b c p (build_dir_of p seq x) [] root (first_walk g b c p total) ≡ (true, w)) s
        (build_cache-walk g b c p seq total root h)

  -- A cache in RAM stays in the budget: with what was charged before it, its buffers are at most
  -- `max_total_bytes` together.
  pub build_cache-bound :
      (seq total : ℕ) (root : Entries) {w : Walk}
      → p.storage ≡ memory
      → total ≤ p.t.max_total_bytes
      → build_cache g b c seq (some root) total p ≡ some w
      → (total + cache_bytes w.map ≤ w.total) × (w.total ≤ p.t.max_total_bytes)
  unfolding cache_bytes
  build_cache-bound seq total root {w} s l h =
      let k : IsCharged total w =
        subst (λ r. IsCharged total r.1) (in_memory_walk seq total root s h)
          (walk-keeps (IsCharged total) g b c p none [] root
            (λ url size read i v j.
              charged total url size read v _ j (load_file-Loaded g b c p none url size v read))
            (first_walk g b c p total) (record { covers = omega arith; fits = l })) in
      (k.covers, k.fits)

  kept-Has :
      (url u : Bytes) (size : ℕ) (read : Option Bytes) (w v : Walk)
      → Has url w
      → Loaded g b c p none u size read w v
      → Has url v
  kept-Has url u size read w v h (kept e f) = subst (λ m. is_some (get url m) ≡ true) (sym e) h
  kept-Has url u size read w v h (stored content cached e m i f t r) =
      subst (λ x. is_some (get url x) ≡ true) (sym f) (insert-Has url u cached w.map h)

  store-Has :
      (url : Bytes) (w : Walk) (cached : Cached) (t : Bool) {v : Walk}
      → ◌≡◌ {A = Bool × Walk}
          (if t then (false, w) else (
            true,
            record {
              map = insert url cached w.map;
              total = w.total + retained_bytes cached;
              files = w.files;
            },
          ))
          (true, v)
      → Has url v
  store-Has url w cached true h = absurd (ground (arith, ap (λ r. r.0) h))
  store-Has url w cached false h =
      subst (λ r. is_some (get url r.1.map) ≡ true) h (insert-Has_same url cached w.map)

  refused :
      (t : Bool) (w v : Walk) (r : Bool × Walk)
      → ◌≡◌ {A = Bool × Walk} (if t then (false, w) else r) (true, v)
      → r ≡ (true, v)
  refused true w v r h = absurd (ground (arith, ap (λ r. r.0) h))
  refused false w v r h = h

  load_file-Has :
      (url : Bytes) (size : ℕ) (content : Bytes) (w v : Walk)
      → size ≤ p.t.max_file_size
      → load_file g b c p none url size (some content) w ≡ (true, v)
      → Has url v
  unfolding load_file
  load_file-Has url size content w v l h =
      let small : ltb p.t.max_file_size size ≡ false = ground arith in
      let k = rw small at h in
      store-Has url w (mem (make_cached g b url (mime_for url) content p))
        (ltb p.t.max_total_bytes
          (w.total + retained_bytes (mem (make_cached g b url (mime_for url) content p))))
        (refused (ltb p.t.max_total_bytes (w.total + size)) w v _ k)

  -- A cache in RAM is complete: every listed file that can be read and is not too large has an entry.
  pub build_cache-Has :
      (seq total : ℕ) (root : Entries) (url : Bytes) (size : ℕ) (content : Bytes) {w : Walk}
      → p.storage ≡ memory
      → Listed [] root url size (some content)
      → size ≤ p.t.max_file_size
      → build_cache g b c seq (some root) total p ≡ some w
      → Has url w
  build_cache-Has seq total root url size content s l m h =
      walk-reaches g b c p none (Has url) url size (some content)
        (λ u n r w j. kept-Has url u n r w _ j (load_file-Loaded g b c p none u n w r))
        (λ w v k. load_file-Has url size content w v m k) [] root (first_walk g b c p total)
        (in_memory_walk seq total root s h) l
