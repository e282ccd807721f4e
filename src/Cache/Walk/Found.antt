-- ===== src/Cache/Walk/Found.antt =====
-- src/cache.rs, `walk` and `build_cache`: the files that a walk comes to, and what it keeps.
use bare_server.Base.{
  ℕ, ◌≡◌, ◌⊎◌, inl, inr, refl, ap, subst, Bool, true, false, Option, [], ◌∷◌, arith, if◌then◌else◌,
  Bytes, All, Bool-cases,
}
use bare_server.Text.{beq, Table, insert}
use bare_server.Cache.{BuildPolicy}
use bare_server.Cache.Walk.{
  Entries, nothing, skipped, file, dir, unreadable_dir, is_hidden, Walk, url_of, then_walk,
  load_file, walk,
}

-- A regular file that no hidden name and no symbolic link keeps the walk from, with its URL, its size and
-- what reading it returns.
abbrev pub Listed : Bytes → Entries → Bytes → ℕ → Option Bytes → Type 0
Listed prefix nothing url size read = ⊥
Listed prefix (skipped name rest) url size read = Listed prefix rest url size read
Listed prefix (unreadable_dir name rest) url size read = Listed prefix rest url size read
Listed prefix (file name n content rest) url size read =
    ((is_hidden name ≡ false) × (url_of prefix name ≡ url) × (n ≡ size) × (content ≡ read))
    ⊎ Listed prefix rest url size read
Listed prefix (dir name children rest) url size read =
    ((is_hidden name ≡ false) × Listed (url_of prefix name) children url size read)
    ⊎ Listed prefix rest url size read

-- Every directory that no hidden name keeps the walk from can be read.
abbrev pub IsReadable : Entries → Type 0
IsReadable nothing = Unit
IsReadable (skipped name rest) = IsReadable rest
IsReadable (unreadable_dir name rest) = (is_hidden name ≡ true) × IsReadable rest
IsReadable (file name n content rest) = IsReadable rest
IsReadable (dir name children rest) =
    ((is_hidden name ≡ true) ⊎ IsReadable children) × IsReadable rest

pub insert-All {ℓ κ} :
    {V : Type ℓ} (R : Bytes × V → Type κ) (k : Bytes) (v : V) (m : Table V)
    → R (k, v)
    → All R m
    → All R (insert k v m)
unfolding insert
insert-All R k v [] r h = (r, tt)
insert-All R k v ((j, w) ∷ m) r h = elim (Bool-cases (beq j k)) [
  | inl e ↦ rw e (r, h.1)
  | inr e ↦ rw e (h.0, insert-All R k v m r h.1)
]

pub then_walk-eq-true :
    (r : Bool × Walk) (f : Walk → Bool × Walk) {w : Walk}
    → then_walk r f ≡ (true, w)
    → (v : Walk) × (r ≡ (true, v)) × (f v ≡ (true, w))
then_walk-eq-true (true, v) f h = (v, refl, h)
then_walk-eq-true (false, v) f h = absurd (ground (arith, ap (λ r. r.0) h))

module _ (J : Walk → Type 0) where
  then_walk-keeps :
      (r : Bool × Walk) (f : Walk → Bool × Walk)
      → J r.1
      → ((v : Walk) → J v → J (f v).1)
      → J (then_walk r f).1
  then_walk-keeps (true, v) f j k = k v j
  then_walk-keeps (false, v) f j k = j

  unless :
      (hidden : Bool) (w : Walk) (r : Bool × Walk)
      → J w
      → (hidden ≡ false → J r.1)
      → J (if hidden then (true, w) else r).1
  unless true w r j k = j
  unless false w r j k = k refl

  module _ (g b : Bytes → ℕ → Bytes) (c : Bytes → Bool) (p : BuildPolicy) (d : Option Bytes) where
    -- What every listed file keeps, the walk keeps.
    pub walk-keeps :
        (prefix : Bytes) (entries : Entries)
        → ((url : Bytes) (size : ℕ) (read : Option Bytes)
            → Listed prefix entries url size read
            → (w : Walk) → J w
            → J (load_file g b c p d url size read w).1)
        → (w : Walk) → J w
        → J (walk g b c p d prefix entries w).1
    unfolding walk
    walk-keeps prefix nothing k w j = j
    walk-keeps prefix (skipped name rest) k w j = walk-keeps prefix rest k w j
    walk-keeps prefix (unreadable_dir name rest) k w j =
        then_walk-keeps _ _ (unless (is_hidden name) w (false, w) j (λ e. j))
          (λ v i. walk-keeps prefix rest k v i)
    walk-keeps prefix (file name n content rest) k w j =
        then_walk-keeps _ _
          (unless (is_hidden name) w _ j
            (λ e. k (url_of prefix name) n content (inl (e, refl, refl, refl)) w j))
          (λ v i. walk-keeps prefix rest (λ u m r l. k u m r (inr l)) v i)
    walk-keeps prefix (dir name children rest) k w j =
        then_walk-keeps _ _
          (unless (is_hidden name) w _ j
            (λ e. walk-keeps (url_of prefix name) children (λ u m r l. k u m r (inl (e, l))) w j))
          (λ v i. walk-keeps prefix rest (λ u m r l. k u m r (inr l)) v i)

chosen-eq-true :
    (hidden : Bool) (w : Walk) (r : Bool × Walk) {v : Walk}
    → (if hidden then (true, w) else r) ≡ (true, v)
    → hidden ≡ false
    → r ≡ (true, v)
chosen-eq-true true w r h e = absurd (ground arith)
chosen-eq-true false w r h e = h

abbrev visited : Bytes → Walk → Bool × Walk → Bool × Walk
visited name w r = if is_hidden name then (true, w) else r

unreadable :
    (hidden : Bool) (w : Walk) {v : Walk}
    → ◌≡◌ {A = Bool × Walk} (if hidden then (true, w) else (false, w)) (true, v)
    → hidden ≡ true
unreadable true w h = refl
unreadable false w h = absurd (ground (arith, ap (λ r. r.0) h))

module _ (g b : Bytes → ℕ → Bytes) (c : Bytes → Bool) (p : BuildPolicy) (d : Option Bytes) where
  -- A walk that succeeds has come to no directory that it could not read.
  pub walk-IsReadable :
      (prefix : Bytes) (entries : Entries) (w : Walk) {v : Walk}
      → walk g b c p d prefix entries w ≡ (true, v)
      → IsReadable entries
  unfolding walk
  walk-IsReadable prefix nothing w h = tt
  walk-IsReadable prefix (skipped name rest) w h = walk-IsReadable prefix rest w h
  walk-IsReadable prefix (unreadable_dir name rest) w h =
      let (v, first, behind) =
        then_walk-eq-true (visited name w (false, w)) (λ v. walk g b c p d prefix rest v) h in
      (unreadable (is_hidden name) w first, walk-IsReadable prefix rest v behind)
  walk-IsReadable prefix (file name n content rest) w h =
      let (v, first, behind) =
        then_walk-eq-true (visited name w (load_file g b c p d (url_of prefix name) n content w))
          (λ v. walk g b c p d prefix rest v) h in
      walk-IsReadable prefix rest v behind
  walk-IsReadable prefix (dir name children rest) w h =
      let (v, first, behind) =
        then_walk-eq-true (visited name w (walk g b c p d (url_of prefix name) children w))
          (λ v. walk g b c p d prefix rest v) h in
      (
        elim (Bool-cases (is_hidden name)) [
          | inl e ↦ inl e
          | inr e ↦ inr (
              walk-IsReadable (url_of prefix name) children w (
                chosen-eq-true (is_hidden name) w (walk g b c p d (url_of prefix name) children w)
                  first e))
        ],
        walk-IsReadable prefix rest v behind,
      )

  -- What a listed file brings about and every file keeps, a walk that succeeds brings about.
  pub walk-reaches :
      (J : Walk → Type 0) (url : Bytes) (size : ℕ) (read : Option Bytes)
      → ((u : Bytes) (n : ℕ) (r : Option Bytes) (w : Walk)
          → J w
          → J (load_file g b c p d u n r w).1)
      → ((w v : Walk) → load_file g b c p d url size read w ≡ (true, v) → J v)
      → (prefix : Bytes) (entries : Entries) (w : Walk) {v : Walk}
      → walk g b c p d prefix entries w ≡ (true, v)
      → Listed prefix entries url size read
      → J v
  unfolding walk
  walk-reaches J url size read k r prefix nothing w h l = elim l [ ]
  walk-reaches J url size read k r prefix (skipped name rest) w h l =
      walk-reaches J url size read k r prefix rest w h l
  walk-reaches J url size read k r prefix (unreadable_dir name rest) w h l =
      let (v, first, behind) =
        then_walk-eq-true (visited name w (false, w)) (λ v. walk g b c p d prefix rest v) h in
      walk-reaches J url size read k r prefix rest v behind l
  walk-reaches J url size read k r prefix (file name n content rest) w h (inr l) =
      let (v, first, behind) =
        then_walk-eq-true (visited name w (load_file g b c p d (url_of prefix name) n content w))
          (λ v. walk g b c p d prefix rest v) h in
      walk-reaches J url size read k r prefix rest v behind l
  walk-reaches J url size read k r prefix (dir name children rest) w h (inr l) =
      let (v, first, behind) =
        then_walk-eq-true (visited name w (walk g b c p d (url_of prefix name) children w))
          (λ v. walk g b c p d prefix rest v) h in
      walk-reaches J url size read k r prefix rest v behind l
  walk-reaches J url size read k r prefix (file name n content rest) w h (inl (e, f, m, q)) =
      let (v, first, behind) =
        then_walk-eq-true (visited name w (load_file g b c p d (url_of prefix name) n content w))
          (λ v. walk g b c p d prefix rest v) h in
      subst (λ x. J x.1) behind
        (walk-keeps J g b c p d prefix rest (λ u n o l w. k u n o w) v
          (r w v (
            subst (λ x. load_file g b c p d x size read w ≡ (true, v)) f
              (subst (λ x. load_file g b c p d (url_of prefix name) x read w ≡ (true, v)) m
                (subst (λ x. load_file g b c p d (url_of prefix name) n x w ≡ (true, v)) q
                  (chosen-eq-true (is_hidden name) w
                    (load_file g b c p d (url_of prefix name) n content w) first e))))))
  walk-reaches J url size read k r prefix (dir name children rest) w h (inl (e, l)) =
      let (v, first, behind) =
        then_walk-eq-true (visited name w (walk g b c p d (url_of prefix name) children w))
          (λ v. walk g b c p d prefix rest v) h in
      subst (λ x. J x.1) behind
        (walk-keeps J g b c p d prefix rest (λ u n o l w. k u n o w) v
          (walk-reaches J url size read k r (url_of prefix name) children w
            (chosen-eq-true (is_hidden name) w (walk g b c p d (url_of prefix name) children w)
              first e)
            l))
