-- ===== src/Head/Scan.antt =====
-- src/main.rs, `find`: positions where a text does not stand, and the first where it does.
use bare_server.Base.{
  ℕ, zero, suc, ◌+◌, ◌≤◌, ◌<◌, ◌≡◌, refl, false, Option, none, some, [], ◌∷◌, ◌++◌, length, take,
  drop, arith, Bytes, Bool-cases, Option-cases, inl, inr, ltb, ltb→lt, ap, sym, ◌∙◌,
}
use bare_server.Text.{starts_with, starts_with-eq-true}
use bare_server.Head.{plus_one, window_position, find}

-- `needle` does not stand at any of the first `k` positions of a text.
abbrev pub NoMatch : Bytes → ℕ → Bytes → Type 0
NoMatch needle zero s = Unit
NoMatch needle (suc k) [] = Unit
NoMatch needle (suc k) (c ∷ s) = (starts_with needle (c ∷ s) ≡ false) × NoMatch needle k s

abbrev pub plus : ℕ → Option ℕ → Option ℕ
plus k none = none
plus k (some i) = some (k + i)

plus-suc : (k : ℕ) (o : Option ℕ) → plus_one (plus k o) ≡ plus (suc k) o
plus-suc k none = refl
plus-suc k (some i) = ground arith

pub window_position-skip :
    (needle : Bytes) (k : ℕ) (s : Bytes)
    → NoMatch needle k s
    → window_position needle s ≡ plus k (window_position needle (drop k s))
unfolding window_position
window_position-skip needle zero s h = elim (Option-cases (window_position needle s)) [
  | inl e ↦ rw e
  | inr (i, e) ↦ rw e (ground arith)
]
window_position-skip needle (suc k) [] h = refl
window_position-skip needle (suc k) (c ∷ s) h =
    ground
      (arith, window_position-skip needle k s h.1, plus-suc k (window_position needle (drop k s)))

pub window_position-none :
    (needle s : Bytes) (k : ℕ) → window_position needle s ≡ none → NoMatch needle k s
unfolding window_position
window_position-none needle s zero h = tt
window_position-none needle [] (suc k) h = tt
window_position-none needle (c ∷ s) (suc k) h = ground (arith, window_position-none needle s k)

starts_with-append_long :
    (p s rest : Bytes) → length p ≤ length s → starts_with p (s ++ rest) ≡ starts_with p s
unfolding starts_with
starts_with-append_long [] s rest h = refl
starts_with-append_long (x ∷ p) [] rest h = absurd (omega arith)
starts_with-append_long (x ∷ p) (c ∷ s) rest h = ground (arith, starts_with-append_long p s rest)

pub NoMatch-append :
    (needle : Bytes) (k : ℕ) (s rest : Bytes)
    → 0 < length needle
    → k + length needle ≤ length s + 1
    → NoMatch needle k s
    → NoMatch needle k (s ++ rest)
NoMatch-append needle zero s rest p h m = tt
NoMatch-append needle (suc k) [] rest p h m = absurd (omega arith)
NoMatch-append needle (suc k) (c ∷ s) rest p h m = (
  starts_with-append_long needle (c ∷ s) rest (omega arith) ∙ m.0,
  NoMatch-append needle k s rest p (omega arith) m.1,
)

starts_with_short : (p s : Bytes) → length s < length p → starts_with p s ≡ false
unfolding starts_with
starts_with_short [] s h = absurd (omega arith)
starts_with_short (x ∷ p) [] h = refl
starts_with_short (x ∷ p) (c ∷ s) h = ground (arith, starts_with_short p s)

window_position-short :
    (needle s : Bytes) → length s < length needle → window_position needle s ≡ none
unfolding window_position
window_position-short needle [] h = refl
window_position-short needle (c ∷ s) h =
    ground (arith, starts_with_short needle (c ∷ s) h, window_position-short needle s)

-- The guards of `find` change nothing at a needle that is not empty.
pub find-window_position :
    (hay : Bytes) (x : ℕ) (p : Bytes) → find hay (x ∷ p) ≡ window_position (x ∷ p) hay
unfolding find
find-window_position hay x p = elim (Bool-cases (ltb (length hay) (suc (length p)))) [
  | inl short ↦
      let h : length hay < length (x ∷ p) = ltb→lt _ _ short in
      rw short (sym (window_position-short (x ∷ p) hay h))
  | inr long ↦ rw long
]

-- `found` is where `needle` first occurs in a text, if it does.
abbrev pub IsFirst : Bytes → Bytes → Option ℕ → Type 0
IsFirst needle s none = (k : ℕ) → NoMatch needle k s
IsFirst needle s (some i) =
    (rest : Bytes) × (s ≡ take i s ++ (needle ++ rest)) × (i ≤ length s) × NoMatch needle i s

IsFirst-plus_one :
    (needle : Bytes) (c : ℕ) (s : Bytes) (found : Option ℕ)
    → starts_with needle (c ∷ s) ≡ false
    → IsFirst needle s found
    → IsFirst needle (c ∷ s) (plus_one found)
IsFirst-plus_one needle c s none e f = go
  where
    go : (k : ℕ) → NoMatch needle k (c ∷ s)
    go zero = tt
    go (suc k) = (e, f k)
IsFirst-plus_one needle c s (some i) e (rest, q, l, m) = (rest, ap (◌∷◌ c) q, omega arith, (e, m))

NoMatch-nil : (needle : Bytes) (k : ℕ) → NoMatch needle k []
NoMatch-nil needle zero = tt
NoMatch-nil needle (suc k) = tt

window_position-IsFirst : (needle s : Bytes) → IsFirst needle s (window_position needle s)
unfolding window_position
window_position-IsFirst needle [] = NoMatch-nil needle
window_position-IsFirst needle (c ∷ s) = elim (Bool-cases (starts_with needle (c ∷ s))) [
  | inl e ↦ let (rest, q) = starts_with-eq-true needle (c ∷ s) e in rw e (rest, q, omega arith, tt)
  | inr e ↦ rw e (IsFirst-plus_one needle c s _ e (window_position-IsFirst needle s))
]

-- `find` with a needle that is not empty returns the position where the needle first occurs, with no
-- occurrence before it, and `None` exactly when the needle occurs nowhere.
pub find-IsFirst : (hay : Bytes) (x : ℕ) (p : Bytes) → IsFirst (x ∷ p) hay (find hay (x ∷ p))
find-IsFirst hay x p = rw find-window_position (window_position-IsFirst (x ∷ p) hay)
