-- ===== src/Route/Canonical.antt =====
-- src/main.rs, `canonical_form`: the shape of its result.
use bare_server.Base.{
  ℕ, ◌≡◌, refl, sym, ap, Option, none, some, [], ◌∷◌, ◌++◌, reverse, reverse-append, arith, Bytes,
  codes, Option-cases, Bool-cases, inl, inr, ◌⊎◌, subst, >>=-eq-some,
}
use bare_server.Text.{
  strip_suffix, strip_suffix-eq-some, strip_suffix-append, ends_with, ends_with-eq-true,
}
use bare_server.Route.{canonical_form, fold_index}

-- A path that names a directory: empty, or with a slash at its end.
abbrev pub IsDir : Bytes → Type 0
IsDir p = (p ≡ []) ⊎ ((q : Bytes) × (p ≡ q ++ codes "/"))

pub fold_index-IsDir : (stem : Bytes) (o : Option Bytes) → IsDir (fold_index stem o)
unfolding fold_index
fold_index-IsDir stem none = inr (stem, refl)
fold_index-IsDir stem (some []) = inl refl
fold_index-IsDir stem (some (c ∷ d)) = elim (Bool-cases (ends_with (codes "/") (c ∷ d))) [
  | inl e ↦ rw e (inr (ends_with-eq-true (codes "/") (c ∷ d) e))
  | inr e ↦ rw e (inr (stem, refl))
]

unfoldable pub first_or_zero : Bytes → ℕ
first_or_zero [] = 0
first_or_zero (c ∷ s) = c

-- The last byte, 0 for the empty text.
unfoldable pub last_or_zero : Bytes → ℕ
unfolding first_or_zero
last_or_zero s = first_or_zero (reverse s)

pub first_or_zero-cons : (c : ℕ) (s : Bytes) → first_or_zero (c ∷ s) ≡ c
unfolding first_or_zero
first_or_zero-cons c s = refl

pub first_or_zero-nil : first_or_zero [] ≡ 0
unfolding first_or_zero
first_or_zero-nil = refl

pub last_or_zero-first : (s : Bytes) → last_or_zero s ≡ first_or_zero (reverse s)
unfolding last_or_zero
last_or_zero-first s = refl

pub last_or_zero-html : (r : Bytes) → last_or_zero (r ++ codes ".html") ≡ b'l'
unfolding last_or_zero
last_or_zero-html r = ap first_or_zero (reverse-append r (codes ".html"))

pub last_or_zero-slash : (q : Bytes) → last_or_zero (q ++ codes "/") ≡ b'/'
unfolding last_or_zero
last_or_zero-slash q = ap first_or_zero (reverse-append q (codes "/"))

pub last_or_zero-nil : last_or_zero [] ≡ 0
unfolding last_or_zero
last_or_zero-nil = refl

pub html-not-IsDir : (r : Bytes) → ¬ IsDir (r ++ codes ".html")
html-not-IsDir r (inl e) =
    absurd (omega (arith, last_or_zero-html r, ap last_or_zero e, last_or_zero-nil))
html-not-IsDir r (inr (q, e)) =
    absurd (omega (arith, last_or_zero-html r, ap last_or_zero e, last_or_zero-slash q))

pub canonical_form-eq-some :
    (path : Bytes) {canon : Bytes}
    → canonical_form path ≡ some canon
    → (stem : Bytes) × (path ≡ stem ++ codes ".html")
      × (canon ≡ fold_index stem (strip_suffix (codes "index") stem))
unfolding canonical_form
canonical_form-eq-some path h =
    let (stem, e, k) = >>=-eq-some (strip_suffix (codes ".html") path) _ h in
    (stem, strip_suffix-eq-some (codes ".html") path e, cc k)

canonical_form-IsDir : (path : Bytes) → IsDir path → canonical_form path ≡ none
canonical_form-IsDir path d = elim (Option-cases (canonical_form path)) [
  | inl e ↦ e
  | inr (canon, e) ↦
      let (stem, q, _) = canonical_form-eq-some path e in
      absurd (html-not-IsDir stem (subst IsDir q d))
]

-- The canonical form of a path is a directory and has no canonical form of its own, so the redirect to
-- it is followed by no second one.
pub canonical_form-canonical_form :
    (path : Bytes) {canon : Bytes}
    → canonical_form path ≡ some canon
    → IsDir canon × (canonical_form canon ≡ none)
canonical_form-canonical_form path {canon} h =
    let (stem, _, e) = canonical_form-eq-some path h in
    let d : IsDir canon = subst IsDir (sym e) (fold_index-IsDir stem _) in
    (d, canonical_form-IsDir canon d)

pub canonical_form-html :
    (stem : Bytes)
    → canonical_form (stem ++ codes ".html")
      ≡ some (fold_index stem (strip_suffix (codes "index") stem))
unfolding canonical_form
canonical_form-html stem = rw (strip_suffix-append stem (codes ".html"))
