-- ===== src/Text/Affix.antt =====
-- Prefixes, suffixes and substrings.
use bare_server.Base.{
  ◌≡◌, refl, sym, ap, ◌∙◌, Bool, true, false, ◌||◌, Option, none, some, [], ◌∷◌, ◌++◌, reverse,
  reverse-append, reverse-reverse, arith, ◌==◌, if◌then◌else◌, Bytes, Option-cases, inl, inr,
}

-- `s.strip_prefix(p)`
unfoldable pub strip_prefix : Bytes → Bytes → Option Bytes
strip_prefix [] s = some s
strip_prefix (x ∷ p) [] = none
strip_prefix (x ∷ p) (c ∷ s) = if x == c then strip_prefix p s else none

unfoldable pub is_some : Option Bytes → Bool
is_some none = false
is_some (some r) = true

-- `s.starts_with(p)`
unfoldable pub starts_with : Bytes → Bytes → Bool
unfolding strip_prefix is_some
starts_with p s = is_some (strip_prefix p s)

unfoldable pub reversed : Option Bytes → Option Bytes
reversed none = none
reversed (some r) = some (reverse r)

-- `s.strip_suffix(p)`
unfoldable pub strip_suffix : Bytes → Bytes → Option Bytes
unfolding strip_prefix reversed
strip_suffix p s = reversed (strip_prefix (reverse p) (reverse s))

-- `s.ends_with(p)`
unfoldable pub ends_with : Bytes → Bytes → Bool
unfolding strip_suffix is_some
ends_with p s = is_some (strip_suffix p s)

-- `s.contains(p)`
unfoldable pub contains : Bytes → Bytes → Bool
unfolding starts_with
contains p [] = starts_with p []
contains p (c ∷ s) = starts_with p (c ∷ s) || contains p s

pub strip_prefix-append : (p s : Bytes) → strip_prefix p (p ++ s) ≡ some s
unfolding strip_prefix
strip_prefix-append [] s = refl
strip_prefix-append (x ∷ p) s = ground (arith, strip_prefix-append p s)

pub strip_prefix-eq-some : (p s : Bytes) {r : Bytes} → strip_prefix p s ≡ some r → s ≡ p ++ r
unfolding strip_prefix
strip_prefix-eq-some [] s h = ground arith
strip_prefix-eq-some (x ∷ p) [] h = ground arith
strip_prefix-eq-some (x ∷ p) (c ∷ s) {r} h = ground (arith, strip_prefix-eq-some p s {r = r})

pub starts_with-append : (p s : Bytes) → starts_with p (p ++ s) ≡ true
unfolding starts_with is_some
starts_with-append p s = rw strip_prefix-append

pub starts_with-eq-true : (p s : Bytes) → starts_with p s ≡ true → (r : Bytes) × (s ≡ p ++ r)
unfolding starts_with is_some
starts_with-eq-true p s h = elim (Option-cases (strip_prefix p s)) [
  | inl e ↦ absurd (ground (arith, e))
  | inr (r, e) ↦ (r, strip_prefix-eq-some p s e)
]

pub strip_suffix-append : (s p : Bytes) → strip_suffix p (s ++ p) ≡ some s
unfolding strip_suffix reversed
strip_suffix-append s p =
    rw (reverse-append s p, strip_prefix-append (reverse p) (reverse s))
      (ap some (reverse-reverse s))

reversed-eq-some : (o : Option Bytes) {r : Bytes} → reversed o ≡ some r → o ≡ some (reverse r)
unfolding reversed
reversed-eq-some none h = ground arith
reversed-eq-some (some t) {r} h = let e : reverse t ≡ r = ground arith in rw (← e, reverse-reverse)

pub strip_suffix-eq-some : (p s : Bytes) {r : Bytes} → strip_suffix p s ≡ some r → s ≡ r ++ p
unfolding strip_suffix
strip_suffix-eq-some p s {r} h =
    let e = strip_prefix-eq-some (reverse p) (reverse s) (reversed-eq-some _ h) in
    sym (reverse-reverse s)
    ∙ ap reverse e
    ∙ reverse-append (reverse p) (reverse r)
    ∙ rw (reverse-reverse r, reverse-reverse p)

pub ends_with-append : (s p : Bytes) → ends_with p (s ++ p) ≡ true
unfolding ends_with is_some
ends_with-append s p = rw strip_suffix-append

pub ends_with-eq-true : (p s : Bytes) → ends_with p s ≡ true → (r : Bytes) × (s ≡ r ++ p)
unfolding ends_with is_some
ends_with-eq-true p s h = elim (Option-cases (strip_suffix p s)) [
  | inl e ↦ absurd (ground (arith, e))
  | inr (r, e) ↦ (r, strip_suffix-eq-some p s e)
]
