-- ===== src/Text/Parts.antt =====
-- What holds of every byte of a text holds of every byte of the parts that the text is taken apart into.
use bare_server.Base.{
  ℕ, ◌<◌, ◌≡◌, subst, Bool, true, ◌&&◌, Option, none, some, List, [], ◌∷◌, arith, ◌==◌, ltb, Bytes,
  All, All-append_left, All-append_right, Bool-cases, inl, inr,
}
use bare_server.Text.Split.{
  split, split_crlf, split_once, cons_first, before, from_first, cons_head,
}
use bare_server.Text.Affix.{strip_prefix, strip_prefix-eq-some, strip_suffix, strip_suffix-eq-some}
use bare_server.Text.Equal.{lower, to_ascii_lowercase}
use bare_server.Text.Utf8.{is_utf8, is_two, is_three, is_four}

module _ (P : ℕ → Type 0) where
  cons_head-All : (c : ℕ) (ps : List Bytes) → P c → All (All P) ps → All (All P) (cons_head c ps)
  cons_head-All c [] p h = ((p, tt), tt)
  cons_head-All c (q ∷ ps) p h = ((p, h.0), h.1)

  pub split-All : (sep : ℕ) (s : Bytes) → All P s → All (All P) (split sep s)
  unfolding split
  split-All sep [] h = (tt, tt)
  split-All sep (c ∷ s) h = elim (Bool-cases (c == sep)) [
    | inl e ↦ rw e (tt, split-All sep s h.1)
    | inr e ↦ rw e (cons_head-All c (split sep s) h.0 (split-All sep s h.1))
  ]

  pub split_crlf-All : (s : Bytes) → All P s → All (All P) (split_crlf s)
  unfolding split_crlf
  split_crlf-All [] h = (tt, tt)
  split_crlf-All (c ∷ []) h = (h, tt)
  split_crlf-All (c ∷ d ∷ s) h = elim (Bool-cases (c == b'\r' && d == b'\n')) [
    | inl e ↦ rw e (tt, split_crlf-All s h.1.1)
    | inr e ↦ rw e (cons_head-All c (split_crlf (d ∷ s)) h.0 (split_crlf-All (d ∷ s) h.1))
  ]

  abbrev pub AllPair : Option (Bytes × Bytes) → Type 0
  AllPair none = Unit
  AllPair (some (a, b)) = All P a × All P b

  cons_first-All : (c : ℕ) (o : Option (Bytes × Bytes)) → P c → AllPair o → AllPair (cons_first c o)
  cons_first-All c none p h = tt
  cons_first-All c (some (a, b)) p h = ((p, h.0), h.1)

  pub split_once-All : (sep : ℕ) (s : Bytes) → All P s → AllPair (split_once sep s)
  unfolding split_once
  split_once-All sep [] h = tt
  split_once-All sep (c ∷ s) h = elim (Bool-cases (c == sep)) [
    | inl e ↦ rw e (tt, h.1)
    | inr e ↦ rw e (cons_first-All c (split_once sep s) h.0 (split_once-All sep s h.1))
  ]

  pub before-All : (sep : ℕ) (s : Bytes) → All P s → All P (before sep s)
  unfolding before
  before-All sep [] h = tt
  before-All sep (c ∷ s) h = elim (Bool-cases (c == sep)) [
    | inl e ↦ rw e tt
    | inr e ↦ rw e (h.0, before-All sep s h.1)
  ]

  pub from_first-All : (sep : ℕ) (s : Bytes) → All P s → All P (from_first sep s)
  unfolding from_first
  from_first-All sep [] h = tt
  from_first-All sep (c ∷ s) h = elim (Bool-cases (c == sep)) [
    | inl e ↦ rw e h
    | inr e ↦ rw e (from_first-All sep s h.1)
  ]

  pub strip_prefix-All :
      (p s : Bytes) {rest : Bytes} → strip_prefix p s ≡ some rest → All P s → All P rest
  strip_prefix-All p s {rest} e h =
      All-append_right P p rest (subst (All P) (strip_prefix-eq-some p s e) h)

  pub strip_suffix-All :
      (p s : Bytes) {rest : Bytes} → strip_suffix p s ≡ some rest → All P s → All P rest
  strip_suffix-All p s {rest} e h =
      All-append_left P rest p (subst (All P) (strip_suffix-eq-some p s e) h)

  pub to_ascii_lowercase-All :
      ((c : ℕ) → P c → P (lower c)) → (s : Bytes) → All P s → All P (to_ascii_lowercase s)
  unfolding to_ascii_lowercase
  to_ascii_lowercase-All l [] h = tt
  to_ascii_lowercase-All l (c ∷ s) h = (l c h.0, to_ascii_lowercase-All l s h.1)

abbrev pub IsByte : ℕ → Type 0
IsByte c = c < 256

two-IsByte : (a b : ℕ) → is_two a b ≡ true → All IsByte (a ∷ b ∷ [])
two-IsByte a b h = ground arith

three-IsByte : (a b c : ℕ) → is_three a b c ≡ true → All IsByte (a ∷ b ∷ c ∷ [])
three-IsByte a b c h = ground arith

four-IsByte : (a b c d : ℕ) → is_four a b c d ≡ true → All IsByte (a ∷ b ∷ c ∷ d ∷ [])
four-IsByte a b c d h = ground arith

both : (x y : Bool) → (x && y) ≡ true → (x ≡ true) × (y ≡ true)
both x y h = ground arith

-- A UTF-8 text is made of bytes.
pub is_utf8-IsByte : (s : Bytes) → is_utf8 s ≡ true → All IsByte s
unfolding is_utf8
is_utf8-IsByte [] h = tt
is_utf8-IsByte (a ∷ []) h = ground arith
is_utf8-IsByte (a ∷ b ∷ []) h = ground (arith, is_utf8-IsByte (b ∷ []))
is_utf8-IsByte (a ∷ b ∷ c ∷ []) h =
    ground (arith, is_utf8-IsByte (b ∷ c ∷ []), is_utf8-IsByte (c ∷ []))
is_utf8-IsByte (a ∷ b ∷ c ∷ d ∷ s) h = elim (Bool-cases (ltb a 0x80)) [
  | inl e ↦ let k = rw e at h in (ground arith, is_utf8-IsByte (b ∷ c ∷ d ∷ s) k)
  | inr e ↦ elim (Bool-cases (is_two a b)) [
    | inl f ↦
        let k = rw (e, f) at h in
        let t = two-IsByte a b f in (t.0, (t.1.0, is_utf8-IsByte (c ∷ d ∷ s) k))
    | inr f ↦ elim (Bool-cases (is_three a b c)) [
      | inl g ↦
          let k = rw (e, f, g) at h in
          let t = three-IsByte a b c g in (t.0, (t.1.0, (t.1.1.0, is_utf8-IsByte (d ∷ s) k)))
      | inr g ↦
          let k = rw (e, f, g) at h in
          let (four, rest) = both (is_four a b c d) (is_utf8 s) k in
          let t = four-IsByte a b c d four in
          (t.0, (t.1.0, (t.1.1.0, (t.1.1.1.0, is_utf8-IsByte s rest))))
    ]
  ]
]
