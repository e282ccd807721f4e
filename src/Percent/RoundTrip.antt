-- ===== src/Percent/RoundTrip.antt =====
-- src/main.rs: `percent_decode` behind `percent_encode_path`.
use bare_server.Base.{
  ℕ, ◌+◌, ◌*◌, ◌/◌, ◌%◌, ◌<◌, ◌≡◌, refl, ◌∙◌, ap, true, false, some, [], ◌∷◌, ◌++◌, ◌==◌, inl, inr,
  arith, Bytes, All, Bool-cases,
}
use bare_server.Percent.{
  hexval, is_control, push, escape_value, percent_decode, is_bare, hex_digit, escape, push_escape,
  percent_encode_path,
}

-- A byte that a decoded path may hold.
abbrev pub IsPathByte : ℕ → Type 0
IsPathByte c = (c < 256) × (is_control c ≡ false)

hexval-hex_digit : (d : ℕ) → d < 16 → hexval (hex_digit d) ≡ some d
unfolding hexval
hexval-hex_digit d h = ground arith

escape_value-hex_digit :
    (c : ℕ) → c < 256 → escape_value (hex_digit (c / 16)) (hex_digit (c % 16)) ≡ some c
unfolding escape_value
escape_value-hex_digit c h =
    rw (hexval-hex_digit (c / 16) (omega arith), hexval-hex_digit (c % 16) (omega arith))
      (let e : c / 16 * 16 + c % 16 ≡ c = omega arith in ap some e)

percent_decode-bare :
    (c : ℕ) (s : Bytes) → (c == b'%') ≡ false → percent_decode (c ∷ s) ≡ push c (percent_decode s)
unfolding percent_decode
percent_decode-bare c [] h = ground arith
percent_decode-bare c (x ∷ []) h = ground arith
percent_decode-bare c (x ∷ y ∷ s) h = ground arith

percent-not_bare : is_bare b'%' ≡ false
unfolding is_bare
percent-not_bare = refl

is_bare-ne_percent : (c : ℕ) → is_bare c ≡ true → (c == b'%') ≡ false
is_bare-ne_percent c h = elim (Bool-cases (c == b'%')) [
  | inl e ↦ let q : c ≡ b'%' = ground arith in absurd (cc (percent-not_bare, ap is_bare q))
  | inr e ↦ e
]

percent_decode-escape_value :
    (x y : ℕ) (s : Bytes) {v : ℕ}
    → escape_value x y ≡ some v
    → percent_decode (b'%' ∷ x ∷ y ∷ s) ≡ push v (percent_decode s)
unfolding percent_decode
percent_decode-escape_value x y s e = ap (λ o. push_escape o (percent_decode s)) e

push-IsPathByte : (c : ℕ) (s : Bytes) → IsPathByte c → push c (some s) ≡ some (c ∷ s)
unfolding push
push-IsPathByte c s h = ground arith

percent_decode-escape :
    (c : ℕ) (s : Bytes) → IsPathByte c → percent_decode (escape c ++ s) ≡ push c (percent_decode s)
percent_decode-escape c s h = percent_decode-escape_value _ _ s (escape_value-hex_digit c h.0)

-- Decoding an encoded path gives the path back, for every path of bytes that are no control bytes.
pub percent_decode-percent_encode_path :
    (s : Bytes) → All IsPathByte s → percent_decode (percent_encode_path s) ≡ some s
unfolding percent_encode_path
percent_decode-percent_encode_path [] h = unfold percent_decode in refl
percent_decode-percent_encode_path (c ∷ s) h = elim (Bool-cases (is_bare c)) [
  | inl e ↦ rw e (
      percent_decode-bare c (percent_encode_path s) (is_bare-ne_percent c e)
      ∙ ap (push c) (percent_decode-percent_encode_path s h.1)
      ∙ push-IsPathByte c s h.0)
  | inr e ↦ rw e (
      percent_decode-escape c (percent_encode_path s) h.0
      ∙ ap (push c) (percent_decode-percent_encode_path s h.1)
      ∙ push-IsPathByte c s h.0)
]
