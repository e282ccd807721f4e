-- ===== src/Text/Trim.antt =====
-- `str::trim` and its relatives. A White_Space character of Unicode takes one, two or three bytes
-- of UTF-8; the end of a text is trimmed as the start of the reversed text.
use bare_server.Base.{
  ℕ, ◌≤◌, ◌≡◌, refl, ap, ◌∙◌, reverse-append, reverse-reverse, false, ◌++◌, Bool, ◌&&◌, ◌||◌, [],
  ◌∷◌, reverse, arith, ◌==◌, if◌then◌else◌, Bytes, All, All-reverse,
}
use bare_server.Text.Equal.{within}

-- U+0009 to U+000D and the space.
abbrev pub is_space : ℕ → Bool
is_space a = within 9 13 a || a == 32

-- U+0085 and U+00A0.
abbrev pub is_space_2 : ℕ → ℕ → Bool
is_space_2 a b = a == 0xc2 && (b == 0x85 || b == 0xa0)

-- U+1680, U+2000 to U+200A, U+2028, U+2029, U+202F, U+205F and U+3000.
abbrev pub is_space_3 : ℕ → ℕ → ℕ → Bool
is_space_3 a b c =
    (a == 0xe1 && b == 0x9a && c == 0x80)
    || (a == 0xe2
        && ((b == 0x80 && (within 0x80 0x8a c || within 0xa8 0xa9 c || c == 0xaf))
            || (b == 0x81 && c == 0x9f)))
    || (a == 0xe3 && b == 0x80 && c == 0x80)

module _ (two : ℕ → ℕ → Bool) (three : ℕ → ℕ → ℕ → Bool) where
  trim_by : Bytes → Bytes
  trim_by [] = []
  trim_by (a ∷ []) = if is_space a then [] else a ∷ []
  trim_by (a ∷ b ∷ []) =
      let rest = trim_by (b ∷ []) in if is_space a then rest else if two a b then [] else a ∷ b ∷ []
  trim_by (a ∷ b ∷ c ∷ s) =
      let after_1 = trim_by (b ∷ c ∷ s) in
      let after_2 = trim_by (c ∷ s) in
      let after_3 = trim_by s in
      if is_space a
      then after_1
      else if two a b
      then after_2
      else if three a b c
      then after_3
      else a ∷ b ∷ c ∷ s

  trim_by-All : (P : ℕ → Type 0) (s : Bytes) → All P s → All P (trim_by s)
  unfolding trim_by
  trim_by-All P [] h = tt
  trim_by-All P (a ∷ []) h = ground arith
  trim_by-All P (a ∷ b ∷ []) h = ground (arith, trim_by-All P (b ∷ []) h.1)
  trim_by-All P (a ∷ b ∷ c ∷ s) h =
      ground
        (arith, trim_by-All P (b ∷ c ∷ s) h.1, trim_by-All P (c ∷ s) h.1.1, trim_by-All P s h.1.1.1)

  trim_by-stop :
      (a : ℕ) (s : Bytes)
      → is_space a ≡ false
      → ((b : ℕ) → two a b ≡ false)
      → ((b c : ℕ) → three a b c ≡ false)
      → trim_by (a ∷ s) ≡ a ∷ s
  unfolding trim_by
  trim_by-stop a [] h k l = ground arith
  trim_by-stop a (b ∷ []) h k l = ground (arith, k b)
  trim_by-stop a (b ∷ c ∷ s) h k l = ground (arith, k b, l b c)

  trim_by-space : (s : Bytes) → trim_by (b' ' ∷ s) ≡ trim_by s
  unfolding trim_by
  trim_by-space [] = refl
  trim_by-space (b ∷ []) = refl
  trim_by-space (b ∷ c ∷ s) = refl

unfoldable pub trim_start : Bytes → Bytes
unfolding trim_by
trim_start = trim_by is_space_2 is_space_3

unfoldable pub trim_end : Bytes → Bytes
unfolding trim_by
trim_end s = reverse (trim_by (λ a b. is_space_2 b a) (λ a b c. is_space_3 c b a) (reverse s))

unfoldable pub trim : Bytes → Bytes
trim s = trim_end (trim_start s)

-- A visible ASCII byte.
abbrev pub IsVisible : ℕ → Type 0
IsVisible a = (0x21 ≤ a) × (a ≤ 0x7e)

trim_start-stop : (a : ℕ) (s : Bytes) → IsVisible a → trim_start (a ∷ s) ≡ a ∷ s
unfolding trim_start
trim_start-stop a s h =
    trim_by-stop is_space_2 is_space_3 a s (ground arith) (λ b. ground arith) (λ b c. ground arith)

trim_end-stop : (s : Bytes) (a : ℕ) → IsVisible a → trim_end (s ++ (a ∷ [])) ≡ s ++ (a ∷ [])
unfolding trim_end
trim_end-stop s a h =
    ap (λ r. reverse (trim_by (λ a b. is_space_2 b a) (λ a b c. is_space_3 c b a) r))
      (reverse-append s (a ∷ []))
    ∙ ap reverse (
        trim_by-stop (λ a b. is_space_2 b a) (λ a b c. is_space_3 c b a) a (reverse s)
          (ground arith) (λ b. ground arith) (λ b c. ground arith))
    ∙ reverse-append (a ∷ []) (reverse s)
    ∙ ap (λ r. r ++ (a ∷ [])) (reverse-reverse s)

-- A text between visible ASCII bytes is not trimmed.
pub trim-stop :
    (a : ℕ) (s : Bytes) (b : ℕ)
    → IsVisible a
    → IsVisible b
    → trim (a ∷ (s ++ (b ∷ []))) ≡ a ∷ (s ++ (b ∷ []))
unfolding trim
trim-stop a s b h k = ap trim_end (trim_start-stop a _ h) ∙ trim_end-stop (a ∷ s) b k

pub trim-space : (s : Bytes) → trim (b' ' ∷ s) ≡ trim s
unfolding trim trim_start
trim-space s = ap trim_end (trim_by-space is_space_2 is_space_3 s)

-- What holds of all bytes of a text holds of all bytes of the trimmed text.
pub trim-All : (P : ℕ → Type 0) (s : Bytes) → All P s → All P (trim s)
unfolding trim trim_start trim_end
trim-All P s h =
    All-reverse P _
      (trim_by-All _ _ P _ (All-reverse P _ (trim_by-All is_space_2 is_space_3 P s h)))

-- `trim_start_matches(c)` and `trim_end_matches(c)`
unfoldable pub trim_start_matches : ℕ → Bytes → Bytes
trim_start_matches c [] = []
trim_start_matches c (x ∷ s) = let rest = trim_start_matches c s in if x == c then rest else x ∷ s

unfoldable pub trim_end_matches : ℕ → Bytes → Bytes
unfolding trim_start_matches
trim_end_matches c s = reverse (trim_start_matches c (reverse s))
