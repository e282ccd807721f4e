-- ===== src/Text/Utf8.antt =====
-- `std::str::from_utf8`: which byte strings are UTF-8.
use bare_server.Base.{ℕ, Bool, true, ◌&&◌, ◌||◌, [], ◌∷◌, ◌==◌, ltb, if◌then◌else◌, Bytes}
use bare_server.Text.Equal.{within}

abbrev pub is_tail : ℕ → Bool
is_tail = within 0x80 0xbf

abbrev pub is_two : ℕ → ℕ → Bool
is_two a b = within 0xc2 0xdf a && is_tail b

abbrev pub is_three : ℕ → ℕ → ℕ → Bool
is_three a b c =
    ((a == 0xe0 && within 0xa0 0xbf b)
      || (within 0xe1 0xec a && is_tail b)
      || (a == 0xed && within 0x80 0x9f b)
      || (within 0xee 0xef a && is_tail b))
    && is_tail c

abbrev pub is_four : ℕ → ℕ → ℕ → ℕ → Bool
is_four a b c d =
    ((a == 0xf0 && within 0x90 0xbf b)
      || (within 0xf1 0xf3 a && is_tail b)
      || (a == 0xf4 && within 0x80 0x8f b))
    && is_tail c
    && is_tail d

unfoldable pub is_utf8 : Bytes → Bool
is_utf8 [] = true
is_utf8 (a ∷ []) = ltb a 0x80
is_utf8 (a ∷ b ∷ []) = let rest = is_utf8 (b ∷ []) in if ltb a 0x80 then rest else is_two a b
is_utf8 (a ∷ b ∷ c ∷ []) =
    let after_1 = is_utf8 (b ∷ c ∷ []) in
    let after_2 = is_utf8 (c ∷ []) in
    if ltb a 0x80 then after_1 else if is_two a b then after_2 else is_three a b c
is_utf8 (a ∷ b ∷ c ∷ d ∷ s) =
    let after_1 = is_utf8 (b ∷ c ∷ d ∷ s) in
    let after_2 = is_utf8 (c ∷ d ∷ s) in
    let after_3 = is_utf8 (d ∷ s) in
    let after_4 = is_utf8 s in
    if ltb a 0x80
    then after_1
    else if is_two a b
    then after_2
    else if is_three a b c
    then after_3
    else is_four a b c d && after_4
