-- ===== src/Text/Number.antt =====
-- Numbers printed in a base, as `format!` prints them, and read back.
use bare_server.Base.{
  ℕ, zero, suc, ◌+◌, ◌-◌, ◌*◌, ◌/◌, ◌%◌, ◌≤◌, ◌<◌, ◌≡◌, ◌≢◌, refl, ◌∙◌, Bool, true, false, ◌&&◌,
  Option, none, some, [], ◌∷◌, arith, ◌==◌, ltb, if◌then◌else◌, Bytes, Bool-cases, All, inl, inr,
}
use bare_server.Text.Equal.{is_digit}

abbrev pub digit : ℕ → ℕ
digit d = if ltb d 10 then b'0' + d else b'a' + (d - 10)

-- The digits of `n`, in front of `out`. A round divides by the base, which is at least two.
print_onto : ℕ → ℕ → ℕ → Bytes → Bytes
print_onto base zero n out = out
print_onto base (suc fuel) n out =
    let more = print_onto base fuel (n / base) (digit (n % base) ∷ out) in
    if n == 0 then out else more

-- `{n:x}`
unfoldable pub print_hex : ℕ → Bytes
unfolding print_onto
print_hex n = if n == 0 then b'0' ∷ [] else print_onto 16 (suc n) n []

-- `{n}`
unfoldable pub print_decimal : ℕ → Bytes
unfolding print_onto
print_decimal n = if n == 0 then b'0' ∷ [] else print_onto 10 (suc n) n []

-- The number that a text of digits spells, read on from `n`; `none` past `top`.
read_onto : ℕ → ℕ → Bytes → Option ℕ
read_onto top n [] = some n
read_onto top n (c ∷ s) =
    let m = n * 10 + (c - b'0') in
    let rest = read_onto top m s in if is_digit c && ltb m (suc top) then rest else none

-- `s.parse()` at an unsigned type whose largest value is `top`: an optional `+`, then digits.
unfoldable pub parse_uint : ℕ → Bytes → Option ℕ
unfolding read_onto
parse_uint top [] = none
parse_uint top (c ∷ []) = if c == b'+' then none else read_onto top 0 (c ∷ [])
parse_uint top (c ∷ d ∷ s) =
    if c == b'+' then read_onto top 0 (d ∷ s) else read_onto top 0 (c ∷ d ∷ s)

read_last :
    (top n : ℕ) (out : Bytes)
    → n ≤ top
    → read_onto top (n / 10) (digit (n % 10) ∷ out) ≡ read_onto top n out
unfolding read_onto
read_last top n out t = ground arith

print_onto_reads :
    (top fuel n : ℕ) (out : Bytes)
    → n < fuel
    → n ≤ top
    → read_onto top 0 (print_onto 10 fuel n out) ≡ read_onto top n out
unfolding print_onto
print_onto_reads top zero n out h t = absurd (omega arith)
print_onto_reads top (suc fuel) n out h t = elim (Bool-cases (n == 0)) [
  | inl e ↦ rw e (let z : n ≡ 0 = ground arith in rw z)
  | inr e ↦ rw e (
      print_onto_reads top fuel (n / 10) (digit (n % 10) ∷ out) (ground arith) (omega arith)
      ∙ read_last top n out t)
]

module _ (P : ℕ → Type 0) (h : (d : ℕ) → d < 16 → P (digit d)) where
  print_onto-All : (fuel n : ℕ) (out : Bytes) → All P out → All P (print_onto 16 fuel n out)
  unfolding print_onto
  print_onto-All zero n out k = k
  print_onto-All (suc fuel) n out k = elim (Bool-cases (n == 0)) [
    | inl e ↦ rw e k
    | inr e ↦
        rw e (print_onto-All fuel (n / 16) (digit (n % 16) ∷ out) (h (n % 16) (omega arith), k))
  ]

  -- What holds of the sixteen digits holds of every byte of a hexadecimal print.
  pub print_hex-All : (n : ℕ) → All P (print_hex n)
  unfolding print_hex
  print_hex-All n = chosen (n == 0) _ _ (h 0 (omega arith), tt) (print_onto-All (suc n) n [] tt)
    where
      chosen : (z : Bool) (x y : Bytes) → All P x → All P y → All P (if z then x else y)
      chosen true x y i k = i
      chosen false x y i k = k

abbrev IsDigits : Bytes → Type 0
IsDigits s = All (λ c. is_digit c ≡ true) s

print_onto-IsDigits :
    (fuel n : ℕ) (out : Bytes) → IsDigits out → IsDigits (print_onto 10 fuel n out)
unfolding print_onto
print_onto-IsDigits zero n out h = h
print_onto-IsDigits (suc fuel) n out h =
    ground (arith, print_onto-IsDigits fuel (n / 10) (digit (n % 10) ∷ out))

print_onto-ne-nil : (fuel n : ℕ) (out : Bytes) → out ≢ [] → print_onto 10 fuel n out ≢ []
unfolding print_onto
print_onto-ne-nil zero n out h = h
print_onto-ne-nil (suc fuel) n out h =
    ground (arith, print_onto-ne-nil fuel (n / 10) (digit (n % 10) ∷ out))

-- A decimal print holds digits only, so it can break no header line.
pub print_decimal-IsDigits : (n : ℕ) → IsDigits (print_decimal n)
unfolding print_decimal
print_decimal-IsDigits n = ground (arith, print_onto-IsDigits (suc n) n [])

parse_uint-read_onto :
    (top : ℕ) (s : Bytes) → s ≢ [] → IsDigits s → parse_uint top s ≡ read_onto top 0 s
unfolding parse_uint
parse_uint-read_onto top [] ne h = absurd (ne refl)
parse_uint-read_onto top (c ∷ []) ne h = ground arith
parse_uint-read_onto top (c ∷ d ∷ s) ne h = ground arith

print_positive-ne-nil : (n : ℕ) → (n == 0) ≡ false → print_onto 10 (suc n) n [] ≢ []
unfolding print_onto
print_positive-ne-nil n e = ground (arith, print_onto-ne-nil n (n / 10) (digit (n % 10) ∷ []))

parse_uint-print_positive :
    (top n : ℕ) → n ≤ top → (n == 0) ≡ false → parse_uint top (print_onto 10 (suc n) n []) ≡ some n
parse_uint-print_positive top n t e =
    parse_uint-read_onto top _ (print_positive-ne-nil n e) (print_onto-IsDigits (suc n) n [] tt)
    ∙ print_onto_reads top (suc n) n [] (omega arith) t
    ∙ unfold read_onto in refl

-- A printed number that fits the type is read back.
pub parse_uint-print_decimal : (top n : ℕ) → n ≤ top → parse_uint top (print_decimal n) ≡ some n
unfolding print_decimal
parse_uint-print_decimal top n t = elim (Bool-cases (n == 0)) [
  | inl e ↦ rw e (unfold parse_uint read_onto in ground arith)
  | inr e ↦ ground (arith, parse_uint-print_positive top n t e)
]
