-- ===== src/Percent/Safety.antt =====
-- src/main.rs: the bytes of a decoded path and of an encoded path.
use bare_server.Base.{
  ℕ, ◌/◌, ◌%◌, ◌≤◌, ◌<◌, ◌≡◌, ◌⊎◌, inl, inr, refl, Bool, true, false, Option, none, some, [], ◌∷◌,
  arith, Bytes, All, All-map, Bool-cases, if◌then◌else◌, subst, ◌==◌,
}
use bare_server.Head.Framing.{IsFieldByte, IsLine}
use bare_server.Percent.{
  is_control, push, push_escape, escape_value, percent_decode, is_bare, hex_digit,
  percent_encode_path,
}

abbrev pub IsClean : Bytes → Type 0
IsClean = All λ c. is_control c ≡ false

abbrev IsCleanResult : Option Bytes → Type 0
IsCleanResult none = Unit
IsCleanResult (some t) = IsClean t

push-IsClean : (c : ℕ) (o : Option Bytes) → IsCleanResult o → IsCleanResult (push c o)
unfolding push
push-IsClean c none h = tt
push-IsClean c (some t) h = ground arith

push_escape-IsClean :
    (v : Option ℕ) (o : Option Bytes) → IsCleanResult o → IsCleanResult (push_escape v o)
push_escape-IsClean none o h = tt
push_escape-IsClean (some c) o h = push-IsClean c o h

if-IsCleanResult :
    (b : Bool) (o p : Option Bytes)
    → IsCleanResult o
    → IsCleanResult p
    → IsCleanResult (if b then o else p)
if-IsCleanResult true o p h k = h
if-IsCleanResult false o p h k = k

percent_decode-IsCleanResult : (s : Bytes) → IsCleanResult (percent_decode s)
unfolding percent_decode
percent_decode-IsCleanResult [] = tt
percent_decode-IsCleanResult (c ∷ []) =
    if-IsCleanResult (c == b'%') none _ tt (push-IsClean c (some []) tt)
percent_decode-IsCleanResult (c ∷ x ∷ []) =
    if-IsCleanResult (c == b'%') none _ tt
      (push-IsClean c _ (percent_decode-IsCleanResult (x ∷ [])))
percent_decode-IsCleanResult (c ∷ x ∷ y ∷ s) =
    if-IsCleanResult (c == b'%') _ _
      (push_escape-IsClean (escape_value x y) _ (percent_decode-IsCleanResult s))
      (push-IsClean c _ (percent_decode-IsCleanResult (x ∷ y ∷ s)))

-- A decoded path holds no control byte, however the request escaped it.
pub percent_decode-IsClean : (s : Bytes) {t : Bytes} → percent_decode s ≡ some t → IsClean t
percent_decode-IsClean s e = subst IsCleanResult e (percent_decode-IsCleanResult s)

-- A byte that the encoder writes: one that a path carries unescaped, or the `%` of an escape.
abbrev pub IsUrlByte : ℕ → Type 0
IsUrlByte c = (is_bare c ≡ true) ⊎ (c ≡ b'%')

hex_digit-bare : (d : ℕ) → d < 16 → is_bare (hex_digit d) ≡ true
unfolding is_bare
hex_digit-bare d h = ground arith

-- An encoded path holds only bytes that RFC 3986 lets a path carry and escapes: no space, `?`, `#`,
-- quote, control byte or byte above 0x7e.
pub percent_encode_path-IsUrlByte :
    (s : Bytes) → All (λ c. c < 256) s → All IsUrlByte (percent_encode_path s)
unfolding percent_encode_path
percent_encode_path-IsUrlByte [] h = tt
percent_encode_path-IsUrlByte (c ∷ s) h = elim (Bool-cases (is_bare c)) [
  | inl e ↦ rw e (inl e, percent_encode_path-IsUrlByte s h.1)
  | inr e ↦ rw e (
    inr refl,
    (
      inl (hex_digit-bare (c / 16) (let b = h.0 in omega arith)),
      (inl (hex_digit-bare (c % 16) (omega arith)), percent_encode_path-IsUrlByte s h.1),
    ),
  )
]

is_bare_range : (c : ℕ) → is_bare c ≡ true → (0x21 ≤ c) × (c ≤ 0x7e)
unfolding is_bare
is_bare_range c h = ground arith

pub IsUrlByte-IsFieldByte : (c : ℕ) → IsUrlByte c → IsFieldByte c
IsUrlByte-IsFieldByte c (inl h) = let r = is_bare_range c h in ground arith
IsUrlByte-IsFieldByte c (inr h) = ground arith

pub percent_encode_path-IsLine : (s : Bytes) → All (λ c. c < 256) s → IsLine (percent_encode_path s)
percent_encode_path-IsLine s h =
    All-map IsUrlByte IsFieldByte _ IsUrlByte-IsFieldByte (percent_encode_path-IsUrlByte s h)
