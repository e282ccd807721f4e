-- ===== src/Percent.antt =====
-- src/main.rs: `hexval`, `percent_decode` and `percent_encode_path`.
pub mod RoundTrip
pub mod Safety
use bare_server.Base.{
  ℕ, ◌+◌, ◌-◌, ◌*◌, ◌/◌, ◌%◌, Bool, ◌||◌, Option, none, some, [], ◌∷◌, ◌++◌, ltb, ◌==◌,
  if◌then◌else◌, Bytes, ◌>>=◌,
}
use bare_server.Text.{within, is_alphanumeric}

unfoldable pub hexval : ℕ → Option ℕ
hexval c =
    if within b'0' b'9' c
    then some (c - b'0')
    else if within b'a' b'f' c
    then some (c - b'a' + 10)
    else if within b'A' b'F' c
    then some (c - b'A' + 10)
    else none

-- `c == 0 || c < 0x20 || c == 0x7f`
abbrev pub is_control : ℕ → Bool
is_control c = c == 0 || ltb c 0x20 || c == 0x7f

-- `out.push(c)` behind the check, in front of what the rest of the loop pushes.
pub push : ℕ → Option Bytes → Option Bytes
push c none = none
push c (some out) = if is_control c then none else some (c ∷ out)

-- `(hexval(b[i + 1])? << 4) | hexval(b[i + 2])?`: the two digits are below 16.
pub escape_value : ℕ → ℕ → Option ℕ
escape_value x y = do hi ← hexval x; lo ← hexval y; some (hi * 16 + lo)

abbrev push_escape : Option ℕ → Option Bytes → Option Bytes
push_escape none rest = none
push_escape (some v) rest = push v rest

-- The index of the source's loop is the length of what is already read; `i + 2 >= b.len()` is an escape
-- with fewer than two bytes behind its `%`.
unfoldable pub percent_decode : Bytes → Option Bytes
unfolding push escape_value hexval
percent_decode [] = some []
percent_decode (c ∷ []) = if c == b'%' then none else push c (some [])
percent_decode (c ∷ x ∷ []) =
    let rest = percent_decode (x ∷ []) in if c == b'%' then none else push c rest
percent_decode (c ∷ x ∷ y ∷ s) =
    let after_escape = percent_decode s in
    let rest = percent_decode (x ∷ y ∷ s) in
    if c == b'%' then push_escape (escape_value x y) after_escape else push c rest

-- What a path carries unescaped.
unfoldable pub is_bare : ℕ → Bool
is_bare b =
    is_alphanumeric b
    || b == b'-'
    || b == b'.'
    || b == b'_'
    || b == b'~'
    || b == b'/'
    || b == b'!'
    || b == b'$'
    || b == b'&'
    || b == b'\''
    || b == b'('
    || b == b')'
    || b == b'*'
    || b == b'+'
    || b == b','
    || b == b';'
    || b == b'='
    || b == b':'
    || b == b'@'

-- `HEX[d]`
abbrev pub hex_digit : ℕ → ℕ
hex_digit d = if ltb d 10 then b'0' + d else b'A' + (d - 10)

abbrev pub escape : ℕ → Bytes
escape b = b'%' ∷ hex_digit (b / 16) ∷ hex_digit (b % 16) ∷ []

unfoldable pub percent_encode_path : Bytes → Bytes
unfolding is_bare
percent_encode_path [] = []
percent_encode_path (b ∷ s) = (if is_bare b then b ∷ [] else escape b) ++ percent_encode_path s
