-- ===== src/Head.antt =====
-- src/main.rs: `find` and `well_formed_head`, which frame a request head.
pub mod Framing
pub mod Scan
use bare_server.Base.{
  ℕ, suc, Bool, true, false, ◌&&◌, ◌||◌, not, Option, none, some, [], ◌∷◌, length, arith, ◌==◌, ltb,
  if◌then◌else◌, Bytes,
}
use bare_server.Text.{starts_with}

abbrev pub plus_one : Option ℕ → Option ℕ
plus_one none = none
plus_one (some i) = some (suc i)

-- `hay.windows(needle.len()).position(|w| w == needle)`: no window starts in a tail that is
-- shorter than the needle.
unfoldable pub window_position : Bytes → Bytes → Option ℕ
unfolding starts_with
window_position needle [] = none
window_position needle (c ∷ s) =
    if starts_with needle (c ∷ s) then some 0 else plus_one (window_position needle s)

abbrev is_empty : Bytes → Bool
is_empty [] = true
is_empty (c ∷ s) = false

unfoldable pub find : Bytes → Bytes → Option ℕ
unfolding window_position
find hay needle =
    if is_empty needle || ltb (length hay) (length needle) then none else window_position needle hay

-- The index of the source's loop is the length of what is already read.
unfoldable pub well_formed_head : Bytes → Bool
well_formed_head [] = true
well_formed_head (c ∷ []) =
    if c == b'\r'
    then false
    else if c == b'\n'
    then false
    else if c == 0x7f
    then false
    else if ltb c 0x20 && not (c == b'\t')
    then false
    else true
well_formed_head (c ∷ d ∷ s) =
    let past_line_break = well_formed_head s in
    let past_byte = well_formed_head (d ∷ s) in
    if c == b'\r'
    then (if d == b'\n' then past_line_break else false)
    else if c == b'\n'
    then false
    else if c == 0x7f
    then false
    else if ltb c 0x20 && not (c == b'\t')
    then false
    else past_byte
