-- ===== src/Negotiate.antt =====
-- src/main.rs: `is_zero_q`, `accepts_encoding` and `inm_matches`, which read the request fields
-- Accept-Encoding and If-None-Match.
pub mod Encodings
pub mod Tags
use bare_server.Base.{
  ℕ, Bool, true, false, ◌&&◌, ◌||◌, not, Option, none, some, List, [], ◌∷◌, length, drop, map, all,
  any, arith, ◌==◌, leb, if◌then◌else◌, Bytes, codes, ◌>>=◌,
}
use bare_server.Text.{within, beq, eq_ignore_ascii_case, strip_prefix, strip_suffix, split, trim}

zero_tail : Bytes → Bool
zero_tail [] = true
zero_tail (c ∷ s) = c == b'.' && all (λ d. d == b'0') s

unfoldable pub is_zero_q : Bytes → Bool
unfolding zero_tail
is_zero_q [] = false
is_zero_q (c ∷ s) = c == b'0' && zero_tail s

-- `param.get(..2)`, with what stands behind it: no byte of a character may follow the cut.
abbrev get_2 : Bytes → Option (Bytes × Bytes)
get_2 [] = none
get_2 (a ∷ []) = none
get_2 (a ∷ b ∷ []) = some (a ∷ b ∷ [], [])
get_2 (a ∷ b ∷ c ∷ s) = if within 0x80 0xbf c then none else some (a ∷ b ∷ [], c ∷ s)

q_param : Option (Bytes × Bytes) → Bool → Bool
unfolding eq_ignore_ascii_case trim is_zero_q
q_param none acceptable = acceptable
q_param (some (name, rest)) acceptable =
    if eq_ignore_ascii_case name (codes "q=") then not (is_zero_q (trim rest)) else acceptable

-- The loop over the parameters of one coding.
weigh : List Bytes → Bool → Bool
unfolding q_param trim
weigh [] acceptable = acceptable
weigh (param ∷ rest) acceptable = weigh rest (q_param (get_2 (trim param)) acceptable)

abbrev named : List Bytes → Bytes × Bool
named [] = ([], true)
named (name ∷ params) = (trim name, weigh params true)

-- One part between commas: the name of the coding, and whether the client takes it.
unfoldable pub coding : Bytes → Bytes × Bool
unfolding weigh trim split
coding part = named (split b';' part)

-- The loop over the parts, behind `coding`. The last argument is `wildcard`.
unfoldable pub choose : Bytes → List (Bytes × Bool) → Option Bool → Bool
choose token [] none = false
choose token [] (some acceptable) = acceptable
choose token ((name, acceptable) ∷ rest) wildcard =
    let later = choose token rest (if beq name (codes "*") then some acceptable else wildcard) in
    if eq_ignore_ascii_case name token then acceptable else later

unfoldable pub accepts_encoding : Bytes → Bytes → Bool
accepts_encoding field token = choose token (map coding (split b',' field)) none

abbrev or_else : Option Bytes → Bytes → Bytes
or_else none t = t
or_else (some r) t = r

-- The entity-tag in one part between commas, without its weakness mark and its quotes.
unfoldable pub tag_of : Bytes → Bytes
tag_of part =
    let t = trim part in
    let u = or_else (strip_prefix (codes "W/") t) t in
    or_else (strip_prefix (codes "\"") u >>= strip_suffix (codes "\"")) u

unfoldable pub inm_matches : Bytes → Bytes → Bool
inm_matches field etag =
    let f = trim field in
    if beq f (codes "*") then true else any (λ t. beq (tag_of t) etag) (split b',' f)
