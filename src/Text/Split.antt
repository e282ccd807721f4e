-- ===== src/Text/Split.antt =====
-- Splitting at a byte or at a line break, and the laws that put the parts together again.
use bare_server.Base.{
  ℕ, ◌≡◌, ◌≢◌, refl, ◌&&◌, Option, none, some, List, [], ◌∷◌, ◌++◌, reverse, arith, ◌==◌,
  if◌then◌else◌, Bytes, All,
}

abbrev pub cons_head : ℕ → List Bytes → List Bytes
cons_head c [] = (c ∷ []) ∷ []
cons_head c (p ∷ ps) = (c ∷ p) ∷ ps

-- `s.split(sep)`
unfoldable pub split : ℕ → Bytes → List Bytes
split sep [] = [] ∷ []
split sep (c ∷ s) = let rest = split sep s in if c == sep then [] ∷ rest else cons_head c rest

-- `s.split("\r\n")`
unfoldable pub split_crlf : Bytes → List Bytes
split_crlf [] = [] ∷ []
split_crlf (c ∷ []) = (c ∷ []) ∷ []
split_crlf (c ∷ d ∷ s) =
    let after = split_crlf s in
    let rest = split_crlf (d ∷ s) in
    if c == b'\r' && d == b'\n' then [] ∷ after else cons_head c rest

abbrev pub cons_first : ℕ → Option (Bytes × Bytes) → Option (Bytes × Bytes)
cons_first c none = none
cons_first c (some (a, b)) = some (c ∷ a, b)

-- `s.split_once(sep)`
unfoldable pub split_once : ℕ → Bytes → Option (Bytes × Bytes)
split_once sep [] = none
split_once sep (c ∷ s) = if c == sep then some ([], s) else cons_first c (split_once sep s)

abbrev flipped : Option (Bytes × Bytes) → Option (Bytes × Bytes)
flipped none = none
flipped (some (a, b)) = some (reverse b, reverse a)

-- `s.rsplit_once(sep)`
unfoldable pub rsplit_once : ℕ → Bytes → Option (Bytes × Bytes)
unfolding split_once
rsplit_once sep s = flipped (split_once sep (reverse s))

-- `s.split(sep).next()`
unfoldable pub before : ℕ → Bytes → Bytes
before sep [] = []
before sep (c ∷ s) = let rest = before sep s in if c == sep then [] else c ∷ rest

-- `s.find(sep).map_or("", |p| &s[p..])`
unfoldable pub from_first : ℕ → Bytes → Bytes
from_first sep [] = []
from_first sep (c ∷ s) = let rest = from_first sep s in if c == sep then c ∷ s else rest

pub before-append-from_first : (sep : ℕ) (s : Bytes) → before sep s ++ from_first sep s ≡ s
unfolding before from_first
before-append-from_first sep [] = refl
before-append-from_first sep (c ∷ s) = ground (arith, before-append-from_first sep s)

-- No byte of the part before the first `sep` is `sep`.
pub before-Lacks : (sep : ℕ) (s : Bytes) → All (λ c. c ≢ sep) (before sep s)
unfolding before
before-Lacks sep [] = tt
before-Lacks sep (c ∷ s) = ground (arith, before-Lacks sep s)
