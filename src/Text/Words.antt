-- ===== src/Text/Words.antt =====
-- `str::lines` and `str::split_whitespace`.
use bare_server.Base.{is_nil, Option, none, some, List, [], ◌∷◌, if◌then◌else◌, Bytes}
use bare_server.Text.Split.{split, cons_head}
use bare_server.Text.Affix.{strip_suffix}
use bare_server.Text.Trim.{is_space, is_space_2, is_space_3}

abbrev or_whole : Bytes → Option Bytes → Bytes
or_whole s none = s
or_whole s (some rest) = rest

-- A line loses its carriage return only if a line feed follows it; nothing behind the last line feed is
-- no line.
unfoldable pub closed_lines : List Bytes → List Bytes
closed_lines [] = []
closed_lines (l ∷ []) = if is_nil l then [] else l ∷ []
closed_lines (l ∷ m ∷ ls) = or_whole l (strip_suffix (b'\r' ∷ []) l) ∷ closed_lines (m ∷ ls)

-- `s.lines()`
unfoldable pub lines : Bytes → List Bytes
lines s = closed_lines (split b'\n' s)

-- The parts between single characters of white space.
unfoldable pub space_parts : Bytes → List Bytes
space_parts [] = [] ∷ []
space_parts (a ∷ []) = if is_space a then [] ∷ [] ∷ [] else (a ∷ []) ∷ []
space_parts (a ∷ b ∷ []) =
    let rest = space_parts (b ∷ []) in
    if is_space a then [] ∷ rest else if is_space_2 a b then [] ∷ [] ∷ [] else cons_head a rest
space_parts (a ∷ b ∷ c ∷ s) =
    let after_1 = space_parts (b ∷ c ∷ s) in
    let after_2 = space_parts (c ∷ s) in
    let after_3 = space_parts s in
    if is_space a
    then [] ∷ after_1
    else if is_space_2 a b
    then [] ∷ after_2
    else if is_space_3 a b c
    then [] ∷ after_3
    else cons_head a after_1

abbrev pub keep_filled : List Bytes → List Bytes
keep_filled [] = []
keep_filled (h ∷ hs) = let rest = keep_filled hs in if is_nil h then rest else h ∷ rest

-- `s.split_whitespace()`
unfoldable pub split_whitespace : Bytes → List Bytes
split_whitespace s = keep_filled (space_parts s)
