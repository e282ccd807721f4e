-- ===== src/Redirects.antt =====
-- src/config.rs: the redirect rules of a site (`expand`, `loops_forever`, `Redirects`). An error is a
-- constructor for each message of the source.
pub mod Expansion
pub mod Order
pub mod Rules
pub mod Loops
pub mod Safety
use bare_server.Base.{
  is_nil, ℕ, Bool, true, false, ◌&&◌, ◌||◌, not, Option, none, some, List, [], ◌∷◌, ◌++◌, length,
  any, ◌==◌, leb, ltb, if◌then◌else◌, Bytes, codes,
}
use bare_server.Text.{
  beq, strip_prefix, strip_suffix, starts_with, ends_with, contains, is_digit, Table, get, insert,
}

pub record Redirects : Type 0 where
  pub exact : Table Bytes
  pub prefix : List (Bytes × Bytes)
  pub all : Option Bytes

-- The loop of `expand` over the characters of the template.
unfoldable pub expand_chars : Bytes → Bytes → Bytes → Bytes
expand_chars [] path cap = []
expand_chars (c ∷ []) path cap = c ∷ []
expand_chars (c ∷ d ∷ s) path cap =
    let past_capture = expand_chars s path cap in
    let past_char = expand_chars (d ∷ s) path cap in
    if not (c == b'$')
    then c ∷ past_char
    else if d == b'0'
    then path ++ past_capture
    else if d == b'1'
    then cap ++ past_capture
    else if d == b'$'
    then b'$' ∷ past_capture
    else b'$' ∷ past_char

unfoldable pub expand : Bytes → Bytes → Bytes → Bytes
expand template path cap =
    if not (any (λ c. c == b'$') template) then template else expand_chars template path cap

abbrev pub is_absolute : Bytes → Bool
is_absolute target = starts_with (codes "http://") target || starts_with (codes "https://") target

-- `expanded.split(['?', '#']).next()`
unfoldable pub before_query : Bytes → Bytes
before_query [] = []
before_query (c ∷ s) = let rest = before_query s in if c == b'?' || c == b'#' then [] else c ∷ rest

unfoldable pub loops_forever : Bytes → Bytes → Bytes → Bool
loops_forever target probe_path capture =
    if is_absolute target
    then false
    else beq (before_query (expand target probe_path capture)) probe_path

abbrev is_none : Option Bytes → Bool
is_none none = true
is_none (some t) = false

unfoldable pub redirects_is_empty : Redirects → Bool
redirects_is_empty r = is_nil r.exact && is_nil r.prefix && is_none r.all

-- The scan of the prefix rules, in their order.
unfoldable pub resolve_prefix : List (Bytes × Bytes) → Bytes → Option Bytes → Option Bytes
resolve_prefix [] path otherwise = otherwise
resolve_prefix ((p, t) ∷ rules) path otherwise = elim (strip_prefix p path) [
  | none ↦ resolve_prefix rules path otherwise
  | some rest ↦ some (expand t path rest)
]

abbrev resolve_all : Option Bytes → Bytes → Option Bytes
resolve_all none path = none
resolve_all (some t) path = some (expand t path path)

abbrev resolve_exact : Option Bytes → Bytes → Option Bytes → Option Bytes
resolve_exact (some t) path otherwise = some (expand t path [])
resolve_exact none path otherwise = otherwise

-- `Redirects::resolve`
unfoldable pub resolve : Redirects → Bytes → Option Bytes
resolve r path =
    resolve_exact (get path r.exact) path (resolve_prefix r.prefix path (resolve_all r.all path))

-- The messages of `push`, in the order of the source.
pub data PushError : Type 0 where
  control_character empty_target bad_target : PushError
  unknown_capture : ℕ → PushError
  catch_all_loops duplicate_catch_all bad_pattern misplaced_star : PushError
  prefix_loops duplicate_pattern exact_loops no_capture : PushError

pub data Pushed : Type 0 where
  ok : Redirects → Pushed
  err : PushError → Pushed

-- The check of the captures: the digit of the first unknown one.
unfoldable pub unknown_digit : Bytes → Option ℕ
unknown_digit [] = none
unknown_digit (c ∷ []) = none
unknown_digit (c ∷ d ∷ s) =
    let past_capture = unknown_digit s in
    let past_char = unknown_digit (d ∷ s) in
    if not (c == b'$')
    then past_char
    else if d == b'$' || d == b'0' || d == b'1'
    then past_capture
    else if is_digit d
    then some d
    else past_char

unfoldable pub push_catch_all : Redirects → Bytes → Pushed
push_catch_all r target =
    if loops_forever target (codes "/probe") (codes "/probe")
    then err catch_all_loops
    else if not (is_none r.all)
    then err duplicate_catch_all
    else ok (record r { all = some target })

unfoldable pub push_prefix : Redirects → Bytes → Bytes → Pushed
push_prefix r prefix target =
    if contains (codes "*") prefix || not (ends_with (codes "/") prefix)
    then err misplaced_star
    else if loops_forever target (prefix ++ codes "probe") (codes "probe")
    then err prefix_loops
    else if any (λ rule. beq rule.0 prefix) r.prefix
    then err duplicate_pattern
    else ok (record r { prefix = r.prefix ++ ((prefix, target) ∷ []) })

abbrev is_found : Option Bytes → Bool
is_found none = false
is_found (some t) = true

unfoldable pub push_exact : Redirects → Bytes → Bytes → Pushed
push_exact r pattern_path target =
    if contains (codes "*") pattern_path
    then err misplaced_star
    else if loops_forever target pattern_path []
    then err exact_loops
    else if contains (codes "$1") target
    then err no_capture
    else if is_found (get pattern_path r.exact)
    then err duplicate_pattern
    else ok (record r { exact = insert pattern_path target r.exact })

abbrev push_path : Redirects → Bytes → Bytes → Option Bytes → Pushed
push_path r pattern_path target (some prefix) = push_prefix r prefix target
push_path r pattern_path target none = push_exact r pattern_path target

-- The part of `push` behind the checks of the target.
unfoldable pub push_pattern : Redirects → Bytes → Bytes → Pushed
push_pattern r pattern_path target =
    if beq pattern_path (codes "*")
    then push_catch_all r target
    else if not (starts_with (codes "/") pattern_path)
    then err bad_pattern
    else push_path r pattern_path target (strip_suffix (codes "*") pattern_path)

abbrev push_checked : Redirects → Bytes → Bytes → Option ℕ → Pushed
push_checked r pattern_path target (some d) = err (unknown_capture d)
push_checked r pattern_path target none = push_pattern r pattern_path target

-- `Redirects::push`
unfoldable pub push : Redirects → Bytes → Bytes → Pushed
push r pattern_path target =
    if any (λ b. ltb b 0x20 || b == 0x7f) target
    then err control_character
    else if is_nil target
    then err empty_target
    else if not (is_absolute target)
        && not (starts_with (codes "/") target)
        && not (starts_with (codes "$0") target)
    then err bad_target
    else push_checked r pattern_path target (unknown_digit target)

-- `sort_by_key` with the longest prefix first, which keeps the order of equals.
unfoldable pub insert_rule : Bytes × Bytes → List (Bytes × Bytes) → List (Bytes × Bytes)
insert_rule x [] = x ∷ []
insert_rule x (y ∷ ys) = if leb (length y.0) (length x.0) then x ∷ y ∷ ys else y ∷ insert_rule x ys

unfoldable pub sort_rules : List (Bytes × Bytes) → List (Bytes × Bytes)
unfolding insert_rule
sort_rules [] = []
sort_rules (x ∷ xs) = insert_rule x (sort_rules xs)

-- `Redirects::finish`
unfoldable pub finish : Redirects → Redirects
finish r = record r { prefix = sort_rules r.prefix }
