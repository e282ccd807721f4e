-- ===== src/Negotiate/Encodings.antt =====
-- src/main.rs, `accepts_encoding`, against RFC 9110, 12.5.3.
use bare_server.Base.{
  ◌≡◌, refl, Bool, false, Option, none, some, List, [], ◌∷◌, map, Bytes, codes, if◌then◌else◌,
  Bool-cases, inl, inr,
}
use bare_server.Text.{beq, eq_ignore_ascii_case, split}
use bare_server.Negotiate.{coding, choose, accepts_encoding}

-- The first entry that names the coding.
abbrev pub entry_of : Bytes → List (Bytes × Bool) → Option Bool
entry_of token [] = none
entry_of token ((name, acceptable) ∷ rest) =
    if eq_ignore_ascii_case name token then some acceptable else entry_of token rest

-- The last wildcard entry, or the given one.
abbrev pub wildcard_of : List (Bytes × Bool) → Option Bool → Option Bool
wildcard_of [] given = given
wildcard_of ((name, acceptable) ∷ rest) given =
    wildcard_of rest (if beq name (codes "*") then some acceptable else given)

abbrev pub prefer : Option Bool → Option Bool → Bool
prefer (some acceptable) wildcard = acceptable
prefer none (some acceptable) = acceptable
prefer none none = false

choose-prefer :
    (token : Bytes) (entries : List (Bytes × Bool)) (wildcard : Option Bool)
    → choose token entries wildcard ≡ prefer (entry_of token entries) (wildcard_of entries wildcard)
unfolding choose
choose-prefer token [] none = refl
choose-prefer token [] (some acceptable) = refl
choose-prefer token ((name, acceptable) ∷ rest) wildcard =
    elim (Bool-cases (eq_ignore_ascii_case name token)) [
      | inl e ↦ rw e
      | inr e ↦ rw e (choose-prefer token rest _)
    ]

-- Whether a coding is accepted: as the first entry that names it says, in any case of its letters; if
-- none does, as the last `*` entry says; and not at all if there is no such entry either.
pub accepts_encoding-prefer :
    (field token : Bytes)
    → accepts_encoding field token
      ≡ prefer
          (entry_of token (map coding (split b',' field)))
          (wildcard_of (map coding (split b',' field)) none)
unfolding accepts_encoding
accepts_encoding-prefer field token = choose-prefer token _ none
