-- ===== src/Negotiate/Tags.antt =====
-- src/main.rs, `inm_matches`: lists of entity-tags.
use bare_server.Base.{
  ℕ, ◌≤◌, ◌≡◌, ◌≢◌, refl, sym, ap, ◌∙◌, Bool, true, false, ◌||◌, List, [], ◌∷◌, ◌++◌, any,
  append_assoc, arith, Bytes, codes, All, All-append, Bool-cases, inl, inr, ◌==◌,
}
use bare_server.Text.{
  beq, trim-stop, trim-space, split, trim, strip_prefix, strip_suffix-append, cons_head,
}
use bare_server.Negotiate.{tag_of, inm_matches}

-- An entity-tag with its weakness mark.
pub record Tag : Type 0 where
  pub weak : Bool
  pub opaque_tag : Bytes

abbrev pub Lacks : ℕ → Bytes → Type 0
Lacks sep = All λ c. c ≢ sep

abbrev pub quoted : Bytes → Bytes
quoted t = codes "\"" ++ (t ++ codes "\"")

abbrev pub print_marked : Bool → Bytes → Bytes
print_marked true t = codes "W/" ++ quoted t
print_marked false t = quoted t

abbrev pub print_tag : Tag → Bytes
print_tag t = print_marked t.weak t.opaque_tag

-- A field value: the tags, with a comma and a space between them.
abbrev pub print_tags : Tag → List Tag → Bytes
print_tags t [] = print_tag t
print_tags t (u ∷ us) = print_tag t ++ (codes ", " ++ print_tags u us)

split-Lacks :
    (sep : ℕ) (p rest : Bytes) → Lacks sep p → split sep (p ++ sep ∷ rest) ≡ p ∷ split sep rest
unfolding split
split-Lacks sep [] rest h = ground arith
split-Lacks sep (c ∷ p) rest h = ground (arith, split-Lacks sep p rest h.1)

split_last : (sep : ℕ) (p : Bytes) → Lacks sep p → split sep p ≡ p ∷ []
unfolding split
split_last sep [] h = refl
split_last sep (c ∷ p) h = ground (arith, split_last sep p h.1)

trim-print_marked : (weak : Bool) (t : Bytes) → trim (print_marked weak t) ≡ print_marked weak t
trim-print_marked true t = trim-stop b'W' (codes "/\"" ++ t) b'"' (omega arith) (omega arith)
trim-print_marked false t = trim-stop b'"' t b'"' (omega arith) (omega arith)

tag_of-print_marked : (weak : Bool) (t : Bytes) → tag_of (print_marked weak t) ≡ t
unfolding tag_of strip_prefix
tag_of-print_marked true t = rw (trim-print_marked true t, strip_suffix-append t (codes "\""))
tag_of-print_marked false t = rw (trim-print_marked false t, strip_suffix-append t (codes "\""))

tag_of-space : (part : Bytes) → tag_of (b' ' ∷ part) ≡ tag_of part
unfolding tag_of
tag_of-space part = rw trim-space

print_marked-Lacks : (weak : Bool) (t : Bytes) → Lacks b',' t → Lacks b',' (print_marked weak t)
print_marked-Lacks true t h =
    (omega arith, (omega arith, (omega arith, All-append _ t (codes "\"") h (omega arith))))
print_marked-Lacks false t h = (omega arith, All-append _ t (codes "\"") h (omega arith))

split-cons : (sep : ℕ) (s : Bytes) → (p : Bytes) × (ps : List Bytes) × (split sep s ≡ p ∷ ps)
unfolding split
split-cons sep [] = ([], [], refl)
split-cons sep (c ∷ s) = elim (Bool-cases (c == sep)) [
  | inl e ↦ rw e ([], split sep s, refl)
  | inr e ↦ let (p, ps, q) = split-cons sep s in rw (e, q) (c ∷ p, ps, refl)
]

abbrev lists : Bytes → List Bytes → Bool
lists etag = any λ p. beq (tag_of p) etag

split-space : (s : Bytes) → split b',' (b' ' ∷ s) ≡ cons_head b' ' (split b',' s)
unfolding split
split-space s = refl

lists-space : (etag s : Bytes) → lists etag (split b',' (b' ' ∷ s)) ≡ lists etag (split b',' s)
lists-space etag s =
    let (p, ps, q) = split-cons b',' s in
    rw (split-space s, q) (ap (λ t. beq t etag || lists etag ps) (tag_of-space p))

lists-print_tags :
    (t : Tag) (ts : List Tag) (etag : Bytes)
    → All (λ u. Lacks b',' u.opaque_tag) (t ∷ ts)
    → lists etag (split b',' (print_tags t ts)) ≡ any (λ u. beq u.opaque_tag etag) (t ∷ ts)
lists-print_tags t [] etag h = rw (
  split_last b',' (print_tag t) (print_marked-Lacks t.weak t.opaque_tag h.0),
  tag_of-print_marked t.weak t.opaque_tag,
)
lists-print_tags t (u ∷ us) etag h = rw (
  split-Lacks b',' (print_tag t) (b' ' ∷ print_tags u us)
      (print_marked-Lacks t.weak t.opaque_tag h.0),
  tag_of-print_marked t.weak t.opaque_tag,
  lists-space etag (print_tags u us),
  lists-print_tags u us etag h.1,
)

-- A text with a visible first byte that is no star, and a quote at its end.
record IsWrapped (s : Bytes) : Type 0 where
  first : ℕ
  inner : Bytes
  visible : (0x21 ≤ first) × (first ≤ 0x7e)
  no_star : first ≢ b'*'
  spelled : s ≡ first ∷ (inner ++ codes "\"")

print_marked-IsWrapped : (weak : Bool) (t : Bytes) → IsWrapped (print_marked weak t)
print_marked-IsWrapped true t = record {
  first = b'W';
  inner = codes "/\"" ++ t;
  visible = omega arith;
  no_star = omega arith;
  spelled = refl;
}
print_marked-IsWrapped false t = record {
  first = b'"';
  inner = t;
  visible = omega arith;
  no_star = omega arith;
  spelled = refl;
}

append-IsWrapped : {s r : Bytes} → IsWrapped s → IsWrapped r → IsWrapped (s ++ (codes ", " ++ r))
append-IsWrapped {s} {r} w k = record {
  first = w.first;
  inner = (w.inner ++ codes "\"") ++ (codes ", " ++ (k.first ∷ k.inner));
  visible = w.visible;
  no_star = w.no_star;
  spelled =
      ap (λ x. x ++ (codes ", " ++ r)) w.spelled
      ∙ ap (λ x. w.first ∷ ((w.inner ++ codes "\"") ++ (codes ", " ++ x))) k.spelled
      ∙ ap (◌∷◌ w.first) (
          sym (
            append_assoc (w.inner ++ codes "\"") (codes ", " ++ (k.first ∷ k.inner)) (codes "\"")));
}

print_tags-IsWrapped : (t : Tag) (ts : List Tag) → IsWrapped (print_tags t ts)
print_tags-IsWrapped t [] = print_marked-IsWrapped t.weak t.opaque_tag
print_tags-IsWrapped t (u ∷ us) =
    append-IsWrapped (print_marked-IsWrapped t.weak t.opaque_tag) (print_tags-IsWrapped u us)

trim-IsWrapped : {s : Bytes} → IsWrapped s → trim s ≡ s
trim-IsWrapped w = rw w.spelled (trim-stop w.first w.inner b'"' w.visible (omega arith))

not-star : {s : Bytes} → IsWrapped s → beq s (codes "*") ≡ false
not-star w = rw w.spelled (unfold beq in ground (arith, w.no_star))

-- On a field that lists entity-tags, weak or strong, with no comma inside a tag, `inm_matches` tells
-- exactly whether one of the listed tags is the given one, whatever its weakness mark.
pub inm_matches-print_tags :
    (t : Tag) (ts : List Tag) (etag : Bytes)
    → All (λ u. Lacks b',' u.opaque_tag) (t ∷ ts)
    → inm_matches (print_tags t ts) etag ≡ any (λ u. beq u.opaque_tag etag) (t ∷ ts)
unfolding inm_matches
inm_matches-print_tags t ts etag h =
    let w = print_tags-IsWrapped t ts in
    rw (trim-IsWrapped w, not-star w) (lists-print_tags t ts etag h)
