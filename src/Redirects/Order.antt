-- ===== src/Redirects/Order.antt =====
-- src/config.rs, `Redirects::finish` and the scan of `Redirects::resolve`: the order of the prefix rules.
use bare_server.Base.{
  ◌≤◌, ◌≡◌, ◌⊎◌, inl, inr, refl, sym, ◌∙◌, subst, Option, none, some, List, [], ◌∷◌, length, arith,
  leb, Bytes, All, All-map, Bool-cases, Option-cases,
}
use bare_server.Text.{strip_prefix}
use bare_server.Redirects.{expand, resolve_prefix, insert_rule, sort_rules}

abbrev pub Rule : Type 0
Rule = Bytes × Bytes

abbrev pub In : Rule → List Rule → Type 0
In r [] = ⊥
In r (x ∷ xs) = (x ≡ r) ⊎ In r xs

abbrev pub Refuses : Bytes → Rule → Type 0
Refuses path r = strip_prefix r.0 path ≡ none

-- A rule that matches the path, and no rule of the list that matches has a longer prefix.
pub record IsBest (rules : List Rule) (path : Bytes) (rule : Rule) (rest : Bytes) : Type 0 where
  pub listed : In rule rules
  pub matches : strip_prefix rule.0 path ≡ some rest
  pub longest : All (λ other. Refuses path other ⊎ (length other.0 ≤ length rule.0)) rules

-- What the scan of a list of rules answers.
pub data Outcome (rules : List Rule) (path : Bytes) (otherwise answer : Option Bytes) : Type 0 where
  no_rule : All (Refuses path) rules → answer ≡ otherwise → Outcome rules path otherwise answer
  best :
      (rule : Rule) (rest : Bytes)
      → IsBest rules path rule rest
      → answer ≡ some (expand rule.1 path rest)
      → Outcome rules path otherwise answer

abbrev Sorted : List Rule → Type 0
Sorted [] = Unit
Sorted (x ∷ xs) = All (λ y. length y.0 ≤ length x.0) xs × Sorted xs

module _ (P : Rule → Type 0) where
  All-insert_rule : (x : Rule) (ys : List Rule) → P x → All P ys → All P (insert_rule x ys)
  unfolding insert_rule
  All-insert_rule x [] px h = (px, tt)
  All-insert_rule x (y ∷ ys) px h = elim (Bool-cases (leb (length y.0) (length x.0))) [
    | inl e ↦ rw e (px, h)
    | inr e ↦ rw e (h.0, All-insert_rule x ys px h.1)
  ]

  insert_rule-All : (x : Rule) (ys : List Rule) → All P (insert_rule x ys) → P x × All P ys
  unfolding insert_rule
  insert_rule-All x [] h = (h.0, tt)
  insert_rule-All x (y ∷ ys) h = elim (Bool-cases (leb (length y.0) (length x.0))) [
    | inl e ↦ let k = rw e at h in k
    | inr e ↦ let k = rw e at h in let (px, rest) = insert_rule-All x ys k.1 in (px, (k.0, rest))
  ]

  pub All-sort_rules : (xs : List Rule) → All P xs → All P (sort_rules xs)
  unfolding sort_rules
  All-sort_rules [] h = tt
  All-sort_rules (x ∷ xs) h = All-insert_rule x (sort_rules xs) h.0 (All-sort_rules xs h.1)

  sort_rules-All : (xs : List Rule) → All P (sort_rules xs) → All P xs
  unfolding sort_rules
  sort_rules-All [] h = tt
  sort_rules-All (x ∷ xs) h =
      let (px, rest) = insert_rule-All x (sort_rules xs) h in (px, sort_rules-All xs rest)

In-insert_rule : (r x : Rule) (ys : List Rule) → In r (insert_rule x ys) → (x ≡ r) ⊎ In r ys
unfolding insert_rule
In-insert_rule r x [] h = h
In-insert_rule r x (y ∷ ys) h = elim (Bool-cases (leb (length y.0) (length x.0))) [
  | inl e ↦ let k = rw e at h in k
  | inr e ↦ later (rw e at h) (In-insert_rule r x ys)
]
  where
    later :
        In r (y ∷ insert_rule x ys)
        → (In r (insert_rule x ys) → (x ≡ r) ⊎ In r ys)
        → (x ≡ r) ⊎ In r (y ∷ ys)
    later (inl e) ih = inr (inl e)
    later (inr k) ih = past (ih k)
      where
        past : (x ≡ r) ⊎ In r ys → (x ≡ r) ⊎ In r (y ∷ ys)
        past (inl e) = inl e
        past (inr i) = inr (inr i)

In-sort_rules : (r : Rule) (xs : List Rule) → In r (sort_rules xs) → In r xs
unfolding sort_rules
In-sort_rules r [] h = h
In-sort_rules r (x ∷ xs) h = later (In-insert_rule r x (sort_rules xs) h) (In-sort_rules r xs)
  where
    later : (x ≡ r) ⊎ In r (sort_rules xs) → (In r (sort_rules xs) → In r xs) → In r (x ∷ xs)
    later (inl e) ih = inl e
    later (inr k) ih = inr (ih k)

insert_rule-Sorted : (x : Rule) (ys : List Rule) → Sorted ys → Sorted (insert_rule x ys)
unfolding insert_rule
insert_rule-Sorted x [] h = (tt, tt)
insert_rule-Sorted x (y ∷ ys) h = elim (Bool-cases (leb (length y.0) (length x.0))) [
  | inl e ↦
      let below : length y.0 ≤ length x.0 = ground arith in
      rw e (
        (
          below,
          All-map (λ z. length z.0 ≤ length y.0) (λ z. length z.0 ≤ length x.0) ys
              (λ z k. omega arith) h.0,
        ),
        h,
      )
  | inr e ↦
      let above : length x.0 ≤ length y.0 = ground arith in
      rw e
        (All-insert_rule (λ z. length z.0 ≤ length y.0) x ys above h.0, insert_rule-Sorted x ys h.1)
]

sort_rules-Sorted : (xs : List Rule) → Sorted (sort_rules xs)
unfolding sort_rules
sort_rules-Sorted [] = tt
sort_rules-Sorted (x ∷ xs) = insert_rule-Sorted x (sort_rules xs) (sort_rules-Sorted xs)

module _ (path : Bytes) (otherwise : Option Bytes) where
  -- A rule that refuses the path in front of the others changes nothing.
  Outcome-cons :
      (x : Rule) (xs : List Rule) {answer : Option Bytes}
      → Refuses path x
      → Outcome xs path otherwise answer
      → Outcome (x ∷ xs) path otherwise answer
  Outcome-cons x xs r (no_rule h e) = no_rule (r, h) e
  Outcome-cons x xs r (best rule rest b e) =
      best rule rest
        (record { listed = inr b.listed; matches = b.matches; longest = (inl r, b.longest) }) e

  -- On a sorted list the first match is the best.
  Sorted-Outcome :
      (xs : List Rule) → Sorted xs → Outcome xs path otherwise (resolve_prefix xs path otherwise)
  unfolding resolve_prefix
  Sorted-Outcome [] h = no_rule tt refl
  Sorted-Outcome (x ∷ xs) h = elim (Option-cases (strip_prefix x.0 path)) [
    | inl e ↦ rw (e, resolve_prefix) (Outcome-cons x xs e (Sorted-Outcome xs h.1))
    | inr (rest, e) ↦
        rw (e, resolve_prefix)
          (best x rest
            (record {
              listed = inl refl;
              matches = e;
              longest = (
                inr (omega arith),
                All-map (λ y. length y.0 ≤ length x.0)
                    (λ y. Refuses path y ⊎ (length y.0 ≤ length x.0)) xs (λ y k. inr k) h.0,
              );
            })
            refl)
  ]

  -- After `finish` the rule that answers is one of the given rules, it matches, and no rule that matches
  -- has a longer prefix; if no rule matches, the answer is what the scan is given for that case.
  pub resolve_prefix-sort_rules :
      (rules : List Rule)
      → Outcome rules path otherwise (resolve_prefix (sort_rules rules) path otherwise)
  resolve_prefix-sort_rules rules =
      unsorted (Sorted-Outcome (sort_rules rules) (sort_rules-Sorted rules))
    where
      unsorted :
          {answer : Option Bytes}
          → Outcome (sort_rules rules) path otherwise answer
          → Outcome rules path otherwise answer
      unsorted (no_rule h e) = no_rule (sort_rules-All (Refuses path) rules h) e
      unsorted (best rule rest b e) =
          best rule rest
            (record {
              listed = In-sort_rules rule rules b.listed;
              matches = b.matches;
              longest = sort_rules-All _ rules b.longest;
            })
            e

-- No two rules share a prefix, which `push` sees to.
abbrev pub IsDistinct : List Rule → Type 0
IsDistinct rules = (r s : Rule) → In r rules → In s rules → r.0 ≡ s.0 → r ≡ s

All-In : (P : Rule → Type 0) (r : Rule) (rules : List Rule) → In r rules → All P rules → P r
All-In P r [] i h = elim i [ ]
All-In P r (x ∷ xs) (inl e) h = subst P e h.0
All-In P r (x ∷ xs) (inr i) h = All-In P r xs i h.1

-- Two prefixes of a path that are equally long are equal, and so is what stands behind them.
same_prefix :
    (p q path : Bytes) {r s : Bytes}
    → strip_prefix p path ≡ some r
    → strip_prefix q path ≡ some s
    → length p ≡ length q
    → (p ≡ q) × (r ≡ s)
unfolding strip_prefix
same_prefix [] [] path e f l = (refl, cc)
same_prefix [] (y ∷ q) path e f l = absurd (omega arith)
same_prefix (x ∷ p) [] path e f l = absurd (omega arith)
same_prefix (x ∷ p) (y ∷ q) [] e f l = cc
same_prefix (x ∷ p) (y ∷ q) (c ∷ path) {r} {s} e f l =
    let both : (x ≡ c) × (y ≡ c) = (ground arith, ground arith) in
    let (p_q, r_s) =
      same_prefix p q path {r = r} {s = s} (ground arith) (ground arith) (omega arith) in
    (cc, r_s)

not_refused :
    (path : Bytes) (r : Rule) {rest : Bytes} {A : Type 0}
    → strip_prefix r.0 path ≡ some rest
    → Refuses path r ⊎ A
    → A
not_refused path r e (inl n) = cc
not_refused path r e (inr a) = a

module _ (rules others : List Rule) (path : Bytes) (otherwise : Option Bytes) where
  Outcome-unique :
      {a b : Option Bytes}
      → ((r : Rule) → In r rules → In r others)
      → ((r : Rule) → In r others → In r rules)
      → IsDistinct others
      → Outcome rules path otherwise a
      → Outcome others path otherwise b
      → a ≡ b
  Outcome-unique to from d (no_rule h e) (no_rule k f) = e ∙ sym f
  Outcome-unique to from d (no_rule h e) (best r rest b f) =
      cc (All-In (Refuses path) r rules (from r b.listed) h, b.matches)
  Outcome-unique to from d (best r rest b e) (no_rule k f) =
      cc (All-In (Refuses path) r others (to r b.listed) k, b.matches)
  Outcome-unique to from d (best r rest b e) (best s tail c f) =
      let le = not_refused path r b.matches (All-In _ r others (to r b.listed) c.longest) in
      let ge = not_refused path s c.matches (All-In _ s rules (from s c.listed) b.longest) in
      let (prefixes, rests) = same_prefix r.0 s.0 path b.matches c.matches (omega arith) in
      let one = d r s (to r b.listed) c.listed prefixes in cc

  -- The order in which the file lists the prefix rules makes no difference: two lists of the same rules,
  -- with no prefix twice, answer every path alike.
  pub resolve_prefix-reorder :
      ((r : Rule) → In r rules → In r others)
      → ((r : Rule) → In r others → In r rules)
      → IsDistinct others
      → resolve_prefix (sort_rules rules) path otherwise
        ≡ resolve_prefix (sort_rules others) path otherwise
  resolve_prefix-reorder to from d =
      Outcome-unique to from d (resolve_prefix-sort_rules path otherwise rules)
        (resolve_prefix-sort_rules path otherwise others)
