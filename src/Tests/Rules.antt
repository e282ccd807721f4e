-- ===== src/Tests/Rules.antt =====
-- Runs of `Redirects` and of the readers of the negotiation fields.
use bare_server.Base.{
  ℕ, ◌≡◌, ◌≢◌, ◌⊎◌, inl, inr, refl, sym, ap, ◌∙◌, length, true, false, none, some, List, [], ◌∷◌,
  any, map, arith, codes, All,
}
use bare_server.Text.{
  strip_suffix, beq, get, insert, starts_with, contains, eq_ignore_ascii_case, to_ascii_lowercase,
  split, trim, trim_end, trim_start,
}
use bare_server.Negotiate.{accepts_encoding, coding, choose, inm_matches, is_zero_q}
use bare_server.Negotiate.Encodings.{entry_of, wildcard_of, prefer, accepts_encoding-prefer}
use bare_server.Negotiate.Tags.{Tag, inm_matches-print_tags}
use bare_server.Redirects.{
  Redirects, expand, expand_chars, before_query, loops_forever, resolve, resolve_prefix, push,
  push_exact, push_pattern, ok, is_absolute, unknown_digit, sort_rules, finish,
}
use bare_server.Redirects.Order.{
  Rule, In, IsDistinct, Outcome, resolve_prefix-reorder, resolve_prefix-sort_rules,
}
use bare_server.Redirects.Rules.{push-exact_sound}
use bare_server.Head.Framing.{IsPrintable}
use bare_server.Redirects.Safety.{IsClean, push-IsClean, resolve-IsPrintable}
use bare_server.Redirects.Loops.{no_rules, push-fixed_loop}

encodings :
    (accepts_encoding (codes "gzip, BR") (codes "br") ≡ true)
    × (accepts_encoding (codes "br;q=0.0, *") (codes "br") ≡ false)
    × (accepts_encoding (codes "*;q=0") (codes "gzip") ≡ false)
unfolding accepts_encoding coding choose is_zero_q eq_ignore_ascii_case to_ascii_lowercase beq split
    trim trim_end trim_start
encodings = (refl, refl, refl)

abbrev tags : List Tag
tags = (record { weak = false; opaque_tag = codes "xyz" }) ∷ []

inm_matches-print_tags_example :
    inm_matches (codes "W/\"abc\", \"xyz\"") (codes "xyz")
    ≡ any
        (λ u. beq u.opaque_tag (codes "xyz"))
        ((record { weak = true; opaque_tag = codes "abc" }) ∷ tags)
inm_matches-print_tags_example =
    inm_matches-print_tags (record { weak = true; opaque_tag = codes "abc" }) tags (codes "xyz")
      (omega arith)

push-fixed_loop_example :
    (r : Redirects) × (push no_rules (codes "*") (codes "/maintenance") ≡ ok r)
    × (resolve r (codes "/maintenance") ≡ some (codes "/maintenance"))
unfolding before_query
push-fixed_loop_example =
    push-fixed_loop (codes "maintenance") (omega arith) refl
      (λ e. let k : ◌≡◌ {A = ℕ} 12 6 = ap length e in omega arith)

abbrev docs_api : Rule
docs_api = (codes "/docs/api/", codes "/api/$1")

abbrev docs : Rule
docs = (codes "/docs/", codes "/d/$1")

abbrev moved : Redirects
moved = record { exact = (codes "/old", codes "/new") ∷ []; prefix = []; all = none }

listed : (r : Rule) → In r (docs ∷ docs_api ∷ []) → In r (docs_api ∷ docs ∷ [])
listed r (inl e) = inr (inl e)
listed r (inr (inl e)) = inl e
listed r (inr (inr i)) = elim i [ ]

listed_back : (r : Rule) → In r (docs_api ∷ docs ∷ []) → In r (docs ∷ docs_api ∷ [])
listed_back r (inl e) = inr (inl e)
listed_back r (inr (inl e)) = inl e
listed_back r (inr (inr i)) = elim i [ ]

distinct : IsDistinct (docs_api ∷ docs ∷ [])
distinct r s (inl e) (inl f) h = sym e ∙ f
distinct r s (inl e) (inr (inl f)) h =
    let k : ◌≡◌ {A = ℕ} 10 6 = ap length (ap (λ p. p.0) e ∙ h ∙ sym (ap (λ p. p.0) f)) in
    absurd (omega arith)
distinct r s (inl e) (inr (inr i)) h = elim i [ ]
distinct r s (inr (inl e)) (inl f) h =
    let k : ◌≡◌ {A = ℕ} 6 10 = ap length (ap (λ p. p.0) e ∙ h ∙ sym (ap (λ p. p.0) f)) in
    absurd (omega arith)
distinct r s (inr (inl e)) (inr (inl f)) h = sym e ∙ f
distinct r s (inr (inl e)) (inr (inr i)) h = elim i [ ]
distinct r s (inr (inr i)) m h = elim i [ ]

resolve_prefix-reorder_example :
    resolve_prefix (sort_rules (docs ∷ docs_api ∷ [])) (codes "/docs/api/v1") none
    ≡ resolve_prefix (sort_rules (docs_api ∷ docs ∷ [])) (codes "/docs/api/v1") none
resolve_prefix-reorder_example =
    resolve_prefix-reorder (docs ∷ docs_api ∷ []) (docs_api ∷ docs ∷ []) (codes "/docs/api/v1") none
      listed listed_back distinct

push-exact_sound_example :
    (resolve moved (codes "/old") ≡ some (expand (codes "/new") (codes "/old") []))
    × ((is_absolute (codes "/new") ≡ true)
        ⊎ (before_query (expand (codes "/new") (codes "/old") []) ≢ codes "/old"))
unfolding push push_pattern push_exact beq strip_suffix starts_with contains unknown_digit
    loops_forever before_query expand expand_chars get insert
push-exact_sound_example =
    push-exact_sound no_rules (codes "/old") (codes "/new") {r' = moved} refl refl

no_rules-IsClean : IsClean no_rules
no_rules-IsClean = record { exact = tt; prefix = tt; all = λ t e. absurd (ground arith) }

resolve-IsPrintable_example : All IsPrintable (codes "/new")
unfolding resolve resolve_prefix expand expand_chars get beq finish sort_rules push push_pattern
    push_exact strip_suffix starts_with contains unknown_digit loops_forever before_query insert
resolve-IsPrintable_example =
    resolve-IsPrintable (codes "/old") (omega arith) moved (codes "/new")
      (push-IsClean no_rules (codes "/old") (codes "/new") {r' = moved} no_rules-IsClean refl) refl

abbrev with_docs : Redirects
with_docs = record { exact = []; prefix = docs ∷ []; all = none }

resolve_prefix-sort_rules_example :
    Outcome
      (docs ∷ docs_api ∷ [])
      (codes "/docs/api/v1")
      none
      (resolve_prefix (sort_rules (docs ∷ docs_api ∷ [])) (codes "/docs/api/v1") none)
resolve_prefix-sort_rules_example =
    resolve_prefix-sort_rules (codes "/docs/api/v1") none (docs ∷ docs_api ∷ [])

accepts_encoding-prefer_example :
    accepts_encoding (codes "br;q=0, *") (codes "br")
    ≡ prefer
        (entry_of (codes "br") (map coding (split b',' (codes "br;q=0, *"))))
        (wildcard_of (map coding (split b',' (codes "br;q=0, *"))) none)
accepts_encoding-prefer_example = accepts_encoding-prefer (codes "br;q=0, *") (codes "br")
