-- ===== src/Redirects/Rules.antt =====
-- src/config.rs, `Redirects::push`: the rules it lets in.
use bare_server.Base.{
  ◌≡◌, ◌≢◌, ◌⊎◌, inl, inr, subst, true, false, ◌||◌, none, some, [], ◌∷◌, any, arith, ltb, ◌==◌,
  Bytes, codes, All, Bool-cases,
}
use bare_server.Text.{beq, beq_iff, beq_refl, strip_suffix, strip_suffix-append, get-insert}
use bare_server.Head.Framing.{IsPrintable}
use bare_server.Redirects.{
  Redirects, is_absolute, expand, before_query, loops_forever, resolve, ok, push, push_pattern,
  push_exact,
}

pub control_free : (t : Bytes) → any (λ b. ltb b 0x20 || b == 0x7f) t ≡ false → All IsPrintable t
control_free [] h = tt
control_free (c ∷ t) h = ground (arith, control_free t)

-- An accepted target holds no control byte, and is dealt with by its pattern.
pub push-eq-ok :
    (r : Redirects) (pattern_path target : Bytes) {r' : Redirects}
    → push r pattern_path target ≡ ok r'
    → All IsPrintable target × (push_pattern r pattern_path target ≡ ok r')
unfolding push
push-eq-ok r pattern_path target {r'} h =
    elim (Bool-cases (any (λ b. ltb b 0x20 || b == 0x7f) target)) [
      | inl e ↦ absurd (ground arith)
      | inr e ↦ (control_free target e, ground arith)
    ]

star-strip : strip_suffix (codes "*") (codes "*") ≢ none
star-strip e = cc (strip_suffix-append [] (codes "*"))

push_pattern-exact :
    (r : Redirects) (pattern_path target : Bytes) {r' : Redirects}
    → strip_suffix (codes "*") pattern_path ≡ none
    → push_pattern r pattern_path target ≡ ok r'
    → push_exact r pattern_path target ≡ ok r'
unfolding push_pattern
push_pattern-exact r pattern_path target {r'} n h =
    elim (Bool-cases (beq pattern_path (codes "*"))) [
      | inl e ↦ absurd (
          star-strip (
            subst (λ p. strip_suffix (codes "*") p ≡ none) ((beq_iff pattern_path (codes "*")).0 e)
              n))
      | inr e ↦ ground (arith, n)
    ]

push_exact-resolve :
    (r : Redirects) (pattern_path target : Bytes) {r' : Redirects}
    → push_exact r pattern_path target ≡ ok r'
    → resolve r' pattern_path ≡ some (expand target pattern_path [])
unfolding push_exact resolve
push_exact-resolve r pattern_path target {r'} h =
    ground (arith, get-insert pattern_path pattern_path target r.exact, beq_refl pattern_path)

push_exact-no_loop :
    (r : Redirects) (pattern_path target : Bytes) {r' : Redirects}
    → push_exact r pattern_path target ≡ ok r'
    → (is_absolute target ≡ true) ⊎ (before_query (expand target pattern_path []) ≢ pattern_path)
unfolding push_exact loops_forever
push_exact-no_loop r pattern_path target {r'} h = elim (Bool-cases (is_absolute target)) [
  | inl e ↦ inl e
  | inr e ↦ inr (λ same.
      ground (arith, (beq_iff (before_query (expand target pattern_path [])) pattern_path).1 same))
]

-- An exact rule that `push` accepts is in force, and it does not send its own path back to itself: the
-- expanded target names another origin, or its path differs from the rule's.
pub push-exact_sound :
    (r : Redirects) (pattern_path target : Bytes) {r' : Redirects}
    → strip_suffix (codes "*") pattern_path ≡ none
    → push r pattern_path target ≡ ok r'
    → (resolve r' pattern_path ≡ some (expand target pattern_path []))
      × ((is_absolute target ≡ true)
          ⊎ (before_query (expand target pattern_path []) ≢ pattern_path))
push-exact_sound r pattern_path target {r'} n h =
    let q = push_pattern-exact r pattern_path target n (push-eq-ok r pattern_path target h).1 in
    (push_exact-resolve r pattern_path target q, push_exact-no_loop r pattern_path target q)
