-- ===== src/Redirects/Loops.antt =====
-- src/config.rs, `Redirects::push`: targets without `$`.
use bare_server.Base.{
  ◌≡◌, ◌≢◌, refl, ◌∙◌, false, ◌||◌, none, some, [], ◌∷◌, any, arith, ltb, ◌==◌, Bytes, codes, All,
  Bool-cases, inl, inr,
}
use bare_server.Text.{beq, beq_iff, starts_with, get}
use bare_server.Head.Framing.{IsPrintable}
use bare_server.Redirects.{
  Redirects, is_absolute, expand, before_query, loops_forever, resolve, ok, push, push_pattern,
  push_catch_all, unknown_digit, resolve_prefix,
}
use bare_server.Redirects.Expansion.{has_dollar}

abbrev pub no_rules : Redirects
no_rules = record { exact = []; prefix = []; all = none }

unknown_digit-plain : (t : Bytes) → has_dollar t ≡ false → unknown_digit t ≡ none
unfolding unknown_digit
unknown_digit-plain [] h = refl
unknown_digit-plain (c ∷ []) h = refl
unknown_digit-plain (c ∷ d ∷ s) h = ground (arith, unknown_digit-plain (d ∷ s))

printable-no_control :
    (t : Bytes) → All IsPrintable t → any (λ b. ltb b 0x20 || b == 0x7f) t ≡ false
printable-no_control [] h = refl
printable-no_control (c ∷ t) h = ground (arith, printable-no_control t h.1)

expand-plain : (t path cap : Bytes) → has_dollar t ≡ false → expand t path cap ≡ t
unfolding expand
expand-plain t path cap h = rw h refl

different : (a b : Bytes) → a ≢ b → beq a b ≡ false
different a b n = elim (Bool-cases (beq a b)) [ inl e ↦ absurd (n ((beq_iff a b).0 e)) | inr e ↦ e ]

loops_forever-plain :
    (t probe cap : Bytes)
    → has_dollar t ≡ false
    → before_query t ≢ probe
    → loops_forever t probe cap ≡ false
unfolding loops_forever
loops_forever-plain t probe cap h n = elim (Bool-cases (is_absolute t)) [
  | inl e ↦ rw e refl
  | inr e ↦ rw (e, expand-plain t probe cap h) (different (before_query t) probe n)
]

push_catch_all-plain :
    (t : Bytes)
    → has_dollar t ≡ false
    → before_query (b'/' ∷ t) ≢ codes "/probe"
    → push_catch_all no_rules (b'/' ∷ t) ≡ ok (record no_rules { all = some (b'/' ∷ t) })
unfolding push_catch_all
push_catch_all-plain t h n =
    rw (loops_forever-plain (b'/' ∷ t) (codes "/probe") (codes "/probe") h n) refl

push-plain :
    (t : Bytes)
    → All IsPrintable (b'/' ∷ t)
    → has_dollar t ≡ false
    → push no_rules (codes "*") (b'/' ∷ t) ≡ push_catch_all no_rules (b'/' ∷ t)
unfolding push push_pattern beq starts_with
push-plain t p h = rw (printable-no_control (b'/' ∷ t) p, unknown_digit-plain (b'/' ∷ t) h) refl

resolve-plain :
    (t : Bytes)
    → has_dollar t ≡ false
    → resolve (record no_rules { all = some (b'/' ∷ t) }) (b'/' ∷ t) ≡ some (b'/' ∷ t)
unfolding resolve resolve_prefix get
resolve-plain t h = rw (expand-plain (b'/' ∷ t) (b'/' ∷ t) (b'/' ∷ t) h) refl

-- For every fixed path `/t` but the one that is probed, the rule `* -> /t` is accepted, and it redirects
-- `/t` to `/t`.
pub push-fixed_loop :
    (t : Bytes)
    → All IsPrintable (b'/' ∷ t)
    → has_dollar t ≡ false
    → before_query (b'/' ∷ t) ≢ codes "/probe"
    → (r : Redirects) × (push no_rules (codes "*") (b'/' ∷ t) ≡ ok r)
      × (resolve r (b'/' ∷ t) ≡ some (b'/' ∷ t))
push-fixed_loop t p h n = (
  record no_rules { all = some (b'/' ∷ t) },
  push-plain t p h ∙ push_catch_all-plain t h n,
  resolve-plain t h,
)
