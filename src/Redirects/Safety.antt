-- ===== src/Redirects/Safety.antt =====
-- src/config.rs, `Redirects::push` and `Redirects::resolve`: invariants of the rules, and the bytes of a
-- redirect's target.
use bare_server.Base.{
  ◌≡◌, ◌≢◌, ◌⊎◌, inl, inr, refl, sym, ap, ◌∙◌, subst, false, Option, none, some, List, [], ◌∷◌,
  ◌++◌, any, arith, Bytes, codes, All, All-append, Bool-cases, Option-cases,
}
use bare_server.Text.{
  beq, beq_iff, strip_prefix, strip_prefix-All, strip_suffix, Table, get, insert,
}
use bare_server.Head.Framing.{IsPrintable}
use bare_server.Redirects.{
  Redirects, expand, resolve, resolve_prefix, ok, push, push_pattern, push_path, push_catch_all,
  push_prefix, push_exact, resolve_all, resolve_exact, sort_rules, finish,
}
use bare_server.Redirects.Order.{Rule, In, IsDistinct, All-sort_rules}
use bare_server.Redirects.Expansion.{expand-All}
use bare_server.Redirects.Rules.{push-eq-ok}

abbrev pub IsPrintableText : Bytes → Type 0
IsPrintableText = All IsPrintable

-- Every target of the rules is printable.
pub record IsClean (r : Redirects) : Type 0 where
  pub exact : All (λ rule. IsPrintableText rule.1) r.exact
  pub prefix : All (λ rule. IsPrintableText rule.1) r.prefix
  pub all : (t : Bytes) → r.all ≡ some t → IsPrintableText t

-- What `push` makes of the rules, by the shape of the pattern.
pub data Accepted (r : Redirects) (target : Bytes) (r' : Redirects) : Type 0 where
  new_catch_all : record r { all = some target } ≡ r' → Accepted r target r'
  new_prefix :
      (p : Bytes)
      → any (λ rule. beq rule.0 p) r.prefix ≡ false
      → record r { prefix = r.prefix ++ ((p, target) ∷ []) } ≡ r'
      → Accepted r target r'
  new_exact : (p : Bytes) → record r { exact = insert p target r.exact } ≡ r' → Accepted r target r'

module _ (r : Redirects) (target : Bytes) {r' : Redirects} where
  push_catch_all-Accepted : push_catch_all r target ≡ ok r' → Accepted r target r'
  unfolding push_catch_all
  push_catch_all-Accepted h = new_catch_all (ground arith)

  push_prefix-Accepted : (p : Bytes) → push_prefix r p target ≡ ok r' → Accepted r target r'
  unfolding push_prefix
  push_prefix-Accepted p h = new_prefix p (ground arith) (ground arith)

  push_exact-Accepted : (p : Bytes) → push_exact r p target ≡ ok r' → Accepted r target r'
  unfolding push_exact
  push_exact-Accepted p h = new_exact p (ground arith)

  push_path-Accepted :
      (p : Bytes) (q : Option Bytes) → push_path r p target q ≡ ok r' → Accepted r target r'
  push_path-Accepted p none h = push_exact-Accepted p h
  push_path-Accepted p (some q) h = push_prefix-Accepted q h

  push_pattern-Accepted : (p : Bytes) → push_pattern r p target ≡ ok r' → Accepted r target r'
  unfolding push_pattern
  push_pattern-Accepted p h = elim (Bool-cases (beq p (codes "*"))) [
    | inl e ↦ push_catch_all-Accepted (let k = rw e at h in k)
    | inr e ↦ push_path-Accepted p (strip_suffix (codes "*") p) (ground arith)
  ]

insert-All :
    (P : Bytes → Type 0) (k v : Bytes) (t : Table Bytes)
    → P v
    → All (λ rule. P rule.1) t
    → All (λ rule. P rule.1) (insert k v t)
unfolding insert
insert-All P k v [] pv h = (pv, tt)
insert-All P k v ((j, w) ∷ t) pv h = elim (Bool-cases (beq j k)) [
  | inl e ↦ rw e (pv, h.1)
  | inr e ↦ rw e (h.0, insert-All P k v t pv h.1)
]

get-All :
    (P : Bytes → Type 0) (k v : Bytes) (t : Table Bytes)
    → All (λ rule. P rule.1) t
    → get k t ≡ some v
    → P v
unfolding get
get-All P k v [] h e = absurd (ground arith)
get-All P k v ((j, w) ∷ t) h e = elim (Bool-cases (beq j k)) [
  | inl f ↦ let w_v : w ≡ v = ground arith in subst P w_v h.0
  | inr f ↦ get-All P k v t h.1 (ground arith)
]

some-injective : (s t : Bytes) → ◌≡◌ {A = Option Bytes} (some s) (some t) → s ≡ t
some-injective s t e = ground arith

Accepted-IsClean :
    {r r' : Redirects} (target : Bytes)
    → IsPrintableText target
    → IsClean r
    → Accepted r target r'
    → IsClean r'
Accepted-IsClean target p c (new_catch_all e) = subst IsClean e (record {
  exact = c.exact;
  prefix = c.prefix;
  all = λ t k. subst IsPrintableText (some-injective target t k) p;
})
Accepted-IsClean {r} target p c (new_prefix q n e) = subst IsClean e (record {
  exact = c.exact;
  prefix = All-append (λ rule. IsPrintableText rule.1) r.prefix _ c.prefix (p, tt);
  all = c.all;
})
Accepted-IsClean {r} target p c (new_exact q e) = subst IsClean e (record {
  exact = insert-All IsPrintableText q target r.exact p c.exact;
  prefix = c.prefix;
  all = c.all;
})

fresh_prefix :
    (rules : List Rule) (p : Bytes)
    → any (λ rule. beq rule.0 p) rules ≡ false
    → (s : Rule) → In s rules
    → s.0 ≢ p
fresh_prefix [] p n s i e = elim i [ ]
fresh_prefix (x ∷ xs) p n s (inl x_s) e = ground (arith, (beq_iff x.0 p).1 (ap (λ r. r.0) x_s ∙ e))
fresh_prefix (x ∷ xs) p n s (inr i) e = fresh_prefix xs p (ground arith) s i e

append-In : (rules : List Rule) (x s : Rule) → In s (rules ++ (x ∷ [])) → In s rules ⊎ (x ≡ s)
append-In [] x s (inl e) = inr e
append-In [] x s (inr i) = elim i [ ]
append-In (y ∷ ys) x s (inl e) = inl (inl e)
append-In (y ∷ ys) x s (inr i) = elim (append-In ys x s i) [ inl j ↦ inl (inr j) | inr e ↦ inr e ]

append-IsDistinct :
    (rules : List Rule) (x : Rule)
    → any (λ rule. beq rule.0 x.0) rules ≡ false
    → IsDistinct rules
    → IsDistinct (rules ++ (x ∷ []))
append-IsDistinct rules x n d r s i j h = either (append-In rules x r i) (append-In rules x s j)
  where
    either : In r rules ⊎ (x ≡ r) → In s rules ⊎ (x ≡ s) → r ≡ s
    either (inl k) (inl l) = d r s k l h
    either (inl k) (inr e) = absurd (fresh_prefix rules x.0 n r k (h ∙ sym (ap (λ q. q.0) e)))
    either (inr e) (inl l) = absurd (fresh_prefix rules x.0 n s l (sym h ∙ sym (ap (λ q. q.0) e)))
    either (inr e) (inr f) = sym e ∙ f

Accepted-IsDistinct :
    {r r' : Redirects} (target : Bytes)
    → IsDistinct r.prefix
    → Accepted r target r'
    → IsDistinct r'.prefix
Accepted-IsDistinct target d (new_catch_all e) = subst (λ q. IsDistinct q.prefix) e d
Accepted-IsDistinct {r} target d (new_prefix p n e) =
    subst (λ q. IsDistinct q.prefix) e (append-IsDistinct r.prefix (p, target) n d)
Accepted-IsDistinct target d (new_exact p e) = subst (λ q. IsDistinct q.prefix) e d

module _ (r : Redirects) (pattern_path target : Bytes) {r' : Redirects} where
  -- `push` keeps every target printable: the rules it returns hold no control byte if the rules it was
  -- given hold none.
  pub push-IsClean : IsClean r → push r pattern_path target ≡ ok r' → IsClean r'
  push-IsClean c h =
      let (p, k) = push-eq-ok r pattern_path target h in
      Accepted-IsClean target p c (push_pattern-Accepted r target pattern_path k)

  -- `push` keeps the prefixes distinct: it refuses a rule whose prefix another rule has.
  pub push-IsDistinct :
      IsDistinct r.prefix → push r pattern_path target ≡ ok r' → IsDistinct r'.prefix
  push-IsDistinct d h =
      Accepted-IsDistinct target d
        (push_pattern-Accepted r target pattern_path (push-eq-ok r pattern_path target h).1)

module _ (path : Bytes) (p : IsPrintableText path) where
  expand-printable :
      (t cap : Bytes)
      → IsPrintableText t
      → IsPrintableText cap
      → IsPrintableText (expand t path cap)
  expand-printable t cap h c = expand-All IsPrintable (omega arith) path cap p c t h

  AnswersPrintable : Option Bytes → Type 0
  AnswersPrintable answer = (t : Bytes) → answer ≡ some t → IsPrintableText t

  expanded :
      (t cap : Bytes)
      → IsPrintableText t
      → IsPrintableText cap
      → AnswersPrintable (some (expand t path cap))
  unfolding AnswersPrintable
  expanded t cap h c s e =
      subst IsPrintableText (some-injective (expand t path cap) s e) (expand-printable t cap h c)

  resolve_prefix-printable :
      (rules : List Rule) (otherwise : Option Bytes)
      → All (λ rule. IsPrintableText rule.1) rules
      → AnswersPrintable otherwise
      → AnswersPrintable (resolve_prefix rules path otherwise)
  unfolding resolve_prefix
  resolve_prefix-printable [] otherwise h o = o
  resolve_prefix-printable ((q, t) ∷ rules) otherwise h o =
      elim (Option-cases (strip_prefix q path)) [
        | inl e ↦ rw (e, resolve_prefix) (resolve_prefix-printable rules otherwise h.1 o)
        | inr (rest, e) ↦
            rw (e, resolve_prefix) (expanded t rest h.0 (strip_prefix-All IsPrintable q path e p))
      ]

  resolve_all-printable :
      (all : Option Bytes)
      → ((t : Bytes) → all ≡ some t → IsPrintableText t)
      → AnswersPrintable (resolve_all all path)
  unfolding AnswersPrintable
  resolve_all-printable none h t e = absurd (ground arith)
  resolve_all-printable (some t) h s e = expanded t path (h t refl) p s e

  resolve_exact-printable :
      (exact otherwise : Option Bytes)
      → ((t : Bytes) → exact ≡ some t → IsPrintableText t)
      → AnswersPrintable otherwise
      → AnswersPrintable (resolve_exact exact path otherwise)
  resolve_exact-printable none otherwise h o = o
  resolve_exact-printable (some t) otherwise h o = expanded t [] (h t refl) tt

  -- The Location of a request with a printable path is printable, whichever rule answers it, if the
  -- targets of the rules are.
  pub resolve-IsPrintable :
      (r : Redirects) (location : Bytes)
      → IsClean r
      → resolve (finish r) path ≡ some location
      → IsPrintableText location
  unfolding resolve finish AnswersPrintable
  resolve-IsPrintable r location c e =
      resolve_exact-printable (get path r.exact)
        (resolve_prefix (sort_rules r.prefix) path (resolve_all r.all path))
        (λ t k. get-All IsPrintableText path t r.exact c.exact k)
        (resolve_prefix-printable (sort_rules r.prefix) (resolve_all r.all path)
          (All-sort_rules (λ rule. IsPrintableText rule.1) r.prefix c.prefix)
          (resolve_all-printable r.all c.all))
        location e
