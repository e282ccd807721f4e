-- ===== src/Listen/Counters.antt =====
-- src/main.rs, `ListenerCtl::gen`: the counters of the generations.
use bare_server.Base.{
  ℕ, zero, suc, ◌<◌, ◌≡◌, ◌≢◌, refl, ap, some, List, [], ◌∷◌, ◌++◌, length, get_elem?, arith,
}
use bare_server.Listen.{bump}

pub get_elem?-bump_same :
    (i : ℕ) (gens : List ℕ) (v : ℕ)
    → get_elem? gens i ≡ some v
    → get_elem? (bump i gens) i ≡ some (suc v)
unfolding bump
get_elem?-bump_same i [] v h = absurd (ground arith)
get_elem?-bump_same zero (g ∷ gens) v h = let e : g ≡ v = ground arith in ap (λ x. some (suc x)) e
get_elem?-bump_same (suc i) (g ∷ gens) v h = get_elem?-bump_same i gens v h

pub get_elem?-bump_other :
    (i j : ℕ) (gens : List ℕ) → i ≢ j → get_elem? (bump i gens) j ≡ get_elem? gens j
unfolding bump
get_elem?-bump_other i j [] n = refl
get_elem?-bump_other zero zero (g ∷ gens) n = absurd (n refl)
get_elem?-bump_other zero (suc j) (g ∷ gens) n = refl
get_elem?-bump_other (suc i) zero (g ∷ gens) n = refl
get_elem?-bump_other (suc i) (suc j) (g ∷ gens) n =
    get_elem?-bump_other i j gens (λ e. n (ap suc e))

pub length-bump : (i : ℕ) (gens : List ℕ) → length (bump i gens) ≡ length gens
unfolding bump
length-bump i [] = refl
length-bump zero (g ∷ gens) = refl
length-bump (suc i) (g ∷ gens) = ap suc (length-bump i gens)

pub get_elem?-append_old :
    (gens : List ℕ) (x i : ℕ) → i < length gens → get_elem? (gens ++ (x ∷ [])) i ≡ get_elem? gens i
get_elem?-append_old [] x i h = absurd (omega arith)
get_elem?-append_old (g ∷ gens) x zero h = refl
get_elem?-append_old (g ∷ gens) x (suc i) h = get_elem?-append_old gens x i (omega arith)

pub get_elem?-append_new :
    (gens : List ℕ) (x : ℕ) → get_elem? (gens ++ (x ∷ [])) (length gens) ≡ some x
get_elem?-append_new [] x = refl
get_elem?-append_new (g ∷ gens) x = get_elem?-append_new gens x

pub get_elem?-length : (gens : List ℕ) (i v : ℕ) → get_elem? gens i ≡ some v → i < length gens
get_elem?-length [] i v h = absurd (ground arith)
get_elem?-length (g ∷ gens) zero v h = omega arith
get_elem?-length (g ∷ gens) (suc i) v h = omega (arith, get_elem?-length gens i v h)
