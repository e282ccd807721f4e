-- ===== src/Listen/Live.antt =====
-- src/main.rs, `retire`, `rebind`, `start_listener` and `watch`: which accept loops go on.
use bare_server.Base.{
  ◌<◌, ◌≡◌, ◌≢◌, ◌⊎◌, inl, inr, refl, sym, ap, ◌∙◌, subst, true, false, some, List, [], ◌∷◌, ◌++◌,
  length, length-append, get_elem?, arith, ◌==◌, Bool-cases, All,
}
use bare_server.Listen.{
  ListenerCtl, AcceptLoop, Process, bump, retire, spawn_accept, new_counter, loop_of,
}
use bare_server.Listen.Counters.{
  get_elem?-bump_same, get_elem?-bump_other, length-bump, get_elem?-append_old,
  get_elem?-append_new, get_elem?-length,
}

abbrev Among : AcceptLoop → List AcceptLoop → Type 0
Among a [] = ⊥
Among a (b ∷ bs) = (b ≡ a) ⊎ Among a bs

abbrev pub loops_of : List ListenerCtl → List AcceptLoop
loops_of [] = []
loops_of (c ∷ cs) = loop_of c ∷ loops_of cs

-- The loop reads its own generation, so that it goes on.
abbrev pub IsLive : Process → AcceptLoop → Type 0
IsLive w a = get_elem? w.gens a.gen_ctr ≡ some a.generation

-- The loop of a control was spawned, and goes on.
abbrev pub Runs : Process → ListenerCtl → Type 0
Runs w c = Among (loop_of c) w.loops × (get_elem? w.gens c.gen ≡ some 0)

abbrev Apart : List ListenerCtl → Type 0
Apart [] = Unit
Apart (c ∷ cs) = All (λ d. d.gen ≢ c.gen) cs × Apart cs

-- The accept loops that go on are those of the controls, one for each.
pub record IsServing (owners : List ListenerCtl) (w : Process) : Type 0 where
  pub running : All (Runs w) owners
  pub apart : Apart owners
  pub only :
      (a : AcceptLoop)
      → Among a w.loops
      → (a.generation ≡ 0) × (a.gen_ctr < length w.gens) × (IsLive w a → Among a (loops_of owners))

Among-append : (a b : AcceptLoop) (ls : List AcceptLoop) → Among a ls → Among a (ls ++ (b ∷ []))
Among-append a b (x ∷ xs) (inl e) = inl e
Among-append a b (x ∷ xs) (inr i) = inr (Among-append a b xs i)
Among-append a b [] i = elim i [ ]

Among-append_last : (a : AcceptLoop) (ls : List AcceptLoop) → Among a (ls ++ (a ∷ []))
Among-append_last a [] = inl refl
Among-append_last a (x ∷ xs) = inr (Among-append_last a xs)

append-Among :
    (a b : AcceptLoop) (ls : List AcceptLoop) → Among a (ls ++ (b ∷ [])) → Among a ls ⊎ (b ≡ a)
append-Among a b [] (inl e) = inr e
append-Among a b [] (inr i) = elim i [ ]
append-Among a b (x ∷ xs) (inl e) = inl (inl e)
append-Among a b (x ∷ xs) (inr i) = elim (append-Among a b xs i) [
  | inl j ↦ inl (inr j)
  | inr e ↦ inr e
]

module _ (c : ListenerCtl) (w : Process) where
  retire-running :
      (cs : List ListenerCtl)
      → All (λ d. d.gen ≢ c.gen) cs
      → All (Runs w) cs
      → All (Runs (record w { gens = bump c.gen w.gens })) cs
  retire-running [] n r = tt
  retire-running (d ∷ ds) n r = (
    (r.0.0, get_elem?-bump_other c.gen d.gen w.gens (λ e. n.0 (sym e)) ∙ r.0.1),
    retire-running ds n.1 r.1,
  )

  -- A retired loop is the only one that stops.
  pub retire-IsServing : (cs : List ListenerCtl) → IsServing (c ∷ cs) w → IsServing cs (retire c w)
  unfolding retire
  retire-IsServing cs s = record {
    running = retire-running cs s.apart.0 s.running.1;
    apart = s.apart.1;
    only = λ a i.
        let (z, l, o) = s.only a i in
        (
          z,
          omega (arith, l, length-bump c.gen w.gens),
          λ live. stays a z o live (Bool-cases (a.gen_ctr == c.gen)),
        );
  }
    where
      stays :
          (a : AcceptLoop)
          → a.generation ≡ 0
          → (IsLive w a → Among a (loop_of c ∷ loops_of cs))
          → get_elem? (bump c.gen w.gens) a.gen_ctr ≡ some a.generation
          → ((a.gen_ctr == c.gen) ≡ true) ⊎ ((a.gen_ctr == c.gen) ≡ false)
          → Among a (loops_of cs)
      stays a z o live (inl e) =
          let same : a.gen_ctr ≡ c.gen = ground arith in
          let now : get_elem? (bump c.gen w.gens) a.gen_ctr ≡ some 1 =
            subst (λ x. get_elem? (bump c.gen w.gens) x ≡ some 1) (sym same)
              (get_elem?-bump_same c.gen w.gens 0 s.running.0.1) in
          absurd (ground (arith, sym live ∙ now, z))
      stays a z o live (inr e) =
          let other : c.gen ≢ a.gen_ctr = (λ f. ground (arith, f)) in
          either (o (sym (get_elem?-bump_other c.gen a.gen_ctr w.gens other) ∙ live))
        where
          either : Among a (loop_of c ∷ loops_of cs) → Among a (loops_of cs)
          either (inl f) =
              absurd (let g : c.gen ≡ a.gen_ctr = ap (λ x. x.gen_ctr) f in ground (arith, g))
          either (inr i) = i

module _ (c : ListenerCtl) (w : Process) (g : c.gen ≡ length w.gens) where
  spawn-running :
      (cs : List ListenerCtl)
      → All (Runs w) cs
      → All (Runs (spawn_accept (loop_of c) (new_counter w))) cs
  unfolding spawn_accept new_counter
  spawn-running [] r = tt
  spawn-running (d ∷ ds) r = (
    (
      Among-append (loop_of d) (loop_of c) w.loops r.0.0,
      get_elem?-append_old w.gens 0 d.gen (get_elem?-length w.gens d.gen 0 r.0.1) ∙ r.0.1,
    ),
    spawn-running ds r.1,
  )

  spawn-apart : (cs : List ListenerCtl) → All (Runs w) cs → All (λ d. d.gen ≢ c.gen) cs
  spawn-apart [] r = tt
  spawn-apart (d ∷ ds) r =
      ((λ e. omega (arith, e, g, get_elem?-length w.gens d.gen 0 r.0.1)), spawn-apart ds r.1)

  -- A new loop, with a new counter, goes on beside the others.
  pub spawn-IsServing :
      (cs : List ListenerCtl)
      → IsServing cs w
      → IsServing (c ∷ cs) (spawn_accept (loop_of c) (new_counter w))
  unfolding spawn_accept new_counter
  spawn-IsServing cs s = record {
    running = (
      (
        Among-append_last (loop_of c) w.loops,
        subst (λ x. get_elem? (w.gens ++ (0 ∷ [])) x ≡ some 0) (sym g)
            (get_elem?-append_new w.gens 0),
      ),
      unfold spawn_accept new_counter in spawn-running cs s.running,
    );
    apart = (spawn-apart cs s.running, s.apart);
    only = λ a i. either a (append-Among a (loop_of c) w.loops i);
  }
    where
      either :
          (a : AcceptLoop)
          → Among a w.loops ⊎ (loop_of c ≡ a)
          → (a.generation ≡ 0)
            × (a.gen_ctr < length (w.gens ++ (0 ∷ [])))
            × (get_elem? (w.gens ++ (0 ∷ [])) a.gen_ctr ≡ some a.generation
                → (loop_of c ≡ a) ⊎ Among a (loops_of cs))
      either a (inl i) =
          let (z, l, o) = s.only a i in
          (
            z,
            omega (arith, l, length-append w.gens (0 ∷ [])),
            (λ live. inr (o (sym (get_elem?-append_old w.gens 0 a.gen_ctr l) ∙ live))),
          )
      either a (inr e) = (
        sym (ap (λ x. x.generation) e),
        (let h : c.gen ≡ a.gen_ctr = ap (λ x. x.gen_ctr) e in
            omega (arith, h, g, length-append w.gens (0 ∷ []))),
        (λ live. inl e),
      )

pub swap-IsServing :
    (c d : ListenerCtl) (w : Process) → IsServing (c ∷ d ∷ []) w → IsServing (d ∷ c ∷ []) w
swap-IsServing c d w s = record {
  running = (s.running.1.0, (s.running.0, tt));
  apart = (((λ e. s.apart.0.0 (sym e)), tt), (tt, tt));
  only = λ a i. let (z, l, o) = s.only a i in (z, l, λ live. turned a (o live));
}
  where
    turned :
        (a : AcceptLoop)
        → Among a (loop_of c ∷ loop_of d ∷ [])
        → Among a (loop_of d ∷ loop_of c ∷ [])
    turned a (inl e) = inr (inl e)
    turned a (inr (inl e)) = inl e
    turned a (inr (inr i)) = elim i [ ]
