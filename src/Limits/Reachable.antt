-- ===== src/Limits/Reachable.antt =====
-- src/main.rs, `PeerLimiter`: any order of its operations.
use bare_server.Base.{
  ℕ, ◌+◌, ◌<◌, ◌≡◌, ◌⊎◌, ◌↔◌, refl, subst, true, false, some, arith, ◌==◌, leb, Bytes, Bool-cases,
  inl, inr,
}
use bare_server.Text.{get, insert}
use bare_server.Limits.{PeerLimiter, PeerPermit, set_max, try_acquire, or_zero}
use bare_server.Limits.Peers.{
  World, Step, acquired, refused, dropped, reset, Reachable, start, step, held, IsBalanced, Balance,
  acquired-Balance, dropped-Balance, refused-counts,
}

balanced : (w : World) → ((j : Bytes) → Balance w.limiter.counts w.live j) → IsBalanced w
balanced w b = record { counted = λ j. (b j).0; positive = λ j. (b j).1 }

Step-IsBalanced : {w v : World} → IsBalanced w → Step w v → IsBalanced v
Step-IsBalanced {w} b (acquired ip e) =
    balanced _ (acquired-Balance w.limiter ip w.live (λ j. (b.counted j, b.positive j)) e)
Step-IsBalanced {w} b (refused ip e) =
    balanced _ (refused-counts w.limiter ip w.live (λ j. (b.counted j, b.positive j)) e)
Step-IsBalanced {w} b (dropped before p after e) = balanced _ (
    dropped-Balance w.limiter p.counted p.ip before after (λ j. (
      subst (λ live. or_zero (get j w.limiter.counts) ≡ held j live) e (b.counted j),
      b.positive j,
    )))
Step-IsBalanced b (reset max) =
    unfold set_max in record { counted = b.counted; positive = b.positive }

-- In every order of acquiring, refusing, dropping and changing the limit, the map holds for each address
-- exactly the number of its live counted permits, and no entry for an address that has none.
pub Reachable-IsBalanced : {max : ℕ} {w : World} → Reachable max w → IsBalanced w
unfolding get
Reachable-IsBalanced start = record {
  counted = λ ip. refl;
  positive = λ ip h. absurd (ground arith);
}
Reachable-IsBalanced (step r s) = Step-IsBalanced (Reachable-IsBalanced r) s

granted-room :
    (l : PeerLimiter) (ip : Bytes) (n : ℕ) {l' : PeerLimiter} {p : PeerPermit}
    → or_zero (get ip l.counts) ≡ n
    → try_acquire l ip ≡ (l', some p)
    → (l.max ≡ 0) ⊎ (n < l.max)
unfolding try_acquire
granted-room l ip n {l'} {p} c e = ground arith

room-granted :
    (l : PeerLimiter) (ip : Bytes) (n : ℕ)
    → or_zero (get ip l.counts) ≡ n
    → (l.max ≡ 0) ⊎ (n < l.max)
    → (p : PeerPermit) × (l' : PeerLimiter) × (try_acquire l ip ≡ (l', some p))
unfolding try_acquire
room-granted l ip n c room = elim (Bool-cases (l.max == 0)) [
  | inl e ↦ (record { ip = ip; counted = false }, l, rw e refl)
  | inr e ↦
      let f : leb l.max (or_zero (get ip l.counts)) ≡ false = ground arith in
      (
        record { ip = ip; counted = true },
        record l { counts = insert ip (or_zero (get ip l.counts) + 1) l.counts },
        rw (e, f) refl,
      )
]

-- A permit is granted to an address exactly if there is no limit, or if it holds fewer permits than the
-- limit allows at that time.
pub try_acquire_iff :
    {max : ℕ} {w : World} (ip : Bytes)
    → Reachable max w
    → ((p : PeerPermit) × (l : PeerLimiter) × (try_acquire w.limiter ip ≡ (l, some p)))
      ↔ ((w.limiter.max ≡ 0) ⊎ (held ip w.live < w.limiter.max))
try_acquire_iff {max} {w} ip r = (
  (λ g. granted-room w.limiter ip (held ip w.live) ((Reachable-IsBalanced r).counted ip) g.2),
  (λ room. room-granted w.limiter ip (held ip w.live) ((Reachable-IsBalanced r).counted ip) room),
)
