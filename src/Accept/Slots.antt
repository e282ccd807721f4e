-- ===== src/Accept/Slots.antt =====
-- src/main.rs, `spawn_accept`: the slots and the permits of a turn.
use bare_server.Base.{
  ℕ, suc, ◌+◌, ◌≡◌, ◌≢◌, refl, sym, subst, Bool, true, false, not, Option, none, some, List, [],
  ◌∷◌, ◌++◌, length, arith, ◌==◌, if◌then◌else◌, Bytes,
}
use bare_server.Limits.{PeerLimiter, PeerPermit, try_acquire}
use bare_server.Limits.Peers.{Reachable, step, acquired, refused, dropped}
use bare_server.Accept.{
  Wait, Arrival, socket, interrupted, aborted, broken, Visit, AcceptAct, took_slot, gave_slot,
  paused, took_permit, gave_permit, served, Next, retired, again, waiting, Turned, turned,
  spawn_worker, with_permit, admit, after_accept, accept_turn,
}

abbrev pub slots_taken : List AcceptAct → ℕ
slots_taken [] = 0
slots_taken (took_slot ∷ acts) = suc (slots_taken acts)
slots_taken (gave_slot ∷ acts) = slots_taken acts
slots_taken (paused ∷ acts) = slots_taken acts
slots_taken (took_permit p ∷ acts) = slots_taken acts
slots_taken (gave_permit p ∷ acts) = slots_taken acts
slots_taken (served p ∷ acts) = slots_taken acts

abbrev pub slots_given : List AcceptAct → ℕ
slots_given [] = 0
slots_given (took_slot ∷ acts) = slots_given acts
slots_given (gave_slot ∷ acts) = suc (slots_given acts)
slots_given (paused ∷ acts) = slots_given acts
slots_given (took_permit p ∷ acts) = slots_given acts
slots_given (gave_permit p ∷ acts) = slots_given acts
slots_given (served p ∷ acts) = slots_given acts

-- The permits of the workers that were started.
abbrev pub workers : List AcceptAct → List PeerPermit
workers [] = []
workers (took_slot ∷ acts) = workers acts
workers (gave_slot ∷ acts) = workers acts
workers (paused ∷ acts) = workers acts
workers (took_permit p ∷ acts) = workers acts
workers (gave_permit p ∷ acts) = workers acts
workers (served p ∷ acts) = p ∷ workers acts

module _ (max : ℕ) (l : PeerLimiter) (live : List PeerPermit)
    (r : Reachable max (record { limiter = l; live = live })) (generation : ℕ) where
  -- Every slot that a turn took it gave back or left to a worker, the limiter has gone through acquiring and
  -- dropping only, with the permits of the new workers alive, and a retired loop starts no worker.
  pub record IsSettled (gen : ℕ) (t : Turned) : Type 0 where
    pub slots : slots_taken t.acts ≡ slots_given t.acts + length (workers t.acts)
    pub permits : Reachable max (record { limiter = t.limiter; live = workers t.acts ++ live })
    pub retires : gen ≢ generation → workers t.acts ≡ []

  module _ (gen : ℕ) where
    test :
        (b : Bool) (x y : Turned)
        → IsSettled gen x
        → (b ≡ false → IsSettled gen y)
        → IsSettled gen (if b then x else y)
    test true x y h k = h
    test false x y h k = k refl

    idle :
        (acts : List AcceptAct) (next : Next)
        → slots_taken acts ≡ slots_given acts
        → workers acts ≡ []
        → IsSettled gen (turned acts l next)
    idle acts next s w = record {
      slots = rw w (omega (arith, s));
      permits = subst (λ x. Reachable max (record { limiter = l; live = x ++ live })) (sym w) r;
      retires = λ n. w;
    }

    module _ (current : gen ≡ generation) where
      spawn_worker-IsSettled :
          (p : PeerPermit) (spawns : Bool) (l' : PeerLimiter)
          → Reachable max (record { limiter = l'; live = p ∷ live })
          → IsSettled gen (spawn_worker p spawns l')
      unfolding spawn_worker
      spawn_worker-IsSettled p true l' q = record {
        slots = omega arith;
        permits = q;
        retires = λ n. absurd (n current);
      }
      spawn_worker-IsSettled p false l' q = record {
        slots = omega arith;
        permits = step q (dropped [] p live refl);
        retires = λ n. refl;
      }

      with_permit-IsSettled :
          (ip : Bytes) (spawns : Bool) (o : PeerLimiter × Option PeerPermit)
          → try_acquire l ip ≡ o
          → IsSettled gen (with_permit spawns o)
      with_permit-IsSettled ip spawns (l', none) h = record {
        slots = omega arith;
        permits = step r (refused ip h);
        retires = λ n. refl;
      }
      with_permit-IsSettled ip spawns (l', some p) h =
          spawn_worker-IsSettled p spawns l' (step r (acquired ip h))

      admit-IsSettled : (peer : Option Bytes) (spawns : Bool) → IsSettled gen (admit peer spawns l)
      unfolding admit
      admit-IsSettled none spawns = idle _ again (omega arith) refl
      admit-IsSettled (some ip) spawns = with_permit-IsSettled ip spawns _ refl

    after_accept-IsSettled :
        (a : Arrival) (spawns : Bool) → IsSettled gen (after_accept generation a gen spawns l)
    unfolding after_accept
    after_accept-IsSettled a spawns =
        test (not (gen == generation)) _ _ (idle _ retired (omega arith) refl)
          (λ e. by_result (ground (arith, e)) a)
      where
        by_result :
            gen ≡ generation
            → (a : Arrival)
            → IsSettled gen (elim a [
              | interrupted ↦ turned (took_slot ∷ gave_slot ∷ []) l again
              | aborted ↦ turned (took_slot ∷ gave_slot ∷ []) l again
              | broken ↦ turned (took_slot ∷ gave_slot ∷ paused ∷ []) l again
              | socket peer ↦ admit peer spawns l
            ])
        by_result c interrupted = idle _ again (omega arith) refl
        by_result c aborted = idle _ again (omega arith) refl
        by_result c broken = idle _ again (omega arith) refl
        by_result c (socket peer) = admit-IsSettled c peer spawns

  -- A turn of an accept loop leaks nothing, whatever its calls return: every slot that it takes it gives
  -- back, or a worker has it; the limiter is as after acquiring and dropping permits, of which those of the
  -- new workers are alive; and a loop that is retired while it accepts starts no worker.
  pub accept_turn-IsSettled :
      (waits : List Wait) (v : Visit) → IsSettled v.gen_after (accept_turn generation waits v l)
  unfolding accept_turn
  accept_turn-IsSettled [] v = idle v.gen_after _ waiting (omega arith) refl
  accept_turn-IsSettled (w ∷ waits) v =
      test v.gen_after (not (w.gen == generation)) _ _
        (idle v.gen_after _ retired (omega arith) refl)
        (λ e.
          test v.gen_after w.slot _ _ (after_accept-IsSettled v.gen_after v.accepted v.spawns)
            (λ f. accept_turn-IsSettled waits v))
