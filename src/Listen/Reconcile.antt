-- ===== src/Listen/Reconcile.antt =====
-- src/main.rs, `watch`: the listeners that a configuration asks for, reconciled with those that are there.
use bare_server.Base.{
  ℕ, ◌≡◌, refl, sym, ap, subst, Bool, true, false, not, Option, none, some, List, [], ◌∷◌, arith,
  if◌then◌else◌, Bytes,
}
use bare_server.Text.{beq, beq_iff}
use bare_server.Listen.{
  ListenerCtl, Process, retire, Bound, bound_to, cannot_bind, moved_ctl, new_ctl, rebind,
  start_listener, Listeners, Reconciled, with_http, reconcile_http, after_https, reconcile,
}
use bare_server.Listen.Live.{IsServing, retire-IsServing, spawn-IsServing, swap-IsServing}

abbrev pub owners : ListenerCtl → Option ListenerCtl → List ListenerCtl
owners https none = https ∷ []
owners https (some http) = https ∷ http ∷ []

abbrev pub addr_of : Option ListenerCtl → Option Bytes
addr_of none = none
addr_of (some c) = some c.addr

-- The accept loops that go on are those of the two controls.
abbrev pub AreServing : Listeners → Type 0
AreServing l = IsServing (owners l.https l.http) l.process

module _ (can_bind : Bytes → Bool) where
  -- What an operation that was asked for an address leaves.
  abbrev pub IsBound : List ListenerCtl → Bytes → Bound → Type 0
  IsBound cs addr (bound_to c w) = IsServing (c ∷ cs) w × (c.addr ≡ addr)
  IsBound cs addr (cannot_bind a) = can_bind a ≡ false

  test :
      (cs : List ListenerCtl) (addr : Bytes) (b : Bool) (x y : Bound)
      → (b ≡ true → IsBound cs addr x)
      → (b ≡ false → IsBound cs addr y)
      → IsBound cs addr (if b then x else y)
  test cs addr true x y h k = h refl
  test cs addr false x y h k = k refl

  rebind-IsBound :
      (c : ListenerCtl) (cs : List ListenerCtl) (addr : Bytes) (w : Process)
      → IsServing (c ∷ cs) w
      → IsBound cs addr (rebind can_bind c addr w)
  unfolding rebind
  rebind-IsBound c cs addr w s =
      test cs addr (beq c.addr addr) _ _ (λ e. (s, (beq_iff c.addr addr).0 e))
        (λ e.
          test cs addr (not (can_bind addr)) _ _ (λ f. ground (arith, f))
            (λ f. (
              spawn-IsServing (moved_ctl c addr (retire c w)) (retire c w) refl cs
                  (retire-IsServing c w cs s),
              refl,
            )))

  pub start_listener-IsBound :
      (cs : List ListenerCtl) (addr : Bytes) (max_conns per_ip : ℕ) (tls : Bool) (w : Process)
      → IsServing cs w
      → IsBound cs addr (start_listener can_bind addr max_conns per_ip tls w)
  unfolding start_listener
  start_listener-IsBound cs addr max_conns per_ip tls w s =
      test cs addr (not (can_bind addr)) _ _ (λ f. ground (arith, f))
        (λ f. (
          spawn-IsServing (new_ctl addr tls w) _ refl cs
              (record { running = s.running; apart = s.apart; only = s.only }),
          refl,
        ))

  -- The loops that go on are those of the two controls; without a failure they are at the addresses that
  -- were asked for, and a failure is an address that cannot be bound.
  abbrev pub IsReconciled : Bytes → Option Bytes → Reconciled → Type 0
  IsReconciled https_addr want_http (none, l) =
      AreServing l × (l.https.addr ≡ https_addr) × (addr_of l.http ≡ want_http)
  IsReconciled https_addr want_http (some addr, l) = AreServing l × (can_bind addr ≡ false)

  with_http-IsReconciled :
      (https : ListenerCtl) (http : Option ListenerCtl) (addr : Bytes) (before : Process)
      (b : Bound)
      → IsServing (owners https http) before
      → IsBound (https ∷ []) addr b
      → IsReconciled https.addr (some addr) (with_http can_bind https http before b)
  with_http-IsReconciled https http addr before (bound_to c w) s b =
      (swap-IsServing c https w b.0, refl, ap some b.1)
  with_http-IsReconciled https http addr before (cannot_bind a) s b = (s, b)

  reconcile_http-IsReconciled :
      (https : ListenerCtl) (http : Option ListenerCtl) (want : Option Bytes) (per_ip : ℕ)
      (w : Process)
      → IsServing (owners https http) w
      → IsReconciled https.addr want (reconcile_http can_bind https http want per_ip w)
  unfolding reconcile_http
  reconcile_http-IsReconciled https (some c) (some addr) per_ip w s =
      with_http-IsReconciled https (some c) addr w _ s
        (rebind-IsBound c (https ∷ []) addr w (swap-IsServing https c w s))
  reconcile_http-IsReconciled https (some c) none per_ip w s =
      (retire-IsServing c w (https ∷ []) (swap-IsServing https c w s), refl, refl)
  reconcile_http-IsReconciled https none (some addr) per_ip w s =
      with_http-IsReconciled https none addr w _ s
        (start_listener-IsBound (https ∷ []) addr 256 per_ip false w s)
  reconcile_http-IsReconciled https none none per_ip w s = (s, refl, refl)

  again : (https : ListenerCtl) (http : Option ListenerCtl) → List ListenerCtl
  again https none = []
  again https (some c) = c ∷ []

  owners-again :
      (https : ListenerCtl) (http : Option ListenerCtl)
      → owners https http ≡ https ∷ again https http
  unfolding again
  owners-again https none = refl
  owners-again https (some c) = refl

  moved_https :
      (l : Listeners) (https_addr : Bytes) (want : Option Bytes) (per_ip : ℕ) (b : Bound)
      → AreServing l
      → IsBound (again l.https l.http) https_addr b
      → IsReconciled https_addr want (after_https can_bind l want per_ip b)
  moved_https l https_addr want per_ip (cannot_bind a) s b = (s, b)
  moved_https l https_addr want per_ip (bound_to c w) s b =
      subst (λ x. IsReconciled x want (reconcile_http can_bind c l.http want per_ip w)) b.1
        (reconcile_http-IsReconciled c l.http want per_ip w
          (subst (λ x. IsServing x w) (sym (kept l.http)) b.0))
    where
      kept : (o : Option ListenerCtl) → owners c o ≡ c ∷ again l.https o
      kept none = unfold again in refl
      kept (some d) = unfold again in refl

  pub reconcile-IsReconciled :
      (l : Listeners) (https_addr : Bytes) (want_http : Option Bytes) (per_ip : ℕ)
      → AreServing l
      → IsReconciled https_addr want_http (reconcile can_bind l https_addr want_http per_ip)
  unfolding reconcile
  reconcile-IsReconciled l https_addr want_http per_ip s =
      moved_https l https_addr want_http per_ip _ s (
        rebind-IsBound l.https (again l.https l.http) https_addr l.process
          (subst (λ x. IsServing x l.process) (owners-again l.https l.http) s))
