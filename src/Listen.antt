-- ===== src/Listen.antt =====
-- src/main.rs: the life of the listeners (`ListenerCtl`, `AcceptCtx`, `retire`, `rebind`, `start_listener`), and
-- what `watch` does to reconcile them with a configuration. A shared counter, semaphore or limiter is its
-- place in a list of the process; whether an address can be bound is a parameter.
pub mod Counters
pub mod Live
pub mod Reconcile
use bare_server.Base.{
  ℕ, zero, suc, Bool, true, false, not, Option, none, some, List, [], ◌∷◌, ◌++◌, length, get_elem?,
  if◌then◌else◌, Bytes,
}
use bare_server.Text.{beq}
use bare_server.Limits.{PeerLimiter, new_limiter}

pub record ListenerCtl : Type 0 where
  pub addr : Bytes
  pub gen : ℕ
  pub sem : ℕ
  pub peer : ℕ
  pub tls : Bool

-- An accept loop, with its socket's address, its generation and what `AcceptCtx` shares with it.
pub record AcceptLoop : Type 0 where
  pub bound : Bytes
  pub generation : ℕ
  pub gen_ctr : ℕ
  pub sem : ℕ
  pub peer : ℕ
  pub tls : Bool

-- The counters, the free slots of the semaphores, the limiters, and the accept loops that were spawned.
pub record Process : Type 0 where
  pub gens : List ℕ
  pub sems : List ℕ
  pub peers : List PeerLimiter
  pub loops : List AcceptLoop

-- `fetch_add(1)` on one of the counters.
unfoldable pub bump : ℕ → List ℕ → List ℕ
bump i [] = []
bump zero (g ∷ gens) = suc g ∷ gens
bump (suc i) (g ∷ gens) = g ∷ bump i gens

-- The connection that `retire` opens only wakes the accept loop.
unfoldable pub retire : ListenerCtl → Process → Process
retire ctl w = record w { gens = bump ctl.gen w.gens }

unfoldable pub spawn_accept : AcceptLoop → Process → Process
spawn_accept a w = record w { loops = w.loops ++ (a ∷ []) }

-- `Arc::new(AtomicUsize::new(0))`, whose place is the length of the list before.
unfoldable pub new_counter : Process → Process
new_counter w = record w { gens = w.gens ++ (0 ∷ []) }

-- The accept loop of a control, at its first generation.
abbrev pub loop_of : ListenerCtl → AcceptLoop
loop_of ctl = record {
  bound = ctl.addr;
  generation = 0;
  gen_ctr = ctl.gen;
  sem = ctl.sem;
  peer = ctl.peer;
  tls = ctl.tls;
}

-- The control and the process behind an operation, or the address that could not be bound.
pub data Bound : Type 0 where
  bound_to : ListenerCtl → Process → Bound
  cannot_bind : Bytes → Bound

-- The control of a listener that moves to another address.
abbrev pub moved_ctl : ListenerCtl → Bytes → Process → ListenerCtl
moved_ctl ctl new_addr w = record ctl { addr = new_addr; gen = length w.gens }

-- A new control, whose counter, semaphore and limiter are the next of the process.
abbrev pub new_ctl : Bytes → Bool → Process → ListenerCtl
new_ctl addr tls w = record {
  addr = addr;
  gen = length w.gens;
  sem = length w.sems;
  peer = length w.peers;
  tls = tls;
}

-- The two controls of the watcher, and the process.
pub record Listeners : Type 0 where
  pub https : ListenerCtl
  pub http : Option ListenerCtl
  pub process : Process

-- The address of a failure, and the listeners behind it.
abbrev pub Reconciled : Type 0
Reconciled = Option Bytes × Listeners

module _ (can_bind : Bytes → Bool) where
  unfoldable pub rebind : ListenerCtl → Bytes → Process → Bound
  rebind ctl new_addr w =
      if beq ctl.addr new_addr
      then bound_to ctl w
      else if not (can_bind new_addr)
      then cannot_bind new_addr
      else let after = retire ctl w in
        let ctl' = moved_ctl ctl new_addr after in
        bound_to ctl' (spawn_accept (loop_of ctl') (new_counter after))

  unfoldable pub start_listener : Bytes → ℕ → ℕ → Bool → Process → Bound
  start_listener addr max_conns max_conns_per_ip tls w =
      if not (can_bind addr)
      then cannot_bind addr
      else let ctl = new_ctl addr tls w in
        let made = record w {
          sems = w.sems ++ (max_conns ∷ []);
          peers = w.peers ++ (new_limiter max_conns_per_ip ∷ []);
        } in
        bound_to ctl (spawn_accept (loop_of ctl) (new_counter made))

  abbrev with_http : ListenerCtl → Option ListenerCtl → Process → Bound → Reconciled
  with_http https http before (bound_to ctl w) =
      (none, record { https = https; http = some ctl; process = w })
  with_http https http before (cannot_bind addr) =
      (some addr, record { https = https; http = http; process = before })

  -- The `match` on the HTTP listener that is there and the one that is wanted. The cap of a new one is
  -- MAX_CONNS_HTTP.
  unfoldable pub reconcile_http :
      ListenerCtl → Option ListenerCtl → Option Bytes → ℕ → Process → Reconciled
  reconcile_http https (some ctl) (some addr) per_ip w =
      with_http https (some ctl) w (rebind ctl addr w)
  reconcile_http https (some ctl) none per_ip w =
      (none, record { https = https; http = none; process = retire ctl w })
  reconcile_http https none (some addr) per_ip w =
      with_http https none w (start_listener addr 256 per_ip false w)
  reconcile_http https none none per_ip w =
      (none, record { https = https; http = none; process = w })

  abbrev after_https : Listeners → Option Bytes → ℕ → Bound → Reconciled
  after_https l want_http per_ip (bound_to https w) = reconcile_http https l.http want_http per_ip w
  after_https l want_http per_ip (cannot_bind addr) = (some addr, l)

  -- The part of `watch` for pending addresses: HTTP is left alone until HTTPS is settled.
  unfoldable pub reconcile : Listeners → Bytes → Option Bytes → ℕ → Reconciled
  reconcile l https_addr want_http per_ip =
      after_https l want_http per_ip (rebind l.https https_addr l.process)
