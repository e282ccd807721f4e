-- ===== src/Accept.antt =====
-- src/main.rs, `spawn_accept`: a turn of an accept loop. What the waits, the accept and the spawn return, and the
-- generation that each check reads, is the environment's; logging is left out. The acts of a turn are what
-- it does to the slots of the listener and to the permits of the addresses.
pub mod Slots
use bare_server.Base.{
  ℕ, Bool, true, false, not, Option, none, some, List, [], ◌∷◌, ◌==◌, if◌then◌else◌, Bytes,
}
use bare_server.Limits.{PeerLimiter, PeerPermit, try_acquire, drop_permit}

-- One turn of the loop that waits for a slot: the generation that it reads, and whether it gets a slot.
pub record Wait : Type 0 where
  pub gen : ℕ
  pub slot : Bool

-- What `accept` returns: a socket with the address of its peer, if it can be read, or an error.
pub data Arrival : Type 0 where
  socket : Option Bytes → Arrival
  interrupted aborted broken : Arrival

-- What a turn with a slot comes to.
pub record Visit : Type 0 where
  pub accepted : Arrival
  pub gen_after : ℕ
  pub spawns : Bool

pub data AcceptAct : Type 0 where
  took_slot gave_slot paused : AcceptAct
  took_permit gave_permit served : PeerPermit → AcceptAct

-- Whether the loop returns, goes round again, or still waits for a slot.
pub data Next : Type 0 where
  retired again waiting : Next

pub record Turned : Type 0 where
  pub acts : List AcceptAct
  pub limiter : PeerLimiter
  pub next : Next

abbrev pub turned : List AcceptAct → PeerLimiter → Next → Turned
turned acts l next = record { acts = acts; limiter = l; next = next }

-- A worker that takes the two permits with it, or a spawn that fails and drops them.
unfoldable pub spawn_worker : PeerPermit → Bool → PeerLimiter → Turned
spawn_worker p true l = turned (took_slot ∷ took_permit p ∷ served p ∷ []) l again
spawn_worker p false l =
    turned (took_slot ∷ took_permit p ∷ gave_permit p ∷ gave_slot ∷ paused ∷ []) (drop_permit p l)
      again

abbrev pub with_permit : Bool → PeerLimiter × Option PeerPermit → Turned
with_permit spawns (l, none) = turned (took_slot ∷ gave_slot ∷ []) l again
with_permit spawns (l, some p) = spawn_worker p spawns l

-- The cap of the address.
unfoldable pub admit : Option Bytes → Bool → PeerLimiter → Turned
admit none spawns l = turned (took_slot ∷ gave_slot ∷ []) l again
admit (some ip) spawns l = with_permit spawns (try_acquire l ip)

-- What follows a slot; a retired loop drops it.
unfoldable pub after_accept : ℕ → Arrival → ℕ → Bool → PeerLimiter → Turned
after_accept generation a gen spawns l =
    if not (gen == generation) then turned (took_slot ∷ gave_slot ∷ []) l retired else elim a [
      | interrupted ↦ turned (took_slot ∷ gave_slot ∷ []) l again
      | aborted ↦ turned (took_slot ∷ gave_slot ∷ []) l again
      | broken ↦ turned (took_slot ∷ gave_slot ∷ paused ∷ []) l again
      | socket peer ↦ admit peer spawns l
    ]

unfoldable pub accept_turn : ℕ → List Wait → Visit → PeerLimiter → Turned
accept_turn generation [] v l = turned [] l waiting
accept_turn generation (w ∷ waits) v l =
    let later = accept_turn generation waits v l in
    if not (w.gen == generation)
    then turned [] l retired
    else if w.slot
    then after_accept generation v.accepted v.gen_after v.spawns l
    else later
