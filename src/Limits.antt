-- ===== src/Limits.antt =====
-- src/main.rs: the limits on connections (`Semaphore`, `PeerLimiter`). An operation runs under the lock of
-- its state, so that it is one step; an address is a text.
pub mod Peers
pub mod Reachable
use bare_server.Base.{
  ℕ, zero, suc, ◌+◌, ◌-◌, ◌≡◌, Bool, true, false, Option, none, some, List, [], ◌∷◌, ◌++◌, arith,
  ◌==◌, ltb, leb, if◌then◌else◌, Bytes,
}
use bare_server.Text.{beq, Table, get, insert}

-- One turn of the loop of `acquire_timeout`: the time that is left, and the count behind the wait.
pub record Wake : Type 0 where
  pub left : ℕ
  pub count : ℕ

-- `Semaphore::acquire_timeout`: the count that a permit leaves, or nothing. `count` is the count at hand;
-- a run of the loop that the list does not cover gives up.
unfoldable pub acquire_timeout : ℕ → List Wake → Option ℕ
acquire_timeout (suc count) wakes = some count
acquire_timeout zero [] = none
acquire_timeout zero (w ∷ wakes) =
    let later = acquire_timeout w.count wakes in if w.left == 0 then none else later

-- `Drop for Permit`
unfoldable pub release : ℕ → ℕ
release count = count + 1

pub record PeerLimiter : Type 0 where
  pub max : ℕ
  pub counts : Table ℕ

pub record PeerPermit : Type 0 where
  pub ip : Bytes
  pub counted : Bool

-- `PeerLimiter::new`
abbrev pub new_limiter : ℕ → PeerLimiter
new_limiter max = record { max = max; counts = [] }

unfoldable pub set_max : ℕ → PeerLimiter → PeerLimiter
set_max max l = record l { max = max }

abbrev pub or_zero : Option ℕ → ℕ
or_zero none = 0
or_zero (some n) = n

-- `PeerLimiter::try_acquire`
unfoldable pub try_acquire : PeerLimiter → Bytes → PeerLimiter × Option PeerPermit
try_acquire l ip =
    let n = or_zero (get ip l.counts) in
    if l.max == 0
    then (l, some (record { ip = ip; counted = false }))
    else if leb l.max n
    then (record l { counts = insert ip n l.counts }, none)
    else (
      record l { counts = insert ip (n + 1) l.counts },
      some (record { ip = ip; counted = true }),
    )

-- `HashMap::remove`
unfoldable pub remove {ℓ} : {V : Type ℓ} → Bytes → Table V → Table V
remove k [] = []
remove k ((j, v) ∷ m) = let rest = remove k m in if beq j k then rest else (j, v) ∷ rest

abbrev pub lowered : Bytes → Option ℕ → Table ℕ → Table ℕ
lowered ip none counts = counts
lowered ip (some n) counts =
    if n - 1 == 0 then remove ip (insert ip (n - 1) counts) else insert ip (n - 1) counts

-- `Drop for PeerPermit`
unfoldable pub drop_permit : PeerPermit → PeerLimiter → PeerLimiter
drop_permit p l =
    if p.counted then record l { counts = lowered p.ip (get p.ip l.counts) l.counts } else l
