-- ===== src/Deadline.antt =====
-- src/main.rs: the socket that fails when a connection makes no progress (`Phase`, `DeadlineIo`). The clock
-- and the socket are arguments: the time of a check, what the socket's call returns (`none` for an error)
-- and the time behind it. Times are seconds.
pub mod Rate
use bare_server.Base.{
  ℕ, ◌+◌, ◌-◌, min, Bool, true, false, ◌&&◌, ◌||◌, Option, none, some, List, [], ◌∷◌, arith, ◌==◌,
  leb, ltb, if◌then◌else◌,
}

abbrev pub progress_timeout_secs : ℕ
progress_timeout_secs = 30

abbrev pub min_progress_bytes : ℕ
min_progress_bytes = 1024

abbrev pub max_usize : ℕ
max_usize = 18446744073709551615

-- `Phase`: the deadline of the head that is being read.
abbrev pub Phase : Type 0
Phase = Option ℕ

-- `Phase::arm` and `Phase::disarm`
abbrev pub arm : ℕ → Phase
arm at_time = some at_time

abbrev pub disarm : Phase
disarm = none

pub record DeadlineIo : Type 0 where
  pub idle : ℕ
  pub window : ℕ
  pub moved : ℕ
  pub deadline : Option ℕ
  pub phase : Phase

abbrev deadline_of : ℕ → Option ℕ → Option ℕ
deadline_of now none = none
deadline_of now (some d) = some (now + d)

-- `DeadlineIo::new`
unfoldable pub new_io : ℕ → Option ℕ → Phase → DeadlineIo
new_io now max_transfer phase = record {
  idle = progress_timeout_secs;
  window = now;
  moved = 0;
  deadline = deadline_of now max_transfer;
  phase = phase;
}

pub data IoError : Type 0 where
  transfer_deadline head_deadline below_rate socket_error : IoError

-- A call that returns, with the state behind it.
pub data Done {ℓ} (A : Type ℓ) : Type ℓ where
  done : A → DeadlineIo → Done A
  failed : IoError → DeadlineIo → Done A

abbrev pub is_due : ℕ → Option ℕ → Bool
is_due now none = false
is_due now (some dl) = leb dl now

-- `DeadlineIo::check`
unfoldable pub check : ℕ → DeadlineIo → Option IoError
check now io =
    if is_due now io.deadline
    then some transfer_deadline
    else if is_due now io.phase
    then some head_deadline
    else none

-- `DeadlineIo::check_rate`
unfoldable pub check_rate : ℕ → DeadlineIo → Done (Unit {0})
check_rate now io =
    if leb io.idle (now - io.window)
    then if ltb io.moved min_progress_bytes
      then failed below_rate io
      else done tt (record io { window = now; moved = 0 })
    else done tt io

abbrev received : ℕ → DeadlineIo → Option ℕ → Done ℕ
received after io none = failed socket_error io
received after io (some n) =
    done n (if ltb 0 n then record io { window = after; moved = 0 } else io)

-- `Read::read`
unfoldable pub read : ℕ → ℕ → Option ℕ → DeadlineIo → Done ℕ
read now after result io = elim (check now io) [
  | some e ↦ failed e io
  | none ↦ received after io result
]

abbrev pub written : Option ℕ → Done (Unit {0}) → Done ℕ
written result (failed e io) = failed e io
written none (done t io) = failed socket_error io
written (some n) (done t io) = done n (record io { moved = min (io.moved + n) max_usize })

-- `Write::write`
unfoldable pub write : ℕ → Option ℕ → DeadlineIo → Done ℕ
write now result io = elim (check now io) [
  | some e ↦ failed e io
  | none ↦ written result (check_rate now io)
]

abbrev flushed : Option (Unit {0}) → Done (Unit {0}) → Done (Unit {0})
flushed result (failed e io) = failed e io
flushed none (done t io) = failed socket_error io
flushed (some t) (done u io) = done tt io

-- `Write::flush`
unfoldable pub flush : ℕ → Option (Unit {0}) → DeadlineIo → Done (Unit {0})
flush now result io = elim (check now io) [
  | some e ↦ failed e io
  | none ↦ flushed result (check_rate now io)
]
