-- ===== src/Deadline/Rate.antt =====
-- src/main.rs, `DeadlineIo`: runs of writes.
use bare_server.Base.{ℕ, suc, ◌+◌, ◌≡◌, ◌≢◌, false, Option, some, List, [], ◌∷◌, arith}
use bare_server.Deadline.{DeadlineIo, done, is_due, check, write}

-- A write at a time, with the bytes that the socket takes.
pub record Write : Type 0 where
  pub now : ℕ
  pub taken : ℕ

-- Writes that all succeed, one after another, with the number of windows they close.
pub data Writes : DeadlineIo → List Write → ℕ → DeadlineIo → Type 0 where
  none_left : {io : DeadlineIo} → Writes io [] 0 io
  in_window :
      {io io' last : DeadlineIo} {w : Write} {ws : List Write} {closed : ℕ}
      → write w.now (some w.taken) io ≡ done w.taken io'
      → io'.window ≡ io.window
      → Writes io' ws closed last
      → Writes io (w ∷ ws) closed last
  closing :
      {io io' last : DeadlineIo} {w : Write} {ws : List Write} {closed : ℕ}
      → write w.now (some w.taken) io ≡ done w.taken io'
      → io'.window ≢ io.window
      → Writes io' ws closed last
      → Writes io (w ∷ ws) (suc closed) last

abbrev pub total : List Write → ℕ
total [] = 0
total (w ∷ ws) = w.taken + total ws

-- A write that succeeds runs at a time before every deadline.
write-in_time :
    (now : ℕ) (result : Option ℕ) (io io' : DeadlineIo) (n : ℕ)
    → write now result io ≡ done n io'
    → (is_due now io.deadline ≡ false) × (is_due now io.phase ≡ false)
unfolding write check
write-in_time now result io io' n h = ground arith
