-- ===== src/Config/Sound.antt =====
-- src/config.rs, `parse_config`: the invariant of the variables of the line loop.
pub mod Settings
pub mod Lines
pub mod Sites
use bare_server.Base.{ℕ, ◌≤◌, ◌≡◌, false, some, is_nil, Bytes, All}
use bare_server.Redirects.{Redirects, finish}
use bare_server.Redirects.Safety.{IsClean}
use bare_server.Redirects.Order.{IsDistinct}
use bare_server.Settings.{Tuning, HeaderConfig, applied, apply_shared}
use bare_server.Settings.Headers.{IsValid}
use bare_server.Config.{
  LineError, ConfigError, at, Outcome, accepted, rejected, Override, PendingSite, Reading,
}

-- What holds of the result, and what of the error.
abbrev pub Post {ℓ} : {A : Type ℓ} → (A → Type 0) → (ConfigError → Type 0) → Outcome A → Type 0
Post P E (accepted a) = P a
Post P E (rejected e) = E e

-- The error quotes a line from the first to the given one.
abbrev pub IsWithin : ℕ → ConfigError → Type 0
IsWithin n e = (m : ℕ) × (l : LineError) × (e ≡ at m l) × (1 ≤ m) × (m ≤ n)

-- An override that has been tried: no settings refuse it.
pub record IsTried (n : ℕ) (o : Override) : Type 0 where
  pub first : 1 ≤ o.line_no
  pub last : o.line_no ≤ n
  pub shared :
      (t : Tuning) (h : HeaderConfig)
      → (t' : Tuning) × (h' : HeaderConfig) × (apply_shared t h o.name o.value ≡ applied t' h')

-- The rules of a block while it is read.
abbrev pub HasSoundRules : Redirects → Type 0
HasSoundRules r = IsClean r × IsDistinct r.prefix

-- The rules of a block that is closed.
abbrev pub HasFinishedRules : Redirects → Type 0
HasFinishedRules r = (q : Redirects) × HasSoundRules q × (r ≡ finish q)

-- A block with rules of a kind, whose lines are among the first `n`.
pub record IsBlock (Rules : Redirects → Type 0) (n : ℕ) (p : PendingSite) : Type 0 where
  pub named : is_nil p.hosts ≡ false
  pub first : 1 ≤ p.line
  pub last : p.line ≤ n
  pub rules : Rules p.redirects
  pub tried : All (IsTried n) p.overrides

pub record IsSound (n : ℕ) (s : Reading) : Type 0 where
  pub settings : IsValid s.tuning s.headers
  pub secs : s.max_response_secs ≤ 86400
  pub closed : All (IsBlock HasFinishedRules n) s.pending
  pub current : (p : PendingSite) → s.cur ≡ some p → IsBlock HasSoundRules n p
