-- ===== src/Watch/Edits.antt =====
-- src/main.rs, `watch`: an edit of the configuration that two turns in a row have seen.
use bare_server.Base.{ℕ, ◌+◌, ◌≤◌, ◌≡◌, Bool, none, some, if◌then◌else◌}
use bare_server.Config.{accepted, Config}
use bare_server.Boot.{up}
use bare_server.Watch
use bare_server.Watch.{
  Failure, Watcher, Turn, watch_interval, max_backoff, Attempt, is_tls_changed, is_pending,
}

module _ {Tls : Type 0} (e : Turn Tls) where
  -- The configuration is in force, or a retry is set for a minute later at most.
  pub data Progress (v : Watcher Tls) : Type 0 where
    applied :
        (cfg : Config)
        → e.config_read ≡ accepted cfg
        → e.new_runtime cfg ≡ up (v.vhosts, v.tls)
        → v.cfg_applied ≡ e.cfg_now
        → Progress v
    scheduled : (r : ℕ) → v.retry_at ≡ some r → r ≤ e.failed_now + max_backoff → Progress v

  -- A reload that succeeded, or one that failed and waits no longer than before.
  data Reloaded (a : Attempt Tls) : Type 0 where
    built :
        (cfg : Config)
        → e.config_read ≡ accepted cfg
        → e.new_runtime cfg ≡ up (a.watcher.vhosts, a.watcher.tls)
        → a.watcher.cfg_applied ≡ e.cfg_now
        → Reloaded a
    broken : (f : Failure) → a.failure ≡ some f → a.watcher.backoff ≤ max_backoff → Reloaded a

  abbrev dropped_if : Watcher Tls → Bool → Watcher Tls
  dropped_if w b =
      if b then record w { retry_at = none; backoff = watch_interval; failed_at = none } else w
