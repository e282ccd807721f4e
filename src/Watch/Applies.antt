-- ===== src/Watch/Applies.antt =====
-- src/main.rs, `watch`: the runtimes that a turn puts in place, and an edit that is seen twice.
use bare_server.Base.{◌≡◌, refl, Option, none, some, Bytes}
use bare_server.Site.{Vhosts}
use bare_server.Config.{accepted, Config}
use bare_server.Boot.{up}
use bare_server.Listen.{Reconciled}
use bare_server.Watch.{Watcher, Turn, Attempt, rebound, reconcile_pending}

module _ {Tls : Type 0} (e : Turn Tls) where
  -- The runtime is the one before, or the one that is built from the configuration file, or the sites
  -- before with the certificates of that file.
  pub data Serves (w : Watcher Tls) (vhosts : Vhosts) (tls : Tls) : Type 0 where
    same : vhosts ≡ w.vhosts → tls ≡ w.tls → Serves w vhosts tls
    built :
        (cfg : Config)
        → e.config_read ≡ accepted cfg
        → e.new_runtime cfg ≡ up (vhosts, tls)
        → Serves w vhosts tls
    renewed :
        (cfg : Config)
        → e.config_read ≡ accepted cfg
        → vhosts ≡ w.vhosts
        → e.build_tls cfg ≡ some tls
        → Serves w vhosts tls

  abbrev IsServed : Watcher Tls → Attempt Tls → Type 0
  IsServed w a = Serves w a.watcher.vhosts a.watcher.tls

  -- What reconciling and settling leave as it is.
  pub record IsKept (w v : Watcher Tls) : Type 0 where
    pub vhosts : v.vhosts ≡ w.vhosts
    pub tls : v.tls ≡ w.tls
    pub cfg_applied : v.cfg_applied ≡ w.cfg_applied
    pub backoff : v.backoff ≡ w.backoff

  all-IsKept : (w : Watcher Tls) → IsKept w w
  all-IsKept w = record { vhosts = refl; tls = refl; cfg_applied = refl; backoff = refl }

  rebound-IsKept : (a : Attempt Tls) (r : Reconciled) → IsKept a.watcher (rebound e a r).watcher
  rebound-IsKept a (none, l) = record {
    vhosts = refl;
    tls = refl;
    cfg_applied = refl;
    backoff = refl;
  }
  rebound-IsKept a (some addr, l) = record {
    vhosts = refl;
    tls = refl;
    cfg_applied = refl;
    backoff = refl;
  }

  pub reconcile_pending-IsKept :
      (a : Attempt Tls) (p : Option (Bytes × Option Bytes))
      → IsKept a.watcher (reconcile_pending e a p).watcher
  unfolding reconcile_pending
  reconcile_pending-IsKept a none = all-IsKept a.watcher
  reconcile_pending-IsKept a (some p) = rebound-IsKept a _
