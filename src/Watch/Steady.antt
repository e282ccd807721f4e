-- ===== src/Watch/Steady.antt =====
-- src/main.rs, `watch`: what every turn of the watcher keeps, and the runtimes that it puts in place.
use bare_server.Base.{
  ℕ, ◌≤◌, Bool, true, false, ◌&&◌, ◌||◌, Option, none, some, arith, if◌then◌else◌, Bytes,
}
use bare_server.Site.{Vhosts}
use bare_server.Config.{Outcome, accepted, rejected, Config}
use bare_server.Boot.{Booted, up, failed}
use bare_server.Listen.{Listeners, Reconciled}
use bare_server.Listen.Reconcile.{AreServing, IsReconciled, reconcile-IsReconciled}
use bare_server.Watch.{
  Failure, Watcher, Turn, watch_interval, max_backoff, is_other_failure, is_retry_due, set_limits,
  Attempt, rebuilt, reload_config, new_certificates, reload_tls, rebound, reconcile_pending,
  settled, drop_failure, is_cfg_changed, is_tls_changed, reload, is_pending, try_reload, watch_turn,
}

-- The wait before a retry is in its bounds, and the accept loops that go on are those of the controls.
pub record IsSteady {Tls : Type 0} (w : Watcher Tls) : Type 0 where
  pub waits : watch_interval ≤ w.backoff
  pub bounded : w.backoff ≤ max_backoff
  pub serving : AreServing w.listeners

limits-serving : (max : ℕ) (l : Listeners) → AreServing l → AreServing (set_limits max l)
unfolding set_limits
limits-serving max l s = record { running = s.running; apart = s.apart; only = s.only }

module _ {Tls : Type 0} (e : Turn Tls) where
  abbrev Steady : Attempt Tls → Type 0
  Steady a = IsSteady a.watcher

  test : (b : Bool) (x y : Attempt Tls) → Steady x → Steady y → Steady (if b then x else y)
  test true x y h k = h
  test false x y h k = k

  reload_config-Steady :
      (w : Watcher Tls) (o : Outcome Config) → IsSteady w → Steady (reload_config e w o)
  unfolding reload_config
  reload_config-Steady w (rejected f) s = s
  reload_config-Steady w (accepted cfg) s = built (e.new_runtime cfg)
    where
      built : (b : Booted (Vhosts × Tls)) → Steady (rebuilt e cfg w b)
      built (failed f) = s
      built (up r) = record {
        waits = s.waits;
        bounded = s.bounded;
        serving = limits-serving cfg.max_conns_per_ip w.listeners s.serving;
      }

  reload_tls-Steady :
      (w : Watcher Tls) (o : Outcome Config) → IsSteady w → Steady (reload_tls e w o)
  unfolding reload_tls
  reload_tls-Steady w (rejected f) s = s
  reload_tls-Steady w (accepted cfg) s = made (e.build_tls cfg)
    where
      made : (o : Option Tls) → Steady (new_certificates e w o)
      made none = s
      made (some tls) = record { waits = s.waits; bounded = s.bounded; serving = s.serving }

  reload-Steady : (w : Watcher Tls) → IsSteady w → Steady (reload e w)
  unfolding reload
  reload-Steady w s =
      test (is_cfg_changed e w) _ _ (reload_config-Steady w e.config_read s)
        (test (is_tls_changed e w) _ _ (reload_tls-Steady w e.config_read s) s)

  rebound-Steady :
      (a : Attempt Tls) (https_addr : Bytes) (want : Option Bytes) (r : Reconciled)
      → Steady a
      → IsReconciled e.can_bind https_addr want r
      → Steady (rebound e a r)
  rebound-Steady a https_addr want (none, l) s i = record {
    waits = s.waits;
    bounded = s.bounded;
    serving = i.0;
  }
  rebound-Steady a https_addr want (some addr, l) s i = record {
    waits = s.waits;
    bounded = s.bounded;
    serving = i.0;
  }

  reconcile_pending-Steady :
      (a : Attempt Tls) (p : Option (Bytes × Option Bytes))
      → Steady a
      → Steady (reconcile_pending e a p)
  unfolding reconcile_pending
  reconcile_pending-Steady a none s = s
  reconcile_pending-Steady a (some (https_addr, want)) s = rebound-Steady a https_addr want _ s (
      reconcile-IsReconciled e.can_bind a.watcher.listeners https_addr want
        a.watcher.max_conns_per_ip s.serving)

  settled-Steady : (a : Attempt Tls) (f : Option Failure) → Steady a → Steady (settled e a f)
  settled-Steady a none s = record {
    waits = omega arith;
    bounded = omega arith;
    serving = s.serving;
  }
  settled-Steady a (some f) s = record {
    waits = omega (arith, s.waits, s.bounded);
    bounded = omega arith;
    serving = s.serving;
  }

  pub drop_failure-IsSteady : (w : Watcher Tls) → IsSteady w → IsSteady (drop_failure e w)
  unfolding drop_failure
  drop_failure-IsSteady w s = dropped (is_other_failure w.failed_at e.cfg_now e.tls_now)
    where
      dropped :
          (b : Bool)
          → IsSteady (
              if b
              then record w { retry_at = none; backoff = watch_interval; failed_at = none }
              else w)
      dropped true = record { waits = omega arith; bounded = omega arith; serving = s.serving }
      dropped false = s

  -- A turn keeps the wait before a retry between the interval of the watcher and a minute, and exactly the
  -- accept loops of its controls going, whatever it reads and whichever of its calls fail.
  pub watch_turn-IsSteady : (w : Watcher Tls) → IsSteady w → IsSteady (watch_turn e w)
  unfolding watch_turn try_reload
  watch_turn-IsSteady w s =
      let v = drop_failure e w in
      let k : IsSteady v = drop_failure-IsSteady w s in
      let a = reload e v in
      let b = reconcile_pending e a a.watcher.pending in
      let i =
        test
          (is_retry_due v.retry_at e.now
            && (is_cfg_changed e v || is_tls_changed e v || is_pending e v.pending))
          _ _
          (settled-Steady b b.failure
            (reconcile_pending-Steady a a.watcher.pending (reload-Steady v k)))
          k in
      record { waits = i.waits; bounded = i.bounded; serving = i.serving }
