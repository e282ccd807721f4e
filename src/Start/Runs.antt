-- ===== src/Start/Runs.antt =====
-- src/main.rs, `main` and `watch`: a server from its start, through any turns of its watcher.
use bare_server.Base.{
  ◌≡◌, Bool, true, false, none, List, [], ◌∷◌, arith, if◌then◌else◌, is_nil, Bytes, subst,
}
use bare_server.Site.{Vhosts}
use bare_server.Config.{Outcome, accepted, rejected, Config}
use bare_server.Boot.{Booted, up, failed}
use bare_server.Listen.{ListenerCtl, Listeners, Bound, bound_to, cannot_bind, start_listener}
use bare_server.Listen.Live.{swap-IsServing}
use bare_server.Listen.Reconcile.{AreServing, IsBound, start_listener-IsBound}
use bare_server.Watch.{Watcher, Turn, address, watch_turn}
use bare_server.Watch.Steady.{IsSteady, watch_turn-IsSteady}
use bare_server.Start
use bare_server.Start.{
  Started, started, fatal, Startup, no_listeners, watch_start, with_http, and_http, start_listeners,
  watching, with_runtime, start_server,
}

-- The state of the watcher behind some turns.
unfoldable pub watch_turns : {Tls : Type 0} → List (Turn Tls) → Watcher Tls → Watcher Tls
watch_turns [] w = w
watch_turns (e ∷ es) w = watch_turns es (watch_turn e w)

module _ {Tls : Type 0} (e : Startup Tls) where
  abbrev Serving : Started Listeners → Type 0
  Serving (started l) = AreServing l
  Serving (fatal f) = Unit

  abbrev Steady : Started (Watcher Tls) → Type 0
  Steady (started w) = IsSteady w
  Steady (fatal f) = Unit

  with_http-Serving :
      (https : ListenerCtl) (addr : Bytes) (b : Bound)
      → IsBound e.can_bind (https ∷ []) addr b
      → Serving (with_http e https b)
  with_http-Serving https addr (bound_to http w) b = swap-IsServing http https w b.0
  with_http-Serving https addr (cannot_bind a) b = tt

  and_http-Serving :
      (cfg : Config) (addr : Bytes) (b : Bound)
      → IsBound e.can_bind [] addr b
      → Serving (and_http e cfg b)
  and_http-Serving cfg addr (cannot_bind a) b = tt
  and_http-Serving cfg addr (bound_to https w) b = chosen (is_nil cfg.http_host)
    where
      chosen :
          (x : Bool)
          → Serving (
              if x
              then started (record { https = https; http = none; process = w })
              else with_http e https (
                  start_listener e.can_bind
                    (address cfg.http_host cfg.http_port)
                    256
                    cfg.max_conns_per_ip
                    false
                    w))
      chosen true = b.0
      chosen false = with_http-Serving https (address cfg.http_host cfg.http_port) _ (
          start_listener-IsBound e.can_bind (https ∷ []) (address cfg.http_host cfg.http_port) 256
            cfg.max_conns_per_ip false w b.0)

  start_listeners-Serving : (cfg : Config) → Serving (start_listeners e cfg)
  unfolding start_listeners
  start_listeners-Serving cfg = and_http-Serving cfg (address cfg.host cfg.port) _ (
      start_listener-IsBound e.can_bind [] (address cfg.host cfg.port) 1024 cfg.max_conns_per_ip
        true no_listeners (record { running = tt; apart = tt; only = λ a i. elim i [ ] }))

  watching-Steady :
      (cfg : Config) (vhosts : Vhosts) (tls : Tls) (o : Started Listeners)
      → Serving o
      → Steady (watching e cfg vhosts tls o)
  unfolding watch_start
  watching-Steady cfg vhosts tls (fatal f) s = tt
  watching-Steady cfg vhosts tls (started l) s = record {
    waits = omega arith;
    bounded = omega arith;
    serving = s;
  }

  start_server-Steady : (o : Outcome Config) → Steady (start_server e o)
  unfolding start_server
  start_server-Steady (rejected f) = tt
  start_server-Steady (accepted cfg) = chosen _ (e.new_runtime cfg)
    where
      chosen :
          (b : Bool) (r : Booted (Vhosts × Tls))
          → Steady (if b then fatal Start.no_disk_cache else with_runtime e cfg r)
      chosen true r = tt
      chosen false (failed f) = tt
      chosen false (up r) = watching-Steady cfg r.0 r.1 _ (start_listeners-Serving cfg)

  turns-IsSteady :
      (es : List (Turn Tls)) (w : Watcher Tls) → IsSteady w → IsSteady (watch_turns es w)
  unfolding watch_turns
  turns-IsSteady [] w s = s
  turns-IsSteady (t ∷ ts) w s = turns-IsSteady ts (watch_turn t w) (watch_turn-IsSteady t w s)

  -- A server that has started, after any turns of its watcher: exactly the accept loops of its controls go
  -- on, and the wait before a retry is between the interval of the watcher and a minute, whatever the
  -- turns read and whichever calls fail.
  pub watch_turns-IsSteady :
      (o : Outcome Config) (es : List (Turn Tls)) {w : Watcher Tls}
      → start_server e o ≡ started w
      → IsSteady (watch_turns es w)
  watch_turns-IsSteady o es {w} h = turns-IsSteady es w (subst Steady h (start_server-Steady o))
