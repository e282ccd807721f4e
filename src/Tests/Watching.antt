-- ===== src/Tests/Watching.antt =====
-- src/main.rs: turns of the watcher, and listeners that move.
use bare_server.Base.{ℕ, ◌≡◌, refl, Bool, true, false, not, none, some, List, [], ◌∷◌, Bytes, codes}
use bare_server.Text.{beq, get, insert, starts_with, strip_prefix, is_some}
use bare_server.Limits.{new_limiter, try_acquire}
use bare_server.Limits.Peers
use bare_server.Accept.{Wait, socket, Visit, accept_turn, after_accept, admit, spawn_worker}
use bare_server.Accept.Slots.{workers, IsSettled, accept_turn-IsSettled}
use bare_server.Response.{new_error_pages}
use bare_server.Site.{Vhosts}
use bare_server.Config.{Config, at, unknown_key, accepted, rejected, memory}
use bare_server.Boot.{up}
use bare_server.Listen.{
  ListenerCtl, Process, Listeners, loop_of, spawn_accept, new_counter, Reconciled, reconcile,
  rebind, reconcile_http, start_listener,
}
use bare_server.Watch.{
  Watcher, Turn, drop_failure, is_cfg_changed, reload, reload_config, reconcile_pending, try_reload,
  watch_turn,
}
use bare_server.Watch.Steady.{IsSteady}
use bare_server.Settings.{default_headers}
use bare_server.Start.{
  Startup, Started, started, fatal, start_listeners, start_server, read_args, refuse, usage,
}
use bare_server.Start.Runs.{watch_turns, watch_turns-IsSteady}

abbrev https : ListenerCtl
https = record { addr = codes "[::]:443"; gen = 0; sem = 0; peer = 0; tls = true }

-- The process before its first listener.
abbrev before : Process
before = record { gens = []; sems = 1024 ∷ []; peers = new_limiter 64 ∷ []; loops = [] }

abbrev listeners : Listeners
listeners = record {
  https = https;
  http = none;
  process = spawn_accept (loop_of https) (new_counter before);
}

-- Every address but one can be bound.
abbrev can_bind : Bytes → Bool
can_bind addr = not (beq addr (codes "[::]:81"))

abbrev asked : Reconciled
asked = reconcile can_bind listeners (codes "[::]:444") (some (codes "[::]:81")) 64

-- HTTPS moves, and HTTP fails.
asked_fails : asked.0 ≡ some (codes "[::]:81")
unfolding reconcile rebind reconcile_http start_listener beq
asked_fails = refl

abbrev empty_vhosts : Vhosts
empty_vhosts = record {
  sites = [];
  https_port = codes "443";
  http_port = [];
  errors = new_error_pages [];
}

-- The certificates of the tests are numbers.
abbrev watcher : Watcher ℕ
watcher = record {
  cfg_applied = 1;
  cfg_last = 2;
  tls_applied = 5;
  tls_last = 5;
  tls_files = [];
  links_applied = [];
  links_last = some [];
  tree_applied = [];
  tree_last = [];
  pending = none;
  retry_at = none;
  backoff = 2;
  failed_at = none;
  max_conns_per_ip = 64;
  response_secs = 0;
  listeners = listeners;
  vhosts = empty_vhosts;
  tls = 7;
}

-- A turn that sees the second signature again, and a file that does not parse.
abbrev broken : Turn ℕ
broken = record {
  cfg_now = 2;
  tls_now = 5;
  links_now = none;
  now = 10;
  failed_now = 11;
  config_read = rejected (at 3 unknown_key);
  sample = λ cfg. record { config = 2; tls_files = []; tls = 5; trees = []; links = [] };
  new_runtime = λ cfg. up (empty_vhosts, 8);
  build_tls = λ cfg. none;
  tls_signature = λ files. 5;
  tree_signature = λ root. 0;
  can_bind = can_bind;
}

-- The retry is due two seconds after the failure, and the next one would be after four.
broken_waits :
    ((watch_turn broken watcher).retry_at ≡ some 13) × ((watch_turn broken watcher).backoff ≡ 4)
unfolding watch_turn try_reload drop_failure is_cfg_changed reload reload_config reconcile_pending
broken_waits = (refl, refl)

abbrev world : Startup ℕ
world = record {
  can_create = λ path. true;
  sample = broken.sample;
  new_runtime = λ cfg. up (empty_vhosts, 7);
  can_bind = can_bind;
  cfg_now = 1;
  links_now = some [];
  tls_signature = λ files. 5;
  tree_signature = λ root. 0;
}

-- A configuration with both listeners; its sites are in the runtime.
abbrev config : Config
config = record {
  host = codes "[::]";
  port = codes "443";
  http_host = codes "[::]";
  http_port = codes "80";
  sites = [];
  headers = default_headers;
  max_conns_per_ip = 64;
  max_response_secs = 0;
  storage = memory;
  disk_cache = none;
}

abbrev watcher_or : Started (Watcher ℕ) → Watcher ℕ
watcher_or (started w) = w
watcher_or (fatal f) = watcher

abbrev first : Watcher ℕ
first = watcher_or (start_server world (accepted config))

starts : start_server world (accepted config) ≡ started first
unfolding start_server start_listeners start_listener beq
starts = refl

watch_turns-IsSteady_example : IsSteady (watch_turns (broken ∷ broken ∷ []) first)
watch_turns-IsSteady_example =
    watch_turns-IsSteady world (accepted config) (broken ∷ broken ∷ []) starts

-- Two paths are one too many.
two_paths : read_args (codes "-q" ∷ codes "a" ∷ codes "b" ∷ []) false none ≡ refuse usage
unfolding read_args beq starts_with strip_prefix is_some
two_paths = refl

abbrev accepts : Visit
accepts = record { accepted = socket (some (codes "::1")); gen_after = 0; spawns = true }

abbrev two_waits : List Wait
two_waits = record { gen = 0; slot = false } ∷ record { gen = 0; slot = true } ∷ []

-- A worker has the slot.
accepted_once :
    workers (accept_turn 0 two_waits accepts (new_limiter 2)).acts
    ≡ record { ip = codes "::1"; counted = true } ∷ []
unfolding accept_turn after_accept admit spawn_worker try_acquire get insert
accepted_once = refl

accept_turn-IsSettled_example :
    IsSettled 2 (new_limiter 2) [] Peers.start 0 0 (accept_turn 0 two_waits accepts (new_limiter 2))
accept_turn-IsSettled_example =
    accept_turn-IsSettled 2 (new_limiter 2) [] Peers.start 0 two_waits accepts
