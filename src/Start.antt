-- ===== src/Start.antt =====
-- src/main.rs: the start of the server (`main`, and the variables that `watch` begins with). What is printed is left
-- out; a fatal message is a constructor.
pub mod Runs
use bare_server.Base.{
  is_nil, ℕ, Bool, true, false, ◌&&◌, ◌||◌, not, Option, none, some, List, [], ◌∷◌, if◌then◌else◌,
  Bytes, codes,
}
use bare_server.Text.{beq, starts_with, Table, get, insert}
use bare_server.Site.{Site, Vhosts}
use bare_server.Config.{memory, on_disk, Storage, Outcome, accepted, rejected, ConfigError, Config}
use bare_server.Config.Result.{or_empty}
use bare_server.Boot.{BootError, Booted, up, failed}
use bare_server.Listen.{
  ListenerCtl, Process, Listeners, Bound, bound_to, cannot_bind, start_listener,
}
use bare_server.Watch.{Links, Sampled, Watcher, watch_interval, site_key, seed_last, address}

pub data Fatal : Type 0 where
  unknown_option usage : Fatal
  no_config : ConfigError → Fatal
  no_disk_cache : Fatal
  no_runtime : BootError → Fatal
  no_listener : Bytes → Fatal

-- What the command line asks for.
pub data Command : Type 0 where
  print_version print_help : Command
  refuse : Fatal → Command
  serve : Bool → Bytes → Command

abbrev path_or_usage : Bool → Option Bytes → Command
path_or_usage quiet none = refuse usage
path_or_usage quiet (some path) = serve quiet path

abbrev is_given : Option Bytes → Bool
is_given none = false
is_given (some path) = true

-- The loop over the arguments.
unfoldable pub read_args : List Bytes → Bool → Option Bytes → Command
read_args [] quiet config_path = path_or_usage quiet config_path
read_args (arg ∷ args) quiet config_path =
    let silent = read_args args true config_path in
    let rest = read_args args quiet (some arg) in
    if beq arg (codes "--version") || beq arg (codes "-V")
    then print_version
    else if beq arg (codes "--help") || beq arg (codes "-h")
    then print_help
    else if beq arg (codes "--quiet") || beq arg (codes "-q")
    then silent
    else if starts_with (codes "-") arg
    then refuse unknown_option
    else if is_given config_path
    then refuse usage
    else rest

pub data Started {ℓ} (A : Type ℓ) : Type ℓ where
  started : A → Started A
  fatal : Fatal → Started A

-- What the calls of `main` return, and what `watch` reads before its loop.
pub record Startup (Tls : Type 0) : Type 0 where
  pub can_create : Bytes → Bool
  pub sample : Config → Sampled
  pub new_runtime : Config → Booted (Vhosts × Tls)
  pub can_bind : Bytes → Bool
  pub cfg_now : ℕ
  pub links_now : Option Links
  pub tls_signature : List Bytes → ℕ
  pub tree_signature : Bytes → ℕ

-- The trees of the sample, under the keys of the sites.
unfoldable pub boot_applied : Table Site → Table ℕ → Table ℕ → Table ℕ
boot_applied [] trees applied = applied
boot_applied ((host, site) ∷ sites) trees applied = elim site.root [
  | none ↦ boot_applied sites trees applied
  | some root ↦ elim (get root trees) [
    | none ↦ boot_applied sites trees applied
    | some sig ↦ boot_applied sites trees (insert (site_key host root) sig applied)
  ]
]

-- The process before its first listener.
abbrev pub no_listeners : Process
no_listeners = record { gens = []; sems = []; peers = []; loops = [] }

module _ {Tls : Type 0} (e : Startup Tls) where
  -- The variables of `watch`, with the sample that was taken before the build.
  unfoldable pub watch_start : Config → Vhosts → Tls → Listeners → Watcher Tls
  watch_start cfg vhosts tls l =
      let boot = e.sample cfg in
      record {
        cfg_applied = boot.config;
        cfg_last = e.cfg_now;
        tls_applied = boot.tls;
        tls_last = e.tls_signature boot.tls_files;
        tls_files = boot.tls_files;
        links_applied = boot.links;
        links_last = e.links_now;
        tree_applied = boot_applied vhosts.sites boot.trees [];
        tree_last = seed_last vhosts.sites e.tree_signature [];
        pending = none;
        retry_at = none;
        backoff = watch_interval;
        failed_at = none;
        max_conns_per_ip = cfg.max_conns_per_ip;
        response_secs = cfg.max_response_secs;
        listeners = l;
        vhosts = vhosts;
        tls = tls;
      }

  abbrev pub with_http : ListenerCtl → Bound → Started Listeners
  with_http https (bound_to http w) =
      started (record { https = https; http = some http; process = w })
  with_http https (cannot_bind addr) = fatal (no_listener addr)

  abbrev pub and_http : Config → Bound → Started Listeners
  and_http cfg (cannot_bind addr) = fatal (no_listener addr)
  and_http cfg (bound_to https w) =
      if is_nil cfg.http_host
      then started (record { https = https; http = none; process = w })
      else with_http https (
          start_listener e.can_bind (address cfg.http_host cfg.http_port) 256 cfg.max_conns_per_ip
            false w)

  -- The two listeners, with the caps MAX_CONNS and MAX_CONNS_HTTP.
  unfoldable pub start_listeners : Config → Started Listeners
  start_listeners cfg = and_http cfg (
      start_listener e.can_bind (address cfg.host cfg.port) 1024 cfg.max_conns_per_ip true
        no_listeners)

  abbrev pub watching : Config → Vhosts → Tls → Started Listeners → Started (Watcher Tls)
  watching cfg vhosts tls (fatal f) = fatal f
  watching cfg vhosts tls (started l) = started (watch_start cfg vhosts tls l)

  abbrev pub with_runtime : Config → Booted (Vhosts × Tls) → Started (Watcher Tls)
  with_runtime cfg (failed f) = fatal (no_runtime f)
  with_runtime cfg (up (vhosts, tls)) = watching cfg vhosts tls (start_listeners cfg)

  abbrev needs_dir : Storage → Bool
  needs_dir memory = false
  needs_dir on_disk = true

  -- `main` behind the command line, up to the loop of `watch`.
  unfoldable pub start_server : Outcome Config → Started (Watcher Tls)
  start_server (rejected f) = fatal (no_config f)
  start_server (accepted cfg) =
      if needs_dir cfg.storage && not (e.can_create (or_empty cfg.disk_cache))
      then fatal no_disk_cache
      else with_runtime cfg (e.new_runtime cfg)
