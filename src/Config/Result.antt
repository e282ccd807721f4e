-- ===== src/Config/Result.antt =====
-- src/config.rs, `parse_config` and `load_config`: the checks behind the line loop, and the sites resolved
-- against the finished defaults.
use bare_server.Base.{
  is_nil, ℕ, Bool, true, false, ◌&&◌, ◌||◌, Option, none, some, List, [], ◌∷◌, if◌then◌else◌, Bytes,
}
use bare_server.Text.{lines}
use bare_server.Redirects.{redirects_is_empty}
use bare_server.Settings.{Tuning, HeaderConfig, Applied, applied, unowned, failed, apply_shared}
use bare_server.Config.{
  Storage, memory, on_disk, unclosed_block, missing_cert, missing_key, nothing_to_serve, bad_value,
  at, missing_listen, no_site, no_disk_cache, cannot_read, Outcome, accepted, rejected,
  then_outcome, or_at, Override, PendingSite, Reading, initial_reading, SiteConfig, Config,
}
use bare_server.Config.Parse.{parse_lines}

abbrev pub Settled : Type 0
Settled = Tuning × HeaderConfig

-- What an override makes of the settings; `Ok(false)` leaves them as they are.
abbrev pub override_result : ℕ → Tuning → HeaderConfig → Applied → Outcome Settled
override_result n t h (applied t' h') = accepted (t', h')
override_result n t h unowned = accepted (t, h)
override_result n t h (failed e) = rejected (at n (bad_value e))

unfoldable pub apply_overrides : List Override → Tuning → HeaderConfig → Outcome Settled
apply_overrides [] t h = accepted (t, h)
apply_overrides (o ∷ os) t h =
    then_outcome (override_result o.line_no t h (apply_shared t h o.name o.value))
      (λ r. apply_overrides os r.0 r.1)

abbrev pub is_none : Option Bytes → Bool
is_none none = true
is_none (some a) = false

abbrev pub settled_site : PendingSite → Bytes → Bytes → Settled → SiteConfig
settled_site p c k r = record {
  hosts = p.hosts;
  root = p.root;
  cert = c;
  key = k;
  force_ssl = p.force_ssl;
  canonical_urls = p.canonical_urls;
  redirects = p.redirects;
  tuning = r.0;
  headers = r.1;
}

abbrev pub keyed_site : PendingSite → Tuning → HeaderConfig → Bytes → Bytes → Outcome SiteConfig
keyed_site p t h c k =
    if is_none p.root && redirects_is_empty p.redirects
    then rejected (at p.line nothing_to_serve)
    else then_outcome (apply_overrides p.overrides t h) (λ r. accepted (settled_site p c k r))

-- One turn of the loop over the pending sites.
unfoldable pub resolve_site : Tuning → HeaderConfig → PendingSite → Outcome SiteConfig
resolve_site t h p =
    then_outcome (or_at p.cert p.line missing_cert)
      (λ c. then_outcome (or_at p.key p.line missing_key) (λ k. keyed_site p t h c k))

unfoldable pub resolve_sites : Tuning → HeaderConfig → List PendingSite → Outcome (List SiteConfig)
resolve_sites t h [] = accepted []
resolve_sites t h (p ∷ ps) =
    then_outcome (resolve_site t h p)
      (λ site. then_outcome (resolve_sites t h ps) (λ sites. accepted (site ∷ sites)))

abbrev pub is_on_disk : Storage → Bool
is_on_disk memory = false
is_on_disk on_disk = true

abbrev pub or_empty : Option Bytes → Bytes
or_empty none = []
or_empty (some a) = a

abbrev pub new_config : Reading → List SiteConfig → Config
new_config s sites = record {
  host = s.host;
  port = s.port;
  http_host = s.http_host;
  http_port = s.http_port;
  sites = sites;
  headers = s.headers;
  max_conns_per_ip = s.max_conns_per_ip;
  max_response_secs = s.max_response_secs;
  storage = s.storage;
  disk_cache = s.disk_cache;
}

abbrev pub checked_file : Reading → Outcome Config
checked_file s =
    if is_nil s.host || is_nil s.port
    then rejected missing_listen
    else if is_nil s.pending
    then rejected no_site
    else if is_on_disk s.storage && is_nil (or_empty s.disk_cache)
    then rejected no_disk_cache
    else then_outcome (resolve_sites s.tuning s.headers s.pending)
        (λ sites. accepted (new_config s sites))

abbrev pub closed_file : Reading → Option PendingSite → Outcome Config
closed_file s (some p) = rejected (at p.line unclosed_block)
closed_file s none = checked_file s

-- What follows the line loop.
unfoldable pub finish_config : Reading → Outcome Config
finish_config s = closed_file s s.cur

unfoldable pub parse_config : Bytes → Outcome Config
parse_config text = then_outcome (parse_lines 1 (lines text) initial_reading) (λ s. finish_config s)

-- The text of the file is a parameter: `none` for a file that cannot be read.
unfoldable pub load_config : Option Bytes → Outcome Config
load_config none = rejected cannot_read
load_config (some text) = parse_config text
