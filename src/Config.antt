-- ===== src/Config.antt =====
-- src/config.rs: the configuration (`SiteConfig`, `Config`, `Storage`), the site block still being read
-- (`PendingSite`), the variables of `parse_config`, and its errors. An error is a constructor for each
-- message; the key, the value and the host names that a message quotes are left out.
pub mod Lines
pub mod Explain
pub mod Keys
pub mod Parse
pub mod Result
pub mod Sound
pub mod Order
use bare_server.Base.{ℕ, Bool, Option, none, [], List, Bytes}
use bare_server.Redirects.{Redirects, PushError}
use bare_server.Settings.{ValueError, Tuning, HeaderConfig, default_tuning, default_headers}

pub data Storage : Type 0 where
  memory on_disk : Storage

-- The messages that are quoted with the number of a line.
pub data LineError : Type 0 where
  stray_close nested_block no_block no_host_names : LineError
  site_is_block redirect_is_block : Bytes → LineError
  redirect_outside no_arrow empty_pattern malformed_line : LineError
  bad_rule : PushError → LineError
  bad_value : ValueError → LineError
  server_only : Bytes → LineError
  unknown_setting unknown_key belongs_inside : LineError
  listen_no_colon listen_empty listen_http_no_colon listen_http_empty bad_storage : LineError
  unclosed_block missing_cert missing_key nothing_to_serve : LineError

pub data ConfigError : Type 0 where
  at : ℕ → LineError → ConfigError
  missing_listen no_site no_disk_cache : ConfigError
  cannot_read : ConfigError

pub data Outcome {ℓ} (A : Type ℓ) : Type ℓ where
  accepted : A → Outcome A
  rejected : ConfigError → Outcome A

abbrev pub then_outcome {ℓ κ} : {A : Type ℓ} {B : Type κ} → Outcome A → (A → Outcome B) → Outcome B
then_outcome (accepted a) f = f a
then_outcome (rejected e) f = rejected e

-- `o.ok_or_else(|| at(n, e))`
abbrev pub or_at {ℓ} : {A : Type ℓ} → Option A → ℕ → LineError → Outcome A
or_at none n e = rejected (at n e)
or_at (Option.some a) n e = accepted a

-- A setting of a site block, with the number of its line.
pub record Override : Type 0 where
  pub line_no : ℕ
  pub name : Bytes
  pub value : Bytes

pub record PendingSite : Type 0 where
  pub line : ℕ
  pub hosts : List Bytes
  pub root : Option Bytes
  pub cert : Option Bytes
  pub key : Option Bytes
  pub force_ssl : Bool
  pub canonical_urls : Bool
  pub redirects : Redirects
  pub overrides : List Override

-- The variables of the line loop.
pub record Reading : Type 0 where
  pub host : Bytes
  pub port : Bytes
  pub http_host : Bytes
  pub http_port : Bytes
  pub pending : List PendingSite
  pub tuning : Tuning
  pub headers : HeaderConfig
  pub max_conns_per_ip : ℕ
  pub max_response_secs : ℕ
  pub storage : Storage
  pub disk_cache : Option Bytes
  pub cur : Option PendingSite

abbrev pub initial_reading : Reading
initial_reading = record {
  host = [];
  port = [];
  http_host = [];
  http_port = [];
  pending = [];
  tuning = default_tuning;
  headers = default_headers;
  max_conns_per_ip = 64;
  max_response_secs = 0;
  storage = memory;
  disk_cache = none;
  cur = none;
}

pub record SiteConfig : Type 0 where
  pub hosts : List Bytes
  pub root : Option Bytes
  pub cert : Bytes
  pub key : Bytes
  pub force_ssl : Bool
  pub canonical_urls : Bool
  pub redirects : Redirects
  pub tuning : Tuning
  pub headers : HeaderConfig

pub record Config : Type 0 where
  pub host : Bytes
  pub port : Bytes
  pub http_host : Bytes
  pub http_port : Bytes
  pub sites : List SiteConfig
  pub headers : HeaderConfig
  pub max_conns_per_ip : ℕ
  pub max_response_secs : ℕ
  pub storage : Storage
  pub disk_cache : Option Bytes
