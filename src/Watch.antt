-- ===== src/Watch.antt =====
-- src/main.rs, `watch`: the watcher of the configuration, the certificates and the document roots, a turn of
-- its loop up to the scan of the contents. What a turn reads and what the calls return is the
-- environment's; a signature is a number. The last message is only logged, and left out.
pub mod Steady
pub mod Applies
pub mod Edits
pub mod Signature
pub mod Contents
use bare_server.Base.{
  is_nil, ℕ, zero, suc, ◌+◌, ◌*◌, ◌≤◌, min, Bool, true, false, ◌&&◌, ◌||◌, not, Option, none, some,
  List, [], ◌∷◌, ◌++◌, ◌==◌, leb, if◌then◌else◌, Bytes, codes,
}
use bare_server.Text.{beq, Table, get, insert}
use bare_server.Site.{Site, Vhosts}
use bare_server.Limits.{PeerLimiter, set_max}
use bare_server.Config.{ConfigError, Outcome, accepted, rejected, Config}
use bare_server.Boot.{BootError, Booted, up, failed}
use bare_server.Listen.{ListenerCtl, Process, Listeners, Reconciled, reconcile}

-- What each configured root resolves to.
abbrev pub Links : Type 0
Links = List (Bytes × Bytes)

unfoldable pub same_links : Links → Links → Bool
same_links [] [] = true
same_links [] (m ∷ ms) = false
same_links (l ∷ ls) [] = false
same_links (l ∷ ls) (m ∷ ms) = beq l.0 m.0 && beq l.1 m.1 && same_links ls ms

abbrev pub same_reading : Option Links → Option Links → Bool
same_reading none none = true
same_reading none (some m) = false
same_reading (some l) none = false
same_reading (some l) (some m) = same_links l m

pub record Sampled : Type 0 where
  pub config : ℕ
  pub tls_files : List Bytes
  pub tls : ℕ
  pub trees : Table ℕ
  pub links : Links

-- `site_key`
unfoldable pub site_key : Bytes → Bytes → Bytes
site_key host root = host ++ (0 ∷ root)

-- Why a reload fails.
pub data Failure : Type 0 where
  bad_config : ConfigError → Failure
  bad_boot : BootError → Failure
  bad_certificates : Failure
  bad_address : Bytes → Failure

-- The variables of `watch`, with the runtime that the server shares.
pub record Watcher (Tls : Type 0) : Type 0 where
  pub cfg_applied : ℕ
  pub cfg_last : ℕ
  pub tls_applied : ℕ
  pub tls_last : ℕ
  pub tls_files : List Bytes
  pub links_applied : Links
  pub links_last : Option Links
  pub tree_applied : Table ℕ
  pub tree_last : Table ℕ
  pub pending : Option (Bytes × Option Bytes)
  pub retry_at : Option ℕ
  pub backoff : ℕ
  pub failed_at : Option (ℕ × ℕ)
  pub max_conns_per_ip : ℕ
  pub response_secs : ℕ
  pub listeners : Listeners
  pub vhosts : Vhosts
  pub tls : Tls

-- What a turn reads, the times of its two looks at the clock, and the calls that it makes.
pub record Turn (Tls : Type 0) : Type 0 where
  pub cfg_now : ℕ
  pub tls_now : ℕ
  pub links_now : Option Links
  pub now : ℕ
  pub failed_now : ℕ
  pub config_read : Outcome Config
  pub sample : Config → Sampled
  pub new_runtime : Config → Booted (Vhosts × Tls)
  pub build_tls : Config → Option Tls
  pub tls_signature : List Bytes → ℕ
  pub tree_signature : Bytes → ℕ
  pub can_bind : Bytes → Bool

abbrev pub watch_interval : ℕ
watch_interval = 2

abbrev pub max_backoff : ℕ
max_backoff = 60

abbrev pub is_other_failure : Option (ℕ × ℕ) → ℕ → ℕ → Bool
is_other_failure none cfg_now tls_now = false
is_other_failure (some (cfg, tls)) cfg_now tls_now = not (cfg == cfg_now && tls == tls_now)

abbrev pub is_retry_due : Option ℕ → ℕ → Bool
is_retry_due none now = true
is_retry_due (some t) now = leb t now

abbrev moved_links : Option Links → Links → Bool
moved_links none applied = false
moved_links (some l) applied = not (same_links l applied)

abbrev signature_of : Option ℕ → ℕ → ℕ
signature_of none fresh = fresh
signature_of (some sig) fresh = sig

-- The trees of the new sites, as they were sampled before the build.
unfoldable pub seed_applied : Table Site → Table ℕ → (Bytes → ℕ) → Table ℕ → Table ℕ
seed_applied [] trees tree_signature applied = applied
seed_applied ((host, site) ∷ sites) trees tree_signature applied = elim site.root [
  | none ↦ seed_applied sites trees tree_signature applied
  | some root ↦
      seed_applied sites trees tree_signature
        (insert (site_key host root) (signature_of (get root trees) (tree_signature root)) applied)
]

unfoldable pub seed_last : Table Site → (Bytes → ℕ) → Table ℕ → Table ℕ
seed_last [] tree_signature last = last
seed_last ((host, site) ∷ sites) tree_signature last = elim site.root [
  | none ↦ seed_last sites tree_signature last
  | some root ↦
      seed_last sites tree_signature (insert (site_key host root) (tree_signature root) last)
]

-- `peer.set_max` on one of the limiters.
unfoldable pub set_peer : ℕ → ℕ → List PeerLimiter → List PeerLimiter
set_peer i max [] = []
set_peer zero max (l ∷ ls) = set_max max l ∷ ls
set_peer (suc i) max (l ∷ ls) = l ∷ set_peer i max ls

abbrev set_http_peer : Option ListenerCtl → ℕ → List PeerLimiter → List PeerLimiter
set_http_peer none max peers = peers
set_http_peer (some c) max peers = set_peer c.peer max peers

-- The new limit, over the live listeners.
unfoldable pub set_limits : ℕ → Listeners → Listeners
set_limits max l = record l {
  process = record l.process {
    peers = set_http_peer l.http max (set_peer l.https.peer max l.process.peers);
  };
}

abbrev pub address : Bytes → Bytes → Bytes
address host port = host ++ (b':' ∷ port)

abbrev pub wanted : Config → Bytes × Option Bytes
wanted cfg = (
  address cfg.host cfg.port,
  if is_nil cfg.http_host then none else some (address cfg.http_host cfg.http_port),
)

-- A failure if there was one, the variables, and `tls_now`, which a reload reads again.
pub record Attempt (Tls : Type 0) : Type 0 where
  pub failure : Option Failure
  pub watcher : Watcher Tls
  pub tls_now : ℕ

module _ {Tls : Type 0} (e : Turn Tls) where
  abbrev pub unchanged : Option Failure → Watcher Tls → Attempt Tls
  unchanged f w = record { failure = f; watcher = w; tls_now = e.tls_now }

  -- The sites and the certificates of a new configuration go live together.
  abbrev pub swapped : Config → Watcher Tls → Vhosts → Tls → Attempt Tls
  swapped cfg w vhosts tls =
      let s = e.sample cfg in
      record {
        failure = none;
        watcher = record w {
          tree_applied = seed_applied vhosts.sites s.trees e.tree_signature [];
          tree_last = seed_last vhosts.sites e.tree_signature [];
          links_applied = s.links;
          vhosts = vhosts;
          tls = tls;
          max_conns_per_ip = cfg.max_conns_per_ip;
          response_secs = cfg.max_response_secs;
          listeners = set_limits cfg.max_conns_per_ip w.listeners;
          cfg_applied = e.cfg_now;
          tls_files = s.tls_files;
          tls_applied = s.tls;
          pending = some (wanted cfg);
        };
        tls_now = e.tls_signature s.tls_files;
      }

  abbrev pub rebuilt : Config → Watcher Tls → Booted (Vhosts × Tls) → Attempt Tls
  rebuilt cfg w (failed f) = unchanged (some (bad_boot f)) w
  rebuilt cfg w (up (vhosts, tls)) = swapped cfg w vhosts tls

  -- The arm for a configuration that has changed.
  unfoldable pub reload_config : Watcher Tls → Outcome Config → Attempt Tls
  reload_config w (rejected f) = unchanged (some (bad_config f)) w
  reload_config w (accepted cfg) = rebuilt cfg w (e.new_runtime cfg)

  abbrev pub new_certificates : Watcher Tls → Option Tls → Attempt Tls
  new_certificates w none = unchanged (some bad_certificates) w
  new_certificates w (some tls) = unchanged none (record w { tls = tls; tls_applied = e.tls_now })

  -- The arm for certificates only.
  unfoldable pub reload_tls : Watcher Tls → Outcome Config → Attempt Tls
  reload_tls w (rejected f) = unchanged (some (bad_config f)) w
  reload_tls w (accepted cfg) = new_certificates w (e.build_tls cfg)

  abbrev pub first_failure : Option Failure → Option Bytes → Option Failure
  first_failure (some f) addr = some f
  first_failure none none = none
  first_failure none (some addr) = some (bad_address addr)

  abbrev pub rebound : Attempt Tls → Reconciled → Attempt Tls
  rebound a (none, l) = record a { watcher = record a.watcher { listeners = l; pending = none } }
  rebound a (some addr, l) = record a {
    failure = first_failure a.failure (some addr);
    watcher = record a.watcher { listeners = l };
  }

  -- The addresses that are still to be reconciled.
  unfoldable pub reconcile_pending : Attempt Tls → Option (Bytes × Option Bytes) → Attempt Tls
  reconcile_pending a none = a
  reconcile_pending a (some (https_addr, want_http)) =
      rebound a
        (reconcile e.can_bind a.watcher.listeners https_addr want_http a.watcher.max_conns_per_ip)

  abbrev pub settled : Attempt Tls → Option Failure → Attempt Tls
  settled a none = record a {
    watcher = record a.watcher { retry_at = none; backoff = watch_interval; failed_at = none };
  }
  settled a (some f) = record a {
    watcher = record a.watcher {
      failed_at = some (e.cfg_now, a.tls_now);
      retry_at = some (e.failed_now + a.watcher.backoff);
      backoff = min (a.watcher.backoff * 2) max_backoff;
    };
  }

  -- A failure after which something was edited is dropped.
  unfoldable pub drop_failure : Watcher Tls → Watcher Tls
  drop_failure w =
      if is_other_failure w.failed_at e.cfg_now e.tls_now
      then record w { retry_at = none; backoff = watch_interval; failed_at = none }
      else w

  unfoldable pub is_cfg_changed : Watcher Tls → Bool
  is_cfg_changed w =
      (not (e.cfg_now == w.cfg_applied) && e.cfg_now == w.cfg_last)
      || (moved_links e.links_now w.links_applied && same_reading e.links_now w.links_last)

  unfoldable pub is_tls_changed : Watcher Tls → Bool
  is_tls_changed w = not (e.tls_now == w.tls_applied) && e.tls_now == w.tls_last

  -- What is tried: the configuration, or only the certificates, or neither.
  unfoldable pub reload : Watcher Tls → Attempt Tls
  reload w =
      if is_cfg_changed w
      then reload_config w e.config_read
      else if is_tls_changed w
      then reload_tls w e.config_read
      else unchanged none w

  abbrev pub attempt : Watcher Tls → Attempt Tls
  attempt w =
      let a = reload w in let b = reconcile_pending a a.watcher.pending in settled b b.failure

  abbrev pub is_pending : Option (Bytes × Option Bytes) → Bool
  is_pending none = false
  is_pending (some p) = true

  unfoldable pub try_reload : Watcher Tls → Attempt Tls
  try_reload w =
      if is_retry_due w.retry_at e.now
        && (is_cfg_changed w || is_tls_changed w || is_pending w.pending)
      then attempt w
      else unchanged none w

  abbrev pub remember : Attempt Tls → Watcher Tls
  remember a = record a.watcher {
    cfg_last = e.cfg_now;
    tls_last = a.tls_now;
    links_last = e.links_now;
  }

  -- A turn, up to the scan of the contents.
  unfoldable pub watch_turn : Watcher Tls → Watcher Tls
  watch_turn w = remember (try_reload (drop_failure w))
