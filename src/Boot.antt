-- ===== src/Boot.antt =====
-- src/main.rs: the virtual hosts that a configuration becomes (`site_policy`, `build_vhosts`, `build_runtime`).
-- The file system and the compressors are parameters, and so is the TLS configuration that `build_tls` makes.
pub mod Lookup
pub mod Whole
use bare_server.Base.{
  is_nil, ℕ, suc, ◌+◌, Bool, true, false, not, Option, none, some, List, [], ◌∷◌, ltb,
  if◌then◌else◌, Bytes,
}
use bare_server.Text.{Table, get, insert}
use bare_server.Response.{ErrorPages, new_error_pages, errors_retained_bytes}
use bare_server.Settings.{render}
use bare_server.Site.{Cached, Site, Vhosts}
use bare_server.Config.{Storage, memory, on_disk, SiteConfig, Config}
use bare_server.Config.Result.{or_empty}
use bare_server.Cache.{BuildPolicy, with_headers, is_some}
use bare_server.Cache.Walk.{Entries, Walk, build_cache}

unfoldable pub site_policy : Config → SiteConfig → BuildPolicy
site_policy cfg s = with_headers s.tuning s.headers cfg.storage (or_empty cfg.disk_cache)

-- The messages of `build_vhosts`, without the label of the site, and a TLS configuration that fails.
pub data BootError : Type 0 where
  budget_too_small : ℕ → ℕ → BootError
  unusable_root not_a_directory no_cache : BootError
  duplicate_host : Bytes → BootError
  bad_tls : BootError

pub data Booted {ℓ} (A : Type ℓ) : Type ℓ where
  up : A → Booted A
  failed : BootError → Booted A

abbrev pub then_booted {ℓ κ} : {A : Type ℓ} {B : Type κ} → Booted A → (A → Booted B) → Booted B
then_booted (up a) f = f a
then_booted (failed e) f = failed e

-- The variables of the loop, and the next number of a snapshot directory.
pub record Boot : Type 0 where
  pub sites : Table Site
  pub total : ℕ
  pub seq : ℕ

-- The loop over the names of a site.
unfoldable pub insert_hosts : Site → List Bytes → Table Site → Booted (Table Site)
insert_hosts site [] sites = up sites
insert_hosts site (host ∷ hosts) sites =
    let rest = insert_hosts site hosts (insert host site sites) in
    if is_some (get host sites) then failed (duplicate_host host) else rest

-- A document root that was opened, with its cache and the loop's numbers behind it.
pub record Opened : Type 0 where
  pub root : Option Bytes
  pub cache : Table Cached
  pub total : ℕ
  pub seq : ℕ

abbrev next_seq : Storage → ℕ → ℕ
next_seq memory seq = seq
next_seq on_disk seq = suc seq

module _ (gzip_compress brotli_compress : Bytes → ℕ → Bytes) (can_write : Bytes → Bool)
    (canonicalize : Bytes → Option Bytes) (is_dir : Bytes → Bool)
    (read_dir : Bytes → Option Entries) where
  abbrev pub cached_root : Bytes → BuildPolicy → ℕ → Option Walk → Booted Opened
  cached_root root p seq none = failed no_cache
  cached_root root p seq (some w) =
      up (record { root = some root; cache = w.map; total = w.total; seq = next_seq p.storage seq })

  abbrev pub real_root : BuildPolicy → ℕ → ℕ → Option Bytes → Booted Opened
  real_root p total seq none = failed unusable_root
  real_root p total seq (some root) =
      if not (is_dir root)
      then failed not_a_directory
      else cached_root root p seq
          (build_cache gzip_compress brotli_compress can_write seq (read_dir root) total p)

  -- The `match` on the root of a site.
  unfoldable pub open_root : Option Bytes → BuildPolicy → ℕ → ℕ → Booted Opened
  open_root none p total seq = up (record { root = none; cache = []; total = total; seq = seq })
  open_root (some r) p total seq = real_root p total seq (canonicalize r)

  abbrev pub new_site : SiteConfig → BuildPolicy → Opened → Site
  new_site s p o = record {
    root = o.root;
    cache = o.cache;
    force_ssl = s.force_ssl;
    canonical_urls = s.canonical_urls;
    redirects = s.redirects;
    policy = p.served;
  }

  abbrev pub named_site : SiteConfig → BuildPolicy → Table Site → Opened → Booted Boot
  named_site s p sites o =
      then_booted (insert_hosts (new_site s p o) s.hosts sites)
        (λ sites. up (record { sites = sites; total = o.total; seq = o.seq }))

  abbrev pub charged_site : SiteConfig → BuildPolicy → Boot → ℕ → Booted Boot
  charged_site s p b one_set =
      if ltb p.t.max_total_bytes (b.total + one_set)
      then failed (budget_too_small (b.total + one_set) one_set)
      else then_booted (open_root s.root p (b.total + one_set) b.seq)
          (λ o. named_site s p b.sites o)

  -- One turn of the loop over the sites.
  unfoldable pub build_site : Config → Boot → SiteConfig → Booted Boot
  build_site cfg b s =
      let p = site_policy cfg s in charged_site s p b (errors_retained_bytes p.served.errors)

  unfoldable pub build_sites : Config → List SiteConfig → Boot → Booted Boot
  build_sites cfg [] b = up b
  build_sites cfg (s ∷ ss) b = then_booted (build_site cfg b s) (λ b. build_sites cfg ss b)

  abbrev pub new_vhosts : Config → Boot → Vhosts
  new_vhosts cfg b = record {
    sites = b.sites;
    https_port = cfg.port;
    http_port = cfg.http_port;
    errors = new_error_pages (render cfg.headers);
  }

  -- `seq` is where `BUILD_SEQ` stands.
  unfoldable pub build_vhosts : Config → ℕ → Booted Vhosts
  build_vhosts cfg seq =
      then_booted
        (build_sites cfg cfg.sites (record {
          sites = [];
          total = errors_retained_bytes (new_error_pages (render cfg.headers));
          seq = seq;
        }))
        (λ b. up (new_vhosts cfg b))

  -- `build_runtime`, with what `build_tls` returns.
  unfoldable pub build_runtime {ℓ} :
      {Tls : Type ℓ} → Option Tls → Config → ℕ → Booted (Vhosts × Tls)
  build_runtime none cfg seq = failed bad_tls
  build_runtime (some tls) cfg seq = then_booted (build_vhosts cfg seq) (λ v. up (v, tls))
