-- ===== src/Tests/Scanning.antt =====
-- src/main.rs, `watch`: a scan of the contents.
use bare_server.Base.{
  ℕ, ◌+◌, ◌≤◌, ◌≡◌, refl, Bool, true, false, none, some, [], ◌∷◌, arith, Bytes, codes,
}
use bare_server.Text.{Table, get, insert, beq}
use bare_server.Response.{StatusResponse, ErrorPages, errors_retained_bytes, status_retained_bytes}
use bare_server.Settings.{default_tuning}
use bare_server.Config.{memory}
use bare_server.Site.{Cached, mem, retained_bytes}
use bare_server.Cache.{BuildPolicy}
use bare_server.Cache.Walk.{Entries, nothing, file, walk, build_cache, cache_bytes}
use bare_server.Watch.{site_key}
use bare_server.Watch.Signature.{name_ltb}
use bare_server.Watch.Contents.{
  site_at, add_target, collect_targets, contains_id, distinct_error_bytes, error_page_bytes, Scan,
  scan_target, scan_targets, scan_contents,
}
use bare_server.Watch.Contents.Swap.{held}
use bare_server.Watch.Contents.Budget.{scan_contents-bound}

abbrev first_byte : Bytes → ℕ → Bytes
first_byte [] level = []
first_byte (c ∷ s) level = c ∷ []

abbrev writable : Bytes → Bool
writable path = true

abbrev page : StatusResponse
page = record {
  ka = record { full = codes "k"; header_len = 1 };
  close = record { full = codes "c"; header_len = 1 };
}

abbrev pages : ErrorPages
pages = record {
  bad_request = page;
  not_found = page;
  method_not_allowed = page;
  request_timeout = page;
  headers_too_large = page;
  internal_error = page;
}

abbrev policy : BuildPolicy
policy = record {
  t = default_tuning;
  cc_immutable = codes "i";
  cc_revalidate = codes "r";
  served = record { security_headers = []; errors = pages };
  storage = memory;
  disk_cache = [];
}

abbrev old_entry : Cached
old_entry = mem (record {
  identity = record { full_ka = codes "old"; header_len = 1; etag = []; encoding = none };
  gzip = none;
  br = none;
  cache_control = [];
  vary = false;
})

abbrev key : Bytes
key = site_key (codes "a") (codes "w")

-- One site under two names, whose tree has changed and is stable again.
abbrev one_site : Scan
one_site = record {
  sites =
      record {
        id = 3;
        root = some (codes "w");
        policy = policy;
        map = (codes "/old", old_entry) ∷ [];
      }
      ∷ [];
  tree_applied = (key, 1) ∷ [];
  tree_last = (key, 2) ∷ [];
}

abbrev two_names : Table ℕ
two_names = (codes "b", 3) ∷ (codes "a", 3) ∷ []

abbrev rescanned : Entries → Scan
rescanned root =
    scan_contents first_byte first_byte writable (λ w. 2) (λ w. some root) (λ i. i) pages two_names
      one_site

-- The smaller name is in the key, and the build is recorded.
rescanned_applied : (rescanned nothing).tree_applied ≡ (key, 2) ∷ []
unfolding scan_contents scan_targets scan_target collect_targets site_at add_target get insert beq
    site_key name_ltb build_cache walk
rescanned_applied = refl

abbrev new_page : Entries
new_page = file (codes "new.html") 2 (some (codes "hi")) nothing

scan_contents-bound_example :
    held (rescanned new_page).sites (collect_targets one_site.sites two_names [])
      + error_page_bytes pages (rescanned new_page).sites two_names
    ≤ default_tuning.max_total_bytes
unfolding held collect_targets site_at add_target cache_bytes retained_bytes error_page_bytes
    errors_retained_bytes status_retained_bytes distinct_error_bytes contains_id
scan_contents-bound_example =
    scan_contents-bound first_byte first_byte writable (λ w. 2) (λ w. some new_page) (λ i. i) pages
      two_names default_tuning.max_total_bytes one_site ((refl, refl), tt) (omega arith)
