-- ===== src/Tests/Configs.antt =====
-- src/config.rs and src/main.rs: configuration files, and servers that are started from them.
use bare_server.Base.{
  ℕ, ◌≡◌, refl, Bool, true, Option, none, some, List, [], ◌∷◌, ◌++◌, length, Bytes, codes, All,
}
use bare_server.Text.{
  lines, closed_lines, split, beq, trim, trim_start, trim_end, before, from_first, strip_prefix,
  strip_suffix, reversed, split_once, rsplit_once, to_ascii_lowercase, lower, get, insert,
  starts_with, is_some, parse_uint, print_decimal,
}
use bare_server.Settings.{
  apply_shared, parse_secs, default_tuning, default_headers, HeaderConfig, render,
}
use bare_server.Redirects.{
  push, push_catch_all, push_pattern, finish, redirects_is_empty, loops_forever, before_query,
  expand, expand_chars, unknown_digit, sort_rules,
}
use bare_server.Config.{Outcome, accepted, rejected, Config, Reading, initial_reading}
use bare_server.Config.Lines.{uncommented, after_keyword, split_arrow, site_hosts}
use bare_server.Config.Keys.{server_only_reason, site_setting, server_setting}
use bare_server.Config.Parse.{
  close_block, open_block, add_rule, setting, parse_text, parse_line, parse_lines, new_site,
}
use bare_server.Config.Result.{
  apply_overrides, resolve_site, resolve_sites, finish_config, parse_config,
}
use bare_server.Config.Sound.{Post}
use bare_server.Config.Sound.Sites.{IsComplete, IsLocated, parse_config-IsComplete}
use bare_server.Response.{
  errors_retained_bytes, new_error_pages, status_retained_bytes, build_status, status_form,
  status_head, status_body, required_headers,
}
use bare_server.Site.{Vhosts}
use bare_server.Config.{memory}
use bare_server.Cache.{with_headers}
use bare_server.Cache.Walk.{Entries}
use bare_server.Boot.{
  up, failed, site_policy, insert_hosts, open_root, build_site, build_sites, build_vhosts,
}
use bare_server.Boot.Lookup.{IsNamed, build_vhosts-IsNamed}
use bare_server.Config.Order.{with_defaults, mapped, parse_line-with_defaults}

abbrev text : Bytes
text =
    codes "listen = [::]:443 # both\n"
    ++ (codes "site a.com, b.com {\n"
        ++ (codes "cert = c\n"
            ++ (codes "key = k\n"
                ++ (codes "cache_max_age = 5\n" ++ codes "redirect * -> https://b.com$0\n}\n"))))

abbrev names_of : Outcome Config → List (List Bytes)
names_of (accepted c) = elim c.sites [ [] ↦ [] | s ∷ ss ↦ s.hosts ∷ [] ]
names_of (rejected e) = []

parse_config_names : names_of (parse_config text) ≡ ((codes "a.com" ∷ codes "b.com" ∷ []) ∷ [])
unfolding parse_config parse_lines lines closed_lines split strip_suffix strip_prefix reversed
    parse_line uncommented before from_first trim trim_start trim_end parse_text beq after_keyword
    open_block site_hosts to_ascii_lowercase lower setting split_once server_setting rsplit_once
    site_setting server_only_reason apply_shared parse_secs parse_uint add_rule split_arrow push
    starts_with is_some unknown_digit push_pattern loops_forever before_query expand expand_chars
    close_block finish sort_rules finish_config resolve_sites resolve_site redirects_is_empty
    apply_overrides push_catch_all
parse_config_names = refl

parse_config-IsComplete_example :
    Post IsComplete (IsLocated (length (lines text))) (parse_config text)
parse_config-IsComplete_example = parse_config-IsComplete text

abbrev inside : Reading
inside = record initial_reading { cur = some (new_site 1 (codes "a.com" ∷ [])) }

abbrev strict : HeaderConfig
strict = record default_headers { csp = codes "default-src 'self'" }

parse_line-with_defaults_example :
    parse_line 2 (with_defaults default_tuning strict inside) (codes " gzip_level = 6")
    ≡ mapped (with_defaults default_tuning strict) (parse_line 2 inside (codes " gzip_level = 6"))
parse_line-with_defaults_example =
    parse_line-with_defaults default_tuning strict 2 inside (new_site 1 (codes "a.com" ∷ []))
      (codes " gzip_level = 6") refl

abbrev config : Config
config = record {
  host = codes "[::]";
  port = codes "443";
  http_host = [];
  http_port = [];
  sites = elim (parse_config text) [ accepted c ↦ c.sites | rejected e ↦ [] ];
  headers = default_headers;
  max_conns_per_ip = 64;
  max_response_secs = 0;
  storage = memory;
  disk_cache = none;
}

abbrev packs : Bytes → ℕ → Bytes
packs s level = s

abbrev writable : Bytes → Bool
writable path = true

abbrev no_path : Bytes → Option Bytes
no_path path = none

abbrev no_entries : Bytes → Option Entries
no_entries path = none

abbrev vhosts : Vhosts
vhosts = elim (build_vhosts packs packs writable no_path writable no_entries config 0) [
  | up v ↦ v
  | failed e ↦ record { sites = []; https_port = []; http_port = []; errors = new_error_pages [] }
]

starts : build_vhosts packs packs writable no_path writable no_entries config 0 ≡ up vhosts
unfolding build_vhosts build_sites build_site open_root insert_hosts site_policy parse_config
    parse_lines lines closed_lines split strip_suffix strip_prefix reversed parse_line uncommented
    before from_first trim trim_start trim_end parse_text beq after_keyword open_block site_hosts
    to_ascii_lowercase lower setting split_once server_setting rsplit_once site_setting
    server_only_reason apply_shared parse_secs parse_uint add_rule split_arrow push starts_with
    is_some unknown_digit push_pattern loops_forever before_query expand expand_chars close_block
    finish sort_rules finish_config resolve_sites resolve_site redirects_is_empty apply_overrides
    push_catch_all get insert with_headers errors_retained_bytes new_error_pages render
    status_retained_bytes build_status status_form status_head status_body required_headers
    print_decimal
starts = refl

build_vhosts-IsNamed_example : All (IsNamed config vhosts.sites) config.sites
build_vhosts-IsNamed_example =
    build_vhosts-IsNamed packs packs writable no_path writable no_entries config 0 starts
