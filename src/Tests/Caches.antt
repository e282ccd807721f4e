-- ===== src/Tests/Caches.antt =====
-- src/cache.rs: a document root, and the cache that is built from it.
use bare_server.Base.{
  ℕ, ◌≤◌, ◌≡◌, refl, inl, inr, Bool, true, false, Option, none, some, [], ◌∷◌, arith, Bytes, codes,
  ◌+◌,
}
use bare_server.Text.{
  beq, insert, starts_with, strip_prefix, is_some, rsplit_once, to_ascii_lowercase, print_hex,
  print_decimal,
}
use bare_server.Mime.{mime_for, type_of}
use bare_server.Site
use bare_server.Serve.{serve_mem}
use bare_server.Cache.Forms.{IsAnswer, serve_mem-make_cached}
use bare_server.Site.{Cached, retained_bytes}
use bare_server.Settings.{default_tuning, default_headers, render}
use bare_server.Config.{memory}
use bare_server.Cache.{
  BuildPolicy, with_headers, cache_control_for, is_fingerprinted, etag_for, fnv, is_compressible,
  build_header, build_variant, compress_variants, make_cached,
}
use bare_server.Cache.Walk.{
  Entries, nothing, skipped, file, dir, unreadable_dir, is_hidden, Walk, load_file, walk,
  build_cache, cache_bytes,
}
use bare_server.Cache.Walk.Found.{Listed}
use bare_server.Cache.Walk.Budget.{Has, build_cache-bound, build_cache-Has}

-- A compressor that keeps the first byte, and one that keeps all.
abbrev first_byte : Bytes → ℕ → Bytes
first_byte [] level = []
first_byte (c ∷ s) level = c ∷ []

abbrev all_bytes : Bytes → ℕ → Bytes
all_bytes s level = s

abbrev writable : Bytes → Bool
writable path = true

abbrev root : Entries
root = skipped (codes "link") (
    dir (codes ".git") (file (codes "config") 3 (some (codes "abc")) nothing)
      (dir (codes "a") (file (codes "b.css") 2 (some (codes "hi")) nothing) nothing))

abbrev in_ram : BuildPolicy
in_ram = record {
  t = default_tuning;
  cc_immutable = codes "i";
  cc_revalidate = codes "r";
  served = (with_headers default_tuning default_headers memory []).served;
  storage = memory;
  disk_cache = [];
}

abbrev served_policy : Site.Policy
served_policy = in_ram.served

abbrev or_start : Option Walk → Walk
or_start none = record { map = []; total = 0; files = [] }
or_start (some w) = w

abbrev build : ℕ → Option Walk
build total = build_cache first_byte all_bytes writable 0 (some root) total in_ram

abbrev built : Walk
built = or_start (build 7)

builds : build 7 ≡ some built
unfolding build_cache walk is_hidden starts_with strip_prefix is_some beq load_file make_cached
    compress_variants build_variant etag_for retained_bytes insert build_header mime_for rsplit_once
    type_of to_ascii_lowercase print_decimal print_hex fnv is_compressible cache_control_for
    is_fingerprinted with_headers render
builds = refl

build_cache-bound_example :
    (7 + cache_bytes built.map ≤ built.total) × (built.total ≤ in_ram.t.max_total_bytes)
build_cache-bound_example =
    build_cache-bound first_byte all_bytes writable in_ram 0 7 root refl (omega arith) builds

visible : Listed [] root (codes "/a/b.css") 2 (some (codes "hi"))
unfolding is_hidden starts_with strip_prefix is_some beq
visible = inr (inl (refl, inl (refl, refl, refl, refl)))

build_cache-Has_example : Has (codes "/a/b.css") built
build_cache-Has_example =
    build_cache-Has first_byte all_bytes writable in_ram 0 7 root (codes "/a/b.css") 2 (codes "hi")
      refl visible (omega arith) builds

-- A directory that cannot be read fails the build.
fails_closed :
    build_cache first_byte all_bytes writable 0 (some (unreadable_dir (codes "a") root)) 7 in_ram
    ≡ none
unfolding build_cache walk is_hidden starts_with strip_prefix is_some beq
fails_closed = refl

serve_mem-make_cached_example :
    IsAnswer first_byte all_bytes default_tuning default_headers memory []
      (codes "/a/b.css")
      (codes "hi")
      (codes "gzip")
      []
      true
      false
      served_policy
      (serve_mem
        (make_cached first_byte all_bytes
          (codes "/a/b.css")
          (mime_for (codes "/a/b.css"))
          (codes "hi")
          (with_headers default_tuning default_headers memory []))
        (codes "gzip")
        []
        true
        false
        served_policy)
serve_mem-make_cached_example =
    serve_mem-make_cached first_byte all_bytes default_tuning default_headers memory []
      (codes "/a/b.css") (codes "hi") (codes "gzip") [] true false served_policy
