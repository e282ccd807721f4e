-- ===== src/Cache.antt =====
-- src/cache.rs: the cache of a site (`Policy`, `etag_for`, `build_header`, `build_variant`,
-- `compress_variants`, `make_cached`). The two compressors are parameters.
pub mod Snapshot
pub mod Walk
pub mod Answers
pub mod Forms
use bare_server.Base.{
  is_nil, ℕ, suc, ◌*◌, ◌%◌, ◌^◌, Bool, true, false, ◌&&◌, ◌||◌, not, Option, none, some, List, [],
  ◌∷◌, ◌++◌, length, all, arith, leb, ltb, ◌==◌, if◌then◌else◌, Bytes, codes,
}
use Prim.Native.Nat.{bit_xor}
use bare_server.Text.{
  rsplit_once, is_hexdigit, is_digit, print_decimal, print_hex, starts_with, contains,
}
use bare_server.Response.{ErrorPages, new_error_pages, crlf, encoding_line, vary_line}
use bare_server.Settings.{Tuning, HeaderConfig, render}
use bare_server.Config.{Storage}
use bare_server.Site
use bare_server.Site.{Variant, MemEntry}

-- The whole of `Policy`. The part that a request reads, `security_headers` and `errors`, is `served`.
pub record BuildPolicy : Type 0 where
  pub t : Tuning
  pub cc_immutable : Bytes
  pub cc_revalidate : Bytes
  pub served : Site.Policy
  pub storage : Storage
  pub disk_cache : Bytes

-- `Policy::with_headers`
unfoldable pub with_headers : Tuning → HeaderConfig → Storage → Bytes → BuildPolicy
with_headers t h storage disk_cache = record {
  t = t;
  cc_immutable =
      codes "public, max-age=" ++ (print_decimal t.immutable_max_age ++ codes ", immutable");
  cc_revalidate =
      codes "public, max-age=" ++ (print_decimal t.cache_max_age ++ codes ", must-revalidate");
  served = record { security_headers = render h; errors = new_error_pages (render h) };
  storage = storage;
  disk_cache = disk_cache;
}

abbrev after_slash : Bytes → Option (Bytes × Bytes) → Bytes
after_slash url none = url
after_slash url (some (dir, f)) = f

abbrev pub is_hash : Bytes → Bool
is_hash hash = leb 8 (length hash) && all is_hexdigit hash && not (all is_digit hash)

abbrev hashed_stem : Option (Bytes × Bytes) → Bool
hashed_stem none = false
hashed_stem (some (word, hash)) = is_hash hash

abbrev hashed_file : Option (Bytes × Bytes) → Bool
hashed_file none = false
hashed_file (some (stem, ext)) = hashed_stem (rsplit_once b'-' stem)

unfoldable pub is_fingerprinted : Bytes → Bool
is_fingerprinted url = hashed_file (rsplit_once b'.' (after_slash url (rsplit_once b'/' url)))

-- `Policy::cache_control_for`
unfoldable pub cache_control_for : BuildPolicy → Bytes → Bytes
cache_control_for p url = if is_fingerprinted url then p.cc_immutable else p.cc_revalidate

-- The loop of `etag_for`: FNV-1a on 64 bits.
unfoldable pub fnv : ℕ → Bytes → ℕ
fnv h [] = h
fnv h (b ∷ body) = fnv ((bit_xor h b * 0x100000001b3) % 2 ^ 64) body

unfoldable pub etag_for : Bytes → Bytes
etag_for body = print_hex (length body) ++ (codes "-" ++ print_hex (fnv 0xcbf29ce484222325 body))

unfoldable pub is_compressible : Bytes → Bool
is_compressible mime =
    starts_with (codes "text/") mime
    || contains (codes "javascript") mime
    || contains (codes "json") mime
    || contains (codes "xml") mime
    || contains (codes "svg") mime
    || contains (codes "wasm") mime

unfoldable pub build_header : Bytes → ℕ → Bytes → Option Bytes → Bool → Bytes → Bytes → Bytes
build_header mime body_len etag encoding vary cache_control security_headers =
    codes "HTTP/1.1 200 OK\r\nContent-Type: "
    ++ (mime
        ++ (codes "\r\nContent-Length: "
            ++ (print_decimal body_len
                ++ (codes "\r\nETag: \""
                    ++ (etag
                        ++ (codes "\"\r\n"
                            ++ (encoding_line encoding
                                ++ (vary_line vary
                                    ++ (codes "Cache-Control: "
                                        ++ (cache_control
                                            ++ (codes "\r\nConnection: keep-alive\r\n"
                                                ++ (security_headers ++ crlf))))))))))))

unfoldable pub build_variant : Bytes → Bytes → Option Bytes → Bool → Bytes → Bytes → Variant
build_variant mime body encoding vary cache_control security_headers =
    let etag = etag_for body in
    let h = build_header mime (length body) etag encoding vary cache_control security_headers in
    record { full_ka = h ++ body; header_len = length h; etag = etag; encoding = encoding }

abbrev pub some_if {ℓ} : {A : Type ℓ} → Bool → A → Option A
some_if true a = some a
some_if false a = none

abbrev pub is_some {ℓ} : {A : Type ℓ} → Option A → Bool
is_some none = false
is_some (some a) = true

abbrev pub build_coded : Bytes → Option Bytes → Bytes → Bytes → Bytes → Option Variant
build_coded mime none coding cc sh = none
build_coded mime (some body) coding cc sh = some (build_variant mime body (some coding) true cc sh)

-- The entry of a file, with the compressed bodies that it has.
abbrev pub new_entry : Bytes → Bytes → Bytes → Bytes → Option Bytes → Option Bytes → MemEntry
new_entry mime content cc sh gz brb = record {
  identity = build_variant mime content none (is_some gz || is_some brb) cc sh;
  gzip = build_coded mime gz (codes "gzip") cc sh;
  br = build_coded mime brb (codes "br") cc sh;
  cache_control = cc;
  vary = is_some gz || is_some brb;
}

module _ (gzip_compress brotli_compress : Bytes → ℕ → Bytes) where
  -- A compressed body is kept only up to a size of the file, and only if it is smaller.
  abbrev pub shrunk : Bytes → ℕ → Bytes → Option Bytes
  shrunk content limit packed =
      some_if (leb (length content) limit && ltb (length packed) (length content)) packed

  unfoldable pub compress_variants : Bytes → Bytes → Tuning → Option Bytes × Option Bytes
  compress_variants mime content t =
      if not (t.compression && is_compressible mime && leb t.min_compress_bytes (length content))
      then (none, none)
      else (
        shrunk content t.max_gzip_bytes (gzip_compress content t.gzip_level),
        shrunk content t.max_brotli_bytes (brotli_compress content t.brotli_quality),
      )

  unfoldable pub make_cached : Bytes → Bytes → Bytes → BuildPolicy → MemEntry
  make_cached url mime content p =
      let packed = compress_variants mime content p.t in
      new_entry mime content (cache_control_for p url) p.served.security_headers packed.0 packed.1
