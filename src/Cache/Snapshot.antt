-- ===== src/Cache/Snapshot.antt =====
-- src/cache.rs: the entries of a cache on disk (`make_disk_entry`). The files of a snapshot are a table
-- from paths to contents, and whether a file can be written is a parameter.
use bare_server.Base.{
  is_nil, ℕ, Bool, ◌||◌, Option, none, some, ◌∷◌, ◌++◌, length, if◌then◌else◌, Bytes, codes,
}
use bare_server.Text.{Table, insert, starts_with, ends_with, trim_start_matches}
use bare_server.Site.{DiskVariant, DiskEntry}
use bare_server.Cache.{
  BuildPolicy, cache_control_for, etag_for, build_header, is_some, compress_variants,
}

-- `PathBuf::join`
unfoldable pub join_path : Bytes → Bytes → Bytes
join_path base path =
    if starts_with (codes "/") path
    then path
    else if is_nil base || ends_with (codes "/") base
    then base ++ path
    else base ++ (b'/' ∷ path)

-- The closure `ns`.
unfoldable pub ns : Bytes → Bytes → Bytes → Bytes
ns build_dir url dir = join_path (join_path build_dir dir) (trim_start_matches b'/' url)

-- What a step of the build returns, and the files of the snapshot.
abbrev pub Written {ℓ} : Type ℓ → Type ℓ
Written A = Option A × Table Bytes

abbrev optional : Written DiskVariant → Written (Option DiskVariant)
optional (none, files) = (none, files)
optional (some v, files) = (some (some v), files)

abbrev pub then_written {ℓ κ} :
    {A : Type ℓ} {B : Type κ} → Written A → (A → Table Bytes → Written B) → Written B
then_written (none, files) f = (none, files)
then_written (some a, files) f = f a files

module _ (gzip_compress brotli_compress : Bytes → ℕ → Bytes) (can_write : Bytes → Bool) where
  -- The closure `write_variant`.
  unfoldable pub write_variant :
      Bytes
      → Bool
      → Bytes
      → Bytes
      → Bytes
      → Bytes
      → Option Bytes
      → Table Bytes
      → Written DiskVariant
  write_variant mime vary cc sh path body encoding files =
      let etag = etag_for body in
      if can_write path
      then (
        some (record {
          header_ka = build_header mime (length body) etag encoding vary cc sh;
          path = path;
          len = length body;
          etag = etag;
          encoding = encoding;
        }),
        insert path body files,
      )
      else (none, files)

  abbrev pub write_coded :
      Bytes
      → Bool
      → Bytes
      → Bytes
      → Bytes
      → Option Bytes
      → Bytes
      → Table Bytes
      → Written (Option DiskVariant)
  write_coded mime vary cc sh path none coding files = (some none, files)
  write_coded mime vary cc sh path (some body) coding files =
      optional (write_variant mime vary cc sh path body (some coding) files)

  unfoldable pub make_disk_entry :
      Bytes → Bytes → Bytes → BuildPolicy → Bytes → Table Bytes → Written DiskEntry
  make_disk_entry url mime content p build_dir files =
      let cc = cache_control_for p url in
      let (gz, brb) = compress_variants gzip_compress brotli_compress mime content p.t in
      let vary = is_some gz || is_some brb in
      let sh = p.served.security_headers in
      then_written
        (write_variant mime vary cc sh (ns build_dir url (codes "identity")) content none files)
        (λ identity files.
          then_written
            (write_coded mime vary cc sh (ns build_dir url (codes "gzip")) gz (codes "gzip") files)
            (λ gzip files.
              then_written
                (write_coded mime vary cc sh (ns build_dir url (codes "br")) brb (codes "br") files)
                (λ br files. (
                  some (record {
                    identity = identity;
                    gzip = gzip;
                    br = br;
                    cache_control = cc;
                    vary = vary;
                  }),
                  files,
                ))))
