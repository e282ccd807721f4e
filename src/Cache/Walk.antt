-- ===== src/Cache/Walk.antt =====
-- src/cache.rs: the walk over a document root (`is_hidden`, `walk`, `build_cache`, `cache_bytes`). A
-- directory is the list of its entries in the order that `read_dir` gives them, with what the reads of
-- the walk return; a name is the text that `to_string_lossy` makes of it.
pub mod Found
pub mod Contents
pub mod Budget
use bare_server.Base.{
  is_nil, ℕ, ◌+◌, Bool, true, false, ◌&&◌, ◌||◌, not, Option, none, some, List, [], ◌∷◌, ◌++◌,
  length, if◌then◌else◌, ltb, Bytes, codes,
}
use bare_server.Text.{Table, insert, beq, starts_with, print_decimal}
use bare_server.Mime.{mime_for}
use bare_server.Site.{Cached, mem, disk, MemEntry, DiskEntry, retained_bytes}
use bare_server.Config.{Storage, memory, on_disk}
use bare_server.Cache.{BuildPolicy, make_cached}
use bare_server.Cache.Snapshot.{Written, make_disk_entry, join_path}

-- A list of entries: each has a name, what it is, and the entries behind it. `skipped` is an entry whose
-- metadata cannot be read, a symbolic link, or no file at all. A file has the length of its metadata
-- and what reading it returns.
pub data Entries : Type 0 where
  nothing : Entries
  skipped : Bytes → Entries → Entries
  file : Bytes → ℕ → Option Bytes → Entries → Entries
  dir : Bytes → Entries → Entries → Entries
  unreadable_dir : Bytes → Entries → Entries

unfoldable pub is_hidden : Bytes → Bool
is_hidden name = starts_with (codes ".") name && not (beq name (codes ".well-known"))

-- What `walk` changes: the cache, the bytes charged so far, and the files of the snapshot.
pub record Walk : Type 0 where
  pub map : Table Cached
  pub total : ℕ
  pub files : Table Bytes

-- `format!("{prefix}/{name}")`
abbrev pub url_of : Bytes → Bytes → Bytes
url_of prefix name = prefix ++ (b'/' ∷ name)

-- The rest of the walk, unless it has failed.
abbrev pub then_walk : Bool × Walk → (Walk → Bool × Walk) → Bool × Walk
then_walk (true, w) f = f w
then_walk (false, w) f = (false, w)

module _ (gzip_compress brotli_compress : Bytes → ℕ → Bytes) (can_write : Bytes → Bool)
    (p : BuildPolicy) (build_dir : Option Bytes) where
  abbrev pub in_memory : Bool
  in_memory = elim build_dir [ none ↦ true | some d ↦ false ]

  -- A built entry is charged and stored.
  abbrev pub store : Bytes → Walk → Cached → Table Bytes → Bool × Walk
  store url w cached files =
      if in_memory && ltb p.t.max_total_bytes (w.total + retained_bytes cached)
      then (false, record w { files = files })
      else (
        true,
        record {
          map = insert url cached w.map;
          total = w.total + retained_bytes cached;
          files = files;
        },
      )

  abbrev pub store_disk : Bytes → Walk → Written DiskEntry → Bool × Walk
  store_disk url w (none, files) = (true, record w { files = files })
  store_disk url w (some e, files) = store url w (disk e) files

  abbrev pub build_entry : Bytes → Bytes → Walk → Option Bytes → Bool × Walk
  build_entry url content w none =
      store url w (mem (make_cached gzip_compress brotli_compress url (mime_for url) content p))
        w.files
  build_entry url content w (some bd) = store_disk url w (
      make_disk_entry gzip_compress brotli_compress can_write url (mime_for url) content p bd
        w.files)

  abbrev pub read_file : Bytes → Walk → Option Bytes → Bool × Walk
  read_file url w none = (true, w)
  read_file url w (some content) = build_entry url content w build_dir

  -- The branch of `walk` for a regular file.
  unfoldable pub load_file : Bytes → ℕ → Option Bytes → Walk → Bool × Walk
  load_file url size content w =
      if ltb p.t.max_file_size size
      then (true, w)
      else if in_memory && ltb p.t.max_total_bytes (w.total + size)
      then (false, w)
      else read_file url w content

  -- Whether nothing went wrong, and the walk so far.
  unfoldable pub walk : Bytes → Entries → Walk → Bool × Walk
  walk prefix nothing w = (true, w)
  walk prefix (skipped name rest) w = walk prefix rest w
  walk prefix (unreadable_dir name rest) w =
      then_walk (if is_hidden name then (true, w) else (false, w)) (λ v. walk prefix rest v)
  walk prefix (file name size content rest) w =
      then_walk
        (if is_hidden name then (true, w) else load_file (url_of prefix name) size content w)
        (λ v. walk prefix rest v)
  walk prefix (dir name children rest) w =
      then_walk (if is_hidden name then (true, w) else walk (url_of prefix name) children w)
        (λ v. walk prefix rest v)

abbrev pub if_walked : Bool × Walk → Option Walk
if_walked (true, w) = some w
if_walked (false, w) = none

abbrev pub build_dir_of : BuildPolicy → ℕ → Storage → Option Bytes
build_dir_of p seq memory = none
build_dir_of p seq on_disk = some (join_path p.disk_cache (codes "build-" ++ print_decimal seq))

abbrev pub can_create : (Bytes → Bool) → Option Bytes → Bool
can_create can_write none = true
can_create can_write (some d) = can_write d

-- The root is `none` if it is no directory or cannot be read. `seq` is the next number of `BUILD_SEQ`.
-- The walk starts with an empty cache, an empty snapshot directory and the bytes charged so far.
unfoldable pub build_cache :
    (Bytes → ℕ → Bytes)
    → (Bytes → ℕ → Bytes)
    → (Bytes → Bool)
    → ℕ
    → Option Entries
    → ℕ
    → BuildPolicy
    → Option Walk
build_cache gzip_compress brotli_compress can_write seq none total p = none
build_cache gzip_compress brotli_compress can_write seq (some entries) total p =
    let build_dir = build_dir_of p seq p.storage in
    if not (can_create can_write build_dir)
    then none
    else if_walked (
        walk gzip_compress brotli_compress can_write p build_dir [] entries
          (record { map = []; total = total; files = [] }))

-- The sum of what the entries retain.
unfoldable pub cache_bytes : Table Cached → ℕ
cache_bytes [] = 0
cache_bytes ((url, c) ∷ m) = retained_bytes c + cache_bytes m
