-- ===== src/Cache/Walk/Contents.antt =====
-- src/cache.rs, `walk` and `build_cache`: which files the cache holds.
use bare_server.Base.{
  ℕ, ◌+◌, ◌≤◌, ◌≡◌, ◌⊎◌, inl, inr, refl, ap, Bool, true, false, ◌&&◌, not, Option, none, some, [],
  arith, ltb, if◌then◌else◌, Bytes, Bool-cases,
}
use bare_server.Text.{Table, insert}
use bare_server.Mime.{mime_for}
use bare_server.Site.{Cached, mem, disk, DiskEntry, retained_bytes}
use bare_server.Cache.{BuildPolicy, make_cached}
use bare_server.Cache.Snapshot.{Written, make_disk_entry}
use bare_server.Cache.Walk.{
  Entries, Walk, in_memory, store, store_disk, build_entry, read_file, load_file, walk, if_walked,
  build_dir_of, can_create, build_cache,
}
use bare_server.Cache.Walk.Found.{Listed}

if_walked-eq-some : (r : Bool × Walk) {w : Walk} → if_walked r ≡ some w → r ≡ (true, w)
if_walked-eq-some (true, v) {w} h = let e : v ≡ w = ground arith in ap (λ x. (true, x)) e
if_walked-eq-some (false, v) {w} h = absurd (ground arith)

module _ (g b : Bytes → ℕ → Bytes) (c : Bytes → Bool) (p : BuildPolicy) where
  -- The entry was built from the contents, in RAM or on disk.
  abbrev pub IsBuilt : Bytes → Bytes → Cached → Type 0
  IsBuilt url content cached =
      (cached ≡ mem (make_cached g b url (mime_for url) content p))
      ⊎ ((build_dir : Bytes) × (files files' : Table Bytes) × (e : DiskEntry) × (make_disk_entry g b
              c url (mime_for url) content p build_dir files
            ≡ (some e, files'))
          × (cached ≡ disk e))

  -- What a file does to the walk: nothing, or one entry is built from it, charged and stored. In RAM the
  -- budget has room for it.
  pub data Loaded (d : Option Bytes) (url : Bytes) (size : ℕ) (read : Option Bytes) (w v : Walk)
      : Type 0 where
    kept : v.map ≡ w.map → v.total ≡ w.total → Loaded d url size read w v
    stored :
        (content : Bytes) (cached : Cached)
        → read ≡ some content
        → size ≤ p.t.max_file_size
        → IsBuilt url content cached
        → v.map ≡ insert url cached w.map
        → v.total ≡ w.total + retained_bytes cached
        → (d ≡ none → v.total ≤ p.t.max_total_bytes)
        → Loaded d url size read w v

  module _ (d : Option Bytes) (url : Bytes) (size : ℕ) (w : Walk) where
    AsLoaded : Option Bytes → Bool × Walk → Type 0
    AsLoaded read r = Loaded d url size read w r.1

    test :
        (read : Option Bytes) (t : Bool) (x y : Bool × Walk)
        → AsLoaded read x
        → (t ≡ false → AsLoaded read y)
        → AsLoaded read (if t then x else y)
    test read true x y j k = j
    test read false x y j k = k refl

    roomy :
        (o : Option Bytes) (n : ℕ)
        → (in_memory g b c p o && ltb p.t.max_total_bytes n) ≡ false
        → o ≡ none
        → n ≤ p.t.max_total_bytes
    roomy none n e f = ground arith
    roomy (some bd) n e f = absurd (ground arith)

    store-AsLoaded :
        (content : Bytes) (cached : Cached) (files : Table Bytes)
        → size ≤ p.t.max_file_size
        → IsBuilt url content cached
        → AsLoaded (some content) (store g b c p d url w cached files)
    unfolding AsLoaded
    store-AsLoaded content cached files l i =
        test (some content)
          (in_memory g b c p d && ltb p.t.max_total_bytes (w.total + retained_bytes cached)) _ _
          (kept refl refl) (λ e. stored content cached refl l i refl refl (roomy d _ e))

    store_disk-AsLoaded :
        (content : Bytes) (o : Written DiskEntry)
        → size ≤ p.t.max_file_size
        → ((e : DiskEntry) (files : Table Bytes)
            → o ≡ (some e, files)
            → IsBuilt url content (disk e))
        → AsLoaded (some content) (store_disk g b c p d url w o)
    unfolding AsLoaded
    store_disk-AsLoaded content (none, files) l i = kept refl refl
    store_disk-AsLoaded content (some e, files) l i =
        store-AsLoaded content (disk e) files l (i e files refl)

    build_entry-AsLoaded :
        (content : Bytes) (o : Option Bytes)
        → size ≤ p.t.max_file_size
        → AsLoaded (some content) (build_entry g b c p d url content w o)
    build_entry-AsLoaded content none l = store-AsLoaded content _ w.files l (inl refl)
    build_entry-AsLoaded content (some bd) l =
        store_disk-AsLoaded content (make_disk_entry g b c url (mime_for url) content p bd w.files)
          l (λ e files f. inr (bd, w.files, files, e, f, refl))

    pub load_file-Loaded :
        (read : Option Bytes) → Loaded d url size read w (load_file g b c p d url size read w).1
    unfolding load_file AsLoaded
    load_file-Loaded read = test read (ltb p.t.max_file_size size) _ _ (kept refl refl) (λ e.
        test read (in_memory g b c p d && ltb p.t.max_total_bytes (w.total + size)) _ _
          (kept refl refl) (λ f. loaded (ground arith) read))
      where
        loaded :
            size ≤ p.t.max_file_size → (o : Option Bytes) → AsLoaded o (read_file g b c p d url w o)
        loaded l none = kept refl refl
        loaded l (some content) = build_entry-AsLoaded content d l

  -- The entry was built from a listed file that is not too large.
  abbrev pub IsServed : Entries → Bytes × Cached → Type 0
  IsServed root (url, cached) =
      (size : ℕ) × (content : Bytes) × Listed [] root url size (some content)
      × (size ≤ p.t.max_file_size)
      × IsBuilt url content cached

  abbrev pub first_walk : ℕ → Walk
  first_walk total = record { map = []; total = total; files = [] }

  pub build_cache-walk :
      (seq total : ℕ) (root : Entries) {w : Walk}
      → build_cache g b c seq (some root) total p ≡ some w
      → walk g b c p (build_dir_of p seq p.storage) [] root (first_walk total) ≡ (true, w)
  unfolding build_cache
  build_cache-walk seq total root {w} h =
      elim (Bool-cases (not (can_create c (build_dir_of p seq p.storage)))) [
        | inl e ↦ absurd (let k = rw e at h in ground arith)
        | inr e ↦
            if_walked-eq-some
              (walk g b c p (build_dir_of p seq p.storage) [] root (first_walk total))
              (let k = rw e at h in k)
      ]
