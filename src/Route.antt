-- ===== src/Route.antt =====
-- src/main.rs: how a request names a document. `normalize_host`, `canonical_form`, `Resolved` and
-- `resolve`.
pub mod Canonical
pub mod Lookup
use bare_server.Base.{
  is_nil, Bool, true, false, ◌||◌, Option, none, some, [], ◌∷◌, ◌++◌, arith, if◌then◌else◌, Bytes,
  codes, ◌>>=◌,
}
use bare_server.Text.{
  strip_prefix, strip_suffix, ends_with, trim, before, to_ascii_lowercase, trim_end_matches, Table,
  get,
}

-- The name in brackets, or the part before the port.
unfoldable pub host_base : Bytes → Option Bytes → Bytes
host_base h (some rest) = before b']' rest
host_base h none = before b':' h

unfoldable pub normalize_host : Bytes → Bytes
unfolding trim strip_prefix host_base before to_ascii_lowercase
normalize_host h = let t = trim h in to_ascii_lowercase (host_base t (strip_prefix (codes "[") t))

-- Only an `index` that is the whole last segment counts.
unfoldable pub fold_index : Bytes → Option Bytes → Bytes
unfolding ends_with
fold_index stem none = stem ++ codes "/"
fold_index stem (some dir) =
    if is_nil dir || ends_with (codes "/") dir then dir else stem ++ codes "/"

unfoldable pub canonical_form : Bytes → Option Bytes
canonical_form path = do
  stem ← strip_suffix (codes ".html") path
  some (fold_index stem (strip_suffix (codes "index") stem))

pub data Resolved {ℓ} (V : Type ℓ) : Type ℓ where
  entry : V → Resolved V
  dir_index : Resolved V

module _ {ℓ} {V : Type ℓ} where
  abbrev pub or_try : Option (Resolved V) → Option (Resolved V) → Option (Resolved V)
  or_try (some r) next = some r
  or_try none next = next

  abbrev pub as_entry : Option V → Option (Resolved V)
  as_entry none = none
  as_entry (some v) = some (entry v)

  abbrev pub as_dir_index : Option V → Option (Resolved V)
  as_dir_index none = none
  as_dir_index (some v) = some dir_index

  -- A path with a slash at its end, then any other.
  unfoldable pub resolve_dir : Table V → Bytes → Option (Resolved V)
  resolve_dir cache decoded =
      let trimmed = trim_end_matches b'/' decoded in
      or_try (as_entry (get (decoded ++ codes "index.html") cache))
        (if is_nil trimmed then none else as_entry (get (trimmed ++ codes ".html") cache))

  unfoldable pub resolve_file : Table V → Bytes → Option (Resolved V)
  resolve_file cache decoded = or_try (as_entry (get decoded cache)) (
      or_try (as_entry (get (decoded ++ codes ".html") cache))
        (as_dir_index (get (decoded ++ codes "/index.html") cache)))

  unfoldable pub resolve : Table V → Bytes → Option (Resolved V)
  resolve cache decoded =
      if ends_with (codes "/") decoded
      then resolve_dir cache decoded
      else resolve_file cache decoded
