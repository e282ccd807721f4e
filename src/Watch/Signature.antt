-- ===== src/Watch/Signature.antt =====
-- src/cache.rs, `dir_signature`, `file_signature`, `tree_signature`, `tls_paths`, `tls_signature`,
-- `root_links`, `root_links_of`, `sample`: what the watcher compares. A directory is the list of its entries in the order that
-- `read_dir` gives them; a modification time is in nanoseconds since the epoch, `none` where it is before it
-- or unknown.
pub mod Order
use bare_server.Base.{
  ℕ, ◌*◌, ◌%◌, ◌^◌, Bool, true, false, ◌&&◌, ◌||◌, Option, none, some, List, [], ◌∷◌, ltb, ◌==◌,
  arith, if◌then◌else◌, Bytes,
}
use Prim.Native.Nat.{bit_xor}
use bare_server.Text.{Table, get, insert}
use bare_server.Config.{Config, SiteConfig, Outcome, accepted, rejected}
use bare_server.Config.Result.{load_config}
use bare_server.Cache.{fnv}
use bare_server.Cache.Walk.{is_hidden}
use bare_server.Watch.{Links, Sampled}

-- What an entry is: `absent` has no metadata that can be read, `special` is neither a file nor a directory, a
-- file has its length and its modification time.
mutual
  pub data Node : Type 0 where
    absent : Node
    link : Node
    special : Node
    file : ℕ → Option ℕ → Node
    unreadable_dir : Node
    dir : Items → Node

  pub data Items : Type 0 where
    nil : Items
    cons : Bytes → Node → Items → Items

-- `*hash ^= x; *hash = hash.wrapping_mul(0x100000001b3);`
abbrev pub mix : ℕ → ℕ → ℕ
mix h x = (bit_xor h x * 0x100000001b3) % 2 ^ 64

-- The time as a `u64`, or 0.
abbrev pub nanos : Option ℕ → ℕ
nanos none = 0
nanos (some t) = t % 2 ^ 64

-- The order of two file names.
unfoldable pub name_ltb : Bytes → Bytes → Bool
name_ltb [] [] = false
name_ltb [] (b ∷ y) = true
name_ltb (a ∷ x) [] = false
name_ltb (a ∷ x) (b ∷ y) = ltb a b || (a == b && name_ltb x y)

-- An entry under its name, as the change of the hash that it makes.
abbrev pub Change : Type 0
Change = Bytes × (ℕ → ℕ)

unfoldable pub insert_visit : Change → List Change → List Change
insert_visit v [] = v ∷ []
insert_visit v (w ∷ ws) = if name_ltb w.0 v.0 then w ∷ insert_visit v ws else v ∷ (w ∷ ws)

-- `list.sort_by_key(|e| e.file_name())`
unfoldable pub sort_visits : List Change → List Change
sort_visits [] = []
sort_visits (v ∷ vs) = insert_visit v (sort_visits vs)

unfoldable pub in_turn : List Change → ℕ → ℕ
in_turn [] h = h
in_turn (v ∷ vs) h = in_turn vs (v.1 h)

-- The body of the loop behind the test for a hidden name.
unfoldable mutual
  pub visit : Bytes → Node → ℕ → ℕ
  visit name absent h = h
  visit name link h = h
  visit name special h = fnv h name
  visit name (file len mtime) h = mix (mix (fnv h name) len) (nanos mtime)
  visit name unreadable_dir h = fnv h name
  visit name (dir items) h = in_turn (sort_visits (visits items)) (fnv h name)

  pub visits : Items → List Change
  visits nil = []
  visits (cons name node rest) =
      (name, λ h. if is_hidden name then h else visit name node h) ∷ visits rest

-- A directory that cannot be read has no entries.
unfoldable pub dir_signature : Items → ℕ → ℕ
dir_signature items h = in_turn (sort_visits (visits items)) h

abbrev pub hash_basis : ℕ
hash_basis = 0xcbf29ce484222325

unfoldable pub tree_signature : Items → ℕ
tree_signature root = dir_signature root hash_basis

-- The file system: the length and the time of a file, what a path resolves to, and the entries of a root.
pub record Files : Type 0 where
  pub metadata : Bytes → Option (ℕ × Option ℕ)
  pub canonicalize : Bytes → Option Bytes
  pub entries : Bytes → Items

abbrev pub metadata_signature : Option (ℕ × Option ℕ) → ℕ
metadata_signature none = hash_basis
metadata_signature (some (len, mtime)) = mix (mix hash_basis len) (nanos mtime)

unfoldable pub file_signature : Files → Bytes → ℕ
file_signature fs path = metadata_signature (fs.metadata path)

abbrev pub pairs_of : List SiteConfig → List Bytes
pairs_of [] = []
pairs_of (s ∷ sites) = s.cert ∷ s.key ∷ pairs_of sites

unfoldable pub tls_paths : Config → List Bytes
tls_paths cfg = pairs_of cfg.sites

unfoldable pub fold_files : Files → List Bytes → ℕ → ℕ
fold_files fs [] h = h
fold_files fs (p ∷ paths) h = fold_files fs paths (mix h (file_signature fs p))

unfoldable pub tls_signature : Files → List Bytes → ℕ
tls_signature fs paths = fold_files fs paths hash_basis

-- `fs::canonicalize(s).unwrap_or_else(|_| PathBuf::from(s))`
abbrev pub resolved : Bytes → Option Bytes → Bytes
resolved path none = path
resolved path (some target) = target

-- The roots that the sites have.
abbrev pub and_root : Option Bytes → List Bytes → List Bytes
and_root none roots = roots
and_root (some r) roots = r ∷ roots

unfoldable pub roots_of : List SiteConfig → List Bytes
roots_of [] = []
roots_of (s ∷ sites) = and_root s.root (roots_of sites)

abbrev pub links_of : Files → List Bytes → Links
links_of fs [] = []
links_of fs (r ∷ roots) = (r, resolved r (fs.canonicalize r)) ∷ links_of fs roots

unfoldable pub root_links : Files → Config → Links
root_links fs cfg = links_of fs (roots_of cfg.sites)

abbrev links_if : Files → Outcome Config → Option Links
links_if fs (rejected e) = none
links_if fs (accepted cfg) = some (root_links fs cfg)

-- On the text of the file, `none` if it cannot be read.
unfoldable pub root_links_of : Files → Option Bytes → Option Links
root_links_of fs text = links_if fs (load_config text)

-- `trees.entry(root).or_insert_with(|| tree_signature(&root))`
abbrev pub or_insert : Bytes → ℕ → Option ℕ → Table ℕ → Table ℕ
or_insert root sig none trees = insert root sig trees
or_insert root sig (some known) trees = trees

unfoldable pub sample_trees : Files → Links → Table ℕ → Table ℕ
sample_trees fs [] trees = trees
sample_trees fs ((r, root) ∷ links) trees =
    sample_trees fs links (or_insert root (tree_signature (fs.entries root)) (get root trees) trees)

unfoldable pub sample : Files → Bytes → Config → Sampled
sample fs config_path cfg = record {
  config = file_signature fs config_path;
  tls_files = tls_paths cfg;
  tls = tls_signature fs (tls_paths cfg);
  trees = sample_trees fs (root_links fs cfg) [];
  links = root_links fs cfg;
}
