-- ===== src/Tests/Signatures.antt =====
-- src/cache.rs: signatures of small trees.
use bare_server.Base.{◌≡◌, ◌≢◌, refl, false, ◌==◌, none, some, [], ◌∷◌, arith, codes}
use bare_server.Text.{starts_with, beq}
use bare_server.Cache.{fnv}
use bare_server.Cache.Walk.{is_hidden}
use bare_server.Watch.Signature.{
  file, link, special, dir, Items, nil, cons, Files, dir_signature, hash_basis, tree_signature,
  tls_signature, visits, in_turn, sort_visits, insert_visit, name_ltb, fold_files, file_signature,
}
use bare_server.Watch.Signature.Order.{swapped_pair, inside, after, dir_signature-reorder}

abbrev pages : Items
pages = cons (codes "a.html") (file 5 (some 7)) (cons (codes "b.html") (file 6 none) nil)

abbrev pages_again : Items
pages_again = cons (codes "b.html") (file 6 none) (cons (codes "a.html") (file 5 (some 7)) nil)

names_differ : codes "a.html" ≢ codes "b.html"
names_differ = ground arith

dirs_differ : codes "docs" ≢ codes "img"
dirs_differ = ground arith

abbrev site : Items
site = cons (codes "docs") (dir pages) (cons (codes "img") special nil)

abbrev site_again : Items
site_again = cons (codes "img") special (cons (codes "docs") (dir pages_again) nil)

dir_signature-reorder_example : dir_signature site hash_basis ≡ dir_signature site_again hash_basis
dir_signature-reorder_example =
    dir_signature-reorder site site_again hash_basis
      (after (inside (swapped_pair names_differ)) (swapped_pair dirs_differ))

abbrev with_hidden : Items
with_hidden = cons (codes ".git") (dir site) (cons (codes "now") link site)

-- A hidden directory and a symbolic link leave no trace.
hidden : tree_signature with_hidden ≡ tree_signature site
unfolding tree_signature dir_signature visits is_hidden fnv in_turn starts_with beq sort_visits
    insert_visit name_ltb
hidden = refl

abbrev disk : Files
disk = record { metadata = λ p. some (3, some 9); canonicalize = λ p. none; entries = λ p. nil }

-- Two sites with one certificate do not cancel each other out.
twice : (tls_signature disk (codes "c" ∷ codes "c" ∷ []) == tls_signature disk []) ≡ false
unfolding tls_signature fold_files file_signature
twice = refl
