-- ===== src/Tests/Routes.antt =====
-- Runs of `canonical_form`, `resolve` and `normalize_host`.
use bare_server.Base.{ℕ, ◌≡◌, refl, none, some, [], ◌∷◌, codes}
use bare_server.Text.{
  Table, get, strip_suffix, ends_with, trim_end_matches, trim_end, trim_start, beq,
}
use bare_server.Route.{
  canonical_form, resolve, entry, dir_index, normalize_host, resolve_dir, resolve_file, fold_index,
}
use bare_server.Route.Canonical.{IsDir, canonical_form-canonical_form}

abbrev pages : Table ℕ
pages = (codes "/index.html", 1) ∷ (codes "/about.html", 2) ∷ (codes "/blog/index.html", 3) ∷ []

hosts :
    (normalize_host (codes " Example.COM:8443 ") ≡ codes "example.com")
    × (normalize_host (codes "[::1]:443") ≡ codes "::1")
unfolding normalize_host trim_end trim_start
hosts = (refl, refl)

folds :
    (canonical_form (codes "/foo/index.html") ≡ some (codes "/foo/"))
    × (canonical_form (codes "/index.html") ≡ some (codes "/"))
    × (canonical_form (codes "/myindex.html") ≡ some (codes "/myindex/"))
    × (canonical_form (codes "/foo/") ≡ none)
unfolding canonical_form strip_suffix fold_index ends_with
folds = (refl, refl, refl, refl)

resolutions :
    (resolve pages (codes "/about") ≡ some (entry 2))
    × (resolve pages (codes "/about/") ≡ some (entry 2))
    × (resolve pages (codes "/blog") ≡ some dir_index)
    × (resolve pages (codes "/") ≡ some (entry 1))
    × (resolve pages (codes "/nope") ≡ none)
unfolding resolve resolve_dir resolve_file get beq ends_with trim_end_matches
resolutions = (refl, refl, refl, refl, refl)

canonical_form-canonical_form_example :
    IsDir (codes "/foo/") × (canonical_form (codes "/foo/") ≡ none)
canonical_form-canonical_form_example =
    canonical_form-canonical_form (codes "/foo/index.html") folds.0
