-- ===== src/Route/Lookup.antt =====
-- src/main.rs: `resolve` on the paths that `canonical_form` makes.
use bare_server.Base.{
  is_nil, ℕ, ◌≡◌, ◌≢◌, refl, ap, ◌∙◌, false, Option, none, some, [], ◌∷◌, ◌++◌, reverse,
  reverse-append, reverse-reverse, append_assoc, arith, Bytes, codes, Option-cases, inl, inr,
}
use bare_server.Text.{get, Table, ends_with-append, trim_end_matches, trim_start_matches}
use bare_server.Route.{entry, resolve, resolve_dir}
use bare_server.Route.Canonical.{
  first_or_zero, first_or_zero-cons, last_or_zero-first, last_or_zero,
}

-- A file stem: not empty, and with no slash at its end.
abbrev pub IsStem : Bytes → Type 0
IsStem s = (s ≢ []) × (last_or_zero s ≢ b'/')

abbrev pub get_or {ℓ} : {V : Type ℓ} → Option V → V → V
get_or none d = d
get_or (some v) d = v

trim_start_matches-stop : (c : ℕ) (s : Bytes) → first_or_zero s ≢ c → trim_start_matches c s ≡ s
unfolding trim_start_matches
trim_start_matches-stop c [] h = refl
trim_start_matches-stop c (x ∷ s) h =
    let n : x ≢ c = λ e. h (first_or_zero-cons x s ∙ e) in ground arith

first_or_zero-reverse : (s : Bytes) → last_or_zero s ≢ b'/' → first_or_zero (reverse s) ≢ b'/'
first_or_zero-reverse s h = λ e. h (last_or_zero-first s ∙ e)

trim_slash :
    (stem : Bytes) → last_or_zero stem ≢ b'/' → trim_end_matches b'/' (stem ++ codes "/") ≡ stem
unfolding trim_end_matches
trim_slash stem h =
    ap (λ r. reverse (trim_start_matches b'/' r)) (reverse-append stem (codes "/"))
    ∙ ap reverse (trim_start_matches-stop b'/' (reverse stem) (first_or_zero-reverse stem h))
    ∙ reverse-reverse stem

is_nil-eq-false : (s : Bytes) → s ≢ [] → is_nil s ≡ false
is_nil-eq-false [] h = absurd (h refl)
is_nil-eq-false (c ∷ s) h = refl

module _ {ℓ} {V : Type ℓ} (cache : Table V) where
  resolve-slash : (q : Bytes) → resolve cache (q ++ codes "/") ≡ resolve_dir cache (q ++ codes "/")
  unfolding resolve
  resolve-slash q = rw (ends_with-append q (codes "/"))

  get-index :
      (q : Bytes)
      → get ((q ++ codes "/") ++ codes "index.html") cache ≡ get (q ++ codes "/index.html") cache
  get-index q = ap (λ k. get k cache) (append_assoc q (codes "/") (codes "index.html"))

  pub resolve-index :
      (q : Bytes) (v : V)
      → get (q ++ codes "/index.html") cache ≡ some v
      → resolve cache (q ++ codes "/") ≡ some (entry v)
  unfolding resolve_dir
  resolve-index q v e = resolve-slash q ∙ rw (get-index q, e)

  pub resolve-html :
      (stem : Bytes) (v : V)
      → IsStem stem
      → get (stem ++ codes ".html") cache ≡ some v
      → resolve cache (stem ++ codes "/")
        ≡ some (entry (get_or (get (stem ++ codes "/index.html") cache) v))
  unfolding resolve_dir
  resolve-html stem v s e =
      resolve-slash stem ∙ elim (Option-cases (get (stem ++ codes "/index.html") cache)) [
        | inl n ↦ rw (get-index stem, n, trim_slash stem s.1, is_nil-eq-false stem s.0, e)
        | inr (w, n) ↦ rw (get-index stem, n)
      ]
