-- ===== src/Settings/Shape.antt =====
-- src/config.rs, `apply_shared`: what it decides from the key and the value alone.
use bare_server.Base.{◌≡◌, refl, Bool, true, false, arith, Bytes, codes, if◌then◌else◌}
use bare_server.Text.{beq}
use bare_server.Settings.{
  Parsed, ok, err, Tuning, HeaderConfig, Applied, applied, unowned, failed, set_with, apply_shared,
  parse_bool, parse_ranged, parse_size, parse_secs, parse_header_value,
}

-- Both are applied, or both unowned, or both fail in the same way.
abbrev pub SameShape : Applied → Applied → Type 0
SameShape (applied t h) (applied t' h') = Unit
SameShape unowned unowned = Unit
SameShape (failed e) (failed e') = e ≡ e'
SameShape (applied t h) unowned = ⊥
SameShape (applied t h) (failed e) = ⊥
SameShape unowned (applied t h) = ⊥
SameShape unowned (failed e) = ⊥
SameShape (failed e) (applied t h) = ⊥
SameShape (failed e) unowned = ⊥

test :
    (b : Bool) (x x' y y' : Applied)
    → SameShape x x'
    → SameShape y y'
    → SameShape (if b then x else y) (if b then x' else y')
test true x x' y y' h k = h
test false x x' y y' h k = k

set_with-SameShape {ℓ} :
    {A : Type ℓ} (p : Parsed A) (f g : A → Applied)
    → ((a : A) → SameShape (f a) (g a))
    → SameShape (set_with p f) (set_with p g)
set_with-SameShape (ok a) f g h = h a
set_with-SameShape (err e) f g h = refl

module _ (t t' : Tuning) (h h' : HeaderConfig) where
  -- The settings that `apply_shared` is given change neither whether it owns the key nor whether the value
  -- is refused.
  pub apply_shared-SameShape :
      (k v : Bytes) → SameShape (apply_shared t h k v) (apply_shared t' h' k v)
  unfolding apply_shared
  apply_shared-SameShape k v =
      test (beq k (codes "compression")) _ _ _ _ (set_with-SameShape (parse_bool v) _ _ (λ a. tt)) (
        test (beq k (codes "brotli_quality")) _ _ _ _
          (set_with-SameShape (parse_ranged v 0 11) _ _ (λ a. tt))
          (test (beq k (codes "gzip_level")) _ _ _ _
            (set_with-SameShape (parse_ranged v 0 9) _ _ (λ a. tt))
            (test (beq k (codes "min_compress_bytes")) _ _ _ _
              (set_with-SameShape (parse_size v) _ _ (λ a. tt))
              (test (beq k (codes "max_brotli_bytes")) _ _ _ _
                (set_with-SameShape (parse_size v) _ _ (λ a. tt))
                (test (beq k (codes "max_gzip_bytes")) _ _ _ _
                  (set_with-SameShape (parse_size v) _ _ (λ a. tt))
                  (test (beq k (codes "max_file_size")) _ _ _ _
                    (set_with-SameShape (parse_size v) _ _ (λ a. tt))
                    (test (beq k (codes "cache_max_age")) _ _ _ _
                      (set_with-SameShape (parse_secs v) _ _ (λ a. tt))
                      (test (beq k (codes "immutable_max_age")) _ _ _ _
                        (set_with-SameShape (parse_secs v) _ _ (λ a. tt))
                        (test (beq k (codes "hsts_max_age")) _ _ _ _
                          (set_with-SameShape (parse_secs v) _ _ (λ a. tt))
                          (test (beq k (codes "hsts_include_subdomains")) _ _ _ _
                            (set_with-SameShape (parse_bool v) _ _ (λ a. tt))
                            (test (beq k (codes "hsts_preload")) _ _ _ _
                              (set_with-SameShape (parse_bool v) _ _ (λ a. tt))
                              (test (beq k (codes "csp")) _ _ _ _
                                (set_with-SameShape (parse_header_value v) _ _ (λ a. tt))
                                tt))))))))))))

same-applied :
    (x y : Applied) {t : Tuning} {h : HeaderConfig}
    → x ≡ applied t h
    → SameShape x y
    → (t' : Tuning) × (h' : HeaderConfig) × (y ≡ applied t' h')
same-applied (applied t h) (applied t' h') e s = (t', h', refl)
same-applied (applied t h) unowned e s = elim s [ ]
same-applied (applied t h) (failed f) e s = elim s [ ]
same-applied unowned y e s = absurd (ground arith)
same-applied (failed f) y e s = absurd (ground arith)

-- A setting that is applied once is applied whatever the settings are.
pub apply_shared-again :
    (t t' : Tuning) (h h' : HeaderConfig) (k v : Bytes) {u : Tuning} {g : HeaderConfig}
    → apply_shared t h k v ≡ applied u g
    → (u' : Tuning) × (g' : HeaderConfig) × (apply_shared t' h' k v ≡ applied u' g')
apply_shared-again t t' h h' k v e = same-applied _ _ e (apply_shared-SameShape t t' h h' k v)
