-- ===== src/Settings/Headers.antt =====
-- src/config.rs, `apply_shared` and `HeaderConfig::render`: valid settings, and their header block.
use bare_server.Base.{
  ◌≤◌, ◌≡◌, refl, sym, subst, Bool, true, false, arith, Bytes, codes, All, if◌then◌else◌,
}
use bare_server.Text.{beq}
use bare_server.Head.Framing.{IsPrintable}
use bare_server.Settings.{
  Parsed, ok, err, Tuning, HeaderConfig, Applied, applied, unowned, failed, set_with, apply_shared,
  parse_bool, parse_ranged, parse_size, parse_secs, parse_header_value,
}
use bare_server.Settings.Values.{parse_ranged_iff, parse_header_value-IsPrintable}

-- The settings that the compressors and the header block rely on.
pub record IsValid (t : Tuning) (h : HeaderConfig) : Type 0 where
  pub brotli : t.brotli_quality ≤ 11
  pub gzip : t.gzip_level ≤ 9
  pub policy : All IsPrintable h.csp

abbrev IsValidApplied : Applied → Type 0
IsValidApplied (applied t h) = IsValid t h
IsValidApplied unowned = Unit
IsValidApplied (failed e) = Unit

test :
    (b : Bool) (x y : Applied)
    → IsValidApplied x
    → IsValidApplied y
    → IsValidApplied (if b then x else y)
test true x y h k = h
test false x y h k = k

set-valid {ℓ} :
    {A : Type ℓ} (p : Parsed A) (f : A → Applied)
    → ((a : A) → p ≡ ok a → IsValidApplied (f a))
    → IsValidApplied (set_with p f)
set-valid (ok a) f h = h a refl
set-valid (err e) f h = tt

set-any {ℓ} :
    {A : Type ℓ} (p : Parsed A) (f : A → Applied)
    → ((a : A) → IsValidApplied (f a))
    → IsValidApplied (set_with p f)
set-any p f h = set-valid p f (λ a e. h a)

-- Settings that agree with valid ones where it matters.
like :
    {t t' : Tuning} {h h' : HeaderConfig}
    → IsValid t h
    → t'.brotli_quality ≡ t.brotli_quality
    → t'.gzip_level ≡ t.gzip_level
    → h'.csp ≡ h.csp
    → IsValid t' h'
like w b g c = record {
  brotli = omega (arith, b, w.brotli);
  gzip = omega (arith, g, w.gzip);
  policy = subst (All IsPrintable) (sym c) w.policy;
}

apply_shared-IsValidApplied :
    (t : Tuning) (h : HeaderConfig) (k v : Bytes)
    → IsValid t h
    → IsValidApplied (apply_shared t h k v)
unfolding apply_shared
apply_shared-IsValidApplied t h k v w =
    test (beq k (codes "compression")) _ _ (set-any (parse_bool v) _ (λ a. like w refl refl refl)) (
      test (beq k (codes "brotli_quality")) _ _
        (set-valid (parse_ranged v 0 11) _ (λ n e. record {
          brotli = ((parse_ranged_iff v 0 11 n).0 e).2;
          gzip = w.gzip;
          policy = w.policy;
        }))
        (test (beq k (codes "gzip_level")) _ _
          (set-valid (parse_ranged v 0 9) _ (λ n e. record {
            brotli = w.brotli;
            gzip = ((parse_ranged_iff v 0 9 n).0 e).2;
            policy = w.policy;
          }))
          (test (beq k (codes "min_compress_bytes")) _ _
            (set-any (parse_size v) _ (λ a. like w refl refl refl))
            (test (beq k (codes "max_brotli_bytes")) _ _
              (set-any (parse_size v) _ (λ a. like w refl refl refl))
              (test (beq k (codes "max_gzip_bytes")) _ _
                (set-any (parse_size v) _ (λ a. like w refl refl refl))
                (test (beq k (codes "max_file_size")) _ _
                  (set-any (parse_size v) _ (λ a. like w refl refl refl))
                  (test (beq k (codes "cache_max_age")) _ _
                    (set-any (parse_secs v) _ (λ a. like w refl refl refl))
                    (test (beq k (codes "immutable_max_age")) _ _
                      (set-any (parse_secs v) _ (λ a. like w refl refl refl))
                      (test (beq k (codes "hsts_max_age")) _ _
                        (set-any (parse_secs v) _ (λ a. like w refl refl refl))
                        (test (beq k (codes "hsts_include_subdomains")) _ _
                          (set-any (parse_bool v) _ (λ a. like w refl refl refl))
                          (test (beq k (codes "hsts_preload")) _ _
                            (set-any (parse_bool v) _ (λ a. like w refl refl refl))
                            (test (beq k (codes "csp")) _ _
                              (set-valid (parse_header_value v) _ (λ s e. record {
                                brotli = w.brotli;
                                gzip = w.gzip;
                                policy = parse_header_value-IsPrintable v e;
                              }))
                              tt))))))))))))

-- Every setting that `apply_shared` accepts leaves the levels in the range of their compressors and the
-- content policy printable.
pub apply_shared-IsValid :
    (t : Tuning) (h : HeaderConfig) (k v : Bytes) {t' : Tuning} {h' : HeaderConfig}
    → IsValid t h
    → apply_shared t h k v ≡ applied t' h'
    → IsValid t' h'
apply_shared-IsValid t h k v w e = subst IsValidApplied e (apply_shared-IsValidApplied t h k v w)
