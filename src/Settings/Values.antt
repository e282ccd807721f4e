-- ===== src/Settings/Values.antt =====
-- src/config.rs: the parsers of values.
use bare_server.Base.{
  ℕ, ◌≤◌, ◌≡◌, ◌↔◌, inl, inr, subst, ◌||◌, Option, none, some, any, arith, ltb, ◌==◌, Bytes, All,
  Bool-cases, if◌then◌else◌,
}
use bare_server.Text.{trim, parse_uint}
use bare_server.Head.Framing.{IsPrintable}
use bare_server.Redirects.Rules.{control_free}
use bare_server.Settings.{
  Parsed, ok, err, then_parsed, or_error, parse_ranged, parse_header_value, parse_size, checked_mul,
  digits_of, suffix, not_a_size, not_a_number, out_of_range, max_64, max_32,
}

in_range :
    (o : Option ℕ) (lo hi n : ℕ)
    → (then_parsed
          (or_error o not_a_number)
          (λ m. if ltb m lo || ltb hi m then err out_of_range else ok m)
        ≡ ok n)
      ↔ ((o ≡ some n) × (lo ≤ n) × (n ≤ hi))
in_range none lo hi n = ((λ h. absurd (ground arith)), (λ h. absurd (ground arith)))
in_range (some m) lo hi n = ((λ h. ground arith), (λ h. ground arith))

-- A ranged value is accepted exactly if it spells a number in the range, and that number is returned.
pub parse_ranged_iff :
    (value : Bytes) (lo hi n : ℕ)
    → (parse_ranged value lo hi ≡ ok n)
      ↔ ((parse_uint max_32 (trim value) ≡ some n) × (lo ≤ n) × (n ≤ hi))
unfolding parse_ranged
parse_ranged_iff value lo hi n = in_range (parse_uint max_32 (trim value)) lo hi n

scaled-bound :
    (o : Option ℕ) (mult : ℕ) {n : ℕ}
    → then_parsed (or_error o not_a_size) (λ m. checked_mul m mult) ≡ ok n
    → n ≤ max_64
scaled-bound none mult {n} h = absurd (ground arith)
scaled-bound (some m) mult {n} h = ground arith

-- A size does not wrap: what is accepted fits 64 bits.
pub parse_size-bound : (value : Bytes) {n : ℕ} → parse_size value ≡ ok n → n ≤ max_64
unfolding parse_size
parse_size-bound value {n} h =
    scaled-bound (parse_uint max_64 (trim (digits_of (trim value) (suffix (trim value))).0))
      (digits_of (trim value) (suffix (trim value))).1 {n = n} h

ok-injective : (v w : Bytes) → ◌≡◌ {A = Parsed Bytes} (ok v) (ok w) → v ≡ w
ok-injective v w e = ground arith

-- A header value that is accepted holds no control byte.
pub parse_header_value-IsPrintable :
    (value : Bytes) {v : Bytes} → parse_header_value value ≡ ok v → All IsPrintable v
unfolding parse_header_value
parse_header_value-IsPrintable value {v} h =
    elim (Bool-cases (any (λ b. ltb b 0x20 || b == 0x7f) (trim value))) [
      | inl e ↦ absurd (let k = rw e at h in ground arith)
      | inr e ↦
          subst (All IsPrintable) (ok-injective (trim value) v (let k = rw e at h in k))
            (control_free (trim value) e)
    ]
