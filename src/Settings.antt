-- ===== src/Settings.antt =====
-- src/config.rs: the settings a site may override (`Tuning`, `HeaderConfig`), the parsers of their values
-- (`parse_size`, `parse_bool`, `parse_ranged`, `parse_secs`, `parse_deadline_secs`, `parse_count`,
-- `parse_header_value`) and `apply_shared`. An error is a constructor for each message; the key and the
-- value that a message quotes are left out.
pub mod Values
pub mod Headers
pub mod Shape
use bare_server.Base.{
  is_nil, ℕ, ◌+◌, ◌-◌, ◌*◌, ◌^◌, Bool, true, false, ◌&&◌, ◌||◌, not, Option, none, some, List, [],
  ◌∷◌, ◌++◌, length, take, reverse, any, arith, ◌==◌, leb, ltb, if◌then◌else◌, Bytes, codes,
}
use bare_server.Text.{beq, trim, to_ascii_lowercase, parse_uint, print_decimal}
use bare_server.Response.{crlf}

pub data ValueError : Type 0 where
  not_a_size size_overflows not_a_bool not_a_number out_of_range : ValueError
  not_seconds too_many_seconds not_a_count control_character : ValueError

pub data Parsed {ℓ} (A : Type ℓ) : Type ℓ where
  ok : A → Parsed A
  err : ValueError → Parsed A

abbrev pub then_parsed {ℓ κ} : {A : Type ℓ} {B : Type κ} → Parsed A → (A → Parsed B) → Parsed B
then_parsed (ok a) f = f a
then_parsed (err e) f = err e

abbrev pub or_error {ℓ} : {A : Type ℓ} → Option A → ValueError → Parsed A
or_error (some a) e = ok a
or_error none e = err e

-- The largest `usize` and `u64`, on a 64-bit machine, and the largest `u32`.
abbrev pub max_64 : ℕ
max_64 = 18446744073709551615

abbrev pub max_32 : ℕ
max_32 = 4294967295

abbrev first_suffix : Bytes → Option ℕ
first_suffix [] = none
first_suffix (c ∷ s) =
    if c == b'k' || c == b'K'
    then some 1024
    else if c == b'm' || c == b'M'
    then some 1048576
    else if c == b'g' || c == b'G'
    then some 1073741824
    else none

-- The multiplier that the last byte stands for.
unfoldable pub suffix : Bytes → Option ℕ
suffix v = first_suffix (reverse v)

abbrev pub digits_of : Bytes → Option ℕ → Bytes × ℕ
digits_of v none = (v, 1)
digits_of v (some mult) = (take (length v - 1) v, mult)

-- `checked_mul`
abbrev pub checked_mul : ℕ → ℕ → Parsed ℕ
checked_mul n mult = if leb (n * mult) max_64 then ok (n * mult) else err size_overflows

abbrev pub scaled : Bytes × ℕ → Parsed ℕ
scaled (digits, mult) =
    then_parsed (or_error (parse_uint max_64 (trim digits)) not_a_size) (λ n. checked_mul n mult)

unfoldable pub parse_size : Bytes → Parsed ℕ
parse_size value = let v = trim value in scaled (digits_of v (suffix v))

unfoldable pub parse_bool : Bytes → Parsed Bool
parse_bool value =
    let v = to_ascii_lowercase (trim value) in
    if beq v (codes "on") || beq v (codes "true") || beq v (codes "yes") || beq v (codes "1")
    then ok true
    else if beq v (codes "off") || beq v (codes "false") || beq v (codes "no") || beq v (codes "0")
    then ok false
    else err not_a_bool

unfoldable pub parse_ranged : Bytes → ℕ → ℕ → Parsed ℕ
parse_ranged value lo hi =
    then_parsed (or_error (parse_uint max_32 (trim value)) not_a_number)
      (λ n. if ltb n lo || ltb hi n then err out_of_range else ok n)

unfoldable pub parse_secs : Bytes → Parsed ℕ
parse_secs value = or_error (parse_uint max_64 (trim value)) not_seconds

abbrev pub max_secs : ℕ
max_secs = 86400

unfoldable pub parse_deadline_secs : Bytes → Parsed ℕ
parse_deadline_secs value =
    then_parsed (parse_secs value) (λ n. if ltb max_secs n then err too_many_seconds else ok n)

unfoldable pub parse_count : Bytes → Parsed ℕ
parse_count value = or_error (parse_uint max_64 (trim value)) not_a_count

unfoldable pub parse_header_value : Bytes → Parsed Bytes
parse_header_value value =
    let v = trim value in
    if any (λ b. ltb b 0x20 || b == 0x7f) v then err control_character else ok v

pub record Tuning : Type 0 where
  pub compression : Bool
  pub brotli_quality : ℕ
  pub gzip_level : ℕ
  pub min_compress_bytes : ℕ
  pub max_brotli_bytes : ℕ
  pub max_gzip_bytes : ℕ
  pub max_file_size : ℕ
  pub max_total_bytes : ℕ
  pub cache_max_age : ℕ
  pub immutable_max_age : ℕ

-- `Default for Tuning`
abbrev pub default_tuning : Tuning
default_tuning = record {
  compression = true;
  brotli_quality = 11;
  gzip_level = 9;
  min_compress_bytes = 64;
  max_brotli_bytes = 8388608;
  max_gzip_bytes = 67108864;
  max_file_size = 268435456;
  max_total_bytes = 2147483648;
  cache_max_age = 0;
  immutable_max_age = 31536000;
}

pub record HeaderConfig : Type 0 where
  pub hsts_max_age : ℕ
  pub hsts_include_subdomains : Bool
  pub hsts_preload : Bool
  pub csp : Bytes

-- `Default for HeaderConfig`
abbrev pub default_headers : HeaderConfig
default_headers = record {
  hsts_max_age = 63072000;
  hsts_include_subdomains = true;
  hsts_preload = true;
  csp = [];
}

abbrev pub hsts_value : HeaderConfig → Bytes
hsts_value h =
    print_decimal h.hsts_max_age
    ++ ((if h.hsts_include_subdomains then codes "; includeSubDomains" else [])
        ++ (if h.hsts_preload then codes "; preload" else []))

abbrev pub hsts_line : HeaderConfig → Bytes
hsts_line h =
    if ltb 0 h.hsts_max_age
    then codes "Strict-Transport-Security: max-age=" ++ (hsts_value h ++ crlf)
    else []

abbrev pub csp_line : HeaderConfig → Bytes
csp_line h = if not (is_nil h.csp) then codes "Content-Security-Policy: " ++ (h.csp ++ crlf) else []

-- `HeaderConfig::render`
unfoldable pub render : HeaderConfig → Bytes
render h =
    codes "X-Content-Type-Options: nosniff\r\n"
    ++ (codes "X-Frame-Options: SAMEORIGIN\r\n"
        ++ (codes "Referrer-Policy: strict-origin-when-cross-origin\r\n"
            ++ (codes "Permissions-Policy: camera=(), microphone=(), geolocation=()\r\n"
                ++ (hsts_line h ++ csp_line h))))

-- What a setting does to the two records; `Ok(false)` is `unowned`.
pub data Applied : Type 0 where
  applied : Tuning → HeaderConfig → Applied
  unowned : Applied
  failed : ValueError → Applied

abbrev pub set_with {ℓ} : {A : Type ℓ} → Parsed A → (A → Applied) → Applied
set_with (ok a) f = f a
set_with (err e) f = failed e

unfoldable pub apply_shared : Tuning → HeaderConfig → Bytes → Bytes → Applied
apply_shared t h k v =
    if beq k (codes "compression")
    then set_with (parse_bool v) (λ b. applied (record t { compression = b }) h)
    else if beq k (codes "brotli_quality")
    then set_with (parse_ranged v 0 11) (λ n. applied (record t { brotli_quality = n }) h)
    else if beq k (codes "gzip_level")
    then set_with (parse_ranged v 0 9) (λ n. applied (record t { gzip_level = n }) h)
    else if beq k (codes "min_compress_bytes")
    then set_with (parse_size v) (λ n. applied (record t { min_compress_bytes = n }) h)
    else if beq k (codes "max_brotli_bytes")
    then set_with (parse_size v) (λ n. applied (record t { max_brotli_bytes = n }) h)
    else if beq k (codes "max_gzip_bytes")
    then set_with (parse_size v) (λ n. applied (record t { max_gzip_bytes = n }) h)
    else if beq k (codes "max_file_size")
    then set_with (parse_size v) (λ n. applied (record t { max_file_size = n }) h)
    else if beq k (codes "cache_max_age")
    then set_with (parse_secs v) (λ n. applied (record t { cache_max_age = n }) h)
    else if beq k (codes "immutable_max_age")
    then set_with (parse_secs v) (λ n. applied (record t { immutable_max_age = n }) h)
    else if beq k (codes "hsts_max_age")
    then set_with (parse_secs v) (λ n. applied t (record h { hsts_max_age = n }))
    else if beq k (codes "hsts_include_subdomains")
    then set_with (parse_bool v) (λ b. applied t (record h { hsts_include_subdomains = b }))
    else if beq k (codes "hsts_preload")
    then set_with (parse_bool v) (λ b. applied t (record h { hsts_preload = b }))
    else if beq k (codes "csp")
    then set_with (parse_header_value v) (λ s. applied t (record h { csp = s }))
    else unowned
