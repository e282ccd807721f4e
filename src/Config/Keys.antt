-- ===== src/Config/Keys.antt =====
-- src/config.rs, `parse_config`: the `key = value` lines, inside a site block and at the top level
-- (`server_only_reason`, `is_site_only`).
use bare_server.Base.{
  is_nil, ℕ, Bool, ◌||◌, Option, none, some, [], ◌∷◌, ◌++◌, if◌then◌else◌, Bytes, codes,
}
use bare_server.Text.{beq, trim, to_ascii_lowercase, rsplit_once}
use bare_server.Settings.{
  Parsed, ok, err, Applied, applied, unowned, failed, apply_shared, parse_bool, parse_size,
  parse_count, parse_deadline_secs,
}
use bare_server.Config.{
  memory, on_disk, LineError, bad_value, server_only, unknown_setting, unknown_key, belongs_inside,
  listen_no_colon, listen_empty, listen_http_no_colon, listen_http_empty, bad_storage, at, Outcome,
  accepted, rejected, PendingSite, Reading,
}

unfoldable pub server_only_reason : Bytes → Option Bytes
server_only_reason k =
    if beq k (codes "listen") || beq k (codes "listen_http")
    then some (codes "the listeners are process-wide")
    else if beq k (codes "max_total_bytes")
    then some (codes "the cache budget is one pool shared by every site")
    else if beq k (codes "storage") || beq k (codes "disk_cache")
    then some (codes "the storage backend is process-wide")
    else if beq k (codes "max_conns_per_ip") || beq k (codes "max_response_secs")
    then some (codes "connection limits are enforced per listener, before the Host is known")
    else none

unfoldable pub is_site_only : Bytes → Bool
is_site_only k =
    beq k (codes "root")
    || beq k (codes "cert")
    || beq k (codes "key")
    || beq k (codes "force_ssl")
    || beq k (codes "canonical_urls")
    || beq k (codes "redirect")

-- `parse(k, v).map_err(|e| at(n, e))?`
abbrev pub value_at {ℓ κ} : {A : Type ℓ} {B : Type κ} → ℕ → Parsed A → (A → Outcome B) → Outcome B
value_at n (ok a) f = f a
value_at n (err e) f = rejected (at n (bad_value e))

abbrev pub in_block : Reading → PendingSite → Outcome Reading
in_block s p = accepted (record s { cur = some p })

-- The setting is tried on copies of the defaults, and kept for the end of the file.
abbrev pub override_at : ℕ → Bytes → Bytes → Reading → PendingSite → Applied → Outcome Reading
override_at n k v s p (failed e) = rejected (at n (bad_value e))
override_at n k v s p unowned = rejected (at n unknown_setting)
override_at n k v s p (applied t h) =
    in_block s
      (record p { overrides = p.overrides ++ (record { line_no = n; name = k; value = v } ∷ []) })

abbrev pub tunable : ℕ → Bytes → Bytes → Reading → PendingSite → Option Bytes → Outcome Reading
tunable n k v s p (some why) = rejected (at n (server_only why))
tunable n k v s p none = override_at n k v s p (apply_shared s.tuning s.headers k v)

-- The `match k` of a line inside a block.
unfoldable pub site_setting : ℕ → Bytes → Bytes → Reading → PendingSite → Outcome Reading
site_setting n k v s p =
    if beq k (codes "root")
    then in_block s (record p { root = some v })
    else if beq k (codes "cert")
    then in_block s (record p { cert = some v })
    else if beq k (codes "key")
    then in_block s (record p { key = some v })
    else if beq k (codes "force_ssl")
    then value_at n (parse_bool v) (λ b. in_block s (record p { force_ssl = b }))
    else if beq k (codes "canonical_urls")
    then value_at n (parse_bool v) (λ b. in_block s (record p { canonical_urls = b }))
    else tunable n k v s p (server_only_reason k)

-- The host and the port of a listener, split at the last colon.
abbrev pub listen_at :
    ℕ → LineError → LineError → Option (Bytes × Bytes) → (Bytes → Bytes → Reading) → Outcome Reading
listen_at n no_colon empty none f = rejected (at n no_colon)
listen_at n no_colon empty (some (h, p)) f =
    if is_nil (trim h) || is_nil (trim p) then rejected (at n empty) else accepted (f h p)

abbrev pub storage_at : ℕ → Bytes → Reading → Outcome Reading
storage_at n v s =
    if beq v (codes "memory") || beq v (codes "mem") || beq v (codes "ram")
    then accepted (record s { storage = memory })
    else if beq v (codes "disk")
    then accepted (record s { storage = on_disk })
    else rejected (at n bad_storage)

abbrev pub default_at : ℕ → Bytes → Reading → Applied → Outcome Reading
default_at n k s (failed e) = rejected (at n (bad_value e))
default_at n k s unowned = rejected (at n (if is_site_only k then belongs_inside else unknown_key))
default_at n k s (applied t h) = accepted (record s { tuning = t; headers = h })

-- The `match k` of a line at the top level.
unfoldable pub server_setting : ℕ → Bytes → Bytes → Reading → Outcome Reading
server_setting n k v s =
    if beq k (codes "listen")
    then listen_at n listen_no_colon listen_empty (rsplit_once b':' v)
        (λ h p. record s { host = h; port = p })
    else if beq k (codes "listen_http")
    then listen_at n listen_http_no_colon listen_http_empty (rsplit_once b':' v)
        (λ h p. record s { http_host = h; http_port = p })
    else if beq k (codes "max_total_bytes")
    then value_at n (parse_size v)
        (λ m. accepted (record s { tuning = record s.tuning { max_total_bytes = m } }))
    else if beq k (codes "max_conns_per_ip")
    then value_at n (parse_count v) (λ m. accepted (record s { max_conns_per_ip = m }))
    else if beq k (codes "max_response_secs")
    then value_at n (parse_deadline_secs v) (λ m. accepted (record s { max_response_secs = m }))
    else if beq k (codes "storage")
    then storage_at n (to_ascii_lowercase (trim v)) s
    else if beq k (codes "disk_cache")
    then accepted (record s { disk_cache = some (trim v) })
    else default_at n k s (apply_shared s.tuning s.headers k v)
