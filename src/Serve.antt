-- ===== src/Serve.antt =====
-- src/main.rs: the answers from the cache (`serve_mem`, `serve_disk`, `stream_body`). The bytes that a function writes to the
-- connection are a part of its reply, and so is `Ok(keep_alive)`, or nothing for an I/O error.
pub mod Bodies
use bare_server.Base.{
  is_nil, ℕ, zero, suc, ◌-◌, ◌≤◌, min, Bool, true, false, ◌&&◌, ◌||◌, not, Option, none, some, List,
  [], ◌∷◌, ◌++◌, length, take, drop, all, arith, ◌==◌, leb, ltb, if◌then◌else◌, Bytes, codes, ◌>>=◌,
}
use bare_server.Text.{beq, starts_with, strip_prefix, is_alphanumeric, print_decimal}
use bare_server.Response.{send_error, send_304, connection_value, crlf, ErrorPages}
use bare_server.Negotiate.{accepts_encoding, inm_matches}
use bare_server.Site.{Variant, DiskVariant, MemEntry, DiskEntry, Policy}

pub record Reply : Type 0 where
  pub sent : Bytes
  pub result : Option Bool

-- What is written goes out, and the connection is kept or closed as the flag says.
abbrev pub reply : Bytes → Bool → Reply
reply sent keep_alive = record { sent = sent; result = some keep_alive }

-- `s.replacen(from, to, 1)`
unfoldable pub replace_first : Bytes → Bytes → Bytes → Bytes
replace_first old new [] = []
replace_first old new (c ∷ s) =
    let rest = replace_first old new s in
    elim (strip_prefix old (c ∷ s)) [ some behind ↦ new ++ behind | none ↦ c ∷ rest ]

-- The header of the source is UTF-8, so that `from_utf8_lossy` leaves it as it is.
abbrev pub flip_connection : Bytes → Bytes
flip_connection = replace_first (codes "Connection: keep-alive") (codes "Connection: close")

-- The variant that `br`, `gzip` and the field Accept-Encoding choose.
unfoldable pub pick {ℓ} : {V : Type ℓ} → Option V → Option V → V → Bytes → V
pick br gzip identity accept_enc =
    let brotli = accepts_encoding accept_enc (codes "br") in
    let gz = accepts_encoding accept_enc (codes "gzip") in
    elim br [
      | some b ↦
          if brotli then b else elim gzip [ some g ↦ if gz then g else identity | none ↦ identity ]
      | none ↦ elim gzip [ some g ↦ if gz then g else identity | none ↦ identity ]
    ]

-- Whether the field If-None-Match holds the validator.
unfoldable pub is_unmodified : Bytes → Bytes → Bool
is_unmodified inm etag = not (is_nil inm) && inm_matches inm etag

-- The 200 of `serve_mem`.
unfoldable pub send_variant : Variant → Bool → Bool → Bytes
send_variant v keep_alive is_head =
    let header = take v.header_len v.full_ka in
    if keep_alive
    then (if is_head then header else v.full_ka)
    else flip_connection header ++ (if is_head then [] else drop v.header_len v.full_ka)

unfoldable pub serve_mem : MemEntry → Bytes → Bytes → Bool → Bool → Policy → Reply
serve_mem m accept_enc inm keep_alive is_head policy =
    let v = pick m.br m.gzip m.identity accept_enc in
    if is_unmodified inm v.etag
    then reply
        (send_304 v.etag v.encoding m.vary m.cache_control keep_alive policy.security_headers)
        keep_alive
    else reply (send_variant v keep_alive is_head) keep_alive

-- What the reads of a file return, one after another; `none` is an error. A file at its end returns
-- the empty chunk, or the list ends.
abbrev pub Reads : Type 0
Reads = List (Option Bytes)

-- `stream_body`: the bytes written, and whether no read failed.
unfoldable pub stream_body : Reads → ℕ → Bytes × Bool
stream_body [] remaining = ([], true)
stream_body (none ∷ reads) remaining = ([], remaining == 0)
stream_body (some chunk ∷ reads) remaining =
    let rest = stream_body reads (remaining - min (length chunk) remaining) in
    if remaining == 0 || is_nil chunk
    then ([], true)
    else (take (min (length chunk) remaining) chunk ++ rest.0, rest.1)

unfoldable pub disk_header : DiskVariant → Bool → Bytes
disk_header v keep_alive = if keep_alive then v.header_ka else flip_connection v.header_ka

abbrev pub streamed : Bytes → Bytes × Bool → Bool → Reply
streamed header (body, true) keep_alive = reply (header ++ body) keep_alive
streamed header (body, false) keep_alive = record { sent = header ++ body; result = none }

module _ (open_body : Bytes → Option Reads) where
  -- The 200 of `serve_disk`, or the 500 of a snapshot that does not open.
  unfoldable pub send_disk : DiskVariant → Bool → Bool → Policy → Reply
  unfolding send_error
  send_disk v keep_alive is_head policy =
      let header = disk_header v keep_alive in
      if is_head then reply header keep_alive else elim (open_body v.path) [
        | none ↦ reply (send_error policy.errors.internal_error false is_head) false
        | some reads ↦ streamed header (stream_body reads v.len) keep_alive
      ]

  unfoldable pub serve_disk : DiskEntry → Bytes → Bytes → Bool → Bool → Policy → Reply
  serve_disk d accept_enc inm keep_alive is_head policy =
      let v = pick d.br d.gzip d.identity accept_enc in
      if is_unmodified inm v.etag
      then reply
          (send_304 v.etag v.encoding d.vary d.cache_control keep_alive policy.security_headers)
          keep_alive
      else send_disk v keep_alive is_head policy
