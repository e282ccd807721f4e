-- ===== src/Handle/Framing.antt =====
-- src/main.rs, `handle_request`: the requests behind which a connection is kept.
use bare_server.Base.{
  ◌≡◌, Bool, true, false, ◌&&◌, ◌||◌, not, Option, none, some, List, [], ◌∷◌, drop, arith, Bytes,
  codes, All, Bool-cases, Option-cases, inl, inr, if◌then◌else◌, >>=-eq-some,
}
use bare_server.Text.{
  beq, beq_iff, eq_ignore_ascii_case, to_ascii_lowercase, split, split_crlf, split_once, trim, get,
}
use bare_server.Head.{well_formed_head}
use bare_server.Request.{
  Fields, RequestLine, header_field, named_field, header_line, header_loop, request_line,
  initial_fields,
}
use bare_server.Serve.{Reads}
use bare_server.Acme.{OpenFile}
use bare_server.Route.{normalize_host}
use bare_server.Site.{Site, Vhosts}
use bare_server.Handle.Keeping.{Keeps, kept, answer_site-Keeps}
use bare_server.Handle.{handle_request, answer_lines, answer_host, answer_fields, line_or_refuse}

-- A field that announces a body: a Content-Length other than 0, or any Transfer-Encoding.
abbrev pub field_declares_body : Bytes → Bytes → Bool
field_declares_body name value =
    (eq_ignore_ascii_case name (codes "content-length") && not (beq value (codes "0")))
    || eq_ignore_ascii_case name (codes "transfer-encoding")

abbrev pub pair_declares_body : Option (Bytes × Bytes) → Bool
pair_declares_body none = false
pair_declares_body (some (name, value)) = field_declares_body name (trim value)

abbrev pub declares_body : Bytes → Bool
declares_body line = pair_declares_body (split_once b':' line)

-- The lines in front of the blank line.
abbrev pub header_block : List Bytes → List Bytes
header_block [] = []
header_block ([] ∷ lines) = []
header_block ((c ∷ line) ∷ lines) = (c ∷ line) ∷ header_block lines

exclusive :
    (name a b : Bytes)
    → eq_ignore_ascii_case name a ≡ true
    → beq (to_ascii_lowercase a) (to_ascii_lowercase b) ≡ false
    → eq_ignore_ascii_case name b ≡ false
unfolding eq_ignore_ascii_case
exclusive name a b h n =
    let e = (beq_iff (to_ascii_lowercase name) (to_ascii_lowercase a)).0 h in rw e n

header_field-body :
    (f : Fields) (name value : Bytes) {g : Fields}
    → header_field f name value ≡ some g
    → g.has_body ≡ false
    → (f.has_body ≡ false) × (field_declares_body name value ≡ false)
unfolding header_field to_ascii_lowercase beq
header_field-body f name value {g} h b = ground (
  arith,
  exclusive name (codes "host") (codes "content-length"),
  exclusive name (codes "host") (codes "transfer-encoding"),
  exclusive name (codes "content-length") (codes "transfer-encoding"),
)

named_field-body :
    (f : Fields) (o : Option (Bytes × Bytes)) {g : Fields}
    → named_field f o ≡ some g
    → g.has_body ≡ false
    → (f.has_body ≡ false) × (pair_declares_body o ≡ false)
unfolding named_field
named_field-body f none {g} h b = absurd (ground arith)
named_field-body f (some (name, value)) {g} h b =
    header_field-body f name (trim value) {g = g} (ground arith) b

header_line-body :
    (f : Fields) (line : Bytes) {g : Fields}
    → header_line f line ≡ some g
    → g.has_body ≡ false
    → (f.has_body ≡ false) × (declares_body line ≡ false)
unfolding header_line
header_line-body f line {g} h b = named_field-body f (split_once b':' line) {g = g} (ground arith) b

header_loop-body :
    (f : Fields) (lines : List Bytes) {g : Fields}
    → header_loop f lines ≡ some g
    → g.has_body ≡ false
    → (f.has_body ≡ false) × All (λ l. declares_body l ≡ false) (header_block lines)
unfolding header_loop
header_loop-body f [] {g} h b = (ground arith, tt)
header_loop-body f ([] ∷ lines) {g} h b = (ground arith, tt)
header_loop-body f ((c ∷ line) ∷ lines) {g} h b =
    let (m, first, rest) = >>=-eq-some (header_line f (c ∷ line)) _ h in
    let (none_m, block) = header_loop-body m lines {g = g} rest b in
    let (none_f, here) = header_line-body f (c ∷ line) {g = m} first none_m in
    (none_f, (here, block))

module _ (is_plain : Bytes → Bool) (open_nofollow : Bytes → Option OpenFile)
    (open_body : Bytes → Option Reads) (vhosts : Vhosts) (want_ka redirect_https : Bool)
    (sni : Option Bytes) where
  answer_host-Keeps :
      (o : Option Site) (r : RequestLine) (f : Fields) (host_key : Bytes) (keep_alive : Bool)
      → Keeps keep_alive (
          answer_host is_plain open_nofollow open_body o vhosts r f host_key keep_alive
            redirect_https)
  unfolding answer_host
  answer_host-Keeps none r f host_key keep_alive = kept keep_alive _
  answer_host-Keeps (some site) r f host_key keep_alive =
      answer_site-Keeps is_plain open_nofollow open_body _ r

  answer_fields-kept :
      (r : RequestLine) (f : Fields)
      → (answer_fields is_plain open_nofollow open_body vhosts want_ka redirect_https sni r
          f).result
        ≡ some true
      → (want_ka ≡ true) × (f.has_body ≡ false)
  unfolding answer_fields
  answer_fields-kept r f h =
      let host_key = normalize_host f.host_hdr in
      let keep_alive = if want_ka then f.keep_alive else false in
      ground (
        arith,
        (answer_host-Keeps none r f host_key keep_alive).holds,
        (answer_host-Keeps (get host_key vhosts.sites) r f host_key keep_alive).holds,
      )

  line-kept :
      (is_head : Bool) (lines : List Bytes) (o : Option RequestLine)
      → (line_or_refuse is_plain open_nofollow open_body vhosts want_ka redirect_https sni is_head
          lines o).result
        ≡ some true
      → (want_ka ≡ true) × All (λ l. declares_body l ≡ false) (header_block lines)
  line-kept is_head lines none h = absurd (ground arith)
  line-kept is_head lines (some r) h =
      elim (Option-cases (header_loop (initial_fields r.version) lines)) [
        | inl e ↦ absurd (let k = rw e at h in ground arith)
        | inr (f, e) ↦
            let (w, b) = answer_fields-kept r f (let k = rw e at h in k) in
            (w, (header_loop-body (initial_fields r.version) lines e b).1)
      ]

  answer_lines-kept :
      (lines : List Bytes)
      → (answer_lines is_plain open_nofollow open_body vhosts want_ka redirect_https sni
          lines).result
        ≡ some true
      → (want_ka ≡ true) × All (λ l. declares_body l ≡ false) (header_block (drop 1 lines))
  unfolding answer_lines
  answer_lines-kept [] h = absurd (ground arith)
  answer_lines-kept (reqline ∷ lines) h = line-kept _ lines (request_line (split b' ' reqline)) h

  -- A connection is kept only behind a request whose head is strictly framed and announces no body, and
  -- only if the caller lets it: no byte that a client means as a body is read as the next request.
  pub handle_request-kept :
      (head : Bytes)
      → (handle_request is_plain open_nofollow open_body head vhosts want_ka redirect_https
          sni).result
        ≡ some true
      → (well_formed_head head ≡ true)
        × (want_ka ≡ true)
        × All (λ l. declares_body l ≡ false) (header_block (drop 1 (split_crlf head)))
  unfolding handle_request
  handle_request-kept head h = elim (Bool-cases (well_formed_head head)) [
    | inl e ↦ let (w, b) = answer_lines-kept (split_crlf head) (ground arith) in (e, w, b)
    | inr e ↦ absurd (ground arith)
  ]
