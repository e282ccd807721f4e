-- ===== src/Response/Heads.antt =====
-- src/cache.rs and src/main.rs: the generated responses, split into their lines.
use bare_server.Base.{
  ℕ, List, ◌≡◌, refl, sym, ap, ◌∙◌, Bool, true, false, Option, none, some, [], ◌∷◌, ◌++◌, length,
  take, take-append_length, append_assoc, arith, Bytes, codes, All, All-append, if◌then◌else◌,
}
use bare_server.Text.{print_decimal, print_decimal-IsDigits, is_digit, split_crlf}
use bare_server.Head.Framing.{IsFieldByte, IsLine, is_line, is_line-IsLine, line_then}
use bare_server.Response.{
  bytes, status_body, status_head, status_form, build_status, connection_value, vary_line,
  encoding_line, required_headers, status_line_text, send_redirect, send_304, crlf,
}

print_decimal-IsLine : (n : ℕ) → IsLine (print_decimal n)
print_decimal-IsLine n = digits (print_decimal n) (print_decimal-IsDigits n)
  where
    digits : (s : Bytes) → All (λ c. is_digit c ≡ true) s → IsLine s
    digits [] h = tt
    digits (c ∷ s) h = (ground arith, digits s h.1)

labelled-IsLine :
    (label value : Bytes) → is_line label ≡ true → IsLine value → IsLine (label ++ value)
labelled-IsLine label value e h = All-append IsFieldByte label value (is_line-IsLine label e) h

status_field-IsLine :
    (code : ℕ) (reason : Bytes)
    → IsLine reason
    → IsLine (codes "HTTP/1.1 " ++ status_line_text code reason)
unfolding is_line
status_field-IsLine code reason h = labelled-IsLine (codes "HTTP/1.1 ") _ refl (
    All-append IsFieldByte _ _ (print_decimal-IsLine code)
      (labelled-IsLine (codes " ") reason refl h))

pub connection_value-IsLine : (keep_alive : Bool) → IsLine (connection_value keep_alive)
unfolding is_line
connection_value-IsLine true = is_line-IsLine (codes "keep-alive") refl
connection_value-IsLine false = is_line-IsLine (codes "close") refl

literal_then :
    (l rest : Bytes) {ls : List Bytes}
    → is_line l ≡ true
    → split_crlf rest ≡ ls
    → split_crlf (l ++ (b'\r' ∷ b'\n' ∷ rest)) ≡ l ∷ ls
literal_then l rest h = line_then l rest (is_line-IsLine l h)

status_head-lines :
    (code : ℕ) (reason hdrs conn : Bytes)
    → IsLine reason
    → IsLine conn
    → split_crlf (status_head code reason hdrs conn)
      ≡ (codes "HTTP/1.1 " ++ status_line_text code reason)
        ∷ codes "Content-Type: text/html; charset=utf-8"
        ∷ (codes "Content-Length: " ++ print_decimal (length (status_body code reason)))
        ∷ codes "Cache-Control: no-store"
        ∷ (codes "Connection: " ++ conn)
        ∷ split_crlf (required_headers code ++ (hdrs ++ crlf))
unfolding status_head is_line
status_head-lines code reason hdrs conn h k = line_then _ _ (status_field-IsLine code reason h) (
    literal_then (codes "Content-Type: text/html; charset=utf-8") _ refl (
      line_then _ _ (labelled-IsLine (codes "Content-Length: ") _ refl (print_decimal-IsLine _)) (
        literal_then (codes "Cache-Control: no-store") _ refl
          (line_then _ _ (labelled-IsLine (codes "Connection: ") conn refl k) refl))))

status_form-split :
    (code : ℕ) (reason hdrs conn : Bytes)
    → let p = status_form code reason hdrs conn in
      (take p.header_len p.full ≡ status_head code reason hdrs conn)
      × (p.full ≡ status_head code reason hdrs conn ++ status_body code reason)
unfolding status_form
status_form-split code reason hdrs conn =
    (take-append_length (status_head code reason hdrs conn) (status_body code reason), refl)

-- For every status whose reason is a line, in either `Connection` form and with any header block: the
-- answer to a GET is the answer to a HEAD followed by the body, and the lines of that head, split at
-- CRLF, are the status line, the content type, the length of the body, `no-store`, the `Connection`
-- value that was asked for, and then the lines that the status and the header block add.
pub build_status_answers :
    (code : ℕ) (reason hdrs : Bytes) (keep_alive : Bool)
    → IsLine reason
    → let r = build_status code reason hdrs in
      (bytes r keep_alive false ≡ bytes r keep_alive true ++ status_body code reason)
      × (split_crlf (bytes r keep_alive true)
          ≡ (codes "HTTP/1.1 " ++ status_line_text code reason)
            ∷ codes "Content-Type: text/html; charset=utf-8"
            ∷ (codes "Content-Length: " ++ print_decimal (length (status_body code reason)))
            ∷ codes "Cache-Control: no-store"
            ∷ (codes "Connection: " ++ connection_value keep_alive)
            ∷ split_crlf (required_headers code ++ (hdrs ++ crlf)))
unfolding bytes build_status
build_status_answers code reason hdrs true h =
    let form = status_form-split code reason hdrs (codes "keep-alive") in
    (
      form.1 ∙ ap (λ s. s ++ status_body code reason) (sym form.0),
      ap split_crlf form.0 ∙ status_head-lines code reason hdrs _ h (connection_value-IsLine true),
    )
build_status_answers code reason hdrs false h =
    let form = status_form-split code reason hdrs (codes "close") in
    (
      form.1 ∙ ap (λ s. s ++ status_body code reason) (sym form.0),
      ap split_crlf form.0 ∙ status_head-lines code reason hdrs _ h (connection_value-IsLine false),
    )

-- A redirect whose location holds no line break is, split at CRLF, the status line, that location, the
-- length 0, the `Connection` value and then the lines of the header block: the location adds no header.
pub send_redirect-lines :
    (location hdrs : Bytes) (keep_alive : Bool)
    → IsLine location
    → split_crlf (send_redirect location keep_alive hdrs)
      ≡ codes "HTTP/1.1 301 Moved Permanently"
        ∷ (codes "Location: " ++ location)
        ∷ codes "Content-Length: 0"
        ∷ (codes "Connection: " ++ connection_value keep_alive)
        ∷ split_crlf (hdrs ++ crlf)
unfolding send_redirect is_line
send_redirect-lines location hdrs keep_alive h =
    literal_then (codes "HTTP/1.1 301 Moved Permanently") _ refl (
      line_then _ _ (labelled-IsLine (codes "Location: ") location refl h) (
        literal_then (codes "Content-Length: 0") _ refl (
          line_then _ _
            (labelled-IsLine (codes "Connection: ") _ refl (connection_value-IsLine keep_alive))
            refl)))

abbrev pub optional_line : Option Bytes → List Bytes → List Bytes
optional_line none ls = ls
optional_line (some enc) ls = (codes "Content-Encoding: " ++ enc) ∷ ls

abbrev pub IsOptionalLine : Option Bytes → Type 0
IsOptionalLine none = Unit
IsOptionalLine (some enc) = IsLine enc

abbrev not_modified_tail : Bool → Bytes → Bool → Bytes → List Bytes
not_modified_tail vary cache_control keep_alive hdrs =
    let rest =
      (codes "Cache-Control: " ++ cache_control)
      ∷ (codes "Connection: " ++ connection_value keep_alive)
      ∷ split_crlf (hdrs ++ crlf) in
    if vary then codes "Vary: Accept-Encoding" ∷ rest else rest

abbrev cache_tail : Bytes → Bool → Bytes → Bytes
cache_tail cache_control keep_alive hdrs =
    codes "Cache-Control: "
    ++ (cache_control
        ++ (codes "\r\nConnection: " ++ (connection_value keep_alive ++ (crlf ++ (hdrs ++ crlf)))))

cache_lines :
    (cache_control hdrs : Bytes) (keep_alive : Bool)
    → IsLine cache_control
    → split_crlf (cache_tail cache_control keep_alive hdrs)
      ≡ not_modified_tail false cache_control keep_alive hdrs
unfolding is_line
cache_lines cache_control hdrs keep_alive h =
    line_then _ _ (labelled-IsLine (codes "Cache-Control: ") cache_control refl h) (
      line_then _ _
        (labelled-IsLine (codes "Connection: ") _ refl (connection_value-IsLine keep_alive)) refl)

vary_lines :
    (vary : Bool) (cache_control hdrs : Bytes) (keep_alive : Bool)
    → IsLine cache_control
    → split_crlf (vary_line vary ++ cache_tail cache_control keep_alive hdrs)
      ≡ not_modified_tail vary cache_control keep_alive hdrs
unfolding is_line
vary_lines false cache_control hdrs keep_alive h = cache_lines cache_control hdrs keep_alive h
vary_lines true cache_control hdrs keep_alive h =
    literal_then (codes "Vary: Accept-Encoding") _ refl
      (cache_lines cache_control hdrs keep_alive h)

encoding_lines :
    (encoding : Option Bytes) (rest : Bytes) {ls : List Bytes}
    → IsOptionalLine encoding
    → split_crlf rest ≡ ls
    → split_crlf (encoding_line encoding ++ rest) ≡ optional_line encoding ls
unfolding is_line
encoding_lines none rest h e = e
encoding_lines (some enc) rest h e =
    ap (λ s. split_crlf (codes "Content-Encoding: " ++ s)) (append_assoc enc crlf rest)
    ∙ line_then _ rest (labelled-IsLine (codes "Content-Encoding: ") enc refl h) e

etag_field-IsLine : (etag : Bytes) → IsLine etag → IsLine (codes "ETag: \"" ++ (etag ++ codes "\""))
unfolding is_line
etag_field-IsLine etag h =
    labelled-IsLine (codes "ETag: \"") _ refl
      (All-append IsFieldByte etag (codes "\"") h (is_line-IsLine (codes "\"") refl))

etag_lines :
    (etag rest : Bytes) {ls : List Bytes}
    → IsLine etag
    → split_crlf rest ≡ ls
    → split_crlf (codes "ETag: \"" ++ (etag ++ (codes "\"\r\n" ++ rest)))
      ≡ (codes "ETag: \"" ++ (etag ++ codes "\"")) ∷ ls
etag_lines etag rest h e =
    ap (λ s. split_crlf (codes "ETag: \"" ++ s))
      (sym (append_assoc etag (codes "\"") (crlf ++ rest)))
    ∙ line_then _ rest (etag_field-IsLine etag h) e

-- A 304 repeats the validator, the content encoding and the `Vary` header of the stored response where
-- they are there, its cache policy, and the header block, each on a line of its own.
pub send_304-lines :
    (etag : Bytes) (encoding : Option Bytes) (vary : Bool) (cache_control : Bytes)
    (keep_alive : Bool) (hdrs : Bytes)
    → IsLine etag
    → IsOptionalLine encoding
    → IsLine cache_control
    → split_crlf (send_304 etag encoding vary cache_control keep_alive hdrs)
      ≡ codes "HTTP/1.1 304 Not Modified"
        ∷ (codes "ETag: \"" ++ (etag ++ codes "\""))
        ∷ optional_line encoding (not_modified_tail vary cache_control keep_alive hdrs)
unfolding send_304 is_line
send_304-lines etag encoding vary cache_control keep_alive hdrs e n c =
    literal_then (codes "HTTP/1.1 304 Not Modified") _ refl (
      etag_lines etag _ e
        (encoding_lines encoding _ n (vary_lines vary cache_control hdrs keep_alive c)))
