-- ===== src/Response.antt =====
-- src/cache.rs: the error responses that are built at boot (`Prebuilt`, `StatusResponse`, `ErrorPages`,
-- `build_status`). src/main.rs: `send_error`, `send_redirect`, `send_304`, `redirect_authority`.
-- A function that writes to the connection returns the bytes that it writes.
pub mod Heads
use bare_server.Base.{
  is_nil, ℕ, ◌+◌, Bool, true, false, ◌||◌, Option, none, some, [], ◌∷◌, ◌++◌, length, take, arith,
  ◌==◌, if◌then◌else◌, Bytes, codes,
}
use bare_server.Text.{print_decimal, beq}

abbrev pub crlf : Bytes
crlf = codes "\r\n"

-- `header_len` marks where the body starts.
pub record Prebuilt : Type 0 where
  pub full : Bytes
  pub header_len : ℕ

pub record StatusResponse : Type 0 where
  pub ka : Prebuilt
  pub close : Prebuilt

-- `StatusResponse::bytes`
unfoldable pub bytes : StatusResponse → Bool → Bool → Bytes
bytes r keep_alive is_head =
    let p = if keep_alive then r.ka else r.close in
    if is_head then take p.header_len p.full else p.full

unfoldable pub status_retained_bytes : StatusResponse → ℕ
status_retained_bytes r = length r.ka.full + length r.close.full

pub record ErrorPages : Type 0 where
  pub bad_request : StatusResponse
  pub not_found : StatusResponse
  pub method_not_allowed : StatusResponse
  pub request_timeout : StatusResponse
  pub headers_too_large : StatusResponse
  pub internal_error : StatusResponse

abbrev pub status_line_text : ℕ → Bytes → Bytes
status_line_text code reason = print_decimal code ++ (codes " " ++ reason)

-- The `body` of `build_status`.
unfoldable pub status_body : ℕ → Bytes → Bytes
status_body code reason =
    codes "<!doctype html><title>"
    ++ (status_line_text code reason
        ++ (codes "</title><h1>" ++ (status_line_text code reason ++ codes "</h1>\n")))

-- Headers that one status must carry beyond the common set.
unfoldable pub required_headers : ℕ → Bytes
required_headers code = if code == 405 then codes "Allow: GET, HEAD\r\n" else []

-- The `head` of the closure `form` in `build_status`.
unfoldable pub status_head : ℕ → Bytes → Bytes → Bytes → Bytes
unfolding required_headers
status_head code reason security_headers conn =
    codes "HTTP/1.1 "
    ++ (status_line_text code reason
        ++ (codes "\r\nContent-Type: text/html; charset=utf-8\r\nContent-Length: "
            ++ (print_decimal (length (status_body code reason))
                ++ (codes "\r\nCache-Control: no-store\r\nConnection: "
                    ++ (conn ++ (crlf ++ (required_headers code ++ (security_headers ++ crlf))))))))

-- The closure `form`.
unfoldable pub status_form : ℕ → Bytes → Bytes → Bytes → Prebuilt
status_form code reason security_headers conn =
    let head = status_head code reason security_headers conn in
    record { full = head ++ status_body code reason; header_len = length head }

unfoldable pub build_status : ℕ → Bytes → Bytes → StatusResponse
unfolding status_form status_head status_body
build_status code reason security_headers = record {
  ka = status_form code reason security_headers (codes "keep-alive");
  close = status_form code reason security_headers (codes "close");
}

-- `ErrorPages::new`
unfoldable pub new_error_pages : Bytes → ErrorPages
new_error_pages security_headers = record {
  bad_request = build_status 400 (codes "Bad Request") security_headers;
  not_found = build_status 404 (codes "Not Found") security_headers;
  method_not_allowed = build_status 405 (codes "Method Not Allowed") security_headers;
  request_timeout = build_status 408 (codes "Request Timeout") security_headers;
  headers_too_large = build_status 431 (codes "Request Header Fields Too Large") security_headers;
  internal_error = build_status 500 (codes "Internal Server Error") security_headers;
}

-- `ErrorPages::retained_bytes`
unfoldable pub errors_retained_bytes : ErrorPages → ℕ
unfolding status_retained_bytes
errors_retained_bytes e =
    status_retained_bytes e.bad_request
    + status_retained_bytes e.not_found
    + status_retained_bytes e.method_not_allowed
    + status_retained_bytes e.request_timeout
    + status_retained_bytes e.headers_too_large
    + status_retained_bytes e.internal_error

unfoldable pub send_error : StatusResponse → Bool → Bool → Bytes
unfolding bytes
send_error resp keep_alive is_head = bytes resp keep_alive is_head

abbrev pub connection_value : Bool → Bytes
connection_value keep_alive = if keep_alive then codes "keep-alive" else codes "close"

unfoldable pub redirect_authority : Bytes → Bytes → Bytes → Bytes
unfolding beq
redirect_authority host port default =
    if is_nil port || beq port default then host else host ++ (codes ":" ++ port)

unfoldable pub send_redirect : Bytes → Bool → Bytes → Bytes
send_redirect location keep_alive hdrs =
    codes "HTTP/1.1 301 Moved Permanently\r\nLocation: "
    ++ (location
        ++ (codes "\r\nContent-Length: 0\r\nConnection: "
            ++ (connection_value keep_alive ++ (crlf ++ (hdrs ++ crlf)))))

abbrev pub encoding_line : Option Bytes → Bytes
encoding_line none = []
encoding_line (some enc) = codes "Content-Encoding: " ++ (enc ++ crlf)

abbrev pub vary_line : Bool → Bytes
vary_line vary = if vary then codes "Vary: Accept-Encoding\r\n" else []

unfoldable pub send_304 : Bytes → Option Bytes → Bool → Bytes → Bool → Bytes → Bytes
send_304 etag encoding vary cache_control keep_alive hdrs =
    codes "HTTP/1.1 304 Not Modified\r\nETag: \""
    ++ (etag
        ++ (codes "\"\r\n"
            ++ (encoding_line encoding
                ++ (vary_line vary
                    ++ (codes "Cache-Control: "
                        ++ (cache_control
                            ++ (codes "\r\nConnection: "
                                ++ (connection_value keep_alive ++ (crlf ++ (hdrs ++ crlf))))))))))
