-- ===== src/Acme.antt =====
-- src/main.rs: the live answer to an ACME http-01 challenge (`serve_acme_token`, `read_token_file`). The
-- file system is a parameter: what lstat says of a path, and what an open that follows no symbolic link
-- gives.
pub mod Tokens
use bare_server.Base.{
  is_nil, ℕ, ◌≤◌, min, Bool, true, false, ◌&&◌, ◌||◌, not, Option, none, some, [], ◌∷◌, ◌++◌,
  length, take, drop, all, arith, ◌==◌, leb, ltb, if◌then◌else◌, Bytes, codes,
}
use bare_server.Text.{is_alphanumeric, print_decimal}
use bare_server.Response.{send_error, connection_value, crlf}
use bare_server.Site.{Policy}
use bare_server.Serve.{Reply, reply}

abbrev pub acme_prefix : Bytes
acme_prefix = codes "/.well-known/acme-challenge/"

abbrev pub acme_token_max_len : ℕ
acme_token_max_len = 128

abbrev pub acme_token_max_bytes : ℕ
acme_token_max_bytes = 4096

-- An opened file: what fstat says of it, and what reading it to the end gives, nothing for an error.
pub record OpenFile : Type 0 where
  pub is_file : Bool
  pub nlink : ℕ
  pub len : ℕ
  pub content : Option Bytes

abbrev pub bounded : Option Bytes → Option Bytes
bounded none = none
bounded (some b) = some (take acme_token_max_bytes b)

-- The checks on the opened handle, then the bounded read.
unfoldable pub read_token_file : Option OpenFile → Option Bytes
read_token_file none = none
read_token_file (some f) =
    if not f.is_file || not (f.nlink == 1) || ltb acme_token_max_bytes f.len
    then none
    else bounded f.content

unfoldable pub is_token : Bytes → Bool
is_token tok =
    not (is_nil tok)
    && leb (length tok) acme_token_max_len
    && all (λ b. is_alphanumeric b || b == b'-' || b == b'_') tok

-- `root.join(name)`, for a name of one segment.
abbrev pub join : Bytes → Bytes → Bytes
join root name = root ++ (codes "/" ++ name)

unfoldable pub token_head : Bytes → Bool → Policy → Bytes
token_head body keep_alive policy =
    codes "HTTP/1.1 200 OK\r\nContent-Type: text/plain; charset=utf-8\r\nContent-Length: "
    ++ (print_decimal (length body)
        ++ (codes "\r\nCache-Control: no-store\r\nConnection: "
            ++ (connection_value keep_alive ++ (crlf ++ (policy.security_headers ++ crlf)))))

unfoldable pub send_token : Option Bytes → Bool → Bool → Policy → Reply
unfolding send_error token_head
send_token none keep_alive is_head policy =
    reply (send_error policy.errors.not_found keep_alive is_head) keep_alive
send_token (some body) keep_alive is_head policy =
    reply (token_head body keep_alive policy ++ (if is_head then [] else body)) keep_alive

module _ (is_plain : Bytes → Bool) (open_nofollow : Bytes → Option OpenFile) where
  -- The token that a path names, where every check passes. `is_plain` is the closure `no_symlink`.
  unfoldable pub find_token : Bytes → Bytes → Option Bytes
  unfolding read_token_file is_token
  find_token root tok =
      let well_known = join root (codes ".well-known") in
      let challenge = join well_known (codes "acme-challenge") in
      if is_token tok && is_plain well_known && is_plain challenge
      then read_token_file (open_nofollow (join challenge tok))
      else none

  unfoldable pub serve_acme_token : Bytes → Bytes → Bool → Bool → Policy → Reply
  serve_acme_token root decoded keep_alive is_head policy =
      send_token (find_token root (drop (length acme_prefix) decoded)) keep_alive is_head policy
