-- ===== src/Acme/Tokens.antt =====
-- src/main.rs, `serve_acme_token` and `read_token_file`: the conditions on a token that is found.
use bare_server.Base.{ℕ, ◌≤◌, ◌≡◌, ◌≢◌, true, Option, some, length, Bytes}
use bare_server.Acme.{OpenFile, acme_token_max_bytes}

-- A byte of a token: neither `/` nor `.` is one.
abbrev pub IsTokenByte : ℕ → Type 0
IsTokenByte b = (b ≢ b'/') × (b ≢ b'.')

-- A file whose handle passed the checks, and the bytes that were read of it.
pub record IsRead (o : Option OpenFile) (body : Bytes) : Type 0 where
  pub file : OpenFile
  pub opened : o ≡ some file
  pub regular : file.is_file ≡ true
  pub one_link : file.nlink ≡ 1
  pub small : file.len ≤ acme_token_max_bytes
  pub bound : length body ≤ acme_token_max_bytes
