-- ===== src/Handshake.antt =====
-- src/main.rs, `handle_connection` and `handle_plain`: what happens on a connection before its request loop. What rustls
-- and the socket answer in each round of the handshake is the environment's; times are seconds.
pub mod Early
use bare_server.Base.{
  is_nil, ℕ, suc, ◌+◌, ◌*◌, Bool, true, false, ◌||◌, not, Option, none, some, List, [], ◌∷◌, ◌++◌,
  length, take, ◌==◌, leb, ltb, if◌then◌else◌, Bytes,
}
use bare_server.Text.{to_ascii_lowercase}
use bare_server.Site.{Vhosts}
use bare_server.Serve.{Reads}
use bare_server.Acme.{OpenFile}
use bare_server.Connection.{Read, Action, Environment, max_header_bytes, serve_over}
use bare_server.Deadline.{DeadlineIo, new_io, disarm}

abbrev pub conn_max_secs : ℕ
conn_max_secs = 300

abbrev pub handshake_timeout_secs : ℕ
handshake_timeout_secs = 10

abbrev pub max_handshake_rounds : ℕ
max_handshake_rounds = 64

abbrev pub max_early_data_bytes : ℕ
max_early_data_bytes = 2 * max_header_bytes

-- The size of `tmp`.
abbrev pub early_chunk : ℕ
early_chunk = 4096

-- One round: whether every `write_tls` succeeds, whether the handshake goes on, the time of the check,
-- what `read_tls` returns (`none` for an error), whether the packets are accepted, and the reads of the
-- early data if there is any.
pub record Round : Type 0 where
  pub written : Bool
  pub is_handshaking : Bool
  pub now : ℕ
  pub received : Option ℕ
  pub accepted : Bool
  pub early : Option (List (Option Bytes))

-- The reads of the early data; a read returns at most what `tmp` holds.
unfoldable pub read_early : Bytes → List (Option Bytes) → Bytes
read_early buf [] = buf
read_early buf (none ∷ reads) = buf
read_early buf (some chunk ∷ reads) =
    let longer = buf ++ take early_chunk chunk in
    let rest = read_early longer reads in
    if is_nil chunk then buf else if ltb max_early_data_bytes (length longer) then longer else rest

abbrev pub with_early : Bytes → Option (List (Option Bytes)) → Bytes
with_early buf none = buf
with_early buf (some reads) = read_early buf reads

abbrev pub has_read : Option ℕ → Bool
has_read none = false
has_read (some n) = not (n == 0)

-- The early data behind a handshake that completes.
unfoldable pub handshake : ℕ → ℕ → Bytes → List Round → Option Bytes
handshake deadline rounds buf [] = none
handshake deadline rounds buf (r ∷ rest) =
    let next = handshake deadline (suc rounds) (with_early buf r.early) rest in
    if not r.written
    then none
    else if not r.is_handshaking
    then some buf
    else if ltb max_handshake_rounds (suc rounds) || leb deadline r.now
    then none
    else if not (has_read r.received)
    then none
    else if not r.accepted
    then none
    else next

-- `(max_response_secs != 0).then(..)`
abbrev pub max_transfer : ℕ → Option ℕ
max_transfer secs = if secs == 0 then none else some secs

-- A connection that is served: the socket below it, and what its request loop does.
pub record Served : Type 0 where
  pub io : DeadlineIo
  pub actions : List Action

module _ (is_plain : Bytes → Bool) (open_nofollow : Bytes → Option OpenFile)
    (open_body : Bytes → Option Reads) where
  -- `start`, and `now` when the request loop begins, are times.
  unfoldable pub handle_plain : Vhosts → ℕ → ℕ → ℕ → Environment → List Read → Served
  handle_plain vhosts max_response_secs start now env reads = record {
    io = new_io now (max_transfer max_response_secs) disarm;
    actions =
        serve_over is_plain open_nofollow open_body vhosts [] true (start + conn_max_secs) none env
          reads;
  }

  abbrev pub lower_name : Option Bytes → Option Bytes
  lower_name none = none
  lower_name (some name) = some (to_ascii_lowercase name)

  abbrev pub serve_tls :
      Vhosts → ℕ → ℕ → ℕ → Option Bytes → Environment → List Read → Option Bytes → Option Served
  serve_tls vhosts max_response_secs start now server_name env reads none = none
  serve_tls vhosts max_response_secs start now server_name env reads (some buf) = some (record {
    io = new_io now (max_transfer max_response_secs) disarm;
    actions =
        serve_over is_plain open_nofollow open_body vhosts buf false (start + conn_max_secs)
          (lower_name server_name) env reads;
  })

  -- `none` for a connection that is dropped before its request loop. `conn` tells whether rustls makes a
  -- connection, `begun` is when the handshake begins, and `server_name` is the name that rustls has.
  unfoldable pub handle_connection :
      Vhosts
      → ℕ
      → Bool
      → ℕ
      → ℕ
      → ℕ
      → Option Bytes
      → Environment
      → List Round
      → List Read
      → Option Served
  handle_connection vhosts max_response_secs conn start begun now server_name env rounds reads =
      if not conn
      then none
      else serve_tls vhosts max_response_secs start now server_name env reads
          (handshake (begun + handshake_timeout_secs) 0 [] rounds)
