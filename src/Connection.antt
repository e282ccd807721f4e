-- ===== src/Connection.antt =====
-- src/main.rs: the request loop of one connection (`serve_over`). What the connection reads, when, and
-- whether its writes succeed is the environment's; times are seconds. A run is the list of what the loop
-- does: to the phase deadline, and to the connection.
pub mod Heads
pub mod Runs
use bare_server.Base.{
  is_nil, ℕ, zero, suc, ◌+◌, ◌-◌, ◌*◌, ◌≤◌, min, Bool, true, false, ◌&&◌, ◌||◌, not, Option, none,
  some, List, [], ◌∷◌, ◌++◌, length, take, drop, arith, ◌==◌, leb, ltb, if◌then◌else◌, Bytes, codes,
}
use bare_server.Head.{find}
use bare_server.Response.{ErrorPages, send_error}
use bare_server.Site.{Vhosts}
use bare_server.Serve.{Reply, Reads}
use bare_server.Acme.{OpenFile}
use bare_server.Handle.{handle_request}

abbrev pub max_header_bytes : ℕ
max_header_bytes = 8192

abbrev pub max_reqs_per_conn : ℕ
max_reqs_per_conn = 1000

abbrev pub io_timeout_secs : ℕ
io_timeout_secs = 15

abbrev pub header_timeout_secs : ℕ
header_timeout_secs = 10

abbrev pub head_end : Bytes
head_end = codes "\r\n\r\n"

-- One turn of the reading loop: the time of its checks, what the read returns (`none` for an error, the
-- empty chunk for a closed connection), and the time at which it returns.
pub record Read : Type 0 where
  pub now : ℕ
  pub chunk : Option Bytes
  pub returned : ℕ

pub data HeadRead : Type 0 where
  complete : ℕ → Bytes → List Read → HeadRead
  too_large timed_out gone : HeadRead

abbrev pub expired : Option ℕ → ℕ → Bool
expired none now = false
expired (some t0) now = leb header_timeout_secs (now - t0)

abbrev pub begin : Option ℕ → ℕ → Option ℕ
begin none now = some now
begin (some t0) now = some t0

-- The end of the head that the search finds, if it is not too large.
unfoldable pub bounded_head : ℕ → Bytes → List Read → HeadRead
bounded_head end buf reads = if ltb max_header_bytes end then too_large else complete end buf reads

-- The loop that collects a head; `scanned` and `head_start` are the source's. It ends with the list where
-- the environment says no more.
unfoldable pub read_head : ℕ → Bytes → ℕ → Option ℕ → List Read → HeadRead
read_head conn_deadline buf scanned head_start [] = elim (find (drop (scanned - 3) buf) head_end) [
  | some pos ↦ bounded_head (scanned - 3 + pos + 4) buf []
  | none ↦ if leb max_header_bytes (length buf) then too_large else gone
]
read_head conn_deadline buf scanned head_start (r ∷ reads) =
    elim (find (drop (scanned - 3) buf) head_end) [
      | some pos ↦ bounded_head (scanned - 3 + pos + 4) buf (r ∷ reads)
      | none ↦
          if leb max_header_bytes (length buf)
          then too_large
          else if expired head_start r.now || leb conn_deadline r.now
          then timed_out
          else elim r.chunk [
            | none ↦ gone
            | some [] ↦ gone
            | some (c ∷ chunk) ↦
                read_head conn_deadline (buf ++ (c ∷ chunk)) (length buf)
                  (begin head_start r.returned) reads
          ]
    ]

-- What the loop does.
pub data Action : Type 0 where
  arm : ℕ → Action
  disarm : Action
  send : Bytes → Action

-- The clock at the top of each turn of the request loop, where the phase is armed and where the head
-- starts; and whether the writes of the turn succeed.
pub record Environment : Type 0 where
  pub started : ℕ → ℕ
  pub armed : ℕ → ℕ
  pub begun : ℕ → ℕ
  pub delivered : ℕ → Bool

abbrev pub start_of_head : Bytes → ℕ → Option ℕ
start_of_head buf now = if is_nil buf then none else some now

abbrev pub phase_deadline : ℕ → ℕ → ℕ
phase_deadline conn_deadline now = min conn_deadline (now + (io_timeout_secs + header_timeout_secs))

abbrev pub goes_on : Option Bool → Bool
goes_on (some true) = true
goes_on other = false

module _ (handle : Bytes → Bool → Reply) (errors : ErrorPages) (env : Environment)
    (conn_deadline : ℕ) where
  -- `left` turns are left, and `reqs` are done.
  unfoldable pub serve_loop : ℕ → ℕ → Bytes → List Read → List Action
  serve_loop zero reqs buf reads = []
  serve_loop (suc left) reqs buf reads =
      if leb conn_deadline (env.started reqs)
      then []
      else arm (phase_deadline conn_deadline (env.armed reqs))
        ∷ elim (read_head conn_deadline buf 0 (start_of_head buf (env.begun reqs)) reads) [
          | complete end got rest ↦
              let reply = handle (take end got) (ltb (reqs + 1) max_reqs_per_conn) in
              let later = serve_loop left (suc reqs) (drop end got) rest in
              disarm
              ∷ send reply.sent
              ∷ (if goes_on reply.result && env.delivered reqs then later else [])
          | too_large ↦ send (send_error errors.headers_too_large false false) ∷ []
          | timed_out ↦ send (send_error errors.request_timeout false false) ∷ []
          | gone ↦ []
        ]

module _ (is_plain : Bytes → Bool) (open_nofollow : Bytes → Option OpenFile)
    (open_body : Bytes → Option Reads) where
  unfoldable pub serve_over :
      Vhosts → Bytes → Bool → ℕ → Option Bytes → Environment → List Read → List Action
  serve_over vhosts buf redirect_https conn_deadline sni env reads =
      serve_loop
        (λ head want_ka.
          handle_request is_plain open_nofollow open_body head vhosts want_ka redirect_https sni)
        vhosts.errors env conn_deadline max_reqs_per_conn 0 buf reads
