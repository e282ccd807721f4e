-- ===== src/Connection/Runs.antt =====
-- src/main.rs, `serve_over`: the actions of the request loop, as a relation.
use bare_server.Base.{
  ℕ, zero, suc, ◌+◌, ◌≤◌, ◌<◌, ◌≡◌, ◌⊎◌, refl, Bool, true, false, ◌&&◌, Option, List, [], ◌∷◌,
  length, length-take, take, drop, arith, ltb, ltb→lt, leb, Bytes, inl, inr, if◌then◌else◌,
}
use bare_server.Response.{ErrorPages, send_error}
use bare_server.Serve.{Reply, Reads}
use bare_server.Acme.{OpenFile}
use bare_server.Site.{Vhosts}
use bare_server.Handle.{handle_request}
use bare_server.Connection.{
  Read, HeadRead, complete, too_large, timed_out, gone, read_head, Action, arm, disarm, send,
  Environment, serve_loop, serve_over, max_header_bytes, max_reqs_per_conn, start_of_head,
  phase_deadline, goes_on,
}
use bare_server.Connection.Heads.{IsHead, read_head-IsHead}

module _ (handle : Bytes → Bool → Reply) (errors : ErrorPages) (conn_deadline : ℕ) where
  -- The runs with at most so many turns. A turn arms the phase for the head, disarms it, and only then
  -- replies to a head within the bound; the handler may keep the connection only if a turn is left. A
  -- turn without a head ends the run, with no more than the 431 or the 408.
  pub data IsRun : ℕ → List Action → Type 0 where
    over : {n : ℕ} → IsRun n []
    closed : {n t : ℕ} → t ≤ conn_deadline → IsRun (suc n) (arm t ∷ [])
    failed :
        {n t : ℕ} {b : Bytes}
        → t ≤ conn_deadline
        → (b ≡ send_error errors.headers_too_large false false)
          ⊎ (b ≡ send_error errors.request_timeout false false)
        → IsRun (suc n) (arm t ∷ send b ∷ [])
    turn :
        {n t : ℕ} {rest : List Action} (head : Bytes) (want_ka : Bool)
        → t ≤ conn_deadline
        → length head ≤ max_header_bytes
        → (want_ka ≡ true → 0 < n)
        → IsRun n rest
        → IsRun (suc n) (arm t ∷ disarm ∷ send (handle head want_ka).sent ∷ rest)

  test : {n : ℕ} (b : Bool) (rest : List Action) → IsRun n rest → IsRun n (if b then rest else [])
  test true rest h = h
  test false rest h = over

  module _ (env : Environment) where
    -- The part of a turn behind the search for the head.
    abbrev after_head : ℕ → ℕ → HeadRead → List Action
    after_head left reqs (complete end got rest) =
        let reply = handle (take end got) (ltb (reqs + 1) max_reqs_per_conn) in
        let later =
          serve_loop handle errors env conn_deadline left (suc reqs) (drop end got) rest in
        disarm
        ∷ send reply.sent
        ∷ (if goes_on reply.result && env.delivered reqs then later else [])
    after_head left reqs too_large = send (send_error errors.headers_too_large false false) ∷ []
    after_head left reqs timed_out = send (send_error errors.request_timeout false false) ∷ []
    after_head left reqs gone = []

    short :
        (end : ℕ) (got : Bytes) {before : Bytes}
        → IsHead before end got
        → length (take end got) ≤ max_header_bytes
    short end got h = omega (arith, length-take end got, h.bound)

    serve_loop-IsRun :
        (left reqs : ℕ) (buf : Bytes) (reads : List Read)
        → left + reqs ≡ max_reqs_per_conn
        → IsRun left (serve_loop handle errors env conn_deadline left reqs buf reads)
    unfolding serve_loop
    serve_loop-IsRun zero reqs buf reads h = over
    serve_loop-IsRun (suc left) reqs buf reads h = ended (leb conn_deadline (env.started reqs)) (
        go (read_head conn_deadline buf 0 (start_of_head buf (env.begun reqs)) reads) refl
          (λ later_buf later_reads.
            serve_loop-IsRun left (suc reqs) later_buf later_reads (omega (arith, h))))
      where
        ended :
            (b : Bool) {rest : List Action}
            → IsRun (suc left) rest
            → IsRun (suc left) (if b then [] else rest)
        ended true h = over
        ended false h = h

        go :
            (o : HeadRead)
            → read_head conn_deadline buf 0 (start_of_head buf (env.begun reqs)) reads ≡ o
            → ((later_buf : Bytes) (later_reads : List Read)
                → IsRun left (
                    serve_loop handle errors env conn_deadline left
                      (suc reqs)
                      later_buf
                      later_reads))
            → IsRun
                (suc left)
                (arm (phase_deadline conn_deadline (env.armed reqs)) ∷ after_head left reqs o)
        go (complete end got rest) e later =
            turn (take end got) (ltb (reqs + 1) max_reqs_per_conn) (omega arith)
              (short end got (read_head-IsHead conn_deadline buf _ reads rest e))
              (λ k. omega (arith, ltb→lt (reqs + 1) max_reqs_per_conn k, h))
              (test
                (goes_on (handle (take end got) (ltb (reqs + 1) max_reqs_per_conn)).result
                  && env.delivered reqs)
                _ (later (drop end got) rest))
        go too_large e later = failed (omega arith) (inl refl)
        go timed_out e later = failed (omega arith) (inr refl)
        go gone e later = closed (omega arith)

module _ (is_plain : Bytes → Bool) (open_nofollow : Bytes → Option OpenFile)
    (open_body : Bytes → Option Reads) (vhosts : Vhosts) (redirect_https : Bool)
    (sni : Option Bytes) where
  -- A connection gets at most 1000 replies of the handler, each to a head of at most 8192 bytes and with
  -- the phase deadline armed for its head and disarmed before the reply; no armed deadline is behind that
  -- of the connection, and the last permitted request may not keep it. A turn without a head ends the
  -- run with the 431, the 408 or nothing.
  pub serve_over-IsRun :
      (buf : Bytes) (conn_deadline : ℕ) (env : Environment) (reads : List Read)
      → IsRun
          (λ head want_ka.
            handle_request is_plain open_nofollow open_body head vhosts want_ka redirect_https sni)
          vhosts.errors
          conn_deadline
          max_reqs_per_conn
          (serve_over is_plain open_nofollow open_body vhosts buf redirect_https conn_deadline sni
            env reads)
  unfolding serve_over
  serve_over-IsRun buf conn_deadline env reads =
      serve_loop-IsRun _ vhosts.errors conn_deadline env max_reqs_per_conn 0 buf reads (omega arith)
