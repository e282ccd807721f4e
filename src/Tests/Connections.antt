-- ===== src/Tests/Connections.antt =====
-- Runs of the request loop and of the limits, and their theorems applied.
use bare_server.Base.{◌<◌, ◌≡◌, ◌⊎◌, ◌↔◌, refl, true, false, none, some, List, [], ◌∷◌, codes}
use bare_server.Text.{get, insert}
use bare_server.Handle.{handle_request}
use bare_server.Connection.{Read, Environment, serve_over, max_reqs_per_conn}
use bare_server.Connection.Runs.{IsRun, serve_over-IsRun}
use bare_server.Limits.{PeerLimiter, PeerPermit, try_acquire, acquire_timeout}
use bare_server.Limits.Peers.{World, acquired, Reachable, start, step, held, IsBalanced}
use bare_server.Limits.Reachable.{Reachable-IsBalanced, try_acquire_iff}
use bare_server.Tests.Requests.{plain_files, no_token, no_body, vhosts}

-- The blank line comes in two reads.
abbrev reads : List Read
reads =
    record { now = 1; chunk = some (codes "GET / HTTP/1.1\r\nHost: A.example\r\n\r"); returned = 1 }
    ∷ record { now = 2; chunk = some (codes "\nGET"); returned = 2 }
    ∷ []

abbrev env : Environment
env = record { started = λ n. 0; armed = λ n. 0; begun = λ n. 0; delivered = λ n. true }

serve_over-IsRun_example :
    IsRun
      (λ head want_ka. handle_request plain_files no_token no_body head vhosts want_ka false none)
      vhosts.errors
      300
      max_reqs_per_conn
      (serve_over plain_files no_token no_body vhosts [] false 300 none env reads)
serve_over-IsRun_example =
    serve_over-IsRun plain_files no_token no_body vhosts false none [] 300 env reads

waits :
    (acquire_timeout 0 (record { left = 5; count = 0 } ∷ record { left = 2; count = 1 } ∷ [])
      ≡ some 0)
    × (acquire_timeout 0 (record { left = 5; count = 0 } ∷ record { left = 0; count = 1 } ∷ [])
        ≡ none)
unfolding acquire_timeout
waits = (refl, refl)

abbrev one_peer : World
one_peer = record {
  limiter = record { max = 2; counts = (codes "::1", 1) ∷ [] };
  live = record { ip = codes "::1"; counted = true } ∷ [];
}

one_peer-Reachable : Reachable 2 one_peer
unfolding try_acquire get insert
one_peer-Reachable = step start (acquired (codes "::1") refl)

Reachable-IsBalanced_example : IsBalanced one_peer
Reachable-IsBalanced_example = Reachable-IsBalanced one_peer-Reachable

try_acquire_iff_example :
    ((p : PeerPermit) × (l : PeerLimiter) × (try_acquire one_peer.limiter (codes "::1")
        ≡ (l, some p)))
    ↔ ((one_peer.limiter.max ≡ 0) ⊎ (held (codes "::1") one_peer.live < one_peer.limiter.max))
try_acquire_iff_example = try_acquire_iff (codes "::1") one_peer-Reachable
