-- ===== src/Tests/Handshakes.antt =====
-- src/main.rs, `handle_connection`: handshakes with and without early data.
use bare_server.Base.{
  ◌+◌, ◌*◌, ◌≤◌, ◌≡◌, refl, true, false, none, some, [], ◌∷◌, Bytes, codes, length,
}
use bare_server.Handshake.{
  max_handshake_rounds, max_early_data_bytes, early_chunk, Round, read_early, handshake,
}
use bare_server.Handshake.Early.{handshake-bound}

abbrev hello : Round
hello = record {
  written = true;
  is_handshaking = true;
  now = 3;
  received = some 517;
  accepted = true;
  early = some (some (codes "GET /") ∷ some (codes " HTTP/1.1") ∷ none ∷ []);
}

abbrev finished : Round
finished = record hello { is_handshaking = false }

abbrev late : Round
late = record hello { now = 10 }

abbrev early_request : Bytes
early_request = codes "GET / HTTP/1.1"

completes : handshake 10 0 [] (hello ∷ finished ∷ []) ≡ some early_request
unfolding handshake read_early
completes = refl

-- A client that is not done in ten seconds is dropped.
too_late : handshake 10 0 [] (hello ∷ late ∷ finished ∷ []) ≡ none
unfolding handshake
too_late = refl

handshake-bound_example :
    length early_request ≤ max_early_data_bytes + early_chunk * max_handshake_rounds
handshake-bound_example = handshake-bound 10 (hello ∷ finished ∷ []) completes
