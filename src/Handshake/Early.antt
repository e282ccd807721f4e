-- ===== src/Handshake/Early.antt =====
-- src/main.rs, `handle_connection`: the bound of the early data, and the runs of a connection.
use bare_server.Base.{
  is_nil, ℕ, suc, ◌+◌, ◌*◌, ◌≤◌, ◌≡◌, refl, ap, ◌⊎◌, inl, inr, Bool, true, false, not, Option, none,
  some, List, [], ◌∷◌, ◌++◌, length, take, ltb, if◌then◌else◌, Bytes, length-append, length-take,
  arith, Bool-cases,
}
use bare_server.Handshake.{
  max_handshake_rounds, max_early_data_bytes, early_chunk, Round, read_early, with_early, has_read,
  handshake,
}

-- The reads of one round add at most one chunk to what is there or to the bound.
read_early-bound :
    (buf : Bytes) (reads : List (Option Bytes)) (n : ℕ)
    → length buf ≤ max_early_data_bytes + n
    → length (read_early buf reads) ≤ max_early_data_bytes + n + early_chunk
unfolding read_early
read_early-bound buf [] n h = omega (arith, h)
read_early-bound buf (none ∷ reads) n h = omega (arith, h)
read_early-bound buf (some chunk ∷ reads) n h =
    let longer = buf ++ take early_chunk chunk in
    elim (Bool-cases (is_nil chunk)) [
      | inl e ↦ rw e (omega (arith, h))
      | inr e ↦ rw e (elim (Bool-cases (ltb max_early_data_bytes (length longer))) [
        | inl f ↦ rw f (
            omega
              (arith, h, length-append buf (take early_chunk chunk), length-take early_chunk chunk))
        | inr f ↦
            let l : length longer ≤ max_early_data_bytes + n = ground arith in
            rw f (read_early-bound longer reads n l)
      ])
    ]

with_early-bound :
    (buf : Bytes) (o : Option (List (Option Bytes))) (n : ℕ)
    → length buf ≤ max_early_data_bytes + n
    → length (with_early buf o) ≤ max_early_data_bytes + n + early_chunk
with_early-bound buf none n h = omega (arith, h)
with_early-bound buf (some reads) n h = read_early-bound buf reads n h

-- A round that does not end in a drop ends the handshake, or is in the bounds and goes on.
round-cases :
    (written is_handshaking late has accepted : Bool) (buf : Bytes) (next : Option Bytes)
    {out : Bytes}
    → (if not written
        then none
        else if not is_handshaking
        then some buf
        else if late
        then none
        else if not has
        then none
        else if not accepted
        then none
        else next)
      ≡ some out
    → (buf ≡ out) ⊎ ((late ≡ false) × (next ≡ some out))
round-cases false b c d e buf next h = cc
round-cases true false c d e buf next h = inl (ground arith)
round-cases true true true d e buf next h = cc
round-cases true true false false e buf next h = cc
round-cases true true false true false buf next h = cc
round-cases true true false true true buf next h = inr (refl, h)

rounds-bound :
    (deadline rounds : ℕ) (buf : Bytes) (rs : List Round) {out : Bytes}
    → rounds ≤ max_handshake_rounds
    → length buf ≤ max_early_data_bytes + early_chunk * rounds
    → handshake deadline rounds buf rs ≡ some out
    → length out ≤ max_early_data_bytes + early_chunk * max_handshake_rounds
unfolding handshake
rounds-bound deadline rounds buf [] k l h = cc
rounds-bound deadline rounds buf (r ∷ rs) {out = out} k l h =
    elim (round-cases r.written r.is_handshaking _ (has_read r.received) r.accepted buf _ h) [
      | inl e ↦ let q : length buf ≡ length out = ap length e in omega (arith, q, k, l)
      | inr (late, next) ↦
          let s : suc rounds ≤ max_handshake_rounds = ground arith in
          let m = with_early-bound buf r.early (early_chunk * rounds) l in
          rounds-bound deadline (suc rounds) (with_early buf r.early) rs s (omega (arith, m)) next
    ]

-- The early data that a completed handshake hands on is at most 16 KiB and a chunk of 4 KiB for each of
-- the 64 rounds, whatever the client sends in whatever rounds.
pub handshake-bound :
    (deadline : ℕ) (rs : List Round) {out : Bytes}
    → handshake deadline 0 [] rs ≡ some out
    → length out ≤ max_early_data_bytes + early_chunk * max_handshake_rounds
handshake-bound deadline rs h = rounds-bound deadline 0 [] rs (omega arith) (omega arith) h
