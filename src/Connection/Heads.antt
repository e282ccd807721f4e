-- ===== src/Connection/Heads.antt =====
-- src/main.rs, `serve_over`: the loop that collects a head, against a search of everything read.
use bare_server.Base.{
  ℕ, ◌+◌, ◌-◌, ◌≤◌, ◌≡◌, refl, sym, ap, ◌∙◌, subst, Bool, true, false, ◌||◌, Option, none, some,
  List, [], ◌∷◌, ◌++◌, length, drop, append_assoc, append-nil, arith, ltb, leb, Bytes, codes,
  Bool-cases, Option-cases, inl, inr, if◌then◌else◌,
}
use bare_server.Head.{find}
use bare_server.Head.Scan.{
  NoMatch, plus, window_position-skip, window_position-none, NoMatch-append, find-window_position,
}
use bare_server.Connection.{
  Read, HeadRead, complete, too_large, timed_out, gone, read_head, bounded_head, head_end, begin,
  expired, max_header_bytes,
}

-- A search from `k` on finds what a search of the whole finds, if the end stands at none of the first
-- `k` positions.
resume :
    (k : ℕ) (buf : Bytes)
    → NoMatch head_end k buf
    → find buf head_end ≡ plus k (find (drop k buf) head_end)
resume k buf h =
    find-window_position buf b'\r' (codes "\n\r\n")
    ∙ window_position-skip head_end k buf h
    ∙ ap (plus k) (sym (find-window_position (drop k buf) b'\r' (codes "\n\r\n")))

none-NoMatch : (k : ℕ) (buf : Bytes) → find buf head_end ≡ none → NoMatch head_end k buf
none-NoMatch k buf h =
    window_position-none head_end buf k (sym (find-window_position buf b'\r' (codes "\n\r\n")) ∙ h)

-- Behind a search without success, the next one may leave out all but the last three bytes.
straddle :
    (buf chunk : Bytes)
    → find buf head_end ≡ none
    → NoMatch head_end (length buf - 3) (buf ++ chunk)
straddle buf chunk h = elim (Bool-cases (ltb (length buf) 3)) [
  | inl e ↦ let z : length buf - 3 ≡ 0 = ground arith in rw z tt
  | inr e ↦
      NoMatch-append head_end (length buf - 3) buf chunk (omega arith) (ground arith)
        (none-NoMatch (length buf - 3) buf h)
]

-- A collected head: where the search of the whole buffer finds its end, within the bound, and the buffer
-- is what was there and what was read.
pub record IsHead (before : Bytes) (end : ℕ) (got : Bytes) : Type 0 where
  pub position : ℕ
  pub first : find got head_end ≡ some position
  pub behind : end ≡ position + 4
  pub bound : end ≤ max_header_bytes
  pub received : Bytes
  pub appended : got ≡ before ++ received

abbrev IsHeadRead : Bytes → HeadRead → Type 0
IsHeadRead before (complete end got rest) = IsHead before end got
IsHeadRead before too_large = Unit
IsHeadRead before timed_out = Unit
IsHeadRead before gone = Unit

bounded_head-IsHead :
    (k : ℕ) (buf : Bytes) (reads : List Read) {pos : ℕ}
    → NoMatch head_end k buf
    → find (drop k buf) head_end ≡ some pos
    → IsHeadRead buf (bounded_head (k + pos + 4) buf reads)
unfolding bounded_head
bounded_head-IsHead k buf reads {pos} m e = elim (Bool-cases (ltb max_header_bytes (k + pos + 4))) [
  | inl b ↦ rw b tt
  | inr b ↦ rw b (record {
    position = k + pos;
    first = resume k buf m ∙ ap (plus k) e;
    behind = refl;
    bound = ground arith;
    received = [];
    appended = sym (append-nil buf);
  })
]

IsHeadRead-append :
    (buf chunk : Bytes) (o : HeadRead) → IsHeadRead (buf ++ chunk) o → IsHeadRead buf o
IsHeadRead-append buf chunk (complete end got rest) h = record {
  position = h.position;
  first = h.first;
  behind = h.behind;
  bound = h.bound;
  received = chunk ++ h.received;
  appended = h.appended ∙ append_assoc buf chunk h.received;
}
IsHeadRead-append buf chunk too_large h = tt
IsHeadRead-append buf chunk timed_out h = tt
IsHeadRead-append buf chunk gone h = tt

test :
    (buf : Bytes) (b : Bool) (x y : HeadRead)
    → IsHeadRead buf x
    → IsHeadRead buf y
    → IsHeadRead buf (if b then x else y)
test buf true x y h k = h
test buf false x y h k = k

module _ (conn_deadline : ℕ) where
  guarded :
      (buf : Bytes) (head_start : Option ℕ) (r : Read) (x : HeadRead)
      → IsHeadRead buf x
      → IsHeadRead buf (
          if leb max_header_bytes (length buf)
          then too_large
          else if expired head_start r.now || leb conn_deadline r.now
          then timed_out
          else x)
  guarded buf head_start r x h =
      test buf (leb max_header_bytes (length buf)) too_large _ tt
        (test buf (expired head_start r.now || leb conn_deadline r.now) timed_out x tt h)

  read_head-IsHeadRead :
      (buf : Bytes) (scanned : ℕ) (head_start : Option ℕ) (reads : List Read)
      → NoMatch head_end (scanned - 3) buf
      → IsHeadRead buf (read_head conn_deadline buf scanned head_start reads)
  unfolding read_head
  read_head-IsHeadRead buf scanned head_start [] m =
      elim (Option-cases (find (drop (scanned - 3) buf) head_end)) [
        | inl e ↦
            rw (e, IsHeadRead) (test buf (leb max_header_bytes (length buf)) too_large gone tt tt)
        | inr (pos, e) ↦ rw (e, IsHeadRead) (bounded_head-IsHead (scanned - 3) buf [] m e)
      ]
  read_head-IsHeadRead buf scanned head_start (r ∷ reads) m =
      elim (Option-cases (find (drop (scanned - 3) buf) head_end)) [
        | inl e ↦ elim (Option-cases r.chunk) [
          | inl n ↦ rw (e, n, IsHeadRead) (guarded buf head_start r gone tt)
          | inr ([], n) ↦ rw (e, n, IsHeadRead) (guarded buf head_start r gone tt)
          | inr (c ∷ chunk, n) ↦
              let none_found = resume (scanned - 3) buf m ∙ ap (plus (scanned - 3)) e in
              let later =
                read_head-IsHeadRead (buf ++ (c ∷ chunk)) (length buf) (begin head_start r.returned)
                  reads (straddle buf (c ∷ chunk) none_found) in
              rw (e, n, IsHeadRead)
                (guarded buf head_start r _ (IsHeadRead-append buf (c ∷ chunk) _ later))
        ]
        | inr (pos, e) ↦ rw (e, IsHeadRead) (bounded_head-IsHead (scanned - 3) buf (r ∷ reads) m e)
      ]

  pub read_head-IsHead :
      (buf : Bytes) (head_start : Option ℕ) (reads rest : List Read) {end : ℕ} {got : Bytes}
      → read_head conn_deadline buf 0 head_start reads ≡ complete end got rest
      → IsHead buf end got
  read_head-IsHead buf head_start reads rest {end} {got} e =
      subst (IsHeadRead buf) e (read_head-IsHeadRead buf 0 head_start reads tt)
