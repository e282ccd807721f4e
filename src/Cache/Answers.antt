-- ===== src/Cache/Answers.antt =====
-- src/cache.rs, `build_variant` and `make_cached`, with src/main.rs, `serve_mem`: the response that a cached
-- entry is sent as.
use bare_server.Base.{
  ℕ, ◌≤◌, ◌<◌, ◌≡◌, ◌≢◌, ◌⊎◌, inl, inr, refl, sym, ap, ◌∙◌, Bool, true, false, ◌&&◌, ◌||◌, not,
  Option, none, some, [], ◌∷◌, ◌++◌, append-nil, length, take, drop, take-append_length,
  drop-append_length, all, arith, ltb, leb, ◌==◌, if◌then◌else◌, Bytes, codes, All, All-append,
  All-map,
}
use bare_server.Text.{
  strip_prefix, beq, rsplit_once, to_ascii_lowercase, print_decimal, print_decimal-IsDigits,
  print_hex-All, is_digit,
}
use bare_server.Head.{well_formed_head}
use bare_server.Head.Framing.{
  IsFramed, IsFramed-append, well_formed_head_iff, IsFieldByte, IsLine-IsFramed,
}
use bare_server.Response.{crlf, encoding_line, vary_line, connection_value}
use bare_server.Mime.{mime_for, type_of, typed}
use bare_server.Serve.{replace_first, flip_connection, send_variant}
use bare_server.Settings.{Tuning, HeaderConfig}
use bare_server.Config.{Storage}
use bare_server.Cache.{
  with_headers, is_fingerprinted, cache_control_for, etag_for, fnv, build_header, build_variant,
}

-- A printable byte that is no `C`, so that no `Connection` starts at it.
abbrev pub IsQuiet : ℕ → Type 0
IsQuiet c = (0x20 ≤ c) × (c < 0x7f) × (c ≢ b'C')

abbrev is_quiet : ℕ → Bool
is_quiet c = leb 0x20 c && ltb c 0x7f && not (c == b'C')

all-IsQuiet : (s : Bytes) → all is_quiet s ≡ true → All IsQuiet s
all-IsQuiet [] h = tt
all-IsQuiet (c ∷ s) h = (ground arith, all-IsQuiet s (ground arith))

digits-IsQuiet : (n : ℕ) → All IsQuiet (print_decimal n)
digits-IsQuiet n =
    All-map (λ c. is_digit c ≡ true) IsQuiet (print_decimal n) (λ c h. ground arith)
      (print_decimal-IsDigits n)

pub etag_for-IsQuiet : (body : Bytes) → All IsQuiet (etag_for body)
unfolding etag_for
etag_for-IsQuiet body =
    All-append IsQuiet _ _ (print_hex-All IsQuiet (λ d h. ground arith) (length body))
      (omega arith, print_hex-All IsQuiet (λ d h. ground arith) (fnv 0xcbf29ce484222325 body))

-- A text of such bytes, as a record for the sake of inference.
record IsQuietText (s : Bytes) : Type 0 where
  pub quiet : All IsQuiet s

literal : (s : Bytes) → all is_quiet s ≡ true → IsQuietText s
literal s h = record { quiet = all-IsQuiet s h }

test :
    (b : Bool) (s t : Bytes)
    → all is_quiet s ≡ true
    → IsQuietText t
    → IsQuietText (if b then s else t)
test true s t h k = literal s h
test false s t h k = k

type_of-IsQuiet : (e : Bytes) → IsQuietText (type_of e)
unfolding type_of
type_of-IsQuiet e = test (beq e (codes "html") || beq e (codes "htm")) _ _ refl (
    test (beq e (codes "css")) _ _ refl (
      test (beq e (codes "js") || beq e (codes "mjs")) _ _ refl (
        test (beq e (codes "json")) _ _ refl (
          test (beq e (codes "txt")) _ _ refl (
            test (beq e (codes "xml")) _ _ refl (
              test (beq e (codes "svg")) _ _ refl (
                test (beq e (codes "png")) _ _ refl (
                  test (beq e (codes "jpg") || beq e (codes "jpeg")) _ _ refl (
                    test (beq e (codes "gif")) _ _ refl (
                      test (beq e (codes "webp")) _ _ refl (
                        test (beq e (codes "avif")) _ _ refl (
                          test (beq e (codes "ico")) _ _ refl (
                            test (beq e (codes "woff")) _ _ refl (
                              test (beq e (codes "woff2")) _ _ refl (
                                test (beq e (codes "ttf")) _ _ refl (
                                  test (beq e (codes "pdf")) _ _ refl (
                                    test (beq e (codes "wasm")) _ _ refl (
                                      test (beq e (codes "mp4")) _ _ refl (
                                        test (beq e (codes "webm")) _ _ refl (
                                          test (beq e (codes "mp3")) _ _ refl (
                                            literal (codes "application/octet-stream")
                                              refl)))))))))))))))))))))

pub mime_for-IsQuiet : (path : Bytes) → All IsQuiet (mime_for path)
unfolding mime_for
mime_for-IsQuiet path = of_typed (rsplit_once b'.' path)
  where
    of_typed : (o : Option (Bytes × Bytes)) → All IsQuiet (typed o)
    of_typed none = all-IsQuiet (codes "application/octet-stream") refl
    of_typed (some (stem, ext)) = (type_of-IsQuiet (to_ascii_lowercase ext)).quiet

pub cache_control_for-IsQuiet :
    (t : Tuning) (h : HeaderConfig) (storage : Storage) (disk_cache url : Bytes)
    → All IsQuiet (cache_control_for (with_headers t h storage disk_cache) url)
unfolding cache_control_for with_headers
cache_control_for-IsQuiet t h storage disk_cache url = chosen (is_fingerprinted url)
  where
    aged :
        (n : ℕ) (s : Bytes)
        → all is_quiet s ≡ true
        → All IsQuiet (codes "public, max-age=" ++ (print_decimal n ++ s))
    aged n s e =
        All-append IsQuiet (codes "public, max-age=") _
          (all-IsQuiet (codes "public, max-age=") refl)
          (All-append IsQuiet (print_decimal n) s (digits-IsQuiet n) (all-IsQuiet s e))

    chosen :
        (b : Bool)
        → All IsQuiet (
            if b
            then codes "public, max-age="
              ++ (print_decimal t.immutable_max_age ++ codes ", immutable")
            else codes "public, max-age="
              ++ (print_decimal t.cache_max_age ++ codes ", must-revalidate"))
    chosen true = aged t.immutable_max_age _ refl
    chosen false = aged t.cache_max_age _ refl

-- The codings that a variant can have.
abbrev pub IsCoding : Option Bytes → Type 0
IsCoding o = (o ≡ none) ⊎ (o ≡ some (codes "gzip")) ⊎ (o ≡ some (codes "br"))

-- The header of a 200, with the value of the field Connection.
abbrev pub ok_header : Bytes → ℕ → Bytes → Option Bytes → Bool → Bytes → Bytes → Bytes → Bytes
ok_header mime body_len etag encoding vary cache_control conn security_headers =
    codes "HTTP/1.1 200 OK\r\nContent-Type: "
    ++ (mime
        ++ (codes "\r\nContent-Length: "
            ++ (print_decimal body_len
                ++ (codes "\r\nETag: \""
                    ++ (etag
                        ++ (codes "\"\r\n"
                            ++ (encoding_line encoding
                                ++ (vary_line vary
                                    ++ (codes "Cache-Control: "
                                        ++ (cache_control
                                            ++ (codes "\r\nConnection: "
                                                ++ (conn
                                                    ++ (codes "\r\n"
                                                        ++ (security_headers ++ crlf))))))))))))))

replace_first-skip :
    (old new s : Bytes) (c : ℕ)
    → strip_prefix old (c ∷ s) ≡ none
    → replace_first old new (c ∷ s) ≡ c ∷ replace_first old new s
unfolding replace_first
replace_first-skip old new s c e = rw (e, replace_first) refl

quiet-strip_prefix : (p s : Bytes) (c : ℕ) → c ≢ b'C' → strip_prefix (b'C' ∷ p) (c ∷ s) ≡ none
unfolding strip_prefix
quiet-strip_prefix p s c h = ground arith

-- Text in which no `Connection` starts is passed over.
flip-append : (s t : Bytes) → All IsQuiet s → flip_connection (s ++ t) ≡ s ++ flip_connection t
flip-append [] t h = refl
flip-append (c ∷ s) t h =
    replace_first-skip _ _ (s ++ t) c (quiet-strip_prefix _ (s ++ t) c h.0.2)
    ∙ ap (◌∷◌ c) (flip-append s t h.1)

flip-encoding :
    (o : Option Bytes) (t : Bytes)
    → IsCoding o
    → flip_connection (encoding_line o ++ t) ≡ encoding_line o ++ flip_connection t
unfolding replace_first strip_prefix
flip-encoding o t (inl e) = rw e refl
flip-encoding o t (inr (inl e)) = rw e refl
flip-encoding o t (inr (inr e)) = rw e refl

flip-vary :
    (b : Bool) (t : Bytes) → flip_connection (vary_line b ++ t) ≡ vary_line b ++ flip_connection t
unfolding replace_first strip_prefix
flip-vary true t = refl
flip-vary false t = refl

module _ (mime etag cache_control security_headers : Bytes) (body_len : ℕ) (encoding : Option Bytes)
    (vary : Bool) (m : All IsQuiet mime) (e : All IsQuiet etag) (cc : All IsQuiet cache_control)
    (coding : IsCoding encoding) where
  -- Changing the field Connection of a built header to `close` is building it with `close`.
  flip-build_header :
      flip_connection (build_header mime body_len etag encoding vary cache_control security_headers)
      ≡ ok_header mime body_len etag encoding vary cache_control (codes "close") security_headers
  unfolding build_header replace_first strip_prefix
  flip-build_header =
      ap (λ x. codes "HTTP/1.1 200 OK\r\nContent-Type: " ++ x)
        (flip-append mime _ m
          ∙ ap (λ x. mime ++ (codes "\r\nContent-Length: " ++ x))
              (flip-append (print_decimal body_len) _ (digits-IsQuiet body_len)
                ∙ ap (λ x. print_decimal body_len ++ (codes "\r\nETag: \"" ++ x))
                    (flip-append etag _ e
                      ∙ ap (λ x. etag ++ (codes "\"\r\n" ++ x))
                          (flip-encoding encoding _ coding
                            ∙ ap (λ x. encoding_line encoding ++ x)
                                (flip-vary vary _
                                  ∙ ap (λ x. vary_line vary ++ (codes "Cache-Control: " ++ x))
                                      (flip-append cache_control _ cc))))))

  ok_header-build_header :
      (keep_alive : Bool)
      → (if keep_alive
          then build_header mime body_len etag encoding vary cache_control security_headers
          else flip_connection
              (build_header mime body_len etag encoding vary cache_control security_headers))
        ≡ ok_header mime body_len etag encoding vary cache_control
            (connection_value keep_alive)
            security_headers
  unfolding build_header
  ok_header-build_header true = refl
  ok_header-build_header false = flip-build_header

  -- The header of a 200 is strictly framed, whatever block of security headers it carries.
  pub ok_header-IsFramed :
      (keep_alive : Bool)
      → IsFramed security_headers
      → IsFramed (
          ok_header mime body_len etag encoding vary cache_control
            (connection_value keep_alive)
            security_headers)
  unfolding well_formed_head
  ok_header-IsFramed keep_alive f =
      IsFramed-append (literal_framed (codes "HTTP/1.1 200 OK\r\nContent-Type: ") refl) (
        IsFramed-append (quiet_framed mime m) (
          IsFramed-append (literal_framed (codes "\r\nContent-Length: ") refl) (
            IsFramed-append (quiet_framed (print_decimal body_len) (digits-IsQuiet body_len)) (
              IsFramed-append (literal_framed (codes "\r\nETag: \"") refl) (
                IsFramed-append (quiet_framed etag e) (
                  IsFramed-append (literal_framed (codes "\"\r\n") refl) (
                    IsFramed-append (coding_framed encoding coding) (
                      IsFramed-append (vary_framed vary) (
                        IsFramed-append (literal_framed (codes "Cache-Control: ") refl) (
                          IsFramed-append (quiet_framed cache_control cc) (
                            IsFramed-append (literal_framed (codes "\r\nConnection: ") refl) (
                              IsFramed-append (connection_framed keep_alive) (
                                IsFramed-append (literal_framed (codes "\r\n") refl)
                                  (IsFramed-append f (literal_framed crlf refl)))))))))))))))
    where
      literal_framed : (l : Bytes) → well_formed_head l ≡ true → IsFramed l
      literal_framed l h = (well_formed_head_iff l).0 h

      quiet_framed : (s : Bytes) → All IsQuiet s → IsFramed s
      quiet_framed s h =
          IsLine-IsFramed s (All-map IsQuiet IsFieldByte s (λ c k. (inr k.0, omega (arith, k.1))) h)

      coding_framed : (o : Option Bytes) → IsCoding o → IsFramed (encoding_line o)
      coding_framed o (inl k) = rw k (literal_framed [] refl)
      coding_framed o (inr (inl k)) =
          rw k (literal_framed (codes "Content-Encoding: gzip\r\n") refl)
      coding_framed o (inr (inr k)) = rw k (literal_framed (codes "Content-Encoding: br\r\n") refl)

      vary_framed : (v : Bool) → IsFramed (vary_line v)
      vary_framed true = literal_framed (codes "Vary: Accept-Encoding\r\n") refl
      vary_framed false = literal_framed [] refl

      connection_framed : (k : Bool) → IsFramed (connection_value k)
      connection_framed true = literal_framed (codes "keep-alive") refl
      connection_framed false = literal_framed (codes "close") refl

-- A built variant is sent as the header with the Connection that is asked for, and the body unless it is
-- for HEAD: the header of `close` is the one that would have been built with it.
pub send_variant-build_variant :
    (mime body cache_control security_headers : Bytes) (encoding : Option Bytes)
    (vary keep_alive is_head : Bool)
    → All IsQuiet mime
    → All IsQuiet cache_control
    → IsCoding encoding
    → send_variant
        (build_variant mime body encoding vary cache_control security_headers)
        keep_alive
        is_head
      ≡ ok_header mime
          (length body)
          (etag_for body)
          encoding
          vary
          cache_control
          (connection_value keep_alive)
          security_headers
        ++ (if is_head then [] else body)
unfolding send_variant build_variant
send_variant-build_variant mime body cc sh encoding vary keep_alive is_head m c i =
    let h : Bytes = build_header mime (length body) (etag_for body) encoding vary cc sh in
    let flip : (k : Bool)
        → (if k then h else flip_connection h)
          ≡ ok_header mime (length body) (etag_for body) encoding vary cc (connection_value k) sh =
      ok_header-build_header mime (etag_for body) cc sh (length body) encoding vary m
        (etag_for-IsQuiet body) c i in
    sent h keep_alive is_head (flip keep_alive)
  where
    sent :
        (h : Bytes) (k head : Bool) {o : Bytes}
        → (if k then h else flip_connection h) ≡ o
        → (if k
            then (if head then take (length h) (h ++ body) else h ++ body)
            else flip_connection (take (length h) (h ++ body))
              ++ (if head then [] else drop (length h) (h ++ body)))
          ≡ o ++ (if head then [] else body)
    sent h true true f = take-append_length h body ∙ f ∙ sym (append-nil _)
    sent h true false f = ap (λ x. x ++ body) f
    sent h false true f =
        ap (λ x. flip_connection x ++ []) (take-append_length h body) ∙ ap (λ x. x ++ []) f
    sent h false false f =
        ap (λ x. flip_connection x ++ drop (length h) (h ++ body)) (take-append_length h body)
        ∙ ap (λ x. flip_connection h ++ x) (drop-append_length h body)
        ∙ ap (λ x. x ++ body) f
