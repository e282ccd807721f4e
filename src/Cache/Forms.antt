-- ===== src/Cache/Forms.antt =====
-- src/cache.rs, `compress_variants` and `make_cached`, with src/main.rs, `serve_mem`: the answer to a request
-- for a file whose entry is in RAM.
use bare_server.Base.{
  ℕ, ◌≤◌, ◌<◌, ◌≡◌, ◌⊎◌, inl, inr, refl, sym, ap, ◌∙◌, subst, Bool, true, false, ◌&&◌, ◌||◌, Option,
  none, some, [], ◌++◌, length, arith, leb, ltb, if◌then◌else◌, Bytes, codes, Bool-cases,
}
use bare_server.Negotiate.{accepts_encoding}
use bare_server.Response.{send_304, connection_value}
use bare_server.Mime.{mime_for}
use bare_server.Site
use bare_server.Site.{Variant, MemEntry}
use bare_server.Serve.{Reply, reply, pick, is_unmodified, send_variant, serve_mem}
use bare_server.Serve.Bodies.{pick-IsChosen, IsChosen}
use bare_server.Settings.{Tuning, HeaderConfig, render}
use bare_server.Config.{Storage}
use bare_server.Cache.{
  with_headers, cache_control_for, etag_for, is_compressible, build_variant, some_if, is_some,
  build_coded, new_entry, shrunk, compress_variants, make_cached,
}
use bare_server.Cache.Answers.{
  IsCoding, ok_header, send_variant-build_variant, mime_for-IsQuiet, cache_control_for-IsQuiet,
}

module _ (gzip_compress brotli_compress : Bytes → ℕ → Bytes) (mime content : Bytes) where
  -- A compressed body that is kept.
  pub record IsSmaller (t : Tuning) (limit : ℕ) (packed body : Bytes) : Type 0 where
    pub packs : body ≡ packed
    pub smaller : length body < length content
    pub limited : length content ≤ limit
    pub enabled : t.compression ≡ true
    pub compressible : is_compressible mime ≡ true
    pub worthwhile : t.min_compress_bytes ≤ length content

  abbrev pub GzipOf : Tuning → Bytes → Type 0
  GzipOf t = IsSmaller t t.max_gzip_bytes (gzip_compress content t.gzip_level)

  abbrev pub BrotliOf : Tuning → Bytes → Type 0
  BrotliOf t = IsSmaller t t.max_brotli_bytes (brotli_compress content t.brotli_quality)

  shrunk-IsSmaller :
      (t : Tuning) (limit : ℕ) (packed : Bytes) {body : Bytes}
      → (t.compression && is_compressible mime && leb t.min_compress_bytes (length content)) ≡ true
      → shrunk gzip_compress brotli_compress content limit packed ≡ some body
      → IsSmaller t limit packed body
  shrunk-IsSmaller t limit packed {body} e h =
      kept (leb (length content) limit && ltb (length packed) (length content)) refl h
    where
      kept :
          (b : Bool)
          → (leb (length content) limit && ltb (length packed) (length content)) ≡ b
          → some_if b packed ≡ some body
          → IsSmaller t limit packed body
      kept false f k = absurd (ground arith)
      kept true f k =
          let same : packed ≡ body = ground arith in
          record {
            packs = sym same;
            smaller = subst (λ x. length x < length content) same (ground arith);
            limited = ground arith;
            enabled = ground arith;
            compressible = ground arith;
            worthwhile = ground arith;
          }

  -- A body is compressed only if compression is on, the media type is compressible and the file is neither
  -- too short nor too long, and it is kept only if it is smaller than the file.
  pub compress_variants-IsSmaller :
      (t : Tuning) (body : Bytes)
      → let packed = compress_variants gzip_compress brotli_compress mime content t in
        (packed.0 ≡ some body → GzipOf t body) × (packed.1 ≡ some body → BrotliOf t body)
  unfolding compress_variants
  compress_variants-IsSmaller t body =
      elim (Bool-cases
        (t.compression && is_compressible mime && leb t.min_compress_bytes (length content))) [
          | inl e ↦ rw e ((λ h. shrunk-IsSmaller t _ _ e h), (λ h. shrunk-IsSmaller t _ _ e h))
          | inr e ↦ rw e ((λ h. absurd (ground arith)), (λ h. absurd (ground arith)))
        ]

  build_coded-eq-some :
      (o : Option Bytes) (coding control sh : Bytes) {v : Variant}
      → build_coded mime o coding control sh ≡ some v
      → (body : Bytes) × (o ≡ some body)
        × (v ≡ build_variant mime body (some coding) true control sh)
  build_coded-eq-some none coding control sh h = absurd (ground arith)
  build_coded-eq-some (some body) coding control sh {v} h =
      (body, refl, let e : build_variant mime body (some coding) true control sh ≡ v = cc in sym e)

-- The body of an answer with its coding, and what it is to the contents of the file: the contents, or what a
-- compressor makes of them, in a coding that the client accepts.
abbrev pub IsForm :
    (Bytes → ℕ → Bytes)
    → (Bytes → ℕ → Bytes)
    → Bytes
    → Bytes
    → Tuning
    → Bytes
    → Bytes
    → Option Bytes
    → Type 0
IsForm gzip_compress brotli_compress mime content t accept_enc body encoding =
    ((body ≡ content) × (encoding ≡ none))
    ⊎ (GzipOf gzip_compress brotli_compress mime content t body
        × (encoding ≡ some (codes "gzip"))
        × (accepts_encoding accept_enc (codes "gzip") ≡ true))
    ⊎ (BrotliOf gzip_compress brotli_compress mime content t body
        × (encoding ≡ some (codes "br"))
        × (accepts_encoding accept_enc (codes "br") ≡ true))

module _ (gzip_compress brotli_compress : Bytes → ℕ → Bytes) (t : Tuning) (h : HeaderConfig)
    (storage : Storage) (disk_cache url content accept_enc inm : Bytes) (keep_alive is_head : Bool)
    (policy : Site.Policy) where
  abbrev control : Bytes
  control = cache_control_for (with_headers t h storage disk_cache) url

  -- The answer with a body of a coding: a 304 if the client has it, the whole response if not.
  abbrev pub answer : Bytes → Option Bytes → Bool → Bool → Reply
  answer body encoding vary entry_vary =
      if is_unmodified inm (etag_for body)
      then reply
          (send_304 (etag_for body) encoding entry_vary control keep_alive policy.security_headers)
          keep_alive
      else reply
          (ok_header (mime_for url) (length body) (etag_for body) encoding vary control
              (connection_value keep_alive) (render h)
            ++ (if is_head then [] else body))
          keep_alive

  abbrev pub IsAnswer : Reply → Type 0
  IsAnswer r =
      (body : Bytes) × (encoding : Option Bytes) × (vary : Bool) × IsForm gzip_compress
        brotli_compress (mime_for url) content t accept_enc body encoding
      × (r ≡ answer body encoding vary vary)

  -- What `serve_mem` replies with the variant that it has picked.
  abbrev replied : Bool → Variant → Reply
  replied entry_vary v =
      if is_unmodified inm v.etag
      then reply (send_304 v.etag v.encoding entry_vary control keep_alive policy.security_headers)
          keep_alive
      else reply (send_variant v keep_alive is_head) keep_alive

  replied-answer :
      (body : Bytes) (encoding : Option Bytes) (vary entry_vary : Bool)
      → IsCoding encoding
      → replied entry_vary (build_variant (mime_for url) body encoding vary control (render h))
        ≡ answer body encoding vary entry_vary
  unfolding build_variant
  replied-answer body encoding vary entry_vary i =
      ap
        (λ x.
          if is_unmodified inm (etag_for body)
          then reply
              (send_304 (etag_for body) encoding entry_vary control keep_alive
                policy.security_headers)
              keep_alive
          else reply x keep_alive)
        (send_variant-build_variant (mime_for url) body control (render h) encoding vary keep_alive
          is_head (mime_for-IsQuiet url) (cache_control_for-IsQuiet t h storage disk_cache url) i)

  new_entry-IsAnswer :
      (gz brb : Option Bytes)
      → ((body : Bytes)
          → gz ≡ some body
          → GzipOf gzip_compress brotli_compress (mime_for url) content t body)
      → ((body : Bytes)
          → brb ≡ some body
          → BrotliOf gzip_compress brotli_compress (mime_for url) content t body)
      → IsAnswer (
          serve_mem
            (new_entry (mime_for url) content control (render h) gz brb)
            accept_enc
            inm
            keep_alive
            is_head
            policy)
  unfolding serve_mem
  new_entry-IsAnswer gz brb by_gzip by_brotli =
      let m = mime_for url in
      let vary = is_some gz || is_some brb in
      let brotli = build_coded m brb (codes "br") control (render h) in
      let gzip = build_coded m gz (codes "gzip") control (render h) in
      let identity = build_variant m content none vary control (render h) in
      picked gz brb by_gzip by_brotli (pick brotli gzip identity accept_enc)
        (pick-IsChosen brotli gzip identity accept_enc)
    where
      picked :
          (gz brb : Option Bytes)
          → ((body : Bytes)
              → gz ≡ some body
              → GzipOf gzip_compress brotli_compress (mime_for url) content t body)
          → ((body : Bytes)
              → brb ≡ some body
              → BrotliOf gzip_compress brotli_compress (mime_for url) content t body)
          → (v : Variant)
          → ((v
                ≡ build_variant
                    (mime_for url)
                    content
                    none
                    (is_some gz || is_some brb)
                    control
                    (render h))
              ⊎ IsChosen
                  (build_coded (mime_for url) brb (codes "br") control (render h))
                  (codes "br")
                  accept_enc
                  v
              ⊎ IsChosen
                  (build_coded (mime_for url) gz (codes "gzip") control (render h))
                  (codes "gzip")
                  accept_enc
                  v)
          → IsAnswer (replied (is_some gz || is_some brb) v)
      picked gz brb p q v (inl e) =
          let vary : Bool = is_some gz || is_some brb in
          (
            content,
            none,
            vary,
            inl (refl, refl),
            ap (replied vary) e ∙ replied-answer content none vary vary (inl refl),
          )
      picked gz none p q v (inr (inl (e, a))) = absurd (ground arith)
      picked gz (some b) p q v (inr (inl (e, a))) =
          let (body, f, g) =
            build_coded-eq-some gzip_compress brotli_compress (mime_for url) content (some b)
              (codes "br") control (render h) e in
          let entry_vary : Bool = is_some gz || true in
          (
            body,
            some (codes "br"),
            true,
            inr (inr (q body f, refl, a)),
            ap (replied entry_vary) g
                ∙ replied-answer body (some (codes "br")) true entry_vary (inr (inr refl))
                ∙ ap (answer body (some (codes "br")) true)
                    (let z : (is_some gz || true) ≡ true = ground arith in z),
          )
      picked none brb p q v (inr (inr (e, a))) = absurd (ground arith)
      picked (some b) brb p q v (inr (inr (e, a))) =
          let (body, f, g) =
            build_coded-eq-some gzip_compress brotli_compress (mime_for url) content (some b)
              (codes "gzip") control (render h) e in
          (
            body,
            some (codes "gzip"),
            true,
            inr (inl (p body f, refl, a)),
            ap (replied true) g
                ∙ replied-answer body (some (codes "gzip")) true true (inr (inl refl)),
          )

  -- `serve_mem` on an entry that `make_cached` built answers from the contents of the file: a 304 with the
  -- validator of the body, or the header of a 200 with the length of the body and the body itself. The
  -- body is the contents, or a smaller form of them in a coding that the client accepts.
  pub serve_mem-make_cached : IsAnswer (
      serve_mem
        (make_cached gzip_compress brotli_compress url
          (mime_for url)
          content
          (with_headers t h storage disk_cache))
        accept_enc
        inm
        keep_alive
        is_head
        policy)
  unfolding make_cached with_headers
  serve_mem-make_cached =
      let packed = compress_variants gzip_compress brotli_compress (mime_for url) content t in
      new_entry-IsAnswer packed.0 packed.1
        (λ body.
          (compress_variants-IsSmaller gzip_compress brotli_compress (mime_for url) content t
            body).0)
        (λ body.
          (compress_variants-IsSmaller gzip_compress brotli_compress (mime_for url) content t
            body).1)
