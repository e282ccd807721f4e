-- ===== src/Serve/Bodies.antt =====
-- src/main.rs, `serve_mem` and `stream_body`: the variant and the body that a client gets.
use bare_server.Base.{
  is_nil, ℕ, zero, suc, ◌-◌, ◌≡◌, ◌⊎◌, refl, sym, ap, min, true, false, Option, none, some, List,
  [], ◌∷◌, ◌++◌, length, take, map, arith, ◌==◌, Bytes, codes, All, Bool-cases, inl, inr,
}
use bare_server.Negotiate.{accepts_encoding}
use bare_server.Serve.{pick, stream_body}

-- The variant of a coding is there, and the client takes the coding.
abbrev pub IsChosen {ℓ} : {V : Type ℓ} → Option V → Bytes → Bytes → V → Type ℓ
IsChosen o token accept_enc v = (o ≡ some v) × (accepts_encoding accept_enc token ≡ true)

-- The variant that is served is the identity, or one in a coding that the client accepts.
pub pick-IsChosen {ℓ} :
    {V : Type ℓ} (br gzip : Option V) (identity : V) (accept_enc : Bytes)
    → let v = pick br gzip identity accept_enc in
      (v ≡ identity)
      ⊎ IsChosen br (codes "br") accept_enc v
      ⊎ IsChosen gzip (codes "gzip") accept_enc v
unfolding pick
pick-IsChosen none none identity accept_enc = inl refl
pick-IsChosen none (some g) identity accept_enc =
    elim (Bool-cases (accepts_encoding accept_enc (codes "gzip"))) [
      | inl e ↦ inr (inr (ap some (rw e refl), e))
      | inr e ↦ inl (rw e refl)
    ]
pick-IsChosen (some b) none identity accept_enc =
    elim (Bool-cases (accepts_encoding accept_enc (codes "br"))) [
      | inl e ↦ inr (inl (ap some (rw e refl), e))
      | inr e ↦ inl (rw e refl)
    ]
pick-IsChosen (some b) (some g) identity accept_enc =
    elim (Bool-cases (accepts_encoding accept_enc (codes "br"))) [
      | inl e ↦ inr (inl (ap some (rw e refl), e))
      | inr e ↦ elim (Bool-cases (accepts_encoding accept_enc (codes "gzip"))) [
        | inl f ↦ inr (inr (ap some (rw (e, f) refl), f))
        | inr f ↦ inl (rw (e, f) refl)
      ]
    ]

abbrev pub joined : List Bytes → Bytes
joined [] = []
joined (c ∷ cs) = c ++ joined cs

take-zero : (s : Bytes) → take 0 s ≡ []
take-zero [] = refl
take-zero (c ∷ s) = refl

take-nil : (n : ℕ) → ◌≡◌ {A = Bytes} (take n []) []
take-nil zero = refl
take-nil (suc n) = refl

take-min-append :
    (n : ℕ) (a b : Bytes)
    → take (min (length a) n) a ++ take (n - min (length a) n) b ≡ take n (a ++ b)
take-min-append zero [] b = refl
take-min-append (suc n) [] b =
    let e : suc n - min 0 (suc n) ≡ suc n = omega arith in
    rw e (ap (λ s. s ++ take (suc n) b) (take-nil (min 0 (suc n))))
take-min-append zero (c ∷ a) b =
    let e : min (suc (length a)) 0 ≡ 0 = omega arith in rw e (take-zero b)
take-min-append (suc n) (c ∷ a) b =
    let e : min (suc (length a)) (suc n) ≡ suc (min (length a) n) = omega arith in
    let f : suc n - suc (min (length a) n) ≡ n - min (length a) n = omega arith in
    rw (e, f) (ap (◌∷◌ c) (take-min-append n a b))

-- The body of a file whose reads succeed is its content, cut at the given length: no chunk is lost or
-- sent twice, and nothing behind the length goes out.
pub stream_body-take :
    (chunks : List Bytes) (len : ℕ)
    → All (λ c. is_nil c ≡ false) chunks
    → stream_body (map some chunks) len ≡ (take len (joined chunks), true)
unfolding stream_body
stream_body-take [] zero h = refl
stream_body-take [] (suc n) h = refl
stream_body-take (c ∷ chunks) zero h = ap (λ s. (s, true)) (sym (take-zero (joined (c ∷ chunks))))
stream_body-take (c ∷ chunks) (suc n) h =
    let e : (suc n == 0) ≡ false = ground arith in
    rw (e, h.0, stream_body-take chunks (suc n - min (length c) (suc n)) h.1)
      (ap (λ s. (s, true)) (take-min-append (suc n) c (joined chunks)))
