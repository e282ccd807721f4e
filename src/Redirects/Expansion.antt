-- ===== src/Redirects/Expansion.antt =====
-- src/config.rs, `expand`: its early return, and the bytes of its result.
use bare_server.Base.{
  ℕ, ◌≡◌, refl, Bool, false, [], ◌∷◌, any, arith, ◌==◌, Bytes, All, All-append, Bool-cases, inl,
  inr,
}
use bare_server.Redirects.{expand, expand_chars}

abbrev pub has_dollar : Bytes → Bool
has_dollar = any λ c. c == b'$'

expand_chars_plain : (t path cap : Bytes) → has_dollar t ≡ false → expand_chars t path cap ≡ t
unfolding expand_chars
expand_chars_plain [] path cap h = refl
expand_chars_plain (c ∷ []) path cap h = refl
expand_chars_plain (c ∷ d ∷ s) path cap h = ground (arith, expand_chars_plain (d ∷ s) path cap)

-- `expand` is its loop, on a template with and without a `$`.
pub expand-expand_chars : (t path cap : Bytes) → expand t path cap ≡ expand_chars t path cap
unfolding expand
expand-expand_chars t path cap = elim (Bool-cases (has_dollar t)) [
  | inl e ↦ rw e
  | inr e ↦ rw (e, expand_chars_plain t path cap e)
]

module _ (P : ℕ → Type 0) (dollar : P b'$') (path cap : Bytes) (hp : All P path)
    (hc : All P cap) where
  expand_chars-All : (t : Bytes) → All P t → All P (expand_chars t path cap)
  unfolding expand_chars
  expand_chars-All [] h = tt
  expand_chars-All (c ∷ []) h = h
  expand_chars-All (c ∷ d ∷ s) h =
      let past_capture = expand_chars-All s h.1.1 in
      let past_char = expand_chars-All (d ∷ s) h.1 in
      ground (
        arith,
        past_capture,
        past_char,
        All-append P path (expand_chars s path cap) hp past_capture,
        All-append P cap (expand_chars s path cap) hc past_capture,
      )

  -- What holds of a `$` and of every byte of the template, the path and the capture holds of every byte
  -- of the expansion.
  pub expand-All : (t : Bytes) → All P t → All P (expand t path cap)
  expand-All t h = rw (expand-expand_chars t path cap) (expand_chars-All t h)
