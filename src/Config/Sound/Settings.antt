-- ===== src/Config/Sound/Settings.antt =====
-- src/config.rs, `parse_config`: a `key = value` line keeps the invariant.
use bare_server.Base.{
  is_nil, ℕ, ◌≤◌, ◌≡◌, refl, sym, ◌∙◌, subst, Bool, true, false, ◌||◌, Option, none, some, arith,
  if◌then◌else◌, Bytes, codes, ltb, All, All-append,
}
use bare_server.Text.{beq, trim, to_ascii_lowercase, rsplit_once}
use bare_server.Settings.{
  Tuning, HeaderConfig, Parsed, ok, err, Applied, applied, unowned, failed, apply_shared,
  parse_bool, parse_size, parse_count, parse_deadline_secs, parse_secs, then_parsed,
  too_many_seconds,
}
use bare_server.Settings.Headers.{IsValid, apply_shared-IsValid}
use bare_server.Settings.Shape.{apply_shared-again}
use bare_server.Config.{Outcome, rejected, at, LineError, PendingSite, Reading}
use bare_server.Config.Keys.{
  value_at, in_block, override_at, tunable, site_setting, server_only_reason, listen_at, storage_at,
  default_at, server_setting,
}
use bare_server.Config.Sound.{
  Post, IsWithin, IsTried, IsBlock, HasSoundRules, HasFinishedRules, IsSound,
}

abbrev pub Kept : ℕ → Outcome Reading → Type 0
Kept last = Post (IsSound last) (IsWithin last)

-- A setting that only a deadline in range can have.
bounded-secs :
    (p : Parsed ℕ) {n : ℕ}
    → then_parsed p (λ m. if ltb 86400 m then err too_many_seconds else ok m) ≡ ok n
    → n ≤ 86400
bounded-secs (ok m) {n} e = ground arith
bounded-secs (err f) {n} e = ground arith

some-PendingSite : (p q : PendingSite) → ◌≡◌ {A = Option PendingSite} (some p) (some q) → p ≡ q
some-PendingSite p q e = cc

module _ (last n : ℕ) (l : 1 ≤ n) (u : n ≤ last) where
  pub fails : (e : LineError) → Kept last (rejected (at n e))
  fails e = (n, e, refl, l, u)

  pub test :
      (b : Bool) (x y : Outcome Reading)
      → Kept last x
      → Kept last y
      → Kept last (if b then x else y)
  test true x y h k = h
  test false x y h k = k

  value_at-Kept {ℓ} :
      {A : Type ℓ} (p : Parsed A) (f : A → Outcome Reading)
      → ((a : A) → p ≡ ok a → Kept last (f a))
      → Kept last (value_at n p f)
  value_at-Kept (ok a) f h = h a refl
  value_at-Kept (err e) f h = fails _

  module _ (s : Reading) (w : IsSound last s) where
    pub in_block-Kept : (p : PendingSite) → IsBlock HasSoundRules last p → Kept last (in_block s p)
    in_block-Kept p b = record {
      settings = w.settings;
      secs = w.secs;
      closed = w.closed;
      current = λ q e. subst (IsBlock HasSoundRules last) (some-PendingSite p q e) b;
    }

    module _ (p : PendingSite) (b : IsBlock HasSoundRules last p) where
      -- A block whose host names, line, rules and overrides are those of `p`.
      like :
          {q : PendingSite}
          → q.hosts ≡ p.hosts
          → q.line ≡ p.line
          → q.redirects ≡ p.redirects
          → q.overrides ≡ p.overrides
          → IsBlock HasSoundRules last q
      like {q} e f g h = record {
        named = subst (λ x. is_nil x ≡ false) (sym e) b.named;
        first = subst (λ x. 1 ≤ x) (sym f) b.first;
        last = subst (λ x. x ≤ last) (sym f) b.last;
        rules = subst HasSoundRules (sym g) b.rules;
        tried = subst (All (IsTried last)) (sym h) b.tried;
      }

      override_at-Kept :
          (k v : Bytes) (a : Applied)
          → apply_shared s.tuning s.headers k v ≡ a
          → Kept last (override_at n k v s p a)
      override_at-Kept k v (failed e) h = fails _
      override_at-Kept k v unowned h = fails _
      override_at-Kept k v (applied t g) h = in_block-Kept _ (record {
        named = b.named;
        first = b.first;
        last = b.last;
        rules = b.rules;
        tried = All-append (IsTried last) p.overrides _ b.tried (
          record {
            first = l;
            last = u;
            shared = λ t' g'. apply_shared-again s.tuning t' s.headers g' k v h;
          },
          tt,
        );
      })

      tunable-Kept : (k v : Bytes) (o : Option Bytes) → Kept last (tunable n k v s p o)
      tunable-Kept k v (some why) = fails _
      tunable-Kept k v none = override_at-Kept k v _ refl

      pub site_setting-Kept : (k v : Bytes) → Kept last (site_setting n k v s p)
      unfolding site_setting
      site_setting-Kept k v =
          test (beq k (codes "root")) _ _ (in_block-Kept _ (like refl refl refl refl)) (
            test (beq k (codes "cert")) _ _ (in_block-Kept _ (like refl refl refl refl)) (
              test (beq k (codes "key")) _ _ (in_block-Kept _ (like refl refl refl refl)) (
                test (beq k (codes "force_ssl")) _ _
                  (value_at-Kept (parse_bool v) _
                    (λ a e. in_block-Kept _ (like refl refl refl refl)))
                  (test (beq k (codes "canonical_urls")) _ _
                    (value_at-Kept (parse_bool v) _
                      (λ a e. in_block-Kept _ (like refl refl refl refl)))
                    (tunable-Kept k v (server_only_reason k))))))

    -- A state with the settings, the deadline and the blocks of `s`.
    unmoved :
        {r : Reading}
        → r.tuning ≡ s.tuning
        → r.headers ≡ s.headers
        → r.max_response_secs ≡ s.max_response_secs
        → r.pending ≡ s.pending
        → r.cur ≡ s.cur
        → IsSound last r
    unmoved {r} e f g h k = record {
      settings =
          subst (λ x. IsValid x r.headers) (sym e) (subst (IsValid s.tuning) (sym f) w.settings);
      secs = subst (λ x. x ≤ 86400) (sym g) w.secs;
      closed = subst (All (IsBlock HasFinishedRules last)) (sym h) w.closed;
      current = λ p j. w.current p (sym k ∙ j);
    }

    -- A state with other settings, which are valid.
    settled-IsSound :
        (t : Tuning) (h : HeaderConfig)
        → IsValid t h
        → IsSound last (record s { tuning = t; headers = h })
    settled-IsSound t h v = record {
      settings = v;
      secs = w.secs;
      closed = w.closed;
      current = w.current;
    }

    listen_at-Kept :
        (e f : LineError) (o : Option (Bytes × Bytes)) (g : Bytes → Bytes → Reading)
        → ((h p : Bytes) → IsSound last (g h p))
        → Kept last (listen_at n e f o g)
    listen_at-Kept e f none g k = fails _
    listen_at-Kept e f (some (h, p)) g k =
        test (is_nil (trim h) || is_nil (trim p)) _ _ (fails _) (k h p)

    storage_at-Kept : (v : Bytes) → Kept last (storage_at n v s)
    storage_at-Kept v =
        test (beq v (codes "memory") || beq v (codes "mem") || beq v (codes "ram")) _ _
          (unmoved refl refl refl refl refl)
          (test (beq v (codes "disk")) _ _ (unmoved refl refl refl refl refl) (fails _))

    default_at-Kept :
        (k v : Bytes) (a : Applied)
        → apply_shared s.tuning s.headers k v ≡ a
        → Kept last (default_at n k s a)
    default_at-Kept k v (failed e) h = fails _
    default_at-Kept k v unowned h = fails _
    default_at-Kept k v (applied t g) h =
        settled-IsSound t g (apply_shared-IsValid s.tuning s.headers k v w.settings h)

    pub server_setting-Kept : (k v : Bytes) → Kept last (server_setting n k v s)
    unfolding server_setting parse_deadline_secs
    server_setting-Kept k v =
        test (beq k (codes "listen")) _ _
          (listen_at-Kept _ _ (rsplit_once b':' v) _ (λ h p. unmoved refl refl refl refl refl))
          (test (beq k (codes "listen_http")) _ _
            (listen_at-Kept _ _ (rsplit_once b':' v) _ (λ h p. unmoved refl refl refl refl refl))
            (test (beq k (codes "max_total_bytes")) _ _
              (value_at-Kept (parse_size v) _ (λ m e. settled-IsSound _ _ (record {
                brotli = w.settings.brotli;
                gzip = w.settings.gzip;
                policy = w.settings.policy;
              })))
              (test (beq k (codes "max_conns_per_ip")) _ _
                (value_at-Kept (parse_count v) _ (λ m e. unmoved refl refl refl refl refl))
                (test (beq k (codes "max_response_secs")) _ _
                  (value_at-Kept (parse_deadline_secs v) _ (λ m e. record {
                    settings = w.settings;
                    secs = bounded-secs (parse_secs v) e;
                    closed = w.closed;
                    current = w.current;
                  }))
                  (test (beq k (codes "storage")) _ _
                    (storage_at-Kept (to_ascii_lowercase (trim v)))
                    (test (beq k (codes "disk_cache")) _ _ (unmoved refl refl refl refl refl)
                      (default_at-Kept k v _ refl)))))))
