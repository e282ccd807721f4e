-- ===== src/Config/Order.antt =====
-- src/config.rs, `parse_config`: a line of a site block under other defaults.
use bare_server.Base.{
  is_nil, ℕ, ◌≡◌, refl, Bool, true, false, Option, none, some, arith, if◌then◌else◌, Bytes, codes,
}
use bare_server.Text.{beq, strip_prefix, strip_suffix, split_once, trim}
use bare_server.Redirects.{Pushed, ok, err, push}
use bare_server.Settings.{
  Parsed, Tuning, HeaderConfig, Applied, applied, unowned, failed, apply_shared, parse_bool,
}
use bare_server.Settings
use bare_server.Settings.Shape.{SameShape, apply_shared-SameShape}
use bare_server.Config.{Outcome, accepted, rejected, PendingSite, Reading}
use bare_server.Config.Lines.{uncommented, after_keyword, split_arrow}
use bare_server.Config.Keys.{value_at, override_at, tunable, site_setting, server_only_reason}
use bare_server.Config.Parse.{
  close_block, begin_block, open_or_explain, open_block, pushed_at, rule_parts, rule_inside,
  rule_or_explain, add_rule, setting_in, setting, directive, parse_text, parse_line,
}

-- The same reading under other defaults.
abbrev pub with_defaults : Tuning → HeaderConfig → Reading → Reading
with_defaults t h s = record s { tuning = t; headers = h }

abbrev pub mapped {ℓ κ} : {A : Type ℓ} {B : Type κ} → (A → B) → Outcome A → Outcome B
mapped f (accepted a) = accepted (f a)
mapped f (rejected e) = rejected e

module _ (t : Tuning) (h : HeaderConfig) where
  -- The outcome under the other defaults is the outcome, with them.
  abbrev Same : Outcome Reading → Outcome Reading → Type 0
  Same o o' = o' ≡ mapped (with_defaults t h) o

  test :
      (b : Bool) (x y x' y' : Outcome Reading)
      → Same x x'
      → Same y y'
      → Same (if b then x else y) (if b then x' else y')
  test true x y x' y' e f = e
  test false x y x' y' e f = f

  value_at-Same {ℓ} :
      {A : Type ℓ} (n : ℕ) (p : Parsed A) (f g : A → Outcome Reading)
      → ((a : A) → Same (f a) (g a))
      → Same (value_at n p f) (value_at n p g)
  value_at-Same n (Settings.ok a) f g k = k a
  value_at-Same n (Settings.err e) f g k = refl

  override_at-Same :
      (n : ℕ) (k v : Bytes) (s : Reading) (p : PendingSite) (a a' : Applied)
      → SameShape a a'
      → Same (override_at n k v s p a) (override_at n k v (with_defaults t h s) p a')
  override_at-Same n k v s p (applied u g) (applied u' g') e = refl
  override_at-Same n k v s p unowned unowned e = refl
  override_at-Same n k v s p (failed f) (failed f') e = ground arith
  override_at-Same n k v s p (applied u g) unowned e = elim e [ ]
  override_at-Same n k v s p (applied u g) (failed f) e = elim e [ ]
  override_at-Same n k v s p unowned (applied u g) e = elim e [ ]
  override_at-Same n k v s p unowned (failed f) e = elim e [ ]
  override_at-Same n k v s p (failed f) (applied u g) e = elim e [ ]
  override_at-Same n k v s p (failed f) unowned e = elim e [ ]

  module _ (n : ℕ) (s : Reading) (p : PendingSite) where
    tunable-Same :
        (k v : Bytes) (o : Option Bytes)
        → Same (tunable n k v s p o) (tunable n k v (with_defaults t h s) p o)
    tunable-Same k v (some why) = refl
    tunable-Same k v none =
        override_at-Same n k v s p _ _ (apply_shared-SameShape s.tuning t s.headers h k v)

    site_setting-Same :
        (k v : Bytes) → Same (site_setting n k v s p) (site_setting n k v (with_defaults t h s) p)
    unfolding site_setting
    site_setting-Same k v = test (beq k (codes "root")) _ _ _ _ refl (
        test (beq k (codes "cert")) _ _ _ _ refl (
          test (beq k (codes "key")) _ _ _ _ refl (
            test (beq k (codes "force_ssl")) _ _ _ _
              (value_at-Same n (parse_bool v) _ _ (λ b. refl))
              (test (beq k (codes "canonical_urls")) _ _ _ _
                (value_at-Same n (parse_bool v) _ _ (λ b. refl))
                (tunable-Same k v (server_only_reason k))))))

    pushed_at-Same : (q : Pushed) → Same (pushed_at n s p q) (pushed_at n (with_defaults t h s) p q)
    pushed_at-Same (ok r) = refl
    pushed_at-Same (err e) = refl

    rule_parts-Same :
        (o : Option (Bytes × Bytes))
        → Same (rule_parts n s p o) (rule_parts n (with_defaults t h s) p o)
    rule_parts-Same none = refl
    rule_parts-Same (some (pat, target)) =
        test (is_nil (trim pat)) _ _ _ _ refl
          (pushed_at-Same (push p.redirects (trim pat) (trim target)))

  module _ (n : ℕ) (s : Reading) (p : PendingSite) where
    setting_in-Same :
        (k v : Bytes) (o : Option PendingSite)
        → o ≡ some p
        → Same (setting_in n k v s o) (setting_in n k v (with_defaults t h s) o)
    setting_in-Same k v none e = absurd (ground arith)
    setting_in-Same k v (some q) e = site_setting-Same n s q k v

    setting-Same :
        (o : Option (Bytes × Bytes))
        → s.cur ≡ some p
        → Same (setting n s o) (setting n (with_defaults t h s) o)
    unfolding setting
    setting-Same none e = refl
    setting-Same (some (k, v)) e = setting_in-Same (trim k) (trim v) s.cur e

    begin_block-Same :
        (o : Option PendingSite) (q : Option Bytes)
        → o ≡ some p
        → Same (begin_block n s o q) (begin_block n (with_defaults t h s) o q)
    begin_block-Same none q e = absurd (ground arith)
    begin_block-Same (some r) q e = refl

    rule_inside-Same :
        (rest : Bytes) (o : Option PendingSite)
        → o ≡ some p
        → Same (rule_inside n s rest o) (rule_inside n (with_defaults t h s) rest o)
    rule_inside-Same rest none e = absurd (ground arith)
    rule_inside-Same rest (some q) e = rule_parts-Same n s q (split_arrow rest)

    open_block-Same :
        (rest : Bytes)
        → s.cur ≡ some p
        → Same (open_block n s rest) (open_block n (with_defaults t h s) rest)
    unfolding open_block
    open_block-Same rest e = explained (strip_prefix (codes "=") rest)
      where
        explained :
            (o : Option Bytes)
            → Same (open_or_explain n s rest o) (open_or_explain n (with_defaults t h s) rest o)
        explained (some v) = refl
        explained none = begin_block-Same s.cur (strip_suffix (codes "{") rest) e

    add_rule-Same :
        (rest : Bytes)
        → s.cur ≡ some p
        → Same (add_rule n s rest) (add_rule n (with_defaults t h s) rest)
    unfolding add_rule
    add_rule-Same rest e = explained (strip_prefix (codes "=") rest)
      where
        explained :
            (o : Option Bytes)
            → Same (rule_or_explain n s rest o) (rule_or_explain n (with_defaults t h s) rest o)
        explained (some v) = refl
        explained none = rule_inside-Same rest s.cur e

    close_block-Same :
        (o : Option PendingSite) → Same (close_block n s o) (close_block n (with_defaults t h s) o)
    unfolding close_block
    close_block-Same none = refl
    close_block-Same (some q) = refl

    directive-Same :
        (line : Bytes) (site rule : Option Bytes)
        → s.cur ≡ some p
        → Same (directive n s line site rule) (directive n (with_defaults t h s) line site rule)
    directive-Same line (some rest) rule e = open_block-Same (trim rest) e
    directive-Same line none (some rest) e = add_rule-Same (trim rest) e
    directive-Same line none none e = setting-Same (split_once b'=' line) e

    -- A line inside a site block is read in the same way whatever the defaults of the server are at that
    -- point of the file: the same error, or the same reading with those defaults.
    pub parse_line-with_defaults :
        (raw : Bytes)
        → s.cur ≡ some p
        → parse_line n (with_defaults t h s) raw ≡ mapped (with_defaults t h) (parse_line n s raw)
    unfolding parse_line parse_text
    parse_line-with_defaults raw e =
        let line : Bytes = trim (uncommented raw) in
        test (is_nil line) _ _ _ _ refl (
          test (beq line (codes "}")) _ _ _ _ (close_block-Same s.cur) (
            directive-Same line (after_keyword (codes "site") line)
              (after_keyword (codes "redirect") line) e))
