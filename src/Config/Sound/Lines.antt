-- ===== src/Config/Sound/Lines.antt =====
-- src/config.rs, `parse_config`: the line loop keeps the invariant.
use bare_server.Base.{
  is_nil, ℕ, suc, ◌+◌, ◌≤◌, ◌≡◌, refl, false, Option, none, some, List, [], ◌∷◌, length, arith,
  Bytes, codes, All-append,
}
use bare_server.Text.{beq, strip_prefix, strip_suffix, split_once, trim}
use bare_server.Redirects.{Pushed, ok, err, push}
use bare_server.Redirects.Safety.{push-IsClean, push-IsDistinct}
use bare_server.Config.{Outcome, accepted, rejected, then_outcome, PendingSite, Reading}
use bare_server.Config.Lines.{uncommented, after_keyword, split_arrow, site_hosts}
use bare_server.Config.Parse.{
  close_block, new_site, name_block, begin_block, open_or_explain, open_block, pushed_at,
  rule_parts, rule_inside, rule_or_explain, add_rule, setting_in, setting, directive, parse_text,
  parse_line, parse_lines,
}
use bare_server.Config.Sound.{IsBlock, HasSoundRules, HasFinishedRules, IsSound}
use bare_server.Config.Sound.Settings.{
  Kept, fails, test, in_block-Kept, site_setting-Kept, server_setting-Kept,
}

module _ (last n : ℕ) (l : 1 ≤ n) (u : n ≤ last) (s : Reading) (w : IsSound last s) where
  close_block-Kept : (o : Option PendingSite) → s.cur ≡ o → Kept last (close_block n s o)
  unfolding close_block
  close_block-Kept none e = fails last n l u _
  close_block-Kept (some p) e =
      let b = w.current p e in
      record {
        settings = w.settings;
        secs = w.secs;
        closed = All-append (IsBlock HasFinishedRules last) s.pending _ w.closed (
          record {
            named = b.named;
            first = b.first;
            last = b.last;
            rules = (p.redirects, b.rules, refl);
            tried = b.tried;
          },
          tt,
        );
        current = λ q f. absurd (ground arith);
      }

  new_site-IsBlock :
      (names : List Bytes) → is_nil names ≡ false → IsBlock HasSoundRules last (new_site n names)
  new_site-IsBlock names e = record {
    named = e;
    first = l;
    last = u;
    rules = (
      record { exact = tt; prefix = tt; all = λ t f. absurd (ground arith) },
      λ r q i j. elim i [ ],
    );
    tried = tt;
  }

  name_block-Kept : (names : List Bytes) → Kept last (name_block n s names)
  name_block-Kept [] = fails last n l u _
  name_block-Kept (h ∷ hs) = in_block-Kept last n l u s w _ (new_site-IsBlock (h ∷ hs) refl)

  begin_block-Kept : (o : Option PendingSite) (q : Option Bytes) → Kept last (begin_block n s o q)
  begin_block-Kept (some p) q = fails last n l u _
  begin_block-Kept none none = fails last n l u _
  begin_block-Kept none (some list) = name_block-Kept (site_hosts list)

  open_or_explain-Kept : (rest : Bytes) (o : Option Bytes) → Kept last (open_or_explain n s rest o)
  open_or_explain-Kept rest (some v) = fails last n l u _
  open_or_explain-Kept rest none = begin_block-Kept s.cur (strip_suffix (codes "{") rest)

  pushed_at-Kept :
      (p : PendingSite) (pat target : Bytes) (q : Pushed)
      → IsBlock HasSoundRules last p
      → push p.redirects pat target ≡ q
      → Kept last (pushed_at n s p q)
  pushed_at-Kept p pat target (err e) b f = fails last n l u _
  pushed_at-Kept p pat target (ok r) b f = in_block-Kept last n l u s w _ (record {
    named = b.named;
    first = b.first;
    last = b.last;
    rules = (
      push-IsClean p.redirects pat target b.rules.0 f,
      push-IsDistinct p.redirects pat target b.rules.1 f,
    );
    tried = b.tried;
  })

  rule_parts-Kept :
      (p : PendingSite) (o : Option (Bytes × Bytes))
      → IsBlock HasSoundRules last p
      → Kept last (rule_parts n s p o)
  rule_parts-Kept p none b = fails last n l u _
  rule_parts-Kept p (some (pat, target)) b =
      test last n l u (is_nil (trim pat)) _ _ (fails last n l u _)
        (pushed_at-Kept p (trim pat) (trim target) _ b refl)

  rule_inside-Kept :
      (rest : Bytes) (o : Option PendingSite) → s.cur ≡ o → Kept last (rule_inside n s rest o)
  rule_inside-Kept rest none e = fails last n l u _
  rule_inside-Kept rest (some p) e = rule_parts-Kept p (split_arrow rest) (w.current p e)

  rule_or_explain-Kept : (rest : Bytes) (o : Option Bytes) → Kept last (rule_or_explain n s rest o)
  rule_or_explain-Kept rest (some v) = fails last n l u _
  rule_or_explain-Kept rest none = rule_inside-Kept rest _ refl

  setting_in-Kept :
      (k v : Bytes) (o : Option PendingSite) → s.cur ≡ o → Kept last (setting_in n k v s o)
  setting_in-Kept k v none e = server_setting-Kept last n l u s w k v
  setting_in-Kept k v (some p) e = site_setting-Kept last n l u s w p (w.current p e) k v

  setting-Kept : (o : Option (Bytes × Bytes)) → Kept last (setting n s o)
  unfolding setting
  setting-Kept none = fails last n l u _
  setting-Kept (some (k, v)) = setting_in-Kept (trim k) (trim v) _ refl

  directive-Kept :
      (line : Bytes) (site rule : Option Bytes) → Kept last (directive n s line site rule)
  unfolding open_block add_rule
  directive-Kept line (some rest) rule =
      open_or_explain-Kept (trim rest) (strip_prefix (codes "=") (trim rest))
  directive-Kept line none (some rest) =
      rule_or_explain-Kept (trim rest) (strip_prefix (codes "=") (trim rest))
  directive-Kept line none none = setting-Kept (split_once b'=' line)

  -- A line keeps the rules of every block clean and distinct, the settings valid and the deadline in its
  -- bound, or its error quotes the number of the line.
  pub parse_line-Kept : (raw : Bytes) → Kept last (parse_line n s raw)
  unfolding parse_line parse_text
  parse_line-Kept raw =
      let line : Bytes = trim (uncommented raw) in
      test last n l u (is_nil line) _ _ w (
        test last n l u (beq line (codes "}")) _ _ (close_block-Kept _ refl) (
          directive-Kept line (after_keyword (codes "site") line)
            (after_keyword (codes "redirect") line)))

then_outcome-Kept :
    (last : ℕ) (o : Outcome Reading) (f : Reading → Outcome Reading)
    → Kept last o
    → ((s : Reading) → IsSound last s → Kept last (f s))
    → Kept last (then_outcome o f)
then_outcome-Kept last (accepted s) f k g = g s k
then_outcome-Kept last (rejected e) f k g = k

pub parse_lines-Kept :
    (last n : ℕ) (raws : List Bytes) (s : Reading)
    → 1 ≤ n
    → n + length raws ≤ suc last
    → IsSound last s
    → Kept last (parse_lines n raws s)
unfolding parse_lines
parse_lines-Kept last n [] s l u w = w
parse_lines-Kept last n (raw ∷ rest) s l u w =
    then_outcome-Kept last (parse_line n s raw) _
      (parse_line-Kept last n l (omega (arith, u)) s w raw)
      (λ s' w'. parse_lines-Kept last (suc n) rest s' (omega arith) (omega (arith, u)) w')
