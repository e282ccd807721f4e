-- ===== src/Config/Parse.antt =====
-- src/config.rs, `parse_config`: the line loop.
use bare_server.Base.{
  is_nil, ℕ, suc, true, false, Option, none, some, List, [], ◌∷◌, ◌++◌, if◌then◌else◌, Bytes, codes,
}
use bare_server.Text.{beq, strip_prefix, strip_suffix, split_once, trim}
use bare_server.Redirects.{Pushed, ok, err, push, finish}
use bare_server.Config.{
  stray_close, nested_block, no_block, no_host_names, site_is_block, redirect_is_block,
  redirect_outside, no_arrow, empty_pattern, malformed_line, bad_rule, at, Outcome, accepted,
  rejected, then_outcome, PendingSite, Reading,
}
use bare_server.Config.Lines.{uncommented, after_keyword, split_arrow, site_hosts}
use bare_server.Config.Explain.{explain_site_line, explain_redirect_line}
use bare_server.Config.Keys.{in_block, site_setting, server_setting}

-- A line `}`.
unfoldable pub close_block : ℕ → Reading → Option PendingSite → Outcome Reading
close_block n s none = rejected (at n stray_close)
close_block n s (some p) = accepted (record s {
  pending = s.pending ++ (record p { redirects = finish p.redirects } ∷ []);
  cur = none;
})

-- A block that has just been opened.
abbrev pub new_site : ℕ → List Bytes → PendingSite
new_site n names = record {
  line = n;
  hosts = names;
  root = none;
  cert = none;
  key = none;
  force_ssl = true;
  canonical_urls = false;
  redirects = record { exact = []; prefix = []; all = none };
  overrides = [];
}

abbrev pub name_block : ℕ → Reading → List Bytes → Outcome Reading
name_block n s names =
    if is_nil names then rejected (at n no_host_names) else in_block s (new_site n names)

abbrev pub begin_block : ℕ → Reading → Option PendingSite → Option Bytes → Outcome Reading
begin_block n s (some p) list = rejected (at n nested_block)
begin_block n s none none = rejected (at n no_block)
begin_block n s none (some list) = name_block n s (site_hosts list)

abbrev pub open_or_explain : ℕ → Reading → Bytes → Option Bytes → Outcome Reading
open_or_explain n s rest (some v) = rejected (at n (site_is_block (explain_site_line (trim v))))
open_or_explain n s rest none = begin_block n s s.cur (strip_suffix (codes "{") rest)

-- A line `site …`.
unfoldable pub open_block : ℕ → Reading → Bytes → Outcome Reading
open_block n s rest = open_or_explain n s rest (strip_prefix (codes "=") rest)

abbrev pub pushed_at : ℕ → Reading → PendingSite → Pushed → Outcome Reading
pushed_at n s p (ok r) = in_block s (record p { redirects = r })
pushed_at n s p (err e) = rejected (at n (bad_rule e))

abbrev pub rule_parts : ℕ → Reading → PendingSite → Option (Bytes × Bytes) → Outcome Reading
rule_parts n s p none = rejected (at n no_arrow)
rule_parts n s p (some (pat, target)) =
    if is_nil (trim pat)
    then rejected (at n empty_pattern)
    else pushed_at n s p (push p.redirects (trim pat) (trim target))

abbrev pub rule_inside : ℕ → Reading → Bytes → Option PendingSite → Outcome Reading
rule_inside n s rest none = rejected (at n redirect_outside)
rule_inside n s rest (some p) = rule_parts n s p (split_arrow rest)

abbrev pub rule_or_explain : ℕ → Reading → Bytes → Option Bytes → Outcome Reading
rule_or_explain n s rest (some v) =
    rejected (at n (redirect_is_block (explain_redirect_line (trim v))))
rule_or_explain n s rest none = rule_inside n s rest s.cur

-- A line `redirect …`.
unfoldable pub add_rule : ℕ → Reading → Bytes → Outcome Reading
add_rule n s rest = rule_or_explain n s rest (strip_prefix (codes "=") rest)

abbrev pub setting_in : ℕ → Bytes → Bytes → Reading → Option PendingSite → Outcome Reading
setting_in n k v s none = server_setting n k v s
setting_in n k v s (some p) = site_setting n k v s p

-- A line `key = value`.
unfoldable pub setting : ℕ → Reading → Option (Bytes × Bytes) → Outcome Reading
setting n s none = rejected (at n malformed_line)
setting n s (some (k, v)) = setting_in n (trim k) (trim v) s s.cur

abbrev pub directive : ℕ → Reading → Bytes → Option Bytes → Option Bytes → Outcome Reading
directive n s line (some rest) rule = open_block n s (trim rest)
directive n s line none (some rest) = add_rule n s (trim rest)
directive n s line none none = setting n s (split_once b'=' line)

-- A line without its comment and the space around it.
unfoldable pub parse_text : ℕ → Reading → Bytes → Outcome Reading
parse_text n s line =
    if is_nil line
    then accepted s
    else if beq line (codes "}")
    then close_block n s s.cur
    else directive n s line (after_keyword (codes "site") line)
        (after_keyword (codes "redirect") line)

-- One turn of the loop.
unfoldable pub parse_line : ℕ → Reading → Bytes → Outcome Reading
parse_line n s raw = parse_text n s (trim (uncommented raw))

-- The loop, from the line of the given number.
unfoldable pub parse_lines : ℕ → List Bytes → Reading → Outcome Reading
parse_lines n [] s = accepted s
parse_lines n (raw ∷ rest) s = then_outcome (parse_line n s raw) (λ s'. parse_lines (suc n) rest s')
