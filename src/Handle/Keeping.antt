-- ===== src/Handle/Keeping.antt =====
-- src/main.rs, `handle_request`: the flag of a reply against the flag of its context.
use bare_server.Base.{
  is_nil, ◌≡◌, Bool, true, false, ◌&&◌, ◌||◌, not, Option, none, some, ◌++◌, arith, leb, Bytes,
  codes, if◌then◌else◌, length,
}
use bare_server.Text.{beq, starts_with, before, from_first}
use bare_server.Route.{Resolved, entry, dir_index, canonical_form}
use bare_server.Route
use bare_server.Response.{send_error}
use bare_server.Site.{Cached, mem, disk, MemEntry, DiskEntry, DiskVariant, Policy}
use bare_server.Serve.{
  Reply, reply, serve_mem, serve_disk, send_disk, disk_header, streamed, stream_body, is_unmodified,
  pick, Reads,
}
use bare_server.Acme.{OpenFile, acme_prefix, serve_acme_token, send_token}
use bare_server.Request.{RequestLine}
use bare_server.Handle.{
  Context, refuse, serve_entry, serve_resolved, serve_acme, serve_content, upgrade_or_serve,
  fold_or_upgrade, apply_rules, answer_decoded, answer_site, decode_path, max_path_len,
}

-- The reply keeps the connection only if the flag allows it.
pub record Keeps (keep_alive : Bool) (r : Reply) : Type 0 where
  pub holds : r.result ≡ some true → keep_alive ≡ true

pub kept : (k : Bool) (sent : Bytes) → Keeps k (reply sent k)
kept k sent = record { holds = λ h. ground arith }

closed : (k : Bool) (sent : Bytes) → Keeps k (reply sent false)
closed k sent = record { holds = λ h. absurd (ground arith) }

chosen : (k b : Bool) (x y : Reply) → Keeps k x → Keeps k y → Keeps k (if b then x else y)
chosen k true x y p q = p
chosen k false x y p q = q

serve_mem-Keeps :
    (m : MemEntry) (accept_enc inm : Bytes) (k is_head : Bool) (policy : Policy)
    → Keeps k (serve_mem m accept_enc inm k is_head policy)
unfolding serve_mem
serve_mem-Keeps m accept_enc inm k is_head policy =
    chosen k (is_unmodified inm (pick m.br m.gzip m.identity accept_enc).etag) _ _ (kept k _)
      (kept k _)

streamed-Keeps : (k : Bool) (header : Bytes) (p : Bytes × Bool) → Keeps k (streamed header p k)
streamed-Keeps k header (body, true) = kept k (header ++ body)
streamed-Keeps k header (body, false) = record { holds = λ h. absurd (ground arith) }

send_token-Keeps :
    (o : Option Bytes) (k is_head : Bool) (policy : Policy)
    → Keeps k (send_token o k is_head policy)
unfolding send_token
send_token-Keeps none k is_head policy = kept k _
send_token-Keeps (some body) k is_head policy = kept k _

module _ (is_plain : Bytes → Bool) (open_nofollow : Bytes → Option OpenFile)
    (open_body : Bytes → Option Reads) where
  opened-Keeps :
      (o : Option Reads) (v : DiskVariant) (header : Bytes) (k is_head : Bool) (policy : Policy)
      → Keeps k (elim o as (λ _. Reply) [
        | none ↦ reply (send_error policy.errors.internal_error false is_head) false
        | some reads ↦ streamed header (stream_body reads v.len) k
      ])
  opened-Keeps none v header k is_head policy = closed k _
  opened-Keeps (some reads) v header k is_head policy =
      streamed-Keeps k header (stream_body reads v.len)

  send_disk-Keeps :
      (v : DiskVariant) (k is_head : Bool) (policy : Policy)
      → Keeps k (send_disk open_body v k is_head policy)
  unfolding send_disk
  send_disk-Keeps v k is_head policy =
      chosen k is_head _ _ (kept k _)
        (opened-Keeps (open_body v.path) v (disk_header v k) k is_head policy)

  serve_disk-Keeps :
      (d : DiskEntry) (accept_enc inm : Bytes) (k is_head : Bool) (policy : Policy)
      → Keeps k (serve_disk open_body d accept_enc inm k is_head policy)
  unfolding serve_disk
  serve_disk-Keeps d accept_enc inm k is_head policy =
      chosen k (is_unmodified inm (pick d.br d.gzip d.identity accept_enc).etag) _ _ (kept k _)
        (send_disk-Keeps (pick d.br d.gzip d.identity accept_enc) k is_head policy)

  module _ (c : Context) where
    serve_resolved-Keeps :
        (o : Option (Resolved Cached)) (decoded query : Bytes)
        → Keeps c.keep_alive (serve_resolved is_plain open_nofollow open_body o decoded query c)
    unfolding serve_resolved serve_entry
    serve_resolved-Keeps (some (entry (mem m))) decoded query = serve_mem-Keeps m _ _ _ _ _
    serve_resolved-Keeps (some (entry (disk d))) decoded query = serve_disk-Keeps d _ _ _ _ _
    serve_resolved-Keeps (some dir_index) decoded query = kept _ _
    serve_resolved-Keeps none decoded query = kept _ _

    serve_acme-Keeps :
        (o : Option Bytes) (decoded : Bytes)
        → Keeps c.keep_alive (serve_acme is_plain open_nofollow open_body o decoded c)
    unfolding serve_acme serve_acme_token
    serve_acme-Keeps (some root) decoded = send_token-Keeps _ c.keep_alive c.is_head c.site.policy
    serve_acme-Keeps none decoded = kept _ _

    upgrade_or_serve-Keeps :
        (is_acme : Bool) (target decoded query : Bytes)
        → Keeps c.keep_alive
            (upgrade_or_serve is_plain open_nofollow open_body is_acme target decoded query c)
    unfolding upgrade_or_serve serve_content
    upgrade_or_serve-Keeps is_acme target decoded query =
        chosen _ (c.redirect_https && not is_acme && c.site.force_ssl) _ _ (kept _ _) (
          chosen _ is_acme _ _ (serve_acme-Keeps c.site.root decoded)
            (serve_resolved-Keeps (Route.resolve c.site.cache decoded) decoded query))

    fold_or_upgrade-Keeps :
        (o : Option Bytes) (is_acme : Bool) (target decoded query : Bytes)
        → Keeps c.keep_alive
            (fold_or_upgrade is_plain open_nofollow open_body o is_acme target decoded query c)
    unfolding fold_or_upgrade
    fold_or_upgrade-Keeps (some canon) is_acme target decoded query = kept _ _
    fold_or_upgrade-Keeps none is_acme target decoded query =
        upgrade_or_serve-Keeps is_acme target decoded query

    apply_rules-Keeps :
        (o : Option Bytes) (is_acme : Bool) (target decoded query : Bytes)
        → Keeps c.keep_alive
            (apply_rules is_plain open_nofollow open_body o is_acme target decoded query c)
    unfolding apply_rules
    apply_rules-Keeps (some to) is_acme target decoded query = kept _ _
    apply_rules-Keeps none is_acme target decoded query =
        fold_or_upgrade-Keeps _ is_acme target decoded query

    answer_decoded-Keeps :
        (o : Option Bytes) (target : Bytes)
        → Keeps c.keep_alive (answer_decoded is_plain open_nofollow open_body o target c)
    unfolding answer_decoded
    answer_decoded-Keeps none target = closed _ _
    answer_decoded-Keeps (some decoded) target =
        apply_rules-Keeps _ (starts_with acme_prefix decoded) target decoded
          (from_first b'?' target)

    pub answer_site-Keeps :
        (r : RequestLine) → Keeps c.keep_alive (answer_site is_plain open_nofollow open_body r c)
    unfolding answer_site
    answer_site-Keeps r =
        chosen _ (not (beq r.method (codes "GET")) && not c.is_head) _ _ (kept _ _) (
          chosen _
            (is_nil (before b'?' r.target)
              || not (starts_with (codes "/") (before b'?' r.target))
              || leb max_path_len (length (before b'?' r.target)))
            _ _ (closed _ (refuse c.site.policy.errors.bad_request c.is_head).sent)
            (answer_decoded-Keeps (decode_path (before b'?' r.target)) r.target))
