-- ===== src/Handle.antt =====
-- src/main.rs, `handle_request`: from the head to the reply. The file system is a parameter, as in
-- Serve and Acme.
pub mod Framing
pub mod Keeping
pub mod Hosts
pub mod Location
pub mod Replies
use bare_server.Base.{
  is_nil, ℕ, zero, suc, Bool, true, false, ◌&&◌, ◌||◌, not, Option, none, some, List, [], ◌∷◌, ◌++◌,
  length, any, arith, ◌==◌, leb, ltb, if◌then◌else◌, Bytes, codes, ◌>>=◌,
}
use bare_server.Text.{beq, starts_with, split, split_crlf, before, from_first, is_utf8, get}
use bare_server.Head.{well_formed_head}
use bare_server.Percent.{percent_decode, percent_encode_path}
use bare_server.Response.{ErrorPages, StatusResponse, send_error, send_redirect, redirect_authority}
use bare_server.Route.{Resolved, entry, dir_index, canonical_form, normalize_host}
use bare_server.Route
use bare_server.Redirects
use bare_server.Redirects.{is_absolute}
use bare_server.Site.{Cached, mem, disk, Site, Vhosts}
use bare_server.Serve.{Reply, reply, serve_mem, serve_disk, Reads}
use bare_server.Acme.{acme_prefix, serve_acme_token, OpenFile}
use bare_server.Request.{RequestLine, Fields, initial_fields, part_at, request_line, header_loop}

abbrev pub max_path_len : ℕ
max_path_len = 1024

-- What is known of a request once its site is.
pub record Context : Type 0 where
  pub site : Site
  pub host_key : Bytes
  pub https_port : Bytes
  pub http_port : Bytes
  pub redirect_https : Bool
  pub keep_alive : Bool
  pub is_head : Bool
  pub fields : Fields

-- `send_error(..)`, then `return Ok(false)`.
abbrev pub refuse : StatusResponse → Bool → Reply
refuse status is_head = reply (send_error status false is_head) false

abbrev pub error_reply : StatusResponse → Context → Reply
error_reply status c = reply (send_error status c.keep_alive c.is_head) c.keep_alive

abbrev pub redirect_reply : Bytes → Context → Reply
redirect_reply location c =
    reply (send_redirect location c.keep_alive c.site.policy.security_headers) c.keep_alive

-- `{scheme}://{authority}`
unfoldable pub origin : Context → Bytes
origin c =
    if c.redirect_https && not c.site.force_ssl
    then codes "http://" ++ redirect_authority c.host_key c.http_port (codes "80")
    else codes "https://" ++ redirect_authority c.host_key c.https_port (codes "443")

-- The Location of a rule: the target, on this origin if it is a path, with the query string unless the
-- target has its own.
unfoldable pub rule_location : Context → Bytes → Bytes → Bytes
rule_location c query to =
    let rest = if any (λ b. b == b'?') to then [] else query in
    if is_absolute to then to ++ rest else origin c ++ (to ++ rest)

-- `percent_decode(path).and_then(|b| String::from_utf8(b).ok())`
unfoldable pub decode_path : Bytes → Option Bytes
decode_path path = percent_decode path >>= λ b. if is_utf8 b then some b else none

-- Whether the name of the TLS handshake is another than the Host.
unfoldable pub sni_differs : Option Bytes → Bytes → Bool
sni_differs none host_key = false
sni_differs (some s) host_key = not (beq s host_key)

module _ (is_plain : Bytes → Bool) (open_nofollow : Bytes → Option OpenFile)
    (open_body : Bytes → Option Reads) where
  -- The reply from an entry of the cache.
  unfoldable pub serve_entry : Cached → Context → Reply
  serve_entry (mem m) c =
      serve_mem m c.fields.accept_enc c.fields.inm c.keep_alive c.is_head c.site.policy
  serve_entry (disk d) c =
      serve_disk open_body d c.fields.accept_enc c.fields.inm c.keep_alive c.is_head c.site.policy

  unfoldable pub serve_resolved : Option (Resolved Cached) → Bytes → Bytes → Context → Reply
  serve_resolved (some (entry e)) decoded query c = serve_entry e c
  serve_resolved (some dir_index) decoded query c =
      redirect_reply (origin c ++ (percent_encode_path decoded ++ (codes "/" ++ query))) c
  serve_resolved none decoded query c = error_reply c.site.policy.errors.not_found c

  unfoldable pub serve_acme : Option Bytes → Bytes → Context → Reply
  serve_acme (some root) decoded c =
      serve_acme_token is_plain open_nofollow root decoded c.keep_alive c.is_head c.site.policy
  serve_acme none decoded c = error_reply c.site.policy.errors.not_found c

  -- Behind the redirects: the request wants content.
  unfoldable pub serve_content : Bool → Bytes → Bytes → Context → Reply
  serve_content is_acme decoded query c =
      if is_acme
      then serve_acme c.site.root decoded c
      else serve_resolved (Route.resolve c.site.cache decoded) decoded query c

  -- The upgrade to HTTPS.
  unfoldable pub upgrade_or_serve : Bool → Bytes → Bytes → Bytes → Context → Reply
  upgrade_or_serve is_acme target decoded query c =
      if c.redirect_https && not is_acme && c.site.force_ssl
      then redirect_reply
          (codes "https://" ++ (redirect_authority c.host_key c.https_port (codes "443") ++ target))
          c
      else serve_content is_acme decoded query c

  unfoldable pub fold_or_upgrade : Option Bytes → Bool → Bytes → Bytes → Bytes → Context → Reply
  fold_or_upgrade (some canon) is_acme target decoded query c =
      redirect_reply (origin c ++ (percent_encode_path canon ++ query)) c
  fold_or_upgrade none is_acme target decoded query c =
      upgrade_or_serve is_acme target decoded query c

  -- The rules, then the canonical form of the path.
  unfoldable pub apply_rules : Option Bytes → Bool → Bytes → Bytes → Bytes → Context → Reply
  apply_rules (some to) is_acme target decoded query c = redirect_reply (rule_location c query to) c
  apply_rules none is_acme target decoded query c =
      fold_or_upgrade
        (if c.site.canonical_urls && not is_acme then canonical_form decoded else none) is_acme
        target decoded query c

  unfoldable pub answer_decoded : Option Bytes → Bytes → Context → Reply
  answer_decoded none target c = refuse c.site.policy.errors.bad_request c.is_head
  answer_decoded (some decoded) target c =
      let is_acme = starts_with acme_prefix decoded in
      apply_rules
        (if is_acme then none else Redirects.resolve c.site.redirects (before b'?' target)) is_acme
        target decoded (from_first b'?' target) c

  -- The method and the path of a request to a known site.
  unfoldable pub answer_site : RequestLine → Context → Reply
  answer_site r c =
      let path = before b'?' r.target in
      if not (beq r.method (codes "GET")) && not c.is_head
      then error_reply c.site.policy.errors.method_not_allowed c
      else if is_nil path || not (starts_with (codes "/") path) || leb max_path_len (length path)
      then refuse c.site.policy.errors.bad_request c.is_head
      else answer_decoded (decode_path path) r.target c

  -- The lookup of the site, and the reply of an unknown one.
  unfoldable pub answer_host :
      Option Site → Vhosts → RequestLine → Fields → Bytes → Bool → Bool → Reply
  answer_host none vhosts r f host_key keep_alive redirect_https =
      reply (send_error vhosts.errors.not_found keep_alive (beq r.method (codes "HEAD"))) keep_alive
  answer_host (some site) vhosts r f host_key keep_alive redirect_https = answer_site r (record {
    site = site;
    host_key = host_key;
    https_port = vhosts.https_port;
    http_port = vhosts.http_port;
    redirect_https = redirect_https;
    keep_alive = keep_alive;
    is_head = beq r.method (codes "HEAD");
    fields = f;
  })

  -- Behind the header loop.
  unfoldable pub answer_fields : Vhosts → Bool → Bool → Option Bytes → RequestLine → Fields → Reply
  answer_fields vhosts want_ka redirect_https sni r f =
      let keep_alive = if want_ka then f.keep_alive else false in
      let host_key = normalize_host f.host_hdr in
      if f.has_body
      then refuse vhosts.errors.bad_request (beq r.method (codes "HEAD"))
      else if sni_differs sni host_key
      then answer_host none vhosts r f host_key keep_alive redirect_https
      else answer_host (get host_key vhosts.sites) vhosts r f host_key keep_alive redirect_https

  abbrev pub fields_or_refuse :
      Vhosts → Bool → Bool → Option Bytes → RequestLine → Option Fields → Reply
  fields_or_refuse vhosts want_ka redirect_https sni r none =
      refuse vhosts.errors.bad_request (beq r.method (codes "HEAD"))
  fields_or_refuse vhosts want_ka redirect_https sni r (some f) =
      answer_fields vhosts want_ka redirect_https sni r f

  abbrev pub line_or_refuse :
      Vhosts → Bool → Bool → Option Bytes → Bool → List Bytes → Option RequestLine → Reply
  line_or_refuse vhosts want_ka redirect_https sni is_head lines none =
      refuse vhosts.errors.bad_request is_head
  line_or_refuse vhosts want_ka redirect_https sni is_head lines (some r) =
      fields_or_refuse vhosts want_ka redirect_https sni r
        (header_loop (initial_fields r.version) lines)

  -- The lines of a head that is strictly framed.
  unfoldable pub answer_lines : Vhosts → Bool → Bool → Option Bytes → List Bytes → Reply
  answer_lines vhosts want_ka redirect_https sni [] = refuse vhosts.errors.bad_request false
  answer_lines vhosts want_ka redirect_https sni (reqline ∷ lines) =
      let parts = split b' ' reqline in
      line_or_refuse vhosts want_ka redirect_https sni (beq (part_at 0 parts) (codes "HEAD")) lines
        (request_line parts)

  unfoldable pub handle_request : Bytes → Vhosts → Bool → Bool → Option Bytes → Reply
  handle_request head vhosts want_ka redirect_https sni =
      if not (is_utf8 head)
      then refuse vhosts.errors.bad_request false
      else if not (well_formed_head head)
      then refuse vhosts.errors.bad_request false
      else answer_lines vhosts want_ka redirect_https sni (split_crlf head)
