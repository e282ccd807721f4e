-- ===== src/Tests/Requests.antt =====
-- Requests to a server with one site, and the theorems about replies applied at them.
use bare_server.Base.{
  ◌≡◌, refl, ap, Bool, true, false, Option, none, some, [], ◌∷◌, take, drop, map, Bytes, codes, All,
}
use bare_server.Text.{
  get, beq, split_crlf, split, split_once, is_utf8, starts_with, ends_with, strip_prefix, is_some,
  eq_ignore_ascii_case, to_ascii_lowercase, lower, trim, trim_start, trim_end, before, from_first,
}
use bare_server.Route
use bare_server.Redirects
use bare_server.Route.{normalize_host, host_base, resolve_dir}
use bare_server.Percent.{percent_decode}
use bare_server.Request.{
  request_line, header_loop, header_line, named_field, header_field, connection_tokens,
}
use bare_server.Head.{well_formed_head}
use bare_server.Response.{new_error_pages}
use bare_server.Redirects.{Redirects, resolve_prefix}
use bare_server.Redirects.Loops.{no_rules}
use bare_server.Site.{Variant, Cached, mem, Site, Vhosts}
use bare_server.Serve.{Reads, stream_body, serve_mem, pick, is_unmodified, send_variant}
use bare_server.Serve.Bodies.{stream_body-take, joined}
use bare_server.Acme.{OpenFile}
use bare_server.Handle.{
  handle_request, answer_site, answer_lines, answer_fields, sni_differs, answer_host, decode_path,
  answer_decoded, apply_rules, fold_or_upgrade, upgrade_or_serve, serve_content, serve_resolved,
  serve_entry,
}
use bare_server.Handle.Framing.{declares_body, header_block, handle_request-kept}

abbrev headers : Bytes
headers = codes "X-Frame-Options: DENY\r\n"

abbrev page : Variant
page = record {
  full_ka = codes "HTTP/1.1 200 OK\r\nConnection: keep-alive\r\n\r\nhello";
  header_len = 43;
  etag = codes "e1";
  encoding = none;
}

abbrev entry : Cached
entry = mem (record {
  identity = page;
  gzip = none;
  br = none;
  cache_control = codes "no-cache";
  vary = false;
})

abbrev site : Site
site = record {
  root = none;
  cache = (codes "/index.html", entry) ∷ [];
  force_ssl = true;
  canonical_urls = false;
  redirects = no_rules;
  policy = record { security_headers = headers; errors = new_error_pages headers };
}

abbrev pub vhosts : Vhosts
vhosts = record {
  sites = (codes "a.example", site) ∷ [];
  https_port = codes "443";
  http_port = codes "80";
  errors = new_error_pages headers;
}

abbrev pub plain_files : Bytes → Bool
plain_files path = true

abbrev pub no_token : Bytes → Option OpenFile
no_token path = none

abbrev pub no_body : Bytes → Option Reads
no_body path = none

abbrev pub get_index : Bytes
get_index = codes "GET / HTTP/1.1\r\nHost: A.example\r\n\r\n"

served :
    handle_request plain_files no_token no_body get_index vhosts true false
      (some (codes "a.example"))
    ≡ record { sent = page.full_ka; result = some true }
unfolding handle_request answer_lines request_line header_loop header_line named_field header_field
    connection_tokens answer_fields sni_differs answer_host answer_site decode_path answer_decoded
    apply_rules fold_or_upgrade upgrade_or_serve serve_content serve_resolved serve_entry serve_mem
    pick is_unmodified send_variant is_utf8 well_formed_head split_crlf split split_once beq
    starts_with strip_prefix is_some eq_ignore_ascii_case to_ascii_lowercase lower trim trim_start
    trim_end normalize_host host_base get before from_first percent_decode bare_server.Route.resolve
    resolve_dir bare_server.Redirects.resolve resolve_prefix ends_with
served = refl

stream_body-take_example :
    stream_body (map some (codes "abc" ∷ codes "def" ∷ [])) 5
    ≡ (take 5 (joined (codes "abc" ∷ codes "def" ∷ [])), true)
stream_body-take_example = stream_body-take (codes "abc" ∷ codes "def" ∷ []) 5 (refl, (refl, tt))

handle_request-kept_example :
    (well_formed_head get_index ≡ true)
    × (true ≡ true)
    × All (λ l. declares_body l ≡ false) (header_block (drop 1 (split_crlf get_index)))
handle_request-kept_example =
    handle_request-kept plain_files no_token no_body vhosts true false (some (codes "a.example"))
      get_index (ap (λ r. r.result) served)

abbrev token_file : Bytes → Option OpenFile
token_file path = some (record { is_file = true; nlink = 1; len = 3; content = some (codes "tok") })
