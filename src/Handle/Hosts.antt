-- ===== src/Handle/Hosts.antt =====
-- src/main.rs, `handle_request`: the site that answers.
use bare_server.Base.{◌≡◌, Bool, Option, some, Bytes, All}
use bare_server.Text.{get, IsByte}
use bare_server.Head.Framing.{IsLine, IsPrintable}
use bare_server.Request.{RequestLine}
use bare_server.Serve.{Reply, reply, Reads}
use bare_server.Acme.{OpenFile}
use bare_server.Response.{send_error}
use bare_server.Site.{Site, Vhosts}
use bare_server.Handle.{Context, refuse, answer_site}

pub some-injective {ℓ} : {A : Type ℓ} (x y : A) → ◌≡◌ {A = Option A} (some x) (some y) → x ≡ y
some-injective x y e = cc

-- The name of the TLS handshake, if there was one, is the host.
abbrev pub SniAgrees : Option Bytes → Bytes → Type 0
SniAgrees sni host_key = (s : Bytes) → sni ≡ some s → s ≡ host_key

-- Where a reply comes from: the server's own 400 or 404, or a site.
pub data Answered (answer : RequestLine → Context → Reply) (vhosts : Vhosts) (sni : Option Bytes)
    (r : Reply) : Type 0 where
  bad_request :
      (is_head : Bool) → r ≡ refuse vhosts.errors.bad_request is_head → Answered answer vhosts sni r
  unknown_host :
      (keep_alive is_head : Bool)
      → r ≡ reply (send_error vhosts.errors.not_found keep_alive is_head) keep_alive
      → Answered answer vhosts sni r
  by_site :
      (line : RequestLine) (c : Context)
      → get c.host_key vhosts.sites ≡ some c.site
      → SniAgrees sni c.host_key
      → (c.https_port ≡ vhosts.https_port) × (c.http_port ≡ vhosts.http_port)
      → IsLine c.host_key
      → All IsPrintable line.target
      → All IsByte line.target
      → r ≡ answer line c
      → Answered answer vhosts sni r

module _ (is_plain : Bytes → Bool) (open_nofollow : Bytes → Option OpenFile)
    (open_body : Bytes → Option Reads) (vhosts : Vhosts) (want_ka redirect_https : Bool)
    (sni : Option Bytes) where
  abbrev From : Reply → Type 0
  From = Answered (answer_site is_plain open_nofollow open_body) vhosts sni
