-- ===== src/Lib.antt =====
-- Verification of bare-server, a static web server over TLS: its pure core, and what it promises.
--
-- A server starts from the text of its configuration: `parse_config` reads it line by line into the sites,
-- `build_vhosts` builds the cache of each site with `build_cache`, and enters the site under its names. The
-- watcher (`watch`) then takes turns: it reads the file and the certificates again when they have changed,
-- puts what it builds in force, and moves the listeners.
--
-- A request goes through the parts in this order. The connection loop (src/main.rs, `serve_over`)
-- collects a head up to the first blank line, which `find` looks for; `well_formed_head` refuses a head
-- whose lines the split at CRLF would not see; `percent_decode` turns the path into a file name; the
-- rules of the site (src/config.rs, `Redirects::resolve`) may answer with a redirect; `canonical_form`
-- folds the spellings of a page; `resolve` finds the entry of the cache; `accepts_encoding` and
-- `inm_matches` choose its variant, or a 304; every error is one of the responses that `ErrorPages`
-- built at boot.
--
-- Files and what they model:
--   Base, Text     no code of their own: lists, options and texts with the operations of the standard
--                  library that the source calls. A text is a list of byte codes (`Bytes`), `&str` and
--                  `&[u8]` alike; a map is an association list.
--   Head           src/main.rs: `find`, `well_formed_head`.
--   Percent        src/main.rs: `hexval`, `percent_decode`, `percent_encode_path`.
--   Route          src/main.rs: `Resolved`, `resolve`, `canonical_form`, `normalize_host`.
--   Negotiate      src/main.rs: `is_zero_q`, `accepts_encoding`, `inm_matches`.
--   Response       src/cache.rs: `Prebuilt`, `StatusResponse`, `ErrorPages`, `build_status`; src/main.rs:
--                  `send_error`, `redirect_authority`, `send_redirect`, `send_304`. A function that writes
--                  returns the bytes that it writes.
--   Redirects      src/config.rs: `expand`, `loops_forever`, `Redirects`.
--   Site           src/cache.rs: `Variant`, `MemEntry`, `DiskVariant`, `DiskEntry`, `Cached`, `Site`, `Vhosts`,
--                  and the part of `Policy` that a request reads.
--   Serve          src/main.rs: `serve_mem`, `serve_disk`, `stream_body`.
--   Acme           src/main.rs: `serve_acme_token`, `read_token_file`.
--   Request        src/main.rs: the request line and the header loop of `handle_request`.
--   Handle         src/main.rs: `handle_request`. A reply is the bytes that are written and the result,
--                  `none` for an I/O error of a file.
--   Connection     src/main.rs: `serve_over`. The reads, the clock and whether a write succeeds are the
--                  environment's; a run is the list of what the loop does.
--   Handshake      src/main.rs: `handle_plain`, `handle_connection`. A handshake recurs on its rounds, which are
--                  the environment's.
--   Limits         src/main.rs: `Semaphore`, `PeerLimiter`.
--   Settings       src/config.rs: `Tuning`, `HeaderConfig`, the parsers of their values, `apply_shared`.
--   Config         src/config.rs: `parse_config`, `load_config` and their records. Lines holds the text of a
--                  line and its parts, Keys the `key = value` lines, Parse the line loop, Result what follows
--                  it; Sound is the invariant of the loop, and Order is about the defaults.
--   Cache          src/cache.rs: `Policy`, `etag_for`, `build_header`, `build_variant`, `compress_variants`,
--                  `make_cached`; Snapshot `make_disk_entry`; Walk `walk`, `build_cache`, `cache_bytes`.
--   Boot           src/main.rs: `site_policy`, `build_vhosts`, `build_runtime`.
--   Listen         src/main.rs: `ListenerCtl`, `retire`, `rebind`, `start_listener`, and how `watch` reconciles
--                  the listeners with a configuration.
--   Accept         src/main.rs: a turn of the loop in `spawn_accept`.
--   Watch          src/main.rs: a turn of `watch`, up to the scan of the contents; Contents the scan of the
--                  contents and `error_page_bytes`; Signature `dir_signature`, `file_signature`,
--                  `tls_signature`, `root_links`, `sample` (src/cache.rs).
--   Start          src/main.rs: `main`, up to the loop of `watch`.
--   Mime           src/mime.rs: `mime_for`.
--   Deadline       src/main.rs: `Phase`, `DeadlineIo`.
--   Tests          runs of the definitions, and the theorems at concrete inputs.
--
-- Loops are structural recursion on the bytes that are left; the index of the source's loop is the length
-- of what is already read. The request loop of a connection has the source's bound of 1000 turns, and the
-- loop that collects a head recurs on the reads.
--
-- The walk over a document root recurs on its entries, the line loop on the lines. The numbers that the
-- source adds up are sizes of buffers that are in memory, and do not reach 2 ^ 64.
--
-- Not modelled: sockets, threads and clocks, TLS (rustls), the file system and the compressors, which are
-- parameters where a part calls them; the removal of snapshot directories; the banner.
pub mod Base
pub mod Text
pub mod Head
pub mod Handshake
pub mod Response
pub mod Percent
pub mod Route
pub mod Negotiate
pub mod Redirects
pub mod Site
pub mod Serve
pub mod Acme
pub mod Request
pub mod Handle
pub mod Connection
pub mod Limits
pub mod Settings
pub mod Config
pub mod Cache
pub mod Boot
pub mod Listen
pub mod Accept
pub mod Watch
pub mod Start
pub mod Mime
pub mod Deadline
mod Tests
