-- ===== src/Site.antt =====
-- src/cache.rs: the data a request is answered from (`Variant`, `MemEntry`, `DiskVariant`, `DiskEntry`,
-- `Cached`, `Site`, `Vhosts`), and the part of `Policy` that the request handler reads. A site's cache is
-- the snapshot that a request clones: a swap during the request does not reach it.
use bare_server.Base.{ℕ, ◌+◌, Bool, Option, none, some, length, Bytes}
use bare_server.Text.{Table}
use bare_server.Response.{ErrorPages}
use bare_server.Redirects.{Redirects}

-- One precomputed response: the headers, and from `header_len` on the body.
pub record Variant : Type 0 where
  pub full_ka : Bytes
  pub header_len : ℕ
  pub etag : Bytes
  pub encoding : Option Bytes

pub record DiskVariant : Type 0 where
  pub header_ka : Bytes
  pub path : Bytes
  pub len : ℕ
  pub etag : Bytes
  pub encoding : Option Bytes

pub record MemEntry : Type 0 where
  pub identity : Variant
  pub gzip : Option Variant
  pub br : Option Variant
  pub cache_control : Bytes
  pub vary : Bool

pub record DiskEntry : Type 0 where
  pub identity : DiskVariant
  pub gzip : Option DiskVariant
  pub br : Option DiskVariant
  pub cache_control : Bytes
  pub vary : Bool

pub data Cached : Type 0 where
  mem : MemEntry → Cached
  disk : DiskEntry → Cached

abbrev mem_bytes : Option Variant → ℕ
mem_bytes none = 0
mem_bytes (some v) = length v.full_ka

abbrev disk_bytes : Option DiskVariant → ℕ
disk_bytes none = 0
disk_bytes (some v) = length v.header_ka

-- `Cached::retained_bytes`
unfoldable pub retained_bytes : Cached → ℕ
retained_bytes (mem m) = length m.identity.full_ka + mem_bytes m.gzip + mem_bytes m.br
retained_bytes (disk d) = length d.identity.header_ka + disk_bytes d.gzip + disk_bytes d.br

pub record Policy : Type 0 where
  pub security_headers : Bytes
  pub errors : ErrorPages

pub record Site : Type 0 where
  pub root : Option Bytes
  pub cache : Table Cached
  pub force_ssl : Bool
  pub canonical_urls : Bool
  pub redirects : Redirects
  pub policy : Policy

pub record Vhosts : Type 0 where
  pub sites : Table Site
  pub https_port : Bytes
  pub http_port : Bytes
  pub errors : ErrorPages
