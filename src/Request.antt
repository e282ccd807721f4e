-- ===== src/Request.antt =====
-- src/main.rs, `handle_request`: the request line and the header loop. A refused head is a 400, whatever
-- refuses it.
use bare_server.Base.{
  is_nil, ℕ, zero, suc, Bool, true, false, ◌&&◌, ◌||◌, not, Option, none, some, List, [], ◌∷◌, any,
  ◌==◌, ltb, if◌then◌else◌, Bytes, codes, ◌>>=◌,
}
use bare_server.Text.{beq, eq_ignore_ascii_case, starts_with, split, split_once, trim}

pub record RequestLine : Type 0 where
  pub method : Bytes
  pub target : Bytes
  pub version : Bytes

-- `parts.next().unwrap_or("")`, for the part at an index.
abbrev pub part_at : ℕ → List Bytes → Bytes
part_at i [] = []
part_at zero (p ∷ ps) = p
part_at (suc i) (p ∷ ps) = part_at i ps

abbrev has_fourth : List Bytes → Bool
has_fourth (a ∷ b ∷ c ∷ d ∷ ps) = true
has_fourth ps = false

-- The checks of the parts of the request line, in the order of the source.
unfoldable pub request_line : List Bytes → Option RequestLine
request_line parts =
    let method = part_at 0 parts in
    let target = part_at 1 parts in
    let version = part_at 2 parts in
    if has_fourth parts
    then none
    else if is_nil method || is_nil target || is_nil version
    then none
    else if not (beq version (codes "HTTP/1.1")) && not (beq version (codes "HTTP/1.0"))
    then none
    else if any (λ b. ltb b 0x20 || b == 0x7f) target
    then none
    else some (record { method = method; target = target; version = version })

-- The variables that the header loop assigns.
pub record Fields : Type 0 where
  pub keep_alive : Bool
  pub accept_enc : Bytes
  pub host_hdr : Bytes
  pub inm : Bytes
  pub host_seen : Bool
  pub has_body : Bool

abbrev pub initial_fields : Bytes → Fields
initial_fields version = record {
  keep_alive = beq version (codes "HTTP/1.1");
  accept_enc = [];
  host_hdr = [];
  inm = [];
  host_seen = false;
  has_body = false;
}

-- The loop over the tokens of a Connection field.
unfoldable pub connection_tokens : List Bytes → Bool → Bool
connection_tokens [] keep_alive = keep_alive
connection_tokens (t ∷ ts) keep_alive =
    let tok = trim t in
    connection_tokens ts (
      if eq_ignore_ascii_case tok (codes "close")
      then false
      else if eq_ignore_ascii_case tok (codes "keep-alive")
      then true
      else keep_alive)

-- What one field assigns; a second Host is refused.
unfoldable pub header_field : Fields → Bytes → Bytes → Option Fields
header_field f name value =
    if eq_ignore_ascii_case name (codes "host")
    then (if f.host_seen then none else some (record f { host_hdr = value; host_seen = true }))
    else if eq_ignore_ascii_case name (codes "content-length")
    then some (if beq value (codes "0") then f else record f { has_body = true })
    else if eq_ignore_ascii_case name (codes "transfer-encoding")
    then some (record f { has_body = true })
    else if eq_ignore_ascii_case name (codes "connection")
    then some (record f { keep_alive = connection_tokens (split b',' value) f.keep_alive })
    else if eq_ignore_ascii_case name (codes "if-none-match")
    then some (record f { inm = value })
    else if eq_ignore_ascii_case name (codes "accept-encoding")
    then some (record f { accept_enc = value })
    else some f

unfoldable pub named_field : Fields → Option (Bytes × Bytes) → Option Fields
named_field f none = none
named_field f (some (name, value)) =
    if is_nil name || any (λ b. b == b' ' || b == b'\t') name
    then none
    else header_field f name (trim value)

-- One line of the header block.
unfoldable pub header_line : Fields → Bytes → Option Fields
header_line f line =
    if starts_with (codes " ") line || starts_with (codes "\t") line
    then none
    else named_field f (split_once b':' line)

-- The loop, up to the blank line.
unfoldable pub header_loop : Fields → List Bytes → Option Fields
header_loop f [] = some f
header_loop f ([] ∷ lines) = some f
header_loop f ((c ∷ line) ∷ lines) = header_line f (c ∷ line) >>= λ g. header_loop g lines
