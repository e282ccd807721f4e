-- ===== src/Mime.antt =====
-- src/mime.rs: `mime_for`.
pub mod Extension
use bare_server.Base.{
  Bool, true, false, ◌||◌, Option, none, some, List, [], ◌∷◌, ◌++◌, if◌then◌else◌, Bytes, codes,
}
use bare_server.Text.{beq, rsplit_once, to_ascii_lowercase}

-- The `match` on the extension in lower case.
unfoldable pub type_of : Bytes → Bytes
type_of e =
    if beq e (codes "html") || beq e (codes "htm")
    then codes "text/html; charset=utf-8"
    else if beq e (codes "css")
    then codes "text/css; charset=utf-8"
    else if beq e (codes "js") || beq e (codes "mjs")
    then codes "text/javascript; charset=utf-8"
    else if beq e (codes "json")
    then codes "application/json; charset=utf-8"
    else if beq e (codes "txt")
    then codes "text/plain; charset=utf-8"
    else if beq e (codes "xml")
    then codes "application/xml; charset=utf-8"
    else if beq e (codes "svg")
    then codes "image/svg+xml"
    else if beq e (codes "png")
    then codes "image/png"
    else if beq e (codes "jpg") || beq e (codes "jpeg")
    then codes "image/jpeg"
    else if beq e (codes "gif")
    then codes "image/gif"
    else if beq e (codes "webp")
    then codes "image/webp"
    else if beq e (codes "avif")
    then codes "image/avif"
    else if beq e (codes "ico")
    then codes "image/x-icon"
    else if beq e (codes "woff")
    then codes "font/woff"
    else if beq e (codes "woff2")
    then codes "font/woff2"
    else if beq e (codes "ttf")
    then codes "font/ttf"
    else if beq e (codes "pdf")
    then codes "application/pdf"
    else if beq e (codes "wasm")
    then codes "application/wasm"
    else if beq e (codes "mp4")
    then codes "video/mp4"
    else if beq e (codes "webm")
    then codes "video/webm"
    else if beq e (codes "mp3")
    then codes "audio/mpeg"
    else codes "application/octet-stream"

abbrev pub typed : Option (Bytes × Bytes) → Bytes
typed none = codes "application/octet-stream"
typed (some (stem, ext)) = type_of (to_ascii_lowercase ext)

-- `path.rfind('.')`, with the part behind it.
unfoldable pub mime_for : Bytes → Bytes
mime_for path = typed (rsplit_once b'.' path)
