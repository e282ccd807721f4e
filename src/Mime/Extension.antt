-- ===== src/Mime/Extension.antt =====
-- src/mime.rs, `mime_for`: the extension of a path.
use mathlib.Core.List.{reverse-cons}
use bare_server.Base.{
  ℕ, ◌≡◌, ◌≢◌, refl, sym, ap, ◌∙◌, some, [], ◌∷◌, ◌++◌, reverse, reverse-append, reverse-reverse,
  append_assoc, arith, Bytes, All, All-reverse,
}
use bare_server.Text.{
  split_once, rsplit_once, lower, to_ascii_lowercase, to_ascii_lowercase-All,
  to_ascii_lowercase_idem,
}
use bare_server.Mime.{type_of, mime_for, typed}

split_once-Lacks :
    (sep : ℕ) (p rest : Bytes)
    → All (λ c. c ≢ sep) p
    → split_once sep (p ++ sep ∷ rest) ≡ some (p, rest)
unfolding split_once
split_once-Lacks sep [] rest h = ground arith
split_once-Lacks sep (c ∷ p) rest h = ground (arith, split_once-Lacks sep p rest h.1)

rsplit_once-Lacks :
    (sep : ℕ) (stem ext : Bytes)
    → All (λ c. c ≢ sep) ext
    → rsplit_once sep (stem ++ sep ∷ ext) ≡ some (stem, ext)
unfolding rsplit_once
rsplit_once-Lacks sep stem ext h =
    let turned : reverse (stem ++ sep ∷ ext) ≡ reverse ext ++ (sep ∷ reverse stem) =
      reverse-append stem (sep ∷ ext)
      ∙ ap (λ r. r ++ reverse stem) (reverse-cons sep ext)
      ∙ append_assoc (reverse ext) (sep ∷ []) (reverse stem) in
    rw
      (
        turned,
        split_once-Lacks sep (reverse ext) (reverse stem) (All-reverse (λ c. c ≢ sep) ext h),
        reverse-reverse stem,
        reverse-reverse ext,
      )
      refl

lower-Lacks : (c : ℕ) → c ≢ b'.' → lower c ≢ b'.'
unfolding lower
lower-Lacks c h e = ground arith

-- The media type of a path is that of the part behind its last dot, and the case of that part makes no
-- difference.
pub mime_for-extension :
    (stem ext : Bytes)
    → All (λ c. c ≢ b'.') ext
    → (mime_for (stem ++ b'.' ∷ ext) ≡ type_of (to_ascii_lowercase ext))
      × (mime_for (stem ++ b'.' ∷ to_ascii_lowercase ext) ≡ mime_for (stem ++ b'.' ∷ ext))
unfolding mime_for
mime_for-extension stem ext h =
    let e = rsplit_once-Lacks b'.' stem ext h in
    let small =
      rsplit_once-Lacks b'.' stem (to_ascii_lowercase ext)
        (to_ascii_lowercase-All (λ c. c ≢ b'.') lower-Lacks ext h) in
    (ap typed e, ap typed small ∙ ap type_of (to_ascii_lowercase_idem ext) ∙ sym (ap typed e))
