-- ===== src/Head/Framing.antt =====
-- src/main.rs, `well_formed_head`: the strict framing of a head, and its lines.
use bare_server.Base.{
  ℕ, ◌≤◌, ◌≡◌, ◌≢◌, ◌↔◌, ◌⊎◌, inl, inr, refl, true, List, [], ◌∷◌, arith, Bytes, All, ◌==◌,
  Bool-cases, ◌++◌, ◌∙◌, ap, Bool, ◌&&◌, ◌||◌, not, leb,
}
use bare_server.Text.{split_crlf, cons_head}
use bare_server.Head.{well_formed_head}

-- A byte that may stand within a line.
abbrev pub IsFieldByte : ℕ → Type 0
IsFieldByte c = ((c ≡ b'\t') ⊎ (0x20 ≤ c)) × (c ≢ 0x7f)

-- A byte that no check of the source calls a control byte: the tab is one.
abbrev pub IsPrintable : ℕ → Type 0
IsPrintable c = (0x20 ≤ c) × (c ≢ 0x7f)

pub IsPrintable-IsFieldByte : (c : ℕ) → IsPrintable c → IsFieldByte c
IsPrintable-IsFieldByte c h = (inr h.0, h.1)

pub data IsFramed : Bytes → Type 0 where
  end : IsFramed []
  line_break : {s : Bytes} → IsFramed s → IsFramed (b'\r' ∷ b'\n' ∷ s)
  byte : {c : ℕ} {s : Bytes} → IsFieldByte c → IsFramed s → IsFramed (c ∷ s)

well_formed_head_sound : (s : Bytes) → well_formed_head s ≡ true → IsFramed s
unfolding well_formed_head
well_formed_head_sound [] h = end
well_formed_head_sound (c ∷ []) h = byte (ground arith) end
well_formed_head_sound (c ∷ d ∷ s) h = elim (Bool-cases (c == b'\r')) [
  | inl e ↦
      let c_cr : c ≡ b'\r' = ground arith in
      let d_lf : d ≡ b'\n' = ground arith in
      rw (c_cr, d_lf) (line_break (well_formed_head_sound s (ground arith)))
  | inr e ↦ byte (ground arith) (well_formed_head_sound (d ∷ s) (ground arith))
]

well_formed_head-byte :
    (c : ℕ) (s : Bytes)
    → IsFieldByte c
    → well_formed_head s ≡ true
    → well_formed_head (c ∷ s) ≡ true
unfolding well_formed_head
well_formed_head-byte c [] f h = ground arith
well_formed_head-byte c (d ∷ s) f h = ground arith

well_formed_head-line_break :
    (s : Bytes) → well_formed_head s ≡ true → well_formed_head (b'\r' ∷ b'\n' ∷ s) ≡ true
unfolding well_formed_head
well_formed_head-line_break s h = h

well_formed_head_complete : {s : Bytes} → IsFramed s → well_formed_head s ≡ true
well_formed_head_complete end = unfold well_formed_head in refl
well_formed_head_complete (line_break r) =
    well_formed_head-line_break _ (well_formed_head_complete r)
well_formed_head_complete (byte f r) = well_formed_head-byte _ _ f (well_formed_head_complete r)

-- `well_formed_head` accepts a byte string exactly when it is made of CRLF pairs and of bytes that are
-- a tab or at least 0x20 and are not 0x7f.
pub well_formed_head_iff : (s : Bytes) → (well_formed_head s ≡ true) ↔ IsFramed s
well_formed_head_iff s = (well_formed_head_sound s, well_formed_head_complete)

abbrev pub IsLine : Bytes → Type 0
IsLine = All IsFieldByte

cons_head-IsLine :
    (c : ℕ) (ls : List Bytes) → IsFieldByte c → All IsLine ls → All IsLine (cons_head c ls)
cons_head-IsLine c [] f h = ((f, tt), tt)
cons_head-IsLine c (l ∷ ls) f h = ((f, h.0), h.1)

split_crlf-byte :
    (c : ℕ) (s : Bytes) → IsFieldByte c → split_crlf (c ∷ s) ≡ cons_head c (split_crlf s)
unfolding split_crlf
split_crlf-byte c [] f = refl
split_crlf-byte c (d ∷ s) f = ground arith

split_crlf-line_break : (s : Bytes) → split_crlf (b'\r' ∷ b'\n' ∷ s) ≡ [] ∷ split_crlf s
unfolding split_crlf
split_crlf-line_break s = refl

IsFramed-lines : {s : Bytes} → IsFramed s → All IsLine (split_crlf s)
IsFramed-lines end = unfold split_crlf in (tt, tt)
IsFramed-lines (line_break {s} r) = rw (split_crlf-line_break s) (tt, IsFramed-lines r)
IsFramed-lines (byte {c} {s} f r) =
    rw (split_crlf-byte c s f) (cons_head-IsLine c (split_crlf s) f (IsFramed-lines r))

-- No line of an accepted head holds a CR, an LF, a NUL or another control byte than the tab: a header
-- cannot hide behind a line break that the split into lines does not see.
pub well_formed_head-lines : (s : Bytes) → well_formed_head s ≡ true → All IsLine (split_crlf s)
well_formed_head-lines s h = IsFramed-lines (well_formed_head_sound s h)

-- A line, read off the front of a text.
pub split_crlf-line :
    (l rest : Bytes) → IsLine l → split_crlf (l ++ (b'\r' ∷ b'\n' ∷ rest)) ≡ l ∷ split_crlf rest
split_crlf-line [] rest h = split_crlf-line_break rest
split_crlf-line (c ∷ l) rest h =
    split_crlf-byte c _ h.0 ∙ ap (cons_head c) (split_crlf-line l rest h.1)

pub line_then :
    (l rest : Bytes) {ls : List Bytes}
    → IsLine l
    → split_crlf rest ≡ ls
    → split_crlf (l ++ (b'\r' ∷ b'\n' ∷ rest)) ≡ l ∷ ls
line_then l rest h e = split_crlf-line l rest h ∙ ap (◌∷◌ l) e

-- The last line of a text has no line break behind it.
pub split_crlf-last : (l : Bytes) → IsLine l → split_crlf l ≡ l ∷ []
split_crlf-last [] h = unfold split_crlf in refl
split_crlf-last (c ∷ l) h = split_crlf-byte c l h.0 ∙ ap (cons_head c) (split_crlf-last l h.1)

pub IsFramed-append : {s t : Bytes} → IsFramed s → IsFramed t → IsFramed (s ++ t)
IsFramed-append end f = f
IsFramed-append (line_break r) f = line_break (IsFramed-append r f)
IsFramed-append (byte h r) f = byte h (IsFramed-append r f)

pub IsLine-IsFramed : (l : Bytes) → IsLine l → IsFramed l
IsLine-IsFramed [] h = end
IsLine-IsFramed (c ∷ l) h = byte h.0 (IsLine-IsFramed l h.1)

-- A test that decides `IsLine`, to run on literals.
unfoldable pub is_line : Bytes → Bool
is_line [] = true
is_line (c ∷ l) = (c == b'\t' || leb 0x20 c) && not (c == 0x7f) && is_line l

pub is_line-IsLine : (l : Bytes) → is_line l ≡ true → IsLine l
unfolding is_line
is_line-IsLine [] h = tt
is_line-IsLine (c ∷ l) h = ground (arith, is_line-IsLine l)
