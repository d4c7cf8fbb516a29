-- ===== src/Clef/Line/Glyph.antt =====
-- A glyph is what the user sees as one character: an ordinary one in a cell of `buff`, or a control
-- character, shown as a caret and a letter in two cells.
use mathlib.Core.Path.{subst}
use open_axiom.Prelude.{
  ℕ, suc, ◌+◌, ◌-◌, ◌≤◌, ◌<◌, ◌≡◌, refl, ◌≢◌, false, List, [], ◌∷◌, ◌++◌, arith, length, ◌==◌,
  append_assoc,
}
use open_axiom.Prelude.Memory.{At}
use open_axiom.Prelude.Memory.Laws.{All, At-split}
use open_axiom.Clef.Key
use open_axiom.Clef.State.{Flag, is_free, Editor, advance, maxline}

pub data Glyph : Type 0 where
  plain : ℕ → Glyph
  control : ℕ → Glyph

-- The codes that the reader accepts: no NUL, and the control characters with escape.
abbrev pub IsGlyph : Glyph → Type 0
IsGlyph (plain c) = c ≢ 0
IsGlyph (control c) = (1 ≤ c) × (c ≤ 27)

abbrev pub glyph_chars : Glyph → List ℕ
glyph_chars (plain c) = c ∷ []
glyph_chars (control c) = Key.carrot ∷ (c + 0x40) ∷ []

abbrev pub glyph_flags : Glyph → List Flag
glyph_flags (plain c) = Flag.plain ∷ []
glyph_flags (control c) = Flag.lead ∷ Flag.tail ∷ []

abbrev pub glyph_width : Glyph → ℕ
glyph_width (plain c) = 1
glyph_width (control c) = 2

-- the flag of the first cell
abbrev pub lead_flag : Glyph → Flag
lead_flag (plain c) = Flag.plain
lead_flag (control c) = Flag.lead

pub glyph_width_pos : (g : Glyph) → 0 < glyph_width g
glyph_width_pos (plain c) = omega arith
glyph_width_pos (control c) = omega arith

abbrev pub chars : List Glyph → List ℕ
chars [] = []
chars (g ∷ gs) = glyph_chars g ++ chars gs

abbrev pub flags : List Glyph → List Flag
flags [] = []
flags (g ∷ gs) = glyph_flags g ++ flags gs

abbrev pub width : List Glyph → ℕ
width [] = 0
width (g ∷ gs) = glyph_width g + width gs

pub length-chars : (gs : List Glyph) → length (chars gs) ≡ width gs
length-chars [] = refl
length-chars (plain c ∷ gs) = omega (arith, length-chars gs)
length-chars (control c ∷ gs) = omega (arith, length-chars gs)

pub length-flags : (gs : List Glyph) → length (flags gs) ≡ width gs
length-flags [] = refl
length-flags (plain c ∷ gs) = omega (arith, length-flags gs)
length-flags (control c ∷ gs) = omega (arith, length-flags gs)

pub chars-append : (gs hs : List Glyph) → chars (gs ++ hs) ≡ chars gs ++ chars hs
chars-append [] hs = refl
chars-append (g ∷ gs) hs = rw (chars-append gs hs, append_assoc)

pub flags-append : (gs hs : List Glyph) → flags (gs ++ hs) ≡ flags gs ++ flags hs
flags-append [] hs = refl
flags-append (g ∷ gs) hs = rw (flags-append gs hs, append_assoc)

pub width-append : (gs hs : List Glyph) → width (gs ++ hs) ≡ width gs + width hs
width-append [] hs = omega arith
width-append (g ∷ gs) hs = omega (arith, width-append gs hs)

pub chars_no_nul : (gs : List Glyph) → All IsGlyph gs → All (λ c. (c == 0) ≡ false) (chars gs)
chars_no_nul [] h = tt
chars_no_nul (plain c ∷ gs) h = (ground arith, chars_no_nul gs h.1)
chars_no_nul (control c ∷ gs) h = (refl, (ground arith, chars_no_nul gs h.1))

pub flags_not_free : (gs : List Glyph) → All (λ f. is_free f ≡ false) (flags gs)
flags_not_free [] = tt
flags_not_free (plain c ∷ gs) = (refl, flags_not_free gs)
flags_not_free (control c ∷ gs) = (refl, (refl, flags_not_free gs))

-- The cells from the cursor on.
abbrev pub HoldsRight : ℕ → List Glyph → Editor → Type 0
HoldsRight i r s = At s.buff i (chars r ++ 0 ∷ []) × At s.buff_flag i (flags r ++ Flag.free ∷ [])

pub HoldsRight-tail :
    (i : ℕ) (g : Glyph) (r : List Glyph) (s : Editor)
    → HoldsRight i (g ∷ r) s
    → HoldsRight (i + glyph_width g) r s
HoldsRight-tail i (plain c) r s h = subst (λ j. HoldsRight j r s) (omega arith) (h.0.1, h.1.1)
HoldsRight-tail i (control c) r s h = subst (λ j. HoldsRight j r s) (omega arith) (h.0.1.1, h.1.1.1)

-- The editor holds the glyphs `l` before the cursor and the glyphs `r` behind it, with an end mark
-- in both arrays, and nothing has gone wrong so far.
pub record Rep (l r : List Glyph) (s : Editor) : Type 0 where
  pub chars_left : At s.buff 0 (chars l)
  pub flags_left : At s.buff_flag 0 (flags l)
  pub right : HoldsRight (width l) r s
  pub cursor : s.curr_pntr ≡ width l
  pub total : s.buff_pntr ≡ width l + width r
  pub room : width l + width r < maxline
  pub glyphs_left : All IsGlyph l
  pub glyphs_right : All IsGlyph r
  pub no_fault : s.fault ≡ false

-- the flag of the last cell
abbrev pub last_flag : Glyph → Flag
last_flag (plain c) = Flag.plain
last_flag (control c) = Flag.tail

module _ (l : List Glyph) (g : Glyph) (r : List Glyph) (s : Editor)
    (h : Rep (l ++ g ∷ []) r s) where
  -- The cells before the cursor, in two parts.
  pub chars_before : At s.buff 0 (chars l) × At s.buff (width l) (glyph_chars g ++ [])
  chars_before =
      let e : 0 + length (chars l) ≡ width l = omega (arith, length-chars l) in
      rw e at (At-split s.buff 0 (chars l) (chars (g ∷ [])) (rw chars-append at h.chars_left))

  pub flags_before : At s.buff_flag 0 (flags l) × At s.buff_flag (width l) (glyph_flags g ++ [])
  flags_before =
      let e : 0 + length (flags l) ≡ width l = omega (arith, length-flags l) in
      rw e at (At-split s.buff_flag 0 (flags l) (flags (g ∷ [])) (rw flags-append at h.flags_left))

  pub cursor_after : s.curr_pntr ≡ width l + glyph_width g
  cursor_after = omega (arith, h.cursor, width-append l (g ∷ []))

pub flag_before_cursor :
    (l : List Glyph) (g : Glyph) (r : List Glyph) (s : Editor)
    → Rep (l ++ g ∷ []) r s
    → s.buff_flag (s.curr_pntr - 1) ≡ last_flag g
flag_before_cursor l (plain c) r s h =
    let e : s.curr_pntr - 1 ≡ width l = omega (arith, cursor_after l (plain c) r s h) in
    rw e (flags_before l (plain c) r s h).1.0
flag_before_cursor l (control c) r s h =
    let e : s.curr_pntr - 1 ≡ suc (width l) = omega (arith, cursor_after l (control c) r s h) in
    rw e (flags_before l (control c) r s h).1.1.0

-- Characters taken from the input do not matter.
pub Rep-advance : (n : ℕ) (l r : List Glyph) (s : Editor) → Rep l r s → Rep l r (advance n s)
Rep-advance n l r s h = record {
  chars_left = h.chars_left;
  flags_left = h.flags_left;
  right = h.right;
  cursor = h.cursor;
  total = h.total;
  room = h.room;
  glyphs_left = h.glyphs_left;
  glyphs_right = h.glyphs_right;
  no_fault = h.no_fault;
}

module _ (l : List Glyph) (g : Glyph) (r : List Glyph) (s : Editor) (h : Rep l (g ∷ r) s) where
  -- With a glyph behind the cursor, the cursor is not at the end of the line.
  pub not_at_end : (s.curr_pntr == s.buff_pntr) ≡ false
  not_at_end = ground (arith, h.cursor, h.total, glyph_width_pos g)

pub flag_at_cursor :
    (l : List Glyph) (g : Glyph) (r : List Glyph) (s : Editor)
    → Rep l (g ∷ r) s
    → s.buff_flag s.curr_pntr ≡ lead_flag g
flag_at_cursor l (plain c) r s h = rw h.cursor h.right.1.0
flag_at_cursor l (control c) r s h = rw h.cursor h.right.1.0
