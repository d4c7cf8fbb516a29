-- ===== src/Clef/Line/Codes.antt =====
-- About `convert_buffer` (src/lib/edin.c) on the glyphs of a line.
use mathlib.Core.Path.{subst}
use open_axiom.Prelude.{
  ℕ, zero, suc, ◌+◌, ◌≤◌, ◌<◌, ◌≡◌, refl, List, [], ◌∷◌, ◌++◌, arith, length, true, false, ltb, ap,
}
use open_axiom.Prelude.Memory.{Memory, At, store, cells}
use open_axiom.Prelude.Memory.Laws.{All, cells_At}
use open_axiom.Clef.State.{Flag}
use open_axiom.Clef.Lines.{convert_cell, convert_loop, convert_buffer}
use open_axiom.Clef.Line.Glyph.{
  Glyph, plain, control, glyph_width, glyph_width_pos, chars, flags, width, IsGlyph,
}

-- the character that the user typed
abbrev pub code : Glyph → ℕ
code (plain c) = c
code (control c) = c

abbrev pub codes : List Glyph → List ℕ
codes [] = []
codes (g ∷ gs) = code g ∷ codes gs

pub codes-append : (gs hs : List Glyph) → codes (gs ++ hs) ≡ codes gs ++ codes hs
codes-append [] hs = refl
codes-append (g ∷ gs) hs = rw (codes-append gs hs)

length-codes : (gs : List Glyph) → length (codes gs) ≡ length gs
length-codes [] = refl
length-codes (g ∷ gs) = ap suc (length-codes gs)

module _ (i j : ℕ) (source : Memory ℕ) (marks : Memory Flag) (target : Memory ℕ) where
  -- One round turns the cells of one glyph into its character.
  convert_cell-glyph :
      (g : Glyph) (gs : List Glyph)
      → At source i (chars (g ∷ gs))
      → At marks i (flags (g ∷ gs))
      → IsGlyph g
      → convert_cell i j source marks target ≡ (glyph_width g, store target j (code g))
  unfolding convert_cell
  convert_cell-glyph (plain c) gs hc hf good = ground (arith, hc.0, hf.0)
  convert_cell-glyph (control c) gs hc hf good =
      let e : i + 1 ≡ suc i = omega arith in ground (arith, hc.0, hc.1.0, hf.0)

chars-tail :
    (m : Memory ℕ) (i : ℕ) (g : Glyph) (gs : List Glyph)
    → At m i (chars (g ∷ gs))
    → At m (i + glyph_width g) (chars gs)
chars-tail m i (plain c) gs h = subst (λ j. At m j (chars gs)) (omega arith) h.1
chars-tail m i (control c) gs h = subst (λ j. At m j (chars gs)) (omega arith) h.1.1

flags-tail :
    (m : Memory Flag) (i : ℕ) (g : Glyph) (gs : List Glyph)
    → At m i (flags (g ∷ gs))
    → At m (i + glyph_width g) (flags gs)
flags-tail m i (plain c) gs h = subst (λ j. At m j (flags gs)) (omega arith) h.1
flags-tail m i (control c) gs h = subst (λ j. At m j (flags gs)) (omega arith) h.1.1

-- The characters of the line stand in the target from `j` on, behind what stood there.
record Converted (j : ℕ) (gs : List Glyph) (target : Memory ℕ) (result : Memory ℕ × ℕ)
    : Type 0 where
  count : result.1 ≡ j + length gs
  written : At result.0 j (codes gs)
  kept : (k : ℕ) → k < j → result.0 k ≡ target k

module _ (f i j num : ℕ) (source : Memory ℕ) (marks : Memory Flag) (target : Memory ℕ) where
  convert_loop_step :
      (n : ℕ) (t : Memory ℕ)
      → ltb i num ≡ true
      → convert_cell i j source marks target ≡ (n, t)
      → convert_loop (suc f) i j num source marks target
        ≡ convert_loop f (i + n) (suc j) num source marks t
  unfolding convert_loop
  convert_loop_step n t more e = rw (more, e) refl

convert_loop_end :
    (fuel i j num : ℕ) (source : Memory ℕ) (marks : Memory Flag) (target : Memory ℕ)
    → i ≡ num
    → convert_loop fuel i j num source marks target ≡ (target, j)
unfolding convert_loop
convert_loop_end zero i j num source marks target e = refl
convert_loop_end (suc fuel) i j num source marks target e =
    let done : ltb i num ≡ false = ground arith in rw done refl

-- The loop turns the cells of a line into its characters.
convert_loop-Converted :
    (gs : List Glyph) (fuel i j num : ℕ) (source : Memory ℕ) (marks : Memory Flag)
    (target : Memory ℕ)
    → At source i (chars gs)
    → At marks i (flags gs)
    → All IsGlyph gs
    → i + width gs ≡ num
    → width gs ≤ fuel
    → Converted j gs target (convert_loop fuel i j num source marks target)
convert_loop-Converted [] fuel i j num source marks target hc hf good e le =
    rw (convert_loop_end fuel i j num source marks target (omega arith))
      (record { count = omega arith; written = tt; kept = λ k lt. refl })
convert_loop-Converted (g ∷ gs) zero i j num source marks target hc hf good e le =
    absurd (omega (arith, glyph_width_pos g))
convert_loop-Converted (g ∷ gs) (suc f) i j num source marks target hc hf good e le =
    let n = glyph_width g in
    let more : ltb i num ≡ true = ground (arith, glyph_width_pos g) in
    let rest =
      convert_loop-Converted gs f (i + n) (suc j) num source marks (store target j (code g))
        (chars-tail source i g gs hc) (flags-tail marks i g gs hf) good.1 (omega arith)
        (omega (arith, glyph_width_pos g)) in
    rw
      (convert_loop_step f i j num source marks target n (store target j (code g)) more
        (convert_cell-glyph i j source marks target g gs hc hf good.0))
      (record {
        count = omega (arith, rest.count);
        written = (ground (arith, rest.kept j), rest.written);
        kept = λ k lt. ground (arith, rest.kept k);
      })

-- `convert_buffer` gives back the characters of a line that fills the first `num` cells.
pub convert_buffer-codes :
    (gs : List Glyph) (source : Memory ℕ) (marks : Memory Flag) (target : Memory ℕ)
    → At source 0 (chars gs)
    → At marks 0 (flags gs)
    → All IsGlyph gs
    → let (t, n) = convert_buffer target source marks (width gs) in cells 0 n t ≡ codes gs
unfolding convert_buffer
convert_buffer-codes gs source marks target hc hf good =
    let c =
      convert_loop-Converted gs (width gs) 0 0 (width gs) source marks target hc hf good
        (omega arith) (omega arith) in
    let e : (convert_loop (width gs) 0 0 (width gs) source marks target).1 ≡ length (codes gs) =
      omega (arith, c.count, length-codes gs) in
    rw e (cells_At _ 0 (codes gs) c.written)
