-- ===== src/Hyper/Dialog/View/Lines.antt =====
-- The text of lines that are renumbered or drawn.
use open_axiom.Prelude.{
  ℕ, ◌+◌, ◌-◌, ◌≤◌, ◌≡◌, refl, sym, ap, ◌∙◌, List, [], ◌∷◌, ◌++◌, arith, append_assoc, append-nil,
  map, Bool, lt→ltb, le→ltb, ◌<◌, if◌then◌else◌,
}
use open_axiom.Prelude.Memory.{store, cells}
use open_axiom.Prelude.Memory.Cells.{cells_first, cells-store_behind}
use open_axiom.Hyper.Dialog.{
  LineStruct, InputItem, inc_line_numbers, dec_line_numbers, decrease_line_numbers, drawn, wrap,
  update_inputsymbol,
}
use open_axiom.Hyper.Dialog.View.{
  newline, shown, above, below, left_of_cursor, right_of_cursor, width, ending, rest_of_line,
}

module _ (size : ℕ) where
  pub below-inc_line_numbers :
      (ls : List LineStruct) → below size (inc_line_numbers ls) ≡ below size ls
  unfolding inc_line_numbers
  below-inc_line_numbers [] = refl
  below-inc_line_numbers (l ∷ ls) = ap (λ r. shown size l ++ r) (below-inc_line_numbers ls)

  pub below-dec_line_numbers :
      (ls : List LineStruct) → below size (dec_line_numbers ls) ≡ below size ls
  unfolding dec_line_numbers
  below-dec_line_numbers [] = refl
  below-dec_line_numbers (l ∷ ls) = ap (λ r. shown size l ++ r) (below-dec_line_numbers ls)

  pub below-decrease_line_numbers :
      (am : ℕ) (ls : List LineStruct) → below size (decrease_line_numbers ls am) ≡ below size ls
  unfolding decrease_line_numbers
  below-decrease_line_numbers am [] = refl
  below-decrease_line_numbers am (l ∷ ls) =
      ap (λ r. shown size l ++ r) (below-decrease_line_numbers am ls)

  pub below-drawn : (ls : List LineStruct) → below size (map drawn ls) ≡ below size ls
  below-drawn [] = refl
  below-drawn (l ∷ ls) = ap (λ r. shown size l ++ r) (below-drawn ls)

  pub above-drawn : (ls : List LineStruct) → above size (map drawn ls) ≡ above size ls
  above-drawn [] = refl
  above-drawn (l ∷ ls) = ap (λ r. r ++ shown size l) (above-drawn ls)

-- Drawing changes no text.
pub update_inputsymbol-left :
    (s : InputItem) → left_of_cursor (update_inputsymbol s) ≡ left_of_cursor s
unfolding left_of_cursor update_inputsymbol
update_inputsymbol-left s =
    ap (λ r. r ++ cells 0 s.curr_line.buff_pntr s.curr_line.buffer) (above-drawn s.size s.before)

pub update_inputsymbol-right :
    (s : InputItem) → right_of_cursor (update_inputsymbol s) ≡ right_of_cursor s
unfolding right_of_cursor rest_of_line update_inputsymbol
update_inputsymbol-right s =
    ap (λ r. rest_of_line s.size s.curr_line ++ r) (below-drawn s.size s.after)

-- A line is what stands in front of a place in it, and what stands behind.
pub shown_split :
    (size : ℕ) (l : LineStruct)
    → l.buff_pntr ≤ width size l
    → shown size l ≡ cells 0 l.buff_pntr l.buffer ++ rest_of_line size l
unfolding rest_of_line
shown_split size l le =
    ap (λ n. cells 0 n l.buffer ++ ending size l) {x = width size l}
      {y = l.buff_pntr + (width size l - l.buff_pntr)} (omega arith)
    ∙ ap (λ cs. cs ++ ending size l) (cells_first l.buffer l.buff_pntr (width size l - l.buff_pntr))
    ∙ append_assoc (cells 0 l.buff_pntr l.buffer) _ _

-- A line that is made to go on shows its first `size` characters.
pub shown-wrap : (size : ℕ) (l : LineStruct) → shown size (wrap size l) ≡ cells 0 size l.buffer
unfolding wrap
shown-wrap size l =
    let marked = store (store l.buffer size b'_') (size + 1) 0 in
    let same : cells 0 size marked ≡ cells 0 size l.buffer =
      cells-store_behind (store l.buffer size b'_') 0 size (size + 1) 0 (omega arith)
      ∙ cells-store_behind l.buffer 0 size size b'_' (omega arith) in
    let kept : shown size (wrap size l) ≡ cells 0 size marked ++ [] =
      ap
        (λ (b : Bool).
          cells 0 (if b then size else size + 1) marked ++ (if b then [] else newline ∷ []))
        (lt→ltb size (size + 1) (omega arith)) in
    kept ∙ append-nil _ ∙ same

-- A line that ends.
pub shown_ended :
    (size : ℕ) (l : LineStruct)
    → l.len ≤ size
    → shown size l ≡ cells 0 l.len l.buffer ++ newline ∷ []
shown_ended size l le =
    ap
      (λ (b : Bool).
        cells 0 (if b then size else l.len) l.buffer ++ (if b then [] else newline ∷ []))
      (le→ltb size l.len le)

pub rest_of_line_ended :
    (size : ℕ) (l : LineStruct)
    → l.len ≤ size
    → rest_of_line size l ≡ cells l.buff_pntr (l.len - l.buff_pntr) l.buffer ++ newline ∷ []
unfolding rest_of_line
rest_of_line_ended size l le =
    ap
      (λ (b : Bool).
        cells l.buff_pntr ((if b then size else l.len) - l.buff_pntr) l.buffer
        ++ (if b then [] else newline ∷ []))
      (le→ltb size l.len le)

-- A line that goes on.
pub shown_wrapped :
    (size : ℕ) (l : LineStruct) → size < l.len → shown size l ≡ cells 0 size l.buffer
shown_wrapped size l lt =
    ap
      (λ (b : Bool).
        cells 0 (if b then size else l.len) l.buffer ++ (if b then [] else newline ∷ []))
      (lt→ltb size l.len lt)
    ∙ append-nil _

pub rest_of_line_wrapped :
    (size : ℕ) (l : LineStruct)
    → size < l.len
    → rest_of_line size l ≡ cells l.buff_pntr (size - l.buff_pntr) l.buffer
unfolding rest_of_line
rest_of_line_wrapped size l lt =
    ap
      (λ (b : Bool).
        cells l.buff_pntr ((if b then size else l.len) - l.buff_pntr) l.buffer
        ++ (if b then [] else newline ∷ []))
      (lt→ltb size l.len lt)
    ∙ append-nil _

-- From the start of the line.
pub rest_of_line_start :
    (size : ℕ) (l : LineStruct) → l.buff_pntr ≡ 0 → rest_of_line size l ≡ shown size l
unfolding cells
rest_of_line_start size l e =
    ap (λ n. cells 0 n l.buffer ++ rest_of_line size l) (sym e)
    ∙ sym (shown_split size l (omega arith))
