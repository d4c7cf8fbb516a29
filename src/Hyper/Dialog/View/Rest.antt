-- ===== src/Hyper/Dialog/View/Rest.antt =====
-- delete_rest_of_line of src/hyper/dialog.c, by the text: what stands in front of the next end of a
-- line goes, over as many lines as it takes.
use mathlib.Core.Path.{subst}
use open_axiom.Prelude.{
  ℕ, suc, ◌+◌, ◌-◌, ◌≤◌, ◌<◌, ◌≡◌, ◌≢◌, refl, sym, ap, ◌∙◌, List, [], ◌∷◌, ◌++◌, inl, inr, arith,
  append_assoc, ltb, false, ltb→lt, Bool-cases,
}
use open_axiom.Prelude.Memory.{cells, fill}
use open_axiom.Prelude.Memory.Laws.{All, All-append, fill_lem}
use open_axiom.Prelude.Memory.Cells.{cells_move}
use open_axiom.Hyper.Dialog.{LineStruct, InputItem}
use open_axiom.Hyper.Dialog.Delete.{wrapped_lines, cut_at_cursor}
use open_axiom.Hyper.Dialog.View.{
  newline, width, below, left_of_cursor, right_of_cursor, rest_of_line, above, IsClean, NoNewline,
}
use open_axiom.Hyper.Dialog.View.Lines.{shown_ended, shown_wrapped, rest_of_line_ended}
use open_axiom.Hyper.Dialog.View.Ends.{cells-NoNewline}

-- The last line does not go on.
abbrev pub LastEnds : List LineStruct → (size : ℕ) → LineStruct → Type 0
LastEnds [] size l = l.len ≤ size
LastEnds (n ∷ ns) size l = LastEnds ns size n

pub clean_cells :
    (size : ℕ) (l : LineStruct) (i n : ℕ)
    → IsClean size l
    → i + n ≤ width size l
    → NoNewline (cells i n l.buffer)
clean_cells size l i n clean le =
    cells-NoNewline l.buffer i n (λ k lt. (clean (i + k) (omega arith)).0)

-- The line that ends what goes on in `ls`, the lines beyond, and the text up to its end.
pub record Found (size : ℕ) (ls : List LineStruct) (r : ℕ × List LineStruct) : Type 0 where
  pub line : LineStruct
  pub beyond : List LineStruct
  pub walked : List ℕ
  pub no_newline : NoNewline walked
  pub rest : r.1 ≡ line ∷ beyond
  pub text : below size ls ≡ walked ++ newline ∷ below size beyond

Found-here :
    (size : ℕ) (n : LineStruct) (ns : List LineStruct)
    → n.len ≤ size
    → IsClean size n
    → Found size (n ∷ ns) (0, n ∷ ns)
Found-here size n ns le clean = record {
  line = n;
  beyond = ns;
  walked = cells 0 n.len n.buffer;
  no_newline = clean_cells size n 0 n.len clean (ground arith);
  rest = refl;
  text = ap (λ cs. cs ++ below size ns) (shown_ended size n le) ∙ append_assoc _ (newline ∷ []) _;
}

Found-further :
    (size : ℕ) (n : LineStruct) (ls : List LineStruct) (r : ℕ × List LineStruct)
    → size < n.len
    → IsClean size n
    → Found size ls r
    → Found size (n ∷ ls) (suc r.0, r.1)
Found-further size n ls r lt clean f = record {
  line = f.line;
  beyond = f.beyond;
  walked = cells 0 size n.buffer ++ f.walked;
  no_newline =
      All-append (λ c. c ≢ newline) (cells 0 size n.buffer) f.walked
        (clean_cells size n 0 size clean (ground arith)) f.no_newline;
  rest = f.rest;
  text =
      ap (λ cs. cs ++ below size ls) (shown_wrapped size n lt)
      ∙ ap (λ cs. cells 0 size n.buffer ++ cs) f.text
      ∙ sym (append_assoc (cells 0 size n.buffer) f.walked _);
}

wrapped_lines_ended :
    (n : LineStruct) (ns : List LineStruct) (size : ℕ)
    → ltb size n.len ≡ false
    → wrapped_lines (n ∷ ns) size ≡ (0, n ∷ ns)
unfolding wrapped_lines
wrapped_lines_ended n ns size e = ground arith

wrapped_lines_further :
    (n : LineStruct) (ns : List LineStruct) (size : ℕ)
    → size < n.len
    → wrapped_lines (n ∷ ns) size ≡ (suc (wrapped_lines ns size).0, (wrapped_lines ns size).1)
unfolding wrapped_lines
wrapped_lines_further n ns size lt = ground arith

pub wrapped_lines-Found :
    (ns : List LineStruct) (size : ℕ) (n : LineStruct)
    → LastEnds ns size n
    → IsClean size n
    → All (IsClean size) ns
    → Found size (n ∷ ns) (wrapped_lines (n ∷ ns) size)
wrapped_lines-Found [] size n ends clean all =
    subst (Found size (n ∷ [])) (sym (wrapped_lines_ended n [] size (ground arith)))
      (Found-here size n [] ends clean)
wrapped_lines-Found (m ∷ ms) size n ends clean all = elim (Bool-cases (ltb size n.len)) [
  | inl wrapped ↦
      subst (Found size (n ∷ m ∷ ms))
        (sym (wrapped_lines_further n (m ∷ ms) size (ltb→lt _ _ wrapped)))
        (Found-further size n (m ∷ ms) (wrapped_lines (m ∷ ms) size) (ltb→lt _ _ wrapped) clean
          (wrapped_lines-Found ms size m ends all.0 all.1))
  | inr last ↦
      subst (Found size (n ∷ m ∷ ms)) (sym (wrapped_lines_ended n (m ∷ ms) size last))
        (Found-here size n (m ∷ ms) (ground arith) clean)
]

-- `t` shows the text of `s` without what stands between the cursor and the next end of a line.
pub record Cuts (s t : InputItem) : Type 0 where
  pub removed : List ℕ
  pub no_newline : NoNewline removed
  pub left : left_of_cursor t ≡ left_of_cursor s
  pub right : right_of_cursor s ≡ removed ++ right_of_cursor t
  pub ends : (cs : List ℕ) × (right_of_cursor t ≡ newline ∷ cs)

cells-cut_at_cursor :
    (size : ℕ) (l : LineStruct)
    → cells 0 l.buff_pntr (cut_at_cursor size l).buffer ≡ cells 0 l.buff_pntr l.buffer
unfolding cut_at_cursor
cells-cut_at_cursor size l =
    cells_move l.buffer (fill l.buff_pntr (size + 3 - l.buff_pntr) 0 l.buffer) 0 0 l.buff_pntr
      (λ k lt. ground (arith, fill_lem l.buff_pntr (size + 3 - l.buff_pntr) 0 l.buffer (0 + k)))

rest_of_line-cut_at_cursor :
    (size : ℕ) (l : LineStruct)
    → l.buff_pntr ≤ size
    → rest_of_line size (cut_at_cursor size l) ≡ newline ∷ []
rest_of_line-cut_at_cursor size l le =
    rest_of_line_ended size (cut_at_cursor size l) (unfold cut_at_cursor in le)
    ∙ unfold cut_at_cursor cells in
      ap (λ n. cells l.buff_pntr n (cut_at_cursor size l).buffer ++ newline ∷ [])
        {x = l.buff_pntr - l.buff_pntr} {y = 0} (omega arith)

module _ (s : InputItem) where
  abbrev pub trimmed : List LineStruct → ℕ → InputItem
  trimmed ls n = record s {
    curr_line = cut_at_cursor s.size s.curr_line;
    after = ls;
    num_lines = n;
  }

  pub trimmed-left :
      (ls : List LineStruct) (n : ℕ) → left_of_cursor (trimmed ls n) ≡ left_of_cursor s
  unfolding left_of_cursor cut_at_cursor
  trimmed-left ls n =
      ap (λ cs. above s.size s.before ++ cs) (cells-cut_at_cursor s.size s.curr_line)

  pub trimmed-right :
      (ls : List LineStruct) (n : ℕ)
      → s.curr_line.buff_pntr ≤ s.size
      → right_of_cursor (trimmed ls n) ≡ newline ∷ below s.size ls
  unfolding right_of_cursor
  trimmed-right ls n le =
      ap (λ cs. cs ++ below s.size ls) (rest_of_line-cut_at_cursor s.size s.curr_line le)
