-- ===== src/Hyper/Dialog/View/Cut.antt =====
-- What delete_rest_of_line of src/hyper/dialog.c leaves of the text.
use open_axiom.Prelude.{
  ℕ, ◌+◌, ◌-◌, ◌≤◌, ◌<◌, ◌≡◌, ◌≢◌, refl, sym, ap, ◌∙◌, List, [], ◌∷◌, ◌++◌, inl, inr, some, arith,
  append_assoc, ltb, ltb→lt, Bool-cases,
}
use open_axiom.Prelude.Memory.{cells}
use open_axiom.Prelude.Memory.Laws.{All, All-append}
use open_axiom.Hyper.Dialog.{
  LineStruct, InputItem, decrease_line_numbers, redraw_win, update_inputsymbol,
}
use open_axiom.Hyper.Dialog.Delete.{
  wrapped_lines, cut_at_cursor, remove_wrapped, delete_rest_of_line,
}
use open_axiom.Hyper.Dialog.View.{newline, width, below, left_of_cursor, right_of_cursor, IsClean}
use open_axiom.Hyper.Dialog.View.Lines.{
  rest_of_line_ended, rest_of_line_wrapped, below-decrease_line_numbers, update_inputsymbol-left,
  update_inputsymbol-right,
}
use open_axiom.Hyper.Dialog.View.Rest.{
  LastEnds, Found, wrapped_lines-Found, Cuts, clean_cells, trimmed, trimmed-left, trimmed-right,
}

-- The outcome, and what it shows.
abbrev pub Deletes : InputItem → Type 0
Deletes s = (t : InputItem) × (delete_rest_of_line s ≡ some t) × Cuts s t

module _ (s : InputItem) (placed : s.curr_line.buff_pntr ≤ width s.size s.curr_line)
    (clean : IsClean s.size s.curr_line) where
  in_column : s.curr_line.buff_pntr ≤ s.size
  in_column = ground arith

  module _ (ends : s.curr_line.len ≤ s.size) where
    one_line : InputItem
    one_line = update_inputsymbol (trimmed s s.after s.num_lines)

    delete_one : s.curr_line.buff_pntr ≢ s.curr_line.len → delete_rest_of_line s ≡ some one_line
    unfolding delete_rest_of_line one_line
    delete_one more = ground arith

    tail : List ℕ
    tail = cells s.curr_line.buff_pntr (s.curr_line.len - s.curr_line.buff_pntr) s.curr_line.buffer

    one_line-right : right_of_cursor one_line ≡ newline ∷ below s.size s.after
    unfolding one_line
    one_line-right =
        update_inputsymbol-right (trimmed s s.after s.num_lines)
        ∙ trimmed-right s s.after s.num_lines in_column

    whole_right : right_of_cursor s ≡ tail ++ newline ∷ below s.size s.after
    unfolding right_of_cursor tail
    whole_right =
        ap (λ cs. cs ++ below s.size s.after) (rest_of_line_ended s.size s.curr_line ends)
        ∙ append_assoc _ (newline ∷ []) _

    one_line-Cuts : Cuts s one_line
    one_line-Cuts = record {
      removed = tail;
      no_newline =
          unfold tail in
          clean_cells s.size s.curr_line s.curr_line.buff_pntr
            (s.curr_line.len - s.curr_line.buff_pntr) clean (ground arith);
      left =
          unfold one_line in
          (update_inputsymbol-left (trimmed s s.after s.num_lines)
            ∙ trimmed-left s s.after s.num_lines);
      right = whole_right ∙ ap (λ cs. tail ++ cs) (sym one_line-right);
      ends = (below s.size s.after, one_line-right);
    }

  module _ (wraps : s.size < s.curr_line.len)
      (f : Found s.size s.after (wrapped_lines s.after s.size)) where
    count : ℕ
    count = (wrapped_lines s.after s.size).0 + 1

    joined : InputItem
    joined = redraw_win (trimmed s (decrease_line_numbers f.beyond count) (s.num_lines - count))

    remove_wrapped_lem :
        (n : ℕ) (ls : List LineStruct) (t : InputItem)
        → ls ≡ f.line ∷ f.beyond
        → remove_wrapped n ls t
          ≡ some (
              redraw_win (record t {
                after = decrease_line_numbers f.beyond (n + 1);
                num_lines = t.num_lines - (n + 1);
              }))
    unfolding remove_wrapped
    remove_wrapped_lem n ls t e = rw e refl

    delete_many : delete_rest_of_line s ≡ some joined
    unfolding joined count
    delete_many =
        reduce
        ∙ remove_wrapped_lem (wrapped_lines s.after s.size).0 (wrapped_lines s.after s.size).1
            (record s { curr_line = cut_at_cursor s.size s.curr_line }) f.rest
      where
        reduce :
            delete_rest_of_line s
            ≡ remove_wrapped
                (wrapped_lines s.after s.size).0
                (wrapped_lines s.after s.size).1
                (record s { curr_line = cut_at_cursor s.size s.curr_line })
        reduce = unfold delete_rest_of_line in ground arith

    joined-right : right_of_cursor joined ≡ newline ∷ below s.size f.beyond
    unfolding joined right_of_cursor redraw_win
    joined-right =
        trimmed-right s (decrease_line_numbers f.beyond count) (s.num_lines - count) in_column
        ∙ ap (λ cs. newline ∷ cs) (below-decrease_line_numbers s.size count f.beyond)

    line_tail : List ℕ
    line_tail = cells s.curr_line.buff_pntr (s.size - s.curr_line.buff_pntr) s.curr_line.buffer

    whole_wrapped : right_of_cursor s ≡ (line_tail ++ f.walked) ++ newline ∷ below s.size f.beyond
    unfolding right_of_cursor line_tail
    whole_wrapped =
        ap (λ cs. cs ++ below s.size s.after) (rest_of_line_wrapped s.size s.curr_line wraps)
        ∙ ap (λ cs. line_tail ++ cs) f.text
        ∙ sym (append_assoc line_tail f.walked _)

    joined-Cuts : Cuts s joined
    joined-Cuts = record {
      removed = line_tail ++ f.walked;
      no_newline =
          All-append (λ c. c ≢ newline) line_tail f.walked
            (unfold line_tail in
              clean_cells s.size s.curr_line s.curr_line.buff_pntr (s.size - s.curr_line.buff_pntr)
                clean (ground arith))
            f.no_newline;
      left =
          unfold joined left_of_cursor redraw_win in
          trimmed-left s (decrease_line_numbers f.beyond count) (s.num_lines - count);
      right = whole_wrapped ∙ ap (λ cs. (line_tail ++ f.walked) ++ cs) (sym joined-right);
      ends = (below s.size f.beyond, joined-right);
    }

  -- delete_rest_of_line
  pub delete_rest_of_line-Cuts :
      All (IsClean s.size) s.after
      → LastEnds s.after s.size s.curr_line
      → s.curr_line.buff_pntr ≢ s.curr_line.len
      → Deletes s
  delete_rest_of_line-Cuts all last more = elim (Bool-cases (ltb s.size s.curr_line.len)) [
    | inl wrapped ↦
        let f = found (ltb→lt _ _ wrapped) in
        (
          joined (ltb→lt _ _ wrapped) f,
          delete_many (ltb→lt _ _ wrapped) f,
          joined-Cuts (ltb→lt _ _ wrapped) f,
        )
    | inr short ↦
        (one_line (ground arith), delete_one (ground arith) more, one_line-Cuts (ground arith))
  ]
    where
      found_in :
          (ls : List LineStruct)
          → s.size < s.curr_line.len
          → LastEnds ls s.size s.curr_line
          → All (IsClean s.size) ls
          → Found s.size ls (wrapped_lines ls s.size)
      found_in [] wraps ends_well all_clean = absurd (omega arith)
      found_in (n ∷ ns) wraps ends_well all_clean =
          wrapped_lines-Found ns s.size n ends_well all_clean.0 all_clean.1

      found : s.size < s.curr_line.len → Found s.size s.after (wrapped_lines s.after s.size)
      found wraps = found_in s.after wraps last all
