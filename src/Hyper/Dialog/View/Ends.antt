-- ===== src/Hyper/Dialog/View/Ends.antt =====
-- move_cursor_home, move_cursor_end and delete_rest_of_line of src/hyper/dialog.c, by the text: all
-- three go over what stands between two ends of lines.
use mathlib.Core.Path.{subst}
use open_axiom.Prelude.{
  ℕ, zero, suc, ◌+◌, ◌≤◌, ◌<◌, ◌≡◌, ◌≢◌, refl, sym, ap, ◌∙◌, List, [], ◌∷◌, ◌++◌, ◌⊎◌, inl, inr,
  arith, append_assoc, append-nil, ltb, ltb→lt, Bool-cases,
}
use open_axiom.Prelude.Memory.{Memory, cells}
use open_axiom.Prelude.Memory.Laws.{All, All-append}
use open_axiom.Hyper.Dialog.{LineStruct, InputItem, set_buff_pntr}
use open_axiom.Hyper.Dialog.Move.{up_to_start, move_cursor_home}
use open_axiom.Hyper.Dialog.View.{
  newline, width, shown, above, below, left_of_cursor, right_of_cursor, IsClean, NoNewline,
}
use open_axiom.Hyper.Dialog.View.Lines.{rest_of_line_start, shown_split, shown_ended, shown_wrapped}

pub cells-NoNewline :
    (m : Memory ℕ) (i n : ℕ) → ((k : ℕ) → k < n → m (i + k) ≢ newline) → NoNewline (cells i n m)
unfolding cells
cells-NoNewline m i zero clean = tt
cells-NoNewline m i (suc n) clean = (
  subst (λ j. m j ≢ newline) {x = i + 0} {y = i} (omega arith) (clean 0 (omega arith)),
  cells-NoNewline m (suc i) n (λ k lt.
      subst (λ j. m j ≢ newline) {x = i + suc k} {y = suc i + k} (omega arith)
        (clean (suc k) (omega arith))),
)

-- Nothing stands in front, or the end of a line.
abbrev pub StartsLine : List ℕ → Type 0
StartsLine cs = (cs ≡ []) ⊎ ((xs : List ℕ) × (cs ≡ xs ++ newline ∷ []))

-- Where the walk along wrapped lines ends, and the text that it goes over.
record Upward (size : ℕ) (before : List LineStruct) (trace : LineStruct) (after : List LineStruct)
    (place : List LineStruct × LineStruct × List LineStruct) : Type 0 where
  walked : List ℕ
  no_newline : NoNewline walked
  front : above size before ≡ above size place.0 ++ walked
  back : below size (place.1 ∷ place.2) ≡ walked ++ below size (trace ∷ after)
  starts : StartsLine (above size place.0)

shown-StartsLine :
    (size : ℕ) (p : LineStruct) (cs : List ℕ) → p.len ≤ size → StartsLine (cs ++ shown size p)
shown-StartsLine size p cs le = inr (
  cs ++ cells 0 p.len p.buffer,
  ap (λ r. cs ++ r) (shown_ended size p le) ∙ sym (append_assoc cs _ _),
)

Upward-here :
    (size : ℕ) (before : List LineStruct) (trace : LineStruct) (after : List LineStruct)
    → StartsLine (above size before)
    → Upward size before trace after (before, trace, after)
Upward-here size before trace after h = record {
  walked = [];
  no_newline = tt;
  front = sym (append-nil _);
  back = refl;
  starts = h;
}

Upward-further :
    (size : ℕ) (prev : LineStruct) (before : List LineStruct) (trace : LineStruct)
    (after : List LineStruct) (place : List LineStruct × LineStruct × List LineStruct)
    → size < prev.len
    → IsClean size prev
    → Upward size before prev (trace ∷ after) place
    → Upward size (prev ∷ before) trace after place
Upward-further size prev before trace after place lt clean u = record {
  walked = u.walked ++ shown size prev;
  no_newline =
      All-append (λ c. c ≢ newline) u.walked (shown size prev) u.no_newline
        (subst NoNewline (sym (shown_wrapped size prev lt)) (
          cells-NoNewline prev.buffer 0 size (λ k le.
            subst (λ j. prev.buffer j ≢ newline) {x = k} {y = 0 + k} (omega arith)
              (clean k (ground arith)).0)));
  front = ap (λ cs. cs ++ shown size prev) u.front ∙ append_assoc (above size place.0) _ _;
  back = u.back ∙ sym (append_assoc u.walked _ _);
  starts = u.starts;
}

up_to_start-Upward :
    (before : List LineStruct) (size : ℕ) (trace : LineStruct) (after : List LineStruct)
    → All (IsClean size) before
    → Upward size before trace after (up_to_start before size trace after)
unfolding up_to_start
up_to_start-Upward [] size trace after clean = Upward-here size [] trace after (inl refl)
up_to_start-Upward (prev ∷ before) size trace after clean = elim (Bool-cases (ltb size prev.len)) [
  | inl wrapped ↦ rw wrapped (
      Upward-further size prev before trace after (up_to_start before size prev (trace ∷ after))
        (ltb→lt _ _ wrapped) clean.0 (up_to_start-Upward before size prev (trace ∷ after) clean.1))
  | inr ends ↦ rw ends (
      Upward-here size (prev ∷ before) trace after
        (shown-StartsLine size prev (above size before) (ground arith)))
]

-- The cursor of `t` stands behind the last end of a line in front of that of `s`.
pub record AtStart (s t : InputItem) : Type 0 where
  pub skipped : List ℕ
  pub no_newline : NoNewline skipped
  pub left : left_of_cursor s ≡ left_of_cursor t ++ skipped
  pub right : right_of_cursor t ≡ skipped ++ right_of_cursor s
  pub starts : StartsLine (left_of_cursor t)

module _ (s : InputItem) (placed : s.curr_line.buff_pntr ≤ width s.size s.curr_line)
    (clean : IsClean s.size s.curr_line) (clean_above : All (IsClean s.size) s.before) where
  walk :
      Upward s.size s.before s.curr_line s.after (up_to_start s.before s.size s.curr_line s.after)
  walk = up_to_start-Upward s.before s.size s.curr_line s.after clean_above

  in_line : List ℕ
  in_line = cells 0 s.curr_line.buff_pntr s.curr_line.buffer

  in_line-NoNewline : NoNewline in_line
  unfolding in_line
  in_line-NoNewline = cells-NoNewline s.curr_line.buffer 0 s.curr_line.buff_pntr (λ k lt.
      subst (λ j. s.curr_line.buffer j ≢ newline) {x = k} {y = 0 + k} (omega arith)
        (clean k (ground arith)).0)

  home-left :
      left_of_cursor (move_cursor_home s)
      ≡ above s.size (up_to_start s.before s.size s.curr_line s.after).0
  unfolding left_of_cursor move_cursor_home cells
  home-left = append-nil _

  home-right :
      right_of_cursor (move_cursor_home s) ≡ walk.walked ++ below s.size (s.curr_line ∷ s.after)
  unfolding right_of_cursor move_cursor_home
  home-right =
      let place = up_to_start s.before s.size s.curr_line s.after in
      ap (λ cs. cs ++ below s.size place.2)
        (rest_of_line_start s.size (set_buff_pntr 0 place.1) refl)
      ∙ walk.back

  line-right : below s.size (s.curr_line ∷ s.after) ≡ in_line ++ right_of_cursor s
  unfolding right_of_cursor in_line
  line-right =
      ap (λ cs. cs ++ below s.size s.after) (shown_split s.size s.curr_line placed)
      ∙ append_assoc (cells 0 s.curr_line.buff_pntr s.curr_line.buffer) _ _

  -- move_cursor_home
  pub move_cursor_home-AtStart : AtStart s (move_cursor_home s)
  move_cursor_home-AtStart = record {
    skipped = walk.walked ++ in_line;
    no_newline =
        All-append (λ c. c ≢ newline) walk.walked in_line walk.no_newline in_line-NoNewline;
    left =
        unfold left_of_cursor in_line in
        (ap (λ cs. cs ++ cells 0 s.curr_line.buff_pntr s.curr_line.buffer) walk.front
          ∙ append_assoc (above s.size (up_to_start s.before s.size s.curr_line s.after).0) _ _
          ∙ ap (λ cs. cs ++ (walk.walked ++ cells 0 s.curr_line.buff_pntr s.curr_line.buffer))
              (sym home-left));
    right =
        home-right ∙ ap (λ cs. walk.walked ++ cs) line-right ∙ sym (append_assoc walk.walked _ _);
    starts = subst StartsLine (sym home-left) walk.starts;
  }
