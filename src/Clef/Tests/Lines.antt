-- ===== src/Clef/Tests/Lines.antt =====
-- Lines that are typed, sent, saved and completed.
use open_axiom.Prelude.{
  zero, suc, ℕ, ◌≤◌, ◌<◌, ◌≡◌, refl, true, false, none, some, List, [], ◌∷◌, ◌++◌, arith, get_or,
  length,
}
use open_axiom.Clef.State.{Flag, Wct, Editor}
use open_axiom.Clef.Reader.{Session, do_reading}
use open_axiom.Clef.Line.Rounds.{IsOrdinary}
use open_axiom.Clef.Line.Reading.{do_reading-line}
use open_axiom.Clef.Completion.Words
use open_axiom.Clef.Completion.Words.{burst1_wct-words}
use open_axiom.Clef.Line.Recall.{prev_buff-add_line}
use open_axiom.Clef.Ring.{add_line, save_line, prev_buff, insert_queue}
use mathlib.Core.Path.{subst}
use open_axiom.Clef.Ring.Circle.{Reached, start, then_prev}
use open_axiom.Clef.Ring.Links.{IsRing, insert_queue-IsRing}
use open_axiom.Clef.Lines.{send_line_to_child}
use open_axiom.Clef.Completion.{burst1_wct, Files, rescan_wct_table}
use open_axiom.Clef.Completion.Order.{outcome, first_fit, words_behind, rescan_wct_table-first_fit}
use open_axiom.Clef.Line.Glyph.{Rep}
use open_axiom.Clef.Line.Move.{Rep-shift}
use open_axiom.Clef.Line.Send.{send_line_to_child-codes}
use open_axiom.Clef.Tests.{words, two_nodes, editing, left, right, editing-Rep}

from_newest : (p : ℕ) → p < 2 → Reached two_nodes 1 p
from_newest zero lt = then_prev 1 start
from_newest (suc zero) lt = start
from_newest (suc (suc p)) lt = absurd (omega arith)

two_nodes_reached : (r : ℕ) → (editing b'c').ring ≡ some r → (p : ℕ) → p < 2 → Reached two_nodes r p
two_nodes_reached r h p lt =
    subst (λ k. Reached two_nodes k p) {x = 1} {y = r} (ground arith) (from_newest p lt)

two_nodes-IsRing : IsRing (editing b'c')
two_nodes-IsRing = record {
  newest = λ r h. ground arith;
  empty = λ h. ground arith;
  bounded = omega arith;
  nodes_linked = record {
    next_in = λ p h. omega arith;
    prev_in = λ p h. omega arith;
    prev_next = λ p h. omega arith;
    next_prev = λ p h. omega arith;
  };
  all_reached = two_nodes_reached;
}

ring_example : IsRing (insert_queue (editing b'c'))
ring_example = insert_queue-IsRing (editing b'c') two_nodes-IsRing

send_example :
    ((send_line_to_child (editing b'\n')).sent ≡ (b'a' ∷ 1 ∷ b'b' ∷ b'\n' ∷ []) ∷ [])
    × Rep [] [] (send_line_to_child (editing b'\n'))
    × ((send_line_to_child (editing b'\n')).num_proc ≡ 1)
send_example =
    send_line_to_child-codes left right (editing b'\n') (editing-Rep b'\n') (ground arith)
      (omega arith)

abbrev files : Files
files = record { mtime = λ f. 5; image = λ f. [] }

rescan_example :
    let (found, s) = rescan_wct_table (editing b'\t') in
    outcome (found, s.curr_wix) ≡ first_fit (b's' ∷ []) (words_behind words 0 1)
rescan_example = rescan_wct_table-first_fit (editing b'\t') 0 refl (omega arith) (omega arith)

abbrev session : Session
session = record {
  intr = 3;
  quit = 28;
  erase = 0x7f;
  kill = 21;
  eof = 4;
  eol = 0;
  function_key = λ k. none;
  files = files;
  editor_file = record { exists = true; edited = λ t. [] };
}

abbrev typing : Editor
typing = record (editing 0) { in_buff = λ i. get_or (b'h' ∷ b'i' ∷ b'\n' ∷ []) i 0; num_read = 3 }

typing-Rep : Rep left right typing
typing-Rep =
    Rep-shift left right left right refl (editing 0) typing (editing-Rep 0) (refl, refl, refl, refl)
      refl

ordinary : (c : ℕ) → 32 ≤ c → c < 127 → IsOrdinary session c
ordinary c lo hi = record {
  not_nul = omega arith;
  not_erase = omega arith;
  not_kill = omega arith;
  not_intr = omega arith;
  not_quit = omega arith;
  not_eof = omega arith;
  not_eol = omega arith;
  not_esc = omega arith;
  not_del = omega arith;
  not_control = ground arith;
}

do_reading_example :
    let t = do_reading session 4 typing in
    (t.sent ≡ (b'a' ∷ b'h' ∷ b'i' ∷ 1 ∷ b'b' ∷ b'\n' ∷ []) ∷ []) × Rep [] [] t × (t.num_proc ≡ 3)
do_reading_example =
    do_reading-line session (omega arith) (b'h' ∷ b'i' ∷ []) 4 left right typing typing-Rep refl
      (ordinary b'h' (omega arith) (omega arith), (ordinary b'i' (omega arith) (omega arith), tt))
      (refl, (refl, (refl, tt))) refl (omega arith) (omega arith)

-- The editor after the line is saved and cleared.
abbrev cleared : Editor
cleared = record (add_line (some 1) (editing b'c')) {
  buff = λ i. 0;
  buff_flag = λ i. Flag.free;
  buff_pntr = 0;
  curr_pntr = 0;
  fault = false;
}

recall_example : Rep (left ++ right) [] (prev_buff cleared)
unfolding add_line save_line
recall_example =
    prev_buff-add_line left right (editing b'c') cleared (editing-Rep b'c') refl refl refl refl

abbrev unread : Wct
unread = record { fname = 1; ftime = 0; wordc = 0; wordv = [] }

burst_example :
    let image : List ℕ = b' ' ∷ b'a' ∷ b'b' ∷ b'\n' ∷ b'c' ∷ [] in
    ((burst1_wct image unread).wordv ≡ Words.words image)
    × ((burst1_wct image unread).wordc ≡ length (Words.words image))
burst_example = burst1_wct-words (b' ' ∷ b'a' ∷ b'b' ∷ b'\n' ∷ b'c' ∷ []) unread refl
