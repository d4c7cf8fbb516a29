-- ===== src/Clef/Line/Rounds.antt =====
-- One round of `do_reading` (src/lib/edin.c): an ordinary character, and the end of a line.
use mathlib.Core.Path.{subst}
use open_axiom.Prelude.{
  ℕ, ◌+◌, ◌<◌, ◌≤◌, ◌≡◌, ◌≢◌, refl, ap, sym, ◌∙◌, Bool, true, false, List, [], ◌∷◌, ◌++◌, arith,
  ltb, ◌==◌, if◌then◌else◌, Bool-cases, inl, inr, if_true, if_false, replicate,
}
use open_axiom.Clef.Key
use open_axiom.Clef.State.{Editor, control_char, maxline}
use open_axiom.Clef.Print.{myputchar, back_it_up, wipe}
use open_axiom.Clef.Insert.{insert_chars, insert_buff_printing, move_on, take_chars, open_gap}
use open_axiom.Clef.Lines.{finish_line, reset_line, save_nonempty, send_line_to_child}
use open_axiom.Clef.Reader.{Session, other_character, character}
use open_axiom.Clef.Line.Glyph.{Glyph, plain, width, Rep}
use open_axiom.Clef.Line.Echo.{echo, myputchar-echo, put_times-echo}
use open_axiom.Clef.Line.Insert.{ins_print-echo}
use open_axiom.Clef.Line.Queue.{insert_queue-OnlyRing}
use open_axiom.Clef.Line.Codes.{codes}
use open_axiom.Clef.Line.Send.{Rep-echo, send_line_to_child-codes}

-- A character that the reader only puts into the line.
pub record IsOrdinary (session : Session) (c : ℕ) : Type 0 where
  pub not_nul : c ≢ 0
  pub not_erase : c ≢ session.erase
  pub not_kill : c ≢ session.kill
  pub not_intr : c ≢ session.intr
  pub not_quit : c ≢ session.quit
  pub not_eof : c ≢ session.eof
  pub not_eol : c ≢ session.eol
  pub not_esc : c ≢ Key.esc
  pub not_del : c ≢ Key.del
  pub not_control : control_char c ≡ false

abbrev pub glyphs : List ℕ → List Glyph
glyphs [] = []
glyphs (c ∷ cs) = plain c ∷ glyphs cs

pub differ : (a b : ℕ) → a ≢ b → (a == b) ≡ false
differ a b h = ground arith

small : (c d : ℕ) → control_char c ≡ false → 1 ≤ d → d ≤ 26 → (c == d) ≡ false
small c d h lo hi = ground arith

module _ (session : Session) where
  pub character-ordinary :
      (inner : Editor → Editor) (done : Bool) (s : Editor)
      → IsOrdinary session (s.in_buff (s.num_proc + 0))
      → character session inner done s ≡ (insert_buff_printing 1 s, done)
  unfolding character other_character
  character-ordinary inner done s o =
      let c = s.in_buff (s.num_proc + 0) in
      rw
        (
          differ c session.erase o.not_erase,
          small c Key.eoln o.not_control (omega arith) (omega arith),
          small c Key.cr o.not_control (omega arith) (omega arith),
          differ c Key.del o.not_del,
          small c Key.cntrl_w o.not_control (omega arith) (omega arith),
          small c Key.tab o.not_control (omega arith) (omega arith),
          small c Key.bell o.not_control (omega arith) (omega arith),
          differ c Key.esc o.not_esc,
          small c Key.bkspc o.not_control (omega arith) (omega arith),
          differ c session.kill o.not_kill,
          differ c session.intr o.not_intr,
          differ c session.quit o.not_quit,
          differ c session.eof o.not_eof,
          differ c session.eol o.not_eol,
          o.not_control,
        )
        refl

-- The input and the mode that an insertion leaves, and its place in the input.
pub record Stepped (s t : Editor) : Type 0 where
  pub input_kept : t.in_buff ≡ s.in_buff
  pub read_kept : t.num_read ≡ s.num_read
  pub next : t.num_proc ≡ s.num_proc + 1
  pub mode_kept : t.ins_mode ≡ s.ins_mode
  pub sent_kept : t.sent ≡ s.sent

pub insert_buff_printing-Stepped :
    (s : Editor)
    → s.ins_mode ≡ true
    → s.buff_pntr + 1 < maxline
    → Stepped s (insert_buff_printing 1 s)
unfolding insert_buff_printing insert_chars move_on echo take_chars open_gap
insert_buff_printing-Stepped s ins room =
    let fits : ltb 1023 (s.buff_pntr + 1) ≡ false = ground arith in
    simp (fits, ins, ins_print-echo)
      (record {
        input_kept = refl;
        read_kept = refl;
        next = refl;
        mode_kept = sym ins;
        sent_kept = refl;
      })

num_read-save_nonempty : (s : Editor) → (save_nonempty s).num_read ≡ s.num_read
num_read-save_nonempty s = elim (Bool-cases (s.buff_pntr == 0)) [
  | inl e ↦ simp e refl
  | inr e ↦ simp e (ap (λ (t : Editor). t.num_read) (insert_queue-OnlyRing s))
]

num_read-send_line : (s : Editor) → (send_line_to_child s).num_read ≡ s.num_read
unfolding send_line_to_child back_it_up echo reset_line finish_line wipe
num_read-send_line s =
    rw put_times-echo (num_read-save_nonempty (echo (replicate s.curr_pntr Key.bkspc) s))

-- What the end of a line makes of the editor, outside a pseudo terminal too.
abbrev pub line_sent : Editor → Editor
line_sent s = let s' = send_line_to_child s in if s'.pty then s' else myputchar Key.eoln s'

pub record Finished (sent : List (List ℕ)) (num_proc num_read : ℕ) (t : Editor) : Type 0 where
  pub written : t.sent ≡ sent
  pub empty : Rep [] [] t
  pub processed : t.num_proc ≡ num_proc
  pub read : t.num_read ≡ num_read

pub line_sent-Finished :
    (l r : List Glyph) (s : Editor)
    → Rep l r s
    → s.in_buff s.num_proc ≡ Key.eoln
    → width l + width r + 1 < maxline
    → Finished
        ((codes (l ++ r) ++ Key.eoln ∷ []) ∷ s.sent)
        (s.num_proc + 1)
        s.num_read
        (line_sent s)
unfolding echo
line_sent-Finished l r s h end room =
    let (sent, empty, proc) = send_line_to_child-codes l r s h (ground arith) room in
    let sent' : (send_line_to_child s).sent ≡ (codes (l ++ r) ++ Key.eoln ∷ []) ∷ s.sent =
      rw end at sent in
    let read = num_read-send_line s in
    let u = send_line_to_child s in
    let Done = Finished ((codes (l ++ r) ++ Key.eoln ∷ []) ∷ s.sent) (s.num_proc + 1) s.num_read in
    elim (Bool-cases u.pty) [
      | inl e ↦
          subst Done (sym (if_true u.pty u (myputchar Key.eoln u) e))
            (record { written = sent'; empty = empty; processed = proc; read = read })
      | inr e ↦
          subst Done (sym (if_false u.pty u (myputchar Key.eoln u) e ∙ myputchar-echo Key.eoln u))
            (record {
              written = sent';
              empty = Rep-echo (Key.eoln ∷ []) [] [] u empty;
              processed = proc;
              read = read;
            })
    ]
