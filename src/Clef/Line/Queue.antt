-- ===== src/Clef/Line/Queue.antt =====
-- About saving a line in the ring (src/lib/edin.c), and the line that is edited.
use open_axiom.Prelude.{
  ℕ, ◌+◌, ◌<◌, ◌≡◌, refl, Option, none, some, List, [], ◌∷◌, arith, true, false, ltb, leb,
  Bool-cases, Option-cases, inl, inr, Bool, ap, sym, ◌∙◌, if◌then◌else◌,
}
use open_axiom.Prelude.Memory.{stops}
use open_axiom.Prelude.Memory.Laws.{stops_lem, At-split}
use open_axiom.Clef.State.{Editor, maxline}
use open_axiom.Clef.Ring.{
  is_nul, same_string, find_line, maxring, save_line, add_line, queue_line, insert_queue,
}
use open_axiom.Clef.Line.Glyph.{Glyph, chars, width, Rep, length-chars}
use open_axiom.Clef.Line.Move.{Rep-shift}

-- Nothing but the ring and the fault mark differs.
abbrev pub OnlyRing : Editor → Editor → Type 0
OnlyRing s t =
    t ≡ record s { nodes = t.nodes; ring = t.ring; ring_size = t.ring_size; fault = t.fault }

add_line-OnlyRing : (o : Option ℕ) (s : Editor) → OnlyRing s (add_line o s)
unfolding add_line save_line
add_line-OnlyRing none s = refl
add_line-OnlyRing (some r) s = elim (Bool-cases (ltb s.ring_size maxring)) [
  | inl e ↦ rw e refl
  | inr e ↦ rw e refl
]

queue_line-OnlyRing : (o : Option ℕ) (s : Editor) → OnlyRing s (queue_line o s)
unfolding queue_line
queue_line-OnlyRing none s = add_line-OnlyRing none s
queue_line-OnlyRing (some r) s =
    elim (Bool-cases (same_string maxline 0 s.buff (s.nodes r).chars)) [
      | inl e ↦ rw e refl
      | inr e ↦ rw e (elim (Option-cases (find_line 9 r s.buff s.nodes)) [
        | inl n ↦ rw n (add_line-OnlyRing (some r) s)
        | inr (p, q) ↦ rw q refl
      ])
    ]

when-OnlyRing : (b : Bool) (s t : Editor) → OnlyRing s t → OnlyRing s (if b then t else s)
when-OnlyRing true s t h = h
when-OnlyRing false s t h = refl

pub insert_queue-OnlyRing : (s : Editor) → OnlyRing s (insert_queue s)
unfolding insert_queue
insert_queue-OnlyRing s =
    when-OnlyRing s.echoit s (queue_line s.ring s) (queue_line-OnlyRing s.ring s)

-- With an end mark in the buffer and the length in range, saving makes no fault.
module _ (n : ℕ) (s : Editor) (short : n < maxline) (end : s.buff n ≡ 0)
    (inside : s.buff_pntr < maxline) (clean : s.fault ≡ false) where
  stopped : stops is_nul maxline 0 s.buff ≡ true
  stopped =
      let e : 0 + n ≡ n = omega arith in
      stops_lem is_nul maxline 0 n s.buff short (rw (e, end) refl)

  fits : leb maxline s.buff_pntr ≡ false
  fits = ground arith

  add_line_clean : (o : Option ℕ) → (add_line o s).fault ≡ false
  unfolding add_line save_line
  add_line_clean none = rw (clean, stopped, fits) refl
  add_line_clean (some r) = elim (Bool-cases (ltb s.ring_size maxring)) [
    | inl e ↦ rw (e, clean, stopped, fits) refl
    | inr e ↦ rw (e, clean, stopped, fits) refl
  ]

  queue_line_clean : (o : Option ℕ) → (queue_line o s).fault ≡ false
  unfolding queue_line
  queue_line_clean none = add_line_clean none
  queue_line_clean (some r) = elim (Bool-cases (same_string maxline 0 s.buff (s.nodes r).chars)) [
    | inl e ↦ rw e clean
    | inr e ↦ rw e (elim (Option-cases (find_line 9 r s.buff s.nodes)) [
      | inl n ↦ rw n (add_line_clean (some r))
      | inr (p, q) ↦ rw q clean
    ])
  ]

  insert_queue_clean : (insert_queue s).fault ≡ false
  unfolding insert_queue
  insert_queue_clean = elim (Bool-cases s.echoit) [
    | inl e ↦ simp e (queue_line_clean s.ring)
    | inr e ↦ simp e clean
  ]

-- The end mark of a line.
pub end_mark : (l r : List Glyph) (s : Editor) → Rep l r s → s.buff (width l + width r) ≡ 0
end_mark l r s h =
    let p = (At-split s.buff (width l) (chars r) (0 ∷ []) h.right.0).1.0 in rw length-chars at p

-- insert_queue leaves the line that is edited as it is, and stays within the arrays.
pub insert_queue-Rep : (l r : List Glyph) (s : Editor) → Rep l r s → Rep l r (insert_queue s)
insert_queue-Rep l r s h =
    let same = insert_queue-OnlyRing s in
    let clean =
      insert_queue_clean (width l + width r) s h.room (end_mark l r s h)
        (omega (arith, h.total, h.room)) h.no_fault in
    Rep-shift l r l r refl s (insert_queue s) h
      (
        ap (λ (t : Editor). t.buff) same,
        ap (λ (t : Editor). t.buff_flag) same,
        ap (λ (t : Editor). t.buff_pntr) same,
        clean ∙ sym h.no_fault,
      )
      (ap (λ (t : Editor). t.curr_pntr) same ∙ h.cursor)
