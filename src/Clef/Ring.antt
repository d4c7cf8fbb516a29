-- ===== src/Clef/Ring.antt =====
-- src/lib/edin.c: the ring of earlier lines, a circular doubly linked list of at most 64 nodes.
-- No node is freed, so `malloc` gives the number of nodes as the name of the new one.
pub mod Circle
pub mod Links
pub mod Neighbours
use open_axiom.Prelude.{
  ℕ, zero, suc, ◌+◌, ◌-◌, Bool, true, false, not, ◌||◌, Option, none, some, ltb, leb, ◌==◌,
  if◌then◌else◌,
}
use open_axiom.Prelude.Memory.{Memory, store, copy_up, copy_until, stops, extent}
use open_axiom.Clef.State.{Flag, is_free, QueStruct, Editor, ◌▷◌, maxline}
use open_axiom.Clef.Print.{clear_buff, wipe, printbuff}

abbrev pub maxring : ℕ
maxring = 64

abbrev pub prev_check : ℕ
prev_check = 10

abbrev pub is_nul : ℕ → Bool
is_nul c = c == 0

-- `!strcmp(a, b)`, over at most `fuel` characters from index `i`
unfoldable pub same_string : (fuel i : ℕ) (a b : Memory ℕ) → Bool
same_string zero i a b = false
same_string (suc n) i a b =
    let rest = same_string n (suc i) a b in
    if a i == b i then (if a i == 0 then true else rest) else false

abbrev pub Nodes : Type 0
Nodes = Memory QueStruct

-- `p->prev = v` and `p->next = v`
abbrev pub set_prev : ℕ → ℕ → Nodes → Nodes
set_prev p v m = store m p (record (m p) { prev = v })

abbrev pub set_next : ℕ → ℕ → Nodes → Nodes
set_next p v m = store m p (record (m p) { next = v })

-- The first two of the six assignments that move the node `trace` behind the node `ring`.
unfoldable pub take_out : (trace : ℕ) → Nodes → Nodes
take_out trace m =
    m
    ▷ (λ n. set_prev (n trace).next (n trace).prev n)
    ▷ (λ n. set_next (n trace).prev (n trace).next n)

-- The other four.
unfoldable pub put_in : (trace ring : ℕ) → Nodes → Nodes
put_in trace ring m =
    m
    ▷ set_prev trace ring
    ▷ (λ n. set_next trace (n ring).next n)
    ▷ set_next ring trace
    ▷ (λ n. set_prev (n trace).next trace n)

unfoldable pub move_to_front : (trace ring : ℕ) → Nodes → Nodes
move_to_front trace ring m = put_in trace ring (take_out trace m)

-- The four assignments that put the new node `fresh` behind the node `ring`.
unfoldable pub link_new : (fresh ring : ℕ) → Nodes → Nodes
link_new fresh ring m =
    m
    ▷ (λ n. set_next fresh (n ring).next n)
    ▷ set_prev fresh ring
    ▷ set_next ring fresh
    ▷ (λ n. set_prev (n fresh).next fresh n)

-- The loop that looks for the line among the last nine nodes.
unfoldable pub find_line : (rounds trace : ℕ) → Memory ℕ → Nodes → Option ℕ
find_line zero trace text m = none
find_line (suc n) trace text m =
    let rest = find_line n (m trace).prev text m in
    if same_string maxline 0 text (m trace).chars then some trace else rest

-- The line is written into the node `p`.
unfoldable pub save_line : ℕ → Editor → Editor
save_line p s =
    let node = s.nodes p in
    let text = copy_until is_nul maxline 0 0 s.buff (λ _. 0) in
    let marks = copy_up 0 0 s.buff_pntr s.buff_flag (λ _. Flag.free) in
    record s {
      nodes = store s.nodes p (record node {
        chars = store text s.buff_pntr 0;
        flags = store marks s.buff_pntr Flag.free;
      });
      fault = s.fault || (not (stops is_nul maxline 0 s.buff) || leb maxline s.buff_pntr);
    }

-- A node for a line that is not among the last ones: a new one, or the oldest.
unfoldable pub add_line : Option ℕ → Editor → Editor
add_line none s = save_line s.ring_size (record s {
  nodes = s.nodes ▷ set_prev s.ring_size s.ring_size ▷ set_next s.ring_size s.ring_size;
  ring = some s.ring_size;
  ring_size = s.ring_size + 1;
})
add_line (some r) s =
    if ltb s.ring_size maxring
    then save_line s.ring_size (record s {
      nodes = link_new s.ring_size r s.nodes;
      ring = some s.ring_size;
      ring_size = s.ring_size + 1;
    })
    else save_line (s.nodes r).next (record s { ring = some (s.nodes r).next })

-- The rest of `insert_queue`, from `ring` on.
unfoldable pub queue_line : Option ℕ → Editor → Editor
queue_line none s = add_line none s
queue_line (some r) s =
    if same_string maxline 0 s.buff (s.nodes r).chars
    then s
    else elim (find_line (prev_check - 1) r s.buff s.nodes) [
      | some trace ↦ record s { nodes = move_to_front trace r s.nodes; ring = some trace }
      | none ↦ add_line (some r) s
    ]

unfoldable pub insert_queue : Editor → Editor
insert_queue s = if s.echoit then queue_line s.ring s else s

-- The line of the node `p` becomes the current one.
unfoldable pub recall : ℕ → Editor → Editor
recall p s =
    let s' = record s {
      current = some p;
      buff = copy_until is_nul maxline 0 0 (s.nodes p).chars s.buff;
      buff_flag = copy_until is_free maxline 0 0 (s.nodes p).flags s.buff_flag;
      fault =
          s.fault
          || (not (stops is_nul maxline 0 (s.nodes p).chars)
              || not (stops is_free maxline 0 (s.nodes p).flags));
    } in
    let n = extent is_nul maxline 0 s'.buff in
    record (printbuff 0 n s') { curr_pntr = n; buff_pntr = n }

abbrev pub clear_line : Editor → Editor
clear_line s = let s' = clear_buff s in wipe s'.buff_pntr s'

abbrev pub current_or : Option ℕ → (ℕ → ℕ) → ℕ → ℕ
current_or none step start = start
current_or (some c) step start = step c

-- `prev_buff`, after the test of `ring`
unfoldable pub go_prev : Option ℕ → Editor → Editor
go_prev none s = s
go_prev (some r) s = recall (current_or s.current (λ c. (s.nodes c).prev) r) (clear_line s)

unfoldable pub prev_buff : Editor → Editor
prev_buff s = go_prev s.ring s

unfoldable pub go_next : Option ℕ → Editor → Editor
go_next none s = s
go_next (some r) s =
    recall (current_or s.current (λ c. (s.nodes c).next) (s.nodes r).next) (clear_line s)

unfoldable pub next_buff : Editor → Editor
next_buff s = go_next s.ring s
