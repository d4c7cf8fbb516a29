-- ===== src/Clef/State.antt =====
-- The globals of src/lib/edin.c and src/clef/edible.c, declared in src/include/edible.h, and the
-- primitive effects on them. The terminal and the child process are lists of what was written.
use open_axiom.Prelude.{
  ℕ, ◌+◌, ◌-◌, Bool, true, false, ◌||◌, Option, List, ◌∷◌, ltb, leb, if◌then◌else◌,
}
use open_axiom.Prelude.Memory.{Memory, store}

-- The values of a cell of `buff_flag`: -1, 0, 1, 2, and 49, which is the character '1'.
pub data Flag : Type 0 where
  free tail plain lead quoted_one : Flag

-- `*t >= 0` fails
abbrev pub is_free : Flag → Bool
is_free Flag.free = true
is_free _ = false

-- `!buff_flag[i]`
abbrev pub is_tail : Flag → Bool
is_tail Flag.tail = true
is_tail _ = false

-- `buff_flag[i] == 2`
abbrev pub is_lead : Flag → Bool
is_lead Flag.lead = true
is_lead _ = false

-- `source_flag[i] == 1`
abbrev pub is_plain : Flag → Bool
is_plain Flag.plain = true
is_plain _ = false

abbrev pub maxline : ℕ
maxline = 1024

-- `x >= 0x01 && x <= 0x1a`
abbrev pub control_char : ℕ → Bool
control_char x = if leb 1 x then leb x 0x1a else false

abbrev pub control_to_alpha : ℕ → ℕ
control_to_alpha x = x + 0x40

abbrev pub alpha_to_control : ℕ → ℕ
alpha_to_control x = x - 0x40

-- A node of the command ring, named by its number.
pub record QueStruct : Type 0 where
  pub chars : Memory ℕ
  pub flags : Memory Flag
  pub prev : ℕ
  pub next : ℕ

-- A completion table: a file, when it was read, and its words.
pub record Wct : Type 0 where
  pub fname : ℕ
  pub ftime : ℕ
  pub wordc : ℕ
  pub wordv : List (List ℕ)

-- `curr_wix`: a table by its place in the list, and a word by its place in the table.
pub record Wix : Type 0 where
  pub table : Option ℕ
  pub word : ℕ

pub record Editor : Type 0 where
  pub buff : Memory ℕ
  pub buff_flag : Memory Flag
  pub buff_pntr : ℕ
  pub curr_pntr : ℕ
  pub in_buff : Memory ℕ
  pub num_read : ℕ
  pub num_proc : ℕ
  pub had_tab : Bool
  pub had_tab_last : Bool
  pub ins_mode : Bool
  pub echoit : Bool
  pub pty : Bool
  pub nodes : Memory QueStruct
  pub ring : Option ℕ
  pub current : Option ℕ
  pub ring_size : ℕ
  -- the static buffer of `send_line_to_child`
  pub converted : Memory ℕ
  pub pwct : List Wct
  pub curr_wix : Wix
  pub curr_prefix : List ℕ
  -- what `read(0, ...)` has yet to give
  pub input : List ℕ
  -- the bytes given to `putchar`, and the writes to `contNum`, the latest first
  pub stdout : List ℕ
  pub sent : List (List ℕ)
  -- set when the code leaves an array, or when a position or a length of it falls below 0; from
  -- there on the model does not follow the source
  pub fault : Bool

infixl 2 ◌▷◌
abbrev pub ◌▷◌ {ℓ κ} : {A : Type ℓ} {B : Type κ} → A → (A → B) → B
x ▷ f = f x

abbrev pub putchar : ℕ → Editor → Editor
putchar c s = record s { stdout = c ∷ s.stdout }

abbrev pub write_child : List ℕ → Editor → Editor
write_child bytes s = record s { sent = bytes ∷ s.sent }

abbrev pub raise : Bool → Editor → Editor
raise bad s = record s { fault = s.fault || bad }

-- `buff[i] = c; buff_flag[i] = f;`
abbrev pub put_cell : ℕ → ℕ → Flag → Editor → Editor
put_cell i c f s = record s {
  buff = store s.buff i c;
  buff_flag = store s.buff_flag i f;
  fault = s.fault || leb maxline i;
}

-- `num_proc = num_proc + n`
abbrev pub advance : ℕ → Editor → Editor
advance n s = record s { num_proc = s.num_proc + n }

-- `buff_pntr -= n`
abbrev pub shrink : ℕ → Editor → Editor
shrink n s = record s { buff_pntr = s.buff_pntr - n; fault = s.fault || ltb s.buff_pntr n }

-- `curr_pntr -= n`
abbrev pub step_back : ℕ → Editor → Editor
step_back n s = record s { curr_pntr = s.curr_pntr - n; fault = s.fault || ltb s.curr_pntr n }
