-- ===== src/Clef/Tests/Full.antt =====
-- Lines that fill the buffer.
use open_axiom.Prelude.{
  ℕ, zero, suc, ◌+◌, ◌<◌, ◌≡◌, refl, true, false, none, List, [], arith, replicate, ltb,
  if◌then◌else◌,
}
use open_axiom.Prelude.Memory.{At}
use open_axiom.Prelude.Memory.Laws.{All}
use open_axiom.Clef.State.{Flag, Editor, maxline}
use open_axiom.Clef.Insert.{insert_buff_nonprinting}
use open_axiom.Clef.Lines.{send_line_to_child}
use open_axiom.Clef.Line.Glyph.{Glyph, plain, chars, flags, width, IsGlyph, Rep}
use open_axiom.Clef.Line.Bounds.{insert_buff_nonprinting-fault, send_line_to_child-fault}

abbrev all_a : ℕ → List Glyph
all_a n = replicate n (plain b'a')

-- `n` times the character `a`.
abbrev full : ℕ → Editor
full n = record {
  buff = λ i. if ltb i n then b'a' else 0;
  buff_flag = λ i. if ltb i n then Flag.plain else Flag.free;
  buff_pntr = n;
  curr_pntr = n;
  in_buff = λ i. 1;
  num_read = 1;
  num_proc = 0;
  had_tab = false;
  had_tab_last = false;
  ins_mode = true;
  echoit = true;
  pty = true;
  nodes = λ p. record { chars = λ i. 0; flags = λ i. Flag.free; prev = 0; next = 0 };
  ring = none;
  current = none;
  ring_size = 0;
  converted = λ i. 0;
  pwct = [];
  curr_wix = record { table = none; word = 0 };
  curr_prefix = [];
  input = [];
  stdout = [];
  sent = [];
  fault = false;
}

width-all_a : (n : ℕ) → width (all_a n) ≡ n
width-all_a zero = refl
width-all_a (suc n) = omega (arith, width-all_a n)

IsGlyph-all_a : (n : ℕ) → All IsGlyph (all_a n)
IsGlyph-all_a zero = tt
IsGlyph-all_a (suc n) = (ground arith, IsGlyph-all_a n)

chars-all_a : (n i k : ℕ) → i + k ≡ n → At (full n).buff i (chars (all_a k))
chars-all_a n i zero e = tt
chars-all_a n i (suc k) e = (ground arith, chars-all_a n (suc i) k (omega arith))

flags-all_a : (n i k : ℕ) → i + k ≡ n → At (full n).buff_flag i (flags (all_a k))
flags-all_a n i zero e = tt
flags-all_a n i (suc k) e = (ground arith, flags-all_a n (suc i) k (omega arith))

full-Rep : (n : ℕ) → n < maxline → Rep (all_a n) [] (full n)
full-Rep n short = record {
  chars_left = chars-all_a n 0 n (omega arith);
  flags_left = flags-all_a n 0 n (omega arith);
  right = ((ground (arith, width-all_a n), tt), (ground (arith, width-all_a n), tt));
  cursor = omega (arith, width-all_a n);
  total = omega (arith, width-all_a n);
  room = omega (arith, width-all_a n);
  glyphs_left = IsGlyph-all_a n;
  glyphs_right = tt;
  no_fault = refl;
}

insert_full_example : (insert_buff_nonprinting 1 (full 1022)).fault ≡ true
insert_full_example =
    insert_buff_nonprinting-fault (all_a 1022) [] (full 1022) (full-Rep 1022 (omega arith)) refl
      (omega (arith, width-all_a 1022))

send_full_example : (send_line_to_child (full 1023)).fault ≡ true
send_full_example =
    send_line_to_child-fault (all_a 1023) [] (full 1023) (full-Rep 1023 (omega arith))
      (omega (arith, width-all_a 1023))
