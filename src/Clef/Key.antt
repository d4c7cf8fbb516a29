-- ===== src/Clef/Key.antt =====
-- The characters that the editor names, from src/include/edible.h.
use open_axiom.Prelude.{ℕ}

abbrev pub esc : ℕ
esc = 0x1b

abbrev pub lbrack : ℕ
lbrack = 0x5b

abbrev pub eoln : ℕ
eoln = 10

abbrev pub cr : ℕ
cr = 0x0d

abbrev pub blank : ℕ
blank = 0x20

abbrev pub bkspc : ℕ
bkspc = 0x08

abbrev pub del : ℕ
del = 0x7f

abbrev pub bell : ℕ
bell = 0x07

abbrev pub cntrl_w : ℕ
cntrl_w = 0x17

abbrev pub carrot : ℕ
carrot = 0x5e

abbrev pub tab : ℕ
tab = 0x09
