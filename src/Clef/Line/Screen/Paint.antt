-- ===== src/Clef/Line/Screen/Paint.antt =====
-- What a sequence of characters does to the row.
use open_axiom.Prelude.{
  ℕ, zero, suc, ◌+◌, ◌-◌, ◌≡◌, refl, ◌≢◌, ◌∙◌, List, [], ◌∷◌, ◌++◌, arith, length, false, ◌==◌,
  if◌then◌else◌, replicate,
}
use open_axiom.Prelude.Memory.{Memory, store, write_list}
use open_axiom.Prelude.Memory.Laws.{All}
use open_axiom.Clef.Key
use open_axiom.Clef.Line.Echo.{onto}

-- The cells from the start of the line on, and the column of the cursor.
pub record Row : Type 0 where
  pub cell : Memory ℕ
  pub col : ℕ

unfoldable pub feed : ℕ → Row → Row
feed c w =
    if c == Key.bkspc
    then record w { col = w.col - 1 }
    else if c == Key.bell
    then w
    else record { cell = store w.cell w.col c; col = w.col + 1 }

unfoldable pub feeds : List ℕ → Row → Row
feeds [] w = w
feeds (c ∷ cs) w = feeds cs (feed c w)

-- The row after all that was written to the terminal, the latest first: at first it is blank.
unfoldable pub row : List ℕ → Row
row [] = record { cell = λ _. Key.blank; col = 0 }
row (c ∷ out) = feed c (row out)

pub row-onto : (cs out : List ℕ) → row (onto cs out) ≡ feeds cs (row out)
unfolding onto feeds row
row-onto [] out = refl
row-onto (c ∷ cs) out = row-onto cs (c ∷ out)

pub feeds-append : (cs ds : List ℕ) (w : Row) → feeds (cs ++ ds) w ≡ feeds ds (feeds cs w)
unfolding feeds
feeds-append [] ds w = refl
feeds-append (c ∷ cs) ds w = feeds-append cs ds (feed c w)

abbrev pub IsShown : ℕ → Type 0
IsShown c = (c ≢ Key.bkspc) × (c ≢ Key.bell)

pub feeds_back : (n : ℕ) (w : Row) → feeds (replicate n Key.bkspc) w ≡ record w { col = w.col - n }
unfolding feeds feed
feeds_back zero w = ground arith
feeds_back (suc n) w = feeds_back n (record w { col = w.col - 1 }) ∙ ground arith

feed_shown :
    (c : ℕ) (w : Row)
    → IsShown c
    → feed c w ≡ record { cell = store w.cell w.col c; col = suc w.col }
unfolding feed
feed_shown c w h =
    let not_back : (c == Key.bkspc) ≡ false = ground (arith, h.0) in
    let not_bell : (c == Key.bell) ≡ false = ground (arith, h.1) in
    let next : w.col + 1 ≡ suc w.col = omega arith in rw (not_back, not_bell, next) refl

pub feeds_shown :
    (cs : List ℕ) (w : Row)
    → All IsShown cs
    → feeds cs w ≡ record { cell = write_list w.col cs w.cell; col = w.col + length cs }
unfolding feeds write_list
feeds_shown [] w h = ground arith
feeds_shown (c ∷ cs) w h =
    let next : suc w.col + length cs ≡ w.col + suc (length cs) = omega arith in
    rw (feed_shown c w h.0) (rw (feeds_shown cs _ h.1, next) refl)

pub IsShown-blanks : (n : ℕ) → All IsShown (replicate n Key.blank)
IsShown-blanks zero = tt
IsShown-blanks (suc n) = (ground arith, IsShown-blanks n)
