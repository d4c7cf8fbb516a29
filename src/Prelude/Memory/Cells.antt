-- ===== src/Prelude/Memory/Cells.antt =====
-- The runs of cells of an array as lists: where two runs agree, and how a run splits.
use open_axiom.Prelude.{
  ℕ, zero, suc, ◌+◌, ◌<◌, ◌≤◌, ◌≡◌, refl, ap, ◌∙◌, [], ◌∷◌, ◌++◌, arith, length,
}
use open_axiom.Prelude.Memory.{Memory, store, cells}

module _ {A : Type 0} where
  pub cells_move :
      (m m' : Memory A) (i j n : ℕ)
      → ((k : ℕ) → k < n → m' (j + k) ≡ m (i + k))
      → cells j n m' ≡ cells i n m
  unfolding cells
  cells_move m m' i j zero same = refl
  cells_move m m' i j (suc n) same =
      ground
        (arith, same 0, cells_move m m' (suc i) (suc j) n (λ k lt. ground (arith, same (suc k))))

  pub cells_split :
      (m : Memory A) (i a b : ℕ) → cells i (a + b) m ≡ cells i a m ++ cells (i + a) b m
  unfolding cells
  cells_split m i zero b =
      ap (λ n. cells i n m) {x = 0 + b} {y = b} (omega arith)
      ∙ ap (λ j. cells j b m) {x = i} {y = i + 0} (omega arith)
  cells_split m i (suc a) b =
      ap (λ n. cells i n m) {x = suc a + b} {y = suc (a + b)} (omega arith)
      ∙ ap (λ cs. m i ∷ cs) (cells_split m (suc i) a b)
      ∙ ap (λ j. m i ∷ (cells (suc i) a m ++ cells j b m)) {x = suc i + a} {y = i + suc a}
          (omega arith)

  -- A run from the start of the array.
  pub cells_first : (m : Memory A) (a b : ℕ) → cells 0 (a + b) m ≡ cells 0 a m ++ cells a b m
  cells_first m a b =
      cells_split m 0 a b ∙ ap (λ j. cells 0 a m ++ cells j b m) {x = 0 + a} {y = a} (omega arith)

  pub length-cells : (m : Memory A) (i n : ℕ) → length (cells i n m) ≡ n
  unfolding cells
  length-cells m i zero = refl
  length-cells m i (suc n) = ap suc (length-cells m (suc i) n)

  -- A write outside the run.
  pub cells-store_before :
      (m : Memory A) (i n j : ℕ) (v : A) → j < i → cells i n (store m j v) ≡ cells i n m
  cells-store_before m i n j v lt = cells_move m _ i i n (λ k le. ground arith)

  pub cells-store_behind :
      (m : Memory A) (i n j : ℕ) (v : A) → i + n ≤ j → cells i n (store m j v) ≡ cells i n m
  cells-store_behind m i n j v le = cells_move m _ i i n (λ k lt. ground arith)

  -- The last cell of a run.
  pub cells_last : (m : Memory A) (i n : ℕ) → cells i (n + 1) m ≡ cells i n m ++ m (i + n) ∷ []
  unfolding cells
  cells_last m i n = cells_split m i n 1

  -- A run with a cell written behind it.
  pub cells-store_last :
      (m : Memory A) (n : ℕ) (v : A) → cells 0 (n + 1) (store m n v) ≡ cells 0 n m ++ v ∷ []
  cells-store_last m n v =
      ground (arith, cells_last (store m n v) 0 n, cells-store_behind m 0 n n v (omega arith))
