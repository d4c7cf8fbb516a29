-- ===== src/Prelude/Memory.antt =====
-- An array of C as a function of the index, and the loops that fill, move and copy its cells.
-- An index past the declared end stands for the memory behind the array.
pub mod Cells
pub mod Copies
pub mod Laws
use Prim.Native.Nat.{ℕ, zero, suc, ◌+◌}
use mathlib.Core.Path.{◌≡◌}
use mathlib.Core.List.{List, [], ◌∷◌}
use mathlib.Core.Bool.{Bool, true, false}
use open_axiom.Prelude.Tests.{◌==◌, if◌then◌else◌}

abbrev pub Memory {ℓ} : Type ℓ → Type ℓ
Memory A = ℕ → A

module _ {ℓ} {A : Type ℓ} where
  -- `m[i] = v`
  abbrev pub store : Memory A → ℕ → A → Memory A
  store m i v j = if i == j then v else m j

  -- the cells of `xs` stand in `m` from index `i` on
  abbrev pub At : Memory A → ℕ → List A → Type ℓ
  At m i [] = Unit
  At m i (x ∷ xs) = (m i ≡ x) × At m (suc i) xs

  -- `for (count = num; count >= 0; count--) m[to + count] = m[from + count];`
  unfoldable pub copy_down : (to from num : ℕ) → Memory A → Memory A
  copy_down to from zero m = store m to (m from)
  copy_down to from (suc n) m = copy_down to from n (store m (to + suc n) (m (from + suc n)))

  -- `while (n-- > 0) target[to++] = source[from++];`
  unfoldable pub copy_up : (to from num : ℕ) (source target : Memory A) → Memory A
  copy_up to from zero source target = target
  copy_up to from (suc n) source target =
      copy_up (suc to) (suc from) n source (store target to (source from))

  -- `for (i = from; i < from + num; i++) m[i] = v;`
  unfoldable pub fill : (from num : ℕ) → A → Memory A → Memory A
  fill from zero v m = m
  fill from (suc n) v m = fill (suc from) n v (store m from v)

  -- The same with each cell's value from a list.
  unfoldable pub write_list : ℕ → List A → Memory A → Memory A
  write_list to [] m = m
  write_list to (x ∷ xs) m = write_list (suc to) xs (store m to x)

  -- A copy inside one array, from a higher index to a lower one, up to and with the first cell
  -- that `stop` accepts. The fuel bounds the cells that are read.
  unfoldable pub slide : (stop : A → Bool) (fuel to from : ℕ) → Memory A → Memory A
  slide stop zero to from m = m
  slide stop (suc n) to from m =
      let v = m from in
      let rest = slide stop n (suc to) (suc from) (store m to v) in
      if stop v then store m to v else rest

  -- A copy between two arrays, up to and with the first cell that `stop` accepts.
  unfoldable pub copy_until :
      (stop : A → Bool) (fuel to from : ℕ) (source target : Memory A) → Memory A
  copy_until stop zero to from source target = target
  copy_until stop (suc n) to from source target =
      let v = source from in
      let rest = copy_until stop n (suc to) (suc from) source (store target to v) in
      if stop v then store target to v else rest

  -- Whether one of the `fuel` cells from `i` on is accepted.
  unfoldable pub stops : (stop : A → Bool) (fuel i : ℕ) → Memory A → Bool
  stops stop zero i m = false
  stops stop (suc n) i m = let rest = stops stop n (suc i) m in if stop (m i) then true else rest

  -- How many cells stand before the first accepted one.
  unfoldable pub extent : (stop : A → Bool) (fuel i : ℕ) → Memory A → ℕ
  extent stop zero i m = 0
  extent stop (suc n) i m =
      let rest = suc (extent stop n (suc i) m) in if stop (m i) then 0 else rest

  -- the `n` cells from `i` on
  unfoldable pub cells : (i n : ℕ) → Memory A → List A
  cells i zero m = []
  cells i (suc n) m = m i ∷ cells (suc i) n m
