-- ===== src/Hyper/Input/Boxes.antt =====
-- The radio boxes of src/hyper/input.c.
use open_axiom.Prelude.{
  ℕ, zero, suc, ◌+◌, ◌≤◌, ◌<◌, ◌≡◌, refl, Bool, true, false, List, [], ◌∷◌, arith, length,
  if◌then◌else◌, Bool-cases, inl, inr,
}
use open_axiom.Hyper.Input.{clear_rbs, is_picked, pick, toggle_radio_box}

-- how many boxes are picked
abbrev pub picked : List Bool → ℕ
picked [] = 0
picked (b ∷ bs) = (if b then 1 else 0) + picked bs

picked-clear_rbs : (bs : List Bool) → picked bs ≤ 1 → picked (clear_rbs bs) ≡ 0
unfolding clear_rbs
picked-clear_rbs [] h = refl
picked-clear_rbs (true ∷ bs) h = omega arith
picked-clear_rbs (false ∷ bs) h = omega (arith, picked-clear_rbs bs (omega arith))

length-clear_rbs : (bs : List Bool) → length (clear_rbs bs) ≡ length bs
unfolding clear_rbs
length-clear_rbs [] = refl
length-clear_rbs (true ∷ bs) = refl
length-clear_rbs (false ∷ bs) = omega (arith, length-clear_rbs bs)

picked-pick :
    (i : ℕ) (bs : List Bool)
    → i < length bs
    → picked bs ≡ 0
    → (picked (pick i bs) ≡ 1) × (is_picked i (pick i bs) ≡ true)
unfolding pick is_picked
picked-pick i [] lt h = absurd (omega arith)
picked-pick zero (b ∷ bs) lt h = (ground arith, refl)
picked-pick (suc i) (b ∷ bs) lt h =
    let (one, own) = picked-pick i bs (omega arith) (ground arith) in (ground arith, own)

picked_pos : (i : ℕ) (bs : List Bool) → is_picked i bs ≡ true → 1 ≤ picked bs
unfolding is_picked
picked_pos i [] h = cc
picked_pos zero (b ∷ bs) h = ground arith
picked_pos (suc i) (b ∷ bs) h = omega (arith, picked_pos i bs h)

-- After toggle_radio_box on a box of a group with at most one picked box, exactly one box is
-- picked, and it is this one.
pub toggle_radio_box-picked :
    (i : ℕ) (bs : List Bool)
    → i < length bs
    → picked bs ≤ 1
    → (picked (toggle_radio_box i bs) ≡ 1) × (is_picked i (toggle_radio_box i bs) ≡ true)
unfolding toggle_radio_box
toggle_radio_box-picked i bs lt h = elim (Bool-cases (is_picked i bs)) [
  | inl own ↦ rw own (omega (arith, picked_pos i bs own), own)
  | inr other ↦
      rw other
        (picked-pick i (clear_rbs bs) (omega (arith, length-clear_rbs bs)) (picked-clear_rbs bs h))
]
