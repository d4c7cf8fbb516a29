-- ===== src/Hyper/Tests/Input.antt =====
-- A page with three input areas, and a group of three radio boxes.
use open_axiom.Prelude.{ℕ, ◌≡◌, refl, true, false, some, [], ◌∷◌, arith}
use open_axiom.Hyper.Input.{
  Area, Page, toggle_radio_box, is_picked, next_input_focus, prev_input_focus,
}
use open_axiom.Hyper.Input.Boxes.{picked, toggle_radio_box-picked}
use open_axiom.Hyper.Input.Focus.{prev_input_focus-next}

abbrev area : ℕ → Area
area n = record { address = n; name = b'a' ∷ [] }

abbrev page : Page
page = record { input_list = area 10 ∷ area 20 ∷ area 30 ∷ []; current_item = some 30; beeps = 0 }

radio_box_example :
    (picked (toggle_radio_box 0 (false ∷ true ∷ false ∷ [])) ≡ 1)
    × (is_picked 0 (toggle_radio_box 0 (false ∷ true ∷ false ∷ [])) ≡ true)
radio_box_example =
    toggle_radio_box-picked 0 (false ∷ true ∷ false ∷ []) (omega arith) (omega arith)

focus_example : prev_input_focus (next_input_focus page) ≡ some page
focus_example =
    prev_input_focus-next page (area 10 ∷ area 20 ∷ []) (area 30) [] refl refl (omega arith)
      (omega arith)
