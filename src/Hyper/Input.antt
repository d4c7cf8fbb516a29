-- ===== src/Hyper/Input.antt =====
-- src/hyper/input.c: the boxes that are picked, and the input area of a page that has the focus. A
-- pointer to an area is its address. What is drawn is left out.
pub mod Boxes
pub mod Focus
use open_axiom.Prelude.{
  ℕ, zero, suc, ◌+◌, Bool, true, false, not, Option, none, some, List, [], ◌∷◌, ◌==◌, if◌then◌else◌,
  ◌>>=◌,
}
use open_axiom.Hash.Strings.{string_equal}

-- `picked` of the box that a link refers to.
unfoldable pub toggle_input_box : Bool → Bool
toggle_input_box picked = if picked then false else true

-- `while (trace && !trace->picked) trace = trace->next;`, and the box found is unpicked.
unfoldable pub clear_rbs : List Bool → List Bool
clear_rbs [] = []
clear_rbs (picked ∷ rest) = if picked then false ∷ rest else picked ∷ clear_rbs rest

unfoldable pub is_picked : ℕ → List Bool → Bool
is_picked i [] = false
is_picked zero (b ∷ bs) = b
is_picked (suc i) (b ∷ bs) = is_picked i bs

unfoldable pub pick : ℕ → List Bool → List Bool
pick i [] = []
pick zero (b ∷ bs) = true ∷ bs
pick (suc i) (b ∷ bs) = b ∷ pick i bs

-- The boxes of a group, and the index of the one that the link refers to.
unfoldable pub toggle_radio_box : ℕ → List Bool → List Bool
unfolding clear_rbs is_picked pick
toggle_radio_box i boxes = if is_picked i boxes then boxes else pick i (clear_rbs boxes)

pub record Area : Type 0 where
  pub address : ℕ
  pub name : List ℕ

pub record Page : Type 0 where
  pub input_list : List Area
  pub current_item : Option ℕ
  pub beeps : ℕ

unfoldable pub first_address : List Area → Option ℕ
first_address [] = none
first_address (a ∷ _) = some a.address

-- `item->next` of the area with the address
unfoldable pub address_after : ℕ → List Area → Option ℕ
unfolding first_address
address_after x [] = none
address_after x (a ∷ rest) = if a.address == x then first_address rest else address_after x rest

unfoldable pub change_input_focus : ℕ → Page → Page
change_input_focus x p = record p { current_item = some x }

unfoldable pub or_else : Option ℕ → Option ℕ → Option ℕ
or_else none d = d
or_else (some x) d = some x

abbrev pub is_none : Option ℕ → Bool
is_none none = true
is_none (some _) = false

abbrev pub is_address : ℕ → Option ℕ → Bool
is_address x none = false
is_address x (some y) = x == y

abbrev pub beep_at_the_user : Page → Page
beep_at_the_user p = record p { beeps = p.beeps + 1 }

unfoldable pub next_input_focus : Page → Page
unfolding address_after first_address or_else
next_input_focus p = elim p.current_item [
  | none ↦ beep_at_the_user p
  | some old ↦
      let next = address_after old p.input_list in
      let head = first_address p.input_list in
      if (if is_none next then is_address old head else false)
      then beep_at_the_user p
      else record p { current_item = or_else next head }
]

-- `while (trace->next != NULL) trace = trace->next;`
unfoldable pub last_address : ℕ → List Area → ℕ
last_address x [] = x
last_address x (a ∷ rest) = last_address a.address rest

-- `while (trace->next != old_item) trace = trace->next;`, which runs off a list without the area.
unfoldable pub address_before : ℕ → (trace : ℕ) → List Area → Option ℕ
address_before old trace [] = none
address_before old trace (a ∷ rest) =
    if a.address == old then some trace else address_before old a.address rest

unfoldable pub prev_address : ℕ → List Area → Option ℕ
unfolding last_address address_before
prev_address old [] = none
prev_address old (a ∷ rest) =
    if a.address == old
    then some (last_address a.address rest)
    else address_before old a.address rest

unfoldable pub prev_input_focus : Page → Option Page
unfolding prev_address
prev_input_focus p = elim p.current_item [
  | none ↦ some (beep_at_the_user p)
  | some old ↦ prev_address old p.input_list >>= λ x. some (record p { current_item = some x })
]

unfoldable pub return_item : List ℕ → List Area → Option Area
return_item name [] = none
return_item name (a ∷ rest) = if string_equal name a.name then some a else return_item name rest

-- The list without the first area of the name, and the address of that area.
unfoldable pub remove_area : List ℕ → List Area → List Area × Option ℕ
remove_area name [] = ([], none)
remove_area name (a ∷ rest) =
    let (others, gone) = remove_area name rest in
    if string_equal name a.name then (rest, some a.address) else (a ∷ others, gone)

unfoldable pub moved_focus : Option ℕ → (gone : ℕ) → List Area → Option ℕ
unfolding first_address
moved_focus focus gone left = if is_address gone focus then first_address left else focus

unfoldable pub delete_item : List ℕ → Page → Page × Bool
unfolding remove_area moved_focus
delete_item name p =
    let (left, found) = remove_area name p.input_list in
    elim found [
      | none ↦ (p, false)
      | some gone ↦ (
        record p { input_list = left; current_item = moved_focus p.current_item gone left },
        true,
      )
    ]
