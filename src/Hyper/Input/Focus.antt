-- ===== src/Hyper/Input/Focus.antt =====
-- The focus of src/hyper/input.c goes round the input areas of a page.
use open_axiom.Prelude.{
  ℕ, ◌≤◌, ◌≡◌, ◌≢◌, refl, sym, ap, ◌∙◌, Option, none, some, List, [], ◌∷◌, ◌++◌, arith, ◌>>=◌,
  length,
}
use open_axiom.Prelude.Memory.Laws.{All}
use open_axiom.Hyper.Input.{
  Area, Page, first_address, address_after, last_address, address_before, prev_address,
  next_input_focus, prev_input_focus, or_else,
}

-- No area has the address.
abbrev pub IsFree : ℕ → List Area → Type 0
IsFree x = All (λ a. a.address ≢ x)

address_after_lem :
    (front : List Area) (a : Area) (rest : List Area)
    → IsFree a.address front
    → address_after a.address (front ++ a ∷ rest) ≡ first_address rest
unfolding address_after
address_after_lem [] a rest h = ground arith
address_after_lem (b ∷ front) a rest h = ground (arith, address_after_lem front a rest h.1)

address_before_lem :
    (x : ℕ) (front : List Area) (a b : Area) (rest : List Area)
    → IsFree b.address (front ++ a ∷ [])
    → address_before b.address x (front ++ a ∷ b ∷ rest) ≡ some a.address
unfolding address_before
address_before_lem x [] a b rest h = ground arith
address_before_lem x (c ∷ front) a b rest h =
    ground (arith, address_before_lem c.address front a b rest h.1)

prev_address_lem :
    (front : List Area) (a b : Area) (rest : List Area)
    → IsFree b.address (front ++ a ∷ [])
    → prev_address b.address (front ++ a ∷ b ∷ rest) ≡ some a.address
unfolding prev_address address_before
prev_address_lem [] a b rest h = ground arith
prev_address_lem (c ∷ front) a b rest h =
    ground (arith, address_before_lem c.address front a b rest h.1)

last_address_lem :
    (x : ℕ) (front : List Area) (a : Area) → last_address x (front ++ a ∷ []) ≡ a.address
unfolding last_address
last_address_lem x [] a = refl
last_address_lem x (c ∷ front) a = last_address_lem c.address front a

module _ (p : Page) (front : List Area) (a : Area) (rest : List Area)
    (areas : p.input_list ≡ front ++ a ∷ rest) (here : p.current_item ≡ some a.address)
    (own : IsFree a.address front) where
  after_here : address_after a.address p.input_list ≡ first_address rest
  after_here = ap (address_after a.address) areas ∙ address_after_lem front a rest own

  next_inside :
      (b : Area)
      → first_address rest ≡ some b.address
      → next_input_focus p ≡ record p { current_item = some b.address }
  unfolding next_input_focus or_else
  next_inside b e = ground (arith, after_here)

  next_round :
      (b : Area)
      → first_address rest ≡ none
      → first_address p.input_list ≡ some b.address
      → b.address ≢ a.address
      → next_input_focus p ≡ record p { current_item = some b.address }
  unfolding next_input_focus or_else
  next_round b e first other = ground (arith, after_here)

-- No two areas have the same address.
abbrev pub Distinct : List Area → Type 0
Distinct [] = Unit
Distinct (a ∷ rest) = IsFree a.address rest × Distinct rest

IsFree-middle :
    (front : List Area) (a : Area) (rest : List Area) (x : ℕ)
    → IsFree x (front ++ a ∷ rest)
    → IsFree x front × (a.address ≢ x) × IsFree x rest
IsFree-middle [] a rest x h = (tt, h.0, h.1)
IsFree-middle (c ∷ front) a rest x h =
    let (front_free, other, rest_free) = IsFree-middle front a rest x h.1 in
    ((h.0, front_free), other, rest_free)

own_address :
    (front : List Area) (a : Area) (rest : List Area)
    → Distinct (front ++ a ∷ rest)
    → IsFree a.address front
own_address [] a rest d = tt
own_address (c ∷ front) a rest d =
    let (_, other, _) = IsFree-middle front a rest c.address d.0 in
    (λ e. other (sym e), own_address front a rest d.1)

next_address :
    (front : List Area) (a b : Area) (rest : List Area)
    → Distinct (front ++ a ∷ b ∷ rest)
    → IsFree b.address (front ++ a ∷ [])
next_address [] a b rest d = (λ e. d.0.0 (sym e), tt)
next_address (c ∷ front) a b rest d =
    let (_, _, after_a) = IsFree-middle front a (b ∷ rest) c.address d.0 in
    (λ e. after_a.0 (sym e), next_address front a b rest d.1)

prev_back :
    (p : Page) (x : ℕ) (b : Area)
    → prev_address b.address p.input_list ≡ some x
    → p.current_item ≡ some x
    → prev_input_focus (record p { current_item = some b.address }) ≡ some p
unfolding prev_input_focus
prev_back p x b e here =
    ap (λ (o : Option ℕ). o >>= λ y. some (record p { current_item = some y })) e
    ∙ ap (λ (o : Option ℕ). some (record p { current_item = o })) (sym here)

-- On a page with at least two input areas, of different addresses, and the focus on one of them,
-- prev_input_focus after next_input_focus gives back the page.
pub prev_input_focus-next :
    (p : Page) (front : List Area) (a : Area) (rest : List Area)
    → p.input_list ≡ front ++ a ∷ rest
    → p.current_item ≡ some a.address
    → Distinct (front ++ a ∷ rest)
    → 2 ≤ length (front ++ a ∷ rest)
    → prev_input_focus (next_input_focus p) ≡ some p
unfolding first_address
prev_input_focus-next p [] a [] areas here d two = absurd (omega arith)
prev_input_focus-next p (c ∷ front) a [] areas here d two =
    let own = own_address (c ∷ front) a [] d in
    ap prev_input_focus
      (next_round p (c ∷ front) a [] areas here own c refl (ap first_address areas) own.0)
    ∙ prev_back p a.address c (ap (prev_address c.address) areas ∙ round_back c front a) here
  where
    round_back :
        (c : Area) (front : List Area) (a : Area)
        → prev_address c.address (c ∷ front ++ a ∷ []) ≡ some a.address
    round_back c front a = unfold prev_address in ground (arith, last_address_lem c.address front a)
prev_input_focus-next p front a (b ∷ rest) areas here d two =
    let own = own_address front a (b ∷ rest) d in
    ap prev_input_focus (next_inside p front a (b ∷ rest) areas here own b refl)
    ∙ prev_back p a.address b
        (ap (prev_address b.address) areas
          ∙ prev_address_lem front a b rest (next_address front a b rest d))
        here
