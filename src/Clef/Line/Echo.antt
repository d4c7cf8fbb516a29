-- ===== src/Clef/Line/Echo.antt =====
-- The printing loops of src/lib/prt.c, as lists of the characters that they write.
use open_axiom.Prelude.{
  ℕ, zero, suc, ◌≡◌, refl, ◌∙◌, List, [], ◌∷◌, ◌++◌, arith, if◌then◌else◌, replicate,
}
use open_axiom.Prelude.Memory.{cells}
use open_axiom.Clef.State.{Editor}
use open_axiom.Clef.Print.{myputchar, put_times, put_cells}

-- The characters `cs`, in this order, put on a list that has the latest first.
unfoldable pub onto : List ℕ → List ℕ → List ℕ
onto [] out = out
onto (c ∷ cs) out = onto cs (c ∷ out)

pub onto-append : (cs ds out : List ℕ) → onto (cs ++ ds) out ≡ onto ds (onto cs out)
unfolding onto
onto-append [] ds out = refl
onto-append (c ∷ cs) ds out = onto-append cs ds (c ∷ out)

unfoldable pub echo : List ℕ → Editor → Editor
echo cs s = record s { stdout = if s.echoit then onto cs s.stdout else s.stdout }

pub myputchar-echo : (c : ℕ) (s : Editor) → myputchar c s ≡ echo (c ∷ []) s
unfolding myputchar echo onto
myputchar-echo c s = ground arith

pub echo-echo_cons : (c : ℕ) (cs : List ℕ) (s : Editor) → echo cs (myputchar c s) ≡ echo (c ∷ cs) s
unfolding myputchar echo onto
echo-echo_cons c cs s = ground arith

pub echo_nil : (s : Editor) → s ≡ echo [] s
unfolding echo onto
echo_nil s = ground arith

pub put_times-echo : (n c : ℕ) (s : Editor) → put_times n c s ≡ echo (replicate n c) s
unfolding put_times
put_times-echo zero c s = echo_nil s
put_times-echo (suc n) c s = put_times-echo n c (myputchar c s) ∙ echo-echo_cons c (replicate n c) s

buff-myputchar : (c : ℕ) (s : Editor) → (myputchar c s).buff ≡ s.buff
unfolding myputchar
buff-myputchar c s = ground arith

pub put_cells-echo : (i n : ℕ) (s : Editor) → put_cells i n s ≡ echo (cells i n s.buff) s
unfolding put_cells cells
put_cells-echo i zero s = echo_nil s
put_cells-echo i (suc n) s =
    put_cells-echo (suc i) n (myputchar (s.buff i) s)
    ∙ simp buff-myputchar (echo-echo_cons (s.buff i) (cells (suc i) n s.buff) s)

pub echo-echo : (cs ds : List ℕ) (s : Editor) → echo ds (echo cs s) ≡ echo (cs ++ ds) s
unfolding echo
echo-echo cs ds s = rw onto-append (ground arith)

pub ruleset echoes = (myputchar-echo, put_times-echo, put_cells-echo)
