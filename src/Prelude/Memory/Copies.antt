-- ===== src/Prelude/Memory/Copies.antt =====
-- What the copies between two arrays write, and where a string ends.
use open_axiom.Prelude.{
  ℕ, zero, suc, ◌<◌, ◌≡◌, refl, ap, sym, ◌∙◌, Bool, true, false, List, [], ◌∷◌, ◌++◌, arith, length,
  if_true, if_false,
}
use mathlib.Core.Path.{subst}
use open_axiom.Prelude.Memory.{Memory, store, At, copy_up, copy_until, extent}
use open_axiom.Prelude.Memory.Laws.{All}

module _ {A : Type 0} where
  copy_until_before :
      (stop : A → Bool) (fuel to from : ℕ) (source target : Memory A) (k : ℕ)
      → k < to
      → copy_until stop fuel to from source target k ≡ target k
  unfolding copy_until
  copy_until_before stop zero to from source target k lt = refl
  copy_until_before stop (suc n) to from source target k lt =
      ground (
        arith,
        copy_until_before stop n (suc to) (suc from) source (store target to (source from)) k,
      )

  -- The cells up to the first accepted one are copied, and it too.
  pub copy_until-At :
      (stop : A → Bool) (fuel to from : ℕ) (source target : Memory A) (xs : List A) (z : A)
      → length xs < fuel
      → All (λ x. stop x ≡ false) xs
      → stop z ≡ true
      → At source from (xs ++ z ∷ [])
      → At (copy_until stop fuel to from source target) to (xs ++ z ∷ [])
  unfolding copy_until
  copy_until-At stop zero to from source target xs z enough go end run = absurd (omega arith)
  copy_until-At stop (suc n) to from source target [] z enough go end run =
      (ground (arith, run.0), tt)
  copy_until-At stop (suc n) to from source target (x ∷ xs) z enough go end run =
      let rest = copy_until stop n (suc to) (suc from) source (store target to (source from)) in
      let step =
        if_false (stop (source from)) (store target to (source from)) rest (rw run.0 go.0) in
      subst (λ m. At m to (x ∷ xs ++ z ∷ [])) (sym step)
        (
          copy_until_before stop n (suc to) (suc from) source (store target to (source from)) to
                (omega arith)
              ∙ ground (arith, run.0),
          copy_until-At stop n (suc to) (suc from) source (store target to (source from)) xs z
              (omega (arith, enough)) go.1 end run.1,
        )

  copy_up_before :
      (to from n : ℕ) (source target : Memory A) (k : ℕ)
      → k < to
      → copy_up to from n source target k ≡ target k
  unfolding copy_up
  copy_up_before to from zero source target k lt = refl
  copy_up_before to from (suc n) source target k lt =
      ground (arith, copy_up_before (suc to) (suc from) n source (store target to (source from)) k)

  pub copy_up-At :
      (to from n : ℕ) (source target : Memory A) (xs : List A)
      → length xs ≡ n
      → At source from xs
      → At (copy_up to from n source target) to xs
  unfolding copy_up
  copy_up-At to from n source target [] e run = tt
  copy_up-At to from zero source target (x ∷ xs) e run = absurd (omega (arith, e))
  copy_up-At to from (suc n) source target (x ∷ xs) e run = (
    copy_up_before (suc to) (suc from) n source (store target to (source from)) to (omega arith)
        ∙ ground (arith, run.0),
    copy_up-At (suc to) (suc from) n source (store target to (source from)) xs (omega (arith, e))
        run.1,
  )

  pub extent_lem :
      (stop : A → Bool) (fuel i : ℕ) (m : Memory A) (xs : List A) (z : A)
      → length xs < fuel
      → All (λ x. stop x ≡ false) xs
      → stop z ≡ true
      → At m i (xs ++ z ∷ [])
      → extent stop fuel i m ≡ length xs
  unfolding extent
  extent_lem stop zero i m xs z enough go end run = absurd (omega arith)
  extent_lem stop (suc n) i m [] z enough go end run = if_true (stop (m i)) _ _ (rw run.0 end)
  extent_lem stop (suc n) i m (x ∷ xs) z enough go end run =
      if_false (stop (m i)) 0 (suc (extent stop n (suc i) m)) (rw run.0 go.0)
      ∙ ap suc (extent_lem stop n (suc i) m xs z (omega (arith, enough)) go.1 end run.1)
