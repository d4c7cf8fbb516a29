-- ===== src/Hyper/Dialog/Text.antt =====
-- The loops of src/hyper/dialog.c that copy the characters of several lines into a local buffer, and
-- back into the lines. The buffer of 1024 characters is a list; `*tr` is its head, or the NUL at
-- its end.
use open_axiom.Prelude.{
  ℕ, zero, suc, Bool, true, false, not, Option, none, some, List, [], ◌∷◌, ◌++◌, ◌==◌, ltb,
  if◌then◌else◌, ◌>>=◌,
}
use open_axiom.Prelude.Memory.{Memory, store, cells}
use open_axiom.Hyper.Dialog.{LineStruct, wrap, dec_line_numbers}

-- `for (; trace->len > size; trace = trace->next) ...` and the copy of the last line: the
-- characters, and how many lines stand before the last one.
unfoldable pub gather : List LineStruct → (size : ℕ) → Option (List ℕ × ℕ)
unfolding cells
gather [] size = none
gather (l ∷ ls) size =
    let further : Option (List ℕ × ℕ) =
      gather ls size >>= λ (tr, n). some (cells 0 size l.buffer ++ tr, suc n) in
    if ltb size l.len then further else some (cells 0 l.len l.buffer, 0)

-- `*tr`
unfoldable pub more : List ℕ → Bool
more [] = false
more (c ∷ tr) = not (c == 0)

-- `for (; bp < size && *tr; bp++) buffer[bp] = *tr++;` with `room` for `size - bp`.
unfoldable pub put_chars : (room bp : ℕ) → List ℕ → Memory ℕ → ℕ × List ℕ × Memory ℕ
put_chars zero bp tr b = (bp, tr, b)
put_chars (suc room) bp [] b = (bp, [], b)
put_chars (suc room) bp (c ∷ tr) b =
    let rest = put_chars room (suc bp) tr (store b bp c) in if c == 0 then (bp, c ∷ tr, b) else rest

-- `for (bp = 0; bp < size; bp++) buffer[bp] = *tr++;`
unfoldable pub put_all : (room bp : ℕ) → List ℕ → Memory ℕ → List ℕ × Memory ℕ
put_all zero bp tr b = (tr, b)
put_all (suc room) bp [] b = ([], b)
put_all (suc room) bp (c ∷ tr) b = put_all room (suc bp) tr (store b bp c)

-- `for (trace = trace->next; *tr;) ...`
unfoldable pub refill : List LineStruct → (size : ℕ) → List ℕ → Option (List LineStruct)
unfolding put_chars more wrap
refill [] size tr = if more tr then none else some []
refill (l ∷ ls) size tr =
    let (bp, left, b) = put_chars size 0 tr l.buffer in
    let further : Option (List LineStruct) = refill ls size left >>= λ rest.
    some (record (wrap size (record l { buffer = b })) { changed = true } ∷ rest) in
    if more tr
    then if more left then further else some (record l { buffer = store b bp 0; len = bp } ∷ ls)
    else some (l ∷ ls)

-- `trace->len = 0` on the line behind `n` others.
unfoldable pub empty_last : ℕ → List LineStruct → List LineStruct
empty_last n [] = []
empty_last zero (l ∷ ls) = record l { len = 0 } ∷ ls
empty_last (suc n) (l ∷ ls) = l ∷ empty_last n ls

-- "let me see if I can bag a line": the line behind `n` others goes if it is empty.
unfoldable pub bag_line : ℕ → List LineStruct → List LineStruct × Bool
unfolding dec_line_numbers
bag_line n [] = ([], false)
bag_line zero (l ∷ ls) = if l.len == 0 then (dec_line_numbers ls, true) else (l ∷ ls, false)
bag_line (suc n) (l ∷ ls) = let (rest, gone) = bag_line n ls in (l ∷ rest, gone)
