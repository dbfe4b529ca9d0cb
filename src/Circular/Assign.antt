-- ===== src/Circular/Assign.antt =====
-- src/circular.h: clearing a buffer, filling it from a range, and reading it from begin() to end().
use mathlib.Core.List.{append_assoc, append-nil}
use fork_plugin.Prelude.{
  ℕ, zero, suc, ◌+◌, ◌≤◌, ◌≡◌, refl, ap, ◌∙◌, Bool, true, false, Option, none, some, List, [], ◌∷◌,
  ◌++◌, map, arith, length, length-set, length-append, get_elem?, ◌==◌,
}
use fork_plugin.Circular.{
  Circular, push_back, push_all, clear, destroy_from, assign_into, elements, read_from,
  at_unchecked, index_to_subscript, destroy,
}
use fork_plugin.Circular.Valid.{IsValid}
use fork_plugin.Circular.Refine.{Holds, push_back-Holds, array_size-push_back}

module _ {A : Type 0} where
  destroy_from-storage :
      (rounds n : ℕ) (b : Circular A)
      → (length (destroy_from rounds n b).array ≡ length b.array)
        × ((destroy_from rounds n b).array_size ≡ b.array_size)
  unfolding destroy_from
  destroy_from-storage zero n b = (refl, refl)
  destroy_from-storage (suc rounds) n b =
      let raw : Option A = none in
      let (l, s) = destroy_from-storage rounds (n + 1) (destroy b (index_to_subscript b n)) in
      (l ∙ length-set b.array (index_to_subscript b n) raw, s)

  -- `clear` empties the buffer and keeps its capacity.
  pub clear-Holds : {b : Circular A} → IsValid b → Holds (clear b) []
  unfolding clear
  clear-Holds {b} v = record {
    valid = ground (arith, destroy_from-storage b.contents_size 0 b);
    sized = refl;
    reads = λ i hi. absurd (omega arith);
  }

  pub array_size-clear : (b : Circular A) → (clear b).array_size ≡ b.array_size
  unfolding clear
  array_size-clear b = (destroy_from-storage b.contents_size 0 b).1

  pub push_all-Holds :
      (accept : Bool) (b : Circular A) (ys xs : List A)
      → Holds b ys
      → length ys + length xs ≤ b.array_size
      → Holds (push_all accept b xs) (ys ++ xs)
  unfolding push_all
  push_all-Holds accept b ys [] h room = rw append-nil h
  push_all-Holds accept b ys (x ∷ xs) h room = rw append_assoc at (
      push_all-Holds accept (push_back accept b x) (ys ++ (x ∷ [])) xs
        (push_back-Holds accept x h (omega arith))
        (omega (arith, array_size-push_back accept b x, length-append ys (x ∷ []))))

  -- assign_into on a buffer that holds any list gives a valid buffer that holds exactly the values
  -- of the range, in order, if they are no more than the capacity.
  pub assign_into-Holds :
      (accept : Bool) {b : Circular A} {ys : List A} (xs : List A)
      → Holds b ys
      → length xs ≤ b.array_size
      → Holds (assign_into accept b xs) xs
  unfolding assign_into
  assign_into-Holds accept {b} {ys = []} xs h room =
      let e : (b.contents_size == 0) ≡ true = ground (arith, h.sized) in
      rw e (push_all-Holds accept b [] xs h (omega arith))
  assign_into-Holds accept {b} {ys = y ∷ ys} xs h room =
      let e : (b.contents_size == 0) ≡ false = ground (arith, h.sized) in
      rw e (
        push_all-Holds accept (clear b) [] xs (clear-Holds h.valid)
          (omega (arith, array_size-clear b)))

  get_elem?-at :
      (xs : List A) (y : A) (ys : List A) → get_elem? (xs ++ (y ∷ ys)) (length xs) ≡ some y
  get_elem?-at [] y ys = refl
  get_elem?-at (x ∷ xs) y ys = get_elem?-at xs y ys

  read_from-eq :
      (b : Circular A) (xs ys : List A)
      → Holds b (xs ++ ys)
      → read_from (length ys) (length xs) b ≡ map some ys
  unfolding read_from
  read_from-eq b xs [] h = refl
  read_from-eq b xs (y ∷ ys) h =
      let here : at_unchecked b (length xs) ≡ some y =
        h.reads (length xs) (omega (arith, length-append xs (y ∷ []), length-append xs (y ∷ ys)))
        ∙ get_elem?-at xs y ys in
      let next : length (xs ++ (y ∷ [])) ≡ length xs + 1 = length-append xs (y ∷ []) in
      rw here
        (ap (λ t. some y ∷ t) (rw next at (read_from-eq b (xs ++ (y ∷ [])) ys (rw append_assoc h))))

  -- Reading a buffer from begin() to end() gives exactly the elements of the list that it holds, in
  -- order.
  pub elements-eq : (b : Circular A) (xs : List A) → Holds b xs → elements b ≡ map some xs
  unfolding elements
  elements-eq b xs h = ap (λ n. read_from n 0 b) h.sized ∙ read_from-eq b [] xs h
