-- ===== src/Triqueue/Places.antt =====
-- src/triqueue.h: places in a list that is three lists put together.
use fork_plugin.Prelude.{
  ◌+◌, ◌≡◌, refl, ap, ◌∙◌, some, List, [], ◌∷◌, ◌++◌, arith, length, length-append, get_elem?, set,
}
use mathlib.Core.List.{append_assoc}

module _ {A : Type 0} where
  pub get_elem?-middle :
      (xs : List A) (y : A) (ys : List A) → get_elem? (xs ++ (y ∷ ys)) (length xs) ≡ some y
  get_elem?-middle [] y ys = refl
  get_elem?-middle (x ∷ xs) y ys = get_elem?-middle xs y ys

  pub set-middle :
      (xs : List A) (x y : A) (ys : List A) → set (xs ++ (y ∷ ys)) (length xs) x ≡ xs ++ (x ∷ ys)
  set-middle [] x y ys = refl
  set-middle (z ∷ xs) x y ys = ap (λ t. z ∷ t) (set-middle xs x y ys)

  pub get_elem?-third :
      (xs ys : List A) (z : A) (zs : List A)
      → get_elem? (xs ++ (ys ++ (z ∷ zs))) (length xs + length ys) ≡ some z
  get_elem?-third xs ys z zs =
      rw (← append_assoc, ← length-append xs ys) (get_elem?-middle (xs ++ ys) z zs)

  pub set-third :
      (xs ys : List A) (v z : A) (zs : List A)
      → set (xs ++ (ys ++ (z ∷ zs))) (length xs + length ys) v ≡ xs ++ (ys ++ (v ∷ zs))
  set-third xs ys v z zs =
      rw (← append_assoc, ← length-append xs ys)
        (set-middle (xs ++ ys) v z zs ∙ append_assoc xs ys (v ∷ zs))

  pub length-parts :
      (outs mids ins : List A)
      → length (outs ++ (mids ++ ins)) ≡ length outs + length mids + length ins
  length-parts outs mids ins =
      omega (arith, length-append outs (mids ++ ins), length-append mids ins)
