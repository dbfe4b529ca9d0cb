-- ===== src/Circular/Compare.antt =====
-- src/circular.h: comparison of whole buffers.
use fork_plugin.Prelude.{
  ◌≡◌, ◌↔◌, refl, ap, Bool, true, false, ◌&&◌, not, Option, some, List, [], ◌∷◌, map, arith, length,
  ◌==◌, if◌then◌else◌, Bool-cases, inl, inr,
}
use fork_plugin.Circular.{Circular, size, elements}
use fork_plugin.Circular.Refine.{Holds}
use fork_plugin.Circular.Assign.{elements-eq}

module _ {A : Type 0} where
  -- std::equal on two ranges of the same length.
  abbrev pub std_equal : (A → A → Bool) → List (Option A) → List (Option A) → Bool
  std_equal eq (some x ∷ xs) (some y ∷ ys) = eq x y && std_equal eq xs ys
  std_equal eq [] ys = true
  std_equal eq _ _ = false

  -- `operator==` and `operator!=` on buffers.
  unfoldable pub equal : (A → A → Bool) → Circular A → Circular A → Bool
  unfolding elements
  equal eq a b = size a == size b && std_equal eq (elements a) (elements b)

  unfoldable pub unequal : (A → A → Bool) → Circular A → Circular A → Bool
  unfolding elements
  unequal eq a b = if size a == size b then not (std_equal eq (elements a) (elements b)) else true

  std_equal_iff :
      (eq : A → A → Bool)
      → ((x y : A) → (eq x y ≡ true) ↔ (x ≡ y))
      → (xs ys : List A) → length xs ≡ length ys
      → (std_equal eq (map some xs) (map some ys) ≡ true) ↔ (xs ≡ ys)
  std_equal_iff eq law [] [] e = (λ h. refl, λ h. refl)
  std_equal_iff eq law [] (y ∷ ys) e = absurd (omega arith)
  std_equal_iff eq law (x ∷ xs) [] e = absurd (omega arith)
  std_equal_iff eq law (x ∷ xs) (y ∷ ys) e =
      ground (arith, law x y, std_equal_iff eq law xs ys (omega arith))

  -- Two buffers are equal by operator== exactly if they hold the same list, wherever in their
  -- storage and whatever their capacities, and operator!= is its negation, where the comparison of
  -- elements tests equality.
  pub equal_iff :
      (eq : A → A → Bool)
      → ((x y : A) → (eq x y ≡ true) ↔ (x ≡ y))
      → {a b : Circular A} (xs ys : List A) → Holds a xs
      → Holds b ys
      → ((equal eq a b ≡ true) ↔ (xs ≡ ys)) × (unequal eq a b ≡ not (equal eq a b))
  unfolding equal unequal
  equal_iff eq law {a} {b} xs ys h k =
      rw (elements-eq a xs h, elements-eq b ys k)
        (elim (Bool-cases (a.contents_size == b.contents_size)) [
          | inl e ↦ rw e (std_equal_iff eq law xs ys (ground (arith, e, h.sized, k.sized)), refl)
          | inr e ↦ rw e (
            (
              λ n. absurd (cc),
              λ same. absurd (ground (arith, e, h.sized, k.sized, ap length same)),
            ),
            refl,
          )
        ])
