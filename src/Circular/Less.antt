-- ===== src/Circular/Less.antt =====
-- src/circular.h: operator< on buffers.
use fork_plugin.Prelude.{
  ◌≡◌, refl, ap, Bool, true, false, Option, some, List, [], ◌∷◌, ◌++◌, map, if◌then◌else◌,
  Bool-cases, inl, inr, ◌⊎◌, ◌↔◌,
}
use fork_plugin.Circular.{Circular, elements}
use fork_plugin.Circular.Refine.{Holds}
use fork_plugin.Circular.Assign.{elements-eq}

module _ {A : Type 0} where
  -- std::lexicographical_compare on two ranges of objects.
  abbrev pub lexicographical_compare : (A → A → Bool) → List (Option A) → List (Option A) → Bool
  lexicographical_compare lt (some x ∷ xs) (some y ∷ ys) =
      if lt x y then true else if lt y x then false else lexicographical_compare lt xs ys
  lexicographical_compare lt [] (y ∷ ys) = true
  lexicographical_compare lt _ _ = false

  -- `operator<` on buffers.
  unfoldable pub less : (A → A → Bool) → Circular A → Circular A → Bool
  unfolding elements
  less lt a b = lexicographical_compare lt (elements a) (elements b)

  -- The first list precedes the second in the order of dictionaries: they agree up to a place at
  -- which the first one ends and the second does not, or has the smaller element.
  abbrev pub Precedes : (A → A → Bool) → List A → List A → Type 0
  Precedes lt xs ys =
      (common : List A) × (y : A) × (ys' : List A) × (ys ≡ common ++ (y ∷ ys'))
      × ((xs ≡ common) ⊎ ((x : A) × (xs' : List A) × (xs ≡ common ++ (x ∷ xs')) × (lt x y ≡ true)))

  Precedes-cons :
      (lt : A → A → Bool) (z : A) (xs ys : List A)
      → Precedes lt xs ys
      → Precedes lt (z ∷ xs) (z ∷ ys)
  Precedes-cons lt z xs ys (common, y, ys', e, d) = (
    z ∷ common,
    y,
    ys',
    ap (λ t. z ∷ t) e,
    elim d [
      | inl same ↦ inl (ap (λ t. z ∷ t) same)
      | inr (x, xs', same, l) ↦ inr (x, xs', ap (λ t. z ∷ t) same, l)
    ],
  )

  module _ (lt : A → A → Bool) (irreflexive : (x : A) → lt x x ≡ false)
      (asymmetric : (x y : A) → lt x y ≡ true → lt y x ≡ false)
      (connected : (x y : A) → lt x y ≡ false → lt y x ≡ false → x ≡ y) where
    lexicographical_compare-Precedes :
        (xs ys : List A)
        → lexicographical_compare lt (map some xs) (map some ys) ≡ true
        → Precedes lt xs ys
    lexicographical_compare-Precedes [] [] h = absurd (cc)
    lexicographical_compare-Precedes (x ∷ xs) [] h = absurd (cc)
    lexicographical_compare-Precedes [] (y ∷ ys) h = ([], y, ys, refl, inl refl)
    lexicographical_compare-Precedes (x ∷ xs) (y ∷ ys) h = elim (Bool-cases (lt x y)) [
      | inl l ↦ ([], y, ys, refl, inr (x, xs, refl, l))
      | inr nl ↦ elim (Bool-cases (lt y x)) [
        | inl g ↦ absurd (let k = rw (nl, g) at h in cc)
        | inr ng ↦
            let same : x ≡ y = connected x y nl ng in
            rw same
              (Precedes-cons lt y xs ys (lexicographical_compare-Precedes xs ys (rw (nl, ng) at h)))
      ]
    ]

    Precedes-lexicographical_compare :
        (common : List A) (xs : List A) (y : A) (ys : List A)
        → (xs ≡ common) ⊎ ((x : A) × (xs' : List A) × (xs ≡ common ++ (x ∷ xs')) × (lt x y ≡ true))
        → lexicographical_compare lt (map some xs) (map some (common ++ (y ∷ ys))) ≡ true
    Precedes-lexicographical_compare [] xs y ys (inl e) = rw e refl
    Precedes-lexicographical_compare [] xs y ys (inr (x, xs', e, l)) = rw e (rw l refl)
    Precedes-lexicographical_compare (z ∷ common) xs y ys (inl e) =
        rw e (rw (irreflexive z) (Precedes-lexicographical_compare common common y ys (inl refl)))
    Precedes-lexicographical_compare (z ∷ common) xs y ys (inr (x, xs', e, l)) = rw e (
        rw (irreflexive z) (
          Precedes-lexicographical_compare common (common ++ (x ∷ xs')) y ys
            (inr (x, xs', refl, l))))

    -- operator< on two buffers is the order of dictionaries on the lists that they hold, wherever in
    -- their storage, if the comparison of elements is a strict total order.
    pub less_iff :
        {a b : Circular A} (xs ys : List A)
        → Holds a xs
        → Holds b ys
        → (less lt a b ≡ true) ↔ Precedes lt xs ys
    unfolding less
    less_iff {a} {b} xs ys h k =
        rw (elements-eq a xs h, elements-eq b ys k)
          (
            λ l. lexicographical_compare-Precedes xs ys l,
            λ (common, y, ys', e, d). rw e (Precedes-lexicographical_compare common xs y ys' d),
          )
