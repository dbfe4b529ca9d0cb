-- ===== src/Circular/Full.antt =====
-- src/circular.h: push_back on a full buffer, under both policies.
use native.Mathlib.Decide.{ℕ_discrete}
use fork_plugin.Prelude.{
  ℕ, suc, ◌+◌, ◌<◌, ◌≡◌, ◌∙◌, true, false, some, List, [], ◌∷◌, ◌++◌, arith, length, length-set,
  length-append, set, get_elem?-append_left, get_elem?-append_last,
}
use fork_plugin.Circular.{Circular, push_back, at_unchecked, next_tail, index_to_subscript}
use fork_plugin.Circular.Valid.{IsValid, mod-eq-turn}
use fork_plugin.Circular.Refine.{Holds, get_or-set_subscript}

module _ {A : Type 0} where
  subscript-full :
      {b : Circular A}
      → IsValid b
      → b.contents_size ≡ b.array_size
      → next_tail b ≡ index_to_subscript b 0
  subscript-full {b} v full = ground (arith, mod-eq-turn b.array_size b.head)

  -- Without the policy that accepts data when full, push_back on a full valid buffer stores nothing
  -- and still counts the element: the size is the capacity plus one, the storage is unchanged, the
  -- tail stands on the head, and the element past the last is read from the slot of the first.
  pub push_back_full-overcounts :
      (b : Circular A) (x : A)
      → IsValid b
      → b.contents_size ≡ b.array_size
      → let b' = push_back false b x in
        (b'.contents_size ≡ suc b'.array_size)
        × (b'.array ≡ b.array)
        × (b'.tail ≡ b'.head)
        × (at_unchecked b' b.contents_size ≡ at_unchecked b 0)
  unfolding push_back at_unchecked
  push_back_full-overcounts b x v full = (
    ground arith,
    ground arith,
    ground (arith, mod-eq-turn b.array_size b.head),
    ground (
      arith,
      mod-eq-turn b.array_size b.head,
      mod-eq-turn b.array_size (b.contents_size + b.head),
    ),
  )

  IsValid-full :
      {b : Circular A} (x : A)
      → IsValid b
      → b.contents_size ≡ b.array_size
      → IsValid (push_back true b x)
  unfolding push_back
  IsValid-full {b} x v full = ground (arith, length-set b.array (next_tail b) (some x))

  size-full :
      {b : Circular A} (x : A)
      → IsValid b
      → b.contents_size ≡ b.array_size
      → (push_back true b x).contents_size ≡ b.array_size
  unfolding push_back
  size-full {b} x v full = ground arith

  subscript-after :
      {b : Circular A} (x : A) (i : ℕ)
      → IsValid b
      → b.contents_size ≡ b.array_size
      → suc i < b.array_size
      → index_to_subscript (push_back true b x) i ≡ index_to_subscript b (suc i)
  unfolding push_back
  subscript-after {b} x i v full hi = ground (
    arith,
    mod-eq-turn b.array_size (i + (b.head + 1)),
    mod-eq-turn b.array_size i,
    mod-eq-turn b.array_size (suc i + b.head),
  )

  subscript-last :
      {b : Circular A} (x : A) (i : ℕ)
      → IsValid b
      → b.contents_size ≡ b.array_size
      → suc i ≡ b.array_size
      → index_to_subscript (push_back true b x) i ≡ index_to_subscript b 0
  unfolding push_back
  subscript-last {b} x i v full hi = ground (
    arith,
    mod-eq-turn b.array_size (i + (b.head + 1)),
    mod-eq-turn b.array_size i,
    mod-eq-turn b.array_size b.head,
  )

  array-full :
      {b : Circular A} (x : A)
      → IsValid b
      → b.contents_size ≡ b.array_size
      → (push_back true b x).array ≡ set b.array (index_to_subscript b 0) (some x)
  unfolding push_back
  array-full {b} x v full = rw (← subscript-full v full) (ground arith)

  -- With the policy that accepts data when full, push_back on a full buffer drops the first element
  -- of the list that it holds and appends the new one.
  pub push_back_full-Holds :
      {b : Circular A} {y : A} {ys : List A} (x : A)
      → Holds b (y ∷ ys)
      → length (y ∷ ys) ≡ b.array_size
      → Holds (push_back true b x) (ys ++ (x ∷ []))
  unfolding at_unchecked
  push_back_full-Holds {b} {y} {ys} x h full = record {
    valid = IsValid-full x h.valid (omega (arith, h.sized));
    sized = omega (arith, size-full x h.valid (omega (arith, h.sized)), length-append ys (x ∷ []));
    reads = λ i hi. elim (ℕ_discrete (suc i) b.array_size) [
      | yes e ↦
          rw
            (
              subscript-last x i h.valid (omega (arith, h.sized)) e,
              array-full x h.valid (omega (arith, h.sized)),
            )
            (get_or-set_subscript 0 0 (some x) h.valid (omega arith) (omega arith)
              ∙ (let at_end : i ≡ length ys = omega arith in
                  rw (at_end, get_elem?-append_last ys x)))
      | no ne ↦
          rw
            (
              subscript-after x i h.valid (omega (arith, h.sized))
                  (omega (arith, length-append ys (x ∷ []))),
              array-full x h.valid (omega (arith, h.sized)),
            )
            (ground (
              arith,
              get_or-set_subscript 0 (suc i) (some x) h.valid (omega arith)
                  (omega (arith, length-append ys (x ∷ []))),
              h.reads (suc i),
              get_elem?-append_left ys (x ∷ []) i,
              length-append ys (x ∷ []),
            ))
    ];
  }
