-- ===== src/Circular/Refine.antt =====
-- src/circular.h: circular_buffer as the sequence of the elements that it holds.
use fork_plugin.Prelude.{
  ℕ, if◌then◌else◌, ◌==◌, ==_iff, ◌+◌, ◌≤◌, ◌<◌, ◌≡◌, ◌≢◌, refl, ◌∙◌, Bool, Option, none, some,
  List, [], ◌∷◌, ◌++◌, arith, length, length-set, length-append, get_elem?, get_or, set,
  get_or-set_self, get_or-set_ne, get_elem?-append_left, get_elem?-append_last, get_elem?-set_self,
  get_elem?-set_ne,
}
use native.Mathlib.Decide.{ℕ_discrete}
use fork_plugin.Circular.{
  size_mod, Circular, circular_buffer, push_back, pop_front, front, write_at, at_unchecked,
  index_to_subscript,
}
use fork_plugin.Circular.Valid.{
  IsValid, mod-eq-turn, circular_buffer-IsValid, push_back-IsValid, pop_front-IsValid,
  write_at-IsValid, next_tail-eq-subscript,
}

-- The buffer is valid and holds exactly the elements of the list, in order.
pub record Holds {A : Type 0} (b : Circular A) (xs : List A) : Type 0 where
  pub valid : IsValid b
  pub sized : b.contents_size ≡ length xs
  pub reads : (i : ℕ) → i < length xs → at_unchecked b i ≡ get_elem? xs i

module _ {A : Type 0} where
  -- Two elements of the buffer never share a slot.
  pub subscript-ne :
      {b : Circular A} (i j : ℕ)
      → IsValid b
      → i < b.array_size
      → j < b.array_size
      → i ≢ j
      → index_to_subscript b i ≢ index_to_subscript b j
  subscript-ne {b} i j v hi hj ne =
      ground (arith, mod-eq-turn b.array_size (i + b.head), mod-eq-turn b.array_size (j + b.head))

  pub subscript-lt :
      {b : Circular A} (i : ℕ)
      → IsValid b
      → i < b.array_size
      → index_to_subscript b i < length b.array
  subscript-lt {b} i v hi = ground (arith, mod-eq-turn b.array_size (i + b.head))

  pub circular_buffer-Holds :
      (n : ℕ) → 2 ≤ n → n + n ≤ size_mod → Holds (circular_buffer {A = A} n) []
  circular_buffer-Holds n h k = record {
    valid = circular_buffer-IsValid n h k;
    sized = unfold circular_buffer in refl;
    reads = λ i hi. absurd (omega arith);
  }

  at_push_back :
      (accept : Bool) {b : Circular A} (x : A) (i : ℕ)
      → IsValid b
      → b.contents_size < b.array_size
      → i ≤ b.contents_size
      → at_unchecked (push_back accept b x) i
        ≡ get_or
            (set b.array (index_to_subscript b b.contents_size) (some x))
            (index_to_subscript b i)
            none
  unfolding push_back at_unchecked
  at_push_back accept {b} x i v room hi = ground (arith, next_tail-eq-subscript v)

  pub get_or-set_subscript :
      {b : Circular A} (i j : ℕ) (x : Option A)
      → IsValid b
      → i < b.array_size
      → j < b.array_size
      → get_or (set b.array (index_to_subscript b i) x) (index_to_subscript b j) none
        ≡ (if i == j then x else at_unchecked b j)
  unfolding at_unchecked
  get_or-set_subscript {b} i j x v hi hj = elim (ℕ_discrete i j) [
    | yes e ↦ rw (e, (==_iff j j).1 refl) (get_or-set_self b.array _ x none (subscript-lt j v hj))
    | no ne ↦ ground (
      arith,
      get_or-set_ne b.array (index_to_subscript b i) (index_to_subscript b j) x none
          (subscript-ne i j v hi hj ne),
    )
  ]

  subscript-zero : {b : Circular A} → IsValid b → index_to_subscript b 0 ≡ b.head
  subscript-zero {b} v = ground (arith, mod-eq-turn b.array_size b.head)

  pub subscript-pop_front :
      {b : Circular A} (i : ℕ)
      → IsValid b
      → i + 1 < b.contents_size
      → index_to_subscript (pop_front b) i ≡ index_to_subscript b (i + 1)
  unfolding pop_front
  subscript-pop_front {b} i v hi = ground (
    arith,
    mod-eq-turn b.array_size (i + 1 + b.head),
    mod-eq-turn b.array_size (i + (b.head + 1)),
    mod-eq-turn b.array_size i,
  )

  array-pop_front :
      {b : Circular A} → IsValid b → (pop_front b).array ≡ set b.array (index_to_subscript b 0) none
  unfolding pop_front
  array-pop_front {b} v = rw (subscript-zero v)

  contents_size-push_back :
      (accept : Bool) {b : Circular A} (x : A)
      → IsValid b
      → b.contents_size < b.array_size
      → (push_back accept b x).contents_size ≡ b.contents_size + 1
  unfolding push_back
  contents_size-push_back accept x v room = ground arith

  contents_size-pop_front :
      {b : Circular A}
      → IsValid b
      → 0 < b.contents_size
      → (pop_front b).contents_size + 1 ≡ b.contents_size
  unfolding pop_front
  contents_size-pop_front v left = ground arith

  -- No operation changes the capacity.
  pub array_size-push_back :
      (accept : Bool) (b : Circular A) (x : A) → (push_back accept b x).array_size ≡ b.array_size
  unfolding push_back
  array_size-push_back accept b x = ground arith

  pub array_size-pop_front : (b : Circular A) → (pop_front b).array_size ≡ b.array_size
  unfolding pop_front
  array_size-pop_front b = refl

  pub array_size-write_at :
      (b : Circular A) (i : ℕ) (x : A) → (write_at b i x).array_size ≡ b.array_size
  unfolding write_at
  array_size-write_at b i x = refl

  -- While the buffer that holds the list has room, push_back gives a valid buffer that holds the
  -- list with the element appended, whatever its policy for a full buffer.
  pub push_back-Holds :
      (accept : Bool) {b : Circular A} {xs : List A} (x : A)
      → Holds b xs
      → length xs < b.array_size
      → Holds (push_back accept b x) (xs ++ (x ∷ []))
  push_back-Holds accept {b} {xs} x h room = record {
    valid = push_back-IsValid accept x h.valid (omega arith);
    sized = omega (
      arith,
      contents_size-push_back accept x h.valid (omega arith),
      length-append xs (x ∷ []),
      h.sized,
    );
    reads = λ i hi.
        at_push_back accept x i h.valid (omega arith) (omega (arith, length-append xs (x ∷ [])))
        ∙ get_or-set_subscript b.contents_size i (some x) h.valid (omega arith)
            (omega (arith, length-append xs (x ∷ [])))
        ∙ ground (
          arith,
          h.reads i,
          h.sized,
          length-append xs (x ∷ []),
          get_elem?-append_left xs (x ∷ []) i,
          get_elem?-append_last xs x,
        );
  }

  -- `front` reads the first element.
  pub front-Holds : {b : Circular A} {x : A} {xs : List A} → Holds b (x ∷ xs) → front b ≡ some x
  unfolding front at_unchecked
  front-Holds {b} {x} {xs} h = rw (← subscript-zero h.valid) (h.reads 0 (omega arith))

  -- From a buffer that holds a list of at least one element, pop_front gives a valid buffer that
  -- holds the tail of the list.
  pub pop_front-Holds :
      {b : Circular A} {x : A} {xs : List A} → Holds b (x ∷ xs) → Holds (pop_front b) xs
  unfolding at_unchecked
  pop_front-Holds {b} {x} {xs} h = record {
    valid = pop_front-IsValid h.valid (omega arith);
    sized = omega (arith, contents_size-pop_front h.valid (omega arith), h.sized);
    reads = λ i hi.
        rw (subscript-pop_front i h.valid (omega arith), array-pop_front h.valid)
          (ground (
            arith,
            get_or-set_subscript 0 (i + 1) none h.valid (omega arith) (omega arith),
            h.reads (i + 1),
          ));
  }

  -- A write through operator[] at an index below the size gives a valid buffer that holds the list
  -- with that element replaced, and no other.
  pub write_at-Holds :
      {b : Circular A} {xs : List A} (i : ℕ) (x : A)
      → Holds b xs
      → i < length xs
      → Holds (write_at b i x) (set xs i x)
  unfolding write_at at_unchecked
  write_at-Holds {b} {xs} i x h hi = record {
    valid = write_at-IsValid i x h.valid;
    sized = omega (arith, length-set xs i x, h.sized);
    reads = λ j hj.
        get_or-set_subscript i j (some x) h.valid (omega arith)
          (omega (arith, length-set xs i x, h.sized))
        ∙ elim (ℕ_discrete i j) [
          | yes e ↦ ground (arith, get_elem?-set_self xs i x)
          | no ne ↦ ground (arith, get_elem?-set_ne xs i j x ne, h.reads j, length-set xs i x)
        ];
  }
