-- ===== src/Triqueue/Refine.antt =====
-- src/triqueue.h: a triqueue as three lists, the output, internal and input queues.
use fork_plugin.Prelude.{
  ℕ, ◌+◌, ◌≤◌, ◌<◌, ◌≡◌, refl, ◌∙◌, Bool, true, false, Option, none, some, ◌⊎◌, inl, inr, List, not,
  [], ◌∷◌, ◌++◌, arith, length, length-append,
}
use mathlib.Core.List.{append_assoc}
use fork_plugin.Circular.{size_mod, circular_buffer}
use fork_plugin.Circular.Refine.{
  array_size-push_back, array_size-pop_front, array_size-write_at, Holds, circular_buffer-Holds,
  push_back-Holds, front-Holds, pop_front-Holds, write_at-Holds,
}
use fork_plugin.Triqueue.Places.{
  get_elem?-middle, set-middle, get_elem?-third, set-third, length-parts,
}
use fork_plugin.Triqueue.{
  Triqueue, triqueue, middle_empty, third_empty, rewind_middle, push, can_pop, pop, peek_third,
  peek_middle, head, write_middle, write_third, move_to_first, move_to_second, first,
}

-- The queue holds the three lists one behind the other, in a buffer of the given capacity, and the
-- iterators stand at the two cuts.
pub record Split {A : Type 0} (cap : ℕ) (q : Triqueue A) (outs mids ins : List A) : Type 0 where
  pub held : Holds q.buffer (outs ++ (mids ++ ins))
  pub output_end : q.end_output ≡ length outs
  pub internal_end : q.end_internal ≡ length outs + length mids
  pub capacity : q.buffer.array_size ≡ cap

abbrev pub is_nil {ℓ} : {A : Type ℓ} → List A → Bool
is_nil [] = true
is_nil (x ∷ xs) = false

abbrev pub head? {ℓ} : {A : Type ℓ} → List A → Option A
head? [] = none
head? (x ∷ xs) = some x

module _ {A : Type 0} where
  pub triqueue-Split : (n : ℕ) → 2 ≤ n → n + n ≤ size_mod → Split n (triqueue {A = A} n) [] [] []
  unfolding triqueue
  triqueue-Split n h k = record {
    held = circular_buffer-Holds n h k;
    output_end = refl;
    internal_end = omega arith;
    capacity = unfold circular_buffer in refl;
  }

  -- The tests of the queue say which lists are empty.
  pub middle_empty-eq :
      {cap : ℕ} {q : Triqueue A} (outs mids ins : List A)
      → Split cap q outs mids ins
      → middle_empty q ≡ is_nil mids
  unfolding middle_empty
  middle_empty-eq outs [] ins s = ground arith
  middle_empty-eq outs (x ∷ mids) ins s = ground arith

  pub third_empty-eq :
      {cap : ℕ} {q : Triqueue A} (outs mids ins : List A)
      → Split cap q outs mids ins
      → third_empty q ≡ is_nil ins
  unfolding third_empty
  third_empty-eq outs mids [] s = ground (arith, s.held.sized, length-parts outs mids [])
  third_empty-eq outs mids (x ∷ ins) s =
      ground (arith, s.held.sized, length-parts outs mids (x ∷ ins))

  pub can_pop-eq :
      {cap : ℕ} {q : Triqueue A} (outs mids ins : List A)
      → Split cap q outs mids ins
      → can_pop q ≡ not (is_nil outs)
  unfolding can_pop
  can_pop-eq [] mids ins s = ground arith
  can_pop-eq (x ∷ outs) mids ins s = ground arith

  bounded :
      {cap : ℕ} {q : Triqueue A} (outs mids ins : List A)
      → Split cap q outs mids ins
      → length outs + length mids + length ins + length outs + length mids + length ins ≤ size_mod
  bounded outs mids ins s = omega (arith, s.held.sized, length-parts outs mids ins)

  pub total-le :
      {cap : ℕ} {q : Triqueue A} (outs mids ins : List A)
      → Split cap q outs mids ins
      → length outs + length mids + length ins ≤ cap
  total-le outs mids ins s =
      omega (arith, s.held.sized, s.held.valid.fits, s.capacity, length-parts outs mids ins)

  -- rewind_middle puts the internal queue, in order, before the input queue, empties it, and leaves
  -- the output queue.
  pub rewind_middle-Split :
      {cap : ℕ} {q : Triqueue A} {outs mids ins : List A}
      → Split cap q outs mids ins
      → Split cap (rewind_middle q) outs [] (mids ++ ins)
  unfolding rewind_middle
  rewind_middle-Split s = record {
    held = s.held;
    output_end = s.output_end;
    internal_end = omega (arith, s.output_end);
    capacity = s.capacity;
  }

  -- While the buffer has room, push makes the event the last of the input queue and leaves the
  -- other two queues.
  pub push-Split :
      {cap : ℕ} {q : Triqueue A} {outs mids ins : List A} (x : A)
      → Split cap q outs mids ins
      → length outs + length mids + length ins < cap
      → Split cap (push q x) outs mids (ins ++ (x ∷ []))
  unfolding push
  push-Split {q} {outs} {mids} {ins} x s room = record {
    held =
        simp append_assoc at
          (push_back-Holds false x s.held (omega (arith, s.capacity, length-parts outs mids ins)));
    output_end = s.output_end;
    internal_end = s.internal_end;
    capacity = array_size-push_back false q.buffer x ∙ s.capacity;
  }

  buffer-move_to_first : (q : Triqueue A) → (move_to_first q).buffer ≡ q.buffer
  unfolding move_to_first
  buffer-move_to_first q = ground arith

  buffer-move_to_second : (q : Triqueue A) → (move_to_second q).buffer ≡ q.buffer
  unfolding move_to_second
  buffer-move_to_second q = ground arith

  -- move_to_first moves the first event of an internal queue that is not empty to the end of the
  -- output queue, and changes no other place.
  pub move_to_first-Split :
      {cap : ℕ} {q : Triqueue A} (outs : List A) (x : A) (mids ins : List A)
      → Split cap q outs (x ∷ mids) ins
      → Split cap (move_to_first q) (outs ++ (x ∷ [])) mids ins
  unfolding move_to_first
  move_to_first-Split {q} outs x mids ins s = record {
    held = rw (buffer-move_to_first, append_assoc) s.held;
    output_end = ground (arith, length-append outs (x ∷ []), bounded outs (x ∷ mids) ins s);
    internal_end = ground (arith, length-append outs (x ∷ []), bounded outs (x ∷ mids) ins s);
    capacity = rw buffer-move_to_first s.capacity;
  }

  -- move_to_second moves the first event of an input queue that is not empty to the end of the
  -- internal queue, and changes no other place.
  pub move_to_second-Split :
      {cap : ℕ} {q : Triqueue A} (outs mids : List A) (x : A) (ins : List A)
      → Split cap q outs mids (x ∷ ins)
      → Split cap (move_to_second q) outs (mids ++ (x ∷ [])) ins
  unfolding move_to_second
  move_to_second-Split {q} outs mids x ins s = record {
    held = rw (buffer-move_to_second, append_assoc) s.held;
    output_end = ground (arith, third_empty-eq outs mids (x ∷ ins) s);
    internal_end = ground (
      arith,
      length-append mids (x ∷ []),
      bounded outs mids (x ∷ ins) s,
      third_empty-eq outs mids (x ∷ ins) s,
    );
    capacity = rw buffer-move_to_second s.capacity;
  }

  pub peek_third-eq :
      {cap : ℕ} {q : Triqueue A} (outs mids : List A) (x : A) (ins : List A)
      → Split cap q outs mids (x ∷ ins)
      → peek_third q ≡ some x
  unfolding peek_third
  peek_third-eq outs mids x ins s = rw s.internal_end (
      s.held.reads (length outs + length mids) (omega (arith, length-parts outs mids (x ∷ ins)))
      ∙ get_elem?-third outs mids x ins)

  pub peek_middle-eq :
      {cap : ℕ} {q : Triqueue A} (outs : List A) (x : A) (mids ins : List A)
      → Split cap q outs (x ∷ mids) ins
      → peek_middle q ≡ some x
  unfolding peek_middle
  peek_middle-eq outs x mids ins s = rw s.output_end (
      s.held.reads (length outs) (omega (arith, length-parts outs (x ∷ mids) ins))
      ∙ get_elem?-middle outs x (mids ++ ins))

  pub write_middle-Split :
      {cap : ℕ} {q : Triqueue A} (outs : List A) (x y : A) (mids ins : List A)
      → Split cap q outs (x ∷ mids) ins
      → Split cap (write_middle q y) outs (y ∷ mids) ins
  unfolding write_middle
  write_middle-Split {q = q} outs x y mids ins s = record {
    held =
        rw (s.output_end, ← set-middle outs y x (mids ++ ins))
          (write_at-Holds (length outs) y s.held (omega (arith, length-parts outs (x ∷ mids) ins)));
    output_end = s.output_end;
    internal_end = s.internal_end;
    capacity = array_size-write_at q.buffer _ y ∙ s.capacity;
  }

  pub write_third-Split :
      {cap : ℕ} {q : Triqueue A} (outs mids : List A) (x y : A) (ins : List A)
      → Split cap q outs mids (x ∷ ins)
      → Split cap (write_third q y) outs mids (y ∷ ins)
  unfolding write_third
  write_third-Split {q = q} outs mids x y ins s = record {
    held =
        rw (s.internal_end, ← set-third outs mids y x ins)
          (write_at-Holds (length outs + length mids) y s.held
            (omega (arith, length-parts outs mids (x ∷ ins))));
    output_end = s.output_end;
    internal_end = s.internal_end;
    capacity = array_size-write_at q.buffer _ y ∙ s.capacity;
  }

  -- pop returns the first event of an output queue that is not empty, removes it, and leaves the
  -- other two queues.
  pub pop-Split :
      {cap : ℕ} {q : Triqueue A} (x : A) (outs mids ins : List A)
      → Split cap q (x ∷ outs) mids ins
      → ((pop q).0 ≡ some x) × Split cap (pop q).1 outs mids ins
  unfolding pop
  pop-Split {q = q} x outs mids ins s = (
    front-Holds s.held,
    record {
      held = pop_front-Holds s.held;
      output_end = omega (arith, s.output_end, bounded (x ∷ outs) mids ins s);
      internal_end = omega (arith, s.internal_end, bounded (x ∷ outs) mids ins s);
      capacity = array_size-pop_front q.buffer ∙ s.capacity;
    },
  )

  pub head-eq :
      {cap : ℕ} {q : Triqueue A} (x : A) (outs mids ins : List A)
      → Split cap q (x ∷ outs) mids ins
      → head q ≡ some x
  unfolding head
  head-eq x outs mids ins s = front-Holds s.held

  -- `first` is a null pointer for the empty queue, and else refers to an event.
  pub first-cases :
      {cap : ℕ} {q : Triqueue A} (outs mids ins : List A)
      → Split cap q outs mids ins
      → (first q ≡ none) ⊎ ((x : A) × (first q ≡ some (some x)))
  unfolding first
  first-cases {q = q} outs mids ins s = held_first (outs ++ (mids ++ ins)) s.held
    where
      held_first :
          (xs : List A)
          → Holds q.buffer xs
          → (first q ≡ none) ⊎ ((x : A) × (first q ≡ some (some x)))
      held_first [] h = inl (ground (arith, h.sized))
      held_first (x ∷ xs) h = inr (x, ground (arith, h.sized, front-Holds h))
