-- ===== src/Circular/Copies.antt =====
-- src/circular.h: copies and growth of whole buffers.
use mathlib.Core.List.{append_assoc, append-nil}
use fork_plugin.Prelude.{
  ℕ, ◌+◌, ◌*◌, ◌/◌, ◌≤◌, ◌<◌, ◌≡◌, refl, ap, ◌∙◌, Bool, Option, none, some, List, [], ◌∷◌, ◌++◌,
  map, arith, length, length-append, replicate, length-replicate, ltb, ltb→lt, ◌==◌, if◌then◌else◌,
  Bool-cases, inl, inr,
}
use fork_plugin.Circular.{
  Circular, circular_buffer, size_mod, capacity, push_back, push_all, clear, assign_into, elements,
  empty,
}
use fork_plugin.Circular.Valid.{IsValid}
use fork_plugin.Circular.Refine.{
  Holds, circular_buffer-Holds, push_back-Holds, array_size-push_back,
}
use fork_plugin.Circular.Assign.{
  clear-Holds, array_size-clear, push_all-Holds, assign_into-Holds, elements-eq,
}

module _ {A : Type 0} where
  -- The objects that are there among the slots that iterators refer to.
  abbrev pub present : List (Option A) → List A
  present [] = []
  present (none ∷ xs) = present xs
  present (some x ∷ xs) = x ∷ present xs

  -- The copy constructor: the positions and the count are those of the other buffer before
  -- assign_into clears them, over storage without objects.
  unfoldable pub copy : Bool → Circular A → Circular A
  unfolding assign_into elements
  copy always_accept other =
      assign_into always_accept (record other { array = replicate other.array_size none })
        (present (elements other))

  unfoldable pub reserve : Bool → Circular A → ℕ → Circular A
  unfolding assign_into elements circular_buffer
  reserve always_accept b new_size =
      if ltb (capacity b) new_size
      then assign_into always_accept (circular_buffer new_size) (present (elements b))
      else b

  -- The loop of assign_into_reserving; `array_size_ * 1.5` is truncated to an integer.
  unfoldable pub push_reserving : Bool → Circular A → List A → Circular A
  unfolding reserve push_back
  push_reserving always_accept b [] = b
  push_reserving always_accept b (x ∷ xs) =
      let room =
        if b.contents_size == b.array_size
        then reserve always_accept b (b.array_size * 3 / 2)
        else b in
      push_reserving always_accept (push_back always_accept room x) xs

  unfoldable pub assign_into_reserving : Bool → Circular A → List A → Circular A
  unfolding push_reserving clear
  assign_into_reserving always_accept b from =
      push_reserving always_accept (if empty b then b else clear b) from

  -- The constructor from a range: a buffer of the default capacity is filled and swapped in.
  unfoldable pub from_range : Bool → List A → Circular A
  unfolding assign_into_reserving circular_buffer
  from_range always_accept from = assign_into_reserving always_accept (circular_buffer 100) from

  present-some : (xs : List A) → present (map some xs) ≡ xs
  present-some [] = refl
  present-some (x ∷ xs) = ap (λ t. x ∷ t) (present-some xs)

  present-elements : {b : Circular A} {xs : List A} → Holds b xs → present (elements b) ≡ xs
  present-elements {b} {xs} h = ap present (elements-eq b xs h) ∙ present-some xs

  -- A valid buffer can be assigned any list that fits, whatever objects its slots have.
  assign_valid-Holds :
      (accept : Bool) {b : Circular A} (xs : List A)
      → IsValid b
      → (b.contents_size ≡ 0 → Holds b [])
      → length xs ≤ b.array_size
      → Holds (assign_into accept b xs) xs
  unfolding assign_into
  assign_valid-Holds accept {b} xs v none_yet room = elim (Bool-cases (b.contents_size == 0)) [
    | inl e ↦ rw e (push_all-Holds accept b [] xs (none_yet (ground arith)) (omega arith))
    | inr e ↦
        rw e (
          push_all-Holds accept (clear b) [] xs (clear-Holds v) (omega (arith, array_size-clear b)))
  ]

  array_size-push_all :
      (accept : Bool) (b : Circular A) (xs : List A)
      → (push_all accept b xs).array_size ≡ b.array_size
  unfolding push_all
  array_size-push_all accept b [] = refl
  array_size-push_all accept b (x ∷ xs) =
      array_size-push_all accept (push_back accept b x) xs ∙ array_size-push_back accept b x

  array_size-assign_into :
      (accept : Bool) (b : Circular A) (xs : List A)
      → (assign_into accept b xs).array_size ≡ b.array_size
  unfolding assign_into
  array_size-assign_into accept b xs = elim (Bool-cases (b.contents_size == 0)) [
    | inl e ↦ rw e (array_size-push_all accept b xs)
    | inr e ↦ rw e (array_size-push_all accept (clear b) xs ∙ array_size-clear b)
  ]

  -- A copy of a buffer holds the same list and has the same capacity.
  pub copy-Holds :
      (accept : Bool) {b : Circular A} (xs : List A)
      → Holds b xs
      → Holds (copy accept b) xs × ((copy accept b).array_size ≡ b.array_size)
  unfolding copy
  copy-Holds accept {b} xs h =
      let raw : Option A = none in
      let bare = record b { array = replicate b.array_size raw } in
      let v : IsValid bare = record {
        storage = length-replicate b.array_size raw;
        two = h.valid.two;
        small = h.valid.small;
        head_in = h.valid.head_in;
        tail_in = h.valid.tail_in;
        fits = h.valid.fits;
        joined = h.valid.joined;
      } in
      let none_yet : b.contents_size ≡ 0 → Holds bare [] =
        λ e. record { valid = v; sized = e; reads = λ i hi. absurd (omega arith) } in
      (
        rw (present-elements h) (
            assign_valid-Holds accept {b = bare} xs v none_yet
              (omega (arith, h.sized, h.valid.fits))),
        array_size-assign_into accept bare (present (elements b)),
      )

  -- Reserving keeps what a buffer holds, and gives it at least the capacity asked for.
  pub reserve-Holds :
      (accept : Bool) {b : Circular A} (n : ℕ) (xs : List A)
      → Holds b xs
      → n + n ≤ size_mod
      → Holds (reserve accept b n) xs × (n ≤ (reserve accept b n).array_size)
  unfolding reserve circular_buffer
  reserve-Holds accept {b} n xs h small = elim (Bool-cases (ltb b.array_size n)) [
    | inl more ↦
        let larger : b.array_size < n = ltb→lt b.array_size n more in
        rw (more, present-elements h)
          (
            assign_into-Holds accept xs (circular_buffer-Holds n (omega (arith, h.valid.two)) small)
                (omega (arith, h.sized, h.valid.fits)),
            omega (arith, array_size-assign_into accept (circular_buffer n) xs),
          )
    | inr enough ↦ rw enough (h, ground arith)
  ]

  push_reserving-Holds :
      (accept : Bool) (b : Circular A) (ys xs : List A)
      → Holds b ys
      → 3 * (length ys + length xs) ≤ size_mod
      → Holds (push_reserving accept b xs) (ys ++ xs)
  unfolding push_reserving
  push_reserving-Holds accept b ys [] h small = rw append-nil h
  push_reserving-Holds accept b ys (x ∷ xs) h small =
      let grown =
        if b.contents_size == b.array_size then reserve accept b (b.array_size * 3 / 2) else b in
      let (held, room) : Holds grown ys × (length ys < grown.array_size) =
        elim (Bool-cases (b.contents_size == b.array_size)) [
          | inl full ↦
              let e : b.contents_size ≡ b.array_size = ground (arith, full) in
              let (held, room) =
                reserve-Holds accept (b.array_size * 3 / 2) ys h (omega (arith, e, h.sized)) in
              rw full (held, omega (arith, e, h.sized, h.valid.two))
          | inr free ↦ rw free (h, ground (arith, free, h.sized, h.valid.fits))
        ] in
      rw append_assoc at (
        push_reserving-Holds accept (push_back accept grown x) (ys ++ (x ∷ [])) xs
          (push_back-Holds accept x held (omega (arith, held.sized)))
          (omega (arith, length-append ys (x ∷ []))))

  -- A buffer that is made from a range, of at most a third of the values of size_type, holds exactly
  -- the range, in order, however often it has to grow.
  pub from_range-Holds :
      (accept : Bool) (xs : List A) → 3 * length xs ≤ size_mod → Holds (from_range accept xs) xs
  unfolding from_range assign_into_reserving circular_buffer
  from_range-Holds accept xs small =
      push_reserving-Holds accept (circular_buffer 100) [] xs
        (circular_buffer-Holds 100 (omega arith) (omega arith)) (omega arith)
