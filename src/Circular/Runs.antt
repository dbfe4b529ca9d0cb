-- ===== src/Circular/Runs.antt =====
-- src/circular.h: sequences of the buffer's methods, against one list.
use mathlib.Core.Path.{subst}
use fork_plugin.Prelude.{
  ℕ, ◌+◌, ◌-◌, ◌≤◌, ◌<◌, ◌≡◌, refl, ap, ◌∙◌, Bool, true, Option, none, some, List, [], ◌∷◌, ◌++◌,
  arith, length, set, get_elem?, ltb, if◌then◌else◌, Bool-cases, inl, inr, ltb→lt,
}
use fork_plugin.Circular.{
  Circular, Access, value, out_of_range, circular_buffer, size, size_mod, push_back, pop_front,
  clear, write_at, front, back, at_unchecked, at_checked, index_to_subscript, load,
}
use fork_plugin.Circular.Valid.{mod-eq-turn}
use fork_plugin.Circular.Refine.{
  Holds, circular_buffer-Holds, push_back-Holds, pop_front-Holds, write_at-Holds, front-Holds,
  array_size-push_back, array_size-pop_front, array_size-write_at,
}
use fork_plugin.Circular.Full.{push_back_full-Holds}
use fork_plugin.Circular.Assign.{clear-Holds, array_size-clear}

-- The methods, each with what it is called with; call_write is an assignment to `b[i]`.
pub data Method (A : Type 0) : Type 0 where
  call_push_back : A → Method A
  call_pop_front call_clear : Method A
  call_write : ℕ → A → Method A
  call_front call_back : Method A
  call_index call_at : ℕ → Method A
  call_size : Method A

pub data Answer (A : Type 0) : Type 0 where
  nothing : Answer A
  object : Option A → Answer A
  checked : Access A → Answer A
  number : ℕ → Answer A

module _ {A : Type 0} (always_accept : Bool) where
  unfoldable pub call : Method A → Circular A → Answer A × Circular A
  call (call_push_back x) b = (nothing, push_back always_accept b x)
  call call_pop_front b = (nothing, pop_front b)
  call call_clear b = (nothing, clear b)
  call (call_write i x) b = (object (at_unchecked b i), write_at b i x)
  call call_front b = (object (front b), b)
  call call_back b = (object (back b), b)
  call (call_index i) b = (object (at_unchecked b i), b)
  call (call_at i) b = (checked (at_checked b i), b)
  call call_size b = (number (size b), b)

  unfoldable pub call_all : List (Method A) → Circular A → List (Answer A) × Circular A
  unfolding call
  call_all [] b = ([], b)
  call_all (o ∷ os) b = let (x, r) = call o b in let (xs, s) = call_all os r in (x ∷ xs, s)

  -- The list without its first element, with the element appended.
  abbrev pub shifted : A → List A → Option (Answer A × List A)
  shifted x [] = none
  shifted x (y ∷ ys) = some (nothing, ys ++ (x ∷ []))

  -- The same on a list, for a buffer of the given capacity. A push onto a full buffer drops the first
  -- element under the policy that accepts it, and is not specified under the other; nor is a method
  -- that refers to an element that is not there. `at` answers at every index.
  abbrev pub specified : ℕ → Method A → List A → Option (Answer A × List A)
  specified cap (call_push_back x) xs =
      if ltb (length xs) cap
      then some (nothing, xs ++ (x ∷ []))
      else if always_accept
      then shifted x xs
      else none
  specified cap call_pop_front xs = elim xs [ [] ↦ none | y ∷ ys ↦ some (nothing, ys) ]
  specified cap call_clear xs = some (nothing, [])
  specified cap (call_write i x) xs =
      if ltb i (length xs) then some (object (get_elem? xs i), set xs i x) else none
  specified cap call_front xs = elim xs [ [] ↦ none | y ∷ ys ↦ some (object (some y), y ∷ ys) ]
  specified cap call_back xs = elim xs [
    | [] ↦ none
    | y ∷ ys ↦ some (object (get_elem? (y ∷ ys) (length (y ∷ ys) - 1)), y ∷ ys)
  ]
  specified cap (call_index i) xs =
      if ltb i (length xs) then some (object (get_elem? xs i), xs) else none
  specified cap (call_at i) xs =
      some (checked (if ltb i (length xs) then value (get_elem? xs i) else out_of_range), xs)
  specified cap call_size xs = some (number (length xs), xs)

  -- A run that the list allows, with what it returns.
  pub data Allowed (cap : ℕ) : List (Method A) → List A → List (Answer A) → List A → Type 0 where
    stop : (xs : List A) → Allowed cap [] xs [] xs
    step :
        (o : Method A) (os : List (Method A)) (xs ys zs : List A) (a : Answer A)
        → (answers : List (Answer A)) → specified cap o xs ≡ some (a, ys)
        → Allowed cap os ys answers zs
        → Allowed cap (o ∷ os) xs (a ∷ answers) zs

  -- What a method does to the buffer, beside an answer and a list.
  abbrev Agrees : ℕ → Answer A × Circular A → Answer A × List A → Type 0
  Agrees cap r v = (r.0 ≡ v.0) × Holds r.1 v.1 × (r.1.array_size ≡ cap)

  Agrees-some :
      {cap : ℕ} (r : Answer A × Circular A) (v u : Answer A × List A)
      → Agrees cap r v
      → some v ≡ some u
      → Agrees cap r u
  Agrees-some {cap} r v u h e = let same : v ≡ u = cc in subst (Agrees cap r) same h

  back-eq :
      {b : Circular A} {xs : List A}
      → Holds b xs
      → 0 < length xs
      → back b ≡ get_elem? xs (length xs - 1)
  unfolding back at_unchecked
  back-eq {b} {xs} h some_left =
      let v = h.valid in
      let e : b.tail ≡ index_to_subscript b (length xs - 1) =
        ground (arith, h.sized, mod-eq-turn b.array_size (length xs - 1 + b.head)) in
      ap (λ i. load b i) e ∙ h.reads (length xs - 1) (omega arith)

  at_checked-eq :
      {b : Circular A} {xs : List A} (i : ℕ)
      → Holds b xs
      → at_checked b i ≡ (if ltb i (length xs) then value (get_elem? xs i) else out_of_range)
  unfolding at_checked
  at_checked-eq {b} {xs} i h = ground (arith, h.sized, h.reads i)

  push_back-Agrees :
      {cap : ℕ} (x : A) (b : Circular A) (xs : List A) (u : Answer A × List A)
      → Holds b xs
      → b.array_size ≡ cap
      → specified cap (call_push_back x) xs ≡ some u
      → Agrees cap (nothing, push_back always_accept b x) u
  push_back-Agrees {cap} x b xs u h e spec = elim (Bool-cases (ltb (length xs) cap)) [
    | inl room ↦
        Agrees-some _ (nothing, xs ++ (x ∷ [])) u
          (
            refl,
            push_back-Holds always_accept x h (ground (arith, e)),
            array_size-push_back always_accept b x ∙ e,
          )
          (rw room at spec)
    | inr full ↦ elim (Bool-cases always_accept) [
      | inl accept ↦
          push_full xs h accept (rw (full, accept) at spec)
            (ground (arith, e, h.sized, h.valid.fits))
      | inr refuse ↦ absurd (let k = rw (full, refuse) at spec in cc)
    ]
  ]
    where
      push_full :
          (ys : List A)
          → Holds b ys
          → always_accept ≡ true
          → shifted x ys ≡ some u
          → length ys ≡ b.array_size
          → Agrees cap (nothing, push_back always_accept b x) u
      push_full [] k accept spec full = absurd (cc)
      push_full (y ∷ ys) k accept spec full =
          Agrees-some _ (nothing, ys ++ (x ∷ [])) u
            (
              refl,
              rw accept (push_back_full-Holds x k full),
              array_size-push_back always_accept b x ∙ e,
            )
            spec

  call-Agrees :
      {cap : ℕ} (o : Method A) (b : Circular A) (xs : List A) (u : Answer A × List A)
      → Holds b xs
      → b.array_size ≡ cap
      → specified cap o xs ≡ some u
      → Agrees cap (call o b) u
  unfolding call
  call-Agrees (call_push_back x) b xs u h e spec = push_back-Agrees x b xs u h e spec
  call-Agrees call_pop_front b [] u h e spec = absurd (cc)
  call-Agrees call_pop_front b (y ∷ ys) u h e spec =
      Agrees-some _ _ u (refl, pop_front-Holds h, array_size-pop_front b ∙ e) spec
  call-Agrees call_clear b xs u h e spec =
      Agrees-some _ _ u (refl, clear-Holds h.valid, array_size-clear b ∙ e) spec
  call-Agrees (call_write i x) b xs u h e spec = elim (Bool-cases (ltb i (length xs))) [
    | inl l ↦
        Agrees-some _ (object (get_elem? xs i), set xs i x) u
          (
            ap object (h.reads i (ltb→lt i (length xs) l)),
            write_at-Holds i x h (ltb→lt i (length xs) l),
            array_size-write_at b i x ∙ e,
          )
          (rw l at spec)
    | inr n ↦ absurd (ground (arith, spec))
  ]
  call-Agrees call_front b [] u h e spec = absurd (cc)
  call-Agrees call_front b (y ∷ ys) u h e spec =
      Agrees-some _ _ u (ap object (front-Holds h), h, e) spec
  call-Agrees call_back b [] u h e spec = absurd (cc)
  call-Agrees call_back b (y ∷ ys) u h e spec =
      Agrees-some _ _ u (ap object (back-eq h (omega arith)), h, e) spec
  call-Agrees (call_index i) b xs u h e spec = elim (Bool-cases (ltb i (length xs))) [
    | inl l ↦
        Agrees-some _ (object (get_elem? xs i), xs) u
          (ap object (h.reads i (ltb→lt i (length xs) l)), h, e) (rw l at spec)
    | inr n ↦ absurd (ground (arith, spec))
  ]
  call-Agrees (call_at i) b xs u h e spec =
      Agrees-some _ _ u (ap checked (at_checked-eq i h), h, e) spec
  call-Agrees call_size b xs u h e spec = Agrees-some _ _ u (ap number h.sized, h, e) spec

  call_all-agrees :
      {cap : ℕ} (os : List (Method A)) (b : Circular A) (xs zs : List A) (answers : List (Answer A))
      → Holds b xs
      → b.array_size ≡ cap
      → Allowed cap os xs answers zs
      → ((call_all os b).0 ≡ answers) × Holds (call_all os b).1 zs
  unfolding call_all
  call_all-agrees [] b xs zs answers h e (stop v) = (refl, h)
  call_all-agrees (o ∷ os) b xs zs answers h e (step o1 os1 xs1 ys zs1 a answers1 spec rest) =
      let first = call-Agrees o b xs (a, ys) h e spec in
      let others = call_all-agrees os (call o b).1 ys zs answers1 first.1 first.2 rest in
      (ap (λ y. y ∷ (call_all os (call o b).1).0) first.0 ∙ ap (λ ys. a ∷ ys) others.0, others.1)

  -- A new buffer whose capacity is at least two, and twice it still a value of size_type, implements
  -- a list of at most that length: a sequence of the methods that the list allows returns what the
  -- list returns, and leaves the buffer holding what the list has. Under the policy that accepts data
  -- when full, a push onto a full buffer drops the first element.
  pub call_all-Allowed :
      (cap : ℕ) (os : List (Method A)) (zs : List A) (answers : List (Answer A))
      → 2 ≤ cap
      → cap + cap ≤ size_mod
      → Allowed cap os [] answers zs
      → ((call_all os (circular_buffer cap)).0 ≡ answers)
        × Holds (call_all os (circular_buffer cap)).1 zs
  unfolding circular_buffer
  call_all-Allowed cap os zs answers two small run =
      call_all-agrees os (circular_buffer cap) [] zs answers (circular_buffer-Holds cap two small)
        refl run
