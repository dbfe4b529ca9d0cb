-- ===== src/Examples/Buffers.antt =====
-- The theorems on whole runs of a buffer, its iterators and its order, at concrete inputs.
use fork_plugin.Prelude.{ℕ, ◌≡◌, ◌↔◌, refl, true, some, List, [], ◌∷◌, arith, ltb}
use fork_plugin.Circular.{circular_buffer, out_of_range}
use fork_plugin.Circular.Refine.{Holds}
use fork_plugin.Circular.Runs.{
  Method, Answer, call_push_back, call_pop_front, call_write, call_back, call_at, call_size,
  nothing, object, checked, number, call_all, stop, step, call_all-Allowed,
}
use fork_plugin.Circular.Iterators.{walk, begin, end, walk-Holds}
use fork_plugin.Circular.Less.{less, Precedes, less_iff}
use fork_plugin.Examples.Queues.{pair, pair-Holds, turned, turned-Holds}

-- A buffer of two slots that accepts data when full.
abbrev calls : List (Method ℕ)
calls =
    call_push_back 4
    ∷ call_push_back 5
    ∷ call_push_back 6
    ∷ call_back
    ∷ call_write 0 9
    ∷ call_at 2
    ∷ call_pop_front
    ∷ call_size
    ∷ []

abbrev returned : List (Answer ℕ)
returned =
    nothing
    ∷ nothing
    ∷ nothing
    ∷ object (some 6)
    ∷ object (some 5)
    ∷ checked out_of_range
    ∷ nothing
    ∷ number 1
    ∷ []

call_all-Allowed_example :
    ((call_all true calls (circular_buffer 2)).0 ≡ returned)
    × Holds (call_all true calls (circular_buffer 2)).1 (6 ∷ [])
call_all-Allowed_example =
    call_all-Allowed true 2 calls (6 ∷ []) returned (omega arith) (omega arith) (
      step _ _ _ _ _ _ _ refl (
        step _ _ _ _ _ _ _ refl (
          step _ _ _ _ _ _ _ refl (
            step _ _ _ _ _ _ _ refl (
              step _ _ _ _ _ _ _ refl (
                step _ _ _ _ _ _ _ refl
                  (step _ _ _ _ _ _ _ refl (step _ _ _ _ _ _ _ refl (stop _)))))))))

walk-Holds_example : walk 9 pair (begin 0 pair) (end 0 pair) ≡ some (some 5 ∷ some 6 ∷ [])
walk-Holds_example = walk-Holds 9 0 (5 ∷ 6 ∷ []) pair-Holds (omega arith)

less_iff_example : (less ltb pair turned ≡ true) ↔ Precedes ltb (5 ∷ 6 ∷ []) (5 ∷ 6 ∷ [])
less_iff_example =
    less_iff ltb (λ x. ground arith) (λ x y h. ground arith) (λ x y h k. ground arith) (5 ∷ 6 ∷ [])
      (5 ∷ 6 ∷ []) pair-Holds turned-Holds
