-- ===== src/Examples/Queues.antt =====
-- The theorems on the buffer, the queues and the configuration, at concrete inputs.
use fork_plugin.Prelude.{
  ℕ, suc, ◌≡◌, ◌↔◌, replicate, not, ◌==◌, ==_iff, refl, true, false, Option, none, some, List, [],
  ◌∷◌, ◌++◌, arith,
}
use fork_plugin.Circular.{Circular, circular_buffer, push_back, pop_front, at_unchecked}
use fork_plugin.Circular.Refine.{Holds, circular_buffer-Holds, push_back-Holds, pop_front-Holds}
use fork_plugin.Circular.Full.{push_back_full-overcounts}
use fork_plugin.Circular.Compare.{equal, unequal, equal_iff}
use fork_plugin.Triqueue.{triqueue}
use fork_plugin.Triqueue.Refine.{Split}
use fork_plugin.Triqueue.Runs.{
  Operation, call_push, call_pop, call_move_to_first, call_move_to_second, call_rewind_middle,
  call_write_middle, operate_all, stop, step, operate_all-Specified,
}

abbrev pub pair : Circular ℕ
pair = push_back false (push_back false (circular_buffer 2) 5) 6

pub pair-Holds : Holds pair (5 ∷ 6 ∷ [])
pair-Holds =
    push_back-Holds false 6
      (push_back-Holds false 5 (circular_buffer-Holds 2 (omega arith) (omega arith))
        (unfold circular_buffer in omega arith))
      (unfold circular_buffer push_back in omega arith)

pair-full : pair.contents_size ≡ pair.array_size
unfolding circular_buffer push_back
pair-full = refl

push_back_full-overcounts_example :
    ((push_back false pair 7).contents_size ≡ suc (push_back false pair 7).array_size)
    × ((push_back false pair 7).array ≡ pair.array)
    × ((push_back false pair 7).tail ≡ (push_back false pair 7).head)
    × (at_unchecked (push_back false pair 7) pair.contents_size ≡ at_unchecked pair 0)
push_back_full-overcounts_example = push_back_full-overcounts pair 7 pair-Holds.valid pair-full

-- More elements than the default capacity.
abbrev many : List ℕ
many = replicate 130 5

-- The same list in another place of the storage.
abbrev pub turned : Circular ℕ
turned = push_back false (pop_front (push_back false (push_back false (circular_buffer 2) 4) 5)) 6

pub turned-Holds : Holds turned (5 ∷ 6 ∷ [])
unfolding circular_buffer push_back pop_front
turned-Holds =
    push_back-Holds false 6
      (pop_front-Holds (
        push_back-Holds false 5
          (push_back-Holds false 4 (circular_buffer-Holds 2 (omega arith) (omega arith))
            (omega arith))
          (omega arith)))
      (omega arith)

equal_iff_example :
    ((equal (λ x y. x == y) pair turned ≡ true) ↔ (◌≡◌ {A = List ℕ} (5 ∷ 6 ∷ []) (5 ∷ 6 ∷ [])))
    × (unequal (λ x y. x == y) pair turned ≡ not (equal (λ x y. x == y) pair turned))
equal_iff_example =
    equal_iff (λ x y. x == y) ==_iff (5 ∷ 6 ∷ []) (5 ∷ 6 ∷ []) pair-Holds turned-Holds

-- Two events pass through the queues, the second one rewritten in the internal queue.
abbrev pushes : List (Operation ℕ)
pushes = call_push 5 ∷ call_push 6 ∷ call_move_to_second ∷ call_move_to_first ∷ []

abbrev calls : List (Operation ℕ)
calls = pushes ++ (call_move_to_second ∷ call_write_middle 8 ∷ call_rewind_middle ∷ call_pop ∷ [])

abbrev returned : List (Option ℕ)
returned = none ∷ none ∷ some 5 ∷ some 5 ∷ some 6 ∷ some 6 ∷ none ∷ some 5 ∷ []

operate_all-Specified_example :
    ((operate_all calls (triqueue 9)).0 ≡ returned)
    × Split 9 (operate_all calls (triqueue 9)).1 [] [] (8 ∷ [])
operate_all-Specified_example =
    operate_all-Specified 9 calls (record { outs = []; mids = []; ins = 8 ∷ [] }) returned
      (omega arith) (omega arith)
      (step _ _ _ _ _ _ _ refl (
        step _ _ _ _ _ _ _ refl (
          step _ _ _ _ _ _ _ refl (
            step _ _ _ _ _ _ _ refl (
              step _ _ _ _ _ _ _ refl (
                step _ _ _ _ _ _ _ refl
                  (step _ _ _ _ _ _ _ refl (step _ _ _ _ _ _ _ refl (stop _)))))))))
