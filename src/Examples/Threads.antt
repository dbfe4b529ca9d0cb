-- ===== src/Examples/Threads.antt =====
-- The theorems on interleaved threads at concrete inputs: two threads, each with an event of a key
-- that has no fork.
use fork_plugin.Prelude.{◌<◌, ◌≤◌, length, ◌≡◌, refl, true, false, List, [], ◌∷◌, ◌++◌, arith}
use mathlib.Core.List.{Perm}
use fork_plugin.Xorg.{InternalEvent}
use fork_plugin.Machine.{
  Machine, done, fault, no_fuel, forking_machine, key_forked, forkable_p, press_forkable,
  note_fork_release, note_release, release_active, pass_unforkable, apply_event_to_normal,
  apply_event_to_suspect, apply_event_to_verify_state, do_confirm_non_fork_by, activate_fork_rewind,
  change_state, start_verifying, transition_by_key, transition_by_time, transition_by_force,
  time_difference_more, rewind_machine, pass_along, record_last_release_event, activate_fork,
}
use fork_plugin.Machine.Run.{
  round, try_time, try_force, idle_round, automaton_loop, pop_event_if_present, flush_loop,
  push_if_set, push_time_to_next, flush_to_next, run_automaton, next_decision_time, enqueue_event,
  accept_event, accept_time, accept_confirmation,
}
use fork_plugin.Triqueue
use fork_plugin.Circular
use fork_plugin.Config
use fork_plugin.Machine.Run.{again, stop}
use fork_plugin.Machine.Arrive.{arriving}
use fork_plugin.Machine.Threads.{
  Pc, idle, flushing, Shared, System, Move, hand, new_system, call_confirmation, timing, starting,
  asking_locked, call_time, set_time, late, call_event, enqueue, take_lock, go_round, end_loop,
  hands, Reach, begin, pick, entering, IsExpected,
}
use fork_plugin.Machine.Threads.Effects.{machine_of}
use fork_plugin.Machine.Threads.Kept.{Kept, Reach-Perm, Reach-ordered}
use fork_plugin.Machine.Threads.Lock.{is_holding, needs_lock, is_stuck, count}
use fork_plugin.Machine.Threads.Late.{stuck-Move}
use fork_plugin.Machine.Threads.Progress.{IsBusy, CanMove, Reach-CanMove}
use fork_plugin.Machine.Threads.Overtaking.{overtakes}
use fork_plugin.Examples.{config, start, press}
use fork_plugin.Examples.Sessions.{recording, recording_law, tape}

abbrev S : Type 0
S = System recording config

-- The machine after a round of the loop.
abbrev after_round : Machine InternalEvent → Machine InternalEvent
after_round m = elim (round recording false [] m) [ done r ↦ machine_of r | _ ↦ m ]

abbrev queued_event : Machine InternalEvent → InternalEvent → Machine InternalEvent
queued_event m e = elim (enqueue_event recording m e) [ done r ↦ r.0 | fault ↦ m | no_fuel ↦ m ]

abbrev after_event : Machine InternalEvent → InternalEvent → Machine InternalEvent
after_event m e = after_round (queued_event m e)

abbrev one_decided : Machine InternalEvent
one_decided = after_event start (press 40 1000)

abbrev two_decided : Machine InternalEvent
two_decided = after_event one_decided (press 41 1010)

abbrev shared_of : Machine InternalEvent → Shared recording config
shared_of m = record { machine = m; world = []; locked = false }

abbrev both_flushing : S
both_flushing = record {
  shared = shared_of two_decided;
  threads = flushing false ∷ (flushing false ∷ []);
}

module _ (Ok : List InternalEvent → Type 0) where
  abbrev Reached : S → List InternalEvent → Type 0
  Reached s arrived = Reach recording config tape Ok s arrived

  -- A thread queues its event, takes the lock and runs the loop to its end.
  flush_event :
      (before after : List (Pc recording config)) (m queued n : Machine InternalEvent)
      (e : InternalEvent) (arrived : List InternalEvent)
      → ((pc : Pc recording config)
          → hand recording config pc ≡ []
          → Ok (hands recording config (before ++ (pc ∷ after))))
      → Reached (record { shared = shared_of m; threads = before ++ (idle ∷ after) }) arrived
      → IsExpected recording config m (entering e)
      → enqueue_event recording m e ≡ done (queued, true)
      → round recording false [] queued ≡ done (again n)
      → round recording false [] n ≡ done (stop n)
      → Reached
          (record { shared = shared_of n; threads = before ++ (flushing false ∷ after) })
          ((((((arrived ++ []) ++ arriving recording m e) ++ []) ++ []) ++ []))
  flush_event before after m queued n e arrived ok past room h go end =
      step _ _ _
        (step _ _ _
          (step _ _ _
            (step _ _ _ (step _ _ _ past tt (call_event e) (ok _ refl)) room
              (enqueue e refl queued h) (ok _ refl))
            tt (take_lock false refl) (ok _ refl))
          tt (go_round false n go) (ok _ refl))
        tt (end_loop false n end) (ok _ refl)
    where
      step :
          (pc pc' : Pc recording config) (arrived : List InternalEvent)
          {s t : Shared recording config} {new : List InternalEvent}
          → Reached (record { shared = s; threads = before ++ (pc ∷ after) }) arrived
          → IsExpected recording config s.machine pc
          → Move recording config s pc t pc' new
          → Ok (hands recording config (before ++ (pc' ∷ after)))
          → Reached (record { shared = t; threads = before ++ (pc' ∷ after) }) (arrived ++ new)
      step pc pc' arrived past o m fine = pick _ arrived before after pc pc' _ _ past refl o m fine

  -- Both threads do so in turn.
  both_flushing-Reach : Ok [] → Reached both_flushing (press 40 1000 ∷ (press 41 1010 ∷ []))
  unfolding key_forked forkable_p press_forkable note_fork_release note_release release_active
      pass_unforkable apply_event_to_normal apply_event_to_suspect apply_event_to_verify_state
      do_confirm_non_fork_by activate_fork_rewind change_state start_verifying transition_by_key
      transition_by_time transition_by_force time_difference_more rewind_machine pass_along
      record_last_release_event activate_fork round try_time try_force idle_round automaton_loop
      pop_event_if_present flush_loop push_if_set push_time_to_next flush_to_next run_automaton
      next_decision_time enqueue_event accept_event accept_time accept_confirmation forking_machine
      Triqueue.triqueue Triqueue.middle_empty Triqueue.third_empty Triqueue.rewind_middle
      Triqueue.push Triqueue.can_pop Triqueue.pop Triqueue.peek_third Triqueue.peek_middle
      Triqueue.head Triqueue.write_middle Triqueue.write_third Triqueue.move_to_first
      Triqueue.move_to_second Triqueue.first Circular.circular_buffer Circular.push_back
      Circular.pop_front Circular.front Circular.at_unchecked Circular.write_at
      Config.verification_interval_of Config.overlap_tolerance_of Config.verifier_decision_time
      Config.fork_configuration
  both_flushing-Reach nothing =
      flush_event (flushing false ∷ []) [] one_decided (queued_event one_decided (press 41 1010))
        two_decided (press 41 1010) (press 40 1000 ∷ []) (λ pc e. rw e nothing)
        (flush_event [] (idle ∷ []) start (queued_event start (press 40 1000)) one_decided
          (press 40 1000) [] (λ pc e. rw e nothing) (begin [] 2 refl)
          (omega arith, λ h. omega arith) refl refl refl)
        (omega arith, λ h. omega arith) refl refl refl

abbrev events : List InternalEvent
events = press 40 1000 ∷ (press 41 1010 ∷ [])

Reach-Perm_example : Kept recording config tape (λ hs. Unit) Perm both_flushing events
Reach-Perm_example =
    Reach-Perm recording config tape recording_law both_flushing events
      (both_flushing-Reach (λ hs. Unit) tt)

Reach-ordered_example :
    Kept recording config tape (λ hs. length hs ≤ 1) (λ xs ys. xs ≡ ys) both_flushing events
Reach-ordered_example =
    Reach-ordered recording config tape recording_law both_flushing events
      (both_flushing-Reach (λ hs. length hs ≤ 1) (omega arith))

overtakes_example :
    (t : S) × Reach recording config tape (λ hs. Unit) t events
    × (t.shared.world ≡ press 41 1010 ∷ (press 40 1000 ∷ []))
unfolding key_forked forkable_p press_forkable note_fork_release note_release release_active
    pass_unforkable apply_event_to_normal apply_event_to_suspect apply_event_to_verify_state
    do_confirm_non_fork_by activate_fork_rewind change_state start_verifying transition_by_key
    transition_by_time transition_by_force time_difference_more rewind_machine pass_along
    record_last_release_event activate_fork round try_time try_force idle_round automaton_loop
    pop_event_if_present flush_loop push_if_set push_time_to_next flush_to_next run_automaton
    next_decision_time enqueue_event accept_event accept_time accept_confirmation forking_machine
    Triqueue.triqueue Triqueue.middle_empty Triqueue.third_empty Triqueue.rewind_middle
    Triqueue.push Triqueue.can_pop Triqueue.pop Triqueue.peek_third Triqueue.peek_middle
    Triqueue.head Triqueue.write_middle Triqueue.write_third Triqueue.move_to_first
    Triqueue.move_to_second Triqueue.first Circular.circular_buffer Circular.push_back
    Circular.pop_front Circular.front Circular.at_unchecked Circular.write_at
    Config.verification_interval_of Config.overlap_tolerance_of Config.verifier_decision_time
    Config.fork_configuration
overtakes_example =
    overtakes recording config tape recording_law both_flushing events [] [] [] false false
      (press 40 1000) (press 41 1010) (both_flushing-Reach (λ hs. Unit) tt) refl refl refl
      (omega arith) refl refl

Reach-CanMove_example :
    (before after : List (Pc recording config)) × (pc : Pc recording config)
    × (both_flushing.threads ≡ before ++ (pc ∷ after))
    × IsBusy recording config two_decided pc
    × (false ≡ is_holding recording config pc)
    × CanMove recording config (shared_of two_decided) pc
Reach-CanMove_example =
    Reach-CanMove recording config recording_law tape both_flushing events [] (flushing false ∷ [])
      (flushing false) (both_flushing-Reach (λ hs. Unit) tt) refl refl tt

-- A time of 500 has been taken, and then a thread calls accept_time with 400.
abbrev at_500 : Shared recording config
at_500 = shared_of (record start { current_time = 500 })

abbrev blocked : S
blocked = record {
  shared = record at_500 { locked = true };
  threads = asking_locked ∷ (starting false ∷ (idle ∷ []));
}

blocked-Reach : Reach recording config tape (λ hs. Unit) blocked []
unfolding forking_machine
blocked-Reach =
    pick (record { shared = at_500; threads = timing 400 ∷ (starting false ∷ (idle ∷ [])) }) [] []
      (starting false ∷ (idle ∷ [])) (timing 400) asking_locked blocked.shared []
      (pick (record { shared = at_500; threads = idle ∷ (starting false ∷ (idle ∷ [])) }) [] []
        (starting false ∷ (idle ∷ [])) idle (timing 400) at_500 []
        (pick (record { shared = shared_of start; threads = idle ∷ (timing 500 ∷ (idle ∷ [])) }) []
          (idle ∷ []) (idle ∷ []) (timing 500) (starting false) at_500 []
          (pick (new_system recording config [] 3) [] (idle ∷ []) (idle ∷ []) idle (timing 500)
            (shared_of start) [] (begin [] 3 refl) refl tt (call_time 500) tt)
          refl tt (set_time 500 refl (omega arith)) tt)
        refl tt (call_time 400) tt)
      refl tt (late 400 refl (omega arith)) tt

-- The third thread may still call, and then waits for the lock as well.
stuck-Move_example :
    (needs_lock recording config idle ≡ false)
    × (blocked.shared.locked ≡ true)
    × (blocked.shared.machine ≡ blocked.shared.machine)
    × (0
        < count recording config
            (is_stuck recording config)
            (asking_locked ∷ (starting false ∷ (starting true ∷ []))))
stuck-Move_example =
    stuck-Move recording config tape (λ hs. Unit) blocked [] (asking_locked ∷ (starting false ∷ []))
      [] idle blocked.shared (starting true) [] blocked-Reach (omega arith) refl call_confirmation
