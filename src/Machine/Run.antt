-- ===== src/Machine/Run.antt =====
-- src/machine.h: the loops of the machine and its public operations. A loop takes fuel.
use fork_plugin.Prelude.{
  ℕ, zero, suc, Bool, true, false, ◌&&◌, not, Option, none, some, ltb, ◌!=◌, if◌then◌else◌,
}
use fork_plugin.Platform.{Platform}
use fork_plugin.Triqueue.{third_empty, peek_third, can_pop, head, pop, push, first}
use fork_plugin.Machine.{
  Machine, Outcome, done, fault, no_fuel, ◌>>=◌, is_normal, key_forked, transition_by_key,
  transition_by_time, transition_by_force,
}

-- What one round of the loop of run_automaton does: go on, or leave the loop.
pub data Round (A : Type 0) : Type 0 where
  again : A → Round A
  stop : A → Round A

module _ (p : Platform) where
  open p use {
    Event, World, press_p, time_of, detail_of, output_frozen, relay_event, push_time, max_keycode,
  }

  -- Whether the last time received decides, in a state that waits for a decision.
  unfoldable pub try_time : Machine Event → Outcome (Machine Event × Bool)
  try_time m =
      if not (is_normal m.state) && m.current_time != 0
      then transition_by_time p m m.current_time
      else done (m, false)

  -- The force, or the end of the loop.
  unfoldable pub try_force : Bool → Machine Event → Outcome (Round (Machine Event))
  try_force force_also m =
      if force_also && not (is_normal m.state)
      then (transition_by_force p m >>= λ n. done (again n))
      else done (stop m)

  -- A round with an empty input queue.
  unfoldable pub idle_round : Bool → Machine Event → Outcome (Round (Machine Event))
  idle_round force_also m =
      try_time m >>= λ r. if r.1 then done (again r.0) else try_force force_also r.0

  unfoldable pub round : Bool → World → Machine Event → Outcome (Round (Machine Event))
  round force_also w m =
      if output_frozen w
      then done (stop m)
      else if not (third_empty m.tq)
      then elim (peek_third m.tq) [
        | none ↦ fault
        | some event ↦ (transition_by_key p w m event >>= λ n. done (again n))
      ]
      else idle_round force_also m

  unfoldable pub automaton_loop : ℕ → Bool → World → Machine Event → Outcome (Machine Event)
  automaton_loop zero force_also w m = no_fuel
  automaton_loop (suc fuel) force_also w m = elim (round force_also w m) [
    | done (again n) ↦ automaton_loop fuel force_also w n
    | done (stop n) ↦ done n
    | fault ↦ fault
    | no_fuel ↦ no_fuel
  ]

  unfoldable pub pop_event_if_present : Machine Event → Option (Option Event) × Machine Event
  pop_event_if_present m =
      if can_pop m.tq then (some (head m.tq), record m { tq = (pop m.tq).1 }) else (none, m)

  -- The loop of flush_to_next.
  unfoldable pub flush_loop : ℕ → Machine Event → World → Outcome (Machine Event × World)
  flush_loop zero m w = no_fuel
  flush_loop (suc fuel) m w = elim (output_frozen w) [
    | true ↦ done (m, w)
    | false ↦ elim (pop_event_if_present m).0 [
      | none ↦ done (m, w)
      | some none ↦ fault
      | some (some event) ↦ flush_loop fuel (pop_event_if_present m).1 (relay_event event w)
    ]
  ]

  -- `if (now) environment->push_time(now)`
  unfoldable pub push_if_set : ℕ → World → World
  push_if_set now w = if now != 0 then push_time now w else w

  unfoldable pub push_time_to_next : Machine Event → World → Outcome (Machine Event × World)
  push_time_to_next m w = elim (first m.tq) [
    | none ↦ done (m, push_if_set m.current_time w)
    | some none ↦ fault
    | some (some item) ↦ done (record m { current_time = 0 }, push_if_set (time_of item) w)
  ]

  unfoldable pub flush_to_next : ℕ → Machine Event → World → Outcome (Machine Event × World)
  flush_to_next fuel m w = flush_loop fuel m w >>= λ r.
      if not (output_frozen r.1) then push_time_to_next r.0 r.1 else done r

  unfoldable pub run_automaton : ℕ → Bool → Machine Event → World → Outcome (Machine Event × World)
  run_automaton fuel force_also m w =
      automaton_loop fuel force_also w m >>= λ n. flush_to_next fuel n w

  unfoldable pub next_decision_time : Machine Event → ℕ
  next_decision_time m = if is_normal m.state then 0 else m.decision_time

  -- The part of accept_event under the lock; `false` is the early return of 0. The guard lets the key
  -- code MAX_KEYCODE pass, and for a press key_forked then reads beyond the end of forkActive.
  unfoldable pub enqueue_event : Machine Event → Event → Outcome (Machine Event × Bool)
  unfolding key_forked
  enqueue_event m pevent =
      let key = detail_of pevent in
      let n = record m { current_time = 0 } in
      if ltb max_keycode key
      then done (n, false)
      else if press_p pevent && not (ltb key max_keycode)
      then fault
      else if press_p pevent && key_forked p n key
      then done (n, true)
      else done (record n { tq = push n.tq pevent }, true)

  unfoldable pub accept_event :
      ℕ → Machine Event → World → Event → Outcome (ℕ × Machine Event × World)
  accept_event fuel m w pevent = enqueue_event m pevent >>= λ (n, accepted).
      if accepted
      then (run_automaton fuel false n w >>= λ r. done (next_decision_time r.0, r.0, r.1))
      else done (0, n, w)

  -- As in a build without a lock, where a time that goes backwards returns at once; Threads has the
  -- other builds.
  unfoldable pub accept_time : ℕ → Machine Event → World → ℕ → Outcome (ℕ × Machine Event × World)
  accept_time fuel m w now =
      if ltb now m.current_time
      then done (next_decision_time m, m, w)
      else (run_automaton fuel false (record m { current_time = now }) w >>= λ r.
          done (next_decision_time r.0, r.0, r.1))

  unfoldable pub accept_confirmation : ℕ → Machine Event → World → Outcome (Machine Event × World)
  accept_confirmation fuel m w = run_automaton fuel true m w
