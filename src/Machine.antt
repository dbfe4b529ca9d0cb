-- ===== src/Machine.antt =====
-- src/machine.h: the class forkingMachine, its state and its decisions about one event.
-- Log output is left out; an `assert` that fails and a read of a missing object are faults.
pub mod Run
pub mod Codes
pub mod Moves
pub mod Progress
pub mod Verdict
pub mod Normal
pub mod Rounds
pub mod Loop
pub mod Flush
pub mod Arrive
pub mod Accept
pub mod Traces
pub mod Session
pub mod History
pub mod Stall
pub mod Threads
pub mod Configure
use fork_plugin.Prelude.Int.{ℤ, pos}
use fork_plugin.Prelude.{
  ℕ, zero, suc, ◌+◌, ◌%◌, Bool, true, false, ◌&&◌, ◌||◌, not, Option, none, some, ltb, leb, ◌==◌,
  ◌!=◌, if◌then◌else◌, update,
}
use fork_plugin.Platform.{Platform}
use fork_plugin.Config.{
  ForkConfiguration, keycode_unused, verification_interval_of, verifier_decision_time,
}
use fork_plugin.Triqueue.{
  Triqueue, triqueue, middle_empty, third_empty, rewind_middle, peek_middle, write_middle,
  write_third, move_to_first, move_to_second,
}

-- `no_fuel` is a loop that has not ended within the rounds that the model gives it.
pub data Outcome (A : Type 0) : Type 0 where
  done : A → Outcome A
  fault : Outcome A
  no_fuel : Outcome A

infixl 5 ◌>>=◌
abbrev pub ◌>>=◌ : {A B : Type 0} → Outcome A → (A → Outcome B) → Outcome B
done a >>= f = f a
fault >>= f = fault
no_fuel >>= f = no_fuel

-- `fork_state_t`
pub data ForkState : Type 0 where
  st_normal st_suspect st_verify : ForkState

-- `fork_reason_t`, which the code only logs
pub data ForkReason : Type 0 where
  reason_long reason_overlap reason_force reason_short reason_wrong : ForkReason

abbrev pub is_normal : ForkState → Bool
is_normal st_normal = true
is_normal _ = false

abbrev pub is_suspect : ForkState → Bool
is_suspect st_suspect = true
is_suspect _ = false

abbrev pub no_key : ℕ
no_key = keycode_unused

-- fork_active is the array forkActive, which has MAX_KEYCODE entries. The operations that index it, or
-- a table of the configuration, by the key code of an event fault where that code is beyond the end.
pub record Machine (Event : Type 0) : Type 0 where
  pub state : ForkState
  pub suspect : ℕ
  pub suspect_time : ℕ
  pub verificator_keycode : ℕ
  pub verificator_time : ℕ
  pub last_released : ℕ
  pub last_released_time : ℕ
  pub decision_time : ℕ
  pub current_time : ℕ
  pub tq : Triqueue Event
  pub max_last : ℤ
  pub fork_active : ℕ → ℕ
  pub config : ForkConfiguration

-- The constructor, over the configuration that create_configs makes. The members suspect_time and
-- verificator_time start at 0.
unfoldable pub forking_machine : (Event : Type 0) → ForkConfiguration → Machine Event
forking_machine Event config = record {
  state = st_normal;
  suspect = 0;
  suspect_time = 0;
  verificator_keycode = 0;
  verificator_time = 0;
  last_released = keycode_unused;
  last_released_time = 0;
  decision_time = 0;
  current_time = 0;
  tq = triqueue 100;
  max_last = pos 10;
  fork_active = λ key. keycode_unused;
  config = config;
}

module _ (p : Platform) where
  open p use {
    Event, World, press_p, release_p, time_of, detail_of, rewrite_event, ignore_event, time_mod,
    max_keycode, verification_matrix,
  }

  -- `past + limit_difference` is of type Time
  unfoldable pub time_difference_more : ℕ → ℕ → ℕ → Bool
  time_difference_more now past limit_difference = ltb ((past + limit_difference) % time_mod) now

  unfoldable pub forkable_p : Machine Event → ℕ → Bool
  forkable_p m code = m.config.fork_keycode code != no_key

  unfoldable pub key_forked : Machine Event → ℕ → Bool
  key_forked m code = m.fork_active code != code && m.fork_active code != keycode_unused

  unfoldable pub change_state : Machine Event → ForkState → Machine Event
  change_state m new_state = record m { state = new_state }

  unfoldable pub rewind_machine : Machine Event → Machine Event
  unfolding change_state
  rewind_machine m =
      let n = change_state m st_normal in
      record n {
        suspect = no_key;
        decision_time = 0;
        verificator_keycode = no_key;
        tq = rewind_middle n.tq;
      }

  unfoldable pub do_confirm_non_fork_by : ForkReason → Machine Event → Outcome (Machine Event)
  unfolding rewind_machine
  do_confirm_non_fork_by reason m =
      if is_normal m.state
      then fault
      else done (rewind_machine (record m { tq = move_to_first m.tq }))

  -- With an event in the middle: the key that it names becomes active as its fork.
  unfoldable pub activate_fork : Machine Event → Event → Machine Event
  unfolding rewind_machine
  activate_fork m pevent =
      let original_key = detail_of pevent in
      let code = m.config.fork_keycode original_key in
      rewind_machine (record m {
        fork_active = update m.fork_active original_key code;
        tq = move_to_first (write_middle m.tq (rewrite_event pevent code));
      })

  unfoldable pub activate_fork_rewind : ForkReason → Machine Event → Outcome (Machine Event)
  unfolding activate_fork
  activate_fork_rewind fork_reason m =
      if middle_empty m.tq then done m else elim (peek_middle m.tq) [
        | none ↦ fault
        | some pevent ↦
            (if ltb (detail_of pevent) max_keycode then done (activate_fork m pevent) else fault)
      ]

  unfoldable pub record_last_release_event : Machine Event → Event → Machine Event
  record_last_release_event m pevent = record m {
    last_released = detail_of pevent;
    last_released_time = time_of pevent;
  }

  -- `tq.move_to_second(); tq.move_to_first();`
  unfoldable pub pass_along : Machine Event → Machine Event
  pass_along m = record m { tq = move_to_first (move_to_second m.tq) }

  -- The branch of a forkable key that is pressed.
  unfoldable pub press_forkable : Machine Event → Event → Outcome (Machine Event)
  unfolding key_forked time_difference_more change_state pass_along
  press_forkable m pevent =
      let key = detail_of pevent in
      let simulated_time = time_of pevent in
      if not (key_forked m key)
        && (m.last_released != key
            || time_difference_more simulated_time m.last_released_time m.config.repeat_max)
      then (if m.fork_active key == key
          then done (pass_along m)
          else (let n = change_state m st_suspect in
              done (record n {
                suspect = key;
                suspect_time = simulated_time;
                decision_time =
                    (simulated_time
                      + verification_interval_of verification_matrix n.config key keycode_unused)
                    % time_mod;
                tq = move_to_second n.tq;
              })))
      else if middle_empty m.tq
      then done (pass_along (record m { fork_active = update m.fork_active key key }))
      else fault

  -- What is kept of the release of a key that was active as something.
  unfoldable pub note_fork_release : Machine Event → Event → Machine Event
  unfolding record_last_release_event
  note_fork_release m pevent =
      if m.config.consider_forks_for_repeat
      then record_last_release_event m pevent
      else record m { last_released = no_key; last_released_time = 0 }

  -- The branch of a key that is released while it is active as something.
  unfoldable pub release_active : Machine Event → Event → Machine Event
  unfolding pass_along
  release_active m pevent =
      let key = detail_of pevent in
      let n = note_fork_release m pevent in
      pass_along (record n {
        tq = write_third n.tq (rewrite_event pevent (n.fork_active key));
        fork_active = update n.fork_active key no_key;
      })

  -- What is kept of any other event.
  unfoldable pub note_release : Machine Event → Event → Machine Event
  unfolding record_last_release_event
  note_release m pevent = if release_p pevent then record_last_release_event m pevent else m

  -- The branch of all other events.
  unfoldable pub pass_unforkable : Machine Event → Event → Machine Event
  unfolding pass_along
  pass_unforkable m pevent = pass_along (note_release m pevent)

  unfoldable pub apply_event_to_normal : World → Machine Event → Event → Outcome (Machine Event)
  apply_event_to_normal w m pevent =
      let key = detail_of pevent in
      if not (is_normal m.state)
      then fault
      else if forkable_p m key && (press_p pevent && not (ignore_event w pevent))
      then press_forkable m pevent
      else if release_p pevent && m.fork_active key != no_key
      then done (release_active m pevent)
      else done (pass_unforkable m pevent)

  -- A second key is pressed: it becomes the verificator.
  unfoldable pub start_verifying : Machine Event → Event → Machine Event
  unfolding change_state
  start_verifying m pevent =
      let n = change_state m st_verify in
      let decision_time =
        verifier_decision_time verification_matrix time_mod n.config n.suspect n.suspect_time
          (detail_of pevent) (time_of pevent) in
      record n {
        verificator_time = time_of pevent;
        verificator_keycode = detail_of pevent;
        decision_time =
            (if ltb decision_time n.decision_time then decision_time else n.decision_time);
        tq = move_to_second n.tq;
      }

  unfoldable pub apply_event_to_suspect : Machine Event → Event → Outcome (Machine Event)
  apply_event_to_suspect m pevent =
      let key = detail_of pevent in
      if not (is_suspect m.state)
      then fault
      else if release_p pevent
      then (if key == m.suspect
          then do_confirm_non_fork_by reason_short m
          else done (record m { tq = move_to_second m.tq }))
      else if key == m.suspect
      then (if m.config.fork_repeatable key
          then do_confirm_non_fork_by reason_wrong
              (record m { fork_active = update m.fork_active m.suspect m.suspect })
          else done m)
      else done (start_verifying m pevent)

  unfoldable pub apply_event_to_verify_state : Machine Event → Event → Outcome (Machine Event)
  apply_event_to_verify_state m pevent =
      let key = detail_of pevent in
      if key == m.suspect && release_p pevent
      then do_confirm_non_fork_by reason_short m
      else if m.verificator_keycode == key && release_p pevent
      then (let n = change_state m st_suspect in
          done (record n { verificator_keycode = 0; tq = move_to_second n.tq }))
      else done (record m { tq = move_to_second m.tq })

  -- The first thing read is forkActive[key]. The branches index the tables by this key and by the
  -- suspected one, which has come through here.
  unfoldable pub transition_by_key : World → Machine Event → Event → Outcome (Machine Event)
  transition_by_key w m pevent =
      let key = detail_of pevent in
      if not (ltb key max_keycode)
      then fault
      else if key_forked m key && (press_p pevent && key != m.fork_active key)
      then activate_fork_rewind reason_force (record m { tq = move_to_second m.tq })
      else if is_normal m.state
      then apply_event_to_normal w m pevent
      else if leb m.decision_time (time_of pevent)
      then activate_fork_rewind reason_long m
      else if not (press_p pevent) && not (release_p pevent)
      then done (record m { tq = move_to_second m.tq })
      else if is_suspect m.state
      then apply_event_to_suspect m pevent
      else apply_event_to_verify_state m pevent

  unfoldable pub transition_by_time : Machine Event → ℕ → Outcome (Machine Event × Bool)
  transition_by_time m current_time =
      if is_normal m.state
      then done (m, false)
      else if leb m.decision_time current_time
      then (activate_fork_rewind reason_long m >>= λ n. done (n, true))
      else done (m, false)

  unfoldable pub transition_by_force : Machine Event → Outcome (Machine Event)
  transition_by_force m =
      if is_normal m.state
      then done m
      else if not (middle_empty m.tq)
      then activate_fork_rewind reason_force m
      else done m
