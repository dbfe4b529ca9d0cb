-- ===== src/Examples/Sessions.antt =====
-- The theorems on sessions at concrete inputs: key 38, which forks to 50.
use fork_plugin.Prelude.{◌≡◌, refl, true, false, List, [], ◌∷◌, ◌++◌, arith}
use fork_plugin.Platform.{Platform, IsLawful}
use fork_plugin.Xorg.{InternalEvent, Server, xorg_environment, xorg_environment-IsLawful}
use fork_plugin.Machine.{
  Machine, Outcome, done, forking_machine, key_forked, forkable_p, press_forkable,
  note_fork_release, note_release, release_active, pass_unforkable, apply_event_to_normal,
  apply_event_to_suspect, apply_event_to_verify_state, do_confirm_non_fork_by, activate_fork_rewind,
  change_state, start_verifying, transition_by_key, transition_by_time, transition_by_force,
  time_difference_more, rewind_machine, pass_along, record_last_release_event, activate_fork,
}
use fork_plugin.Machine.Run.{
  round, try_time, try_force, idle_round, automaton_loop, pop_event_if_present, flush_loop,
  push_if_set, push_time_to_next, flush_to_next, run_automaton, next_decision_time, enqueue_event,
  accept_event, accept_time, accept_confirmation,
}
use fork_plugin.Triqueue
use fork_plugin.Circular
use fork_plugin.Config
use fork_plugin.Machine.Moves.{Returns}
use fork_plugin.Machine.Accept.{forking_machine-Inv}
use fork_plugin.Machine.Session.{Session, event, queued_by, perform, perform-Session, Reached}
use fork_plugin.Machine.History.{Recorder, History, start as begin, next, relayed_release-eq}
use fork_plugin.Examples.{p, config, start, open_world, press, release}
use fork_plugin.Examples.Machines.{law}

abbrev fresh : Session p config start [] []
unfolding forking_machine
fresh = record {
  before = [];
  decided = [];
  outs = [];
  mids = [];
  ins = [];
  inv = forking_machine-Inv p config;
  taken = refl;
  output = refl;
  traced = λ key. refl;
}

perform-Session_example :
    Returns
      (λ r.
        (sent : List InternalEvent) × Session p config r.0
          (queued_by p config start (event (press 38 1000)))
          sent
        × Reached p config sent open_world r.1)
      (perform p config 20000 start open_world (event (press 38 1000)))
unfolding key_forked forking_machine Triqueue.triqueue Circular.circular_buffer
perform-Session_example =
    perform-Session p config law 20000 (omega arith) start open_world [] [] (event (press 38 1000))
      fresh (omega arith) ((λ h. tt), tt)

-- A world that is the list of what has been received.
abbrev recorder : Server
recorder = record {
  World = List InternalEvent;
  next_frozen = λ w. false;
  next_wakeup_time = λ w. 0;
  process_event = λ e w. w ++ (e ∷ []);
  process_time = λ now w. w;
  has_keyboard = λ w. true;
  mouse_keys = λ w. false;
  previous_has_thaw = λ w. false;
  notify_thaw = λ now w. w;
}

abbrev pub recording : Platform
recording = xorg_environment false recorder

pub recording_law : IsLawful recording
recording_law = xorg_environment-IsLawful false recorder

abbrev pub tape : Recorder recording
tape = record { log = λ w. w; log-relay_event = λ e w. refl; log-push_time = λ now w. refl }

abbrev value_of : {A : Type 0} → A → Outcome A → A
value_of a (done b) = b
value_of a _ = a

abbrev run :
    Machine InternalEvent
    → List InternalEvent
    → InternalEvent
    → Machine InternalEvent × List InternalEvent
run m w e = value_of (m, w) (perform recording config 10200 m w (event e))

abbrev pressed : Machine InternalEvent × List InternalEvent
pressed = run start [] (press 38 1000)

abbrev released : Machine InternalEvent × List InternalEvent
released = run pressed.0 pressed.1 (release 38 1300)

-- Key 38 is pressed and released after its limit, and has been handed on as 50.
held_long :
    History recording config tape 10200 released.0 released.1 (press 38 1000 ∷ release 38 1300 ∷ [])
    × (released.1 ≡ press 50 1000 ∷ release 50 1300 ∷ [])
unfolding key_forked forkable_p press_forkable note_fork_release note_release release_active
    pass_unforkable apply_event_to_normal apply_event_to_suspect apply_event_to_verify_state
    do_confirm_non_fork_by activate_fork_rewind change_state start_verifying transition_by_key
    transition_by_time transition_by_force time_difference_more rewind_machine pass_along
    record_last_release_event activate_fork round try_time try_force idle_round automaton_loop
    pop_event_if_present flush_loop push_if_set push_time_to_next flush_to_next run_automaton
    next_decision_time enqueue_event accept_event accept_time accept_confirmation forking_machine
    Triqueue.triqueue Triqueue.middle_empty Triqueue.third_empty Triqueue.rewind_middle
    Triqueue.push Triqueue.can_pop Triqueue.pop Triqueue.peek_third Triqueue.peek_middle
    Triqueue.head Triqueue.write_middle Triqueue.write_third Triqueue.move_to_first
    Triqueue.move_to_second Triqueue.first Circular.circular_buffer Circular.push_back
    Circular.pop_front Circular.front Circular.at_unchecked Circular.write_at
    Config.verification_interval_of Config.overlap_tolerance_of Config.verifier_decision_time
    Config.fork_configuration perform
held_long = (
  next pressed.0 pressed.1 (press 38 1000 ∷ []) (event (release 38 1300)) released.0 released.1
      (next start [] [] (event (press 38 1000)) pressed.0 pressed.1 (begin [] refl)
        (omega arith, omega arith) refl)
      (omega arith, omega arith) refl,
  refl,
)

relayed_release-eq_example :
    recording.detail_of (release 50 1300) ≡ recording.detail_of (press 50 1000)
relayed_release-eq_example =
    relayed_release-eq recording config tape recording_law (omega arith) released.0 released.1
      (press 38 1000 ∷ release 38 1300 ∷ []) [] [] (press 38 1000) (press 50 1000) [] []
      (release 38 1300) (release 50 1300) [] [] held_long.0 ((λ h. tt), ((λ h. tt), tt)) refl
      held_long.1 refl refl refl refl refl refl tt
