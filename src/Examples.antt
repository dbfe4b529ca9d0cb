-- ===== src/Examples.antt =====
-- Runs of the models at concrete inputs: a server that records what it is handed, and a
-- configuration in which key 38 forks to 50.
pub mod Queues
mod Buffers
mod Requests
pub mod Machines
pub mod Presses
pub mod Sessions
mod Threads
pub mod Plugins
mod Drivers
mod Libinputs
use fork_plugin.Prelude.Int.{ℤ, pos}
use fork_plugin.Prelude.{
  ℕ, suc, ◌+◌, ◌≡◌, refl, Bool, true, false, Option, none, some, List, [], ◌∷◌, ◌++◌, map, arith,
  length, update, inl, inr,
}
use fork_plugin.Platform.{Platform}
use fork_plugin.Config.{ForkConfiguration, fork_configuration}
use fork_plugin.Xorg.{
  InternalEvent, EventType, et_key_press, et_key_release, et_motion, Server, xorg_environment,
  xorg_environment-IsLawful,
}
use fork_plugin.Machine.{
  Machine, Outcome, done, fault, no_fuel, forking_machine, st_suspect, key_forked, forkable_p,
  press_forkable, note_fork_release, note_release, release_active, pass_unforkable,
  apply_event_to_normal, apply_event_to_suspect, apply_event_to_verify_state,
  do_confirm_non_fork_by, activate_fork_rewind, change_state, start_verifying, transition_by_key,
  transition_by_time, transition_by_force, time_difference_more, rewind_machine, pass_along,
  record_last_release_event, activate_fork,
}
use fork_plugin.Machine.Run.{
  round, try_time, try_force, idle_round, automaton_loop, pop_event_if_present, flush_loop,
  push_if_set, push_time_to_next, flush_to_next, run_automaton, next_decision_time, enqueue_event,
  accept_event, accept_time, accept_confirmation,
}
use fork_plugin.Triqueue
use fork_plugin.Circular
use fork_plugin.Config

abbrev pub World : Type 0
World = record { sent : List (ℕ × ℕ × Bool); frozen : Bool }

abbrev pub is_press : InternalEvent → Bool
is_press e = elim e.event_type [ et_key_press ↦ true | _ ↦ false ]

abbrev pub server : Server
server = record {
  World = World;
  next_frozen = λ w. w.frozen;
  next_wakeup_time = λ w. 0;
  process_event = λ e w. record w { sent = (e.time, e.key, is_press e) ∷ w.sent };
  process_time = λ now w. w;
  has_keyboard = λ w. true;
  mouse_keys = λ w. false;
  previous_has_thaw = λ w. false;
  notify_thaw = λ now w. w;
}

abbrev pub p : Platform
p = xorg_environment false server

abbrev pub raw : ForkConfiguration
raw = record {
  fork_keycode = λ i. 7;
  fork_repeatable = λ i. true;
  overlap_tolerance = λ i j. 7;
  verification_interval = λ i j. 7;
  clear_interval = pos 7;
  repeat_max = 7;
  consider_forks_for_repeat = false;
  debug = pos 7;
  id = pos 7;
}

abbrev pub config : ForkConfiguration
unfolding fork_configuration
config = record (fork_configuration raw) { fork_keycode = update (λ i. 0) 38 50 }

abbrev pub start : Machine InternalEvent
start = forking_machine InternalEvent config

abbrev pub open_world : World
open_world = record { sent = []; frozen = false }

abbrev pub press : ℕ → ℕ → InternalEvent
press key time = record { event_type = et_key_press; time = time; key = key; rest = 0 }

abbrev pub release : ℕ → ℕ → InternalEvent
release key time = record { event_type = et_key_release; time = time; key = key; rest = 0 }

-- What the next plugin has received after the events, last first, and the next decision time.
feed : List InternalEvent → ℕ → Machine InternalEvent → World → Option (List (ℕ × ℕ × Bool) × ℕ)
unfolding key_forked forkable_p press_forkable note_fork_release note_release release_active
    pass_unforkable apply_event_to_normal apply_event_to_suspect apply_event_to_verify_state
    do_confirm_non_fork_by activate_fork_rewind change_state start_verifying transition_by_key
    transition_by_time transition_by_force time_difference_more rewind_machine pass_along
    record_last_release_event activate_fork round try_time try_force idle_round automaton_loop
    pop_event_if_present flush_loop push_if_set push_time_to_next flush_to_next run_automaton
    next_decision_time enqueue_event accept_event accept_time accept_confirmation forking_machine
    Triqueue.triqueue Triqueue.middle_empty Triqueue.third_empty Triqueue.rewind_middle
    Triqueue.push Triqueue.can_pop Triqueue.pop Triqueue.peek_third Triqueue.peek_middle
    Triqueue.head Triqueue.write_middle Triqueue.write_third Triqueue.move_to_first
    Triqueue.move_to_second Triqueue.first Circular.circular_buffer Circular.push_back
    Circular.pop_front Circular.front Circular.at_unchecked Circular.write_at
    Config.verification_interval_of Config.overlap_tolerance_of Config.verifier_decision_time
    Config.fork_configuration
feed [] last m w = some (w.sent, last)
feed (e ∷ es) last m w = elim (accept_event p 200 m w e) [
  | done (next, n, u) ↦ feed es next n u
  | fault ↦ none
  | no_fuel ↦ none
]

-- A tap of the forkable key is output as it is.
tap :
    feed (press 38 1000 ∷ release 38 1100 ∷ []) 0 start open_world
    ≡ some ((1100, 38, false) ∷ (1000, 38, true) ∷ [], 0)
unfolding feed
tap = refl

-- Held over another key, it is output as its fork, and so is its release.
chord :
    feed (press 38 1000 ∷ press 40 1050 ∷ release 40 1300 ∷ release 38 1400 ∷ []) 0 start open_world
    ≡ some ((1400, 50, false) ∷ (1300, 40, false) ∷ (1050, 40, true) ∷ (1000, 50, true) ∷ [], 0)
unfolding feed
chord = refl

-- While it is undecided, the machine asks to be woken up at the decision time.
undecided : feed (press 38 1000 ∷ []) 0 start open_world ≡ some ([], 1200)
unfolding feed
undecided = refl
