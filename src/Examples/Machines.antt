-- ===== src/Examples/Machines.antt =====
-- The theorems on the machine at concrete inputs: the press of key 38, which forks to 50.
use fork_plugin.Prelude.Int.{pos}
use fork_plugin.Machine.{fault}
use fork_plugin.Machine.Run.{enqueue_event}
use fork_plugin.Machine.Configure.{configure_key, fork_configure_key_fork}
use fork_plugin.Prelude.{◌<◌, ◌≡◌, refl, true, false, [], ◌∷◌, ◌++◌, arith}
use fork_plugin.Config.{fork_configuration}
use fork_plugin.Platform.{IsLawful}
use fork_plugin.Xorg.{InternalEvent, xorg_environment-IsLawful}
use fork_plugin.Triqueue.{triqueue, push, move_to_second}
use fork_plugin.Triqueue.Refine.{triqueue-Split, push-Split, move_to_second-Split}
use fork_plugin.Machine.{
  Machine, no_fuel, st_normal, st_suspect, key_forked, forking_machine, transition_by_key,
  transition_by_time,
}
use fork_plugin.Machine.Run.{
  automaton_loop, flush_to_next, next_decision_time, accept_event, accept_time, accept_confirmation,
}
use fork_plugin.Machine.Moves.{Returns, Inv}
use fork_plugin.Machine.Progress.Kinds.{Progress}
use fork_plugin.Machine.Progress.{transition_by_key-Progress}
use fork_plugin.Machine.Verdict.{
  Forked, Unforked, Waiting, transition_by_key-late, transition_by_key-short,
  transition_by_key-waits, transition_by_time-late,
}
use fork_plugin.Machine.Loop.{Ran, automaton_loop-Ran}
use fork_plugin.Machine.Flush.{Handed, flush_to_next-Handed}
use fork_plugin.Machine.Arrive.{arriving}
use fork_plugin.Machine.Accept.{
  Handled, accept_event-Handled, accept_time-Handled, accept_confirmation-Handled,
  forking_machine-Inv,
}
use fork_plugin.Machine.Stall.{IsRepress, accept_event-never_ends}
use fork_plugin.Examples.{server, p, config, start, open_world, press, release}

pub law : IsLawful p
law = xorg_environment-IsLawful false server

start-Inv : Inv p config start [] [] []
start-Inv = forking_machine-Inv p config

-- Key 38 has been pressed at 1000, and is suspected until 1200.
abbrev pub waiting : Machine InternalEvent
waiting = record start {
  state = st_suspect;
  suspect = 38;
  suspect_time = 1000;
  decision_time = 1200;
  tq = move_to_second (push (triqueue 100) (press 38 1000));
}

pub waiting-Inv : Inv p config waiting [] (press 38 1000 ∷ []) []
unfolding forking_machine config
waiting-Inv = record {
  split =
      move_to_second-Split [] [] (press 38 1000) []
        (push-Split (press 38 1000) (triqueue-Split 100 (omega arith) (omega arith)) (omega arith));
  stage = ((λ (e : st_suspect ≡ st_normal). cc), refl, refl, refl, tt, omega arith, refl);
  configured = refl;
  tidy = start-Inv.tidy;
  coded = (omega arith, tt);
}

accept_event-Handled_example :
    Returns
      (λ r.
        Handled p config false waiting.fork_active []
          ((press 38 1000 ∷ []) ++ ([] ++ arriving p waiting (release 38 1100)))
          open_world
          r.1
          r.2
        × (r.0 ≡ next_decision_time p r.1))
      (accept_event p 20000 waiting open_world (release 38 1100))
unfolding key_forked forking_machine
accept_event-Handled_example =
    accept_event-Handled p config law 20000 (omega arith) waiting open_world (release 38 1100) []
      (press 38 1000 ∷ []) [] (omega arith) (omega arith) ((λ h. tt), ((λ h. tt), tt)) waiting-Inv

accept_time-Handled_example :
    Returns
      (λ r.
        Handled p config false waiting.fork_active [] (press 38 1000 ∷ []) open_world r.1 r.2
        × (r.0 ≡ next_decision_time p r.1))
      (accept_time p 20000 waiting open_world 1300)
unfolding forking_machine
accept_time-Handled_example =
    accept_time-Handled p config law 20000 (omega arith) waiting open_world 1300 []
      (press 38 1000 ∷ []) [] (omega arith) ((λ h. tt), tt) waiting-Inv

accept_confirmation-Handled_example :
    Returns
      (λ r. Handled p config true waiting.fork_active [] (press 38 1000 ∷ []) open_world r.0 r.1)
      (accept_confirmation p 20000 waiting open_world)
accept_confirmation-Handled_example =
    accept_confirmation-Handled p config law 20000 (omega arith) waiting open_world []
      (press 38 1000 ∷ []) [] ((λ h. tt), tt) waiting-Inv

automaton_loop-Ran_example :
    Returns
      (Ran p config true waiting.fork_active open_world [] (press 38 1000 ∷ []))
      (automaton_loop p 2 true open_world waiting)
automaton_loop-Ran_example =
    automaton_loop-Ran p config law true open_world 2 waiting [] (press 38 1000 ∷ []) []
      (omega arith) ((λ h. tt), tt) waiting-Inv

-- The same machine with an event in its input queue.
abbrev followed_by : InternalEvent → Machine InternalEvent
followed_by x = record waiting {
  tq = push (move_to_second (push (triqueue 100) (press 38 1000))) x;
}

followed_by-Inv :
    (x : InternalEvent)
    → x.key < 256
    → Inv p config (followed_by x) [] (press 38 1000 ∷ []) (x ∷ [])
unfolding forking_machine
followed_by-Inv x small = record {
  split = push-Split x waiting-Inv.split (omega arith);
  stage = waiting-Inv.stage;
  configured = refl;
  tidy = start-Inv.tidy;
  coded = (omega arith, (small, tt));
}

transition_by_key-Progress_example :
    Returns
      (Progress p config (followed_by (press 40 1050)) [] (press 38 1000 ∷ []) (press 40 1050) [])
      (transition_by_key p open_world (followed_by (press 40 1050)) (press 40 1050))
transition_by_key-Progress_example =
    transition_by_key-Progress p config open_world (followed_by (press 40 1050)) law []
      (press 38 1000 ∷ []) (press 40 1050) [] (followed_by-Inv (press 40 1050) (omega arith))

transition_by_key-late_example :
    Returns
      (Forked p config (followed_by (press 40 1250)) [] (press 38 1000) (press 40 1250 ∷ []))
      (transition_by_key p open_world (followed_by (press 40 1250)) (press 40 1250))
unfolding key_forked forking_machine
transition_by_key-late_example =
    transition_by_key-late p config open_world (followed_by (press 40 1250)) [] (press 38 1000) []
      (press 40 1250) [] (followed_by-Inv (press 40 1250) (omega arith)) refl (omega arith)

transition_by_key-short_example :
    Returns
      (Unforked p config (followed_by (release 38 1100)) [] (press 38 1000) (release 38 1100 ∷ []))
      (transition_by_key p open_world (followed_by (release 38 1100)) (release 38 1100))
transition_by_key-short_example =
    transition_by_key-short p config open_world (followed_by (release 38 1100)) law []
      (press 38 1000) [] (release 38 1100) [] (followed_by-Inv (release 38 1100) (omega arith)) refl
      refl (omega arith)

transition_by_key-waits_example :
    Returns
      (Waiting p config (followed_by (press 40 1050)) [] (press 38 1000 ∷ []) (press 40 1050) [])
      (transition_by_key p open_world (followed_by (press 40 1050)) (press 40 1050))
unfolding key_forked forking_machine
transition_by_key-waits_example =
    transition_by_key-waits p config open_world (followed_by (press 40 1050)) law [] (press 38 1000)
      [] (press 40 1050) [] (followed_by-Inv (press 40 1050) (omega arith)) refl (omega arith)
      (omega arith)

transition_by_time-late_example :
    Returns
      (λ r. Forked p config waiting [] (press 38 1000) [] r.0 × (r.1 ≡ true))
      (transition_by_time p waiting 1300)
transition_by_time-late_example =
    transition_by_time-late p config open_world waiting [] (press 38 1000) [] [] 1300 waiting-Inv
      (omega arith)

flush_to_next-Handed_example :
    Returns
      (Handed p config waiting.fork_active [] (press 38 1000 ∷ []) [] open_world)
      (flush_to_next p 1 waiting open_world)
flush_to_next-Handed_example =
    flush_to_next-Handed p config 1 waiting open_world [] (press 38 1000 ∷ []) [] (omega arith)
      waiting-Inv

-- Key 38 is pressed again, at 1100, by an auto-repeat.
waiting-IsRepress : IsRepress p config waiting (press 38 1100)
unfolding key_forked forking_machine fork_configuration
waiting-IsRepress = record {
  suspecting = refl;
  pressed = refl;
  same_key = refl;
  plain = refl;
  unforked = refl;
  early = omega arith;
}

accept_event-never_ends_example : accept_event p 5000 waiting open_world (press 38 1100) ≡ no_fuel
accept_event-never_ends_example =
    accept_event-never_ends p config law 5000 waiting open_world (press 38 1100) []
      (press 38 1000 ∷ []) waiting-Inv (omega arith) (omega arith) refl waiting-IsRepress

-- The key code 256 is beyond the end of the tables, for a press, for a release that has been queued,
-- and for a setting.
beyond_the_end :
    (enqueue_event p waiting (press 256 1100) ≡ fault)
    × (transition_by_key p open_world waiting (release 256 1100) ≡ fault)
    × (configure_key p waiting (pos fork_configure_key_fork) 256 (pos 50) true ≡ fault)
unfolding enqueue_event transition_by_key configure_key
beyond_the_end = (refl, refl, refl)
