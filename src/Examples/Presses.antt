-- ===== src/Examples/Presses.antt =====
-- The theorems on the normal state at concrete inputs: key 38, which forks to 50.
use fork_plugin.Prelude.{◌≡◌, inl, refl, [], ◌∷◌, ◌++◌, arith, update}
use fork_plugin.Config.{fork_configuration}
use fork_plugin.Xorg.{InternalEvent}
use fork_plugin.Triqueue.{Triqueue, triqueue, push}
use fork_plugin.Triqueue.Refine.{Split, triqueue-Split, push-Split}
use fork_plugin.Machine.{
  Machine, no_key, forkable_p, key_forked, time_difference_more, forking_machine, transition_by_key,
}
use fork_plugin.Machine.Moves.{Returns, Inv}
use fork_plugin.Machine.Codes.{IsTidy-update}
use fork_plugin.Machine.Accept.{forking_machine-Inv}
use fork_plugin.Machine.Normal.{
  Sent, Suspected, IsForkable, transition_by_key-release, transition_by_key-suspects,
  transition_by_key-repeats,
}
use fork_plugin.Examples.{p, config, start, open_world, press, release}
use fork_plugin.Examples.Machines.{law}

abbrev queue_of : InternalEvent → Triqueue InternalEvent
queue_of x = push (triqueue 100) x

queue_of-Split : (x : InternalEvent) → Split 100 (queue_of x) [] [] (x ∷ [])
queue_of-Split x = push-Split x (triqueue-Split 100 (omega arith) (omega arith)) (omega arith)

-- Key 38 is active as 50, and its release is input.
abbrev held : Machine InternalEvent
held = record start {
  fork_active = update start.fork_active 38 50;
  tq = queue_of (release 38 1300);
}

held-Inv : Inv p config held [] [] (release 38 1300 ∷ [])
unfolding forking_machine config
held-Inv = record {
  split = queue_of-Split (release 38 1300);
  stage = refl;
  configured = refl;
  tidy =
      IsTidy-update config start.fork_active 38 50 (forking_machine-Inv p config).tidy
        (λ h k. omega arith);
  coded = (omega arith, tt);
}

transition_by_key-release_example :
    Returns
      (λ n.
        Inv p config n ([] ++ (release 50 1300 ∷ [])) [] []
        × (n.fork_active ≡ update held.fork_active 38 no_key))
      (transition_by_key p open_world held (release 38 1300))
transition_by_key-release_example =
    transition_by_key-release p config open_world held law [] (release 38 1300) [] held-Inv refl
      (omega arith)

-- The press of key 38 is input.
abbrev pressed_once : Machine InternalEvent
pressed_once = record start { tq = queue_of (press 38 1000) }

pressed_once-Inv : Inv p config pressed_once [] [] (press 38 1000 ∷ [])
unfolding forking_machine
pressed_once-Inv = record {
  split = queue_of-Split (press 38 1000);
  stage = refl;
  configured = refl;
  tidy = (forking_machine-Inv p config).tidy;
  coded = (omega arith, tt);
}

pressed_once-IsForkable : IsForkable p config open_world pressed_once (press 38 1000)
unfolding forkable_p key_forked forking_machine fork_configuration
pressed_once-IsForkable = record { pressed = refl; forkable = refl; heeded = refl; unforked = refl }

transition_by_key-suspects_example :
    Returns
      (Suspected p config pressed_once [] (press 38 1000) [])
      (transition_by_key p open_world pressed_once (press 38 1000))
unfolding forking_machine
transition_by_key-suspects_example =
    transition_by_key-suspects p config open_world pressed_once [] (press 38 1000) []
      pressed_once-Inv pressed_once-IsForkable (omega arith) (inl (omega arith))

-- Key 38 is pressed 50 ms after its release.
abbrev pressed_again : Machine InternalEvent
pressed_again = record pressed_once { last_released = 38; last_released_time = 950 }

pressed_again-Inv : Inv p config pressed_again [] [] (press 38 1000 ∷ [])
unfolding forking_machine
pressed_again-Inv = record {
  split = queue_of-Split (press 38 1000);
  stage = refl;
  configured = refl;
  tidy = (forking_machine-Inv p config).tidy;
  coded = (omega arith, tt);
}

pressed_again-IsForkable : IsForkable p config open_world pressed_again (press 38 1000)
unfolding forkable_p key_forked forking_machine fork_configuration
pressed_again-IsForkable = record {
  pressed = refl;
  forkable = refl;
  heeded = refl;
  unforked = refl;
}

transition_by_key-repeats_example :
    Returns
      (Sent p config pressed_again [] (press 38 1000) 38 [])
      (transition_by_key p open_world pressed_again (press 38 1000))
unfolding time_difference_more fork_configuration
transition_by_key-repeats_example =
    transition_by_key-repeats p config open_world pressed_again [] (press 38 1000) []
      pressed_again-Inv pressed_again-IsForkable refl refl
