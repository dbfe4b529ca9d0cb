-- ===== src/Examples/Plugins.antt =====
-- The theorems on the plugin of the X server at concrete inputs.
use fork_plugin.Prelude.{◌≡◌, refl, true, false, [], ◌∷◌, ◌++◌, arith}
use fork_plugin.Machine.{key_forked, forking_machine}
use fork_plugin.Machine.Run.{next_decision_time}
use fork_plugin.Machine.Moves.{Returns}
use fork_plugin.Machine.Arrive.{arriving}
use fork_plugin.Machine.Accept.{Handled}
use fork_plugin.Xorg.{InternalEvent, et_motion}
use fork_plugin.Xorg.Hotkeys.{Hotkeys, no_hotkeys, filter_config_key_maybe}
use fork_plugin.Xorg.Hotkeys.Pairs.{filter_config_key_maybe-pair}
use fork_plugin.Xorg.Plugin.{Plugin, first_non_zero, feed_event, mouse_call_back}
use fork_plugin.Xorg.Order.{feed_event-Handled, mouse_call_back-Handled}
use fork_plugin.Examples.{server, p, config, start, open_world, press, release}
use fork_plugin.Examples.Machines.{waiting, waiting-Inv}

abbrev plugin : Plugin
plugin = record { machine = waiting; hotkeys = no_hotkeys; wakeup_time = 0 }

feed_event-Handled_example :
    Returns
      (λ r.
        Handled p config false waiting.fork_active []
          ((press 38 1000 ∷ []) ++ ([] ++ arriving p waiting (release 38 1100)))
          open_world
          r.0.machine
          r.1
        × (r.0.wakeup_time ≡ first_non_zero (next_decision_time p r.0.machine) 0))
      (feed_event false server 20000 plugin open_world (release 38 1100))
unfolding key_forked forking_machine
feed_event-Handled_example =
    feed_event-Handled false server 20000 (omega arith) config plugin open_world (release 38 1100)
      [] (press 38 1000 ∷ []) [] (omega arith) (omega arith) ((λ h. tt), ((λ h. tt), tt))
      waiting-Inv

abbrev motion : InternalEvent
motion = record { event_type = et_motion; time = 1100; key = 0; rest = 0 }

mouse_call_back-Handled_example :
    Returns
      (λ r.
        Handled p config true waiting.fork_active []
          (press 38 1000 ∷ [])
          open_world
          r.0.machine
          r.1)
      (mouse_call_back false server 20000 plugin open_world motion)
mouse_call_back-Handled_example =
    mouse_call_back-Handled false server 20000 (omega arith) config plugin open_world motion []
      (press 38 1000 ∷ []) [] refl ((λ h. tt), tt) waiting-Inv

abbrev configuring : Hotkeys
configuring = record no_hotkeys { config_mode = true }

filter_config_key_maybe-pair_example :
    let (h1, m1, taken1) = filter_config_key_maybe configuring start (press 41 1000) in
    let (h2, m2, taken2) = filter_config_key_maybe h1 m1 (press 64 2000) in
    (m2.config.fork_keycode 41 ≡ 64)
    × (m2.config.fork_keycode 38 ≡ start.config.fork_keycode 38)
    × (taken1 ≡ false)
    × (taken2 ≡ false)
    × (h2.config_mode ≡ true)
    × (h2.key_to_fork ≡ 0)
filter_config_key_maybe-pair_example =
    filter_config_key_maybe-pair configuring start (press 41 1000) (press 64 2000) 38 refl refl refl
      (refl, omega arith, omega arith, omega arith, omega arith)
      (refl, omega arith, omega arith, omega arith, omega arith) (omega arith)
