-- ===== src/Xorg/Order.antt =====
-- xorg/fork-plugin.cpp: what an event, a time or the mouse makes the plugin hand over.
use fork_plugin.Prelude.{ℕ, ◌+◌, ◌<◌, ◌≡◌, Bool, true, false, List, ◌++◌, length, arith}
use fork_plugin.Config.{ForkConfiguration}
use fork_plugin.Machine.Run.{next_decision_time}
use fork_plugin.Machine.Moves.{Returns, returns, Inv}
use fork_plugin.Machine.Rounds.{>>=-Returns}
use fork_plugin.Machine.Loop.{NoRepeats}
use fork_plugin.Machine.Arrive.{arriving}
use fork_plugin.Machine.Accept.{Handled, accept_event-Handled, accept_confirmation-Handled}
use fork_plugin.Xorg.{InternalEvent, et_motion, Server, xorg_environment, xorg_environment-IsLawful}
use fork_plugin.Xorg.Plugin.{Plugin, first_non_zero, set_wakeup_time, feed_event, mouse_call_back}

module _ (matrices : Bool) (server : Server) (fuel : ℕ) (enough : 10100 < fuel) where
  open server use {World, next_frozen, next_wakeup_time}

  -- With fuel above 10100, a key event with a code below 256, given to the plugin by feed_event
  -- under the conditions of accept_event-Handled, goes through the machine without a fault and is
  -- handled as Handled says. The plugin's wakeup time is then the machine's next decision time, or
  -- the next plugin's wakeup time if the former is 0.
  pub feed_event-Handled :
      (c : ForkConfiguration) (plugin : Plugin) (w : World) (event : InternalEvent)
      → (outs mids ins : List InternalEvent) → event.key < 256
      → length outs + length mids + length ins < 100
      → NoRepeats
          (xorg_environment matrices server)
          c
          (mids ++ (ins ++ arriving (xorg_environment matrices server) plugin.machine event))
      → Inv (xorg_environment matrices server) c plugin.machine outs mids ins
      → Returns
          (λ r.
            Handled
              (xorg_environment matrices server)
              c
              false
              plugin.machine.fork_active
              outs
              (mids ++ (ins ++ arriving (xorg_environment matrices server) plugin.machine event))
              w
              r.0.machine
              r.1
            × (r.0.wakeup_time
                ≡ first_non_zero
                    (next_decision_time (xorg_environment matrices server) r.0.machine)
                    (next_wakeup_time r.1)))
          (feed_event matrices server fuel plugin w event)
  unfolding feed_event set_wakeup_time
  feed_event-Handled c plugin w event outs mids ins key room h v =
      >>=-Returns
        (accept_event-Handled (xorg_environment matrices server) c
          (xorg_environment-IsLawful matrices server) fuel enough plugin.machine w event outs mids
          ins (omega arith) room h v)
        (λ r t. returns _ (t.0, rw t.1))

  -- With fuel above 10100 and a machine that satisfies Inv and NoRepeats, an event of type
  -- ET_Motion makes mouse_call_back decide every pending event (Handled, for a forced run): unless
  -- the next plugin is frozen, the internal and input queues are empty afterwards.
  pub mouse_call_back-Handled :
      (c : ForkConfiguration) (plugin : Plugin) (w : World) (event : InternalEvent)
      → (outs mids ins : List InternalEvent) → event.event_type ≡ et_motion
      → NoRepeats (xorg_environment matrices server) c (mids ++ ins)
      → Inv (xorg_environment matrices server) c plugin.machine outs mids ins
      → Returns
          (λ r.
            Handled
              (xorg_environment matrices server)
              c
              true
              plugin.machine.fork_active
              outs
              (mids ++ ins)
              w
              r.0.machine
              r.1)
          (mouse_call_back matrices server fuel plugin w event)
  unfolding mouse_call_back
  mouse_call_back-Handled c plugin w event outs mids ins e h v =
      rw (e, mouse_call_back)
        (>>=-Returns
          (accept_confirmation-Handled (xorg_environment matrices server) c
            (xorg_environment-IsLawful matrices server) fuel enough plugin.machine w outs mids ins h
            v)
          (λ r t. returns _ t))
