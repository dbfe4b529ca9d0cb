-- ===== src/Libinput/Order.antt =====
-- libinput/fork-plugin.cpp: what an event makes the plugin hand over.
use fork_plugin.Prelude.{ℕ, ◌+◌, ◌<◌, ◌≡◌, ◌⊎◌, inl, inr, true, false, List, [], ◌++◌, length}
use fork_plugin.Config.{ForkConfiguration}
use fork_plugin.Machine.{Machine}
use fork_plugin.Machine.Moves.{Returns, returns, Inv}
use fork_plugin.Machine.Rounds.{>>=-Returns}
use fork_plugin.Machine.Loop.{NoRepeats}
use fork_plugin.Machine.Arrive.{arriving}
use fork_plugin.Machine.Accept.{Handled, accept_event-Handled}
use fork_plugin.Libinput.{
  Library, IsLibrary, LibinputEvent, libinput_environment, libinput_environment-IsLawful,
  accept_event,
}

module _ (lib : Library) (law : IsLibrary lib) (c : ForkConfiguration) where
  open lib use {KeyboardEvent, Device, World, get_key}

  -- The events are handled, and none is left in the output queue or in the input queue.
  pub record Drained (old : ℕ → ℕ) (queue pending : List (LibinputEvent lib)) (w : World)
      (r : Machine (LibinputEvent lib) × World) : Type 0 where
    pub handled : Handled (libinput_environment lib) c false old queue pending w r.0 r.1
    pub outs_empty : handled.outs ≡ []
    pub ins_empty : handled.ins ≡ []

  open_or : {A : Type 0} → A ⊎ (false ≡ true) → A
  open_or (inl a) = a
  open_or (inr e) = absurd (cc)

  module _ (fuel : ℕ) (enough : 10100 < fuel) where
    -- With fuel above 10100, a key event with a code below 256, given to the plugin under the
    -- conditions of accept_event-Handled, goes through the machine without a fault and is handled as
    -- Handled says. As the output of libinput is never frozen, every decided event has been posted,
    -- and only events that wait for a decision are left.
    pub accept_event-Drained :
        (m : Machine (LibinputEvent lib)) (w : World) (device : Device) (key_event : KeyboardEvent)
        → (outs mids ins : List (LibinputEvent lib)) → get_key key_event < 256
        → length outs + length mids + length ins < 100
        → NoRepeats (libinput_environment lib) c (
            mids
            ++ (ins
                ++ arriving
                    (libinput_environment lib)
                    m
                    (record { event = key_event; device = device })))
        → Inv (libinput_environment lib) c m outs mids ins
        → Returns
            (Drained m.fork_active outs
              (mids
                ++ (ins
                    ++ arriving
                        (libinput_environment lib)
                        m
                        (record { event = key_event; device = device })))
              w)
            (accept_event lib fuel m w device key_event)
    unfolding accept_event
    accept_event-Drained m w device key_event outs mids ins key room h v =
        >>=-Returns
          (accept_event-Handled (libinput_environment lib) c (libinput_environment-IsLawful lib law)
            fuel enough m w (record { event = key_event; device = device }) outs mids ins key room h
            v)
          (λ r t. returns _ (record {
            handled = t.0;
            outs_empty = open_or t.0.drained;
            ins_empty = open_or t.0.used_up;
          }))
