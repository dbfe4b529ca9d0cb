-- ===== src/Machine/Stall.antt =====
-- src/machine.h: the suspected key is pressed once more before the decision is due.
use fork_plugin.Prelude.{
  ℕ, zero, suc, ◌+◌, ◌<◌, ◌≡◌, refl, Bool, true, false, ◌&&◌, All-last, List, [], ◌∷◌, length,
  arith,
}
use fork_plugin.Platform.{Platform, IsLawful}
use fork_plugin.Config.{ForkConfiguration}
use fork_plugin.Triqueue.Refine.{third_empty-eq, peek_third-eq}
use fork_plugin.Machine.{
  Machine, done, no_fuel, st_suspect, key_forked, transition_by_key, apply_event_to_suspect,
}
use fork_plugin.Machine.Run.{again, round, automaton_loop, run_automaton, accept_event}
use fork_plugin.Machine.Moves.{IsCoded, Inv}
use fork_plugin.Machine.Arrive.{arriving, queued, queued-Inv, enqueue_event-eq}

module _ (p : Platform) (c : ForkConfiguration) where
  open p use {Event, World, press_p, release_p, detail_of, time_of, output_frozen, max_keycode}

  -- The machine suspects a key that is not configured to repeat and has not been forked, its
  -- decision is not due, and the event presses that key again.
  pub record IsRepress (m : Machine Event) (x : Event) : Type 0 where
    pub suspecting : m.state ≡ st_suspect
    pub pressed : press_p x ≡ true
    pub same_key : detail_of x ≡ m.suspect
    pub plain : m.config.fork_repeatable (detail_of x) ≡ false
    pub unforked : key_forked p m (detail_of x) ≡ false
    pub early : time_of x < m.decision_time

  module _ (law : IsLawful p) (w : World) (m : Machine Event) where
    suspect-stall : (x : Event) → IsRepress m x → apply_event_to_suspect p m x ≡ done m
    unfolding apply_event_to_suspect
    suspect-stall x r =
        let up : release_p x ≡ false = law.press_not_release x r.pressed in ground arith

    transition-stall :
        (x : Event) → IsRepress m x → detail_of x < max_keycode → transition_by_key p w m x ≡ done m
    unfolding transition_by_key
    transition-stall x r k = ground (arith, suspect-stall x r)

    round-stall :
        (force_also : Bool) (outs mids : List Event) (x : Event) (ins : List Event)
        → output_frozen w ≡ false
        → Inv p c m outs mids (x ∷ ins)
        → IsRepress m x
        → round p force_also w m ≡ done (again m)
    unfolding round
    round-stall force_also outs mids x ins open_output v r =
        rw
          (
            open_output,
            third_empty-eq outs mids (x ∷ ins) v.split,
            peek_third-eq outs mids x ins v.split,
            round,
          )
          (rw (transition-stall x r (All-last (IsCoded p) mids (x ∷ ins) v.coded).0))

    automaton_loop-stall :
        (fuel : ℕ) (force_also : Bool)
        → round p force_also w m ≡ done (again m)
        → automaton_loop p fuel force_also w m ≡ no_fuel
    unfolding automaton_loop
    automaton_loop-stall zero force_also e = refl
    automaton_loop-stall (suc fuel) force_also e =
        rw (e, automaton_loop) (automaton_loop-stall fuel force_also e)

  -- The event is queued, and the machine is otherwise as it was.
  skips-not :
      (m : Machine Event) (x : Event)
      → IsRepress m x
      → (press_p x && key_forked p m (detail_of x)) ≡ false
  skips-not m x r = ground (arith, r.unforked)

  queued-IsRepress : (m : Machine Event) (x : Event) → IsRepress m x → IsRepress (queued p m x) x
  unfolding key_forked
  queued-IsRepress m x r = rw (skips-not m x r) record {
    suspecting = r.suspecting;
    pressed = r.pressed;
    same_key = r.same_key;
    plain = r.plain;
    unforked = r.unforked;
    early = r.early;
  }

  queued-one : (m : Machine Event) (x : Event) → IsRepress m x → arriving p m x ≡ x ∷ []
  queued-one m x r = rw (skips-not m x r)

  -- If a key with a code below max_keycode is suspected, the output is open, the input queue is empty and there is room, then a
  -- further press of that key before the decision time, where the key is not configured to repeat
  -- and not active as a fork (IsRepress), makes accept_event run for ever: no amount of fuel gives
  -- a result.
  pub accept_event-never_ends :
      IsLawful p
      → (fuel : ℕ) (m : Machine Event) (w : World) (x : Event) (outs mids : List Event)
      → Inv p c m outs mids []
      → length outs + length mids < 100
      → detail_of x < max_keycode
      → output_frozen w ≡ false
      → IsRepress m x
      → accept_event p fuel m w x ≡ no_fuel
  unfolding accept_event run_automaton
  accept_event-never_ends law fuel m w x outs mids v room key open_output r =
      let n = queued p m x in
      let v' : Inv p c n outs mids (x ∷ []) =
        rw (queued-one m x r) at (queued-Inv p c m x outs mids [] key (omega arith) v) in
      let stalled : automaton_loop p fuel false w n ≡ no_fuel =
        automaton_loop-stall law w n fuel false
          (round-stall law w n false outs mids x [] open_output v' (queued-IsRepress m x r)) in
      rw (enqueue_event-eq p c m x key) (rw stalled)
