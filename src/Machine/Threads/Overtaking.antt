-- ===== src/Machine/Threads/Overtaking.antt =====
-- src/machine.h: the lock is not held while an event is relayed, so one event can overtake another.
use mathlib.Core.Path.{subst}
use mathlib.Core.List.{append_assoc, append-nil}
use fork_plugin.Prelude.{
  Bool, some, ◌≤◌, arith, ◌≡◌, refl, sym, ap, ◌∙◌, false, List, [], ◌∷◌, ◌++◌,
}
use fork_plugin.Platform.{Platform, IsLawful}
use fork_plugin.Config.{ForkConfiguration}
use fork_plugin.Triqueue.{pop, head}
use fork_plugin.Triqueue.Refine.{head-eq}
use fork_plugin.Machine.Threads.Kept.{Reach-Perm}
use fork_plugin.Machine.{Machine}
use fork_plugin.Machine.Moves.{Inv}
use fork_plugin.Machine.Flush.{popped-Inv, pop_event_if_present-cons}
use fork_plugin.Machine.History.{Recorder}
use fork_plugin.Machine.Threads.{
  Pc, IsExpected, flushing, popping, relaying, Shared, System, Move, test_open, pop_event, relay,
  Reach, pick,
}

module _ (p : Platform) (c : ForkConfiguration) (tape : Recorder p) where
  open p use {Event, output_frozen, relay_event}
  open tape use {log}

  module _ (arrived : List Event) (before between after : List (Pc p c)) where
    abbrev both : Shared p c → Pc p c → Pc p c → System p c
    both s one two = record { shared = s; threads = before ++ (one ∷ (between ++ (two ∷ after))) }

    abbrev Reached : System p c → Type 0
    Reached s = Reach p c tape (λ hs. Unit) s arrived

    -- Each of the two threads takes a step.
    step_one :
        {s t : Shared p c} {one one' : Pc p c} (two : Pc p c)
        → Reached (both s one two)
        → IsExpected p c s.machine one
        → Move p c s one t one' []
        → Reached (both t one' two)
    step_one {s} {t} {one} {one'} two past o m =
        rw (append-nil arrived) at
          (pick _ arrived before (between ++ (two ∷ after)) one one' t [] past refl o m tt)

    step_two :
        {s t : Shared p c} {two two' : Pc p c} (one : Pc p c)
        → Reached (both s one two)
        → IsExpected p c s.machine two
        → Move p c s two t two' []
        → Reached (both t one two')
    step_two {s} {t} {two} {two'} one past o m =
        rw (append-nil arrived, append_assoc before (one ∷ between) (two' ∷ after)) at
          (pick _ arrived (before ++ (one ∷ between)) after two two' t [] past
            (sym (append_assoc before (one ∷ between) (two ∷ after))) o m tt)

    overtaking :
        (s : Shared p c) (f g : Bool) (x y : Event) (outs mids ins : List Event)
        → Reached (both s (flushing f) (flushing g))
        → s.locked ≡ false
        → output_frozen s.world ≡ false
        → Inv p c s.machine (x ∷ (y ∷ outs)) mids ins
        → (t : Shared p c) × Reached (both t (flushing f) (flushing g))
          × (log t.world ≡ log s.world ++ (y ∷ (x ∷ [])))
    overtaking s f g x y outs mids ins past unlocked open_output v =
        let m : Machine Event = record s.machine { tq = (pop s.machine.tq).1 } in
        let n : Machine Event = record m { tq = (pop m.tq).1 } in
        let tested =
          step_two (popping f) (step_one (flushing g) past tt (test_open _ open_output)) tt
            (test_open _ open_output) in
        let popped_one : Reached (both (record s { machine = m }) (relaying f x) (popping g)) =
          step_one (popping g) tested tt (
            pop_event _ x m unlocked
              (pop_event_if_present-cons p c s.machine x (y ∷ outs) mids ins v)) in
        let popped_two : Reached (both (record s { machine = n }) (relaying f x) (relaying g y)) =
          step_two (relaying f x) popped_one tt (
            pop_event _ y n unlocked (
              pop_event_if_present-cons p c m y outs mids ins
                (popped-Inv p c s.machine x (y ∷ outs) mids ins v))) in
        let sent =
          step_one (flushing g) (step_two (relaying f x) popped_two tt (relay _ y)) tt
            (relay _ x) in
        (
          record s { machine = n; world = relay_event x (relay_event y s.world) },
          sent,
          tape.log-relay_event x (relay_event y s.world)
              ∙ ap (λ l. l ++ (x ∷ [])) (tape.log-relay_event y s.world)
              ∙ append_assoc (log s.world) (y ∷ []) (x ∷ []),
        )

  -- An output queue with two events has the ones that head and pop give.
  two_heads :
      (m : Machine Event) (x y : Event) (outs mids ins : List Event)
      → Inv p c m outs mids ins
      → 2 ≤ m.tq.end_output
      → head m.tq ≡ some x
      → head (pop m.tq).1 ≡ some y
      → (rest : List Event) × Inv p c m (x ∷ (y ∷ rest)) mids ins
  two_heads m x y [] mids ins v two hx hy = absurd (omega (arith, v.split.output_end))
  two_heads m x y (a ∷ []) mids ins v two hx hy = absurd (omega (arith, v.split.output_end))
  two_heads m x y (a ∷ (b ∷ rest)) mids ins v two hx hy =
      let one : x ≡ a =
        let e : some x ≡ some a = sym hx ∙ head-eq a (b ∷ rest) mids ins v.split in cc in
      let other : y ≡ b =
        let e : some y ≡ some b =
          sym hy ∙ head-eq b rest mids ins (popped-Inv p c m a (b ∷ rest) mids ins v).split in
        cc in
      (rest, rw (one, other) v)

  -- The order of relayed events is not kept by the lock: in every state that the threads can reach
  -- in which nobody holds the lock, the output is open, two threads are in flush_to_next before its
  -- test and the output queue has at least two events, the threads can go on to relay the second of
  -- these events before the first.
  pub overtakes :
      IsLawful p
      → (s : System p c) (arrived : List Event) (before between after : List (Pc p c)) (f g : Bool)
        (x y : Event)
      → Reach p c tape (λ hs. Unit) s arrived
      → s.threads ≡ before ++ (flushing f ∷ (between ++ (flushing g ∷ after)))
      → s.shared.locked ≡ false
      → output_frozen s.shared.world ≡ false
      → 2 ≤ s.shared.machine.tq.end_output
      → head s.shared.machine.tq ≡ some x
      → head (pop s.shared.machine.tq).1 ≡ some y
      → (t : System p c) × Reach p c tape (λ hs. Unit) t arrived
        × (log t.shared.world ≡ log s.shared.world ++ (y ∷ (x ∷ [])))
  overtakes law s arrived before between after f g x y past here unlocked open_output two hx hy =
      let k = Reach-Perm p c tape law s arrived past in
      let (rest, v) = two_heads s.shared.machine x y k.outs k.mids k.ins k.inv two hx hy in
      let (t, reached, sent) =
        overtaking arrived before between after s.shared f g x y rest k.mids k.ins
          (subst
            (λ pcs.
              Reach p c tape (λ hs. Unit) (record { shared = s.shared; threads = pcs }) arrived)
            here past)
          unlocked open_output v in
      (_, reached, sent)
