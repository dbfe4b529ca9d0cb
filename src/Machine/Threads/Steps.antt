-- ===== src/Machine/Threads/Steps.antt =====
-- src/machine.h: each step of a thread has one of the effects.
use mathlib.Core.List.{append-nil}
use fork_plugin.Prelude.{◌≡◌, refl, sym, ap, ◌∙◌, some, none, Option, List, [], ◌∷◌, ◌++◌, arith}
use fork_plugin.Platform.{Platform, IsLawful}
use fork_plugin.Config.{ForkConfiguration}
use fork_plugin.Triqueue.{pop}
use fork_plugin.Machine.{Machine}
use fork_plugin.Machine.Run.{again, stop, pop_event_if_present}
use fork_plugin.Machine.Moves.{Inv}
use fork_plugin.Machine.Flush.{popped-Inv, pop_event_if_present-cons, pop_event_if_present-nil}
use fork_plugin.Machine.Arrive.{at_time}
use fork_plugin.Machine.History.{Recorder}
use fork_plugin.Machine.Threads.{
  Pc, Shared, Move, IsExpected, enqueue, reject, set_time, go_round, end_loop, pop_none, pop_event,
  relay, read_time, push, close_frozen, hand,
}
use fork_plugin.Machine.Threads.Effects.{
  Effect, quiet, pops, relays, same_machine, enqueue-Effect, reject-Effect, round-Effect,
  hand-leaving, log-push_if_set,
}

module _ (p : Platform) (c : ForkConfiguration) (tape : Recorder p) where
  open p use {Event}

  pop-Effect :
      (s : Shared p c) (outs mids ins : List Event)
      → Inv p c s.machine outs mids ins
      → (x : Event) (n : Machine Event) → pop_event_if_present p s.machine ≡ (some (some x), n)
      → Effect p c tape s outs mids ins [] (record s { machine = n }) (x ∷ []) []
  pop-Effect s [] mids ins v x n h = absurd (
      ground (
        arith,
        ap (λ (r : Option (Option Event) × Machine Event). r.0)
            (sym h ∙ pop_event_if_present-nil p c s.machine mids ins v),
      ))
  pop-Effect s (y ∷ outs) mids ins v x n h =
      let cons = pop_event_if_present-cons p c s.machine y outs mids ins v in
      let same : n ≡ record s.machine { tq = (pop s.machine.tq).1 } =
        ap (λ r. r.1) (sym h ∙ cons) in
      let heads : some (some x) ≡ some (some y) =
        ap (λ (r : Option (Option Event) × Machine Event). r.0) (sym h ∙ cons) in
      let front : x ≡ y = cc in
      pops y outs refl (rw same (popped-Inv p c s.machine y outs mids ins v))
        (ap (λ m. m.fork_active) same) refl refl (ap (λ z. z ∷ []) front) refl

  pop_none-Effect :
      (s : Shared p c) (outs mids ins : List Event)
      → Inv p c s.machine outs mids ins
      → (n : Machine Event) → pop_event_if_present p s.machine ≡ (none, n)
      → Effect p c tape s outs mids ins [] (record s { machine = n }) [] []
  pop_none-Effect s [] mids ins v n h =
      same_machine p c tape s [] mids ins v [] (record s { machine = n })
        (ap (λ r. r.1) (sym h ∙ pop_event_if_present-nil p c s.machine mids ins v)) refl
  pop_none-Effect s (y ∷ outs) mids ins v n h = absurd (
      ground (
        arith,
        ap (λ (r : Option (Option Event) × Machine Event). r.0)
            (sym h ∙ pop_event_if_present-cons p c s.machine y outs mids ins v),
      ))

  -- From a state whose queues are consistent, each step of a thread has one of the effects.
  pub Move-Effect :
      IsLawful p
      → (s : Shared p c) (pc : Pc p c) (t : Shared p c) (pc' : Pc p c) (new : List Event)
      → (outs mids ins : List Event) → Inv p c s.machine outs mids ins
      → IsExpected p c s.machine pc
      → Move p c s pc t pc' new
      → Effect p c tape s outs mids ins (hand p c pc) t (hand p c pc') new
  Move-Effect law s pc t pc' new outs mids ins v x (enqueue e open_lock n h) =
      enqueue-Effect p c tape s outs mids ins v e n x h
  Move-Effect law s pc t pc' new outs mids ins v x (reject e open_lock n h) =
      reject-Effect p c tape s outs mids ins v e n x h
  Move-Effect law s pc t pc' new outs mids ins v x (set_time now open_lock h) =
      quiet mids ins (at_time p c now s.machine outs mids ins v) (sym (append-nil (mids ++ ins)))
        refl refl refl
  Move-Effect law s pc t pc' new outs mids ins v x (go_round force_also n h) =
      round-Effect p c tape s outs mids ins v law force_also (again n) t h refl refl
  Move-Effect law s pc t pc' new outs mids ins v x (end_loop force_also n h) =
      round-Effect p c tape s outs mids ins v law force_also (stop n) t h refl refl
  Move-Effect law s pc t pc' new outs mids ins v x (pop_none force_also open_lock n h) =
      pop_none-Effect s outs mids ins v n h
  Move-Effect law s pc t pc' new outs mids ins v x (pop_event force_also e n open_lock h) =
      pop-Effect s outs mids ins v e n h
  Move-Effect law s pc t pc' new outs mids ins v x (relay force_also e) =
      relays e refl refl refl refl (tape.log-relay_event e s.world)
  Move-Effect law s pc t pc' new outs mids ins v x (read_time force_also item open_lock h) =
      quiet mids ins (at_time p c 0 s.machine outs mids ins v) (sym (append-nil (mids ++ ins))) refl
        refl refl
  Move-Effect law s pc t pc' new outs mids ins v x (close_frozen force_also h) =
      rw (hand-leaving p c tape force_also) (same_machine p c tape s outs mids ins v [] t refl refl)
  Move-Effect law s pc t pc' new outs mids ins v x (push force_also now) =
      rw (hand-leaving p c tape force_also)
        (same_machine p c tape s outs mids ins v [] t refl (log-push_if_set p c tape now s.world))
  Move-Effect law s pc t pc' new outs mids ins v x m =
      same_machine p c tape s outs mids ins v (hand p c pc) t refl refl
