-- ===== src/Machine/Arrive.antt =====
-- src/machine.h: how an event or a time enters the machine, before it is looked at.
use mathlib.Core.List.{append-nil, append_assoc}
use fork_plugin.Prelude.{
  ℕ, ◌+◌, ◌<◌, ◌≡◌, inl, inr, true, false, ◌&&◌, not, All, All-append, List, [], ◌∷◌, ◌++◌, arith,
  length, if◌then◌else◌, ltb, Bool-cases,
}
use fork_plugin.Platform.{Platform}
use fork_plugin.Config.{ForkConfiguration}
use fork_plugin.Triqueue.{Triqueue, push}
use fork_plugin.Triqueue.Refine.{push-Split}
use mathlib.Core.Path.{subst}
use fork_plugin.Machine.{Machine, done, key_forked}
use fork_plugin.Machine.Run.{enqueue_event}
use fork_plugin.Machine.Moves.{Fits, Inv, IsCoded}

module _ (p : Platform) where
  open p use {Event, press_p, detail_of}

  -- What enters the input queue of an event: nothing of the press of a forked key.
  abbrev pub arriving : Machine Event → Event → List Event
  arriving m e = if press_p e && key_forked p m (detail_of e) then [] else e ∷ []

  -- The machine when accept_event has queued the event or skipped it.
  abbrev pub queued : Machine Event → Event → Machine Event
  queued m e =
      if press_p e && key_forked p m (detail_of e)
      then record m { current_time = 0 }
      else record m { current_time = 0; tq = push m.tq e }

module _ (p : Platform) (c : ForkConfiguration) where
  open p use {Event, World, press_p, detail_of, output_frozen, push_time, max_keycode}

  Fits-queue :
      (m : Machine Event) (q : Triqueue Event) (now : ℕ) (mids : List Event)
      → Fits p m mids
      → Fits p (record m { current_time = now; tq = q }) mids
  Fits-queue m q now [] f = f
  Fits-queue m q now (z ∷ rest) f = f

  pub at_time :
      (now : ℕ) (m : Machine Event) (outs mids ins : List Event)
      → Inv p c m outs mids ins
      → Inv p c (record m { current_time = now }) outs mids ins
  at_time now m outs mids ins v = record {
    split = v.split;
    stage = Fits-queue m m.tq now mids v.stage;
    configured = v.configured;
    tidy = v.tidy;
    coded = v.coded;
  }

  pub queued-Inv :
      (m : Machine Event) (e : Event) (outs mids ins : List Event)
      → detail_of e < max_keycode
      → length outs + length mids + length ins < 100
      → Inv p c m outs mids ins
      → Inv p c (queued p m e) outs mids (ins ++ arriving p m e)
  queued-Inv m e outs mids ins key room v =
      elim (Bool-cases (press_p e && key_forked p m (detail_of e))) [
        | inl skipped ↦ rw (skipped, append-nil) (at_time 0 m outs mids ins v)
        | inr taken ↦ rw taken (record {
          split = push-Split e v.split room;
          stage = Fits-queue m (push m.tq e) 0 mids v.stage;
          configured = v.configured;
          tidy = v.tidy;
          coded =
              subst (All (IsCoded p)) (append_assoc mids ins (e ∷ []))
                (All-append (IsCoded p) (mids ++ ins) (e ∷ []) v.coded (key, tt));
        })
      ]

  pub active-queued : (m : Machine Event) (e : Event) → (queued p m e).fork_active ≡ m.fork_active
  active-queued m e = ground arith

  pub enqueue_event-eq :
      (m : Machine Event) (e : Event)
      → detail_of e < max_keycode
      → enqueue_event p m e ≡ done (queued p m e, true)
  unfolding enqueue_event key_forked
  enqueue_event-eq m e key =
      let bound : ltb max_keycode (detail_of e) ≡ false = ground arith in
      let within : ltb (detail_of e) max_keycode ≡ true = ground arith in
      let readable : (press_p e && not (ltb (detail_of e) max_keycode)) ≡ false = ground arith in
      elim (Bool-cases (press_p e && key_forked p m (detail_of e))) [
        | inl skipped ↦ rw (bound, readable, skipped)
        | inr taken ↦ rw (bound, readable, taken)
      ]
