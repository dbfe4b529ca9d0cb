-- ===== src/Machine/Threads/Progress.antt =====
-- src/machine.h: in every state some thread that is in an operation can take a step.
use fork_plugin.Prelude.{
  ℕ, ◌<◌, ◌≡◌, ◌≢◌, refl, sym, ap, ◌∙◌, Bool, false, List, [], ◌∷◌, ◌++◌, arith, ltb, Bool-cases,
  inl, inr,
}
use fork_plugin.Platform.{Platform, IsLawful}
use fork_plugin.Config.{ForkConfiguration}
use fork_plugin.Triqueue.Refine.{first-cases}
use fork_plugin.Machine.{Machine, Outcome, done}
use fork_plugin.Machine.Run.{Round, again, stop, round}
use fork_plugin.Machine.Moves.{Returns, returns, Inv}
use fork_plugin.Machine.Rounds.{round-Turn}
use fork_plugin.Machine.Flush.{pop_event_if_present-cons, pop_event_if_present-nil}
use fork_plugin.Machine.History.{Recorder}
use fork_plugin.Machine.Threads.{
  Pc, idle, entering, timing, starting, running, flushing, popping, relaying, closing, reading,
  pushing, asking, asking_locked, Shared, System, Move, enqueue, reject, late, set_time, take_lock,
  go_round, end_loop, test_open, test_frozen, pop_none, pop_event, relay, close_frozen, close_open,
  read_none, read_time, push, ask, Reach,
}
use fork_plugin.Machine.Arrive.{enqueue_event-eq}
use fork_plugin.Machine.Threads.Effects.{enqueue_event-refused}
use fork_plugin.Machine.Threads.Kept.{Reach-Perm}
use fork_plugin.Machine.Threads.Lock.{
  bit, bit-free, is_stuck, is_holding, count, count-append, count-holding,
}

returned : {A : Type 0} {P : A → Type 0} {o : Outcome A} → Returns P o → (a : A) × (o ≡ done a)
returned (returns a h) = (a, refl)

module _ (p : Platform) (c : ForkConfiguration) where
  open p use {Event, detail_of, output_frozen, max_keycode}

  -- If the lock is held and no thread is stuck, a thread is in the loop of run_automaton.
  find_running :
      (pcs : List (Pc p c))
      → 0 < count p c (is_holding p c) pcs
      → count p c (is_stuck p c) pcs ≡ 0
      → (before after : List (Pc p c)) × (force_also : Bool) × (pcs
          ≡ before ++ (running force_also ∷ after))
  find_running [] h k = absurd (omega arith)
  find_running (running force_also ∷ pcs) h k = ([], pcs, force_also, refl)
  find_running (asking_locked ∷ pcs) h k = absurd (omega arith)
  find_running (pc ∷ pcs) h k =
      let (before, after, force_also, e) = find_running pcs (omega arith) (omega arith) in
      (pc ∷ before, after, force_also, ap (λ t. pc ∷ t) e)

  -- The thread can take a step.
  abbrev pub CanMove : Shared p c → Pc p c → Type 0
  CanMove s pc = (t : Shared p c) × (pc' : Pc p c) × (new : List Event) × Move p c s pc t pc' new

  -- A thread that is in one of the operations and, if it brings an event, can look its key up.
  abbrev pub IsBusy : Machine Event → Pc p c → Type 0
  IsBusy m idle = ⊥
  IsBusy m (entering e) = detail_of e ≢ max_keycode
  IsBusy m _ = Unit

  module _ (law : IsLawful p) (s : Shared p c) {outs mids ins : List Event}
      (v : Inv p c s.machine outs mids ins) where
    running-CanMove : (force_also : Bool) → CanMove s (running force_also)
    running-CanMove force_also =
        let (r, e) = returned (round-Turn p c s.world s.machine law force_also outs mids ins v) in
        move r e
      where
        move :
            (r : Round (Machine Event))
            → round p force_also s.world s.machine ≡ done r
            → CanMove s (running force_also)
        move (again n) e = (_, _, _, go_round force_also n e)
        move (stop n) e = (_, _, _, end_loop force_also n e)

    entering-CanMove :
        (tape : Recorder p) (e : Event)
        → IsBusy s.machine (entering e)
        → s.locked ≡ false
        → CanMove s (entering e)
    entering-CanMove tape e key u = elim (Bool-cases (ltb max_keycode (detail_of e))) [
      | inl out ↦ (_, _, _, reject e u _ (enqueue_event-refused p c tape s e out))
      | inr fits ↦ (_, _, _, enqueue e u _ (enqueue_event-eq p c s.machine e (ground (arith, key))))
    ]

    timing-CanMove : (now : ℕ) → s.locked ≡ false → CanMove s (timing now)
    timing-CanMove now u = elim (Bool-cases (ltb now s.machine.current_time)) [
      | inl before ↦ (_, _, _, late now u (ground arith))
      | inr after ↦ (_, _, _, set_time now u (ground arith))
    ]

    reading-CanMove : (force_also : Bool) → s.locked ≡ false → CanMove s (reading force_also)
    reading-CanMove force_also u = elim (first-cases outs mids ins v.split) [
      | inl e ↦ (_, _, _, read_none force_also u e)
      | inr (x, e) ↦ (_, _, _, read_time force_also x u e)
    ]

  popping-CanMove :
      (force_also : Bool) (s : Shared p c) (outs mids ins : List Event)
      → Inv p c s.machine outs mids ins
      → s.locked ≡ false
      → CanMove s (popping force_also)
  popping-CanMove force_also s [] mids ins v u =
      (_, _, _, pop_none force_also u s.machine (pop_event_if_present-nil p c s.machine mids ins v))
  popping-CanMove force_also s (x ∷ outs) mids ins v u = (
    _,
    _,
    _,
    pop_event force_also x _ u (pop_event_if_present-cons p c s.machine x outs mids ins v),
  )

  module _ (law : IsLawful p) (s : Shared p c) (outs mids ins : List Event)
      (v : Inv p c s.machine outs mids ins) where
    unlocked-CanMove :
        (tape : Recorder p) (pc : Pc p c)
        → IsBusy s.machine pc
        → is_stuck p c pc ≡ false
        → s.locked ≡ false
        → CanMove s pc
    unlocked-CanMove tape idle b k u = absurd b
    unlocked-CanMove tape (entering e) b k u = entering-CanMove law s v tape e b u
    unlocked-CanMove tape (timing now) b k u = timing-CanMove law s v now u
    unlocked-CanMove tape (starting force_also) b k u = (_, _, _, take_lock force_also u)
    unlocked-CanMove tape (running force_also) b k u = running-CanMove law s v force_also
    unlocked-CanMove tape (flushing force_also) b k u = elim (Bool-cases (output_frozen s.world)) [
      | inl e ↦ (_, _, _, test_frozen force_also e)
      | inr e ↦ (_, _, _, test_open force_also e)
    ]
    unlocked-CanMove tape (popping force_also) b k u =
        popping-CanMove force_also s outs mids ins v u
    unlocked-CanMove tape (relaying force_also e) b k u = (_, _, _, relay force_also e)
    unlocked-CanMove tape (closing force_also) b k u = elim (Bool-cases (output_frozen s.world)) [
      | inl e ↦ (_, _, _, close_frozen force_also e)
      | inr e ↦ (_, _, _, close_open force_also e)
    ]
    unlocked-CanMove tape (reading force_also) b k u = reading-CanMove law s v force_also u
    unlocked-CanMove tape (pushing force_also now) b k u = (_, _, _, push force_also now)
    unlocked-CanMove tape asking b k u = (_, _, _, ask u)
    unlocked-CanMove tape asking_locked b k u = absurd (cc)

  -- There is no deadlock without a time that goes backwards: in every state that the threads reach by
  -- expected steps (IsExpected) in which no thread is stuck in accept_time, if a thread is in an
  -- operation, and is not about to enter an event of the key code max_keycode, then some thread that
  -- is in an operation can take a step. If the lock is held, a thread in the loop of run_automaton
  -- can. A step may be a round that changes nothing, so the loop of Machine/Stall is not excluded.
  pub Reach-CanMove :
      IsLawful p
      → (tape : Recorder p) (s : System p c) (arrived : List Event) (before after : List (Pc p c))
      → (pc : Pc p c) → Reach p c tape (λ hs. Unit) s arrived
      → count p c (is_stuck p c) s.threads ≡ 0
      → s.threads ≡ before ++ (pc ∷ after)
      → IsBusy s.shared.machine pc
      → (before' : List (Pc p c)) × (after' : List (Pc p c)) × (pc' : Pc p c) × (s.threads
          ≡ before' ++ (pc' ∷ after'))
        × IsBusy s.shared.machine pc'
        × (s.shared.locked ≡ is_holding p c pc')
        × CanMove s.shared pc'
  Reach-CanMove law tape s arrived before after pc past unstuck here busy =
      let k = Reach-Perm p c tape law s arrived past in
      let total : count p c (is_holding p c) s.threads ≡ bit s.shared.locked =
        count-holding p c tape (λ hs. Unit) s arrived past in
      elim (Bool-cases s.shared.locked) [
        | inl held ↦
            let (b, a, force_also, e) =
              find_running s.threads (omega (arith, total, ap bit held)) unstuck in
            (b, a, running force_also, e, tt, held, running-CanMove law s.shared k.inv force_also)
        | inr free ↦ (
          before,
          after,
          pc,
          here,
          busy,
          free
              ∙ sym (
                  bit-free (is_holding p c pc) (
                    omega (
                      arith,
                      total,
                      ap bit free,
                      ap (count p c (is_holding p c)) here,
                      count-append p c (is_holding p c) before (pc ∷ after),
                    ))),
          unlocked-CanMove law s.shared k.outs k.mids k.ins k.inv tape pc busy
              (bit-free (is_stuck p c pc) (
                omega (
                  arith,
                  unstuck,
                  ap (count p c (is_stuck p c)) here,
                  count-append p c (is_stuck p c) before (pc ∷ after),
                )))
              free,
        )
      ]
