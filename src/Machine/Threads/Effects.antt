-- ===== src/Machine/Threads/Effects.antt =====
-- src/machine.h: what a step of one thread does to the queues, the log and the event in its hands.
use mathlib.Core.List.{append_assoc, append-nil}
use fork_plugin.Prelude.{
  ◌<◌, ◌≡◌, refl, sym, ap, ◌∙◌, Bool, true, false, List, [], ◌∷◌, ◌++◌, arith, ltb, Bool-cases, inl,
  inr,
}
use fork_plugin.Platform.{Platform, IsLawful}
use fork_plugin.Config.{ForkConfiguration}
use fork_plugin.Triqueue.Places.{length-parts}
use fork_plugin.Machine.{Machine, Outcome, done}
use fork_plugin.Machine.Run.{Round, again, stop, round, push_if_set, enqueue_event}
use fork_plugin.Machine.Moves.{Inv, Decided}
use fork_plugin.Machine.Rounds.{Turn, decide, join, stall, finish, round-Turn}
use fork_plugin.Machine.Flush.{push_if_set-cases}
use fork_plugin.Machine.Arrive.{
  arriving, queued, at_time, queued-Inv, active-queued, enqueue_event-eq,
}
use fork_plugin.Machine.History.{Recorder, Returns-done}
use fork_plugin.Machine.Threads.{entering, IsExpected, Shared, hand, leaving}

done-injective : {A : Type 0} {a b : A} → done a ≡ done b → a ≡ b
done-injective {A} {a} {b} e = ap (λ o. from a o) e
  where
    from : A → Outcome A → A
    from d (done x) = x
    from d _ = d

abbrev pub machine_of : {A : Type 0} → Round A → A
machine_of (again m) = m
machine_of (stop m) = m

module _ (p : Platform) (c : ForkConfiguration) (tape : Recorder p) where
  open p use {Event, World, detail_of, relay_event, push_time, max_keycode}
  open tape use {log}

  -- The step leaves the decided events alone, decides one more, takes one from the output queue into
  -- its hands, or relays the one in its hands.
  pub data Effect (s : Shared p c) (outs mids ins held : List Event) (t : Shared p c)
      (held' new : List Event) : Type 0 where
    quiet :
        (mids' ins' : List Event)
        → Inv p c t.machine outs mids' ins'
        → mids' ++ ins' ≡ (mids ++ ins) ++ new
        → t.machine.fork_active ≡ s.machine.fork_active
        → held' ≡ held
        → log t.world ≡ log s.world
        → Effect s outs mids ins held t held' new
    decides :
        Decided p c s.machine.fork_active outs (mids ++ ins) t.machine
        → new ≡ []
        → held' ≡ held
        → log t.world ≡ log s.world
        → Effect s outs mids ins held t held' new
    pops :
        (x : Event) (rest : List Event)
        → outs ≡ x ∷ rest
        → Inv p c t.machine rest mids ins
        → t.machine.fork_active ≡ s.machine.fork_active
        → new ≡ []
        → held ≡ []
        → held' ≡ x ∷ []
        → log t.world ≡ log s.world
        → Effect s outs mids ins held t held' new
    relays :
        (x : Event)
        → t.machine ≡ s.machine
        → new ≡ []
        → held ≡ x ∷ []
        → held' ≡ []
        → log t.world ≡ log s.world ++ (x ∷ [])
        → Effect s outs mids ins held t held' new

  pub hand-leaving : (force_also : Bool) → hand p c (leaving p c force_also) ≡ []
  hand-leaving true = refl
  hand-leaving false = refl

  pub log-push_if_set : (now : _) (w : World) → log (push_if_set p now w) ≡ log w
  log-push_if_set now w = elim (push_if_set-cases p c now w) [
    | inl e ↦ ap log e
    | inr (t, e) ↦ ap log e ∙ tape.log-push_time t w
  ]

  pub enqueue_event-refused :
      (s : Shared p c) (e : Event)
      → ltb max_keycode (detail_of e) ≡ true
      → enqueue_event p s.machine e ≡ done (record s.machine { current_time = 0 }, false)
  unfolding enqueue_event
  enqueue_event-refused s e h = rw h

  module _ (s : Shared p c) (outs mids ins : List Event) (v : Inv p c s.machine outs mids ins) where
    -- A step that changes neither the machine nor the log.
    pub same_machine :
        (held : List Event) (t : Shared p c)
        → t.machine ≡ s.machine
        → log t.world ≡ log s.world
        → Effect s outs mids ins held t held []
    same_machine held t e l =
        quiet mids ins (rw e v) (sym (append-nil (mids ++ ins))) (ap (λ m. m.fork_active) e) refl l

    pub enqueue-Effect :
        (e : Event) (n : Machine Event)
        → IsExpected p c s.machine (entering e)
        → enqueue_event p s.machine e ≡ done (n, true)
        → Effect s outs mids ins [] (record s { machine = n }) [] (arriving p s.machine e)
    enqueue-Effect e n expected h = elim (Bool-cases (ltb max_keycode (detail_of e))) [
      | inl out ↦ absurd (
          ground (
            arith,
            ap (λ (r : Machine Event × Bool). r.1)
                (done-injective (sym h ∙ enqueue_event-refused s e out)),
          ))
      | inr fits ↦
          let key : detail_of e < max_keycode = ground (arith, expected.0) in
          let room = expected.1 key in
          let same : n ≡ queued p s.machine e =
            ap (λ r. r.0) (done-injective (sym h ∙ enqueue_event-eq p c s.machine e key)) in
          quiet mids (ins ++ arriving p s.machine e)
            (rw same (
              queued-Inv p c s.machine e outs mids ins key
                (omega (arith, room, v.split.held.sized, length-parts outs mids ins)) v))
            (sym (append_assoc mids ins (arriving p s.machine e)))
            (ap (λ m. m.fork_active) same ∙ active-queued p c s.machine e) refl refl
    ]

    pub reject-Effect :
        (e : Event) (n : Machine Event)
        → IsExpected p c s.machine (entering e)
        → enqueue_event p s.machine e ≡ done (n, false)
        → Effect s outs mids ins [] (record s { machine = n }) [] []
    reject-Effect e n expected h = elim (Bool-cases (ltb max_keycode (detail_of e))) [
      | inl out ↦
          let same : n ≡ record s.machine { current_time = 0 } =
            ap (λ r. r.0) (done-injective (sym h ∙ enqueue_event-refused s e out)) in
          quiet mids ins (rw same (at_time p c 0 s.machine outs mids ins v))
            (sym (append-nil (mids ++ ins))) (ap (λ m. m.fork_active) same) refl refl
      | inr fits ↦ absurd (
          ground (
            arith,
            ap (λ (r : Machine Event × Bool). r.1)
                (done-injective
                  (sym h ∙ enqueue_event-eq p c s.machine e (ground (arith, expected.0)))),
          ))
    ]

    Turn-Effect :
        (force_also : Bool) (r : Round (Machine Event)) (t : Shared p c)
        → Turn p c force_also s.world s.machine outs mids ins r
        → t.machine ≡ machine_of r
        → log t.world ≡ log s.world
        → Effect s outs mids ins [] t [] []
    Turn-Effect force_also r t (decide n d) e l = decides (rw e d) refl refl l
    Turn-Effect force_also r t (join n x rest i v' fa) e l =
        quiet (mids ++ (x ∷ [])) rest (rw e v')
          (append_assoc mids (x ∷ []) rest ∙ ap (λ t. mids ++ t) (sym i) ∙ sym (append-nil _))
          (ap (λ m. m.fork_active) e ∙ fa) refl l
    Turn-Effect force_also r t (stall n x rest i same ne pr k g) e l =
        same_machine [] t (e ∙ same) l
    Turn-Effect force_also r t (finish n v' fa d) e l =
        quiet mids ins (rw e v') (sym (append-nil (mids ++ ins))) (ap (λ m. m.fork_active) e ∙ fa)
          refl l

    pub round-Effect :
        IsLawful p
        → (force_also : Bool) (r : Round (Machine Event)) (t : Shared p c)
        → round p force_also s.world s.machine ≡ done r
        → t.machine ≡ machine_of r
        → log t.world ≡ log s.world
        → Effect s outs mids ins [] t [] []
    round-Effect law force_also r t h =
        Turn-Effect force_also r t
          (Returns-done _ r (round-Turn p c s.world s.machine law force_also outs mids ins v) h)
