-- ===== src/Machine/Accept.antt =====
-- src/machine.h: run_automaton and the public operations, from any consistent state.
use mathlib.Core.Path.{subst}
use mathlib.Core.List.{append_assoc, map-append}
use fork_plugin.Prelude.{
  ℕ, suc, ◌+◌, ◌*◌, ◌≤◌, ◌<◌, ◌≡◌, ◌⊎◌, inl, inr, refl, sym, ap, ◌∙◌, Bool, true, false, List, [],
  ◌∷◌, ◌++◌, map, arith, length, ltb,
}
use fork_plugin.Platform.{Platform, IsLawful}
use fork_plugin.Config.{ForkConfiguration}
use fork_plugin.Triqueue.Refine.{total-le, triqueue-Split}
use fork_plugin.Machine.{Machine, st_normal, forking_machine}
use fork_plugin.Machine.Run.{
  run_automaton, next_decision_time, accept_event, accept_time, accept_confirmation,
}
use fork_plugin.Machine.Codes.{sent_as, Traced}
use fork_plugin.Machine.Moves.{Returns, returns, payload, Fits, Inv}
use fork_plugin.Machine.Progress.Kinds.{map-Returns}
use fork_plugin.Machine.Rounds.{>>=-Returns}
use fork_plugin.Machine.Arrive.{
  arriving, queued, at_time, queued-Inv, active-queued, enqueue_event-eq,
}
use fork_plugin.Machine.Loop.{NoRepeats, rounds, Ran, automaton_loop-Ran}
use fork_plugin.Machine.Flush.{relay_all, WhileOpen, Handed, flush_to_next-Handed}

module _ {ℓ κ} {A : Type ℓ} {B : Type κ} where
  pub length-map : (f : A → B) (xs : List A) → length (map f xs) ≡ length xs
  length-map f [] = refl
  length-map f (x ∷ xs) = ap (λ n. suc n) (length-map f xs)

module _ (p : Platform) (c : ForkConfiguration) where
  open p use {Event, World, press_p, detail_of, output_frozen, push_time, max_keycode}

  -- A run of the machine over the events of its output queue and its pending events. It decides a
  -- first part of the pending events and adds them to the output queue, changed in their key codes
  -- alone, each under the code that Traced asks for; the others are pending in order. A first part
  -- of the output queue has been relayed, each event while the output was open. Unless the output is
  -- frozen, the output and input queues are empty, and so is the internal queue after a forced run.
  -- `old` is the table of active forks before.
  pub record Handled (force_also : Bool) (old : ℕ → ℕ) (queue pending : List Event) (w : World)
      (m : Machine Event) (after : World) : Type 0 where
    pub before : List Event
    pub decided : List Event
    pub sent : List Event
    pub outs : List Event
    pub mids : List Event
    pub ins : List Event
    pub inv : Inv p c m outs mids ins
    pub taken : before ++ (mids ++ ins) ≡ pending
    pub traced : Traced p (sent_as old) before decided (sent_as m.fork_active)
    pub output : sent ++ outs ≡ queue ++ decided
    pub same :
        map (payload p) (sent ++ (outs ++ (mids ++ ins))) ≡ map (payload p) (queue ++ pending)
    pub open_output : WhileOpen p sent w
    pub drained : (outs ≡ []) ⊎ (output_frozen (relay_all p sent w) ≡ true)
    pub used_up : (ins ≡ []) ⊎ (output_frozen w ≡ true)
    pub forced : force_also ≡ true → (mids ≡ []) ⊎ (output_frozen w ≡ true)
    pub pushed :
        (after ≡ relay_all p sent w) ⊎ ((now : ℕ) × (after ≡ push_time now (relay_all p sent w)))

  Fits-nil :
      (m : Machine Event) (mids : List Event) → Fits p m mids → m.state ≡ st_normal → mids ≡ []
  Fits-nil m [] f e = refl
  Fits-nil m (z ∷ rest) f e = absurd (f.0 e)

  square-le : (n k : ℕ) → n ≤ k → n * n ≤ k * k
  square-le n k h = grind arith

  rounds-le : (mids ins : ℕ) → mids + ins ≤ 100 → rounds p c mids ins ≤ 10100
  rounds-le mids ins h = omega (arith, square-le (mids + ins) 100 h)

  module _ (law : IsLawful p) (fuel : ℕ) (enough : 10100 < fuel) where
    rounds-lt : (mids ins : ℕ) → mids + ins ≤ 100 → rounds p c mids ins < fuel
    rounds-lt mids ins h =
        let bound : rounds p c mids ins ≤ 10100 = rounds-le mids ins h in omega arith

    joined-Handled :
        (force_also : Bool) (outs mids ins : List Event) (w : World) (n : Machine Event)
        → (old : ℕ → ℕ) (r : Ran p c force_also old w outs (mids ++ ins) n)
        → (s : Machine Event × World) → Handed p c n.fork_active (outs ++ r.sent) r.mids r.ins w s
        → Handled force_also old outs (mids ++ ins) w s.0 s.1
    joined-Handled force_also outs mids ins w n old r s h = record {
      before = r.before;
      decided = r.sent;
      sent = h.flushed.sent;
      outs = h.flushed.left;
      mids = r.mids;
      ins = r.ins;
      inv = h.flushed.inv;
      taken = r.taken;
      traced =
          subst (λ f. Traced p (sent_as old) r.before r.sent (sent_as f)) (sym h.flushed.still)
            r.traced;
      output = sym h.flushed.all;
      same =
          ap (map (payload p)) (
            sym (append_assoc h.flushed.sent h.flushed.left (r.mids ++ r.ins))
            ∙ ap (λ t. t ++ (r.mids ++ r.ins)) (sym h.flushed.all)
            ∙ append_assoc outs r.sent (r.mids ++ r.ins))
          ∙ map-append (payload p) outs (r.sent ++ (r.mids ++ r.ins))
          ∙ ap (λ t. map (payload p) outs ++ t) r.same
          ∙ sym (map-append (payload p) outs (mids ++ ins));
      open_output = h.flushed.open_output;
      drained = rw h.flushed.world at h.flushed.drained;
      used_up = elim r.settled [ inl e ↦ inr e | inr t ↦ inl t.used_up ];
      forced = λ f. elim r.settled [
        | inl e ↦ inr e
        | inr t ↦ inl (Fits-nil n r.mids r.inv.stage (t.forced f))
      ];
      pushed = rw h.flushed.world at h.pushed;
    }

    -- run_automaton ends without a fault, whatever the queues hold.
    pub run_automaton-Handled :
        (force_also : Bool) (m : Machine Event) (w : World) (outs mids ins : List Event)
        → NoRepeats p c (mids ++ ins)
        → Inv p c m outs mids ins
        → Returns
            (λ r. Handled force_also m.fork_active outs (mids ++ ins) w r.0 r.1)
            (run_automaton p fuel force_also m w)
    unfolding run_automaton
    run_automaton-Handled force_also m w outs mids ins h v =
        >>=-Returns
          (automaton_loop-Ran p c law force_also w fuel m outs mids ins
            (rounds-lt (length mids) (length ins) (omega (arith, total-le outs mids ins v.split))) h
            v)
          (λ n r.
            map-Returns (λ s t. joined-Handled force_also outs mids ins w n m.fork_active r s t)
              (flush_to_next-Handed p c fuel n w (outs ++ r.sent) r.mids r.ins
                (omega (arith, total-le (outs ++ r.sent) r.mids r.ins r.inv.split)) r.inv))

    -- From a machine that satisfies Inv and NoRepeats, with fuel above 10100, accept_confirmation
    -- ends without a fault and handles the events of the queues as Handled says for a forced run:
    -- unless the output is frozen, the internal and input queues are empty afterwards, so that
    -- every event has been decided.
    pub accept_confirmation-Handled :
        (m : Machine Event) (w : World) (outs mids ins : List Event)
        → NoRepeats p c (mids ++ ins)
        → Inv p c m outs mids ins
        → Returns
            (λ r. Handled true m.fork_active outs (mids ++ ins) w r.0 r.1)
            (accept_confirmation p fuel m w)
    unfolding accept_confirmation
    accept_confirmation-Handled m w outs mids ins h v =
        run_automaton-Handled true m w outs mids ins h v

    -- From a machine that satisfies Inv and NoRepeats, with fuel above 10100 and a time that is not
    -- before the machine's current time, accept_time ends without a fault, returns the next
    -- decision time and handles the events of the queues as Handled says, in order and unchanged
    -- but for key codes.
    pub accept_time-Handled :
        (m : Machine Event) (w : World) (now : ℕ) (outs mids ins : List Event)
        → m.current_time ≤ now
        → NoRepeats p c (mids ++ ins)
        → Inv p c m outs mids ins
        → Returns
            (λ r.
              Handled false m.fork_active outs (mids ++ ins) w r.1 r.2
              × (r.0 ≡ next_decision_time p r.1))
            (accept_time p fuel m w now)
    unfolding accept_time
    accept_time-Handled m w now outs mids ins late h v =
        let e : ltb now m.current_time ≡ false = ground arith in
        rw e (
          >>=-Returns
            (run_automaton-Handled false (record m { current_time = now }) w outs mids ins h
              (at_time p c now m outs mids ins v))
            (λ r t. returns _ (t, refl)))

    -- From a machine that satisfies Inv, with fewer than 100 events in its queues, no press of a
    -- key up to the release of that key after an earlier press of it unless it is configured to
    -- repeat, a key code below max_keycode and fuel above 10100, accept_event ends without a
    -- fault and returns the next decision time. The events of the three queues, and the new one as
    -- their last unless it presses a forked key, are then handled as Handled says: a first part is
    -- relayed in order while the output is open, the rest is in the queues in order, and no event
    -- changes in more than its key code.
    pub accept_event-Handled :
        (m : Machine Event) (w : World) (e : Event) (outs mids ins : List Event)
        → detail_of e < max_keycode
        → length outs + length mids + length ins < 100
        → NoRepeats p c (mids ++ (ins ++ arriving p m e))
        → Inv p c m outs mids ins
        → Returns
            (λ r.
              Handled false m.fork_active outs (mids ++ (ins ++ arriving p m e)) w r.1 r.2
              × (r.0 ≡ next_decision_time p r.1))
            (accept_event p fuel m w e)
    unfolding accept_event
    accept_event-Handled m w e outs mids ins key room h v = rw (enqueue_event-eq p c m e key) (
        >>=-Returns
          (run_automaton-Handled false (queued p m e) w outs mids (ins ++ arriving p m e) h
            (queued-Inv p c m e outs mids ins key room v))
          (λ r t. returns _ (
            subst (λ f. Handled false f outs (mids ++ (ins ++ arriving p m e)) w r.0 r.1)
                (active-queued p c m e) t,
            refl,
          )))

  -- A new machine is consistent, with empty queues.
  pub forking_machine-Inv : Inv p c (forking_machine Event c) [] [] []
  unfolding forking_machine
  forking_machine-Inv = record {
    split = triqueue-Split 100 (omega arith) (omega arith);
    stage = refl;
    configured = refl;
    tidy = record { forked = λ k h i. absurd (h refl) };
    coded = tt;
  }
