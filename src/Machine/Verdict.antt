-- ===== src/Machine/Verdict.antt =====
-- src/machine.h: how transition_by_key and transition_by_time decide on the suspected key.
use mathlib.Core.Path.{subst}
use fork_plugin.Prelude.{
  ℕ, ◌≤◌, ◌<◌, ◌≡◌, ◌≢◌, refl, ◌∙◌, ap, true, false, All, All-last, ◌&&◌, not, List, [], ◌∷◌, ◌++◌,
  arith, leb, ltb, ◌==◌, ◌!=◌, if◌then◌else◌, update,
}
use fork_plugin.Platform.{Platform, IsLawful}
use fork_plugin.Config.{ForkConfiguration, verifier_decision_time}
use fork_plugin.Triqueue.Refine.{Split}
use fork_plugin.Machine.{
  Machine, st_normal, st_suspect, st_verify, ForkReason, reason_long, reason_short, is_normal,
  is_suspect, key_forked, do_confirm_non_fork_by, activate_fork_rewind, apply_event_to_suspect,
  apply_event_to_verify_state, start_verifying, change_state, transition_by_key, transition_by_time,
}
use fork_plugin.Machine.Codes.{IsTidy}
use fork_plugin.Triqueue.{move_to_first}
use fork_plugin.Machine.{activate_fork, rewind_machine, no_key}
use fork_plugin.Machine.Moves.{
  activate_fork-Inv, activate_fork_rewind-eq, do_confirm-Inv, do_confirm-eq, Returns, returns,
  if-Returns, IsCoded, Inv,
}
use fork_plugin.Machine.Progress.Kinds.{is_normal-ne}
use fork_plugin.Machine.Progress.Waiting.{joined}
use fork_plugin.Machine.Rounds.{>>=-Returns}

module _ (p : Platform) (c : ForkConfiguration) where
  open p use {
    Event, World, press_p, release_p, time_of, detail_of, rewrite_event, time_mod, max_keycode,
    verification_matrix,
  }

  -- The press has been sent out under the code of its fork, which is now active for its key, and
  -- the other pending events are input again.
  pub record Forked (m : Machine Event) (outs : List Event) (z : Event) (pending : List Event)
      (n : Machine Event) : Type 0 where
    pub inv : Inv p c n (outs ++ (rewrite_event z (c.fork_keycode (detail_of z)) ∷ [])) [] pending
    pub active : n.fork_active ≡ update m.fork_active (detail_of z) (c.fork_keycode (detail_of z))

  -- The press has been sent out under its own code, and the active forks are what they were.
  pub record Unforked (m : Machine Event) (outs : List Event) (z : Event) (pending : List Event)
      (n : Machine Event) : Type 0 where
    pub inv : Inv p c n (outs ++ (z ∷ [])) [] pending
    pub active : n.fork_active ≡ m.fork_active

  -- The event has joined the internal queue, and the active forks are what they were. The press of
  -- a second key may bring the decision time forward.
  pub record Waiting (m : Machine Event) (outs mids : List Event) (x : Event) (ins : List Event)
      (n : Machine Event) : Type 0 where
    pub inv : Inv p c n outs (mids ++ (x ∷ [])) ins
    pub active : n.fork_active ≡ m.fork_active
    pub decision :
        let limit =
          verifier_decision_time verification_matrix time_mod c m.suspect m.suspect_time
            (detail_of x)
            (time_of x) in
        n.decision_time ≡ (
          if is_suspect m.state && (press_p x && ltb limit m.decision_time)
          then limit
          else m.decision_time)

  module _ (m : Machine Event) where
    active-activate_fork :
        (z : Event)
        → (activate_fork p m z).fork_active
          ≡ update m.fork_active (detail_of z) (m.config.fork_keycode (detail_of z))
    unfolding activate_fork
    active-activate_fork z = refl

    active-rewind_machine : (rewind_machine p m).fork_active ≡ m.fork_active
    unfolding rewind_machine
    active-rewind_machine = refl

  module _ (m : Machine Event) {outs : List Event} where
    activate_fork_rewind-Forked :
        (reason : ForkReason) (z : Event) (rest ins : List Event)
        → Split 100 m.tq outs (z ∷ rest) ins
        → m.config ≡ c
        → IsTidy c m.fork_active
        → All (IsCoded p) (z ∷ (rest ++ ins))
        → m.config.fork_keycode (detail_of z) ≢ no_key
        → Returns (Forked m outs z (rest ++ ins)) (activate_fork_rewind p reason m)
    activate_fork_rewind-Forked reason z rest ins s e t w has =
        let key = detail_of z in
        let code = ap (λ k. k.fork_keycode key) e in
        rw (activate_fork_rewind-eq p c m reason z rest ins s w.0) (
          returns _ record {
            inv =
                subst
                  (λ k.
                    Inv p c (activate_fork p m z) (outs ++ (rewrite_event z k ∷ [])) []
                      (rest ++ ins))
                  code (activate_fork-Inv p c m z rest ins s e t w has);
            active = active-activate_fork m z ∙ ap (λ k. update m.fork_active key k) code;
          })

    do_confirm-Unforked :
        (reason : ForkReason) (z : Event) (rest ins : List Event)
        → Split 100 m.tq outs (z ∷ rest) ins
        → is_normal m.state ≡ false
        → m.config ≡ c
        → IsTidy c m.fork_active
        → All (IsCoded p) (z ∷ (rest ++ ins))
        → Returns (Unforked m outs z (rest ++ ins)) (do_confirm_non_fork_by p reason m)
    do_confirm-Unforked reason z rest ins s n e t w = rw (do_confirm-eq p c m reason n) (
        returns _ record {
          inv = do_confirm-Inv p c m z rest ins s e t w;
          active = active-rewind_machine (record m { tq = move_to_first m.tq });
        })

  module _ (w : World) (m : Machine Event) where
    within_index :
        (outs : List Event) (z : Event) (rest : List Event) (x : Event) (ins : List Event)
        → Inv p c m outs (z ∷ rest) (x ∷ ins)
        → ltb (detail_of x) max_keycode ≡ true
    within_index outs z rest x ins v =
        let k : IsCoded p x = (All-last (IsCoded p) rest (x ∷ ins) v.coded.1).0 in ground arith

    -- The event is not the press of a key that is active as another one.
    abbrev pub IsFresh : Event → Type 0
    IsFresh x =
        (key_forked p m (detail_of x) && (press_p x && detail_of x != m.fork_active (detail_of x)))
        ≡ false

    -- While the press of a key waits for a decision, any event from the decision time on makes
    -- transition_by_key send the press out under the code of its fork, which becomes active for the
    -- key; the event itself and all others stay pending, in order. The condition is that the event
    -- does not press a key that is active as another one.
    pub transition_by_key-late :
        (outs : List Event) (z : Event) (rest : List Event) (x : Event) (ins : List Event)
        → Inv p c m outs (z ∷ rest) (x ∷ ins)
        → IsFresh x
        → m.decision_time ≤ time_of x
        → Returns (Forked m outs z (rest ++ (x ∷ ins))) (transition_by_key p w m x)
    unfolding transition_by_key
    transition_by_key-late outs z rest x ins v fresh late =
        let due : leb m.decision_time (time_of x) ≡ true = ground arith in
        rw (within_index outs z rest x ins v, fresh, is_normal-ne m.state v.stage.0, due)
          (activate_fork_rewind-Forked m reason_long z rest (x ∷ ins) v.split v.configured v.tidy
            v.coded (ground arith))

    -- While the press of a key waits for a decision, the release of that key before the decision
    -- time makes transition_by_key send the press out under its own code and leave the active forks
    -- alone; the release and all other events stay pending, in order.
    pub transition_by_key-short :
        IsLawful p
        → (outs : List Event) (z : Event) (rest : List Event) (x : Event) (ins : List Event)
        → Inv p c m outs (z ∷ rest) (x ∷ ins)
        → release_p x ≡ true
        → detail_of x ≡ m.suspect
        → time_of x < m.decision_time
        → Returns (Unforked m outs z (rest ++ (x ∷ ins))) (transition_by_key p w m x)
    unfolding transition_by_key apply_event_to_suspect apply_event_to_verify_state
    transition_by_key-short law outs z rest x ins v r k early =
        let due : leb m.decision_time (time_of x) ≡ false = ground arith in
        let pressed : press_p x ≡ false = ground (arith, law.press_not_release x) in
        let same : (detail_of x == m.suspect) ≡ true = ground arith in
        let fresh : IsFresh x = ground arith in
        let confirmed : (reason : ForkReason) → _ = λ reason.
          do_confirm-Unforked m reason z rest (x ∷ ins) v.split (is_normal-ne m.state v.stage.0)
            v.configured v.tidy v.coded in
        rw
          (within_index outs z rest x ins v, fresh, is_normal-ne m.state v.stage.0, due, pressed, r)
          (if-Returns (Unforked m outs z (rest ++ (x ∷ ins))) (is_suspect m.state)
            (λ e. rw (e, same) (confirmed reason_short)) (λ e. rw same (confirmed reason_short)))

    -- While the press of a key waits for a decision, an event of another key before the decision
    -- time, which does not press a key that is active as another one, makes transition_by_key
    -- decide nothing: the event joins the internal queue at its end and the active forks are left
    -- alone. In the suspect state its press makes the decision time the earlier of what it was and
    -- the limit that verifier_decision_time gives for the two keys; else that time stays.
    pub transition_by_key-waits :
        IsLawful p
        → (outs : List Event) (z : Event) (rest : List Event) (x : Event) (ins : List Event)
        → Inv p c m outs (z ∷ rest) (x ∷ ins)
        → IsFresh x
        → detail_of x ≢ m.suspect
        → time_of x < m.decision_time
        → Returns (Waiting m outs (z ∷ rest) x ins) (transition_by_key p w m x)
    unfolding transition_by_key apply_event_to_suspect apply_event_to_verify_state start_verifying
        change_state
    transition_by_key-waits law outs z rest x ins v fresh other early =
        let P : Machine Event → Type 0 = Waiting m outs (z ∷ rest) x ins in
        let due : leb m.decision_time (time_of x) ≡ false = ground arith in
        let differs : (detail_of x == m.suspect) ≡ false = ground arith in
        rw (within_index outs z rest x ins v, fresh, is_normal-ne m.state v.stage.0, due, differs)
          (if-Returns P (not (press_p x) && not (release_p x))
            (λ d. returns _ record {
              inv =
                  joined p c w m outs z rest x ins v _ refl v.stage.0 refl refl refl refl
                    (ground arith);
              active = refl;
              decision = ground arith;
            })
            (λ d.
              if-Returns P (is_suspect m.state)
                (λ e. rw e (
                  if-Returns P (release_p x)
                    (λ r. returns _ record {
                      inv =
                          joined p c w m outs z rest x ins v _ refl v.stage.0 refl refl refl refl
                            (ground arith);
                      active = refl;
                      decision = ground (arith, law.press_not_release x);
                    })
                    (λ r. returns _ record {
                      inv =
                          joined p c w m outs z rest x ins v _ refl
                            (λ (h : st_verify ≡ st_normal). cc) refl refl refl refl (ground arith);
                      active = refl;
                      decision = ground (
                        arith,
                        ap
                            (λ k.
                              verifier_decision_time verification_matrix time_mod k m.suspect
                                m.suspect_time (detail_of x) (time_of x))
                            v.configured,
                      );
                    })))
                (λ e.
                  if-Returns P (m.verificator_keycode == detail_of x && release_p x)
                    (λ r. returns _ record {
                      inv =
                          joined p c w m outs z rest x ins v _ refl
                            (λ (h : st_suspect ≡ st_normal). cc) refl refl refl refl (ground arith);
                      active = refl;
                      decision = ground arith;
                    })
                    (λ r. returns _ record {
                      inv =
                          joined p c w m outs z rest x ins v _ refl v.stage.0 refl refl refl refl
                            (ground arith);
                      active = refl;
                      decision = ground arith;
                    }))))

    -- While the press of a key waits for a decision, a time from the decision time on makes
    -- transition_by_time return true and send the press out under the code of its fork, which
    -- becomes active for the key; all other events stay pending, in order.
    pub transition_by_time-late :
        (outs : List Event) (z : Event) (rest ins : List Event) (now : ℕ)
        → Inv p c m outs (z ∷ rest) ins
        → m.decision_time ≤ now
        → Returns
            (λ r. Forked m outs z (rest ++ ins) r.0 × (r.1 ≡ true))
            (transition_by_time p m now)
    unfolding transition_by_time
    transition_by_time-late outs z rest ins now v late =
        let due : leb m.decision_time now ≡ true = ground arith in
        rw (is_normal-ne m.state v.stage.0, due)
          (>>=-Returns
            (activate_fork_rewind-Forked m reason_long z rest ins v.split v.configured v.tidy
              v.coded (ground arith))
            (λ n f. returns _ (f, refl)))
