-- ===== src/Machine/Progress/Waiting.antt =====
-- src/machine.h: the progress of transition_by_key while a decision is waited for.
use mathlib.Core.Path.{subst}
use mathlib.Core.List.{append_assoc}
use fork_plugin.Prelude.{
  ℕ, ◌≡◌, ◌≢◌, refl, sym, ◌∙◌, Bool-cases, inl, inr, false, ◌&&◌, not, All, All-append, All-last,
  List, [], ◌∷◌, ◌++◌, arith, ◌==◌, ◌!=◌, leb, ltb, true,
}
use fork_plugin.Platform.{Platform, IsLawful}
use fork_plugin.Triqueue.{move_to_second}
use fork_plugin.Triqueue.Refine.{move_to_second-Split}
use fork_plugin.Config.{ForkConfiguration}
use fork_plugin.Machine.{
  Machine, st_normal, st_suspect, st_verify, reason_long, reason_force, reason_short, reason_wrong,
  ForkReason, change_state, is_normal, is_suspect, key_forked, apply_event_to_suspect,
  apply_event_to_verify_state, transition_by_key, start_verifying, do_confirm_non_fork_by,
}
use fork_plugin.Machine.Codes.{IsTidy, IsTidy-update, Paired-own, sent_as}
use fork_plugin.Machine.Moves.{
  Returns, returns, if-Returns, Keeps, IsCoded, Inv, do_confirm-Decided,
  activate_fork_rewind-Decided,
}
use fork_plugin.Machine.Progress.Kinds.{
  Progress, decided, waiting, stalled, map-Returns, is_normal-ne,
}

module _ (p : Platform) (c : ForkConfiguration) where
  open p use {
    Event, World, press_p, release_p, time_of, detail_of, rewrite_event, ignore_event, max_keycode,
  }

  joined-IsCoded :
      (z : Event) (rest : List Event) (x : Event) (ins : List Event)
      → All (IsCoded p) ((z ∷ rest) ++ (x ∷ ins))
      → All (IsCoded p) (((z ∷ rest) ++ (x ∷ [])) ++ ins)
  joined-IsCoded z rest x ins k =
      subst (All (IsCoded p)) (sym (append_assoc (z ∷ rest) (x ∷ []) ins)) k

  module _ (w : World) (m : Machine Event) where
    -- An event joins the internal queue while the machine waits for a decision.
    pub joined :
        (outs : List Event) (z : Event) (rest : List Event) (x : Event) (ins : List Event)
        → Inv p c m outs (z ∷ rest) (x ∷ ins)
        → (n : Machine Event) → n.tq ≡ move_to_second m.tq
        → n.state ≢ st_normal
        → n.suspect ≡ m.suspect
        → n.suspect_time ≡ m.suspect_time
        → n.config ≡ m.config
        → n.fork_active ≡ m.fork_active
        → Keeps p m.suspect x
        → Inv p c n outs ((z ∷ rest) ++ (x ∷ [])) ins
    joined outs z rest x ins v n q st s t cf fa k = record {
      split = rw q (move_to_second-Split outs (z ∷ rest) x ins v.split);
      stage = (
        st,
        v.stage.1,
        v.stage.2 ∙ sym s,
        v.stage.3 ∙ sym t,
        rw s (All-append (Keeps p m.suspect) rest (x ∷ []) v.stage.4 (k, tt)),
        rw (cf, s) v.stage.5,
        rw (fa, s) v.stage.6,
      );
      configured = cf ∙ v.configured;
      tidy = rw fa v.tidy;
      coded = joined-IsCoded z rest x ins v.coded;
    }

    confirmed :
        IsLawful p
        → (outs : List Event) (z : Event) (rest : List Event) (x : Event) (ins : List Event)
        → Inv p c m outs (z ∷ rest) (x ∷ ins)
        → (n : Machine Event) → n.tq ≡ m.tq
        → n.state ≡ m.state
        → n.config ≡ m.config
        → IsTidy c n.fork_active
        → ((key : ℕ) → sent_as n.fork_active key ≡ sent_as m.fork_active key)
        → (reason : ForkReason)
        → Returns (Progress p c m outs (z ∷ rest) x ins) (do_confirm_non_fork_by p reason n)
    confirmed law outs z rest x ins v n q st cf t fa reason =
        map-Returns (λ a h. decided h)
          (do_confirm-Decided p c n m.fork_active reason z rest (x ∷ ins) (rw q v.split)
            (is_normal-ne n.state (rw st v.stage.0)) (cf ∙ v.configured) t v.coded
            (Paired-own p law m.fork_active n.fork_active z v.stage.1 (ground arith) fa))

    confirmed_short :
        IsLawful p
        → (outs : List Event) (z : Event) (rest : List Event) (x : Event) (ins : List Event)
        → Inv p c m outs (z ∷ rest) (x ∷ ins)
        → Returns (Progress p c m outs (z ∷ rest) x ins) (do_confirm_non_fork_by p reason_short m)
    confirmed_short law outs z rest x ins v =
        confirmed law outs z rest x ins v m refl refl refl v.tidy (λ k. refl) reason_short

    suspect-Progress :
        IsLawful p
        → (outs : List Event) (z : Event) (rest : List Event) (x : Event) (ins : List Event)
        → Inv p c m outs (z ∷ rest) (x ∷ ins)
        → m.state ≡ st_suspect
        → (press_p x ≡ false → release_p x ≡ false → ⊥)
        → Returns (Progress p c m outs (z ∷ rest) x ins) (apply_event_to_suspect p m x)
    unfolding apply_event_to_suspect start_verifying
    suspect-Progress law outs z rest x ins v s key_event =
        let P : Machine Event → Type 0 = Progress p c m outs (z ∷ rest) x ins in
        let key = detail_of x in
        if-Returns P (not (is_suspect m.state)) (λ e. absurd (ground arith))
          (λ e.
            if-Returns P (release_p x)
              (λ r.
                if-Returns P (key == m.suspect) (λ k. confirmed_short law outs z rest x ins v)
                  (λ k. returns _ (
                    waiting
                      (joined outs z rest x ins v _ refl v.stage.0 refl refl refl refl
                        (ground arith))
                      refl)))
              (λ r.
                if-Returns P (key == m.suspect)
                  (λ k.
                    if-Returns P (m.config.fork_repeatable key)
                      (λ f.
                        confirmed law outs z rest x ins v _ refl refl refl
                          (IsTidy-update c m.fork_active m.suspect m.suspect v.tidy
                            (λ h i. absurd (i refl)))
                          (λ i. ground arith) reason_wrong)
                      (λ f. returns m (
                        stalled refl (λ h. cc)
                          (elim (Bool-cases (press_p x)) [
                            | inl h ↦ h
                            | inr h ↦ absurd (key_event h r)
                          ])
                          (ground arith) f)))
                  (λ k. returns _ (
                    waiting
                      (joined outs z rest x ins v _ refl (λ (h : st_verify ≡ st_normal). cc) refl
                        refl refl refl (ground arith))
                      refl))))

    verify-Progress :
        IsLawful p
        → (outs : List Event) (z : Event) (rest : List Event) (x : Event) (ins : List Event)
        → Inv p c m outs (z ∷ rest) (x ∷ ins)
        → Returns (Progress p c m outs (z ∷ rest) x ins) (apply_event_to_verify_state p m x)
    unfolding apply_event_to_verify_state change_state
    verify-Progress law outs z rest x ins v =
        let P : Machine Event → Type 0 = Progress p c m outs (z ∷ rest) x ins in
        let key = detail_of x in
        if-Returns P (key == m.suspect && release_p x)
          (λ e. confirmed_short law outs z rest x ins v)
          (λ e.
            if-Returns P (m.verificator_keycode == key && release_p x)
              (λ r. returns _ (
                waiting
                  (joined outs z rest x ins v _ refl (λ (h : st_suspect ≡ st_normal). cc) refl refl
                    refl refl (ground arith))
                  refl))
              (λ r. returns _ (
                waiting
                  (joined outs z rest x ins v _ refl v.stage.0 refl refl refl refl (ground arith))
                  refl)))

    pub waiting-Progress :
        IsLawful p
        → (outs : List Event) (z : Event) (rest : List Event) (x : Event) (ins : List Event)
        → Inv p c m outs (z ∷ rest) (x ∷ ins)
        → Returns (Progress p c m outs (z ∷ rest) x ins) (transition_by_key p w m x)
    unfolding transition_by_key
    waiting-Progress law outs z rest x ins v =
        let P : Machine Event → Type 0 = Progress p c m outs (z ∷ rest) x ins in
        let key = detail_of x in
        let within : ltb key max_keycode ≡ true =
          ground (arith, (All-last (IsCoded p) rest (x ∷ ins) v.coded.1).0) in
        rw within (
          if-Returns P (key_forked p m key && (press_p x && key != m.fork_active key))
            (λ a.
              map-Returns (λ n d. decided (rw append_assoc at d))
                (activate_fork_rewind-Decided p c _ law reason_force z (rest ++ (x ∷ [])) ins
                  (move_to_second-Split outs (z ∷ rest) x ins v.split) v.configured v.tidy
                  (joined-IsCoded z rest x ins v.coded) v.stage.1 (ground arith)))
            (λ a.
              if-Returns P (is_normal m.state) (λ b. absurd (ground arith))
                (λ b.
                  if-Returns P (leb m.decision_time (time_of x))
                    (λ k.
                      map-Returns (λ n d. decided d)
                        (activate_fork_rewind-Decided p c m law reason_long z rest (x ∷ ins) v.split
                          v.configured v.tidy v.coded v.stage.1 (ground arith)))
                    (λ k.
                      if-Returns P (not (press_p x) && not (release_p x))
                        (λ d. returns _ (
                          waiting
                            (joined outs z rest x ins v _ refl v.stage.0 refl refl refl refl
                              (ground arith))
                            refl))
                        (λ d.
                          if-Returns P (is_suspect m.state)
                            (λ e.
                              suspect-Progress law outs z rest x ins v (ground arith)
                                (λ h i. ground arith))
                            (λ e. verify-Progress law outs z rest x ins v))))))
