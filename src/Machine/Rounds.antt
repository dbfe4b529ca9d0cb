-- ===== src/Machine/Rounds.antt =====
-- src/machine.h: one round of the loop of run_automaton.
use fork_plugin.Prelude.{
  ◌<◌, ◌≡◌, ◌≢◌, ◌⊎◌, inl, inr, refl, Bool, true, false, not, ◌&&◌, List, [], ◌∷◌, ◌++◌, arith, leb,
  ◌!=◌,
}
use fork_plugin.Platform.{Platform, IsLawful}
use fork_plugin.Config.{ForkConfiguration}
use fork_plugin.Triqueue.Refine.{third_empty-eq, peek_third-eq, middle_empty-eq}
use fork_plugin.Machine.{
  Machine, Outcome, done, ◌>>=◌, st_normal, reason_long, reason_force, is_normal,
  transition_by_time, transition_by_force,
}
use fork_plugin.Machine.Run.{Round, again, stop, idle_round, round, try_time, try_force}
use fork_plugin.Machine.Moves.{
  Returns, returns, if-Returns, Inv, Decided, activate_fork_rewind-Decided,
}
use fork_plugin.Machine.Progress.Kinds.{Progress, decided, waiting, stalled, is_normal-ne}
use fork_plugin.Machine.Progress.{transition_by_key-Progress}

pub >>=-Returns :
    {A B : Type 0} {P : A → Type 0} {Q : B → Type 0} {o : Outcome A} {f : A → Outcome B}
    → Returns P o
    → ((a : A) → P a → Returns Q (f a))
    → Returns Q (o >>= f)
>>=-Returns (returns a h) k = k a h

module _ (p : Platform) (c : ForkConfiguration) where
  open p use {Event, World, press_p, detail_of, output_frozen}

  -- Nothing is left to do: the output is frozen, or the input is used up, the decision is not due
  -- at the machine's time, and if it is to be forced it has been made.
  pub record Settled (force_also : Bool) (m : Machine Event) (ins : List Event) : Type 0 where
    pub used_up : ins ≡ []
    pub not_due : m.state ≢ st_normal → m.current_time ≢ 0 → m.current_time < m.decision_time
    pub forced : force_also ≡ true → m.state ≡ st_normal

  pub data Turn (force_also : Bool) (w : World) (m : Machine Event) (outs mids ins : List Event)
      : Round (Machine Event) → Type 0 where
    decide :
        (n : Machine Event)
        → Decided p c m.fork_active outs (mids ++ ins) n
        → Turn force_also w m outs mids ins (again n)
    join :
        (n : Machine Event) (x : Event) (rest : List Event)
        → ins ≡ x ∷ rest
        → Inv p c n outs (mids ++ (x ∷ [])) rest
        → n.fork_active ≡ m.fork_active
        → Turn force_also w m outs mids ins (again n)
    stall :
        (n : Machine Event) (x : Event) (rest : List Event)
        → ins ≡ x ∷ rest
        → n ≡ m
        → mids ≢ []
        → press_p x ≡ true
        → detail_of x ≡ m.suspect
        → m.config.fork_repeatable (detail_of x) ≡ false
        → Turn force_also w m outs mids ins (again n)
    finish :
        (n : Machine Event)
        → Inv p c n outs mids ins
        → n.fork_active ≡ m.fork_active
        → (output_frozen w ≡ true) ⊎ Settled force_also n ins
        → Turn force_also w m outs mids ins (stop n)

  -- Time has decided the first pending event, or it was not due and nothing happened.
  abbrev Timed : (outs mids : List Event) → Machine Event → Machine Event × Bool → Type 0
  Timed outs mids m r =
      ((r.1 ≡ true) × Decided p c m.fork_active outs (mids ++ []) r.0)
      ⊎ ((r ≡ (m, false)) × (m.current_time ≢ 0 → m.current_time < m.decision_time))

  module _ (w : World) (m : Machine Event) where
    try_time-idle : m.state ≡ st_normal → try_time p m ≡ done (m, false)
    unfolding try_time
    try_time-idle e = ground arith

    try_time-busy :
        IsLawful p
        → (outs : List Event) (z : Event) (rest : List Event) → Inv p c m outs (z ∷ rest) []
        → Returns (Timed outs (z ∷ rest) m) (try_time p m)
    unfolding try_time transition_by_time
    try_time-busy law outs z rest v =
        if-Returns (Timed outs (z ∷ rest) m) (not (is_normal m.state) && m.current_time != 0)
          (λ a.
            if-Returns (Timed outs (z ∷ rest) m) (is_normal m.state) (λ b. absurd (ground arith))
              (λ b.
                if-Returns (Timed outs (z ∷ rest) m) (leb m.decision_time m.current_time)
                  (λ d.
                    >>=-Returns
                      (activate_fork_rewind-Decided p c m law reason_long z rest [] v.split
                        v.configured v.tidy v.coded v.stage.1 (ground arith))
                      (λ n h. returns _ (inl (refl, h))))
                  (λ d. returns _ (inr (refl, λ k. ground arith)))))
          (λ a.
            returns _ (inr (refl, λ k. absurd (ground (arith, is_normal-ne m.state v.stage.0)))))

    try_force-idle :
        (force_also : Bool) → m.state ≡ st_normal → try_force p force_also m ≡ done (stop m)
    unfolding try_force
    try_force-idle force_also e = ground arith

    try_force-busy :
        IsLawful p
        → (force_also : Bool) (outs : List Event) (z : Event) (rest : List Event)
        → Inv p c m outs (z ∷ rest) []
        → (m.current_time ≢ 0 → m.current_time < m.decision_time)
        → Returns (Turn force_also w m outs (z ∷ rest) []) (try_force p force_also m)
    unfolding try_force transition_by_force
    try_force-busy law force_also outs z rest v early =
        let P : Round (Machine Event) → Type 0 = Turn force_also w m outs (z ∷ rest) [] in
        if-Returns P (force_also && not (is_normal m.state))
          (λ a.
            rw (is_normal-ne m.state v.stage.0, middle_empty-eq outs (z ∷ rest) [] v.split)
              (>>=-Returns
                (activate_fork_rewind-Decided p c m law reason_force z rest [] v.split v.configured
                  v.tidy v.coded v.stage.1 (ground arith))
                (λ n h. returns _ (decide n h))))
          (λ a. returns _ (
            finish m v refl (
              inr record {
                used_up = refl;
                not_due = λ h. early;
                forced = λ f. absurd (ground (arith, is_normal-ne m.state v.stage.0));
              })))

    -- With an empty input queue, time or force decides the suspected event, or the loop ends.
    idle-Turn :
        IsLawful p
        → (force_also : Bool) (outs mids : List Event) → Inv p c m outs mids []
        → Returns (Turn force_also w m outs mids []) (idle_round p force_also m)
    unfolding idle_round
    idle-Turn law force_also outs [] v =
        rw (try_time-idle v.stage, try_force-idle force_also v.stage)
          (returns _ (
            finish m v refl (
              inr record {
                used_up = refl;
                not_due = λ h. absurd (h v.stage);
                forced = λ f. v.stage;
              })))
    idle-Turn law force_also outs (z ∷ rest) v =
        >>=-Returns (try_time-busy law outs z rest v) (λ r t. elim t [
          | inl h ↦ rw h.0 (returns _ (decide r.0 h.1))
          | inr h ↦ rw h.0 (try_force-busy law force_also outs z rest v h.1)
        ])

    Progress-Turn :
        {force_also : Bool} {outs mids : List Event} {x : Event} {ins : List Event}
        (n : Machine Event)
        → Progress p c m outs mids x ins n
        → Turn force_also w m outs mids (x ∷ ins) (again n)
    Progress-Turn n (decided d) = decide n d
    Progress-Turn n (waiting v fa) = join n _ _ refl v fa
    Progress-Turn n (stalled e ne pr k f) = stall n _ _ refl e ne pr k f

    pub round-Turn :
        IsLawful p
        → (force_also : Bool) (outs mids ins : List Event) → Inv p c m outs mids ins
        → Returns (Turn force_also w m outs mids ins) (round p force_also w m)
    unfolding round
    round-Turn law force_also outs mids [] v =
        if-Returns (Turn force_also w m outs mids []) (output_frozen w)
          (λ f. returns _ (finish m v refl (inl f)))
          (λ f. rw (third_empty-eq outs mids [] v.split) (idle-Turn law force_also outs mids v))
    round-Turn law force_also outs mids (x ∷ ins) v =
        if-Returns (Turn force_also w m outs mids (x ∷ ins)) (output_frozen w)
          (λ f. returns _ (finish m v refl (inl f)))
          (λ f.
            rw (third_empty-eq outs mids (x ∷ ins) v.split, peek_third-eq outs mids x ins v.split)
              (>>=-Returns (transition_by_key-Progress p c w m law outs mids x ins v)
                (λ n g. returns _ (Progress-Turn n g))))
