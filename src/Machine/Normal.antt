-- ===== src/Machine/Normal.antt =====
-- src/machine.h: what transition_by_key does with a forkable key in the normal state.
use mathlib.Core.Path.{subst}
use fork_plugin.Prelude.{
  ltb, ℕ, ◌+◌, ◌%◌, ◌≡◌, ◌≢◌, ◌⊎◌, refl, sym, ap, ◌∙◌, true, false, ◌&&◌, ◌||◌, not, List, [], ◌∷◌,
  ◌++◌, arith, ◌==◌, ◌!=◌, update,
}
use fork_plugin.Platform.{Platform, IsLawful}
use fork_plugin.Config.{ForkConfiguration, keycode_unused, verification_interval_of}
use fork_plugin.Triqueue.Refine.{middle_empty-eq, move_to_second-Split, write_third-Split}
use fork_plugin.Machine.{
  Machine, st_normal, st_suspect, no_key, is_normal, key_forked, forkable_p, time_difference_more,
  note_fork_release, release_active, press_forkable, apply_event_to_normal, transition_by_key,
  change_state,
}
use fork_plugin.Machine.Codes.{IsTidy, IsTidy-update}
use fork_plugin.Machine.Moves.{Returns, returns, Inv, pass_along-Inv}
use fork_plugin.Machine.Progress.Normal.{note_fork_release-same}

module _ (p : Platform) (c : ForkConfiguration) where
  open p use {
    max_keycode, Event, World, press_p, release_p, time_of, detail_of, rewrite_event, ignore_event,
    time_mod, verification_matrix,
  }

  -- The event has been sent out under the given code, and its key is now active as `code_after`.
  pub record Sent (m : Machine Event) (outs : List Event) (x : Event) (code_after : ℕ)
      (ins : List Event) (n : Machine Event) : Type 0 where
    pub inv : Inv p c n (outs ++ (x ∷ [])) [] ins
    pub active : n.fork_active ≡ update m.fork_active (detail_of x) code_after

  -- The press waits as the suspect, until the limit of its key has passed.
  pub record Suspected (m : Machine Event) (outs : List Event) (x : Event) (ins : List Event)
      (n : Machine Event) : Type 0 where
    pub inv : Inv p c n outs (x ∷ []) ins
    pub active : n.fork_active ≡ m.fork_active
    pub suspecting : n.state ≡ st_suspect
    pub decision :
        n.decision_time
        ≡ (time_of x + verification_interval_of verification_matrix c (detail_of x) keycode_unused)
          % time_mod

  module _ (w : World) (m : Machine Event) where
    active-note_fork_release : (x : Event) → (note_fork_release p m x).fork_active ≡ m.fork_active
    unfolding note_fork_release
    active-note_fork_release x = ground arith

    active-release_active :
        (x : Event) → (release_active p m x).fork_active ≡ update m.fork_active (detail_of x) no_key
    unfolding release_active
    active-release_active x = ap (λ f. update f (detail_of x) no_key) (active-note_fork_release x)

    release_active-Inv :
        (outs : List Event) (x : Event) (ins : List Event)
        → Inv p c m outs [] (x ∷ ins)
        → Inv p c
            (release_active p m x)
            (outs ++ (rewrite_event x ((note_fork_release p m x).fork_active (detail_of x)) ∷ []))
            []
            ins
    unfolding release_active
    release_active-Inv outs x ins v =
        let (q, st, cf, fa) = note_fork_release-same p c w m x in
        pass_along-Inv p c _ _ ins (write_third-Split outs [] x _ ins (rw q v.split)) (st ∙ v.stage)
          (cf ∙ v.configured)
          (subst (λ f. IsTidy c (update f (detail_of x) no_key)) (sym fa)
            (IsTidy-update c m.fork_active (detail_of x) no_key v.tidy (λ h k. absurd (h refl))))
          v.coded.1

    -- In the normal state of a machine that satisfies Inv, so that the configuration still gives a fork
    -- to each key that is active as another one, the release of a key that is active as some code is
    -- sent out under that code, and the key is no longer active as anything.
    pub transition_by_key-release :
        IsLawful p
        → (outs : List Event) (x : Event) (ins : List Event) → Inv p c m outs [] (x ∷ ins)
        → release_p x ≡ true
        → m.fork_active (detail_of x) ≢ no_key
        → Returns
            (λ n.
              Inv p c n (outs ++ (rewrite_event x (m.fork_active (detail_of x)) ∷ [])) [] ins
              × (n.fork_active ≡ update m.fork_active (detail_of x) no_key))
            (transition_by_key p w m x)
    unfolding transition_by_key apply_event_to_normal
    transition_by_key-release law outs x ins v r held =
        let key = detail_of x in
        let within : ltb (detail_of x) max_keycode ≡ true = ground (arith, v.coded) in
        let pressed : press_p x ≡ false = ground (arith, law.press_not_release x) in
        let fresh : (key_forked p m key && (press_p x && key != m.fork_active key)) ≡ false =
          ground arith in
        let plain : (forkable_p p m key && (press_p x && not (ignore_event w x))) ≡ false =
          ground arith in
        let active : (release_p x && m.fork_active key != no_key) ≡ true = ground arith in
        let normal : is_normal m.state ≡ true = ap is_normal v.stage in
        let code = ap (λ f. rewrite_event x (f key)) (active-note_fork_release x) in
        rw (within, fresh, normal, plain, active)
          (returns _ (
            subst (λ y. Inv p c (release_active p m x) (outs ++ (y ∷ [])) [] ins) code
                (release_active-Inv outs x ins v),
            active-release_active x,
          ))

    -- A press that can start a fork: of a forkable key that is not active as another one, and that
    -- the platform does not exempt.
    pub record IsForkable (x : Event) : Type 0 where
      pub pressed : press_p x ≡ true
      pub forkable : forkable_p p m (detail_of x) ≡ true
      pub heeded : ignore_event w x ≡ false
      pub unforked : key_forked p m (detail_of x) ≡ false

    IsForkable-taken :
        (x : Event)
        → IsForkable x
        → (forkable_p p m (detail_of x) && (press_p x && not (ignore_event w x))) ≡ true
    IsForkable-taken x f = ground (arith, f.pressed, f.forkable, f.heeded)

    IsForkable-has : (x : Event) → IsForkable x → m.config.fork_keycode (detail_of x) ≢ no_key
    unfolding forkable_p
    IsForkable-has x f = ground (arith, f.forkable)

    -- In the normal state, the press of a forkable key that is not active as another key or as itself,
    -- and that the platform does not exempt (IsForkable), where another key was released last or the
    -- limit for a repeat has passed since, is kept as the suspect: nothing is sent out, the active forks
    -- are left alone, and the decision time is that of the press plus the verification interval of the
    -- key, in the arithmetic of the type Time.
    pub transition_by_key-suspects :
        (outs : List Event) (x : Event) (ins : List Event)
        → Inv p c m outs [] (x ∷ ins)
        → IsForkable x
        → m.fork_active (detail_of x) ≢ detail_of x
        → (m.last_released ≢ detail_of x)
          ⊎ (time_difference_more p (time_of x) m.last_released_time c.repeat_max ≡ true)
        → Returns (Suspected m outs x ins) (transition_by_key p w m x)
    unfolding transition_by_key apply_event_to_normal press_forkable change_state
    transition_by_key-suspects outs x ins v f self slow =
        let key = detail_of x in
        let within : ltb (detail_of x) max_keycode ≡ true = ground (arith, v.coded) in
        let fresh : (key_forked p m key && (press_p x && key != m.fork_active key)) ≡ false =
          ground (arith, f.unforked) in
        let normal : is_normal m.state ≡ true = ap is_normal v.stage in
        let limit =
          ap (λ k. time_difference_more p (time_of x) m.last_released_time k.repeat_max)
            v.configured in
        let starts : (not (key_forked p m key)
              && (m.last_released != key
                  || time_difference_more p (time_of x) m.last_released_time m.config.repeat_max))
            ≡ true =
          ground (arith, f.unforked, limit) in
        let other : (m.fork_active key == key) ≡ false = ground arith in
        rw (within, fresh, normal, IsForkable-taken x f, starts, other)
          (returns _ record {
            inv = record {
              split = move_to_second-Split outs [] x ins v.split;
              stage = (
                (λ (e : st_suspect ≡ st_normal). cc),
                f.pressed,
                refl,
                refl,
                tt,
                IsForkable-has x f,
                ground arith,
              );
              configured = v.configured;
              tidy = v.tidy;
              coded = v.coded;
            };
            active = refl;
            suspecting = refl;
            decision =
                ap
                  (λ k.
                    (time_of x + verification_interval_of verification_matrix k key keycode_unused)
                    % time_mod)
                  v.configured;
          })

    -- In the normal state, the press of a forkable key that is not active as another key, and that the
    -- platform does not exempt (IsForkable), where this key was released last, within the limit for a
    -- repeat, is sent out under its own code, and after this step the key is active as itself.
    pub transition_by_key-repeats :
        (outs : List Event) (x : Event) (ins : List Event)
        → Inv p c m outs [] (x ∷ ins)
        → IsForkable x
        → m.last_released ≡ detail_of x
        → time_difference_more p (time_of x) m.last_released_time c.repeat_max ≡ false
        → Returns (Sent m outs x (detail_of x) ins) (transition_by_key p w m x)
    unfolding transition_by_key apply_event_to_normal press_forkable
    transition_by_key-repeats outs x ins v f last quick =
        let key = detail_of x in
        let within : ltb (detail_of x) max_keycode ≡ true = ground (arith, v.coded) in
        let fresh : (key_forked p m key && (press_p x && key != m.fork_active key)) ≡ false =
          ground (arith, f.unforked) in
        let normal : is_normal m.state ≡ true = ap is_normal v.stage in
        let limit =
          ap (λ k. time_difference_more p (time_of x) m.last_released_time k.repeat_max)
            v.configured in
        let starts : (not (key_forked p m key)
              && (m.last_released != key
                  || time_difference_more p (time_of x) m.last_released_time m.config.repeat_max))
            ≡ false =
          ground (arith, f.unforked, limit) in
        rw
          (
            within,
            fresh,
            normal,
            IsForkable-taken x f,
            starts,
            middle_empty-eq outs [] (x ∷ ins) v.split,
          )
          (returns _ record {
            inv =
                pass_along-Inv p c _ x ins v.split v.stage v.configured
                  (IsTidy-update c m.fork_active key key v.tidy (λ h k. absurd (k refl))) v.coded.1;
            active = refl;
          })
