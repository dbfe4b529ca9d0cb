-- ===== src/Machine/Progress/Normal.antt =====
-- src/machine.h: the progress of transition_by_key in the normal state.
use mathlib.Core.Path.{subst}
use fork_plugin.Prelude.{
  ℕ, update, ◌≡◌, ◌≢◌, refl, sym, ◌∙◌, true, false, All, ◌&&◌, ◌||◌, not, List, [], ◌∷◌, arith,
  ◌==◌, ◌!=◌,
}
use fork_plugin.Platform.{Platform, IsLawful}
use fork_plugin.Triqueue.Refine.{Split, middle_empty-eq, move_to_second-Split, write_third-Split}
use fork_plugin.Config.{ForkConfiguration}
use fork_plugin.Machine.{
  Machine, st_normal, st_suspect, is_normal, no_key, time_difference_more, key_forked, forkable_p,
  press_forkable, release_active, pass_unforkable, apply_event_to_normal, pass_along,
  note_fork_release, note_release,
}
use fork_plugin.Machine.Codes.{
  IsTidy, IsTidy-update, Paired, Paired-own, Paired-plain, Paired-release, sent_as,
}
use fork_plugin.Machine.Moves.{
  Returns, returns, if-Returns, payload, IsCoded, Inv, Decided, pass_along-Inv,
}
use fork_plugin.Machine.Progress.Kinds.{Progress, decided, waiting}

module _ (p : Platform) (c : ForkConfiguration) where
  open p use {Event, World, press_p, release_p, time_of, detail_of, rewrite_event, ignore_event}

  module _ (w : World) (m : Machine Event) where
    passed :
        (outs : List Event) (x y : Event) (ins : List Event) (n : Machine Event)
        → Split 100 n.tq outs [] (y ∷ ins)
        → n.state ≡ st_normal
        → n.config ≡ c
        → IsTidy c n.fork_active
        → All (IsCoded p) ins
        → payload p y ≡ payload p x
        → Paired p m.fork_active x y n.fork_active
        → Decided p c m.fork_active outs (x ∷ ins) (pass_along p n)
    unfolding pass_along
    passed outs x y ins n s e f t k same pair = record {
      before = x;
      after = y;
      rest = ins;
      taken = refl;
      same = same;
      paired = pair;
      inv = pass_along-Inv p c n y ins s e f t k;
    }

    key_forked-own : (key : ℕ) → key_forked p m key ≡ false → sent_as m.fork_active key ≡ key
    unfolding key_forked
    key_forked-own key h = ground arith

    pub key_forked-has :
        (key : ℕ)
        → m.config ≡ c
        → IsTidy c m.fork_active
        → key_forked p m key ≡ true
        → m.config.fork_keycode key ≢ no_key
    unfolding key_forked
    key_forked-has key e t h =
        subst (λ d. d.fork_keycode key ≢ no_key) (sym e)
          (t.forked key (ground arith) (ground arith))

    pub key_forked-fresh :
        (x : Event)
        → (key_forked p m (detail_of x)
            && (press_p x && detail_of x != m.fork_active (detail_of x)))
          ≡ false
        → press_p x ≡ true
        → key_forked p m (detail_of x) ≡ false
    unfolding key_forked
    key_forked-fresh x h pr = ground arith

    press_forkable-Progress :
        (outs : List Event) (x : Event) (ins : List Event)
        → Inv p c m outs [] (x ∷ ins)
        → IsLawful p
        → press_p x ≡ true
        → forkable_p p m (detail_of x) ≡ true
        → key_forked p m (detail_of x) ≡ false
        → Returns (Progress p c m outs [] x ins) (press_forkable p m x)
    unfolding press_forkable key_forked forkable_p
    press_forkable-Progress outs x ins v law pressed forkable unforked =
        if-Returns (Progress p c m outs [] x ins)
          (not (key_forked p m (detail_of x))
            && (m.last_released != detail_of x
                || time_difference_more p (time_of x) m.last_released_time m.config.repeat_max))
          (λ a.
            if-Returns (Progress p c m outs [] x ins) (m.fork_active (detail_of x) == detail_of x)
              (λ b. returns _ (
                decided (
                  passed outs x x ins m v.split v.stage v.configured v.tidy v.coded.1 refl (
                    Paired-own p law m.fork_active m.fork_active x pressed (ground arith)
                      (λ k. refl)))))
              (λ b. returns _ (
                waiting
                  record {
                    split = move_to_second-Split outs [] x ins v.split;
                    stage = (
                      λ (e : st_suspect ≡ st_normal). cc,
                      pressed,
                      refl,
                      refl,
                      tt,
                      ground arith,
                      ground arith,
                    );
                    configured = v.configured;
                    tidy = v.tidy;
                    coded = v.coded;
                  }
                  refl)))
          (λ a. rw (middle_empty-eq outs [] (x ∷ ins) v.split) (
            returns _ (
              decided (
                passed outs x x ins _ v.split v.stage v.configured
                  (IsTidy-update c m.fork_active (detail_of x) (detail_of x) v.tidy
                    (λ h k. absurd (k refl)))
                  v.coded.1 refl
                  (Paired-own p law m.fork_active _ x pressed (ground arith)
                    (λ k. ground arith))))))

    pub note_fork_release-same :
        (x : Event)
        → ((note_fork_release p m x).tq ≡ m.tq)
          × ((note_fork_release p m x).state ≡ m.state)
          × ((note_fork_release p m x).config ≡ m.config)
          × ((note_fork_release p m x).fork_active ≡ m.fork_active)
    unfolding note_fork_release
    note_fork_release-same x = ground arith

    note_release-same :
        (x : Event)
        → ((note_release p m x).tq ≡ m.tq)
          × ((note_release p m x).state ≡ m.state)
          × ((note_release p m x).config ≡ m.config)
          × ((note_release p m x).fork_active ≡ m.fork_active)
    unfolding note_release
    note_release-same x = ground arith

    release_active-Decided :
        IsLawful p
        → (outs : List Event) (x : Event) (ins : List Event) → Inv p c m outs [] (x ∷ ins)
        → release_p x ≡ true
        → m.fork_active (detail_of x) ≢ no_key
        → Decided p c m.fork_active outs (x ∷ ins) (release_active p m x)
    unfolding release_active
    release_active-Decided law outs x ins v r held =
        let key = detail_of x in
        let (q, st, cf, fa) = note_fork_release-same x in
        passed outs x _ ins _ (write_third-Split outs [] x _ ins (rw q v.split)) (st ∙ v.stage)
          (cf ∙ v.configured)
          (subst (λ f. IsTidy c (update f key no_key)) (sym fa)
            (IsTidy-update c m.fork_active key no_key v.tidy (λ h k. absurd (h refl))))
          v.coded.1 (law.rewrite_event_twice x _ 0)
          (subst (λ f. Paired p m.fork_active x (rewrite_event x (f key)) (update f key no_key))
            (sym fa) (Paired-release p law m.fork_active x r held))

    pass_unforkable-Decided :
        (outs : List Event) (x : Event) (ins : List Event)
        → Inv p c m outs [] (x ∷ ins)
        → (press_p x ≡ true → sent_as m.fork_active (detail_of x) ≡ detail_of x)
        → (release_p x ≡ true → m.fork_active (detail_of x) ≡ no_key)
        → Decided p c m.fork_active outs (x ∷ ins) (pass_unforkable p m x)
    unfolding pass_unforkable
    pass_unforkable-Decided outs x ins v pr re =
        let (q, st, cf, fa) = note_release-same x in
        passed outs x x ins _ (rw q v.split) (st ∙ v.stage) (cf ∙ v.configured)
          (subst (λ f. IsTidy c f) (sym fa) v.tidy) v.coded.1 refl
          (subst (λ f. Paired p m.fork_active x x f) (sym fa)
            (Paired-plain p m.fork_active x pr re))

    -- In the normal state an event is passed on, or becomes the suspect.
    pub normal-Progress :
        IsLawful p
        → (outs : List Event) (x : Event) (ins : List Event) → Inv p c m outs [] (x ∷ ins)
        → (press_p x ≡ true → key_forked p m (detail_of x) ≡ false)
        → Returns (Progress p c m outs [] x ins) (apply_event_to_normal p w m x)
    unfolding apply_event_to_normal
    normal-Progress law outs x ins v fresh =
        let P : Machine Event → Type 0 = Progress p c m outs [] x ins in
        let key = detail_of x in
        if-Returns P (not (is_normal m.state)) (λ e. absurd (ground arith))
          (λ e.
            if-Returns P (forkable_p p m key && (press_p x && not (ignore_event w x)))
              (λ t.
                press_forkable-Progress outs x ins v law (ground arith) (ground arith)
                  (fresh (ground arith)))
              (λ t.
                if-Returns P (release_p x && m.fork_active key != no_key)
                  (λ a. returns _ (
                    decided
                      (release_active-Decided law outs x ins v (ground arith) (ground arith))))
                  (λ a. returns _ (
                    decided (
                      pass_unforkable-Decided outs x ins v
                        (λ h. key_forked-own (detail_of x) (fresh h)) (λ h. ground arith))))))
