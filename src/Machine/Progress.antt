-- ===== src/Machine/Progress.antt =====
-- src/machine.h: what transition_by_key can do with the first event of the input queue.
pub mod Kinds
pub mod Normal
pub mod Waiting
use mathlib.Core.Path.{subst}
use mathlib.Core.List.{append_assoc}
use fork_plugin.Prelude.{
  ℕ, update, ◌≡◌, ◌≢◌, refl, sym, ◌∙◌, Bool-cases, inl, inr, true, false, ◌&&◌, ◌||◌, not,
  All-append, List, [], ◌∷◌, ◌++◌, arith, ◌==◌, ◌!=◌, leb, ltb,
}
use fork_plugin.Platform.{Platform, IsLawful}
use fork_plugin.Triqueue.{move_to_second}
use fork_plugin.Triqueue.Refine.{Split, middle_empty-eq, move_to_second-Split, write_third-Split}
use fork_plugin.Config.{ForkConfiguration}
use fork_plugin.Machine.{
  Machine, Outcome, st_normal, st_suspect, st_verify, reason_long, reason_force, reason_short,
  reason_wrong, ForkState, ForkReason, change_state, is_normal, is_suspect, no_key,
  time_difference_more, key_forked, forkable_p, press_forkable, release_active, pass_unforkable,
  apply_event_to_normal, apply_event_to_suspect, apply_event_to_verify_state, transition_by_key,
  pass_along, note_fork_release, note_release, start_verifying, do_confirm_non_fork_by,
}
use fork_plugin.Machine.Codes.{
  IsTidy, IsTidy-update, Paired, Paired-own, Paired-plain, Paired-release, sent_as,
}
use fork_plugin.Machine.Moves.{
  Returns, returns, if-Returns, payload, Keeps, Inv, Decided, pass_along-Inv, do_confirm-Decided,
  activate_fork_rewind-Decided,
}
use fork_plugin.Machine.Progress.Kinds.{
  Progress, decided, waiting, stalled, map-Returns, is_normal-ne,
}
use fork_plugin.Machine.Progress.Normal.{normal-Progress, key_forked-has, key_forked-fresh}
use fork_plugin.Machine.Progress.Waiting.{waiting-Progress}

module _ (p : Platform) (c : ForkConfiguration) where
  open p use {
    Event, World, press_p, release_p, time_of, detail_of, rewrite_event, ignore_event, max_keycode,
  }

  module _ (w : World) (m : Machine Event) where
    -- From a machine that satisfies Inv and has an input event, transition_by_key returns without a
    -- fault and makes one of three kinds of progress: it decides exactly one event, the first
    -- pending one, and puts the others back into the input queue in order; or it moves the input
    -- event to the end of the internal queue; or, if the event presses the suspected key again and
    -- that key is not configured to repeat, it changes nothing. Inv holds again in the first two
    -- cases.
    pub transition_by_key-Progress :
        IsLawful p
        → (outs mids : List Event) (x : Event) (ins : List Event) → Inv p c m outs mids (x ∷ ins)
        → Returns (Progress p c m outs mids x ins) (transition_by_key p w m x)
    unfolding transition_by_key
    transition_by_key-Progress law outs [] x ins v =
        let P : Machine Event → Type 0 = Progress p c m outs [] x ins in
        let key = detail_of x in
        let within : ltb key max_keycode ≡ true = ground (arith, v.coded) in
        rw within (
          if-Returns P (key_forked p m key && (press_p x && key != m.fork_active key))
            (λ a.
              map-Returns (λ n d. decided d)
                (activate_fork_rewind-Decided p c _ law reason_force x [] ins
                  (move_to_second-Split outs [] x ins v.split) v.configured v.tidy v.coded
                  (ground arith) (key_forked-has p c w m key v.configured v.tidy (ground arith))))
            (λ a.
              if-Returns P (is_normal m.state)
                (λ b. normal-Progress p c w m law outs x ins v (key_forked-fresh p c w m x a))
                (λ b. absurd (ground arith))))
    transition_by_key-Progress law outs (z ∷ rest) x ins v =
        waiting-Progress p c w m law outs z rest x ins v
