-- ===== src/Machine/Progress/Kinds.antt =====
-- src/machine.h: the kinds of progress that transition_by_key can make.
use fork_plugin.Prelude.{◌≡◌, ◌≢◌, refl, true, false, List, [], ◌∷◌, ◌++◌}
use fork_plugin.Platform.{Platform}
use fork_plugin.Config.{ForkConfiguration}
use fork_plugin.Machine.{Machine, Outcome, st_normal, st_suspect, st_verify, ForkState, is_normal}
use fork_plugin.Machine.Moves.{Returns, returns, Inv, Decided}

pub map-Returns :
    {A : Type 0} {P Q : A → Type 0} {o : Outcome A}
    → ((a : A) → P a → Q a)
    → Returns P o
    → Returns Q o
map-Returns f (returns a h) = returns a (f a h)

pub is_normal-ne : (s : ForkState) → s ≢ st_normal → is_normal s ≡ false
is_normal-ne st_normal h = absurd (h refl)
is_normal-ne st_suspect h = refl
is_normal-ne st_verify h = refl

module _ (p : Platform) (c : ForkConfiguration) where
  open p use {Event, World, press_p, release_p, time_of, detail_of, rewrite_event, ignore_event}

  -- The first input event has been looked at: an event was decided, or it waits in the internal
  -- queue, or nothing happened, since it presses the suspected key once more and that key is not
  -- configured to repeat.
  pub data Progress (m : Machine Event) (outs mids : List Event) (x : Event) (ins : List Event)
      (n : Machine Event) : Type 0 where
    decided : Decided p c m.fork_active outs (mids ++ (x ∷ ins)) n → Progress m outs mids x ins n
    waiting :
        Inv p c n outs (mids ++ (x ∷ [])) ins
        → n.fork_active ≡ m.fork_active
        → Progress m outs mids x ins n
    stalled :
        n ≡ m
        → mids ≢ []
        → press_p x ≡ true
        → detail_of x ≡ m.suspect
        → m.config.fork_repeatable (detail_of x) ≡ false
        → Progress m outs mids x ins n
