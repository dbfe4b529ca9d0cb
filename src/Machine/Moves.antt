-- ===== src/Machine/Moves.antt =====
-- src/machine.h: what the decisions about one event do to the three queues.
use mathlib.Core.Path.{subst}
use fork_plugin.Prelude.{
  ℕ, ◌<◌, ◌≡◌, ◌≢◌, refl, ltb, arith, Bool, true, false, All, ◌&&◌, ◌==◌, List, [], ◌∷◌, ◌++◌,
  if◌then◌else◌,
}
use fork_plugin.Platform.{Platform, IsLawful}
use fork_plugin.Triqueue.{move_to_first}
use fork_plugin.Triqueue.Refine.{
  Split, middle_empty-eq, peek_middle-eq, move_to_first-Split, move_to_second-Split,
  rewind_middle-Split, write_middle-Split,
}
use fork_plugin.Config.{ForkConfiguration}
use fork_plugin.Machine.{
  Machine, Outcome, done, st_normal, ForkReason, is_normal, do_confirm_non_fork_by, activate_fork,
  activate_fork_rewind, rewind_machine, pass_along, no_key,
}
use fork_plugin.Machine.Codes.{IsTidy, IsTidy-update, Paired, Paired-fork}

-- The run returns a value, and the value is as said.
pub data Returns {A : Type 0} (P : A → Type 0) : Outcome A → Type 0 where
  returns : (a : A) → P a → Returns P (done a)

pub if-Returns :
    {A : Type 0} (P : A → Type 0) (b : Bool) {x y : Outcome A}
    → (b ≡ true → Returns P x)
    → (b ≡ false → Returns P y)
    → Returns P (if b then x else y)
if-Returns P true h k = h refl
if-Returns P false h k = k refl

module _ (p : Platform) where
  open p use {Event, press_p, release_p, time_of, detail_of, rewrite_event, max_keycode}

  -- The key code of the event is an index of the tables.
  abbrev pub IsCoded : Event → Type 0
  IsCoded e = detail_of e < max_keycode

  -- All of an event but its key code.
  abbrev pub payload : Event → Event
  payload e = rewrite_event e 0

  -- The event does not release the key.
  abbrev pub Keeps : ℕ → Event → Type 0
  Keeps key e = (release_p e && detail_of e == key) ≡ false

  -- The internal queue is empty in the normal state; in the others its first event is the press of
  -- the suspected key, which has a fork and is not active as anything.
  abbrev pub Fits : Machine Event → List Event → Type 0
  Fits m [] = m.state ≡ st_normal
  Fits m (e ∷ rest) =
      (m.state ≢ st_normal)
      × (press_p e ≡ true)
      × (detail_of e ≡ m.suspect)
      × (time_of e ≡ m.suspect_time)
      × All (Keeps m.suspect) rest
      × (m.config.fork_keycode m.suspect ≢ no_key)
      × (m.fork_active m.suspect ≡ no_key)

module _ (p : Platform) (c : ForkConfiguration) where
  open p use {Event, press_p, time_of, detail_of, rewrite_event, max_keycode}

  pub record Inv (m : Machine Event) (outs mids ins : List Event) : Type 0 where
    pub split : Split 100 m.tq outs mids ins
    pub stage : Fits p m mids
    pub configured : m.config ≡ c
    pub tidy : IsTidy c m.fork_active
    pub coded : All (IsCoded p) (mids ++ ins)

  -- One event of the pending list has been decided: the first, perhaps under another key code. The
  -- machine is back in the normal state, and all other pending events are input again. `old` is the
  -- table of active forks before.
  pub record Decided (old : ℕ → ℕ) (outs pending : List Event) (m : Machine Event) : Type 0 where
    pub before : Event
    pub after : Event
    pub rest : List Event
    pub taken : pending ≡ before ∷ rest
    pub same : payload p after ≡ payload p before
    pub paired : Paired p old before after m.fork_active
    pub inv : Inv m (outs ++ (after ∷ [])) [] rest

  pub do_confirm-eq :
      (m : Machine Event) (reason : ForkReason)
      → is_normal m.state ≡ false
      → do_confirm_non_fork_by p reason m
        ≡ done (rewind_machine p (record m { tq = move_to_first m.tq }))
  unfolding do_confirm_non_fork_by
  do_confirm-eq m reason n = rw n

  activate_fork-Paired :
      (m : Machine Event)
      → IsLawful p
      → (z : Event) → press_p z ≡ true
      → m.config.fork_keycode (detail_of z) ≢ no_key
      → Paired p m.fork_active z
          (rewrite_event z (m.config.fork_keycode (detail_of z)))
          (activate_fork p m z).fork_active
  unfolding activate_fork
  activate_fork-Paired m law z pr has = Paired-fork p law m.fork_active z _ pr has

  module _ (m : Machine Event) {outs : List Event} where
    pub pass_along-Inv :
        (x : Event) (ins : List Event)
        → Split 100 m.tq outs [] (x ∷ ins)
        → m.state ≡ st_normal
        → m.config ≡ c
        → IsTidy c m.fork_active
        → All (IsCoded p) ins
        → Inv (pass_along p m) (outs ++ (x ∷ [])) [] ins
    unfolding pass_along
    pass_along-Inv x ins s n e t k = record {
      split = move_to_first-Split outs x [] ins (move_to_second-Split outs [] x ins s);
      stage = n;
      configured = e;
      tidy = t;
      coded = k;
    }

    -- The suspected key is output under its own code.
    pub do_confirm-Inv :
        (z : Event) (rest ins : List Event)
        → Split 100 m.tq outs (z ∷ rest) ins
        → m.config ≡ c
        → IsTidy c m.fork_active
        → All (IsCoded p) (z ∷ (rest ++ ins))
        → Inv
            (rewind_machine p (record m { tq = move_to_first m.tq }))
            (outs ++ (z ∷ []))
            []
            (rest ++ ins)
    unfolding rewind_machine
    do_confirm-Inv z rest ins s e t k = record {
      split = rewind_middle-Split (move_to_first-Split outs z rest ins s);
      stage = refl;
      configured = e;
      tidy = t;
      coded = k.1;
    }

    pub do_confirm-Decided :
        (old : ℕ → ℕ) (reason : ForkReason) (z : Event) (rest ins : List Event)
        → Split 100 m.tq outs (z ∷ rest) ins
        → is_normal m.state ≡ false
        → m.config ≡ c
        → IsTidy c m.fork_active
        → All (IsCoded p) (z ∷ (rest ++ ins))
        → Paired p old z z m.fork_active
        → Returns (Decided old outs (z ∷ (rest ++ ins))) (do_confirm_non_fork_by p reason m)
    unfolding rewind_machine
    do_confirm-Decided old reason z rest ins s n e t k pair = rw (do_confirm-eq m reason n) (
        returns _ record {
          before = z;
          after = z;
          rest = rest ++ ins;
          taken = refl;
          same = refl;
          paired = pair;
          inv = do_confirm-Inv z rest ins s e t k;
        })

    -- The first event of the internal queue is output under the code of its fork.
    pub activate_fork-Inv :
        (z : Event) (rest ins : List Event)
        → Split 100 m.tq outs (z ∷ rest) ins
        → m.config ≡ c
        → IsTidy c m.fork_active
        → All (IsCoded p) (z ∷ (rest ++ ins))
        → m.config.fork_keycode (detail_of z) ≢ no_key
        → Inv
            (activate_fork p m z)
            (outs ++ (rewrite_event z (m.config.fork_keycode (detail_of z)) ∷ []))
            []
            (rest ++ ins)
    unfolding activate_fork
    activate_fork-Inv z rest ins s e t k has = record {
      split =
          rewind_middle-Split
            (move_to_first-Split outs _ rest ins (write_middle-Split outs z _ rest ins s));
      stage = refl;
      configured = e;
      tidy =
          IsTidy-update c m.fork_active (detail_of z) _ t
            (λ h i. subst (λ d. d.fork_keycode (detail_of z) ≢ no_key) e has);
      coded = k.1;
    }

    pub activate_fork_rewind-eq :
        (reason : ForkReason) (z : Event) (rest ins : List Event)
        → Split 100 m.tq outs (z ∷ rest) ins
        → IsCoded p z
        → activate_fork_rewind p reason m ≡ done (activate_fork p m z)
    unfolding activate_fork_rewind
    activate_fork_rewind-eq reason z rest ins s k =
        let within : ltb (detail_of z) max_keycode ≡ true = ground arith in
        rw (middle_empty-eq outs (z ∷ rest) ins s, peek_middle-eq outs z rest ins s, within)

    pub activate_fork_rewind-Decided :
        IsLawful p
        → (reason : ForkReason) (z : Event) (rest ins : List Event)
        → Split 100 m.tq outs (z ∷ rest) ins
        → m.config ≡ c
        → IsTidy c m.fork_active
        → All (IsCoded p) (z ∷ (rest ++ ins))
        → press_p z ≡ true
        → m.config.fork_keycode (detail_of z) ≢ no_key
        → Returns (Decided m.fork_active outs (z ∷ (rest ++ ins))) (activate_fork_rewind p reason m)
    activate_fork_rewind-Decided law reason z rest ins s e t k pr has =
        rw (activate_fork_rewind-eq reason z rest ins s k.0) (
          returns (activate_fork p m z) record {
            before = z;
            after = rewrite_event z (m.config.fork_keycode (detail_of z));
            rest = rest ++ ins;
            taken = refl;
            same = law.rewrite_event_twice z _ 0;
            paired = activate_fork-Paired m law z pr has;
            inv = activate_fork-Inv z rest ins s e t k has;
          })
