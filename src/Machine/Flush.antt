-- ===== src/Machine/Flush.antt =====
-- src/machine.h: flush_to_next and push_time_to_next hand the output queue over.
use fork_plugin.Prelude.{
  ℕ, zero, suc, ◌<◌, ◌≡◌, ◌⊎◌, inl, inr, refl, ap, true, false, not, Option, some, none, List, [],
  ◌∷◌, ◌++◌, arith, length, ◌!=◌, Bool-cases,
}
use fork_plugin.Platform.{Platform}
use fork_plugin.Config.{ForkConfiguration}
use fork_plugin.Triqueue.{pop}
use fork_plugin.Triqueue.Refine.{can_pop-eq, head-eq, pop-Split, first-cases}
use fork_plugin.Machine.{Machine, done}
use fork_plugin.Machine.Run.{
  pop_event_if_present, flush_loop, push_if_set, push_time_to_next, flush_to_next,
}
use fork_plugin.Machine.Moves.{Returns, returns, if-Returns, Inv}
use fork_plugin.Machine.Progress.Kinds.{map-Returns}
use fork_plugin.Machine.Rounds.{>>=-Returns}

module _ (p : Platform) where
  open p use {Event, World, time_of, output_frozen, relay_event, push_time}

  -- The world after the events have been relayed in order.
  abbrev pub relay_all : List Event → World → World
  relay_all [] w = w
  relay_all (e ∷ es) w = relay_all es (relay_event e w)

  -- Each of the events is relayed while the output is not frozen.
  abbrev pub WhileOpen : List Event → World → Type 0
  WhileOpen [] w = Unit
  WhileOpen (e ∷ es) w = (output_frozen w ≡ false) × WhileOpen es (relay_event e w)

module _ (p : Platform) (c : ForkConfiguration) where
  open p use {Event, World, time_of, output_frozen, relay_event, push_time}

  -- A first part of the output queue has been relayed, up to its end or to the moment at which the
  -- output froze. The table of active forks is still the given one.
  pub record Flushed (active : ℕ → ℕ) (outs mids ins : List Event) (w : World) (m : Machine Event)
      (after : World) : Type 0 where
    pub sent : List Event
    pub left : List Event
    pub all : outs ≡ sent ++ left
    pub open_output : WhileOpen p sent w
    pub drained : (left ≡ []) ⊎ (output_frozen after ≡ true)
    pub inv : Inv p c m left mids ins
    pub world : after ≡ relay_all p sent w
    pub still : m.fork_active ≡ active

  -- Afterwards the time may have been pushed, once.
  pub record Handed (active : ℕ → ℕ) (outs mids ins : List Event) (w : World)
      (r : Machine Event × World) : Type 0 where
    pub reached : World
    pub flushed : Flushed active outs mids ins w r.0 reached
    pub pushed : (r.1 ≡ reached) ⊎ ((now : ℕ) × (r.1 ≡ push_time now reached))

  -- Nothing is relayed by a loop that ends at once.
  nothing_sent :
      {m : Machine Event} {w : World} {outs mids ins : List Event}
      → Inv p c m outs mids ins
      → (outs ≡ []) ⊎ (output_frozen w ≡ true)
      → Flushed m.fork_active outs mids ins w m w
  nothing_sent {outs = outs} v d = record {
    sent = [];
    left = outs;
    all = refl;
    open_output = tt;
    drained = d;
    inv = v;
    world = refl;
    still = refl;
  }

  one_sent :
      {active : ℕ → ℕ} {w : World} {x : Event} {outs mids ins : List Event} {m : Machine Event}
      {after : World}
      → output_frozen w ≡ false
      → Flushed active outs mids ins (relay_event x w) m after
      → Flushed active (x ∷ outs) mids ins w m after
  one_sent {x = x} e g = record {
    sent = x ∷ g.sent;
    left = g.left;
    all = ap (λ t. x ∷ t) g.all;
    open_output = (e, g.open_output);
    drained = g.drained;
    inv = g.inv;
    world = g.world;
    still = g.still;
  }

  flush_loop-frozen :
      (fuel : ℕ) (m : Machine Event) (w : World)
      → output_frozen w ≡ true
      → flush_loop p (suc fuel) m w ≡ done (m, w)
  unfolding flush_loop
  flush_loop-frozen fuel m w e = rw (e, flush_loop)

  pub popped-Inv :
      (m : Machine Event) (x : Event) (outs mids ins : List Event)
      → Inv p c m (x ∷ outs) mids ins
      → Inv p c (record m { tq = (pop m.tq).1 }) outs mids ins
  popped-Inv m x outs mids ins v = record {
    split = (pop-Split x outs mids ins v.split).1;
    stage = v.stage;
    configured = v.configured;
    tidy = v.tidy;
    coded = v.coded;
  }

  pub pop_event_if_present-nil :
      (m : Machine Event) (mids ins : List Event)
      → Inv p c m [] mids ins
      → pop_event_if_present p m ≡ (none, m)
  unfolding pop_event_if_present
  pop_event_if_present-nil m mids ins v = rw (can_pop-eq [] mids ins v.split)

  pub pop_event_if_present-cons :
      (m : Machine Event) (x : Event) (outs mids ins : List Event)
      → Inv p c m (x ∷ outs) mids ins
      → pop_event_if_present p m ≡ (some (some x), record m { tq = (pop m.tq).1 })
  unfolding pop_event_if_present
  pop_event_if_present-cons m x outs mids ins v =
      rw (can_pop-eq (x ∷ outs) mids ins v.split, head-eq x outs mids ins v.split)

  flush_loop-nil :
      (fuel : ℕ) (m : Machine Event) (w : World) (mids ins : List Event)
      → output_frozen w ≡ false
      → Inv p c m [] mids ins
      → flush_loop p (suc fuel) m w ≡ done (m, w)
  unfolding flush_loop
  flush_loop-nil fuel m w mids ins e v = rw (e, pop_event_if_present-nil m mids ins v, flush_loop)

  flush_loop-cons :
      (fuel : ℕ) (m : Machine Event) (w : World) (x : Event) (outs mids ins : List Event)
      → output_frozen w ≡ false
      → Inv p c m (x ∷ outs) mids ins
      → flush_loop p (suc fuel) m w
        ≡ flush_loop p fuel (record m { tq = (pop m.tq).1 }) (relay_event x w)
  unfolding flush_loop
  flush_loop-cons fuel m w x outs mids ins e v =
      rw (e, flush_loop)
        (rw (pop_event_if_present-cons m x outs mids ins v, flush_loop)
          (ap
            (λ (t : Option (Option Event) × Machine Event). flush_loop p fuel t.1 (relay_event x w))
            (pop_event_if_present-cons m x outs mids ins v)))

  flush_loop-Flushed :
      (fuel : ℕ) (m : Machine Event) (w : World) (outs mids ins : List Event)
      → length outs < fuel
      → Inv p c m outs mids ins
      → Returns (λ r. Flushed m.fork_active outs mids ins w r.0 r.1) (flush_loop p fuel m w)
  flush_loop-Flushed zero m w outs mids ins f v = absurd (omega arith)
  flush_loop-Flushed (suc fuel) m w [] mids ins f v = elim (Bool-cases (output_frozen w)) [
    | inl e ↦ rw (flush_loop-frozen fuel m w e) (returns _ (nothing_sent v (inr e)))
    | inr e ↦ rw (flush_loop-nil fuel m w mids ins e v) (returns _ (nothing_sent v (inl refl)))
  ]
  flush_loop-Flushed (suc fuel) m w (x ∷ outs) mids ins f v = elim (Bool-cases (output_frozen w)) [
    | inl e ↦ rw (flush_loop-frozen fuel m w e) (returns _ (nothing_sent v (inr e)))
    | inr e ↦ rw (flush_loop-cons fuel m w x outs mids ins e v) (
        map-Returns (λ r g. one_sent e g)
          (flush_loop-Flushed fuel (record m { tq = (pop m.tq).1 }) (relay_event x w) outs mids ins
            (omega arith) (popped-Inv m x outs mids ins v)))
  ]

  pub push_if_set-cases :
      (now : ℕ) (w : World)
      → (push_if_set p now w ≡ w) ⊎ ((t : ℕ) × (push_if_set p now w ≡ push_time t w))
  unfolding push_if_set
  push_if_set-cases now w = elim (Bool-cases (now != 0)) [
    | inl e ↦ inr (now, rw e)
    | inr e ↦ inl (rw e)
  ]

  push_time_to_next-Handed :
      (m : Machine Event) (w start : World) (active : ℕ → ℕ) (outs mids ins : List Event)
      → Flushed active outs mids ins start m w
      → Returns (Handed active outs mids ins start) (push_time_to_next p m w)
  unfolding push_time_to_next
  push_time_to_next-Handed m w start active outs mids ins g =
      elim (first-cases g.left mids ins g.inv.split) [
        | inl e ↦
            rw (e, push_time_to_next)
              (returns _
                record { reached = w; flushed = g; pushed = push_if_set-cases m.current_time w })
        | inr (x, e) ↦
            rw (e, push_time_to_next)
              (returns _ record {
                reached = w;
                flushed = record {
                  sent = g.sent;
                  left = g.left;
                  all = g.all;
                  open_output = g.open_output;
                  drained = g.drained;
                  inv = record {
                    split = g.inv.split;
                    stage = g.inv.stage;
                    configured = g.inv.configured;
                    tidy = g.inv.tidy;
                    coded = g.inv.coded;
                  };
                  world = g.world;
                  still = g.still;
                };
                pushed = push_if_set-cases (time_of x) w;
              })
      ]

  -- From a machine that satisfies Inv, with more fuel than there are events in the output queue,
  -- flush_to_next ends without a fault: it relays a first part of the output queue in order, each
  -- event while the output is not frozen, up to the end of the queue or the freezing of the output;
  -- keeps the rest and the two other queues; and then pushes a time at most once.
  pub flush_to_next-Handed :
      (fuel : ℕ) (m : Machine Event) (w : World) (outs mids ins : List Event)
      → length outs < fuel
      → Inv p c m outs mids ins
      → Returns (Handed m.fork_active outs mids ins w) (flush_to_next p fuel m w)
  unfolding flush_to_next
  flush_to_next-Handed fuel m w outs mids ins f v =
      >>=-Returns (flush_loop-Flushed fuel m w outs mids ins f v) (λ r g.
        if-Returns (Handed m.fork_active outs mids ins w) (not (output_frozen r.1))
          (λ e. push_time_to_next-Handed r.0 r.1 w m.fork_active outs mids ins g)
          (λ e. returns _ record { reached = r.1; flushed = g; pushed = inl refl }))
