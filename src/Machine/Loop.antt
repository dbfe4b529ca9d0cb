-- ===== src/Machine/Loop.antt =====
-- src/machine.h: the loop of run_automaton ends, and keeps every event in its place.
use mathlib.Core.Path.{subst}
use mathlib.Core.List.{append_assoc, append-nil}
use fork_plugin.Prelude.{
  ℕ, zero, suc, ◌+◌, ◌*◌, ◌<◌, ◌≡◌, ◌≢◌, ◌⊎◌, refl, sym, ap, ◌∙◌, Bool, true, false, ◌&&◌, ◌==◌,
  if◌then◌else◌, All, List, [], ◌∷◌, ◌++◌, map, arith, length, length-append,
}
use fork_plugin.Platform.{Platform, IsLawful}
use fork_plugin.Config.{ForkConfiguration}
use fork_plugin.Machine.{Machine, Outcome, done, fault, no_fuel}
use fork_plugin.Machine.Run.{Round, again, stop, automaton_loop}
use fork_plugin.Machine.Codes.{sent_as, Traced, Traced-cons}
use fork_plugin.Machine.Moves.{Returns, returns, payload, Keeps, Inv, Decided}
use fork_plugin.Machine.Progress.Kinds.{map-Returns}
use fork_plugin.Machine.Rounds.{Settled, Turn, decide, join, stall, finish, round-Turn}

module _ (p : Platform) (c : ForkConfiguration) where
  open p use {Event, World, press_p, release_p, detail_of, output_frozen}

  -- If the event presses the same key, that key is configured to repeat.
  abbrev pub MayFollow : Event → Event → Type 0
  MayFollow e x =
      press_p x ≡ true → detail_of x ≡ detail_of e → c.fork_repeatable (detail_of x) ≡ true

  -- Up to the release of its key, the event is followed by no further press of the key, unless the
  -- key is configured to repeat.
  abbrev pub Unrepeated : Event → List Event → Type 0
  Unrepeated e [] = Unit
  Unrepeated e (x ∷ xs) =
      if release_p x && detail_of x == detail_of e then Unit else (MayFollow e x × Unrepeated e xs)

  abbrev pub NoRepeats : List Event → Type 0
  NoRepeats [] = Unit
  NoRepeats (e ∷ es) = (press_p e ≡ true → Unrepeated e es) × NoRepeats es

  -- While the key is held, Unrepeated speaks of each event.
  Unrepeated-MayFollow :
      (z : Event) (rest : List Event) (x : Event) (ins : List Event)
      → All (Keeps p (detail_of z)) rest
      → release_p x ≡ false
      → Unrepeated z (rest ++ (x ∷ ins))
      → MayFollow z x
  Unrepeated-MayFollow z [] x ins held r h =
      let e : (release_p x && detail_of x == detail_of z) ≡ false = ground arith in (rw e at h).0
  Unrepeated-MayFollow z (y ∷ rest) x ins held r h =
      Unrepeated-MayFollow z rest x ins held.1 r (rw held.0 at h).1

  -- The rounds that suffice for the given numbers of internal and input events.
  abbrev pub rounds : ℕ → ℕ → ℕ
  rounds mids ins = (mids + ins) * (mids + ins) + ins

  -- How the loop ends: the events that were pending are those that it decided, and those in the
  -- internal queue and in the input queue, in this order. The decided ones are now at the end of the
  -- output queue, changed in their key codes alone, each under the code that Traced asks for. `old`
  -- is the table of active forks before.
  pub record Ran (force_also : Bool) (old : ℕ → ℕ) (w : World) (outs pending : List Event)
      (n : Machine Event) : Type 0 where
    pub before : List Event
    pub sent : List Event
    pub mids : List Event
    pub ins : List Event
    pub taken : before ++ (mids ++ ins) ≡ pending
    pub traced : Traced p (sent_as old) before sent (sent_as n.fork_active)
    pub inv : Inv p c n (outs ++ sent) mids ins
    pub same : map (payload p) (sent ++ (mids ++ ins)) ≡ map (payload p) pending
    pub settled : (output_frozen w ≡ true) ⊎ Settled p c force_also n ins

  Decided-NoRepeats :
      {old : ℕ → ℕ} (outs : List Event) {pending : List Event} (n : Machine Event)
      (d : Decided p c old outs pending n)
      → NoRepeats pending
      → NoRepeats d.rest
  Decided-NoRepeats outs n d h = (rw d.taken at h).1

  Decided-length :
      {old : ℕ → ℕ} (outs : List Event) {pending : List Event} (n : Machine Event)
      (d : Decided p c old outs pending n)
      → length pending ≡ suc (length d.rest)
  Decided-length outs n d = ap length d.taken

  map-taken :
      {old : ℕ → ℕ} (outs : List Event) {pending : List Event} {m : Machine Event}
      (d : Decided p c old outs pending m)
      → map (payload p) pending ≡ payload p d.before ∷ map (payload p) d.rest
  map-taken outs d = ap (map (payload p)) d.taken

  module _ (law : IsLawful p) (force_also : Bool) (w : World) where
    -- What is left after one event is decided, put together with it.
    Decided-Ran :
        {old : ℕ → ℕ} (outs : List Event) {pending : List Event} {m : Machine Event}
        (d : Decided p c old outs pending m)
        → {n : Machine Event} → Ran force_also m.fork_active w (outs ++ (d.after ∷ [])) d.rest n
        → Ran force_also old w outs pending n
    Decided-Ran outs d {n} r = record {
      before = d.before ∷ r.before;
      sent = d.after ∷ r.sent;
      taken = ap (λ t. d.before ∷ t) r.taken ∙ sym d.taken;
      traced = Traced-cons p r.before r.sent (sent_as n.fork_active) d.paired r.traced;
      mids = r.mids;
      ins = r.ins;
      inv = rw append_assoc at r.inv;
      same =
          rw (map-taken outs d)
            (ap (λ t. payload p d.after ∷ t) r.same ∙ ap (λ t. t ∷ map (payload p) d.rest) d.same);
      settled = r.settled;
    }

    stall-never :
        (m : Machine Event) (outs mids : List Event) (x : Event) (rest : List Event)
        → Inv p c m outs mids (x ∷ rest)
        → NoRepeats (mids ++ (x ∷ rest))
        → mids ≢ []
        → press_p x ≡ true
        → detail_of x ≡ m.suspect
        → m.config.fork_repeatable (detail_of x) ≡ false
        → ⊥
    stall-never m outs [] x rest v h ne pr k f = ne refl
    stall-never m outs (z ∷ mids) x rest v h ne pr k f =
        let may : MayFollow z x =
          Unrepeated-MayFollow z mids x rest (rw v.stage.2 v.stage.4) (law.press_not_release x pr)
            (h.0 v.stage.1) in
        let allowed : c.fork_repeatable (detail_of x) ≡ true = may pr (k ∙ sym v.stage.2) in
        let refused : c.fork_repeatable (detail_of x) ≡ false = rw (← v.configured) f in cc

    -- A decision takes one event off, and all the others may have to be looked at again.
    rounds-decided : (a b k fuel : ℕ) → a + b ≡ suc k → rounds a b < suc fuel → rounds 0 k < fuel
    rounds-decided a b k fuel e f =
        let square : (a + b) * (a + b) ≡ suc k * suc k = ap (λ t. t * t) e in omega (arith, square)

    -- An event that joins the internal queue need not be looked at again before a decision.
    rounds-joined :
        (a b a' b' fuel : ℕ) → a' ≡ a + 1 → b ≡ suc b' → rounds a b < suc fuel → rounds a' b' < fuel
    rounds-joined a b a' b' fuel e e' f =
        let total : a' + b' ≡ a + b = omega arith in
        let square : (a' + b') * (a' + b') ≡ (a + b) * (a + b) = ap (λ t. t * t) total in
        omega (arith, square)

    -- The statement about the loop at a given fuel.
    abbrev LoopRuns : ℕ → Type 0
    LoopRuns fuel =
        (m : Machine Event) (outs mids ins : List Event)
        → rounds (length mids) (length ins) < fuel
        → NoRepeats (mids ++ ins)
        → Inv p c m outs mids ins
        → Returns (Ran force_also m.fork_active w outs (mids ++ ins))
            (automaton_loop p fuel force_also w m)

    after-Turn :
        (fuel : ℕ)
        → LoopRuns fuel
        → (m : Machine Event) (outs mids ins : List Event)
        → rounds (length mids) (length ins) < suc fuel
        → NoRepeats (mids ++ ins)
        → Inv p c m outs mids ins
        → {r : Round (Machine Event)} → Turn p c force_also w m outs mids ins r
        → Returns
            (Ran force_also m.fork_active w outs (mids ++ ins))
            (elim r [ again n ↦ automaton_loop p fuel force_also w n | stop n ↦ done n ])
    after-Turn fuel ih m outs mids ins f h v (decide n d) =
        map-Returns (λ a r. Decided-Ran outs d r)
          (ih n (outs ++ (d.after ∷ [])) [] d.rest
            (rounds-decided (length mids) (length ins) (length d.rest) fuel
              (omega (arith, Decided-length outs n d, length-append mids ins)) f)
            (Decided-NoRepeats outs n d h) d.inv)
    after-Turn fuel ih m outs mids ins f h v (join n x rest e v' fa) =
        let regroup : (mids ++ (x ∷ [])) ++ rest ≡ mids ++ ins =
          append_assoc mids (x ∷ []) rest ∙ ap (λ t. mids ++ t) (sym e) in
        let P : (ℕ → ℕ) → Type 0 = λ f.
          Returns (Ran force_also f w outs (mids ++ ins)) (automaton_loop p fuel force_also w n) in
        subst P fa (
          rw (← regroup) (
            ih n outs (mids ++ (x ∷ [])) rest
              (rounds-joined (length mids) (length ins) (length (mids ++ (x ∷ []))) (length rest)
                fuel (omega (arith, length-append mids (x ∷ []))) (ap length e) f)
              (rw regroup h) v'))
    after-Turn fuel ih m outs mids ins f h v (stall n x rest e same ne pr k g) =
        absurd (stall-never m outs mids x rest (rw e at v) (rw e at h) ne pr k g)
    after-Turn fuel ih m outs mids ins f h v (finish n v' fa s) = returns n record {
      before = [];
      sent = [];
      mids = mids;
      ins = ins;
      inv = rw append-nil v';
      taken = refl;
      traced = λ key. ap (λ f. sent_as f key) fa;
      same = refl;
      settled = s;
    }

    after_round :
        (fuel : ℕ)
        → LoopRuns fuel
        → (m : Machine Event) (outs mids ins : List Event)
        → rounds (length mids) (length ins) < suc fuel
        → NoRepeats (mids ++ ins)
        → Inv p c m outs mids ins
        → {o : Outcome (Round (Machine Event))} → Returns (Turn p c force_also w m outs mids ins) o
        → Returns (Ran force_also m.fork_active w outs (mids ++ ins)) (elim o [
          | done (again n) ↦ automaton_loop p fuel force_also w n
          | done (stop n) ↦ done n
          | fault ↦ fault
          | no_fuel ↦ no_fuel
        ])
    after_round fuel ih m outs mids ins f h v (returns r t) =
        after-Turn fuel ih m outs mids ins f h v t

    automaton_loop-lem : (fuel : ℕ) → LoopRuns fuel
    unfolding automaton_loop
    automaton_loop-lem zero m outs mids ins f h v = absurd (omega arith)
    automaton_loop-lem (suc fuel) m outs mids ins f h v =
        after_round fuel (automaton_loop-lem fuel) m outs mids ins f h v
          (round-Turn p c w m law force_also outs mids ins v)

    -- The loop of run_automaton terminates: from a machine that satisfies Inv and NoRepeats, fuel
    -- above (mids + ins)² + ins, for the numbers of events in the internal and input queues, gives
    -- a result without a fault. The events that were pending are then at the end of the output
    -- queue, in the internal queue and in the input queue, in this order and unchanged but for key
    -- codes, and either the output is frozen or nothing is left to do (Settled).
    pub automaton_loop-Ran :
        (fuel : ℕ) (m : Machine Event) (outs mids ins : List Event)
        → rounds (length mids) (length ins) < fuel
        → NoRepeats (mids ++ ins)
        → Inv p c m outs mids ins
        → Returns
            (Ran force_also m.fork_active w outs (mids ++ ins))
            (automaton_loop p fuel force_also w m)
    automaton_loop-Ran fuel m outs mids ins f h v = automaton_loop-lem fuel m outs mids ins f h v
