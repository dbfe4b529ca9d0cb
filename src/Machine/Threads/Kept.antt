-- ===== src/Machine/Threads/Kept.antt =====
-- src/machine.h: what interleaved threads keep of the order of the events.
use mathlib.Core.List.{append_assoc, append-nil, map-append, Perm}
use fork_plugin.Prelude.{
  ◌≤◌, ◌≡◌, refl, sym, ap, ◌∙◌, List, [], ◌∷◌, ◌++◌, map, length, replicate, ℕ, zero, suc,
}
use fork_plugin.Platform.{Platform, IsLawful}
use fork_plugin.Config.{ForkConfiguration}
use fork_plugin.Machine.{forking_machine}
use fork_plugin.Machine.Codes.{sent_as, Traced, Traced-cons}
use fork_plugin.Machine.Traces.{Traced-append}
use fork_plugin.Machine.Moves.{payload, Inv}
use fork_plugin.Machine.Accept.{forking_machine-Inv}
use fork_plugin.Machine.History.{Recorder}
use fork_plugin.Machine.Threads.{
  Pc, idle, Shared, System, hand, hands, new_system, Reach, begin, pick, outside,
}
use fork_plugin.Machine.Threads.Order.{Order, any_order, in_order, end_assoc}
use fork_plugin.Machine.Threads.Effects.{Effect, quiet, decides, pops, relays}
use fork_plugin.Machine.Threads.Steps.{Move-Effect}

module _ (p : Platform) (c : ForkConfiguration) (tape : Recorder p) where
  open p use {Event}
  open tape use {log}

  hands-split :
      (before after : List (Pc p c)) (pc : Pc p c)
      → hands p c (before ++ (pc ∷ after)) ≡ hands p c before ++ (hand p c pc ++ hands p c after)
  hands-split [] after pc = refl
  hands-split (x ∷ before) after pc =
      ap (λ t. hand p c x ++ t) (hands-split before after pc)
      ∙ sym (append_assoc (hand p c x) (hands p c before) (hand p c pc ++ hands p c after))

  hands-idle : (n : ℕ) → hands p c (replicate n idle) ≡ []
  hands-idle zero = refl
  hands-idle (suc n) = hands-idle n

  same_hands :
      (before after : List (Pc p c)) (pc pc' : Pc p c)
      → hand p c pc' ≡ hand p c pc
      → hands p c (before ++ (pc' ∷ after)) ≡ hands p c (before ++ (pc ∷ after))
  same_hands before after pc pc' e =
      rw (hands-split before after pc, hands-split before after pc', e)

  -- Of a state of the system: its queues are consistent. The first of the events that arrived have
  -- been decided, under the codes that Traced asks for and with no other change, and the others are
  -- in the internal and the input queue, in order. The events that have been decided are compared by
  -- `Same` with those in the log, in the hands of the threads and in the output queue.
  pub record Kept (Ok : List Event → Type 0) (Same : List Event → List Event → Type 0)
      (s : System p c) (arrived : List Event) : Type 0 where
    pub before : List Event
    pub decided : List Event
    pub outs : List Event
    pub mids : List Event
    pub ins : List Event
    pub inv : Inv p c s.shared.machine outs mids ins
    pub taken : before ++ (mids ++ ins) ≡ arrived
    pub traced : Traced p (λ key. key) before decided (sent_as s.shared.machine.fork_active)
    pub unchanged : map (payload p) decided ≡ map (payload p) before
    pub allowed : Ok (hands p c s.threads)
    pub kept : Same (log s.shared.world ++ (hands p c s.threads ++ outs)) decided

  module _ {Ok : List Event → Type 0} {Same : List Event → List Event → Type 0}
      (order : Order Ok Same) where
    new_system-Kept : (w : p.World) (n : ℕ) → log w ≡ [] → Kept Ok Same (new_system p c w n) []
    unfolding forking_machine
    new_system-Kept w n e = record {
      before = [];
      decided = [];
      outs = [];
      mids = [];
      ins = [];
      inv = forking_machine-Inv p c;
      taken = refl;
      traced = λ key. refl;
      unchanged = refl;
      allowed = rw (hands-idle n) order.nothing;
      kept = rw (e, hands-idle n) order.unsent;
    }

    pick-Kept :
        (s : System p c) (arrived : List Event) (before after : List (Pc p c)) (pc pc' : Pc p c)
        (t : Shared p c) (new : List Event)
        → s.threads ≡ before ++ (pc ∷ after)
        → Ok (hands p c (before ++ (pc' ∷ after)))
        → (k : Kept Ok Same s arrived)
        → Effect p c tape s.shared k.outs k.mids k.ins (hand p c pc) t (hand p c pc') new
        → Kept Ok Same (record { shared = t; threads = before ++ (pc' ∷ after) }) (arrived ++ new)
    pick-Kept s arrived before after pc pc' t new here ok k
          (quiet mids' ins' v moved active held l) =
        record {
          before = k.before;
          decided = k.decided;
          outs = k.outs;
          mids = mids';
          ins = ins';
          inv = v;
          taken =
              ap (λ es. k.before ++ es) moved
              ∙ sym (append_assoc k.before (k.mids ++ k.ins) new)
              ∙ ap (λ es. es ++ new) k.taken;
          traced = rw active k.traced;
          unchanged = k.unchanged;
          allowed = ok;
          kept = rw (l, same_hands before after pc pc' held) (rw here at k.kept);
        }
    pick-Kept s arrived before after pc pc' t new here ok k (decides d none held l) = record {
      before = k.before ++ (d.before ∷ []);
      decided = k.decided ++ (d.after ∷ []);
      outs = k.outs ++ (d.after ∷ []);
      mids = [];
      ins = d.rest;
      inv = d.inv;
      taken =
          append_assoc k.before (d.before ∷ []) d.rest
          ∙ ap (λ es. k.before ++ es) (sym d.taken)
          ∙ k.taken
          ∙ sym (append-nil arrived)
          ∙ ap (λ es. arrived ++ es) (sym none);
      traced =
          Traced-append p k.before k.decided _ _ _ (d.before ∷ []) (d.after ∷ []) k.traced
            (Traced-cons p [] [] _ d.paired (λ key. refl));
      unchanged =
          map-append (payload p) k.decided (d.after ∷ [])
          ∙ ap (λ es. es ++ (payload p d.after ∷ [])) k.unchanged
          ∙ ap (λ e. map (payload p) k.before ++ (e ∷ [])) d.same
          ∙ sym (map-append (payload p) k.before (d.before ∷ []));
      allowed = ok;
      kept =
          let popped = hands p c (before ++ (pc ∷ after)) in
          rw
            (
              l,
              same_hands before after pc pc' held,
              ← end_assoc (log s.shared.world) popped k.outs d.after,
            )
            (order.decided_one (log s.shared.world ++ (popped ++ k.outs)) k.decided d.after
              (rw here at k.kept));
    }
    pick-Kept s arrived before after pc pc' t new here ok k
          (pops x rest e v active none none_held has l) =
        record {
          before = k.before;
          decided = k.decided;
          outs = rest;
          mids = k.mids;
          ins = k.ins;
          inv = v;
          taken = k.taken ∙ sym (append-nil arrived) ∙ ap (λ es. arrived ++ es) (sym none);
          traced = rw active k.traced;
          unchanged = k.unchanged;
          allowed = ok;
          kept =
              rw (l, hands-split before after pc', has)
                (order.popped (log s.shared.world) (hands p c before) (hands p c after) rest
                  k.decided x (rw (hands-split before after pc', has) at ok)
                  (rw (here, hands-split before after pc, none_held, e) at k.kept));
        }
    pick-Kept s arrived before after pc pc' t new here ok k (relays x same none had none_held l) =
        record {
          before = k.before;
          decided = k.decided;
          outs = k.outs;
          mids = k.mids;
          ins = k.ins;
          inv = rw same k.inv;
          taken = k.taken ∙ sym (append-nil arrived) ∙ ap (λ es. arrived ++ es) (sym none);
          traced = rw same k.traced;
          unchanged = k.unchanged;
          allowed = ok;
          kept =
              rw (l, hands-split before after pc', none_held)
                (order.relayed (log s.shared.world) (hands p c before) (hands p c after) k.outs
                  k.decided x (rw (here, hands-split before after pc, had) at k.allowed)
                  (rw (here, hands-split before after pc, had) at k.kept));
        }

    Reach-Kept :
        IsLawful p
        → (s : System p c) (arrived : List Event) → Reach p c tape Ok s arrived
        → Kept Ok Same s arrived
    Reach-Kept law s arrived (begin w n e) = new_system-Kept w n e
    Reach-Kept law s arrived (pick u queued before after pc pc' t new past here x m ok) =
        let k : Kept Ok Same u queued = Reach-Kept law u queued past in
        pick-Kept u queued before after pc pc' t new here ok k
          (Move-Effect p c tape law u.shared pc t pc' new k.outs k.mids k.ins k.inv x m)
    Reach-Kept law s arrived (outside u queued w past e) =
        let k : Kept Ok Same u queued = Reach-Kept law u queued past in
        record {
          before = k.before;
          decided = k.decided;
          outs = k.outs;
          mids = k.mids;
          ins = k.ins;
          inv = k.inv;
          taken = k.taken;
          traced = k.traced;
          unchanged = k.unchanged;
          allowed = k.allowed;
          kept = rw e k.kept;
        }

  -- However the threads are interleaved, as long as every event that can be queued finds room in the
  -- buffer and none has the key code max_keycode (IsExpected, which the program does not test), the
  -- queues stay consistent, and no event is lost or doubled: the events that have been queued were decided in their order, a first part of them so far, each
  -- under the code that Traced asks for and with no other change, and the others wait in order; and
  -- the events in the log, those that threads have popped and not yet relayed, and those in the output
  -- queue are together a permutation of the decided ones.
  pub Reach-Perm :
      IsLawful p
      → (s : System p c) (arrived : List Event) → Reach p c tape (λ hs. Unit) s arrived
      → Kept (λ hs. Unit) Perm s arrived
  Reach-Perm law s arrived past = Reach-Kept any_order law s arrived past

  -- Where at each moment at most one event has been popped and not yet relayed, every event that can be
  -- queued finds room in the buffer, and none has the key code max_keycode (IsExpected, which the
  -- program does not test), the threads keep the order as well: the log, then the popped event, then the output queue are the decided events in
  -- the order in which they arrived, each under the code that Traced asks for and with no other change.
  pub Reach-ordered :
      IsLawful p
      → (s : System p c) (arrived : List Event) → Reach p c tape (λ hs. length hs ≤ 1) s arrived
      → Kept (λ hs. length hs ≤ 1) (λ xs ys. xs ≡ ys) s arrived
  Reach-ordered law s arrived past = Reach-Kept in_order law s arrived past
