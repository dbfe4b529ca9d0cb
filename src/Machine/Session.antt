-- ===== src/Machine/Session.antt =====
-- src/machine.h: a session, which is a sequence of calls of the public operations from the start.
use mathlib.Core.List.{append_assoc, append-nil}
use fork_plugin.Prelude.{
  ℕ, ◌≤◌, ◌<◌, ◌≡◌, refl, sym, ap, ◌∙◌, Bool, true, false, ◌⊎◌, List, [], ◌++◌, arith,
}
use fork_plugin.Platform.{Platform, IsLawful}
use fork_plugin.Config.{ForkConfiguration}
use fork_plugin.Machine.{Machine, Outcome, done, ◌>>=◌, forking_machine}
use fork_plugin.Machine.Rounds.{>>=-Returns}
use fork_plugin.Machine.Run.{accept_event, accept_time, accept_confirmation}
use fork_plugin.Machine.Codes.{sent_as, Traced}
use fork_plugin.Machine.Traces.{Traced-append}
use fork_plugin.Machine.Moves.{Returns, returns, Inv}
use fork_plugin.Machine.Progress.Kinds.{map-Returns}
use fork_plugin.Machine.Loop.{NoRepeats}
use fork_plugin.Machine.Flush.{relay_all}
use fork_plugin.Triqueue.Places.{length-parts}
use fork_plugin.Machine.Arrive.{arriving}
use fork_plugin.Machine.Accept.{
  Handled, accept_event-Handled, accept_time-Handled, accept_confirmation-Handled,
  forking_machine-Inv,
}

module _ (p : Platform) (c : ForkConfiguration) where
  open p use {Event, World, detail_of, push_time, max_keycode}

  -- What has happened since the start. `arrived` are the events that accept_event has queued and
  -- `relayed` those that have been handed on. The decided events are the first of those that
  -- arrived; they have been relayed or are in the output queue, under the codes that Traced asks for
  -- from a table in which each key has its own code.
  pub record Session (m : Machine Event) (arrived relayed : List Event) : Type 0 where
    pub before : List Event
    pub decided : List Event
    pub outs : List Event
    pub mids : List Event
    pub ins : List Event
    pub inv : Inv p c m outs mids ins
    pub taken : before ++ (mids ++ ins) ≡ arrived
    pub output : relayed ++ outs ≡ decided
    pub traced : Traced p (λ key. key) before decided (sent_as m.fork_active)

  pub forking_machine-Session : Session (forking_machine Event c) [] []
  unfolding forking_machine
  forking_machine-Session = record {
    before = [];
    decided = [];
    outs = [];
    mids = [];
    ins = [];
    inv = forking_machine-Inv p c;
    taken = refl;
    output = refl;
    traced = λ key. refl;
  }

  Handled-Session :
      (force_also : Bool) (m n : Machine Event) (arrived relayed new pending : List Event)
      → (w after : World) (s : Session m arrived relayed) → pending ≡ s.mids ++ (s.ins ++ new)
      → (h : Handled p c force_also m.fork_active s.outs pending w n after)
      → Session n (arrived ++ new) (relayed ++ h.sent)
  Handled-Session force_also m n arrived relayed new pending w after s e h = record {
    before = s.before ++ h.before;
    decided = s.decided ++ h.decided;
    outs = h.outs;
    mids = h.mids;
    ins = h.ins;
    inv = h.inv;
    taken =
        append_assoc s.before h.before (h.mids ++ h.ins)
        ∙ ap (λ t. s.before ++ t) (h.taken ∙ e ∙ sym (append_assoc s.mids s.ins new))
        ∙ sym (append_assoc s.before (s.mids ++ s.ins) new)
        ∙ ap (λ t. t ++ new) s.taken;
    output =
        append_assoc relayed h.sent h.outs
        ∙ ap (λ t. relayed ++ t) h.output
        ∙ sym (append_assoc relayed s.outs h.decided)
        ∙ ap (λ t. t ++ h.decided) s.output;
    traced = Traced-append p s.before s.decided _ _ _ h.before h.decided s.traced h.traced;
  }

  -- A call of one of the three operations, with what it queues, and when it is expected: the key of
  -- an event is in range and the queues have room, or a time is not before the machine's.
  pub data Call : Type 0 where
    event : Event → Call
    time : ℕ → Call
    confirmation : Call

  abbrev pub queued_by : Machine Event → Call → List Event
  queued_by m (event e) = arriving p m e
  queued_by m (time now) = []
  queued_by m confirmation = []

  abbrev pub IsDue : Machine Event → Call → Type 0
  IsDue m (event e) = (detail_of e < max_keycode) × (m.tq.buffer.contents_size < 100)
  IsDue m (time now) = m.current_time ≤ now
  IsDue m confirmation = Unit

  -- The world after the events have been relayed, the time perhaps pushed after them.
  abbrev pub Reached : List Event → World → World → Type 0
  Reached sent w after =
      (after ≡ relay_all p sent w) ⊎ ((now : ℕ) × (after ≡ push_time now (relay_all p sent w)))

  -- What a platform does with the machine, the decision time left out.
  unfoldable pub perform : ℕ → Machine Event → World → Call → Outcome (Machine Event × World)
  perform fuel m w (event e) = accept_event p fuel m w e >>= λ r. done (r.1, r.2)
  perform fuel m w (time now) = accept_time p fuel m w now >>= λ r. done (r.1, r.2)
  perform fuel m w confirmation = accept_confirmation p fuel m w

  -- Each call of accept_event, accept_time or accept_confirmation, with fuel above 10100 and under the
  -- configuration that the session began with, carries a session on: it ends without a fault, what it
  -- queues has arrived, and some more events have been relayed to the world, after which the time may
  -- have been pushed. An event needs a key code below max_keycode and room in the buffer; a time must
  -- not be before the machine's; and no key that is not configured to repeat is pressed again, up to
  -- its release, in the pending events.
  pub perform-Session :
      IsLawful p
      → (fuel : ℕ) → 10100 < fuel
      → (m : Machine Event) (w : World) (arrived relayed : List Event) (call : Call)
      → (s : Session m arrived relayed) → IsDue m call
      → NoRepeats p c (s.mids ++ (s.ins ++ queued_by m call))
      → Returns
          (λ r.
            (sent : List Event) × Session r.0 (arrived ++ queued_by m call) (relayed ++ sent)
            × Reached sent w r.1)
          (perform fuel m w call)
  unfolding perform
  perform-Session law fuel enough m w arrived relayed (event e) s due h =
      >>=-Returns
        (accept_event-Handled p c law fuel enough m w e s.outs s.mids s.ins due.0
          (omega (arith, due.1, s.inv.split.held.sized, length-parts s.outs s.mids s.ins)) h s.inv)
        (λ r t. returns _ (
          t.0.sent,
          Handled-Session false m r.1 arrived relayed (arriving p m e) _ w r.2 s refl t.0,
          t.0.pushed,
        ))
  perform-Session law fuel enough m w arrived relayed (time now) s due h =
      >>=-Returns
        (accept_time-Handled p c law fuel enough m w now s.outs s.mids s.ins due
          (rw append-nil at h) s.inv)
        (λ r t. returns _ (
          t.0.sent,
          Handled-Session false m r.1 arrived relayed [] _ w r.2 s (rw append-nil) t.0,
          t.0.pushed,
        ))
  perform-Session law fuel enough m w arrived relayed confirmation s due h =
      map-Returns
        (λ r t. (
          t.sent,
          Handled-Session true m r.0 arrived relayed [] _ w r.1 s (rw append-nil) t,
          t.pushed,
        ))
        (accept_confirmation-Handled p c law fuel enough m w s.outs s.mids s.ins
          (rw append-nil at h) s.inv)
