-- ===== src/Machine/History.antt =====
-- src/machine.h: histories of calls, and what the layer downstream sees of them in its log.
use mathlib.Core.Path.{subst}
use mathlib.Core.List.{append_assoc, append-nil}
use fork_plugin.Prelude.{
  ℕ, ◌≤◌, ◌<◌, ◌≡◌, inl, inr, refl, sym, ap, ◌∙◌, true, false, List, [], ◌∷◌, ◌++◌, ◌&&◌, ◌==◌,
  arith, length, length-append, All, Bool-cases,
}
use fork_plugin.Platform.{Platform, IsLawful}
use fork_plugin.Config.{ForkConfiguration}
use fork_plugin.Machine.{Machine, Outcome, done, forking_machine}
use fork_plugin.Machine.Codes.{sent_as, Traced}
use fork_plugin.Machine.Traces.{Traced-pair, Traced-length, LeavesAlone}
use fork_plugin.Machine.Moves.{Returns, returns}
use fork_plugin.Machine.Loop.{NoRepeats, Unrepeated}
use fork_plugin.Machine.Flush.{relay_all}
use fork_plugin.Machine.Session.{
  Session, Call, queued_by, IsDue, Reached, perform, perform-Session, forking_machine-Session,
}

-- What the layer downstream has received, which pushing the time does not change.
pub record Recorder (p : Platform) : Type 0 where
  pub log : p.World → List p.Event
  pub log-relay_event : (e : p.Event) (w : p.World) → log (p.relay_event e w) ≡ log w ++ (e ∷ [])
  pub log-push_time : (now : ℕ) (w : p.World) → log (p.push_time now w) ≡ log w

append_split {ℓ} :
    {A : Type ℓ} (xs ys zs ws : List A)
    → xs ++ zs ≡ ys ++ ws
    → length ys ≤ length xs
    → (tail : List A) × (xs ≡ ys ++ tail)
append_split xs [] zs ws e h = (xs, refl)
append_split [] (y ∷ ys) zs ws e h = absurd (omega arith)
append_split (x ∷ xs) (y ∷ ys) zs ws e h =
    let (tail, same) = append_split xs ys zs ws (cc) (omega arith) in
    let first : x ≡ y = cc in (tail, ap (λ t. x ∷ t) same ∙ ap (λ z. z ∷ (ys ++ tail)) first)

-- Two places in a list, with all that follows the second.
append-places {ℓ} :
    {A : Type ℓ} (xs : List A) (x : A) (ys : List A) (y : A) (zs : List A)
    → (xs ++ (x ∷ (ys ++ (y ∷ [])))) ++ zs ≡ xs ++ (x ∷ (ys ++ (y ∷ zs)))
append-places xs x ys y zs =
    append_assoc xs (x ∷ (ys ++ (y ∷ []))) zs
    ∙ ap (λ t. xs ++ (x ∷ t)) (append_assoc ys (y ∷ []) zs)

pub Returns-done :
    {A : Type 0} (P : A → Type 0) {o : Outcome A} (a : A) → Returns P o → o ≡ done a → P a
Returns-done P a r e = value (subst (Returns P) e r)
  where
    value : Returns P (done a) → P a
    value (returns b h) = h

module _ (p : Platform) (c : ForkConfiguration) (tape : Recorder p) where
  open p use {Event, World, press_p, release_p, detail_of}
  open tape use {log}

  log-relay_all : (es : List Event) (w : World) → log (relay_all p es w) ≡ log w ++ es
  log-relay_all [] w = sym (append-nil (log w))
  log-relay_all (e ∷ es) w =
      log-relay_all es (p.relay_event e w)
      ∙ ap (λ t. t ++ es) (tape.log-relay_event e w)
      ∙ append_assoc (log w) (e ∷ []) es

  log-Reached :
      (sent : List Event) (w after : World) → Reached p c sent w after → log after ≡ log w ++ sent
  log-Reached sent w after (inl e) = ap log e ∙ log-relay_all sent w
  log-Reached sent w after (inr (now, e)) =
      ap log e ∙ tape.log-push_time now (relay_all p sent w) ∙ log-relay_all sent w

  -- What can happen to a new machine: calls that are due, each run with fuel above 10100, and
  -- between them changes of the world that record no event. The list has the events that have been
  -- queued, in order.
  pub data History (fuel : ℕ) : Machine Event → World → List Event → Type 0 where
    start : (w : World) → log w ≡ [] → History fuel (forking_machine Event c) w []
    next :
        (m : Machine Event) (w : World) (arrived : List Event) (call : Call p c)
        → (n : Machine Event) (after : World) → History fuel m w arrived
        → IsDue p c m call
        → perform p c fuel m w call ≡ done (n, after)
        → History fuel n after (arrived ++ queued_by p c m call)
    outside :
        (m : Machine Event) (w u : World) (arrived : List Event)
        → History fuel m w arrived
        → log u ≡ log w
        → History fuel m u arrived

  Unrepeated-prefix :
      (e : Event) (xs ys : List Event) → Unrepeated p c e (xs ++ ys) → Unrepeated p c e xs
  Unrepeated-prefix e [] ys h = tt
  Unrepeated-prefix e (x ∷ xs) ys h =
      elim (Bool-cases (release_p x && detail_of x == detail_of e)) [
        | inl r ↦ rw r tt
        | inr r ↦ let k = rw r at h in rw r (k.0, Unrepeated-prefix e xs ys k.1)
      ]

  NoRepeats-prefix : (xs ys : List Event) → NoRepeats p c (xs ++ ys) → NoRepeats p c xs
  NoRepeats-prefix [] ys h = tt
  NoRepeats-prefix (x ∷ xs) ys h =
      (λ pr. Unrepeated-prefix x xs ys (h.0 pr), NoRepeats-prefix xs ys h.1)

  NoRepeats-suffix : (xs ys : List Event) → NoRepeats p c (xs ++ ys) → NoRepeats p c ys
  NoRepeats-suffix [] ys h = h
  NoRepeats-suffix (x ∷ xs) ys h = NoRepeats-suffix xs ys h.1

  History-Session :
      {fuel : ℕ}
      → IsLawful p
      → 10100 < fuel
      → (m : Machine Event) (w : World) (arrived : List Event) → History fuel m w arrived
      → NoRepeats p c arrived
      → Session p c m arrived (log w)
  History-Session law enough m w arrived (start u e) h = rw e (forking_machine-Session p c)
  History-Session law enough m w arrived (outside k u v queued past e) h =
      rw e (History-Session law enough m u arrived past h)
  History-Session {fuel} law enough n after arrived (next m w queued call k u past due e) h =
      let s : Session p c m queued (log w) =
        History-Session law enough m w queued past
          (NoRepeats-prefix queued (queued_by p c m call) h) in
      let pending : NoRepeats p c (s.mids ++ (s.ins ++ queued_by p c m call)) =
        NoRepeats-suffix s.before (s.mids ++ (s.ins ++ queued_by p c m call)) (
          subst (NoRepeats p c)
            (ap (λ t. t ++ queued_by p c m call) (sym s.taken) ∙ simp (append_assoc)) h) in
      let (sent, later, reached) =
        Returns-done _ (n, after)
          (perform-Session p c law fuel enough m w queued (log w) call s due pending) e in
      rw (log-Reached sent w after reached) later

  -- In a history of calls of accept_event, accept_time and accept_confirmation alone, with fuel above
  -- 10100 and under one configuration, which no call changes, where each event comes with a key code
  -- below max_keycode and finds room in the buffer, no time is before the machine's, and no key that
  -- is not configured to repeat is pressed again before its release, the release of a key is relayed
  -- under the code under which its press was: for a press and a release of a key among the queued
  -- events, with no other press or release of the key between, the events that the log has in their
  -- places have the same code.
  pub relayed_release-eq :
      {fuel : ℕ}
      → IsLawful p
      → 10100 < fuel
      → (m : Machine Event) (w : World) (arrived early early' : List Event) (b a : Event)
      → (between after : List Event) (b' a' : Event) (rest rest' : List Event)
      → History fuel m w arrived
      → NoRepeats p c arrived
      → arrived ≡ early ++ (b ∷ (between ++ (b' ∷ rest)))
      → log w ≡ early' ++ (a ∷ (after ++ (a' ∷ rest')))
      → length early ≡ length early'
      → length between ≡ length after
      → press_p b ≡ true
      → press_p b' ≡ false
      → release_p b' ≡ true
      → detail_of b' ≡ detail_of b
      → All (LeavesAlone p (detail_of b)) between
      → detail_of a' ≡ detail_of a
  relayed_release-eq law enough m w arrived early early' b a between after b' a' rest rest' past
        plain ea er e e' pr np r same l =
      let s : Session p c m arrived (log w) = History-Session law enough m w arrived past plain in
      let joined : s.before ++ (s.mids ++ s.ins) ≡ (early ++ (b ∷ (between ++ (b' ∷ [])))) ++ rest =
        s.taken ∙ ea ∙ sym (append-places early b between b' rest) in
      let sent : s.decided ≡ early' ++ (a ∷ (after ++ (a' ∷ (rest' ++ s.outs)))) =
        sym s.output ∙ rw er (simp (append_assoc)) in
      let (tail, split) =
        append_split s.before (early ++ (b ∷ (between ++ (b' ∷ [])))) (s.mids ++ s.ins) rest joined
          (omega (
            arith,
            Traced-length p s.before s.decided (λ key. key) (sent_as m.fork_active) s.traced,
            ap length sent,
            length-append early' (a ∷ (after ++ (a' ∷ (rest' ++ s.outs)))),
            length-append after (a' ∷ (rest' ++ s.outs)),
            length-append early (b ∷ (between ++ (b' ∷ []))),
            length-append between (b' ∷ []),
          )) in
      let whole : s.before ≡ early ++ (b ∷ (between ++ (b' ∷ tail))) =
        split ∙ append-places early b between b' tail in
      Traced-pair p early early' (λ key. key) (sent_as m.fork_active) b a between after b' a' tail
        (rest' ++ s.outs) e e' pr np r same l
        (subst
          (λ t.
            Traced p (λ key. key) t (early' ++ (a ∷ (after ++ (a' ∷ (rest' ++ s.outs)))))
              (sent_as m.fork_active))
          whole
          (subst (λ t. Traced p (λ key. key) s.before t (sent_as m.fork_active)) sent s.traced))
