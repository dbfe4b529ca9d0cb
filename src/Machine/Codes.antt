-- ===== src/Machine/Codes.antt =====
-- src/machine.h: the table forkActive, read as the code that each key is sent out under.
use mathlib.Core.Path.{subst, fun_ext}
use fork_plugin.Prelude.{
  ℕ, ◌≡◌, ◌≢◌, refl, true, false, List, [], ◌∷◌, arith, ◌==◌, if◌then◌else◌, update, Bool-cases,
  inl, inr,
}
use fork_plugin.Platform.{Platform, IsLawful}
use fork_plugin.Config.{ForkConfiguration}
use fork_plugin.Machine.{no_key}

-- The code under which the table has the key sent out: its own, or that of the table.
abbrev pub sent_as : (ℕ → ℕ) → ℕ → ℕ
sent_as active key = if active key == no_key then key else active key

-- A key that is active as another one has a fork.
pub record IsTidy (c : ForkConfiguration) (active : ℕ → ℕ) : Type 0 where
  pub forked : (key : ℕ) → active key ≢ no_key → active key ≢ key → c.fork_keycode key ≢ no_key

pub IsTidy-update :
    (c : ForkConfiguration) (active : ℕ → ℕ) (key code : ℕ)
    → IsTidy c active
    → (code ≢ no_key → code ≢ key → c.fork_keycode key ≢ no_key)
    → IsTidy c (update active key code)
IsTidy-update c active key code t ok = record { forked = λ k. ground (arith, t.forked k, ok) }

module _ (p : Platform) where
  open p use {Event, press_p, release_p, detail_of, rewrite_event}

  -- What a layer downstream may rely on: the press of a key goes out under some code, its release
  -- goes out under the code of the last press, and a release with no press before it under the
  -- key's own code, as does every other event. `codes` has the code of each key at the start, and
  -- `last` at the end.
  abbrev pub Traced : (ℕ → ℕ) → List Event → List Event → (ℕ → ℕ) → Type 0
  Traced codes [] [] last = (key : ℕ) → last key ≡ codes key
  Traced codes (b ∷ before) (a ∷ after) last =
      if press_p b
      then Traced (update codes (detail_of b) (detail_of a)) before after last
      else if release_p b
      then ((detail_of a ≡ codes (detail_of b))
          × Traced (update codes (detail_of b) (detail_of b)) before after last)
      else ((detail_of a ≡ detail_of b) × Traced codes before after last)
  Traced codes _ _ last = ⊥

  -- The same for one event, with the table before and after it.
  pub record Paired (old : ℕ → ℕ) (b a : Event) (new : ℕ → ℕ) : Type 0 where
    pub pressed :
        press_p b ≡ true
        → (key : ℕ) → sent_as new key ≡ update (sent_as old) (detail_of b) (detail_of a) key
    pub released :
        release_p b ≡ true
        → (detail_of a ≡ sent_as old (detail_of b))
          × ((key : ℕ) → sent_as new key ≡ update (sent_as old) (detail_of b) (detail_of b) key)
    pub other :
        press_p b ≡ false
        → release_p b ≡ false
        → (detail_of a ≡ detail_of b) × ((key : ℕ) → sent_as new key ≡ sent_as old key)

  -- A key that goes out under its own code, by a table in which it is active as nothing or itself.
  pub Paired-own :
      IsLawful p
      → (old new : ℕ → ℕ) (b : Event) → press_p b ≡ true
      → sent_as old (detail_of b) ≡ detail_of b
      → ((key : ℕ) → sent_as new key ≡ sent_as old key)
      → Paired old b b new
  Paired-own law old new b pr own same = record {
    pressed = λ h key. ground (arith, same key);
    released = λ h. absurd (ground (arith, law.press_not_release b));
    other = λ h. absurd (ground arith);
  }

  -- A press that goes out under the code of its fork.
  pub Paired-fork :
      IsLawful p
      → (old : ℕ → ℕ) (b : Event) (code : ℕ) → press_p b ≡ true
      → code ≢ no_key
      → Paired old b (rewrite_event b code) (update old (detail_of b) code)
  Paired-fork law old b code pr ne = record {
    pressed = λ h key. ground (arith, law.detail_of-rewrite_event b code);
    released = λ h. absurd (ground (arith, law.press_not_release b));
    other = λ h. absurd (ground arith);
  }

  -- A release goes out under the code of its key, which is then active as nothing.
  pub Paired-release :
      IsLawful p
      → (old : ℕ → ℕ) (b : Event) → release_p b ≡ true
      → old (detail_of b) ≢ no_key
      → Paired old b (rewrite_event b (old (detail_of b))) (update old (detail_of b) no_key)
  Paired-release law old b r held = record {
    pressed = λ h. absurd (ground (arith, law.press_not_release b));
    released = λ h.
        (ground (arith, law.detail_of-rewrite_event b (old (detail_of b))), λ key. ground arith);
    other = λ h k. absurd (ground arith);
  }

  -- An event that goes out as it is, of a key that is active as nothing or itself if the event
  -- presses it, and as nothing if the event releases it.
  pub Paired-plain :
      (old : ℕ → ℕ) (b : Event)
      → (press_p b ≡ true → sent_as old (detail_of b) ≡ detail_of b)
      → (release_p b ≡ true → old (detail_of b) ≡ no_key)
      → Paired old b b old
  Paired-plain old b pr re = record {
    pressed = λ h key. ground (arith, pr h);
    released = λ h. (ground (arith, re h), λ key. ground (arith, re h));
    other = λ h k. (refl, λ key. refl);
  }

  pub Traced-cons :
      {old mid : ℕ → ℕ} {b a : Event} (before after : List Event) (last : ℕ → ℕ)
      → Paired old b a mid
      → Traced (sent_as mid) before after last
      → Traced (sent_as old) (b ∷ before) (a ∷ after) last
  Traced-cons {old} {mid} {b} {a} before after last pair t =
      let moved : (f : ℕ → ℕ) → ((key : ℕ) → sent_as mid key ≡ f key) → Traced f before after last =
        λ f e. subst (λ g. Traced g before after last) (fun_ext e) t in
      elim (Bool-cases (press_p b)) [
        | inl pr ↦ rw pr (moved _ (pair.pressed pr))
        | inr np ↦ elim (Bool-cases (release_p b)) [
          | inl r ↦ rw (np, r) ((pair.released r).0, moved _ (pair.released r).1)
          | inr nr ↦ rw (np, nr) ((pair.other np nr).0, moved _ (pair.other np nr).1)
        ]
      ]
