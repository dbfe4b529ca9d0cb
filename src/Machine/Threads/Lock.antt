-- ===== src/Machine/Threads/Lock.antt =====
-- src/machine.h: the lock, and which threads hold it.
use fork_plugin.Prelude.{
  ℕ, zero, suc, ◌+◌, ◌<◌, ◌≤◌, ◌≡◌, refl, ap, Bool, true, false, List, [], ◌∷◌, ◌++◌, arith,
  replicate,
}
use fork_plugin.Platform.{Platform}
use fork_plugin.Config.{ForkConfiguration}
use fork_plugin.Machine.History.{Recorder}
use fork_plugin.Machine.Threads.{
  Pc, idle, entering, timing, starting, running, popping, reading, asking, asking_locked, leaving,
  Shared, System, Move, late, take_lock, end_loop, close_frozen, push, Reach, begin, pick, outside,
}

abbrev pub bit : Bool → ℕ
bit true = 1
bit false = 0

pub bit-held : (b : Bool) → 0 < bit b → b ≡ true
bit-held true h = refl
bit-held false h = absurd (omega arith)

pub bit-free : (b : Bool) → bit b ≡ 0 → b ≡ false
bit-free true h = absurd (omega arith)
bit-free false h = refl

module _ (p : Platform) (c : ForkConfiguration) where
  open p use {Event}

  -- Whether the thread waits for the lock that it holds itself.
  abbrev pub is_stuck : Pc p c → Bool
  is_stuck asking_locked = true
  is_stuck _ = false

  -- Whether the thread holds the lock between two steps.
  abbrev pub is_holding : Pc p c → Bool
  is_holding (running force_also) = true
  is_holding asking_locked = true
  is_holding _ = false

  -- Whether the next step of the thread takes the lock.
  abbrev pub needs_lock : Pc p c → Bool
  needs_lock (entering e) = true
  needs_lock (timing now) = true
  needs_lock (starting force_also) = true
  needs_lock (popping force_also) = true
  needs_lock (reading force_also) = true
  needs_lock asking = true
  needs_lock asking_locked = true
  needs_lock _ = false

  abbrev pub count : (Pc p c → Bool) → List (Pc p c) → ℕ
  count test [] = 0
  count test (pc ∷ pcs) = bit (test pc) + count test pcs

  pub count-append :
      (test : Pc p c → Bool) (before after : List (Pc p c))
      → count test (before ++ after) ≡ count test before + count test after
  count-append test [] after = omega arith
  count-append test (pc ∷ before) after = omega (arith, count-append test before after)

  count-idle : (n : ℕ) → count is_holding (replicate n idle) ≡ 0
  count-idle zero = refl
  count-idle (suc n) = omega (arith, count-idle n)

  bit-stuck : (pc : Pc p c) → bit (is_stuck pc) ≤ bit (is_holding pc)
  bit-stuck asking_locked = omega arith
  bit-stuck pc = omega arith

  pub count-stuck : (pcs : List (Pc p c)) → count is_stuck pcs ≤ count is_holding pcs
  count-stuck [] = omega arith
  count-stuck (pc ∷ pcs) = omega (arith, bit-stuck pc, count-stuck pcs)

  holding-leaving : (force_also : Bool) → is_holding (leaving p c force_also) ≡ false
  holding-leaving true = refl
  holding-leaving false = refl

  Move-lock :
      (s : Shared p c) (pc : Pc p c) (t : Shared p c) (pc' : Pc p c) (new : List Event)
      → Move p c s pc t pc' new
      → (is_holding pc ≡ true → s.locked ≡ true)
      → bit t.locked + bit (is_holding pc) ≡ bit s.locked + bit (is_holding pc')
  Move-lock s pc t pc' new (take_lock force_also open_lock) h = rw open_lock
  Move-lock s pc t pc' new (late now open_lock early) h = rw open_lock
  Move-lock s pc t pc' new (end_loop force_also n e) h = rw (h refl)
  Move-lock s pc t pc' new (close_frozen force_also e) h = rw (holding-leaving force_also)
  Move-lock s pc t pc' new (push force_also now) h = rw (holding-leaving force_also)
  Move-lock s pc t pc' new m h = omega arith

  module _ (tape : Recorder p) (Ok : List Event → Type 0) where
    -- In every reachable state, exactly one thread holds the lock if it is taken, and none if it is
    -- not; so never are two threads in the loop of run_automaton.
    pub count-holding :
        (s : System p c) (arrived : List Event)
        → Reach p c tape Ok s arrived
        → count is_holding s.threads ≡ bit s.shared.locked
    count-holding s arrived (begin w n e) = count-idle n
    count-holding s arrived (outside u queued w past e) = count-holding u queued past
    count-holding s arrived (pick u queued before after pc pc' t new past here x m ok) =
        let total : count is_holding (before ++ (pc ∷ after)) ≡ bit u.shared.locked =
          rw here at (count-holding u queued past) in
        let held : is_holding pc ≡ true → u.shared.locked ≡ true = λ r.
          bit-held u.shared.locked
            (omega (arith, total, ap bit r, count-append is_holding before (pc ∷ after))) in
        omega (
          arith,
          total,
          Move-lock u.shared pc t pc' new m held,
          count-append is_holding before (pc ∷ after),
          count-append is_holding before (pc' ∷ after),
        )
