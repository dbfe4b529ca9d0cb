-- ===== src/Machine/Threads/Late.antt =====
-- src/machine.h: the branch of accept_time that asks for the lock while it holds it.
use fork_plugin.Prelude.{◌<◌, ◌≡◌, refl, ap, true, false, List, ◌∷◌, ◌++◌, arith}
use fork_plugin.Platform.{Platform}
use fork_plugin.Config.{ForkConfiguration}
use fork_plugin.Machine.History.{Recorder}
use fork_plugin.Machine.Threads.{
  Pc, Shared, System, Move, call_event, enqueue, reject, late, set_time, take_lock, go_round,
  end_loop, pop_none, pop_event, read_none, read_time, ask, Reach,
}
use fork_plugin.Machine.Threads.Lock.{
  bit, bit-held, bit-free, is_stuck, is_holding, needs_lock, count, count-append, count-stuck,
  count-holding,
}

module _ (p : Platform) (c : ForkConfiguration) (tape : Recorder p)
    (Ok : List p.Event → Type 0) where
  open p use {Event}

  Move-stuck :
      (s : Shared p c) (pc : Pc p c) (t : Shared p c) (pc' : Pc p c) (new : List Event)
      → Move p c s pc t pc' new
      → s.locked ≡ true
      → is_holding p c pc ≡ false
      → (needs_lock p c pc ≡ false) × (t.locked ≡ true) × (t.machine ≡ s.machine)
  Move-stuck s pc t pc' new (enqueue e free n h) held alone = absurd (cc)
  Move-stuck s pc t pc' new (reject e free n h) held alone = absurd (cc)
  Move-stuck s pc t pc' new (late now free h) held alone = absurd (cc)
  Move-stuck s pc t pc' new (set_time now free h) held alone = absurd (cc)
  Move-stuck s pc t pc' new (take_lock force_also free) held alone = absurd (cc)
  Move-stuck s pc t pc' new (go_round force_also n h) held alone = absurd (cc)
  Move-stuck s pc t pc' new (end_loop force_also n h) held alone = absurd (cc)
  Move-stuck s pc t pc' new (pop_none force_also free n h) held alone = absurd (cc)
  Move-stuck s pc t pc' new (pop_event force_also e n free h) held alone = absurd (cc)
  Move-stuck s pc t pc' new (read_none force_also free h) held alone = absurd (cc)
  Move-stuck s pc t pc' new (read_time force_also item free h) held alone = absurd (cc)
  Move-stuck s pc t pc' new (ask free) held alone = absurd (cc)
  Move-stuck s pc t pc' new m held alone = (refl, held, refl)

  Move-unstuck :
      (s : Shared p c) (pc : Pc p c) (t : Shared p c) (pc' : Pc p c) (new : List Event)
      → Move p c s pc t pc' new
      → is_stuck p c pc ≡ false
  Move-unstuck s pc t pc' new (call_event e) = refl
  Move-unstuck s pc t pc' new m = refl

  -- Once a thread is in the branch of accept_time for a time that goes backwards, the lock is never
  -- released and the machine never changes again: in every reachable state with such a thread, a
  -- step of any thread takes no lock, leaves the lock held and the machine as it is, and leaves that
  -- thread where it is.
  pub stuck-Move :
      (s : System p c) (arrived : List Event) (before after : List (Pc p c)) (pc : Pc p c)
      (t : Shared p c) (pc' : Pc p c) (new : List Event)
      → Reach p c tape Ok s arrived
      → 0 < count p c (is_stuck p c) s.threads
      → s.threads ≡ before ++ (pc ∷ after)
      → Move p c s.shared pc t pc' new
      → (needs_lock p c pc ≡ false)
        × (t.locked ≡ true)
        × (t.machine ≡ s.shared.machine)
        × (0 < count p c (is_stuck p c) (before ++ (pc' ∷ after)))
  stuck-Move s arrived before after pc t pc' new past stuck here m =
      let total : count p c (is_holding p c) (before ++ (pc ∷ after)) ≡ bit s.shared.locked =
        rw here at (count-holding p c tape Ok s arrived past) in
      let some_stuck : 0 < count p c (is_stuck p c) (before ++ (pc ∷ after)) = rw here at stuck in
      let moves : bit (is_stuck p c pc) ≡ 0 = ap bit (Move-unstuck s.shared pc t pc' new m) in
      let locked : s.shared.locked ≡ true =
        bit-held s.shared.locked
          (omega (arith, total, some_stuck, count-stuck p c (before ++ (pc ∷ after)))) in
      let free : is_holding p c pc ≡ false = bit-free (is_holding p c pc) (
        omega (
          arith,
          total,
          some_stuck,
          moves,
          ap bit locked,
          count-append p c (is_holding p c) before (pc ∷ after),
          count-append p c (is_stuck p c) before (pc ∷ after),
          count-stuck p c before,
          count-stuck p c after,
        )) in
      let step = Move-stuck s.shared pc t pc' new m locked free in
      (
        step.0,
        step.1,
        step.2,
        omega (
          arith,
          some_stuck,
          moves,
          count-append p c (is_stuck p c) before (pc ∷ after),
          count-append p c (is_stuck p c) before (pc' ∷ after),
        ),
      )
