-- ===== src/Machine/Threads.antt =====
-- src/machine.h: several threads in the public operations of one machine, interleaved. A section
-- under the lock is one step, but for the loop of run_automaton, of which each round is one. A layer
-- downstream that calls back while an event is relayed to it is one more thread. Of
-- next_decision_time only the lock is here, as it changes nothing. The lock is std::mutex, which a
-- thread that holds it cannot take again; a build without the standard library has no lock.
pub mod Effects
pub mod Steps
pub mod Order
pub mod Kept
pub mod Lock
pub mod Late
pub mod Progress
pub mod Overtaking
use fork_plugin.Prelude.{
  ℕ, ◌≤◌, ◌<◌, ◌≡◌, ◌≢◌, Bool, true, false, some, none, List, [], ◌∷◌, ◌++◌, replicate,
}
use fork_plugin.Platform.{Platform}
use fork_plugin.Config.{ForkConfiguration}
use fork_plugin.Triqueue.{first}
use fork_plugin.Machine.{Machine, done, forking_machine}
use fork_plugin.Machine.Run.{again, stop, round, pop_event_if_present, push_if_set, enqueue_event}
use fork_plugin.Machine.Arrive.{arriving}
use fork_plugin.Machine.History.{Recorder}

module _ (p : Platform) (c : ForkConfiguration) where
  open p use {Event, World, time_of, detail_of, output_frozen, relay_event, push_time, max_keycode}

  -- Where a thread stands: in none of the operations; before the lock of accept_event and of
  -- accept_time; before the lock of run_automaton and in its loop; in flush_to_next before the test
  -- of the output, before the lock of pop_event_if_present, and with an event to relay; before the
  -- second test, before the lock of push_time_to_next and with a time to push; before the lock of
  -- next_decision_time, and the same inside the section of accept_time, with the lock held. The
  -- truth value is that of force_also, by which a thread in accept_confirmation differs.
  pub data Pc : Type 0 where
    idle : Pc
    entering : Event → Pc
    timing : ℕ → Pc
    starting running flushing popping : Bool → Pc
    relaying : Bool → Event → Pc
    closing reading : Bool → Pc
    pushing : Bool → ℕ → Pc
    asking asking_locked : Pc

  -- After flush_to_next, all operations but accept_confirmation ask for the next decision time.
  abbrev pub leaving : Bool → Pc
  leaving true = idle
  leaving false = asking

  -- What the threads share. `locked` is the state of mLock.
  pub record Shared : Type 0 where
    pub machine : Machine Event
    pub world : World
    pub locked : Bool

  -- A step of a thread, with the events that it puts into the input queue.
  pub data Move (s : Shared) : Pc → Shared → Pc → List Event → Type 0 where
    call_event : (e : Event) → Move s idle s (entering e) []
    call_time : (now : ℕ) → Move s idle s (timing now) []
    call_confirmation : Move s idle s (starting true) []
    enqueue :
        (e : Event)
        → s.locked ≡ false
        → (n : Machine Event) → enqueue_event p s.machine e ≡ done (n, true)
        → Move s (entering e) (record s { machine = n }) (starting false) (arriving p s.machine e)
    reject :
        (e : Event)
        → s.locked ≡ false
        → (n : Machine Event) → enqueue_event p s.machine e ≡ done (n, false)
        → Move s (entering e) (record s { machine = n }) idle []
    late :
        (now : ℕ)
        → s.locked ≡ false
        → now < s.machine.current_time
        → Move s (timing now) (record s { locked = true }) asking_locked []
    set_time :
        (now : ℕ)
        → s.locked ≡ false
        → s.machine.current_time ≤ now
        → Move s
            (timing now)
            (record s { machine = record s.machine { current_time = now } })
            (starting false)
            []
    take_lock :
        (force_also : Bool)
        → s.locked ≡ false
        → Move s (starting force_also) (record s { locked = true }) (running force_also) []
    go_round :
        (force_also : Bool) (n : Machine Event)
        → round p force_also s.world s.machine ≡ done (again n)
        → Move s (running force_also) (record s { machine = n }) (running force_also) []
    end_loop :
        (force_also : Bool) (n : Machine Event)
        → round p force_also s.world s.machine ≡ done (stop n)
        → Move s
            (running force_also)
            (record s { machine = n; locked = false })
            (flushing force_also)
            []
    test_open :
        (force_also : Bool)
        → output_frozen s.world ≡ false
        → Move s (flushing force_also) s (popping force_also) []
    test_frozen :
        (force_also : Bool)
        → output_frozen s.world ≡ true
        → Move s (flushing force_also) s (closing force_also) []
    pop_none :
        (force_also : Bool)
        → s.locked ≡ false
        → (n : Machine Event) → pop_event_if_present p s.machine ≡ (none, n)
        → Move s (popping force_also) (record s { machine = n }) (closing force_also) []
    pop_event :
        (force_also : Bool) (e : Event) (n : Machine Event)
        → s.locked ≡ false
        → pop_event_if_present p s.machine ≡ (some (some e), n)
        → Move s (popping force_also) (record s { machine = n }) (relaying force_also e) []
    relay :
        (force_also : Bool) (e : Event)
        → Move s
            (relaying force_also e)
            (record s { world = relay_event e s.world })
            (flushing force_also)
            []
    close_frozen :
        (force_also : Bool)
        → output_frozen s.world ≡ true
        → Move s (closing force_also) s (leaving force_also) []
    close_open :
        (force_also : Bool)
        → output_frozen s.world ≡ false
        → Move s (closing force_also) s (reading force_also) []
    read_none :
        (force_also : Bool)
        → s.locked ≡ false
        → first s.machine.tq ≡ none
        → Move s (reading force_also) s (pushing force_also s.machine.current_time) []
    read_time :
        (force_also : Bool) (item : Event)
        → s.locked ≡ false
        → first s.machine.tq ≡ some (some item)
        → Move s
            (reading force_also)
            (record s { machine = record s.machine { current_time = 0 } })
            (pushing force_also (time_of item))
            []
    push :
        (force_also : Bool) (now : ℕ)
        → Move s
            (pushing force_also now)
            (record s { world = push_if_set p now s.world })
            (leaving force_also)
            []
    ask : s.locked ≡ false → Move s asking s idle []

  pub record System : Type 0 where
    pub shared : Shared
    pub threads : List Pc

  -- The event that a thread has popped and not yet relayed.
  abbrev pub hand : Pc → List Event
  hand (relaying force_also e) = e ∷ []
  hand _ = []

  abbrev pub hands : List Pc → List Event
  hands [] = []
  hands (pc ∷ pcs) = hand pc ++ hands pcs

  -- A new machine, with threads that have not called it.
  abbrev pub new_system : World → ℕ → System
  new_system w n = record {
    shared = record { machine = forking_machine Event c; world = w; locked = false };
    threads = replicate n idle;
  }

  -- A condition on the runs that are considered, which the program does not test: no event has the
  -- key code max_keycode, by which the tables are indexed beyond their end, and an event that can be
  -- queued finds room in the buffer. What push_back does without room is the subject of
  -- Circular/Full.
  abbrev pub IsExpected : Machine Event → Pc → Type 0
  IsExpected m (entering e) =
      (detail_of e ≢ max_keycode) × (detail_of e < max_keycode → m.tq.buffer.contents_size < 100)
  IsExpected m _ = Unit

  -- What the threads of a new machine can reach by steps that are expected, where the popped events
  -- not yet relayed always satisfy `Ok`; the world may change between the steps as long as the log
  -- does not. The list has the events that have been queued, in order.
  pub data Reach (tape : Recorder p) (Ok : List Event → Type 0) : System → List Event → Type 0 where
    begin : (w : World) (n : ℕ) → tape.log w ≡ [] → Reach tape Ok (new_system w n) []
    pick :
        (s : System) (arrived : List Event) (before after : List Pc) (pc pc' : Pc) (t : Shared)
        (new : List Event)
        → Reach tape Ok s arrived
        → s.threads ≡ before ++ (pc ∷ after)
        → IsExpected s.shared.machine pc
        → Move s.shared pc t pc' new
        → Ok (hands (before ++ (pc' ∷ after)))
        → Reach tape Ok (record { shared = t; threads = before ++ (pc' ∷ after) }) (arrived ++ new)
    outside :
        (s : System) (arrived : List Event) (u : World)
        → Reach tape Ok s arrived
        → tape.log u ≡ tape.log s.shared.world
        → Reach tape Ok
            (record { shared = record s.shared { world = u }; threads = s.threads })
            arrived
