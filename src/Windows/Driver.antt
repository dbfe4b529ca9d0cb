-- ===== src/Windows/Driver.antt =====
-- windows/sys/kbfiltr.cpp: what the driver does with keyboard packets, its timer and requests to
-- configure it. The framework and the class driver above are parameters.
use fork_plugin.Prelude.Int.{ℤ, pos, negsuc, to_unsigned, to_int}
use fork_plugin.Prelude.{
  ℕ, suc, ◌-◌, ◌*◌, ◌/◌, ◌%◌, ◌^◌, true, ◌&&◌, List, [], ◌∷◌, ◌==◌, ◌!=◌, ltb, if◌then◌else◌,
  length, get_or,
}
use fork_plugin.Platform.{Platform}
use fork_plugin.Config.{ForkConfiguration, fork_configuration}
use fork_plugin.Machine.{Machine, Outcome, done, ◌>>=◌, forking_machine}
use fork_plugin.Machine.Run as Machine
use fork_plugin.Machine.Configure.{set_debug, configure_global, configure_key, configure_twins}
use fork_plugin.Windows.{
  KeyboardInputData, KeyFlags, ExtendedEvent, win_event_to_extended, extended_event_to_win,
  win_environment,
}

-- The framework: `ClassService` of the driver above, KeQuerySystemTime in units of 100 ns, which
-- may go on with each reading, WdfTimerStart and WdfTimerStop on the timer of the device.
pub record Framework : Type 1 where
  pub World : Type 0
  pub class_service : KeyboardInputData → World → World
  pub query_system_time : World → ℕ × World
  pub timer_start : ℤ → World → World
  pub timer_stop : World → World

-- -(n) on `int`
abbrev pub minus : ℕ → ℤ
minus n = if n == 0 then pos 0 else negsuc (n - 1)

-- `startTimer` computes `- miliseconds * 1000 * 10` in the type `long`, which has 32 bits, before
-- it is widened. A positive due time is an absolute one.
unfoldable pub due_time : ℤ → ℤ
due_time (pos n) = to_int (to_unsigned (2 ^ 32) (minus (n * 10000)))
due_time (negsuc n) = to_int (to_unsigned (2 ^ 32) (pos (suc n * 10000)))

-- `a - b` on `int`
abbrev pub difference : ℕ → ℕ → ℤ
difference a b = if ltb a b then minus (b - a) else pos (a - b)

-- `t & 3` and `t >> 2` on `int`
abbrev pub subtype_n_args : ℤ → ℕ
subtype_n_args (pos n) = n % 4
subtype_n_args (negsuc n) = 3 - n % 4

abbrev pub type_subtype : ℤ → ℤ
type_subtype (pos n) = pos (n / 4)
type_subtype (negsuc n) = negsuc (n / 4)

module _ (mask : KeyFlags) (wdf : Framework) where
  open wdf use {World, class_service, query_system_time, timer_start, timer_stop}

  abbrev pub pass_event : ExtendedEvent → World → World
  pass_event pevent w = class_service (extended_event_to_win mask pevent) w

  abbrev pub environment : Platform
  environment = win_environment mask World pass_event

  -- The machine that create_machine makes, over the memory that the configuration is built in.
  unfoldable pub create_machine : ForkConfiguration → Machine ExtendedEvent
  create_machine raw =
      set_debug environment (forking_machine ExtendedEvent (fork_configuration raw)) (pos 1)

  unfoldable pub current_time_miliseconds : World → ℕ × World
  current_time_miliseconds w =
      let r = query_system_time w in (r.0 / (1000 * 10) % (3600 * 1000), r.1)

  unfoldable pub start_timer : ℤ → World → World
  unfolding due_time
  start_timer miliseconds w = timer_start (due_time miliseconds) w

  module _ (fuel : ℕ) where
    unfoldable pub accept_time :
        Machine ExtendedEvent → World → ℕ → Outcome (Machine ExtendedEvent × World)
    unfolding start_timer
    accept_time m w time = Machine.accept_time environment fuel m w time >>= λ r.
        let (timeout, n, u) = r in
        if timeout != 0 then done (n, start_timer (pos timeout) u) else done (n, timer_stop u)

    unfoldable pub accept_event :
        Machine ExtendedEvent → World → KeyboardInputData → Outcome (Machine ExtendedEvent × World)
    unfolding start_timer current_time_miliseconds
    accept_event m w event =
        let (now, v) = current_time_miliseconds w in
        let ev = win_event_to_extended mask event now in
        Machine.accept_event environment fuel m v ev >>= λ r.
        let (timeout, n, u) = r in
        if timeout != 0
        then done (n, start_timer (difference timeout now) u)
        else done (n, timer_stop u)

    -- The timer of the device has expired.
    unfoldable pub evt_wdf_timer :
        Machine ExtendedEvent → World → Outcome (Machine ExtendedEvent × World)
    unfolding current_time_miliseconds accept_time
    evt_wdf_timer m w = let (time, v) = current_time_miliseconds w in accept_time m v time

    -- The loop of KbFilter_ServiceCallback.
    unfoldable pub accept_all :
        Machine ExtendedEvent
        → World
        → List KeyboardInputData
        → Outcome (Machine ExtendedEvent × World)
    unfolding accept_event
    accept_all m w [] = done (m, w)
    accept_all m w (event ∷ events) = accept_event m w event >>= λ r. accept_all r.0 r.1 events

    -- The number is what is stored in InputDataConsumed.
    unfoldable pub service_callback :
        Machine ExtendedEvent
        → World
        → List KeyboardInputData
        → Outcome (ℕ × Machine ExtendedEvent × World)
    unfolding accept_all
    service_callback m w events = accept_all m w events >>= λ r. done (length events, r.0, r.1)

  -- `(USHORT) v`
  abbrev pub ushort : ℤ → ℕ
  ushort v = to_unsigned (2 ^ 16) v

  unfoldable pub machine_configure :
      Machine ExtendedEvent → (ℕ → ℤ) → Outcome (Machine ExtendedEvent)
  machine_configure m values =
      let type = values 0 in
      if subtype_n_args type == 0
      then (configure_global environment m (type_subtype type) (pos (ushort (values 1))) true
          >>= λ r. done r.1)
      else if subtype_n_args type == 1
      then (configure_key environment m (type_subtype type) (ushort (values 1))
            (pos (ushort (values 2))) true
          >>= λ r. done r.1)
      else if subtype_n_args type == 2
      then (configure_twins environment m (type_subtype type) (ushort (values 1))
            (ushort (values 2)) (pos (ushort (values 3))) true
          >>= λ r. done r.1)
      else done m

  -- The case IOCTL_KBFILTR_SET_FORK up to the call of machine_configure: the words of the request,
  -- five at most, over what the array held.
  unfoldable pub request_values : (ℕ → ℤ) → List ℤ → ℕ → ℤ
  request_values stack words i =
      if ltb i 5 && ltb i (length words) then get_or words i (stack i) else stack i

  unfoldable pub set_fork :
      Machine ExtendedEvent → (ℕ → ℤ) → List ℤ → Outcome (Machine ExtendedEvent)
  unfolding machine_configure request_values
  set_fork m stack words = machine_configure m (request_values stack words)
