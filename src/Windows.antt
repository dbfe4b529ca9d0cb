-- ===== src/Windows.antt =====
-- windows/win-environment.h: the machine inside the keyboard filter driver of Windows. The masks of
-- the flags come from ntddkbd.h and are a parameter, as is what passes an event upwards.
pub mod Events
pub mod Driver
pub mod Registry
pub mod Packets
pub mod Device
pub mod Control
pub mod RawPdo
use fork_plugin.Prelude.{ℕ, ◌+◌, ◌/◌, ◌%◌, ◌^◌, Bool, false, not, ◌==◌, if◌then◌else◌}
use fork_plugin.Platform.{Platform}

-- `KEYBOARD_INPUT_DATA` of ntddkbd.h, with the fields that the driver reads and writes.
pub record KeyboardInputData : Type 0 where
  pub unit_id : ℕ
  pub make_code : ℕ
  pub flags : ℕ
  pub reserved : ℕ
  pub extra_information : ℕ

-- Whether `Flags & KEY_BREAK`, `Flags & KEY_E0` and `Flags & KEY_E1` are not zero.
pub record KeyFlags : Type 0 where
  pub key_break : ℕ → Bool
  pub key_e0 : ℕ → Bool
  pub key_e1 : ℕ → Bool

pub record ExtendedEvent : Type 0 where
  pub time : ℕ
  pub unit_id : ℕ
  pub key : ℕ
  pub flags : ℕ
  pub reserved : ℕ
  pub extra_information : ℕ
  pub forked : ℕ
  pub press : Bool

-- `n | (1 << k)`
abbrev pub or_bit : ℕ → ℕ → ℕ
or_bit n k = if n / 2 ^ k % 2 == 1 then n else n + 2 ^ k

module _ (mask : KeyFlags) where
  open mask use {key_break, key_e0, key_e1}

  abbrev pub win_event_to_extended : KeyboardInputData → ℕ → ExtendedEvent
  win_event_to_extended event time = record {
    time = time;
    key = event.make_code;
    forked = 0;
    flags = event.flags;
    press = not (key_break event.flags);
    unit_id = event.unit_id;
    reserved = event.reserved;
    extra_information = event.extra_information;
  }

  abbrev pub extended_event_to_win : ExtendedEvent → KeyboardInputData
  extended_event_to_win pevent = record {
    make_code = pevent.key;
    flags = pevent.flags;
    unit_id = pevent.unit_id;
    reserved = pevent.reserved;
    extra_information = pevent.extra_information;
  }

  abbrev pub detail_of : ExtendedEvent → ℕ
  detail_of event =
      let low = if key_e0 event.flags then or_bit event.key 8 else event.key in
      if key_e1 event.flags then or_bit low 9 else low

  abbrev pub rewrite_event : ExtendedEvent → ℕ → ExtendedEvent
  rewrite_event pevent code = record pevent { key = code }

  -- `winEnvironment`; `pass_event` is that of the driver. USHORT has 16 bits, and `time_type` 32, in
  -- which the times of the driver are not negative.
  abbrev pub win_environment : (World : Type 0) → (ExtendedEvent → World → World) → Platform
  win_environment World pass_event = record {
    Event = ExtendedEvent;
    World = World;
    press_p = λ event. event.press;
    release_p = λ event. not event.press;
    time_of = λ event. event.time;
    detail_of = detail_of;
    rewrite_event = rewrite_event;
    ignore_event = λ w event. false;
    output_frozen = λ w. false;
    relay_event = pass_event;
    push_time = λ now w. w;
    keycode_mod = 2 ^ 16;
    time_mod = 2 ^ 32;
    max_keycode = 512;
    verification_matrix = false;
  }
