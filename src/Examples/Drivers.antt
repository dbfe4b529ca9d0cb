-- ===== src/Examples/Drivers.antt =====
-- The theorems on the driver of Windows at concrete inputs.
use fork_plugin.Prelude.Int.{pos}
use fork_plugin.Prelude.{
  true, ◌↔◌, ◌^◌, ◌%◌, ◌/◌, ℕ, ◌-◌, ◌*◌, ◌≡◌, ◌≢◌, refl, sym, ap, ◌∙◌, false, Option, none, some,
  List, [], ◌∷◌, ◌&&◌, ◌==◌, ◌!=◌, ltb, leb, arith, length, if◌then◌else◌, update,
}
use fork_plugin.Config.{fork_configuration}
use fork_plugin.Machine.{Machine, done, ◌>>=◌, forking_machine}
use fork_plugin.Windows.{
  KeyFlags, KeyboardInputData, ExtendedEvent, win_event_to_extended, detail_of, rewrite_event,
}
use fork_plugin.Windows.Driver.{Framework, due_time, minus}
use fork_plugin.Windows.Events.{detail_of-rewrite_event, due_time-eq}
use fork_plugin.Windows.Registry.{
  RegistryCalls, ValueName, reg_binary, clear_interval, repeat_limit, repeat_consider_forks, debug,
  binary_forks, success, save_configuration_to_registry, configure_from_registry_key,
}
use fork_plugin.Windows.Registry.Calls.{IsRegistry}
use fork_plugin.Windows.Registry.Forks.{forks_from}
use fork_plugin.Windows.Registry.Saved.{IsStorable, restore-save}
use fork_plugin.Examples.{raw, config}

abbrev pub mask : KeyFlags
mask = record {
  key_break = λ flags. flags % 2 == 1;
  key_e0 = λ flags. flags / 2 % 2 == 1;
  key_e1 = λ flags. flags / 4 % 2 == 1;
}

-- A clock that stands still, and what the class driver has received, last first.
abbrev pub wdf : Framework
wdf = record {
  World = List KeyboardInputData;
  class_service = λ packet w. packet ∷ w;
  query_system_time = λ w. (10000000, w);
  timer_start = λ due w. w;
  timer_stop = λ w. w;
}

abbrev index : ValueName → ℕ
index clear_interval = 0
index repeat_limit = 1
index repeat_consider_forks = 2
index debug = 3
index binary_forks = 4

abbrev name_at : ℕ → ValueName
name_at i =
    if i == 0
    then clear_interval
    else if i == 1
    then repeat_limit
    else if i == 2
    then repeat_consider_forks
    else if i == 3
    then debug
    else binary_forks

name_at-index : (name : ValueName) → name_at (index name) ≡ name
name_at-index clear_interval = refl
name_at-index repeat_limit = refl
name_at-index repeat_consider_forks = refl
name_at-index debug = refl
name_at-index binary_forks = refl

index-apart : (name other : ValueName) → name ≢ other → (index name == index other) ≡ false
index-apart name other ne =
    let differ : index name ≢ index other =
      λ e. ne (sym (name_at-index name) ∙ ap name_at e ∙ name_at-index other) in
    ground arith

-- A value is one number, or a list of them.
abbrev pub Entry : Type 0
Entry = record { number : Option ℕ; binary : List ℕ }

abbrev pub calls : RegistryCalls
calls = record {
  WdfKey = ℕ → Entry;
  assign_ulong = λ name value key.
      (true, update key (index name) (record { number = some value; binary = [] }));
  query_ulong = λ name key. (key (index name)).number;
  assign_value = λ name values key.
      (true, update key (index name) (record { number = none; binary = values }));
  query_value = λ name room key.
      if leb (length (key (index name)).binary) room
      then some (reg_binary (key (index name)).binary)
      else none;
}

calls-IsRegistry : IsRegistry calls
calls-IsRegistry = record {
  query_ulong-assign_ulong = λ name value key small. ground arith;
  query_ulong-other = λ name other value key ne. rw (index-apart name other ne) refl;
  query_ulong-assign_value = λ name other values key ne. rw (index-apart name other ne) refl;
  query_value-assign_value = λ name values room key fits. ground arith;
}

abbrev pub machine : Machine ExtendedEvent
machine = forking_machine ExtendedEvent config

abbrev plain : Machine ExtendedEvent
plain = forking_machine ExtendedEvent (fork_configuration raw)

machine-IsStorable : IsStorable calls calls-IsRegistry mask wdf machine
unfolding config forking_machine forks_from fork_configuration
machine-IsStorable = record {
  clear_interval = omega arith;
  debug = omega arith;
  repeat_max = omega arith;
  forks = λ key. ground arith;
  few = omega arith;
}

due_time-eq_example :
    (due_time (pos 200) ≡ minus (200 * 10000))
    × (due_time (pos 300000) ≡ pos (4294967296 - 300000 * 10000))
due_time-eq_example = due_time-eq 200 300000 (omega arith) (omega arith) (omega arith)

-- A key without values, read into a machine without forks.
restore-save_example :
    (save_configuration_to_registry mask wdf calls
        (λ i. record { number = none; binary = [] })
        machine
      >>= λ r. configure_from_registry_key mask wdf calls r.1 plain)
    ≡ done (
      success,
      record plain {
        config = record (plain.config) {
          clear_interval = config.clear_interval;
          repeat_max = config.repeat_max;
          consider_forks_for_repeat = config.consider_forks_for_repeat;
          debug = config.debug;
          fork_keycode = λ key.
              if ltb key 512 && config.fork_keycode key != 0
              then config.fork_keycode key
              else plain.config.fork_keycode key;
        };
      },
    )
unfolding forking_machine config
restore-save_example =
    restore-save calls calls-IsRegistry mask wdf machine plain
      (λ i. record { number = none; binary = [] }) machine-IsStorable

abbrev extended : ExtendedEvent
extended =
    win_event_to_extended mask
      (record { unit_id = 0; make_code = 29; flags = 2; reserved = 0; extra_information = 0 }) 1000

-- The press of an extended key, with the flag E0.
detail_of-rewrite_event_example : (detail_of mask (rewrite_event mask extended 50) ≡ 50) ↔ (
    ((mask.key_e0 2 && 50 / 2 ^ 8 % 2 == 0) ≡ false)
    × ((mask.key_e1 2 && 50 / 2 ^ 9 % 2 == 0) ≡ false))
detail_of-rewrite_event_example = detail_of-rewrite_event mask extended 50
