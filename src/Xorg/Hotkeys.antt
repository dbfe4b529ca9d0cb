-- ===== src/Xorg/Hotkeys.antt =====
-- xorg/fork-plugin.cpp: the configuration mode behind the Pause key.
pub mod Pairs
use fork_plugin.Prelude.Int.{pos}
use fork_plugin.Prelude.{
  ℕ, ◌+◌, ◌-◌, ◌%◌, ◌^◌, Bool, true, false, ◌&&◌, ltb, ◌==◌, if◌then◌else◌, update,
}
use fork_plugin.Machine.{Machine}
use fork_plugin.Xorg.{InternalEvent, press_p, release_p, time_of, detail_of}

-- The static variables of handle_config_key and filter_config_key_maybe.
pub record Hotkeys : Type 0 where
  pub key_to_fork : ℕ
  pub config_mode : Bool
  pub last_press_time : ℕ
  pub latch : Bool

abbrev pub no_hotkeys : Hotkeys
no_hotkeys = record { key_to_fork = 0; config_mode = false; last_press_time = 0; latch = false }

abbrev pub pause : ℕ
pause = 127

abbrev pub key_k : ℕ
key_k = 45

abbrev pub key_l : ℕ
key_l = 46

abbrev pub minimum_duration_msec : ℕ
minimum_duration_msec = 30

-- `machine->set_debug(level)`, and `machine->config->fork_keycode[from] = to`.
abbrev put_debug : Machine InternalEvent → ℕ → Machine InternalEvent
put_debug m level = record m { config = record (m.config) { debug = pos level } }

abbrev pub put_fork : Machine InternalEvent → ℕ → ℕ → Machine InternalEvent
put_fork m from to = record m {
  config = record (m.config) { fork_keycode = update (m.config.fork_keycode) from to };
}

-- The result is the new value of config_mode, which is always true; the dump only logs.
unfoldable pub handle_config_key :
    Hotkeys → Machine InternalEvent → InternalEvent → Hotkeys × Machine InternalEvent × Bool
handle_config_key h m event =
    let keycode = detail_of event in
    if press_p event
    then (if keycode == pause
        then (h, m, true)
        else if keycode == key_l
        then (h, put_debug m 1, true)
        else if keycode == key_k
        then (h, put_debug m 0, true)
        else if h.key_to_fork == 0
        then (record h { key_to_fork = keycode }, m, true)
        else (record h { key_to_fork = 0 }, put_fork m h.key_to_fork keycode, true))
    else (h, m, true)

-- The part of filter_config_key_maybe under `if (config_mode)`; the result says whether it returns
-- true there.
unfoldable pub in_config_mode :
    Hotkeys → Machine InternalEvent → InternalEvent → Hotkeys × Machine InternalEvent × Bool
unfolding handle_config_key
in_config_mode h m event =
    if detail_of event == pause && release_p event
    then (if ltb ((time_of event + 2 ^ 32 - h.last_press_time) % 2 ^ 32) minimum_duration_msec
        then (record h { latch = true }, m, true)
        else (record h { config_mode = false }, m, false))
    else (let (k, n, mode) = handle_config_key (record h { last_press_time = 0 }) m event in
        (
          (if k.latch
              then record k { config_mode = false; latch = false }
              else record k { config_mode = mode }),
          n,
          false,
        ))

-- The end of filter_config_key_maybe: the Pause key opens the configuration mode.
unfoldable pub open_config_mode :
    Hotkeys → Machine InternalEvent → InternalEvent → Hotkeys × Machine InternalEvent × Bool
open_config_mode h m event =
    if detail_of event == pause && press_p event
    then (record h { last_press_time = time_of event; config_mode = true }, m, true)
    else (record h { last_press_time = 0 }, m, false)

-- True: the event is handled and the machine does not see it.
unfoldable pub filter_config_key_maybe :
    Hotkeys → Machine InternalEvent → InternalEvent → Hotkeys × Machine InternalEvent × Bool
unfolding in_config_mode open_config_mode
filter_config_key_maybe h m event =
    if h.config_mode
    then (let (k, n, handled) = in_config_mode h m event in
        if handled then (k, n, true) else open_config_mode k n event)
    else open_config_mode h m event
