-- ===== src/Xorg.antt =====
-- xorg/xorg.h and xorg/event_ops.cpp: the machine inside the X server. What
-- the server and the next plugin do is a parameter.
pub mod Hotkeys
pub mod Plugin
pub mod Order
use fork_plugin.Prelude.{ℕ, ◌^◌, ◌≡◌, refl, Bool, true, false, arith}
use fork_plugin.Platform.{Platform, IsLawful}

-- `any.type` of an event, for the types that the plugin tells apart.
pub data EventType : Type 0 where
  et_key_press et_key_release et_motion et_other : EventType

-- `InternalEvent`; `rest` is what the plugin does not read.
pub record InternalEvent : Type 0 where
  pub event_type : EventType
  pub time : ℕ
  pub key : ℕ
  pub rest : ℕ

-- `press_p`, `release_p`, `time_of` and `detail_of` of event_ops.cpp, and the methods of the same
-- names.
abbrev pub press_p : InternalEvent → Bool
press_p event = elim event.event_type [ et_key_press ↦ true | _ ↦ false ]

abbrev pub release_p : InternalEvent → Bool
release_p event = elim event.event_type [ et_key_release ↦ true | _ ↦ false ]

abbrev pub time_of : InternalEvent → ℕ
time_of event = event.time

abbrev pub detail_of : InternalEvent → ℕ
detail_of event = event.key

abbrev pub rewrite_event : InternalEvent → ℕ → InternalEvent
rewrite_event pevent code = record pevent { key = code }

-- The server and the plugins around this one.
pub record Server : Type 1 where
  pub World : Type 0
  -- `plugin_frozen(plugin->next)`, `plugin->next->wakeup_time`, ProcessEvent and ProcessTime of it
  pub next_frozen : World → Bool
  pub next_wakeup_time : World → ℕ
  pub process_event : InternalEvent → World → World
  pub process_time : ℕ → World → World
  -- `keybd && keybd->key`, and whether XkbMouseKeysMask is enabled there
  pub has_keyboard : World → Bool
  pub mouse_keys : World → Bool
  -- whether the previous plugin has NotifyThaw, and that call
  pub previous_has_thaw : World → Bool
  pub notify_thaw : ℕ → World → World

-- `XOrgEnvironment`: KeyCode has 8 bits, and Time 32.
abbrev pub xorg_environment : Bool → Server → Platform
xorg_environment matrices server = record {
  Event = InternalEvent;
  World = server.World;
  press_p = press_p;
  release_p = release_p;
  time_of = time_of;
  detail_of = detail_of;
  rewrite_event = rewrite_event;
  ignore_event = λ w e. ignored (server.has_keyboard w) (server.mouse_keys w);
  output_frozen = server.next_frozen;
  relay_event = server.process_event;
  push_time = server.process_time;
  keycode_mod = 2 ^ 8;
  time_mod = 2 ^ 32;
  max_keycode = 256;
  verification_matrix = matrices;
}
  where
    ignored : Bool → Bool → Bool
    ignored true mouse = mouse
    ignored false mouse = false

-- The environment of the X server keeps what the machine relies on.
pub xorg_environment-IsLawful :
    (matrices : Bool) (server : Server) → IsLawful (xorg_environment matrices server)
xorg_environment-IsLawful matrices server = record {
  press_not_release = λ e h. press_excludes e.event_type h;
  detail_of-rewrite_event = λ e code. refl;
  time_of-rewrite_event = λ e code. refl;
  press_p-rewrite_event = λ e code. refl;
  release_p-rewrite_event = λ e code. refl;
  rewrite_event_twice = λ e code again. refl;
}
  where
    press_excludes :
        (t : EventType)
        → elim t as (λ u. Bool) [ et_key_press ↦ true | _ ↦ false ] ≡ true
        → elim t as (λ u. Bool) [ et_key_release ↦ true | _ ↦ false ] ≡ false
    press_excludes t h = ground arith
