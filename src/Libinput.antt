-- ===== src/Libinput.antt =====
-- libinput/libinput_environment.h and libinput/fork-plugin.cpp: the machine inside libinput. The
-- library is a parameter. An event is the object that the library's pointer refers to; each enters
-- the machine once, so no two queued events share one.
pub mod Order
use fork_plugin.Prelude.Int.{pos}
use fork_plugin.Prelude.{ℕ, ◌-◌, ◌^◌, ◌≡◌, refl, ap, Bool, true, false, List, [], ◌∷◌, arith}
use fork_plugin.Platform.{Platform, IsLawful}
use fork_plugin.Config.{ForkConfiguration, fork_configuration}
use fork_plugin.Machine.{Machine, Outcome, done, ◌>>=◌, forking_machine}
use fork_plugin.Machine.Run as Machine
use fork_plugin.Machine.Configure.{set_debug, configure_key, fork_configure_key_fork}

-- `libinput_key_state`
pub data KeyState : Type 0 where
  key_state_released key_state_pressed : KeyState

abbrev is_pressed : KeyState → Bool
is_pressed key_state_pressed = true
is_pressed key_state_released = false

abbrev is_released : KeyState → Bool
is_released key_state_released = true
is_released key_state_pressed = false

-- The calls libinput_event_keyboard_get_key, get_key_state and get_time, and the services `rewrite`
-- and `post_event`.
pub record Library : Type 1 where
  pub KeyboardEvent : Type 0
  pub Device : Type 0
  pub World : Type 0
  pub get_key : KeyboardEvent → ℕ
  pub get_key_state : KeyboardEvent → KeyState
  pub get_time : KeyboardEvent → ℕ
  pub rewrite : KeyboardEvent → ℕ → KeyboardEvent
  pub post_event : Device → KeyboardEvent → World → World

-- What the environment relies on: `rewrite` changes the key alone.
pub record IsLibrary (lib : Library) : Type 0 where
  pub get_key-rewrite : (e : lib.KeyboardEvent) (code : ℕ) → lib.get_key (lib.rewrite e code) ≡ code
  pub get_key_state-rewrite :
      (e : lib.KeyboardEvent) (code : ℕ)
      → lib.get_key_state (lib.rewrite e code) ≡ lib.get_key_state e
  pub get_time-rewrite :
      (e : lib.KeyboardEvent) (code : ℕ) → lib.get_time (lib.rewrite e code) ≡ lib.get_time e
  pub rewrite_twice :
      (e : lib.KeyboardEvent) (code again : ℕ)
      → lib.rewrite (lib.rewrite e code) again ≡ lib.rewrite e again

module _ (lib : Library) where
  open lib use {KeyboardEvent, Device, World, get_key, get_key_state, get_time, rewrite, post_event}

  pub record LibinputEvent : Type 0 where
    pub event : KeyboardEvent
    pub device : Device

  -- `libinputEnvironment`: the type Keycode is `int`, and Time `uint64_t`.
  abbrev pub libinput_environment : Platform
  libinput_environment = record {
    Event = LibinputEvent;
    World = World;
    press_p = λ pevent. is_pressed (get_key_state pevent.event);
    release_p = λ pevent. is_released (get_key_state pevent.event);
    time_of = λ pevent. get_time pevent.event;
    detail_of = λ pevent. get_key pevent.event;
    rewrite_event = λ pevent code. record pevent { event = rewrite pevent.event code };
    ignore_event = λ w pevent. false;
    output_frozen = λ w. false;
    relay_event = λ pevent w. post_event pevent.device pevent.event w;
    push_time = λ now w. w;
    keycode_mod = 2 ^ 32;
    time_mod = 2 ^ 64;
    max_keycode = 256;
    verification_matrix = false;
  }

  -- The environment of libinput keeps what the machine relies on.
  pub libinput_environment-IsLawful : IsLibrary lib → IsLawful libinput_environment
  libinput_environment-IsLawful law = record {
    press_not_release = λ e h. pressed_only (get_key_state e.event) h;
    detail_of-rewrite_event = λ e code. law.get_key-rewrite e.event code;
    time_of-rewrite_event = λ e code. law.get_time-rewrite e.event code;
    press_p-rewrite_event = λ e code. ap is_pressed (law.get_key_state-rewrite e.event code);
    release_p-rewrite_event = λ e code. ap is_released (law.get_key_state-rewrite e.event code);
    rewrite_event_twice =
        λ e code again. ap (λ x. record e { event = x }) (law.rewrite_twice e.event code again);
  }
    where
      pressed_only : (s : KeyState) → is_pressed s ≡ true → is_released s ≡ false
      pressed_only key_state_pressed h = refl
      pressed_only key_state_released h = absurd (cc)

  module _ (fuel : ℕ) where
    -- The time that the machine asks to be woken up at is not used.
    unfoldable pub accept_event :
        Machine LibinputEvent
        → World
        → Device
        → KeyboardEvent
        → Outcome (Machine LibinputEvent × World)
    accept_event m w device key_event =
        Machine.accept_event libinput_environment fuel m w
          (record { event = key_event; device = device })
        >>= λ r. done (r.1, r.2)

    unfoldable pub accept_time :
        Machine LibinputEvent → World → ℕ → Outcome (Machine LibinputEvent × World)
    accept_time m w time =
        Machine.accept_time libinput_environment fuel m w time >>= λ r. done (r.1, r.2)

  -- The pairs `from`, `to` that fork_init goes through.
  abbrev pub fork_pairs : List (ℕ × ℕ)
  fork_pairs =
      (41, 61)
      ∷ (46, 61)
      ∷ (38, 66)
      ∷ (45, 66)
      ∷ (58, 37)
      ∷ (40, 109)
      ∷ (44, 109)
      ∷ (39, 192)
      ∷ (65, 37)
      ∷ (55, 37)
      ∷ (47, 37)
      ∷ (54, 108)
      ∷ (64, 208)
      ∷ []

  unfoldable pub configure_pairs :
      List (ℕ × ℕ) → Machine LibinputEvent → Outcome (Machine LibinputEvent)
  configure_pairs [] m = done m
  configure_pairs (pair ∷ pairs) m =
      configure_key libinput_environment m (pos fork_configure_key_fork) (pair.0 - 8)
        (pos (pair.1 - 8)) true
      >>= λ r. configure_pairs pairs r.1

  -- The machine that fork_init hands to the library, over the memory of the configuration.
  unfoldable pub fork_init : ForkConfiguration → Outcome (Machine LibinputEvent)
  unfolding configure_pairs
  fork_init raw =
      let m =
        set_debug libinput_environment (forking_machine LibinputEvent (fork_configuration raw))
          (pos 1) in
      configure_key libinput_environment m (pos fork_configure_key_fork) (65 - 8) (pos 29) true
      >>= λ r. configure_pairs fork_pairs r.1
