-- ===== src/Examples/Libinputs.antt =====
-- The theorems on the plugin of libinput at concrete inputs.
use fork_plugin.Prelude.{ℕ, ◌≡◌, refl, List, [], ◌∷◌, ◌++◌, arith}
use fork_plugin.Machine.{Machine, done, ◌>>=◌, forking_machine, key_forked}
use fork_plugin.Machine.Moves.{Returns}
use fork_plugin.Machine.Arrive.{arriving}
use fork_plugin.Machine.Accept.{forking_machine-Inv}
use fork_plugin.Config.{fork_configuration}
use fork_plugin.Machine.Configure.{configure_key}
use fork_plugin.Prelude.Int.{to_unsigned}
use fork_plugin.Libinput.{
  Library, IsLibrary, KeyState, key_state_pressed, LibinputEvent, libinput_environment,
  accept_event, fork_init,
}
use fork_plugin.Libinput.Order.{Drained, accept_event-Drained}
use fork_plugin.Examples.{raw, config}

abbrev KeyEvent : Type 0
KeyEvent = record { code : ℕ; state : KeyState; at : ℕ }

-- The library's objects as records, and a world that keeps what has been posted.
abbrev lib : Library
lib = record {
  KeyboardEvent = KeyEvent;
  Device = ℕ;
  World = List KeyEvent;
  get_key = λ e. e.code;
  get_key_state = λ e. e.state;
  get_time = λ e. e.at;
  rewrite = λ e code. record e { code = code };
  post_event = λ device e w. w ++ (e ∷ []);
}

lib-IsLibrary : IsLibrary lib
lib-IsLibrary = record {
  get_key-rewrite = λ e code. refl;
  get_key_state-rewrite = λ e code. refl;
  get_time-rewrite = λ e code. refl;
  rewrite_twice = λ e code again. refl;
}

-- The key of the space bar forks to Control.
space_forks :
    (fork_init lib (fork_configuration raw) >>= λ m. done (m.config.fork_keycode 57)) ≡ done 29
unfolding fork_init configure_key to_unsigned
space_forks = refl

abbrev start : Machine (LibinputEvent lib)
start = forking_machine (LibinputEvent lib) config

abbrev press : KeyEvent
press = record { code = 38; state = key_state_pressed; at = 1000 }

accept_event-Drained_example :
    Returns
      (Drained lib lib-IsLibrary config start.fork_active []
        ([]
          ++ ([]
              ++ arriving (libinput_environment lib) start (record { event = press; device = 1 })))
        [])
      (accept_event lib 20000 start [] 1 press)
unfolding forking_machine key_forked
accept_event-Drained_example =
    accept_event-Drained lib lib-IsLibrary config 20000 (omega arith) start [] 1 press [] [] []
      (omega arith) (omega arith) ((λ h. tt), tt)
      (forking_machine-Inv (libinput_environment lib) config)
