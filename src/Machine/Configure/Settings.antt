-- ===== src/Machine/Configure/Settings.antt =====
-- src/machine.h: what configure_global sets is what it gets.
use native.Mathlib.Nat.{mod-eq_of_lt}
use fork_plugin.Prelude.Int.{ℤ, pos, to_unsigned, to_int, to_bool, of_bool}
use fork_plugin.Prelude.{ℕ, ◌<◌, ◌≡◌, inl, inr, refl, Bool-cases, true, false, arith}
use fork_plugin.Platform.{Platform}
use fork_plugin.Machine.{Machine, done, ◌>>=◌}
use fork_plugin.Machine.Configure.{
  configure_global, fork_configure_clear_interval, fork_configure_repeat_limit,
  fork_configure_repeat_consider_forks, fork_configure_debug,
}

module _ (p : Platform) where
  open p use {Event, keycode_mod, time_mod, verification_matrix}

  -- Each of four global settings is read back by configure_global as it was set: any clear
  -- interval, any debug level, a repeat limit that fits the types Time and int, and the flag for
  -- forks as 0 or 1.
  pub configure_global-settings :
      (m : Machine Event) (value : ℤ) (limit : ℕ)
      → limit < time_mod
      → limit < 2147483648
      → ((configure_global p m (pos fork_configure_clear_interval) value true >>= λ r.
            configure_global p r.1 (pos fork_configure_clear_interval) (pos 0) false >>= λ t.
            done t.0)
          ≡ done value)
        × ((configure_global p m (pos fork_configure_debug) value true >>= λ r.
              configure_global p r.1 (pos fork_configure_debug) (pos 0) false >>= λ t. done t.0)
            ≡ done value)
        × ((configure_global p m (pos fork_configure_repeat_limit) (pos limit) true >>= λ r.
              configure_global p r.1 (pos fork_configure_repeat_limit) (pos 0) false >>= λ t.
              done t.0)
            ≡ done (pos limit))
        × ((configure_global p m (pos fork_configure_repeat_consider_forks) value true >>= λ r.
              configure_global p r.1 (pos fork_configure_repeat_consider_forks) (pos 0) false
              >>= λ t. done t.0)
            ≡ done (of_bool (to_bool value)))
  unfolding configure_global to_unsigned to_int
  configure_global-settings m value limit fits int = elim (Bool-cases verification_matrix) [
    | inl e ↦ rw e (refl, refl, ground (arith, mod-eq_of_lt fits), refl)
    | inr e ↦ rw e (refl, refl, ground (arith, mod-eq_of_lt fits), refl)
  ]
