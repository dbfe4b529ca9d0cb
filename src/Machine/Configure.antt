-- ===== src/Machine/Configure.antt =====
-- src/machine.h: configure_global, configure_twins and configure_key, over include/fork_enums.h. The
-- code of an option is an `int`; a value that is stored in a narrower type is converted.
pub mod Settings
use fork_plugin.Prelude.Int.{ℤ, pos, negsuc, to_unsigned, to_int, to_bool, of_bool}
use fork_plugin.Prelude.{ℕ, Bool, true, false, not, ◌&&◌, ◌||◌, ltb, ◌==◌, if◌then◌else◌, update}
use fork_plugin.Platform.{Platform}
use fork_plugin.Config.{ForkConfiguration}
use fork_plugin.Machine.{Machine, Outcome, done, fault}

-- `fork_configuration_t`
abbrev pub fork_configure_last_events : ℕ
fork_configure_last_events = 0

abbrev pub fork_configure_overlap_limit : ℕ
fork_configure_overlap_limit = 1

abbrev pub fork_configure_total_limit : ℕ
fork_configure_total_limit = 2

abbrev pub fork_configure_repeat_limit : ℕ
fork_configure_repeat_limit = 3

abbrev pub fork_configure_repeat_consider_forks : ℕ
fork_configure_repeat_consider_forks = 4

abbrev pub fork_configure_key_fork : ℕ
fork_configure_key_fork = 5

abbrev pub fork_configure_key_fork_repeat : ℕ
fork_configure_key_fork_repeat = 6

abbrev pub fork_configure_debug : ℕ
fork_configure_debug = 7

abbrev pub fork_configure_switch : ℕ
fork_configure_switch = 8

abbrev pub fork_configure_clear_interval : ℕ
fork_configure_clear_interval = 10

abbrev pub fork_server_dump_keys : ℕ
fork_server_dump_keys = 11

-- Equality of an `int` with a constant of the enumeration.
abbrev pub is_code : ℤ → ℕ → Bool
is_code (pos n) k = n == k
is_code (negsuc n) k = false

-- `m[i][j] = v`
abbrev pub update_matrix : (ℕ → ℕ → ℕ) → ℕ → ℕ → ℕ → ℕ → ℕ → ℕ
update_matrix f i j v = update f i (update (f i) j v)

-- `new_max < max_last` on `int`
abbrev pub int_lt : ℤ → ℤ → Bool
int_lt (pos a) (pos b) = ltb a b
int_lt (pos a) (negsuc b) = false
int_lt (negsuc a) (pos b) = true
int_lt (negsuc a) (negsuc b) = ltb b a

module _ (p : Platform) where
  open p use {Event, keycode_mod, time_mod, max_keycode, verification_matrix}

  abbrev with_config : Machine Event → ForkConfiguration → Machine Event
  with_config m c = record m { config = c }

  -- The log of last events has no storage (empty_last_events_t), so only the bound changes.
  unfoldable pub set_last_events_count : Machine Event → ℤ → Machine Event
  set_last_events_count m new_max =
      if int_lt new_max m.max_last then m else record m { max_last = new_max }

  unfoldable pub set_debug : Machine Event → ℤ → Machine Event
  set_debug m level = with_config m (record (m.config) { debug = level })

  -- The cases under `#if VERIFICATION_MATRIX`, for the global place of the two matrices.
  unfoldable pub configure_global_limits : Machine Event → ℤ → ℤ → Bool → ℤ × Machine Event
  configure_global_limits m type value is_set =
      let c = m.config in
      if is_code type fork_configure_overlap_limit
      then (if is_set
          then (
            pos 0,
            with_config m (record c {
              overlap_tolerance =
                  update_matrix c.overlap_tolerance 0 0 (to_unsigned time_mod value);
            }),
          )
          else (to_int (c.overlap_tolerance 0 0), m))
      else if is_set
      then (
        pos 0,
        with_config m (record c {
          verification_interval =
              update_matrix c.verification_interval 0 0 (to_unsigned time_mod value);
        }),
      )
      else (to_int (c.verification_interval 0 0), m)

  -- The case of fork_configure_switch asserts that the call sets.
  unfoldable pub configure_global : Machine Event → ℤ → ℤ → Bool → Outcome (ℤ × Machine Event)
  unfolding configure_global_limits set_last_events_count
  configure_global m type value is_set =
      let c = m.config in
      if verification_matrix && is_code type fork_configure_overlap_limit
      then done (configure_global_limits m type value is_set)
      else if verification_matrix && is_code type fork_configure_total_limit
      then done (configure_global_limits m type value is_set)
      else if is_code type fork_configure_clear_interval
      then done (
          if is_set
          then (pos 0, with_config m (record c { clear_interval = value }))
          else (c.clear_interval, m))
      else if is_code type fork_configure_repeat_limit
      then done (
          if is_set
          then (pos 0, with_config m (record c { repeat_max = to_unsigned time_mod value }))
          else (to_int c.repeat_max, m))
      else if is_code type fork_configure_repeat_consider_forks
      then done (
          if is_set
          then (
            of_bool (to_bool value),
            with_config m (record c { consider_forks_for_repeat = to_bool value }),
          )
          else (of_bool c.consider_forks_for_repeat, m))
      else if is_code type fork_configure_last_events
      then done (if is_set then (pos 0, set_last_events_count m value) else (m.max_last, m))
      else if is_code type fork_configure_debug
      then done
          (if is_set then (pos 0, with_config m (record c { debug = value })) else (c.debug, m))
      else if is_code type fork_server_dump_keys
      then done (pos 0, m)
      else if is_code type fork_configure_switch
      then (if is_set then done (pos 0, m) else fault)
      else done (pos 0, m)

  -- The matrices have MAX_KEYCODE rows and columns, and nothing checks the two key codes.
  unfoldable pub configure_twins :
      Machine Event → ℤ → ℕ → ℕ → ℤ → Bool → Outcome (ℤ × Machine Event)
  configure_twins m type key twin value is_set =
      let c = m.config in
      if verification_matrix && is_code type fork_configure_total_limit
      then (if not (ltb key max_keycode && ltb twin max_keycode)
          then fault
          else if is_set
          then done (
            pos 0,
            with_config m (record c {
              verification_interval =
                  update_matrix c.verification_interval key twin (to_unsigned time_mod value);
            }),
          )
          else done (to_int (c.verification_interval key twin), m))
      else if verification_matrix && is_code type fork_configure_overlap_limit
      then (if not (ltb key max_keycode && ltb twin max_keycode)
          then fault
          else if is_set
          then done (
            pos 0,
            with_config m (record c {
              overlap_tolerance =
                  update_matrix c.overlap_tolerance key twin (to_unsigned time_mod value);
            }),
          )
          else done (to_int (c.overlap_tolerance key twin), m))
      else done (pos 0, m)

  -- The tables have MAX_KEYCODE entries, and nothing checks the key code.
  unfoldable pub configure_key : Machine Event → ℤ → ℕ → ℤ → Bool → Outcome (ℤ × Machine Event)
  configure_key m type key value is_set =
      let c = m.config in
      if is_code type fork_configure_key_fork
      then (if not (ltb key max_keycode)
          then fault
          else if is_set
          then done (
            pos 0,
            with_config m (record c {
              fork_keycode = update c.fork_keycode key (to_unsigned keycode_mod value);
            }),
          )
          else done (to_int (c.fork_keycode key), m))
      else if is_code type fork_configure_key_fork_repeat
      then (if not (ltb key max_keycode)
          then fault
          else if is_set
          then done (
            pos 0,
            with_config m
                (record c { fork_repeatable = update c.fork_repeatable key (to_bool value) }),
          )
          else done (of_bool (c.fork_repeatable key), m))
      else done (pos 0, m)
