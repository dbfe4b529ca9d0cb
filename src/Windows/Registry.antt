-- ===== src/Windows/Registry.antt =====
-- windows/sys/kbfiltr.cpp: the configuration in the registry.
pub mod Calls
pub mod Forks
pub mod Saved
use fork_plugin.Prelude.Int.{ℤ, pos, to_unsigned, to_int}
use fork_plugin.Prelude.{
  ℕ, zero, suc, ◌+◌, ◌*◌, ◌/◌, ◌%◌, ◌^◌, Bool, true, false, Option, none, some, List, [], ◌∷◌, ◌==◌,
  ◌!=◌, ltb, if◌then◌else◌,
}
use fork_plugin.Machine.{Machine, Outcome, done, fault, ◌>>=◌}
use fork_plugin.Machine.Configure.{
  configure_global, configure_key, fork_configure_clear_interval, fork_configure_repeat_limit,
  fork_configure_repeat_consider_forks, fork_configure_debug, fork_configure_key_fork,
}
use fork_plugin.Windows.{KeyFlags, ExtendedEvent}
use fork_plugin.Windows.Driver.{Framework, environment, set_fork}

pub data ValueName : Type 0 where
  clear_interval repeat_limit repeat_consider_forks debug binary_forks : ValueName

-- What WdfRegistryQueryValue gives: a REG_BINARY value of ULONGs, or one of another type.
pub data ValueData : Type 0 where
  reg_binary : List ℕ → ValueData
  reg_other : ValueData

-- An open registry key, and the framework's calls on it. An assignment says whether it succeeded, as
-- NT_SUCCESS of its status does. A query that fails gives nothing; query_value fails if the value has
-- more ULONGs than the number.
pub record RegistryCalls : Type 1 where
  pub WdfKey : Type 0
  pub assign_ulong : ValueName → ℕ → WdfKey → Bool × WdfKey
  pub query_ulong : ValueName → WdfKey → Option ℕ
  pub assign_value : ValueName → List ℕ → WdfKey → Bool × WdfKey
  pub query_value : ValueName → ℕ → WdfKey → Option ValueData

abbrev pub max_forks : ℕ
max_forks = 16

-- The loop over the keys, from `key` and for the given number of them; `top` entries are stored.
unfoldable pub binary_values : (ℕ → Outcome ℕ) → ℕ → ℕ → ℕ → Outcome (List ℕ)
binary_values fork key zero top = done []
binary_values fork key (suc left) top =
    let stored = binary_values fork (suc key) left (suc top) in
    let skipped = binary_values fork (suc key) left top in
    fork key >>= λ value.
    if value != 0
    then ((if suc top == max_forks then done [] else stored) >>= λ values.
        done ((key * 2 ^ 16 + value) ∷ values))
    else skipped

-- `status` of the last call.
pub data Status : Type 0 where
  success failure not_implemented : Status

module _ (mask : KeyFlags) (wdf : Framework) (calls : RegistryCalls) where
  open calls use {WdfKey, assign_ulong, query_ulong, assign_value, query_value}

  unfoldable pub save_global_value :
      WdfKey → ValueName → Machine ExtendedEvent → ℕ → Outcome (Bool × WdfKey)
  save_global_value hkey name m attribute =
      configure_global (environment mask wdf) m (pos attribute) (pos 0) false >>= λ r.
      done (assign_ulong name (to_unsigned (2 ^ 32) r.0) hkey)

  -- What WdfRegistryQueryULong has given is set, if there is a value.
  unfoldable pub set_queried :
      Option ℕ → Machine ExtendedEvent → ℕ → Outcome (Machine ExtendedEvent)
  set_queried (some value) m attribute =
      configure_global (environment mask wdf) m (pos attribute) (to_int value) true >>= λ r.
      done r.1
  set_queried none m attribute = done m

  unfoldable pub restore_global_value :
      WdfKey → ValueName → Machine ExtendedEvent → ℕ → Outcome (Machine ExtendedEvent)
  unfolding set_queried
  restore_global_value hkey name m attribute = set_queried (query_ulong name hkey) m attribute

  unfoldable pub restore_forks : List ℕ → Machine ExtendedEvent → Outcome (Machine ExtendedEvent)
  restore_forks [] m = done m
  restore_forks (val ∷ vals) m =
      let key = val / 2 ^ 16 % 2 ^ 16 in
      let fork = val % 2 ^ 16 in
      if ltb 512 key
      then restore_forks vals m
      else (configure_key (environment mask wdf) m (pos fork_configure_key_fork) key (pos fork) true
          >>= λ r. restore_forks vals r.1)

  -- The forks are set if the value is there and of the right type.
  unfoldable pub set_forks :
      Option ValueData → Machine ExtendedEvent → Outcome (Status × Machine ExtendedEvent)
  set_forks none m = done (failure, m)
  set_forks (some reg_other) m = done (not_implemented, m)
  set_forks (some (reg_binary vals)) m = restore_forks vals m >>= λ n. done (success, n)

  unfoldable pub configure_from_registry_key :
      WdfKey → Machine ExtendedEvent → Outcome (Status × Machine ExtendedEvent)
  unfolding restore_global_value set_forks
  configure_from_registry_key hkey m =
      restore_global_value hkey clear_interval m fork_configure_clear_interval >>= λ m.
      restore_global_value hkey repeat_limit m fork_configure_repeat_limit >>= λ m.
      restore_global_value hkey repeat_consider_forks m fork_configure_repeat_consider_forks
      >>= λ m. restore_global_value hkey debug m fork_configure_debug >>= λ m.
          set_forks (query_value binary_forks max_forks hkey) m

  -- `(USHORT) configure_key(fork_configure_key_fork, key, 0, GET)`
  unfoldable pub fork_of : Machine ExtendedEvent → ℕ → Outcome ℕ
  fork_of m key =
      configure_key (environment mask wdf) m (pos fork_configure_key_fork) key (pos 0) false
      >>= λ r. done (to_unsigned (2 ^ 16) r.0)

  -- The statuses of the first four assignments are dropped, and that of the last is returned.
  unfoldable pub save_configuration_to_registry :
      WdfKey → Machine ExtendedEvent → Outcome (Status × WdfKey)
  unfolding fork_of
  save_configuration_to_registry hkey m =
      save_global_value hkey clear_interval m fork_configure_clear_interval >>= λ k.
      save_global_value k.1 repeat_limit m fork_configure_repeat_limit >>= λ k.
      save_global_value k.1 repeat_consider_forks m fork_configure_repeat_consider_forks >>= λ k.
      save_global_value k.1 debug m fork_configure_debug >>= λ k.
      binary_values (fork_of m) 0 512 0 >>= λ values.
      let (assigned, hkey) = assign_value binary_forks values k.1 in
      done (if assigned then success else failure, hkey)

  -- `hkey` is what WdfDriverOpenPersistentStateRegistryKey gives, if it succeeds.
  unfoldable pub configure_from_registry :
      Option WdfKey → Machine ExtendedEvent → Outcome (Status × Machine ExtendedEvent)
  unfolding configure_from_registry_key
  configure_from_registry none m = done (failure, m)
  configure_from_registry (some hkey) m = configure_from_registry_key hkey m
