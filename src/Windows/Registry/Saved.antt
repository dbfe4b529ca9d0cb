-- ===== src/Windows/Registry/Saved.antt =====
-- windows/sys/kbfiltr.cpp: what configure_from_registry_key restores of what
-- save_configuration_to_registry has saved.
use mathlib.Core.Path.{fun_ext}
use fork_plugin.Prelude.Int.{ℤ, pos, negsuc, to_unsigned, to_int, to_bool, of_bool}
use fork_plugin.Prelude.{
  All, ℕ, ◌/◌, ◌%◌, ◌^◌, ◌≤◌, ◌<◌, ◌≡◌, refl, ap, ◌∙◌, Bool, true, false, ◌&&◌, Option, some, List,
  [], ◌∷◌, arith, ◌!=◌, ltb, if◌then◌else◌, update,
}
use fork_plugin.Machine.{Machine, done, ◌>>=◌}
use fork_plugin.Machine.Configure.{
  configure_global, configure_key, fork_configure_clear_interval, fork_configure_repeat_limit,
  fork_configure_repeat_consider_forks, fork_configure_debug,
}
use fork_plugin.Windows.{KeyFlags, ExtendedEvent}
use fork_plugin.Windows.Driver.{Framework}
use fork_plugin.Windows.Registry.{
  RegistryCalls, clear_interval, repeat_limit, repeat_consider_forks, debug, binary_forks,
  ValueData, set_queried, set_forks, reg_binary, max_forks, success, failure, save_global_value,
  restore_global_value, restore_forks, fork_of, configure_from_registry_key,
  save_configuration_to_registry,
}
use fork_plugin.Windows.Registry.Calls.{IsRegistry, assigned, saved, query-saved}
use fork_plugin.Windows.Registry.Forks.{
  forks_from, table, IsKeyed, entries, binary_values-entries, entries-IsKeyed, length-entries,
  table-entries,
}

-- A value of the type `int`.
abbrev pub IsInt : ℤ → Type 0
IsInt (pos n) = n < 2 ^ 31
IsInt (negsuc n) = n < 2 ^ 31

to_int-ulong : (v : ℤ) → IsInt v → to_int (to_unsigned (2 ^ 32) v) ≡ v
unfolding to_int to_unsigned
to_int-ulong (pos n) h = ground arith
to_int-ulong (negsuc n) h = ground arith

to_unsigned-to_int :
    (n : ℕ) → n < 2 ^ 32 → to_unsigned (2 ^ 32) (to_int (to_unsigned (2 ^ 32) (to_int n))) ≡ n
unfolding to_int to_unsigned
to_unsigned-to_int n h = ground arith

to_bool-of_bool : (b : Bool) → to_bool (to_int (to_unsigned (2 ^ 32) (of_bool b))) ≡ b
unfolding to_bool to_int to_unsigned of_bool
to_bool-of_bool true = refl
to_bool-of_bool false = refl

to_unsigned-lt : (v : ℤ) → to_unsigned (2 ^ 32) v < 2 ^ 32
unfolding to_unsigned
to_unsigned-lt (pos n) = omega arith
to_unsigned-lt (negsuc n) = omega arith

module _ (calls : RegistryCalls) (law : IsRegistry calls) where
  open calls use {WdfKey, query_ulong, query_value}

  module _ (mask : KeyFlags) (wdf : Framework) where
    abbrev with_forks : Machine ExtendedEvent → (ℕ → ℕ) → Machine ExtendedEvent
    with_forks n f = record n { config = record (n.config) { fork_keycode = f } }

    restore_forks-eq :
        (vals : List ℕ) (n : Machine ExtendedEvent)
        → All IsKeyed vals
        → restore_forks mask wdf calls vals n
          ≡ done (with_forks n (table vals n.config.fork_keycode))
    unfolding restore_forks configure_key to_unsigned
    restore_forks-eq [] n keyed = refl
    restore_forks-eq (val ∷ vals) n keyed =
        let key = val / 2 ^ 16 % 2 ^ 16 in
        let within : ltb 512 key ≡ false = ground (arith, keyed.0) in
        let readable : ltb key 512 ≡ true = ground (arith, keyed.0) in
        let at = λ (fork : ℕ). update n.config.fork_keycode key fork in
        rw (within, readable)
          (restore_forks-eq vals (with_forks n (at (val % 2 ^ 16 % 2 ^ 16))) keyed.1
            ∙ ap (λ fork. done (with_forks n (table vals (at fork)))) (omega arith))

    fork_of-eq :
        (m : Machine ExtendedEvent)
        → ((key : ℕ) → m.config.fork_keycode key < 2 ^ 16)
        → (key : ℕ) → key < 512
        → fork_of mask wdf calls m key ≡ done (m.config.fork_keycode key)
    unfolding fork_of configure_key to_int to_unsigned
    fork_of-eq m small key within =
        let readable : ltb key 512 ≡ true = ground arith in
        rw readable (ap (λ v. done v) (ground (arith, small key)))

    -- Saving returns, and reports a failure of its last assignment.
    save-eq :
        (m : Machine ExtendedEvent) (k : WdfKey)
        → ((key : ℕ) → m.config.fork_keycode key < 2 ^ 16)
        → let vals = entries m.config.fork_keycode 0 512 0 in
          let key =
            assigned calls k
              (to_unsigned (2 ^ 32) m.config.clear_interval)
              (to_unsigned (2 ^ 32) (to_int m.config.repeat_max))
              (to_unsigned (2 ^ 32) (of_bool m.config.consider_forks_for_repeat))
              (to_unsigned (2 ^ 32) m.config.debug) in
          let r = calls.assign_value binary_forks vals key in
          save_configuration_to_registry mask wdf calls k m
          ≡ done (if r.0 then success else failure, r.1)
    unfolding save_configuration_to_registry save_global_value configure_global
    save-eq m k small =
        rw
          (binary_values-entries (fork_of mask wdf calls m) m.config.fork_keycode 0 512 0
            (fork_of-eq m small) (omega arith))
          refl

    -- The settings are converted to the types of the configuration.
    abbrev with_settings : Machine ExtendedEvent → ℕ → ℕ → ℕ → ℕ → Machine ExtendedEvent
    with_settings n a b c d = record n {
      config = record (n.config) {
        clear_interval = to_int a;
        repeat_max = to_unsigned (2 ^ 32) (to_int b);
        consider_forks_for_repeat = to_bool (to_int c);
        debug = to_int d;
      };
    }

    configure-eq :
        (hkey : WdfKey) (n : Machine ExtendedEvent) (a b c d : ℕ) (vals : List ℕ)
        → query_ulong clear_interval hkey ≡ some a
        → query_ulong repeat_limit hkey ≡ some b
        → query_ulong repeat_consider_forks hkey ≡ some c
        → query_ulong debug hkey ≡ some d
        → query_value binary_forks max_forks hkey ≡ some (reg_binary vals)
        → configure_from_registry_key mask wdf calls hkey n
          ≡ (restore_forks mask wdf calls vals (with_settings n a b c d) >>= λ r. done (success, r))
    unfolding configure_from_registry_key restore_global_value set_queried set_forks
        configure_global
    configure-eq hkey n a b c d vals qa qb qc qd qv =
        let run = λ (x y z u : Option ℕ) (v : Option ValueData).
          set_queried mask wdf calls x n fork_configure_clear_interval >>= λ n1.
          set_queried mask wdf calls y n1 fork_configure_repeat_limit >>= λ n2.
          set_queried mask wdf calls z n2 fork_configure_repeat_consider_forks >>= λ n3.
          set_queried mask wdf calls u n3 fork_configure_debug >>= λ n4.
          set_forks mask wdf calls v n4 in
        let rest = query_ulong in
        ap
          (λ x.
            run x (rest repeat_limit hkey) (rest repeat_consider_forks hkey) (rest debug hkey)
              (query_value binary_forks max_forks hkey))
          qa
        ∙ ap
            (λ x.
              run (some a) x (rest repeat_consider_forks hkey) (rest debug hkey)
                (query_value binary_forks max_forks hkey))
            qb
        ∙ ap
            (λ x.
              run (some a) (some b) x (rest debug hkey) (query_value binary_forks max_forks hkey))
            qc
        ∙ ap (λ x. run (some a) (some b) (some c) x (query_value binary_forks max_forks hkey)) qd
        ∙ ap (λ x. run (some a) (some b) (some c) (some d) x) qv

    -- What fits the types of the values in the registry: C's `int`, and forks of at most sixteen keys.
    pub record IsStorable (m : Machine ExtendedEvent) : Type 0 where
      pub clear_interval : IsInt m.config.clear_interval
      pub debug : IsInt m.config.debug
      pub repeat_max : m.config.repeat_max < 2 ^ 32
      pub forks : (key : ℕ) → m.config.fork_keycode key < 2 ^ 16
      pub few : forks_from m.config.fork_keycode 0 512 ≤ max_forks

    -- In a registry in which every assignment takes effect (IsRegistry), a configuration that is
    -- storable is restored as it was saved, into any machine: the interval, the limit for repeats, the two other settings and all the forks of keys
    -- below 512, while the machine keeps its forks of the other keys, and all the rest of its state.
    pub restore-save :
        (m n : Machine ExtendedEvent) (k : WdfKey)
        → IsStorable m
        → (save_configuration_to_registry mask wdf calls k m >>= λ r.
            configure_from_registry_key mask wdf calls r.1 n)
          ≡ done (
            success,
            record n {
              config = record (n.config) {
                clear_interval = m.config.clear_interval;
                repeat_max = m.config.repeat_max;
                consider_forks_for_repeat = m.config.consider_forks_for_repeat;
                debug = m.config.debug;
                fork_keycode = λ key.
                    if ltb key 512 && m.config.fork_keycode key != 0
                    then m.config.fork_keycode key
                    else n.config.fork_keycode key;
              };
            },
          )
    restore-save m n k s =
        let c = m.config in
        let a0 = to_unsigned (2 ^ 32) c.clear_interval in
        let a1 = to_unsigned (2 ^ 32) (to_int c.repeat_max) in
        let a2 = to_unsigned (2 ^ 32) (of_bool c.consider_forks_for_repeat) in
        let a3 = to_unsigned (2 ^ 32) c.debug in
        let vals = entries c.fork_keycode 0 512 0 in
        let q =
          query-saved calls law k a0 a1 a2 a3 vals (to_unsigned-lt c.clear_interval)
            (to_unsigned-lt (to_int c.repeat_max))
            (to_unsigned-lt (of_bool c.consider_forks_for_repeat)) (to_unsigned-lt c.debug)
            (omega (arith, length-entries c.fork_keycode 0 512 0 (omega arith))) in
        let forks : table vals n.config.fork_keycode ≡ (λ key.
          if ltb key 512 && c.fork_keycode key != 0
          then c.fork_keycode key
          else n.config.fork_keycode key) =
          fun_ext (λ key.
            table-entries c.fork_keycode n.config.fork_keycode 0 512 0 key s.forks (omega arith)
              (omega (arith, s.few))
            ∙ ground arith) in
        let e0 = to_int-ulong c.clear_interval s.clear_interval in
        let e1 = to_unsigned-to_int c.repeat_max s.repeat_max in
        let e2 = to_bool-of_bool c.consider_forks_for_repeat in
        let e3 = to_int-ulong c.debug s.debug in
        rw (save-eq m k s.forks) (
          configure-eq (saved calls k a0 a1 a2 a3 vals) n a0 a1 a2 a3 vals q.0 q.1 q.2 q.3 q.4
          ∙ rw
              (restore_forks-eq vals (with_settings n a0 a1 a2 a3)
                (entries-IsKeyed c.fork_keycode 0 512 0 s.forks (omega arith)))
              cc)
