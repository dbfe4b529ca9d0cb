-- ===== src/Xorg/Plugin.antt =====
-- xorg/fork-plugin.cpp: the entry points of the plugin.
use fork_plugin.Prelude.Int.{ℤ, pos, negsuc, to_unsigned}
use fork_plugin.Prelude.{
  ℕ, ◌-◌, ◌/◌, ◌%◌, ◌^◌, Bool, true, false, ◌&&◌, not, List, get_or, ◌==◌, if◌then◌else◌,
}
use fork_plugin.Machine.{Machine, Outcome, done, ◌>>=◌, forking_machine}
use fork_plugin.Machine.Run.{accept_event, accept_time, accept_confirmation}
use fork_plugin.Machine.Configure.{configure_global, configure_key, configure_twins}
use fork_plugin.Config.{ForkConfiguration, fork_configuration}
use fork_plugin.Xorg.{
  InternalEvent, et_key_press, et_key_release, et_motion, Server, xorg_environment,
}
use fork_plugin.Xorg.Hotkeys.{Hotkeys, no_hotkeys, filter_config_key_maybe}

-- A plugin instance: its machine, the static variables of its hot keys, and `wakeup_time`.
pub record Plugin : Type 0 where
  pub machine : Machine InternalEvent
  pub hotkeys : Hotkeys
  pub wakeup_time : ℕ

abbrev pub first_non_zero : ℕ → ℕ → ℕ
first_non_zero a b = if a == 0 then b else a

-- `t & 3` and `t >> 2` on `int`
abbrev pub subtype_n_args : ℤ → ℕ
subtype_n_args (pos n) = n % 4
subtype_n_args (negsuc n) = 3 - n % 4

abbrev pub type_subtype : ℤ → ℤ
type_subtype (pos n) = pos (n / 4)
type_subtype (negsuc n) = negsuc (n / 4)

module _ (matrices : Bool) (server : Server) (fuel : ℕ) where
  open server use {World, next_frozen, next_wakeup_time, previous_has_thaw, notify_thaw}

  -- The instance that create_plugin makes, over the memory that the configuration is built in.
  unfoldable pub create_plugin : ForkConfiguration → Plugin
  create_plugin raw = record {
    machine = forking_machine InternalEvent (fork_configuration raw);
    hotkeys = no_hotkeys;
    wakeup_time = 0;
  }

  unfoldable pub set_wakeup_time : Plugin → World → ℕ → Plugin
  set_wakeup_time plugin w machine_time = record plugin {
    wakeup_time = first_non_zero machine_time (next_wakeup_time w);
  }

  -- An event that the machine takes.
  unfoldable pub feed_event : Plugin → World → InternalEvent → Outcome (Plugin × World)
  feed_event plugin w event =
      accept_event (xorg_environment matrices server) fuel plugin.machine w event >>= λ r.
      done (set_wakeup_time (record plugin { machine = r.1 }) r.2 r.0, r.2)

  unfoldable pub fork_process_event : Plugin → World → InternalEvent → Outcome (Plugin × World)
  fork_process_event plugin w event = elim event.event_type [
    | et_key_press ↦ filtered
    | et_key_release ↦ filtered
    | _ ↦ done (plugin, w)
  ]
    where
      filtered : Outcome (Plugin × World)
      filtered =
          let r = filter_config_key_maybe plugin.hotkeys plugin.machine event in
          let n = record plugin { hotkeys = r.0; machine = r.1 } in
          if r.2 then done (n, w) else feed_event n w event

  unfoldable pub step_in_time : Plugin → World → ℕ → Outcome (Plugin × World)
  step_in_time plugin w now =
      accept_time (xorg_environment matrices server) fuel plugin.machine w now >>= λ r.
      done (set_wakeup_time (record plugin { machine = r.1 }) r.2 r.0, r.2)

  unfoldable pub fork_thaw_notify : Plugin → World → ℕ → Outcome (Plugin × World)
  fork_thaw_notify plugin w now =
      accept_time (xorg_environment matrices server) fuel plugin.machine w now >>= λ r.
      let n = record plugin { machine = r.1 } in
      if not (next_frozen r.2) && previous_has_thaw r.2
      then done (set_wakeup_time n r.2 r.0, notify_thaw now r.2)
      else done (n, r.2)

  unfoldable pub mouse_call_back : Plugin → World → InternalEvent → Outcome (Plugin × World)
  mouse_call_back plugin w event = elim event.event_type [
    | et_motion ↦
        (accept_confirmation (xorg_environment matrices server) fuel plugin.machine w >>= λ r.
        done (record plugin { machine = r.0 }, r.1))
    | _ ↦ done (plugin, w)
  ]

  -- `values[i]`
  abbrev value : List ℤ → ℕ → ℤ
  value values i = get_or values i (pos 0)

  abbrev keycode : ℤ → ℕ
  keycode v = to_unsigned (2 ^ 8) v

  unfoldable pub machine_configure_get : Plugin → List ℤ → Outcome ℤ
  machine_configure_get plugin values =
      let type = value values 0 in
      let m = plugin.machine in
      let p = xorg_environment matrices server in
      if subtype_n_args type == 0
      then (configure_global p m (type_subtype type) (pos 0) false >>= λ r. done r.0)
      else if subtype_n_args type == 1
      then (configure_key p m (type_subtype type) (keycode (value values 1)) (pos 0) false >>= λ r.
          done r.0)
      else if subtype_n_args type == 2
      then (configure_twins p m (type_subtype type) (keycode (value values 1))
            (keycode (value values 2)) (pos 0) false
          >>= λ r. done r.0)
      else done (pos 0)

  unfoldable pub machine_configure : Plugin → List ℤ → Outcome Plugin
  machine_configure plugin values =
      let type = value values 0 in
      let m = plugin.machine in
      let p = xorg_environment matrices server in
      if subtype_n_args type == 0
      then (configure_global p m (type_subtype type) (value values 1) true >>= λ r.
          done (record plugin { machine = r.1 }))
      else if subtype_n_args type == 1
      then (configure_key p m (type_subtype type) (keycode (value values 1)) (value values 2) true
          >>= λ r. done (record plugin { machine = r.1 }))
      else if subtype_n_args type == 2
      then (configure_twins p m (type_subtype type) (keycode (value values 1))
            (keycode (value values 2)) (value values 3) true
          >>= λ r. done (record plugin { machine = r.1 }))
      else done plugin
