-- ===== src/Windows/RawPdo.antt =====
-- windows/sys/rawpdo.cpp: the raw device beside the filter, by which applications reach it. The driver
-- framework is a parameter; what is built in local structures before a call belongs to that call.
pub mod Held
use fork_plugin.Prelude.{Bool, true, false, not, List, [], ◌∷◌, ◌++◌, if◌then◌else◌}
use fork_plugin.Windows.Device.{
  ControlCode, Requests, kbfiltr_get_keyboard_attributes, kbfiltr_set_fork,
}

pub record PdoFramework : Type 1 where
  pub World : Type 0
  pub Status : Type 0
  pub nt_success : Status → Bool
  pub status_success : Status
  pub status_insufficient_resources : Status
  -- WdfPdoInitAllocate, with whether it gave a pointer
  pub pdo_init_allocate : World → Bool × World
  -- the calls that prepare the device, and RtlIsNtDdiVersionAvailable
  pub assign_raw_device : World → Status × World
  pub assign_sddl_string : World → Status × World
  pub assign_device_id : World → Status × World
  pub version_available : Bool
  pub add_hardware_id : World → Status × World
  pub print_instance : World → Status × World
  pub assign_instance_id : World → Status × World
  pub print_text : World → Status × World
  pub add_device_text : World → Status × World
  pub set_default_locale : World → World
  pub allow_forwarding_request_to_parent : World → World
  -- WdfDeviceCreate, and the calls on the new device
  pub device_create : World → Status × World
  pub io_queue_create : World → Status × World
  pub set_pnp_capabilities : World → World
  pub set_device_state : World → World
  pub create_device_interface : World → Status × World
  pub add_static_child : World → Status × World
  pub device_init_free : World → World
  pub object_delete : World → World

module _ (wdf : PdoFramework) where
  open wdf use {
    World, Status, nt_success, status_success, status_insufficient_resources, pdo_init_allocate,
    assign_raw_device, assign_sddl_string, assign_device_id, version_available, add_hardware_id,
    print_instance, assign_instance_id, print_text, add_device_text, set_default_locale,
    allow_forwarding_request_to_parent, device_create, io_queue_create, set_pnp_capabilities,
    set_device_state, create_device_interface, add_static_child, device_init_free, object_delete,
  }

  -- Calls in a row, up to the first that fails: `status = ...; if (!NT_SUCCESS(status)) goto Cleanup;`
  unfoldable pub call_in_turn : List (World → Status × World) → World → Status × World
  call_in_turn [] w = (status_success, w)
  call_in_turn (f ∷ fs) w =
      let (status, u) = f w in if not (nt_success status) then (status, u) else call_in_turn fs u

  -- The calls on `pDeviceInit` before the device is created.
  abbrev pub prepare : List (World → Status × World)
  prepare =
      (assign_raw_device ∷ assign_sddl_string ∷ assign_device_id ∷ [])
      ++ ((if version_available then [] else add_hardware_id ∷ [])
          ++ (print_instance ∷ assign_instance_id ∷ print_text ∷ add_device_text ∷ []))

  -- The calls on the new device; two that cannot fail stand before the one that follows them.
  abbrev pub furnish : List (World → Status × World)
  furnish =
      io_queue_create
      ∷ (λ w. create_device_interface (set_device_state (set_pnp_capabilities w)))
      ∷ add_static_child
      ∷ []

  -- The label Cleanup, with whether `pDeviceInit` and `hChild` are set.
  unfoldable pub cleanup : Bool → Bool → Status → World → Status × World
  cleanup device_init child status w =
      let u = if device_init then device_init_free w else w in
      (status, if child then object_delete u else u)

  -- After WdfDeviceCreate, which takes over `pDeviceInit` where it succeeds and sets it to NULL.
  unfoldable pub furnish_device : Status × World → Status × World
  unfolding call_in_turn cleanup
  furnish_device (status, w) =
      if not (nt_success status)
      then cleanup true false status w
      else (let (furnished, u) = call_in_turn furnish w in
          if not (nt_success furnished)
          then cleanup false true furnished u
          else (status_success, u))

  unfoldable pub create_raw_pdo : World → Status × World
  unfolding call_in_turn cleanup furnish_device
  create_raw_pdo w =
      let (allocated, u) = pdo_init_allocate w in
      if not allocated
      then cleanup false false status_insufficient_resources u
      else (let (prepared, v) = call_in_turn prepare u in
          if not (nt_success prepared)
          then cleanup true false prepared v
          else furnish_device
              (device_create (allow_forwarding_request_to_parent (set_default_locale v))))

  -- KbFilter_EvtDeviceAdd of kbfiltr.cpp, over the calls that create its device and two queues, prepare
  -- the timer, create the machine and read the registry. The status of KbFiltr_CreateRawPdo is
  -- overwritten by that of the next call.
  unfoldable pub device_add :
      (create_device default_queue raw_pdo_queue prepare_timer create_machine : World
        → Status × World)
      → (configure : World → World) → World
      → Status × World
  unfolding call_in_turn create_raw_pdo
  device_add create_device default_queue raw_pdo_queue prepare_timer create_machine configure w =
      let (status, u) =
        call_in_turn
          (create_device
            ∷ default_queue
            ∷ raw_pdo_queue
            ∷ (λ v. (status_success, (create_raw_pdo v).1))
            ∷ prepare_timer
            ∷ create_machine
            ∷ [])
          w in
      if not (nt_success status) then (status, u) else (status, configure u)

-- KbFilter_EvtIoDeviceControlForRawPdo, with WdfRequestForwardToParentDeviceIoQueue as an argument.
module _ (io : Requests) where
  open io use {World, Status, nt_success, status_success, complete}

  unfoldable pub forward_or_complete : Status × World → World
  forward_or_complete (status, w) = if not (nt_success status) then complete status w else w

  unfoldable pub evt_io_device_control_for_raw_pdo :
      (World → Status × World) → ControlCode → World → World
  unfolding forward_or_complete
  evt_io_device_control_for_raw_pdo forward kbfiltr_get_keyboard_attributes w =
      forward_or_complete (forward w)
  evt_io_device_control_for_raw_pdo forward kbfiltr_set_fork w = forward_or_complete (forward w)
  evt_io_device_control_for_raw_pdo forward code w = complete status_success w
