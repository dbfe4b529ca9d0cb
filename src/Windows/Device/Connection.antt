-- ===== src/Windows/Device/Connection.antt =====
-- windows/sys/kbfiltr.cpp: the one connection of a class driver to the filter.
use fork_plugin.Prelude.{◌≡◌, refl, ap, ◌∙◌, false, some, List, [], ◌∷◌, Bool-cases, inl, inr}
use fork_plugin.Windows.Device.{
  ControlCode, internal_keyboard_connect, internal_i8042_hook_keyboard, is_query_attributes,
  Requests, DeviceExtension, connect, hook_keyboard, dispatch_internal,
  evt_io_internal_device_control,
}

module _ (io : Requests) where
  open io use {World, ServiceRoutine, nt_success, status_sharing_violation, complete, retrieve_hook}

  -- Internal control requests, one after the other.
  unfoldable pub control_all :
      List ControlCode → DeviceExtension io → World → DeviceExtension io × World
  control_all [] ext w = (ext, w)
  control_all (code ∷ codes) ext w =
      let (after, u) = evt_io_internal_device_control io code ext w in control_all codes after u

  -- The routine is that of a class driver that has connected.
  abbrev pub IsConnected : DeviceExtension io → ServiceRoutine → Type 0
  IsConnected ext routine = ext.upper_connect_data.class_service ≡ some routine

  hook_keyboard-keeps :
      (ext : DeviceExtension io) (w : World)
      → (hook_keyboard io ext w).1.upper_connect_data ≡ ext.upper_connect_data
  unfolding hook_keyboard
  hook_keyboard-keeps ext w = elim (Bool-cases (nt_success (retrieve_hook w).0)) [
    | inl e ↦ rw e refl
    | inr e ↦ rw e refl
  ]

  connect-refused :
      (ext : DeviceExtension io) (routine : ServiceRoutine) (w : World)
      → IsConnected ext routine
      → connect io ext w ≡ (status_sharing_violation, ext, w)
  unfolding connect
  connect-refused ext routine w e = rw e refl

  dispatch_internal-keeps :
      (code : ControlCode) (ext : DeviceExtension io) (routine : ServiceRoutine) (w : World)
      → IsConnected ext routine
      → (dispatch_internal io code ext w).1.upper_connect_data ≡ ext.upper_connect_data
  unfolding dispatch_internal
  dispatch_internal-keeps internal_keyboard_connect ext routine w e =
      ap (λ r. r.1.upper_connect_data) (connect-refused ext routine w e)
  dispatch_internal-keeps internal_i8042_hook_keyboard ext routine w e = hook_keyboard-keeps ext w
  dispatch_internal-keeps code ext routine w e = refl

  control-extension :
      (code : ControlCode) (ext : DeviceExtension io) (w : World)
      → (evt_io_internal_device_control io code ext w).0 ≡ (dispatch_internal io code ext w).1
  unfolding evt_io_internal_device_control
  control-extension code ext w =
      elim (Bool-cases (nt_success (dispatch_internal io code ext w).0)) [
        | inl e ↦ elim (Bool-cases (is_query_attributes code)) [
          | inl q ↦ rw (e, q) refl
          | inr n ↦ rw (e, n) refl
        ]
        | inr e ↦ rw e refl
      ]

  control_all-keeps :
      (codes : List ControlCode) (ext : DeviceExtension io) (routine : ServiceRoutine) (w : World)
      → IsConnected ext routine
      → (control_all codes ext w).0.upper_connect_data ≡ ext.upper_connect_data
  unfolding control_all
  control_all-keeps [] ext routine w e = refl
  control_all-keeps (code ∷ codes) ext routine w e =
      let one : (evt_io_internal_device_control io code ext w).0.upper_connect_data
          ≡ ext.upper_connect_data =
        ap (λ (x : DeviceExtension io). x.upper_connect_data) (control-extension code ext w)
        ∙ dispatch_internal-keeps code ext routine w e in
      control_all-keeps codes (evt_io_internal_device_control io code ext w).0 routine
        (evt_io_internal_device_control io code ext w).1 (ap (λ d. d.class_service) one ∙ e)
      ∙ one

  -- Once a class driver has connected with a routine, no sequence of internal control requests changes
  -- the connection, and after any of them a further request to connect changes nothing of the driver's
  -- and is completed with a sharing violation, where that status is a failure.
  pub control_all-connected :
      (codes : List ControlCode) (ext : DeviceExtension io) (routine : ServiceRoutine) (w : World)
      → IsConnected ext routine
      → nt_success status_sharing_violation ≡ false
      → let r = control_all codes ext w in
        (r.0.upper_connect_data ≡ ext.upper_connect_data)
        × (evt_io_internal_device_control io internal_keyboard_connect r.0 r.1
            ≡ (r.0, complete status_sharing_violation r.1))
  unfolding evt_io_internal_device_control dispatch_internal
  control_all-connected codes ext routine w e failure =
      let r = control_all codes ext w in
      let kept = control_all-keeps codes ext routine w e in
      (
        kept,
        rw (connect-refused r.0 routine r.1 (ap (λ d. d.class_service) kept ∙ e), failure) refl,
      )
