-- ===== src/Windows/Device.antt =====
-- windows/sys/kbfiltr.cpp and kbfiltr.h: the device extension and the control requests that reach the
-- filter from the stack and from the application. The driver framework, the drivers above and the
-- other values of ntstatus.h are parameters.
pub mod Connection
pub mod Answers
pub mod Once
use fork_plugin.Prelude.{
  ℕ, ◌≡◌, Bool, true, false, not, ◌&&◌, Option, none, some, ltb, if◌then◌else◌,
}

-- The control codes that the two handlers tell apart.
pub data ControlCode : Type 0 where
  internal_keyboard_connect internal_keyboard_disconnect internal_i8042_hook_keyboard : ControlCode
  keyboard_query_attributes : ControlCode
  kbfiltr_get_keyboard_attributes kbfiltr_set_fork : ControlCode
  other : ℕ → ControlCode

abbrev pub is_query_attributes : ControlCode → Bool
is_query_attributes keyboard_query_attributes = true
is_query_attributes _ = false

-- The framework and the drivers above. A buffer that is retrieved is meaningful where the status is a
-- success; what is written through it goes to the request, which is part of the world.
pub record Requests : Type 1 where
  pub World : Type 0
  pub Status : Type 0
  pub nt_success : Status → Bool
  pub status_success : Status
  pub status_sharing_violation : Status
  pub status_not_implemented : Status
  pub status_buffer_too_small : Status
  -- device objects, the function pointers of the class driver and of i8042prt, contexts,
  -- KEYBOARD_ATTRIBUTES and its size, handles of memory
  pub DeviceObject : Type 0
  pub ServiceRoutine : Type 0
  pub InitRoutine : Type 0
  pub IsrRoutine : Type 0
  pub Context : Type 0
  pub Attributes : Type 0
  pub attributes_size : ℕ
  pub Memory : Type 0
  -- this driver's own, as they are stored into requests
  pub own_device_object : DeviceObject
  pub service_callback : ServiceRoutine
  pub own_init_routine : InitRoutine
  pub own_context : Context
  -- WdfRequestRetrieveInputBuffer and OutputMemory, and writes through the former
  pub retrieve_connect_data : World → Status × DeviceObject × Option ServiceRoutine
  pub write_connect_data : DeviceObject → Option ServiceRoutine → World → World
  pub retrieve_hook : World → Status × Context × Option InitRoutine
  pub write_hook : Context → Option InitRoutine → World → World
  pub retrieve_output_memory : World → Status × Memory
  -- WdfMemoryCopyFromBuffer and WdfMemoryCopyToBuffer
  pub copy_from_buffer : Memory → Attributes → World → Status × World
  pub copy_to_buffer : Memory → World → Status × Attributes
  -- WdfIoTargetFormatRequestForInternalIoctl, WdfRequestSetCompletionRoutine, WdfRequestSend without
  -- and with the option to forget, WdfRequestGetStatus, and the two ways to complete a request
  pub format_for_internal_ioctl : ControlCode → Memory → World → Status × World
  pub set_completion_routine : World → World
  pub send : World → Bool × World
  pub send_and_forget : World → Bool × World
  pub get_status : World → Status
  pub complete : Status → World → World
  pub complete_with_information : Status → ℕ → World → World
  -- a call of the routine of the driver above
  pub call_init : InitRoutine → Context → Bool → World → Status × Bool × World
  pub call_isr : IsrRoutine → Context → Bool → World → Bool × Bool × World

module _ (io : Requests) where
  open io use {
    World, Status, nt_success, status_success, status_sharing_violation, status_not_implemented,
    status_buffer_too_small, DeviceObject, ServiceRoutine, InitRoutine, IsrRoutine, Context,
    Attributes, attributes_size, Memory, own_device_object, service_callback, own_init_routine,
    own_context, retrieve_connect_data, write_connect_data, retrieve_hook, write_hook,
    retrieve_output_memory, copy_from_buffer, copy_to_buffer, format_for_internal_ioctl,
    set_completion_routine, send, send_and_forget, get_status, complete, complete_with_information,
    call_init, call_isr,
  }

  -- CONNECT_DATA
  pub record ConnectData : Type 0 where
    pub class_device_object : Option DeviceObject
    pub class_service : Option ServiceRoutine

  -- DEVICE_EXTENSION, with what the code of the handlers uses.
  pub record DeviceExtension : Type 0 where
    pub upper_connect_data : ConnectData
    pub upper_context : Context
    pub upper_initialization_routine : Option InitRoutine
    pub upper_isr_hook : Option IsrRoutine
    pub keyboard_attributes : Attributes

  abbrev pub is_some : {A : Type 0} → Option A → Bool
  is_some none = false
  is_some (some a) = true

  -- `devExt->UpperConnectData = *connectData`
  abbrev pub connected : DeviceExtension → DeviceObject → Option ServiceRoutine → DeviceExtension
  connected ext object service = record ext {
    upper_connect_data = record { class_device_object = some object; class_service = service };
  }

  -- The case IOCTL_INTERNAL_KEYBOARD_CONNECT.
  unfoldable pub connect : DeviceExtension → World → Status × DeviceExtension × World
  connect ext w =
      if is_some ext.upper_connect_data.class_service
      then (status_sharing_violation, ext, w)
      else (let (status, object, service) = retrieve_connect_data w in
          if not (nt_success status) then (status, ext, w) else (
            status,
            connected ext object service,
            write_connect_data own_device_object (some service_callback) w,
          ))

  -- The case IOCTL_INTERNAL_I8042_HOOK_KEYBOARD.
  unfoldable pub hook_keyboard : DeviceExtension → World → Status × DeviceExtension × World
  hook_keyboard ext w =
      let (status, context, routine) = retrieve_hook w in
      if not (nt_success status) then (status, ext, w) else (
        status_success,
        record ext {
          upper_context = context;
          upper_initialization_routine =
              (if is_some routine then routine else ext.upper_initialization_routine);
        },
        write_hook own_context (some own_init_routine) w,
      )

  -- The switch of KbFilter_EvtIoInternalDeviceControl.
  unfoldable pub dispatch_internal :
      ControlCode → DeviceExtension → World → Status × DeviceExtension × World
  unfolding connect hook_keyboard
  dispatch_internal internal_keyboard_connect ext w = connect ext w
  dispatch_internal internal_keyboard_disconnect ext w = (status_not_implemented, ext, w)
  dispatch_internal internal_i8042_hook_keyboard ext w = hook_keyboard ext w
  dispatch_internal code ext w = (status_success, ext, w)

  -- A request that WdfRequestSend has refused is completed.
  unfoldable pub after_send : Bool × World → World
  after_send (sent, w) = if sent then w else complete (get_status w) w

  -- Forwarding with the completion routine, by which the driver reads the attributes.
  unfoldable pub forward_with_completion : ControlCode → World → World
  unfolding after_send
  forward_with_completion code w =
      let (status, memory) = retrieve_output_memory w in
      if not (nt_success status)
      then complete status w
      else (let (formatted, u) = format_for_internal_ioctl code memory w in
          if not (nt_success formatted)
          then complete formatted u
          else after_send (send (set_completion_routine u)))

  unfoldable pub evt_io_internal_device_control :
      ControlCode → DeviceExtension → World → DeviceExtension × World
  unfolding dispatch_internal after_send forward_with_completion
  evt_io_internal_device_control code ext w =
      let (status, after, u) = dispatch_internal code ext w in
      if not (nt_success status)
      then (after, complete status u)
      else if is_query_attributes code
      then (after, forward_with_completion code u)
      else (after, after_send (send_and_forget u))

  -- What the completion routine is told of the request: its status, whether it is an internal control
  -- request, its code, and the buffer with its length.
  pub record Completion : Type 0 where
    pub status : Status
    pub is_internal : Bool
    pub code : ControlCode
    pub buffer : Memory
    pub length : ℕ

  unfoldable pub request_completion_routine :
      Completion → DeviceExtension → World → DeviceExtension × World
  request_completion_routine params ext w =
      if nt_success params.status
        && (params.is_internal && is_query_attributes params.code)
        && not (ltb params.length attributes_size)
      then (let (status, attributes) = copy_to_buffer params.buffer w in
          let after =
            if nt_success status then record ext { keyboard_attributes = attributes } else ext in
          (after, complete status w))
      else (ext, complete params.status w)

  -- The case IOCTL_KBFILTR_GET_KEYBOARD_ATTRIBUTES, with the number of bytes transferred.
  unfoldable pub get_keyboard_attributes : DeviceExtension → ℕ → World → Status × ℕ × World
  get_keyboard_attributes ext output_buffer_length w =
      if ltb output_buffer_length attributes_size
      then (status_buffer_too_small, 0, w)
      else (let (status, memory) = retrieve_output_memory w in
          if not (nt_success status)
          then (status, 0, w)
          else (let (copied, u) = copy_from_buffer memory ext.keyboard_attributes w in
              if not (nt_success copied) then (copied, 0, u) else (copied, attributes_size, u)))

  -- KbFilter_InitializationRoutine, with whether to turn the translation on.
  unfoldable pub initialization_routine : DeviceExtension → Bool → World → Status × Bool × World
  initialization_routine ext turn w = elim ext.upper_initialization_routine [
    | none ↦ (status_success, true, w)
    | some routine ↦
        let (status, turned, u) = call_init routine ext.upper_context turn w in
        if not (nt_success status) then (status, turned, u) else (status, true, u)
  ]

  -- KbFilter_IsrHook, with whether to go on processing.
  unfoldable pub isr_hook : DeviceExtension → Bool → World → Bool × Bool × World
  isr_hook ext go_on w = elim ext.upper_isr_hook [
    | none ↦ (true, true, w)
    | some routine ↦
        let (value, more, u) = call_isr routine ext.upper_context go_on w in
        if not value
        then (value, more, u)
        else if not more
        then (value, more, u)
        else (value, true, u)
  ]
