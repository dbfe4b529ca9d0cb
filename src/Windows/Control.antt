-- ===== src/Windows/Control.antt =====
-- windows/sys/kbfiltr.cpp: the requests of the application, KbFilter_EvtIoDeviceControlFromRawPdo.
pub mod Ends
use fork_plugin.Prelude.Int.{ℤ}
use fork_plugin.Prelude.{ℕ, zero, suc, ◌/◌, Bool, not, List, [], ◌∷◌, ltb, ◌==◌, if◌then◌else◌}
use fork_plugin.Machine.{Machine, Outcome, done, fault, ◌>>=◌}
use fork_plugin.Windows.{KeyFlags, ExtendedEvent}
use fork_plugin.Windows.Driver.{Framework, set_fork}
use fork_plugin.Windows.Registry
use fork_plugin.Windows.Registry.{RegistryCalls, save_configuration_to_registry}
use fork_plugin.Windows.Device.{
  ControlCode, kbfiltr_get_keyboard_attributes, kbfiltr_set_fork, Requests, DeviceExtension,
  get_keyboard_attributes,
}

-- What the case IOCTL_KBFILTR_SET_FORK calls: WdfRequestRetrieveInputBuffer, with the words of the
-- buffer if the status is a success; WdfDriverOpenPersistentStateRegistryKey; WdfRegistryClose; and the
-- code of what WdfRegistryAssignValue returns.
pub record ForkRequests (io : Requests) (calls : RegistryCalls) : Type 0 where
  pub retrieve_input_buffer : io.World → io.Status × (ℕ → ℤ)
  pub open_key : io.World → io.Status × calls.WdfKey × io.World
  pub close_key : calls.WdfKey → io.World → io.World
  pub status_of : Registry.Status → io.Status

-- The given number of words of the buffer, from place i on.
abbrev pub read_words : (ℕ → ℤ) → ℕ → ℕ → List ℤ
read_words buffer i zero = []
read_words buffer i (suc left) = buffer i ∷ read_words buffer (suc i) left

module _ (mask : KeyFlags) (wdf : Framework) (calls : RegistryCalls) (io : Requests)
    (forks : ForkRequests io calls) where
  open io use {World, Status, nt_success, status_not_implemented, complete_with_information}

  -- The words of the request. A status that is no success is not looked at; the buffer is then NULL,
  -- and the loop reads through it if there is a word to read.
  unfoldable pub input_words : ℕ → World → Outcome (List ℤ)
  input_words input_buffer_length w =
      if input_buffer_length == 0
      then done []
      else (let (status, buffer) = forks.retrieve_input_buffer w in
          if nt_success status
          then done (read_words buffer 0 (input_buffer_length / 4))
          else if ltb input_buffer_length 4
          then done []
          else fault)

  -- The case IOCTL_KBFILTR_SET_FORK, where `stack` is what the array of values held.
  unfoldable pub ioctl_set_fork :
      Machine ExtendedEvent → (ℕ → ℤ) → ℕ → World → Outcome (Status × Machine ExtendedEvent × World)
  unfolding input_words
  ioctl_set_fork m stack input_buffer_length w = input_words input_buffer_length w >>= λ words.
      set_fork mask wdf m stack words >>= λ n.
      let (status, hkey, u) = forks.open_key w in
      if not (nt_success status)
      then done (status, n, u)
      else (save_configuration_to_registry mask wdf calls hkey n >>= λ r.
          done (forks.status_of r.0, n, forks.close_key r.1 u))

  unfoldable pub evt_io_device_control_from_raw_pdo :
      ControlCode
      → DeviceExtension io
      → Machine ExtendedEvent
      → (ℕ → ℤ)
      → ℕ
      → ℕ
      → World
      → Outcome (Machine ExtendedEvent × World)
  unfolding get_keyboard_attributes ioctl_set_fork
  evt_io_device_control_from_raw_pdo kbfiltr_get_keyboard_attributes ext m stack
        output_buffer_length input_buffer_length w =
      let (status, transferred, u) = get_keyboard_attributes io ext output_buffer_length w in
      done (m, complete_with_information status transferred u)
  evt_io_device_control_from_raw_pdo kbfiltr_set_fork ext m stack output_buffer_length
        input_buffer_length w =
      ioctl_set_fork m stack input_buffer_length w >>= λ r.
      done (r.1, complete_with_information r.0 0 r.2)
  evt_io_device_control_from_raw_pdo code ext m stack output_buffer_length input_buffer_length w =
      done (m, complete_with_information status_not_implemented 0 w)
