-- ===== src/Windows/Device/Once.antt =====
-- windows/sys/kbfiltr.cpp: a request is answered once, where its handler does not fault.
use fork_plugin.Prelude.{ℕ, ◌≡◌, refl, ◌∙◌, Bool-cases, inl, inr}
use fork_plugin.Prelude.Int.{ℤ}
use fork_plugin.Machine.{Machine, Outcome, done, fault, ◌>>=◌}
use fork_plugin.Windows.{KeyFlags, ExtendedEvent}
use fork_plugin.Windows.Driver.{Framework}
use fork_plugin.Windows.Registry.{RegistryCalls}
use fork_plugin.Windows.Device.{
  ControlCode, Requests, DeviceExtension, evt_io_internal_device_control, Completion,
  request_completion_routine, kbfiltr_get_keyboard_attributes, kbfiltr_set_fork,
}
use fork_plugin.Windows.Control.{ForkRequests, ioctl_set_fork, evt_io_device_control_from_raw_pdo}
use fork_plugin.Windows.Control.Ends.{
  Ends, with_result, with_fault, set_fork-Ends, save-Ends, input_words-Ends,
}
use fork_plugin.Windows.Device.Answers.{
  completed, Answers, AddsOne, AddsOne-same, control-AddsOne, completion-AddsOne,
  get_keyboard_attributes-answers,
}

-- Of the run of the handler for requests of the application: it returns with one answer more, or it
-- faults, which only a request to set a fork can bring about.
pub data OneAnswer (io : Requests) (tape : Answers io) (code : ControlCode) (w : io.World)
    : Outcome (Machine ExtendedEvent × io.World) → Type 0 where
  answered :
      (m : Machine ExtendedEvent) (u : io.World)
      → AddsOne io tape w u
      → OneAnswer io tape code w (done (m, u))
  crashed : code ≡ kbfiltr_set_fork → OneAnswer io tape code w fault

module _ (mask : KeyFlags) (wdf : Framework) (calls : RegistryCalls) (io : Requests)
    (forks : ForkRequests io calls) (tape : Answers io) where
  open io use {World, Status, nt_success}
  open tape use {answers}

  -- Opening and closing a registry key answers no request.
  pub record LeavesRequests : Type 0 where
    pub on-open_key : (w : World) → answers (forks.open_key w).2 ≡ answers w
    pub on-close_key :
        (key : calls.WdfKey) (w : World) → answers (forks.close_key key w) ≡ answers w

  answered_with :
      (code : ControlCode) (w u : World) (s : Status) (n : ℕ) (m : Machine ExtendedEvent)
      → answers u ≡ answers w
      → OneAnswer io tape code w (done (m, io.complete_with_information s n u))
  answered_with code w u s n m e =
      answered m _ (AddsOne-same io tape e (completed s, tape.on-complete_with_information s n u))

  -- The run of the case that sets a fork answers nothing, or faults.
  data Quiet (w : World) : Outcome (Status × Machine ExtendedEvent × World) → Type 0 where
    unanswered :
        (s : Status) (m : Machine ExtendedEvent) (u : World)
        → answers u ≡ answers w
        → Quiet w (done (s, m, u))
    failed : Quiet w fault

  >>=-Quiet :
      {A : Type 0} (w : World) {o : Outcome A}
      {f : A → Outcome (Status × Machine ExtendedEvent × World)}
      → Ends o
      → ((a : A) → Quiet w (f a))
      → Quiet w (o >>= f)
  >>=-Quiet w (with_result a) k = k a
  >>=-Quiet w with_fault k = failed

  ioctl_set_fork-Quiet :
      LeavesRequests
      → (m : Machine ExtendedEvent) (stack : ℕ → ℤ) (length : ℕ) (w : World)
      → Quiet w (ioctl_set_fork mask wdf calls io forks m stack length w)
  unfolding ioctl_set_fork
  ioctl_set_fork-Quiet leaves m stack length w =
      let (status, hkey, u) = forks.open_key w in
      >>=-Quiet w (input_words-Ends mask wdf calls io forks length w) (λ words.
        >>=-Quiet w (set_fork-Ends mask wdf m stack words) (λ n.
          elim (Bool-cases (nt_success status)) [
            | inr refused ↦ rw refused (unanswered status n u (leaves.on-open_key w))
            | inl ok ↦ rw ok (
                >>=-Quiet w (save-Ends mask wdf calls hkey n)
                  (λ r. unanswered _ n _ (leaves.on-close_key r.1 u ∙ leaves.on-open_key w)))
          ]))

  Quiet-OneAnswer :
      (w : World) {o : Outcome (Status × Machine ExtendedEvent × World)}
      → Quiet w o
      → OneAnswer io tape kbfiltr_set_fork w
          (o >>= λ r. done (r.1, io.complete_with_information r.0 0 r.2))
  Quiet-OneAnswer w (unanswered s m u e) = answered_with kbfiltr_set_fork w u s 0 m e
  Quiet-OneAnswer w failed = crashed refl

  application-OneAnswer :
      LeavesRequests
      → (code : ControlCode) (ext : DeviceExtension io) (m : Machine ExtendedEvent) (stack : ℕ → ℤ)
        (output_length input_length : ℕ) (w : World)
      → OneAnswer io tape code w (
          evt_io_device_control_from_raw_pdo mask wdf calls io forks code ext m stack output_length
            input_length w)
  unfolding evt_io_device_control_from_raw_pdo
  application-OneAnswer quiet kbfiltr_get_keyboard_attributes ext m stack output_length input_length
        w =
      answered_with _ w _ _ _ m (get_keyboard_attributes-answers io tape ext output_length w)
  application-OneAnswer quiet kbfiltr_set_fork ext m stack output_length input_length w =
      Quiet-OneAnswer w (ioctl_set_fork-Quiet quiet m stack input_length w)
  application-OneAnswer quiet code ext m stack output_length input_length w =
      answered_with _ w w _ _ m refl

  -- Where opening and closing a registry key answer no request, an internal control request is
  -- answered exactly once on all paths: it is completed or sent on, and never both; a request that
  -- comes back to the completion routine is completed, once; and the handler of the requests of the
  -- application ends on all paths: it completes the request, once, or it faults, which only a request
  -- to set a fork can bring about.
  pub answered_once :
      LeavesRequests
      → (code : ControlCode) (params : Completion io) (ext : DeviceExtension io)
        (m : Machine ExtendedEvent) (stack : ℕ → ℤ) (output_length input_length : ℕ) (w : World)
      → AddsOne io tape w (evt_io_internal_device_control io code ext w).1
        × AddsOne io tape w (request_completion_routine io params ext w).1
        × OneAnswer io tape code w (
            evt_io_device_control_from_raw_pdo mask wdf calls io forks code ext m stack
              output_length input_length w)
  answered_once quiet code params ext m stack output_length input_length w = (
    control-AddsOne io tape code ext w,
    completion-AddsOne io tape params ext w,
    application-OneAnswer quiet code ext m stack output_length input_length w,
  )
