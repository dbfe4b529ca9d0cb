-- ===== src/Windows/Device/Answers.antt =====
-- windows/sys/kbfiltr.cpp: the answers to the control requests of the stack.
use fork_plugin.Prelude.{
  ℕ, ◌≡◌, refl, ap, ◌∙◌, Bool, true, false, not, ◌&&◌, Option, List, [], ◌∷◌, ◌++◌, Bool-cases, inl,
  inr, if◌then◌else◌, ltb,
}
use fork_plugin.Windows.Device.{
  ControlCode, internal_keyboard_connect, internal_i8042_hook_keyboard, is_query_attributes,
  Requests, DeviceExtension, is_some, connect, hook_keyboard, dispatch_internal, after_send,
  forward_with_completion, evt_io_internal_device_control, Completion, request_completion_routine,
  get_keyboard_attributes,
}

-- What happens to a request: it is completed, or sent on to the driver below.
pub data Answer (Status : Type 0) : Type 0 where
  completed : Status → Answer Status
  sent : Answer Status

-- A record of the answers, which the calls of the framework add to as its documents say: completing
-- and a successful WdfRequestSend answer the request, and nothing else does.
pub record Answers (io : Requests) : Type 0 where
  pub answers : io.World → List (Answer io.Status)
  pub on-complete :
      (s : io.Status) (w : io.World) → answers (io.complete s w) ≡ answers w ++ (completed s ∷ [])
  pub on-complete_with_information :
      (s : io.Status) (n : ℕ) (w : io.World)
      → answers (io.complete_with_information s n w) ≡ answers w ++ (completed s ∷ [])
  pub on-send :
      (w : io.World)
      → answers (io.send w).1 ≡ (if (io.send w).0 then answers w ++ (sent ∷ []) else answers w)
  pub on-send_and_forget :
      (w : io.World)
      → answers (io.send_and_forget w).1
        ≡ (if (io.send_and_forget w).0 then answers w ++ (sent ∷ []) else answers w)
  pub on-write_connect_data :
      (o : io.DeviceObject) (r : Option io.ServiceRoutine) (w : io.World)
      → answers (io.write_connect_data o r w) ≡ answers w
  pub on-write_hook :
      (x : io.Context) (r : Option io.InitRoutine) (w : io.World)
      → answers (io.write_hook x r w) ≡ answers w
  pub on-format :
      (code : ControlCode) (m : io.Memory) (w : io.World)
      → answers (io.format_for_internal_ioctl code m w).1 ≡ answers w
  pub on-set_completion_routine : (w : io.World) → answers (io.set_completion_routine w) ≡ answers w
  pub on-copy_from_buffer :
      (m : io.Memory) (a : io.Attributes) (w : io.World)
      → answers (io.copy_from_buffer m a w).1 ≡ answers w

module _ (io : Requests) (tape : Answers io) where
  open io use {World, Status, nt_success}
  open tape use {answers}

  -- The second world has one answer more than the first.
  abbrev pub AddsOne : World → World → Type 0
  AddsOne w u = (a : Answer Status) × (answers u ≡ answers w ++ (a ∷ []))

  pub AddsOne-same : {w u v : World} → answers u ≡ answers w → AddsOne u v → AddsOne w v
  AddsOne-same e (a, h) = (a, h ∙ ap (λ l. l ++ (a ∷ [])) e)

  complete-AddsOne : (s : Status) (w : World) → AddsOne w (io.complete s w)
  complete-AddsOne s w = (completed s, tape.on-complete s w)

  -- Sending, or completing what could not be sent.
  after_send-AddsOne :
      (w : World) (r : Bool × World)
      → answers r.1 ≡ (if r.0 then answers w ++ (sent ∷ []) else answers w)
      → AddsOne w (after_send io r)
  unfolding after_send
  after_send-AddsOne w (true, u) h = (sent, h)
  after_send-AddsOne w (false, u) h = AddsOne-same h (complete-AddsOne (io.get_status u) u)

  connect-answers :
      (ext : DeviceExtension io) (w : World) → answers (connect io ext w).2 ≡ answers w
  unfolding connect
  connect-answers ext w = elim (Bool-cases (is_some io ext.upper_connect_data.class_service)) [
    | inl e ↦ rw e refl
    | inr e ↦ elim (Bool-cases (nt_success (io.retrieve_connect_data w).0)) [
      | inl ok ↦ rw (e, ok) (tape.on-write_connect_data _ _ w)
      | inr failed ↦ rw (e, failed) refl
    ]
  ]

  hook_keyboard-answers :
      (ext : DeviceExtension io) (w : World) → answers (hook_keyboard io ext w).2 ≡ answers w
  unfolding hook_keyboard
  hook_keyboard-answers ext w = elim (Bool-cases (nt_success (io.retrieve_hook w).0)) [
    | inl e ↦ rw e (tape.on-write_hook _ _ w)
    | inr e ↦ rw e refl
  ]

  dispatch_internal-answers :
      (code : ControlCode) (ext : DeviceExtension io) (w : World)
      → answers (dispatch_internal io code ext w).2 ≡ answers w
  unfolding dispatch_internal
  dispatch_internal-answers internal_keyboard_connect ext w = connect-answers ext w
  dispatch_internal-answers internal_i8042_hook_keyboard ext w = hook_keyboard-answers ext w
  dispatch_internal-answers code ext w = refl

  forward_with_completion-AddsOne :
      (code : ControlCode) (w : World) → AddsOne w (forward_with_completion io code w)
  unfolding forward_with_completion
  forward_with_completion-AddsOne code w =
      let memory = (io.retrieve_output_memory w).1 in
      let u = (io.format_for_internal_ioctl code memory w).1 in
      let same : answers u ≡ answers w = tape.on-format code memory w in
      elim (Bool-cases (nt_success (io.retrieve_output_memory w).0)) [
        | inr failed ↦ rw failed (complete-AddsOne _ w)
        | inl ok ↦ elim (Bool-cases (nt_success (io.format_for_internal_ioctl code memory w).0)) [
          | inr failed ↦ rw (ok, failed) (AddsOne-same same (complete-AddsOne _ u))
          | inl fine ↦
              rw (ok, fine)
                (AddsOne-same (tape.on-set_completion_routine u ∙ same) (
                  after_send-AddsOne (io.set_completion_routine u)
                    (io.send (io.set_completion_routine u))
                    (tape.on-send (io.set_completion_routine u))))
        ]
      ]

  pub control-AddsOne :
      (code : ControlCode) (ext : DeviceExtension io) (w : World)
      → AddsOne w (evt_io_internal_device_control io code ext w).1
  unfolding evt_io_internal_device_control
  control-AddsOne code ext w =
      let u = (dispatch_internal io code ext w).2 in
      let same = dispatch_internal-answers code ext w in
      elim (Bool-cases (nt_success (dispatch_internal io code ext w).0)) [
        | inr failed ↦ rw failed (AddsOne-same same (complete-AddsOne _ u))
        | inl ok ↦ elim (Bool-cases (is_query_attributes code)) [
          | inl q ↦ rw (ok, q) (AddsOne-same same (forward_with_completion-AddsOne code u))
          | inr n ↦
              rw (ok, n)
                (AddsOne-same same
                  (after_send-AddsOne u (io.send_and_forget u) (tape.on-send_and_forget u)))
        ]
      ]

  pub completion-AddsOne :
      (params : Completion io) (ext : DeviceExtension io) (w : World)
      → AddsOne w (request_completion_routine io params ext w).1
  unfolding request_completion_routine
  completion-AddsOne params ext w =
      elim (Bool-cases (
        nt_success params.status
        && (params.is_internal && is_query_attributes params.code)
        && not (ltb params.length io.attributes_size))) [
          | inl e ↦ rw e (complete-AddsOne _ w)
          | inr e ↦ rw e (complete-AddsOne _ w)
        ]

  pub get_keyboard_attributes-answers :
      (ext : DeviceExtension io) (length : ℕ) (w : World)
      → answers (get_keyboard_attributes io ext length w).2 ≡ answers w
  unfolding get_keyboard_attributes
  get_keyboard_attributes-answers ext length w = elim (Bool-cases (ltb length io.attributes_size)) [
    | inl small ↦ rw small refl
    | inr large ↦ elim (Bool-cases (nt_success (io.retrieve_output_memory w).0)) [
      | inr failed ↦ rw (large, failed) refl
      | inl ok ↦
          let memory = (io.retrieve_output_memory w).1 in
          elim (Bool-cases (nt_success (io.copy_from_buffer memory ext.keyboard_attributes w).0)) [
            | inl fine ↦ rw (large, ok, fine) (tape.on-copy_from_buffer memory _ w)
            | inr failed ↦ rw (large, ok, failed) (tape.on-copy_from_buffer memory _ w)
          ]
    ]
  ]
