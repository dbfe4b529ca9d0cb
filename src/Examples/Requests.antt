-- ===== src/Examples/Requests.antt =====
-- The theorems on control requests, over a framework that is the list of what it was told.
use fork_plugin.Prelude.{ℕ, suc, ◌-◌, arith, ◌≡◌, refl, true, some, none, List, [], ◌∷◌, ◌++◌, ◌==◌}
use fork_plugin.Windows.RawPdo.{PdoFramework, create_raw_pdo}
use fork_plugin.Windows.RawPdo.Held.{Held, Accounts, create_raw_pdo-Accounts}
use fork_plugin.Windows.Device.{
  ControlCode, internal_keyboard_connect, internal_i8042_hook_keyboard, keyboard_query_attributes,
  kbfiltr_set_fork, Requests, DeviceExtension, Completion, evt_io_internal_device_control,
  request_completion_routine,
}
use fork_plugin.Windows.Device.Connection.{control_all, control_all-connected}
use fork_plugin.Windows.Device.Once.{OneAnswer, LeavesRequests, answered_once}
use fork_plugin.Windows.Device.Answers.{Answer, completed, sent, Answers, AddsOne}
use fork_plugin.Windows.Control.{
  ForkRequests, input_words, ioctl_set_fork, evt_io_device_control_from_raw_pdo,
}
use fork_plugin.Prelude.Int.{pos}
use fork_plugin.Machine.{fault}
use fork_plugin.Examples.Drivers.{mask, wdf, calls, machine}

-- 0 is the only success. Sending to the driver below works, and its memory can be had.
abbrev told : Requests
told = record {
  World = List (Answer ℕ);
  Status = ℕ;
  nt_success = λ s. s == 0;
  status_success = 0;
  status_sharing_violation = 3221225539;
  status_not_implemented = 3221225474;
  status_buffer_too_small = 3221225507;
  DeviceObject = ℕ;
  ServiceRoutine = ℕ;
  InitRoutine = ℕ;
  IsrRoutine = ℕ;
  Context = ℕ;
  Attributes = ℕ;
  attributes_size = 28;
  Memory = ℕ;
  own_device_object = 1;
  service_callback = 2;
  own_init_routine = 3;
  own_context = 4;
  retrieve_connect_data = λ w. (0, 11, some 12);
  write_connect_data = λ o r w. w;
  retrieve_hook = λ w. (0, 13, none);
  write_hook = λ x r w. w;
  retrieve_output_memory = λ w. (0, 14);
  copy_from_buffer = λ m a w. (0, w);
  copy_to_buffer = λ m w. (0, 15);
  format_for_internal_ioctl = λ code m w. (0, w);
  set_completion_routine = λ w. w;
  send = λ w. (true, w ++ (sent ∷ []));
  send_and_forget = λ w. (true, w ++ (sent ∷ []));
  get_status = λ w. 0;
  complete = λ s w. w ++ (completed s ∷ []);
  complete_with_information = λ s n w. w ++ (completed s ∷ []);
  call_init = λ r x turn w. (0, turn, w);
  call_isr = λ r x go_on w. (true, go_on, w);
}

abbrev tape : Answers told
tape = record {
  answers = λ w. w;
  on-complete = λ s w. refl;
  on-complete_with_information = λ s n w. refl;
  on-send = λ w. refl;
  on-send_and_forget = λ w. refl;
  on-write_connect_data = λ o r w. refl;
  on-write_hook = λ x r w. refl;
  on-format = λ code m w. refl;
  on-set_completion_routine = λ w. refl;
  on-copy_from_buffer = λ m a w. refl;
}

abbrev with_class_driver : DeviceExtension told
with_class_driver = record {
  upper_connect_data = record { class_device_object = some 11; class_service = some 12 };
  upper_context = 0;
  upper_initialization_routine = none;
  upper_isr_hook = none;
  keyboard_attributes = 0;
}

abbrev requests : List ControlCode
requests = internal_i8042_hook_keyboard ∷ keyboard_query_attributes ∷ internal_keyboard_connect ∷ []

control_all-connected_example :
    let r = control_all told requests with_class_driver [] in
    (r.0.upper_connect_data ≡ with_class_driver.upper_connect_data)
    × (evt_io_internal_device_control told internal_keyboard_connect r.0 r.1
        ≡ (r.0, told.complete 3221225539 r.1))
control_all-connected_example =
    control_all-connected told requests with_class_driver 12 [] refl refl

abbrev params : Completion told
params = record {
  status = 0;
  is_internal = true;
  code = keyboard_query_attributes;
  buffer = 14;
  length = 28;
}

-- A buffer that cannot be retrieved, and a registry that can be opened.
abbrev forks : ForkRequests told calls
forks = record {
  retrieve_input_buffer = λ w. (3221225485, λ i. pos 0);
  open_key = λ w. (0, (λ i. record { number = none; binary = [] }), w);
  close_key = λ key w. w;
  status_of = λ s. 0;
}

leaves_requests : LeavesRequests mask wdf calls told forks tape
leaves_requests = record { on-open_key = λ w. refl; on-close_key = λ key w. refl }

-- The connection of a class driver that is connected already, and a request to set a fork, of which
-- the eight bytes cannot be retrieved.
answered_once_example :
    AddsOne told tape []
      (evt_io_internal_device_control told kbfiltr_set_fork with_class_driver []).1
    × AddsOne told tape [] (request_completion_routine told params with_class_driver []).1
    × OneAnswer told tape kbfiltr_set_fork [] (
        evt_io_device_control_from_raw_pdo mask wdf calls told forks kbfiltr_set_fork
          with_class_driver machine
          (λ i. pos 0)
          0
          8
          [])
answered_once_example =
    answered_once mask wdf calls told forks tape leaves_requests kbfiltr_set_fork params
      with_class_driver machine (λ i. pos 0) 0 8 []

-- The handler then reads through a pointer that is NULL.
unretrieved :
    evt_io_device_control_from_raw_pdo mask wdf calls told forks kbfiltr_set_fork with_class_driver
      machine
      (λ i. pos 0)
      0
      8
      []
    ≡ fault
unfolding evt_io_device_control_from_raw_pdo ioctl_set_fork input_words
unretrieved = refl

-- A framework that counts, and in which the child cannot be added in the end.
abbrev counting : PdoFramework
counting = record {
  World = record { inits : ℕ; children : ℕ };
  Status = ℕ;
  nt_success = λ s. s == 0;
  status_success = 0;
  status_insufficient_resources = 3221225626;
  pdo_init_allocate = λ w. (true, record w { inits = suc w.inits });
  assign_raw_device = λ w. (0, w);
  assign_sddl_string = λ w. (0, w);
  assign_device_id = λ w. (0, w);
  version_available = true;
  add_hardware_id = λ w. (0, w);
  print_instance = λ w. (0, w);
  assign_instance_id = λ w. (0, w);
  print_text = λ w. (0, w);
  add_device_text = λ w. (0, w);
  set_default_locale = λ w. w;
  allow_forwarding_request_to_parent = λ w. w;
  device_create = λ w. (0, record { inits = w.inits - 1; children = suc w.children });
  io_queue_create = λ w. (0, w);
  set_pnp_capabilities = λ w. w;
  set_device_state = λ w. w;
  create_device_interface = λ w. (0, w);
  add_static_child = λ w. (3221225473, w);
  device_init_free = λ w. record w { inits = w.inits - 1 };
  object_delete = λ w. record w { children = w.children - 1 };
}

abbrev counted : Held counting
counted = record {
  inits = λ w. w.inits;
  children = λ w. w.children;
  on-pdo_init_allocate = λ w. (refl, refl);
  on-device_create = λ w n e. (omega (arith, e), refl);
  on-device_init_free = λ w n e. (omega (arith, e), refl);
  on-object_delete = λ w n e. (refl, omega (arith, e));
}

create_raw_pdo-Accounts_example :
    Accounts counting counted
      (record { inits = 0; children = 5 })
      (create_raw_pdo counting (record { inits = 0; children = 5 }))
create_raw_pdo-Accounts_example =
    create_raw_pdo-Accounts counting counted (record { inits = 0; children = 5 })
      (
        λ w. (refl, refl),
        (
          λ w. (refl, refl),
          (
            λ w. (refl, refl),
            (λ w. (refl, refl), (λ w. (refl, refl), (λ w. (refl, refl), (λ w. (refl, refl), tt)))),
          ),
        ),
      )
      (λ w. (refl, refl), (λ w. (refl, refl), (λ w. (refl, refl), tt))) (λ u. (refl, refl)) refl
      refl
