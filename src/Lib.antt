-- ===== src/Lib.antt =====
-- A verification library for the fork plugin, which lets one key act as another while it is held.
--
-- The program. A platform (the X server, libinput or a Windows filter driver) hands each keyboard
-- event, and the time as it passes, to the forking machine of src/machine.h. The machine keeps the
-- events in order in three queues, which are one circular buffer cut by two iterators
-- (src/triqueue.h over src/circular.h): output, for events that have been decided; internal, for
-- those that wait for a decision on the first of them; and input. A decision sends the first event
-- to the output queue, under its own key code or under that of its fork, and puts the others back
-- into the input queue. What the output queue holds is relayed to the next layer while that is not
-- frozen. The limits of time come from src/fork_configuration.h.
--
-- The files.
-- - Prelude: shared names, Boolean tests, lists over the native numbers; Prelude/Int: C's int.
-- - Circular: the class circular_buffer of src/circular.h. Circular/Valid has its invariant,
--   Circular/Refine the list it holds, Circular/Full the full buffer, Circular/Assign the loops
--   over whole ranges, Circular/Copies copies and growth, Circular/Compare and Circular/Less the
--   comparisons, Circular/Iterators the class circular_buffer_iterator, and Circular/Runs sequences
--   of methods. Slots are optional values, and size_type wraps at 2^64.
-- - Triqueue: the class triqueue_t of src/triqueue.h; Triqueue/Refine has the three lists, with
--   Triqueue/Places on places in them, and Triqueue/Runs sequences of operations.
-- - Platform: the virtual methods of src/platform.h as a record, with the moduli of the types
--   Keycode and Time, MAX_KEYCODE and VERIFICATION_MATRIX; World is everything downstream.
-- - Config: the class ForkConfiguration of src/fork_configuration.h; Config/Times its limits.
-- - Machine: the class forkingMachine, one function for each method. Machine/Run has its loops
--   and public operations, Machine/Configure the configuration calls and include/fork_enums.h,
--   with Machine/Configure/Settings about them. Machine/Moves defines the invariant Inv and the
--   effect of a decision, and Machine/Codes the codes under which keys go out; Machine/Progress
--   is about one event, Machine/Verdict and Machine/Normal about what it decides, Machine/Rounds
--   about one round, Machine/Loop about the loop, Machine/Flush about the output, Machine/Arrive
--   about what enters the queues, Machine/Accept about the public operations, Machine/Traces,
--   Machine/Session and Machine/History about
--   sequences of calls, and Machine/Stall about the event on which the loop does not end.
-- - Machine/Threads: several threads in the public operations of one machine, as steps between
--   the sections under its lock. Machine/Threads/Effects and Steps beside it say what a step
--   does, Order and Kept what the threads keep of the events, Lock, Late and Progress how they
--   wait for each other, and Overtaking what they do not keep.
-- - Xorg: the environment of xorg/xorg.h and xorg/event_ops.cpp. Xorg/Plugin has the entry points
--   of xorg/fork-plugin.cpp, Xorg/Hotkeys its configuration mode, Xorg/Order theorems on both.
-- - Libinput: the environment of libinput/libinput_environment.h and the entry points of
--   libinput/fork-plugin.cpp, with the library as a parameter; Libinput/Order theorems on them.
-- - Windows: the environment of windows/win-environment.h. Windows/Driver has what
--   windows/sys/kbfiltr.cpp does with packets, its timer and requests, Windows/Registry how it
--   keeps the configuration; Windows/Events, Windows/Packets and the children of Windows/Registry
--   are theorems on them. Windows/Device has the control requests of the stack in kbfiltr.cpp,
--   Windows/Control those of the application, with Windows/Control/Ends about how they end, and
--   Windows/RawPdo the raw device of windows/sys/rawpdo.cpp and KbFilter_EvtDeviceAdd; their
--   children are theorems on them. The driver framework and the masks of ntddkbd.h are parameters.
-- - Examples: the theorems at concrete inputs, and runs of the whole machine.
--
-- Conventions. A method that changes the machine returns the new one; a failed assert, or a read of
-- an object that is not there, is a fault, and so is an index beyond the MAX_KEYCODE entries of a
-- table: in accept_event, at the top of transition_by_key, in activate_fork_rewind, configure_key and
-- configure_twins. The invariant Inv says that the queues hold three lists of at most 100 events
-- together, that the internal one is empty in the normal state, and that it starts with the press of
-- the suspected key otherwise, with no release of that key in it; that the pending events have key
-- codes below MAX_KEYCODE; and that a key that is active as another one has a fork, and the suspected
-- key has one and is not active. Nothing in the program keeps a full buffer from being pushed to:
-- IsDue in Machine/Session and IsExpected in Machine/Threads say which runs are considered. IsLawful
-- is what the machine relies on of a platform.
--
-- Fuel. The loops of run_automaton and flush_to_next take fuel, one unit for a round. But for the
-- case of Machine/Stall, each round decides an event or moves one from the input to the internal
-- queue, so (n * n) + n rounds are enough for n events. The buffer holds 100 events, so 10100 rounds
-- suffice; the public operations are stated for any fuel above that.
--
-- Not modelled: log output, the log of last events (its only operation on an event has no body) and
-- the dumps; the lock in the configuration calls, which hold it from end to end; allocation and the
-- freeing of events; reverse iterators, which are those of the standard library; tables for more
-- than one configuration (MULTIPLE_CONFIGURATIONS is off); the entry point of the Windows driver,
-- which only calls its framework, and the test program. The environment of Windows is no
-- instance of IsLawful, by its key codes, so what is said of lawful platforms does not apply to it.
-- The static variables of the hot keys belong to one plugin instance here, where the program shares
-- them between instances.
pub mod Prelude
pub mod Circular
pub mod Triqueue
pub mod Platform
pub mod Config
pub mod Machine
pub mod Xorg
pub mod Windows
pub mod Libinput
pub mod Examples
