-- ===== src/Windows/Control/Ends.antt =====
-- windows/sys/kbfiltr.cpp: the case IOCTL_KBFILTR_SET_FORK ends, with a result or a fault.
use fork_plugin.Prelude.Int.{ℤ}
use fork_plugin.Prelude.{
  ℕ, zero, suc, ◌≡◌, Bool, true, false, List, ltb, ◌==◌, ◌!=◌, arith, if◌then◌else◌,
}
use fork_plugin.Platform.{Platform}
use fork_plugin.Machine.{Machine, Outcome, done, fault, no_fuel, ◌>>=◌}
use fork_plugin.Machine.Configure.{configure_global, configure_twins, configure_key}
use fork_plugin.Windows.{KeyFlags, ExtendedEvent}
use fork_plugin.Windows.Driver.{Framework, machine_configure, set_fork}
use fork_plugin.Windows.Registry.{
  RegistryCalls, ValueName, max_forks, binary_values, fork_of, save_global_value,
  save_configuration_to_registry,
}
use fork_plugin.Windows.Device.{Requests}
use fork_plugin.Windows.Control.{ForkRequests, input_words}

-- The run has ended, with a result or a fault.
pub data Ends {A : Type 0} : Outcome A → Type 0 where
  with_result : (a : A) → Ends (done a)
  with_fault : Ends fault

-- The same as a test.
abbrev ends : {A : Type 0} → Outcome A → Bool
ends no_fuel = false
ends _ = true

tested : {A : Type 0} (o : Outcome A) → ends o ≡ true → Ends o
tested (done a) e = with_result a
tested fault e = with_fault
tested no_fuel e = absurd (cc)

>>=-Ends :
    {A B : Type 0} {o : Outcome A} {f : A → Outcome B}
    → Ends o
    → ((a : A) → Ends (f a))
    → Ends (o >>= f)
>>=-Ends (with_result a) k = k a
>>=-Ends with_fault k = with_fault

if-Ends : {A : Type 0} (b : Bool) {x y : Outcome A} → Ends x → Ends y → Ends (if b then x else y)
if-Ends true h k = h
if-Ends false h k = k

module _ (p : Platform) where
  open p use {Event}

  configure_global-Ends :
      (m : Machine Event) (type value : ℤ) (is_set : Bool)
      → Ends (configure_global p m type value is_set)
  unfolding configure_global
  configure_global-Ends m type value is_set = tested _ (ground arith)

  configure_key-Ends :
      (m : Machine Event) (type : ℤ) (key : ℕ) (value : ℤ) (is_set : Bool)
      → Ends (configure_key p m type key value is_set)
  unfolding configure_key
  configure_key-Ends m type key value is_set = tested _ (ground arith)

  configure_twins-Ends :
      (m : Machine Event) (type : ℤ) (key twin : ℕ) (value : ℤ) (is_set : Bool)
      → Ends (configure_twins p m type key twin value is_set)
  unfolding configure_twins
  configure_twins-Ends m type key twin value is_set = tested _ (ground arith)

binary_values-Ends :
    (fork : ℕ → Outcome ℕ) (key left top : ℕ)
    → ((i : ℕ) → Ends (fork i))
    → Ends (binary_values fork key left top)
unfolding binary_values
binary_values-Ends fork key zero top h = with_result _
binary_values-Ends fork key (suc left) top h = >>=-Ends (h key) (λ value.
    if-Ends (value != 0)
      (>>=-Ends
        (if-Ends (suc top == max_forks) (with_result _)
          (binary_values-Ends fork (suc key) left (suc top) h))
        (λ values. with_result _))
      (binary_values-Ends fork (suc key) left top h))

module _ (mask : KeyFlags) (wdf : Framework) where
  pub set_fork-Ends :
      (m : Machine ExtendedEvent) (stack : ℕ → ℤ) (words : List ℤ)
      → Ends (set_fork mask wdf m stack words)
  unfolding set_fork machine_configure
  set_fork-Ends m stack words =
      if-Ends _ (>>=-Ends (configure_global-Ends _ m _ _ true) (λ r. with_result _)) (
        if-Ends _ (>>=-Ends (configure_key-Ends _ m _ _ _ true) (λ r. with_result _)) (
          if-Ends _ (>>=-Ends (configure_twins-Ends _ m _ _ _ _ true) (λ r. with_result _))
            (with_result _)))

  module _ (calls : RegistryCalls) where
    save_global_value-Ends :
        (k : calls.WdfKey) (name : ValueName) (m : Machine ExtendedEvent) (attribute : ℕ)
        → Ends (save_global_value mask wdf calls k name m attribute)
    unfolding save_global_value
    save_global_value-Ends k name m attribute =
        >>=-Ends (configure_global-Ends _ m _ _ false) (λ r. with_result _)

    fork_of-Ends : (m : Machine ExtendedEvent) (key : ℕ) → Ends (fork_of mask wdf calls m key)
    unfolding fork_of
    fork_of-Ends m key = >>=-Ends (configure_key-Ends _ m _ key _ false) (λ r. with_result _)

    pub save-Ends :
        (k : calls.WdfKey) (m : Machine ExtendedEvent)
        → Ends (save_configuration_to_registry mask wdf calls k m)
    unfolding save_configuration_to_registry
    save-Ends k m = >>=-Ends (save_global_value-Ends k _ m _) (λ k1.
        >>=-Ends (save_global_value-Ends k1.1 _ m _) (λ k2.
          >>=-Ends (save_global_value-Ends k2.1 _ m _) (λ k3.
            >>=-Ends (save_global_value-Ends k3.1 _ m _) (λ k4.
              >>=-Ends (binary_values-Ends _ 0 512 0 (fork_of-Ends m)) (λ values. with_result _)))))

    pub input_words-Ends :
        (io : Requests) (forks : ForkRequests io calls) (length : ℕ) (w : io.World)
        → Ends (input_words mask wdf calls io forks length w)
    unfolding input_words
    input_words-Ends io forks length w = if-Ends (length == 0) (with_result _) (
        if-Ends (io.nt_success (forks.retrieve_input_buffer w).0) (with_result _)
          (if-Ends (ltb length 4) (with_result _) with_fault))
