-- ===== src/Platform.antt =====
-- src/platform.h, with the template parameters of src/machine.h: what the forking machine uses of
-- the platform. `World` is the state of the platform and of all that stands downstream.
use fork_plugin.Prelude.{ℕ, ◌≡◌, Bool, true, false}

pub record Platform : Type 1 where
  pub Event : Type 0
  pub World : Type 0
  pub press_p : Event → Bool
  pub release_p : Event → Bool
  pub time_of : Event → ℕ
  pub detail_of : Event → ℕ
  pub rewrite_event : Event → ℕ → Event
  pub ignore_event : World → Event → Bool
  pub output_frozen : World → Bool
  pub relay_event : Event → World → World
  pub push_time : ℕ → World → World
  -- the moduli of the types Keycode and Time, the parameter MAX_KEYCODE, and whether the build
  -- defines VERIFICATION_MATRIX
  pub keycode_mod : ℕ
  pub time_mod : ℕ
  pub max_keycode : ℕ
  pub verification_matrix : Bool

-- What the machine relies on: an event is not a press and a release at once, and rewriting changes
-- the key code alone.
pub record IsLawful (p : Platform) : Type 0 where
  pub press_not_release : (e : p.Event) → p.press_p e ≡ true → p.release_p e ≡ false
  pub detail_of-rewrite_event :
      (e : p.Event) (code : ℕ) → p.detail_of (p.rewrite_event e code) ≡ code
  pub time_of-rewrite_event :
      (e : p.Event) (code : ℕ) → p.time_of (p.rewrite_event e code) ≡ p.time_of e
  pub press_p-rewrite_event :
      (e : p.Event) (code : ℕ) → p.press_p (p.rewrite_event e code) ≡ p.press_p e
  pub release_p-rewrite_event :
      (e : p.Event) (code : ℕ) → p.release_p (p.rewrite_event e code) ≡ p.release_p e
  pub rewrite_event_twice :
      (e : p.Event) (code again : ℕ)
      → p.rewrite_event (p.rewrite_event e code) again ≡ p.rewrite_event e again
