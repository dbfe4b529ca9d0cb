-- ===== src/Config.antt =====
-- src/fork_configuration.h: the static state of the machine, its tables of key codes and times.
pub mod Times
use fork_plugin.Prelude.Int.{ℤ, pos}
use fork_plugin.Prelude.{ℕ, ◌+◌, ◌%◌, Bool, true, false, ◌&&◌, ltb, ◌==◌, ◌!=◌, if◌then◌else◌}

abbrev pub keycode_unused : ℕ
keycode_unused = 0

-- The tables have MAX_KEYCODE entries, and the matrices as many rows and columns. The functions here
-- are called with key codes below that: transition_by_key and the configuration calls of the machine
-- fault where they would index beyond the end.
pub record ForkConfiguration : Type 0 where
  pub fork_keycode : ℕ → ℕ
  pub fork_repeatable : ℕ → Bool
  pub overlap_tolerance : ℕ → ℕ → ℕ
  pub verification_interval : ℕ → ℕ → ℕ
  pub clear_interval : ℤ
  pub repeat_max : ℕ
  pub consider_forks_for_repeat : Bool
  pub debug : ℤ
  pub id : ℤ

-- A matrix that the constructor clears below 256 both ways, and sets at the global place.
abbrev pub cleared : (ℕ → ℕ → ℕ) → ℕ → ℕ → ℕ → ℕ
cleared raw fallback i j =
    if i == 0 && j == 0 then fallback else if ltb i 256 && ltb j 256 then 0 else raw i j

-- The constructor; `raw` is the memory as it was, which the loops overwrite up to index 255.
unfoldable pub fork_configuration : ForkConfiguration → ForkConfiguration
fork_configuration raw = record {
  fork_keycode = λ i. if ltb i 256 then keycode_unused else raw.fork_keycode i;
  fork_repeatable = λ i. if ltb i 256 then false else raw.fork_repeatable i;
  overlap_tolerance = cleared raw.overlap_tolerance 100;
  verification_interval = cleared raw.verification_interval 200;
  clear_interval = pos 0;
  repeat_max = 80;
  consider_forks_for_repeat = true;
  debug = pos 1;
  id = pos 0;
}

unfoldable pub get_value_from_matrix : (ℕ → ℕ → ℕ) → ℕ → ℕ → ℕ
get_value_from_matrix matrix code verificator =
    if matrix code verificator != 0
    then matrix code verificator
    else if matrix code 0 != 0
    then matrix code 0
    else matrix 0 0

-- `matrices` is VERIFICATION_MATRIX, and `time_mod` the modulus of the type Time.
module _ (matrices : Bool) where
  unfoldable pub verification_interval_of : ForkConfiguration → ℕ → ℕ → ℕ
  unfolding get_value_from_matrix
  verification_interval_of c code verificator =
      if matrices then get_value_from_matrix c.verification_interval code verificator else 200

  unfoldable pub overlap_tolerance_of : ForkConfiguration → ℕ → ℕ → ℕ
  unfolding get_value_from_matrix
  overlap_tolerance_of c code verificator =
      if matrices then get_value_from_matrix c.overlap_tolerance code verificator else 100

  unfoldable pub verifier_decision_time : ℕ → ForkConfiguration → ℕ → ℕ → ℕ → ℕ → ℕ
  verifier_decision_time time_mod c suspect suspect_time verificator_keycode verificator_time =
      let interval = verification_interval_of c suspect verificator_keycode in
      let one_key = (suspect_time + interval) % time_mod in
      let tolerance = overlap_tolerance_of c suspect verificator_keycode in
      let decision_point_time = (verificator_time + tolerance) % time_mod in
      if ltb decision_point_time one_key then decision_point_time else one_key
