-- ===== src/Config/Times.antt =====
-- src/fork_configuration.h: the times that a configuration gives.
use fork_plugin.Prelude.{ℕ, ◌+◌, ◌%◌, ◌≤◌, ◌<◌, ◌≡◌, ◌⊎◌, Bool, false, arith}
use fork_plugin.Config.{
  ForkConfiguration, fork_configuration, verification_interval_of, overlap_tolerance_of,
  verifier_decision_time,
}

-- A newly constructed configuration, whatever its memory held, forks and repeats no key below 256,
-- and gives an interval of 200 ms and a tolerance of 100 ms for every pair of such keys, with or
-- without matrices.
pub fork_configuration-defaults :
    (matrices : Bool) (raw : ForkConfiguration) (i j : ℕ)
    → i < 256
    → j < 256
    → ((fork_configuration raw).fork_keycode i ≡ 0)
      × ((fork_configuration raw).fork_repeatable i ≡ false)
      × (verification_interval_of matrices (fork_configuration raw) i j ≡ 200)
      × (overlap_tolerance_of matrices (fork_configuration raw) i j ≡ 100)
unfolding fork_configuration verification_interval_of overlap_tolerance_of
fork_configuration-defaults matrices raw i j hi hj = ground arith

-- The verifier's decision time is no later than the end of the suspect's own interval and than that
-- of the overlap tolerance, both in the arithmetic of the type Time, and it is one of them.
pub verifier_decision_time-min :
    (matrices : Bool) (time_mod : ℕ) (c : ForkConfiguration) (suspect t verificator v : ℕ)
    → let limit = (t + verification_interval_of matrices c suspect verificator) % time_mod in
      let overlap = (v + overlap_tolerance_of matrices c suspect verificator) % time_mod in
      let d = verifier_decision_time matrices time_mod c suspect t verificator v in
      (d ≤ limit) × (d ≤ overlap) × ((d ≡ limit) ⊎ (d ≡ overlap))
unfolding verifier_decision_time
verifier_decision_time-min matrices time_mod c suspect t verificator v = ground arith
