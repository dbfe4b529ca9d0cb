-- ===== src/Windows/Events.antt =====
-- windows/win-environment.h and windows/sys/kbfiltr.cpp: key codes of extended keys, due times of the
-- timer, and requests to configure the machine.
use fork_plugin.Prelude.Int.{ℤ, pos, to_unsigned, to_int}
use fork_plugin.Prelude.{
  ℕ, zero, suc, [], ◌∷◌, ◌∙◌, sym, ◌+◌, ◌-◌, ◌*◌, ◌/◌, ◌%◌, ◌==◌, ◌&&◌, ◌^◌, ◌≤◌, ◌<◌, ◌≡◌, ◌↔◌,
  refl, ap, false, List, arith, length, get_or, Bool-cases, inl, inr,
}
use fork_plugin.Machine.{Machine}
use fork_plugin.Windows.{KeyFlags, ExtendedEvent, detail_of, rewrite_event}
use fork_plugin.Windows.Driver.{
  Framework, due_time, minus, subtype_n_args, machine_configure, request_values, set_fork,
}

-- A rewritten event has the code that it is given exactly if the code has bit 8 where the event has
-- the flag E0, and bit 9 where it has the flag E1, since the flags are left as they were.
pub detail_of-rewrite_event :
    (mask : KeyFlags) (e : ExtendedEvent) (code : ℕ)
    → (detail_of mask (rewrite_event mask e code) ≡ code) ↔ (
        ((mask.key_e0 e.flags && code / 2 ^ 8 % 2 == 0) ≡ false)
        × ((mask.key_e1 e.flags && code / 2 ^ 9 % 2 == 0) ≡ false))
detail_of-rewrite_event mask e code = ground arith

-- A timer that is started for at most 214748 ms is due that long from the call, at minus 10000 times
-- as many units of 100 ns; one that is started for more, up to 429496 ms, is due at an absolute time
-- instead, since the product has 32 bits.
pub due_time-eq :
    (ms late : ℕ)
    → ms ≤ 214748
    → 214748 < late
    → late ≤ 429496
    → (due_time (pos ms) ≡ minus (ms * 10000))
      × (due_time (pos late) ≡ pos (4294967296 - late * 10000))
unfolding due_time to_unsigned to_int
due_time-eq ms late h k l = (ground arith, ground arith)

module _ (mask : KeyFlags) (wdf : Framework) where
  get_or-default : (xs : List ℤ) (i : ℕ) (a b : ℤ) → i < length xs → get_or xs i a ≡ get_or xs i b
  get_or-default [] i a b h = absurd (omega arith)
  get_or-default (x ∷ xs) zero a b h = refl
  get_or-default (x ∷ xs) (suc i) a b h = get_or-default xs i a b (omega arith)

  -- The words of a request, in its first five places, hide what the array held.
  request_values-eq :
      (stack : ℕ → ℤ) (words : List ℤ) (i : ℕ)
      → i < 5
      → i < length words
      → request_values mask wdf stack words i ≡ get_or words i (pos 0)
  unfolding request_values
  request_values-eq stack words i h k = ground (arith, get_or-default words i (stack i) (pos 0) k)

  -- machine_configure reads as many values as the command says.
  machine_configure-agree :
      (m : Machine ExtendedEvent) (f g : ℕ → ℤ) (n : ℕ)
      → subtype_n_args (g 0) ≡ n
      → ((i : ℕ) → i < n + 2 → i < 5 → f i ≡ g i)
      → machine_configure mask wdf m f ≡ machine_configure mask wdf m g
  unfolding machine_configure
  machine_configure-agree m f g n e same =
      rw (same 0 (omega arith) (omega arith)) (elim (Bool-cases (subtype_n_args (g 0) == 0)) [
        | inl global ↦ rw (global, same 1 (omega arith) (omega arith)) refl
        | inr n0 ↦ elim (Bool-cases (subtype_n_args (g 0) == 1)) [
          | inl local ↦
              rw
                (
                  n0,
                  local,
                  same 1 (omega arith) (omega arith),
                  same 2 (ground (arith, e)) (omega arith),
                )
                refl
          | inr n1 ↦ elim (Bool-cases (subtype_n_args (g 0) == 2)) [
            | inl twin ↦
                rw
                  (
                    n0,
                    n1,
                    twin,
                    same 1 (omega arith) (omega arith),
                    same 2 (ground (arith, e)) (omega arith),
                    same 3 (ground (arith, e)) (omega arith),
                  )
                  refl
            | inr other ↦ rw (n0, n1, other) refl
          ]
        ]
      ])

  -- A request to configure the machine that has two words more than the two low bits of its first
  -- word say does not depend on what the array of words held before.
  pub set_fork-fixed :
      (m : Machine ExtendedEvent) (stack stack' : ℕ → ℤ) (words : List ℤ)
      → subtype_n_args (get_or words 0 (pos 0)) + 2 ≤ length words
      → set_fork mask wdf m stack words ≡ set_fork mask wdf m stack' words
  unfolding set_fork
  set_fork-fixed m stack stack' words h =
      machine_configure-agree m (request_values mask wdf stack words)
        (request_values mask wdf stack' words) (subtype_n_args (get_or words 0 (pos 0)))
        (ap subtype_n_args (request_values-eq stack' words 0 (omega arith) (omega arith)))
        (λ i small five.
          request_values-eq stack words i five (omega arith)
          ∙ sym (request_values-eq stack' words i five (omega arith)))
