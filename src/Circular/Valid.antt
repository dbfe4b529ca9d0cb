-- ===== src/Circular/Valid.antt =====
-- src/circular.h: the representation invariant of circular_buffer.
use fork_plugin.Prelude.{
  ℕ, ◌+◌, ◌-◌, ◌%◌, ◌≤◌, ◌<◌, ◌≡◌, Bool, Option, none, some, arith, length, length-set,
  length-replicate, ltb, if◌then◌else◌,
}
use native.Mathlib.Decide.{dec_lt}
use native.Mathlib.Nat.{mod-eq_of_lt, mod-eq-sub-mod}
use fork_plugin.Circular.{
  Circular, circular_buffer, push_back, pop_front, write_at, next_tail, index_to_subscript,
  size_mod,
}

-- `n`, brought back into the storage when it is at most once round.
abbrev pub turn : ℕ → ℕ → ℕ
turn cap n = if ltb n cap then n else n - cap

-- The positions lie in the storage, which the count does not exceed, and the place behind the tail
-- is the one that the count reaches from the head.
pub record IsValid {ℓ} {A : Type ℓ} (b : Circular A) : Type 0 where
  pub storage : length b.array ≡ b.array_size
  pub two : 2 ≤ b.array_size
  pub small : b.array_size + b.array_size ≤ size_mod
  pub head_in : b.head < b.array_size
  pub tail_in : b.tail < b.array_size
  pub fits : b.contents_size ≤ b.array_size
  pub joined : turn b.array_size (b.tail + 1) ≡ turn b.array_size (b.head + b.contents_size)

pub mod-eq-turn : (cap n : ℕ) → n < cap + cap → n % cap ≡ turn cap n
mod-eq-turn cap n h = elim (dec_lt n cap) [
  | yes p ↦ ground (arith, mod-eq_of_lt p)
  | no p ↦ ground (
    arith,
    mod-eq-sub-mod {n = n} {m = cap} (omega arith),
    mod-eq_of_lt {n = n - cap} {m = cap} (omega arith),
  )
]

module _ {ℓ} {A : Type ℓ} where
  pub circular_buffer-IsValid :
      (n : ℕ) → 2 ≤ n → n + n ≤ size_mod → IsValid (circular_buffer {A = A} n)
  unfolding circular_buffer
  circular_buffer-IsValid n h k =
      let raw : Option A = none in ground (arith, length-replicate n raw)

  -- The next element goes where the count reaches from the head.
  pub next_tail-eq-subscript :
      {b : Circular A} → IsValid b → next_tail b ≡ index_to_subscript b b.contents_size
  next_tail-eq-subscript {b} v = ground (arith, mod-eq-turn b.array_size (b.contents_size + b.head))

  pub push_back-IsValid :
      (accept : Bool) {b : Circular A} (x : A)
      → IsValid b
      → b.contents_size < b.array_size
      → IsValid (push_back accept b x)
  unfolding push_back
  push_back-IsValid accept {b} x v room = ground (arith, length-set b.array (next_tail b) (some x))

  pub pop_front-IsValid : {b : Circular A} → IsValid b → 0 < b.contents_size → IsValid (pop_front b)
  unfolding pop_front
  pop_front-IsValid {b} v left =
      let raw : Option A = none in ground (arith, length-set b.array b.head raw)

  pub write_at-IsValid : {b : Circular A} (i : ℕ) (x : A) → IsValid b → IsValid (write_at b i x)
  unfolding write_at
  write_at-IsValid {b} i x v = ground (arith, length-set b.array (index_to_subscript b i) (some x))
