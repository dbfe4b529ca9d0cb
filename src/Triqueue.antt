-- ===== src/Triqueue.antt =====
-- src/triqueue.h: one circular buffer cut by two iterators into the output, the internal and the
-- input queue. An iterator is its position, of `size_type`. The buffer is instantiated with the
-- policy that does not accept data when full.
pub mod Places
pub mod Refine
pub mod Runs
use fork_plugin.Prelude.{ℕ, Bool, true, false, not, Option, none, some, ◌==◌, ◌!=◌, if◌then◌else◌}
use fork_plugin.Circular.{
  Circular, circular_buffer, size, empty as buffer_empty, push_back, pop_front, front, write_at,
  at_unchecked, size_add, size_sub,
}

pub record Triqueue (A : Type 0) : Type 0 where
  pub buffer : Circular A
  pub end_output : ℕ
  pub end_internal : ℕ

module _ {A : Type 0} where
  unfoldable pub triqueue : ℕ → Triqueue A
  triqueue capacity = record { buffer = circular_buffer capacity; end_output = 0; end_internal = 0 }

  unfoldable pub empty : Triqueue A → Bool
  empty q = buffer_empty q.buffer

  unfoldable pub middle_empty : Triqueue A → Bool
  middle_empty q = q.end_internal == q.end_output

  unfoldable pub third_empty : Triqueue A → Bool
  third_empty q = q.end_internal == size q.buffer

  unfoldable pub rewind_middle : Triqueue A → Triqueue A
  rewind_middle q = record q { end_internal = q.end_output }

  unfoldable pub push : Triqueue A → A → Triqueue A
  push q item = record q { buffer = push_back false q.buffer item }

  unfoldable pub can_pop : Triqueue A → Bool
  can_pop q = 0 != q.end_output

  -- The option is the object that front() refers to, if there is one.
  unfoldable pub pop : Triqueue A → Option A × Triqueue A
  pop q = (
    front q.buffer,
    record q {
      buffer = pop_front q.buffer;
      end_output = size_sub q.end_output 1;
      end_internal = size_sub q.end_internal 1;
    },
  )

  unfoldable pub peek_third : Triqueue A → Option A
  peek_third q = at_unchecked q.buffer q.end_internal

  unfoldable pub peek_middle : Triqueue A → Option A
  peek_middle q = at_unchecked q.buffer q.end_output

  unfoldable pub head : Triqueue A → Option A
  head q = front q.buffer

  -- What a caller writes through the references of peek_middle and peek_third.
  unfoldable pub write_middle : Triqueue A → A → Triqueue A
  write_middle q x = record q { buffer = write_at q.buffer q.end_output x }

  unfoldable pub write_third : Triqueue A → A → Triqueue A
  write_third q x = record q { buffer = write_at q.buffer q.end_internal x }

  unfoldable pub move_to_first : Triqueue A → Triqueue A
  unfolding middle_empty
  move_to_first q = if middle_empty q then q else record q { end_output = size_add q.end_output 1 }

  unfoldable pub move_to_second : Triqueue A → Triqueue A
  unfolding third_empty
  move_to_second q =
      if third_empty q then q else record q { end_internal = size_add q.end_internal 1 }

  -- A null pointer, or the object in front.
  unfoldable pub first : Triqueue A → Option (Option A)
  first q = if buffer_empty q.buffer then none else some (front q.buffer)
