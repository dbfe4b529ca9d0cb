-- ===== src/Circular.antt =====
-- src/circular.h: the class circular_buffer. The raw storage is a list of slots, and `none` is a
-- slot that holds no constructed object; a read of one, or of a place outside the storage, gives
-- `none`. Positions and counts are of `size_type`, whose arithmetic wraps at 2^64.
pub mod Valid
pub mod Refine
pub mod Full
pub mod Assign
pub mod Copies
pub mod Compare
pub mod Runs
pub mod Iterators
pub mod Less
use fork_plugin.Prelude.{
  ℕ, zero, suc, ◌+◌, ◌-◌, ◌*◌, ◌/◌, ◌%◌, ◌^◌, Bool, true, false, ◌&&◌, not, Option, none, some,
  List, [], ◌∷◌, replicate, get_or, set, ltb, leb, ◌==◌, if◌then◌else◌,
}

abbrev pub size_mod : ℕ
size_mod = 2 ^ 64

abbrev pub size_add : ℕ → ℕ → ℕ
size_add a b = (a + b) % size_mod

abbrev pub size_sub : ℕ → ℕ → ℕ
size_sub a b = (a + size_mod - b) % size_mod

pub record Circular {ℓ} (A : Type ℓ) : Type ℓ where
  pub array : List (Option A)
  pub array_size : ℕ
  pub head : ℕ
  pub tail : ℕ
  pub contents_size : ℕ

-- `at` either yields a reference, whose object may be missing, or throws.
pub data Access {ℓ} (A : Type ℓ) : Type ℓ where
  value : Option A → Access A
  out_of_range : Access A

module _ {ℓ} {A : Type ℓ} where
  unfoldable pub circular_buffer : ℕ → Circular A
  circular_buffer capacity = record {
    array = replicate capacity none;
    array_size = capacity;
    head = 1;
    tail = 0;
    contents_size = 0;
  }

  abbrev pub size : Circular A → ℕ
  size b = b.contents_size

  abbrev pub capacity : Circular A → ℕ
  capacity b = b.array_size

  abbrev pub empty : Circular A → Bool
  empty b = b.contents_size == 0

  -- `alloc_.construct`, `alloc_.destroy` and a read, at a place of the storage.
  abbrev pub construct : Circular A → ℕ → A → Circular A
  construct b i x = record b { array = set b.array i (some x) }

  abbrev pub destroy : Circular A → ℕ → Circular A
  destroy b i = record b { array = set b.array i none }

  abbrev pub load : Circular A → ℕ → Option A
  load b i = get_or b.array i none

  abbrev pub normalise : Circular A → ℕ → ℕ
  normalise b n = n % b.array_size

  abbrev pub index_to_subscript : Circular A → ℕ → ℕ
  index_to_subscript b index = normalise b (size_add index b.head)

  abbrev pub next_tail : Circular A → ℕ
  next_tail b = if size_add b.tail 1 == b.array_size then 0 else size_add b.tail 1

  unfoldable pub increment_tail : Circular A → Circular A
  increment_tail b = record b { contents_size = size_add b.contents_size 1; tail = next_tail b }

  unfoldable pub increment_head : Circular A → Circular A
  increment_head b = record b {
    head = (if size_add b.head 1 == b.array_size then 0 else size_add b.head 1);
    contents_size = size_sub b.contents_size 1;
  }

  unfoldable pub front : Circular A → Option A
  front b = load b b.head

  unfoldable pub back : Circular A → Option A
  back b = load b b.tail

  -- `always_accept` is the template parameter always_accept_data_when_full.
  unfoldable pub push_back : Bool → Circular A → A → Circular A
  unfolding increment_tail increment_head
  push_back always_accept b item =
      let next = next_tail b in
      increment_tail (
        if b.contents_size == b.array_size
        then (if always_accept then increment_head (construct b next item) else b)
        else construct b next item)

  unfoldable pub pop_front : Circular A → Circular A
  unfolding increment_head
  pop_front b = destroy (increment_head b) b.head

  unfoldable pub at_unchecked : Circular A → ℕ → Option A
  at_unchecked b index = load b (index_to_subscript b index)

  unfoldable pub at_checked : Circular A → ℕ → Access A
  unfolding at_unchecked
  at_checked b index =
      if leb b.contents_size index then out_of_range else value (at_unchecked b index)

  -- A write through the reference that `operator[]` returns.
  unfoldable pub write_at : Circular A → ℕ → A → Circular A
  write_at b index x = construct b (index_to_subscript b index) x

  -- The loop of destroy_all_elements, with `rounds` elements left from index `n` on.
  unfoldable pub destroy_from : ℕ → ℕ → Circular A → Circular A
  destroy_from zero n b = b
  destroy_from (suc rounds) n b = destroy_from rounds (n + 1) (destroy b (index_to_subscript b n))

  unfoldable pub destroy_all_elements : Circular A → Circular A
  unfolding destroy_from
  destroy_all_elements b = destroy_from b.contents_size 0 b

  unfoldable pub clear : Circular A → Circular A
  unfolding destroy_all_elements
  clear b = record (destroy_all_elements b) { head = 1; tail = 0; contents_size = 0 }

  -- The loop of assign_into, over the values between the two iterators.
  unfoldable pub push_all : Bool → Circular A → List A → Circular A
  push_all always_accept b [] = b
  push_all always_accept b (x ∷ xs) = push_all always_accept (push_back always_accept b x) xs

  unfoldable pub assign_into : Bool → Circular A → List A → Circular A
  unfolding push_all clear
  assign_into always_accept b from = push_all always_accept (if empty b then b else clear b) from

  -- The values from begin() to end(), `rounds` of them from index `n` on.
  unfoldable pub read_from : ℕ → ℕ → Circular A → List (Option A)
  read_from zero n b = []
  read_from (suc rounds) n b = at_unchecked b n ∷ read_from rounds (n + 1) b

  unfoldable pub elements : Circular A → List (Option A)
  unfolding read_from
  elements b = read_from (size b) 0 b
