-- ===== src/Circular/Iterators.antt =====
-- src/circular.h: the class circular_buffer_iterator. An iterator is the
-- identity of the buffer that it points to and a position of size_type; a difference is an integer.
use fork_plugin.Prelude.Int.{ℤ, pos, negsuc, to_unsigned}
use fork_plugin.Prelude.{
  ℕ, zero, suc, ◌+◌, ◌-◌, ◌%◌, ◌^◌, ◌<◌, ◌≡◌, ◌≢◌, refl, ap, ◌∙◌, Bool, true, false, ◌&&◌, Option,
  none, some, List, [], ◌∷◌, map, arith, length, ltb, leb, ◌==◌, ◌!=◌, if◌then◌else◌, get_elem?,
  ==_iff,
}
use fork_plugin.Circular.{Circular, size, size_mod, size_add, size_sub, at_unchecked}
use fork_plugin.Circular.Refine.{Holds}

pub record Iterator : Type 0 where
  pub buf : ℕ
  pub pos_ : ℕ

-- `operator++`, `operator--`, and what their postfix forms return with the iterator after them.
unfoldable pub increment : Iterator → Iterator
increment i = record i { pos_ = size_add i.pos_ 1 }

unfoldable pub decrement : Iterator → Iterator
decrement i = record i { pos_ = size_sub i.pos_ 1 }

unfoldable pub post_increment : Iterator → Iterator × Iterator
unfolding increment
post_increment i = (i, increment i)

unfoldable pub post_decrement : Iterator → Iterator × Iterator
unfolding decrement
post_decrement i = (i, decrement i)

-- `operator+`, `operator-` and their assigning forms; the difference is converted to size_type.
unfoldable pub plus : Iterator → ℤ → Iterator
plus i n = record i { pos_ = size_add i.pos_ (to_unsigned size_mod n) }

unfoldable pub minus : Iterator → ℤ → Iterator
minus i n = record i { pos_ = size_sub i.pos_ (to_unsigned size_mod n) }

-- The conversion of a value of size_type to difference_type.
unfoldable pub to_difference : ℕ → ℤ
to_difference n = if ltb n (2 ^ 63) then pos n else negsuc (size_mod - 1 - n)

unfoldable pub distance : Iterator → Iterator → ℤ
distance i c = to_difference (size_sub i.pos_ c.pos_)

-- The comparisons; operator!= asks for the same buffer, as operator== does.
unfoldable pub same_place : Iterator → Iterator → Bool
same_place i other = i.pos_ == other.pos_ && i.buf == other.buf

unfoldable pub other_place : Iterator → Iterator → Bool
other_place i other = i.pos_ != other.pos_ && i.buf == other.buf

unfoldable pub after : Iterator → Iterator → Bool
after i other = ltb other.pos_ i.pos_

unfoldable pub not_before : Iterator → Iterator → Bool
not_before i other = leb other.pos_ i.pos_

unfoldable pub before : Iterator → Iterator → Bool
before i other = ltb i.pos_ other.pos_

unfoldable pub not_after : Iterator → Iterator → Bool
not_after i other = leb i.pos_ other.pos_

module _ {A : Type 0} where
  abbrev pub begin : ℕ → Circular A → Iterator
  begin id b = record { buf = id; pos_ = 0 }

  abbrev pub end : ℕ → Circular A → Iterator
  end id b = record { buf = id; pos_ = size b }

  -- `*i`, where `b` is the buffer that it points to.
  abbrev pub dereference : Circular A → Iterator → Option A
  dereference b i = at_unchecked b i.pos_

  -- `while (from != to) { ... *from ...; ++from; }`: what is read, in order.
  unfoldable pub walk : ℕ → Circular A → Iterator → Iterator → Option (List (Option A))
  unfolding increment other_place
  walk zero b from to = none
  walk (suc fuel) b from to =
      let rest = walk fuel b (increment from) to in
      if other_place from to
      then elim rest [ none ↦ none | some xs ↦ some (dereference b from ∷ xs) ]
      else some []

  walk-lem :
      (fuel : ℕ) (id : ℕ) {b : Circular A} (done : ℕ) (xs ys : List A)
      → Holds b xs
      → ((i : ℕ) → i < length ys → at_unchecked b (done + i) ≡ get_elem? ys i)
      → done + length ys ≡ length xs
      → length ys < fuel
      → walk fuel b (record { buf = id; pos_ = done }) (end id b) ≡ some (map some ys)
  unfolding walk increment other_place
  walk-lem zero id done xs ys h same e f = absurd (omega arith)
  walk-lem (suc fuel) id {b} done xs [] h same e f =
      let stay : (done != b.contents_size) ≡ false = ground (arith, h.sized) in rw stay refl
  walk-lem (suc fuel) id {b} done xs (y ∷ ys) h same e f =
      let go : (done != b.contents_size) ≡ true = ground (arith, h.sized) in
      let here : (id == id) ≡ true = (==_iff id id).1 refl in
      let up : size_add done 1 ≡ done + 1 = ground (arith, h.sized, h.valid.fits, h.valid.small) in
      let at_first : at_unchecked b done ≡ some y =
        ap (λ n. at_unchecked b n) (omega arith) ∙ same 0 (omega arith) in
      let rest =
        walk-lem fuel id (done + 1) xs ys h
          (λ i l. ap (λ n. at_unchecked b n) (omega arith) ∙ same (suc i) (omega arith))
          (omega arith) (omega arith) in
      rw (go, here, up) (rw rest (ap (λ o. some (o ∷ map some ys)) at_first))

  -- Walking from begin() to end() with operator!= and operator++ ends and reads the elements that the
  -- buffer holds, in order.
  pub walk-Holds :
      (fuel id : ℕ) {b : Circular A} (xs : List A)
      → Holds b xs
      → length xs < fuel
      → walk fuel b (begin id b) (end id b) ≡ some (map some xs)
  walk-Holds fuel id {b} xs h f =
      walk-lem fuel id 0 xs xs h (λ i l. ap (λ n. at_unchecked b n) (omega arith) ∙ h.reads i l)
        (omega arith) f

  -- With operator!= as it is, walking up to an iterator of another buffer reads nothing.
  walk-other :
      (fuel : ℕ) (b : Circular A) (from to : Iterator)
      → from.buf ≢ to.buf
      → walk (suc fuel) b from to ≡ some []
  unfolding walk other_place
  walk-other fuel b from to ne =
      let stay : (from.pos_ != to.pos_ && from.buf == to.buf) ≡ false = ground arith in rw stay refl

-- The number with a minus sign.
abbrev pub negative : ℕ → ℤ
negative zero = pos 0
negative (suc k) = negsuc k

to_unsigned-negative :
    (n : ℕ) → n < 2 ^ 63 → to_unsigned size_mod (negative n) ≡ (size_mod - n) % size_mod
unfolding to_unsigned
to_unsigned-negative zero h = refl
to_unsigned-negative (suc k) h = omega arith

to_difference-negative :
    (n : ℕ) → n < 2 ^ 63 → to_difference ((size_mod - n) % size_mod) ≡ negative n
unfolding to_difference
to_difference-negative zero h = refl
to_difference-negative (suc k) h = ground arith

-- For an iterator and a difference below 2^63 with which its position stays a value of size_type,
-- operator+ and operator- undo each other, adding the negative difference goes back as well, both
-- distances are as expected, and operator<, operator>, operator<= and operator>= compare the two
-- places as the difference says.
pub plus-minus :
    (i : Iterator) (n : ℕ)
    → i.pos_ + n < size_mod
    → n < 2 ^ 63
    → let j = plus i (pos n) in
      (minus j (pos n) ≡ i)
      × (plus j (negative n) ≡ i)
      × (distance j i ≡ pos n)
      × (distance i j ≡ negative n)
      × (before i j ≡ (n != 0))
      × (after i j ≡ false)
      × (not_after i j ≡ true)
      × (not_before i j ≡ (n == 0))
unfolding plus minus distance before after not_before not_after to_unsigned to_difference
plus-minus i n h k =
    let there : size_add i.pos_ (n % size_mod) ≡ i.pos_ + n = ground arith in
    let up : size_sub (i.pos_ + n) i.pos_ ≡ n = omega arith in
    let down : size_sub i.pos_ (i.pos_ + n) ≡ (size_mod - n) % size_mod = omega arith in
    let back : size_sub (i.pos_ + n) (n % size_mod) ≡ i.pos_ = ground arith in
    (
      ap (λ q. record i { pos_ = q }) (rw there back),
      ap (λ q. record i { pos_ = q }) (rw (there, to_unsigned-negative n k) (omega arith)),
      rw there (ap to_difference up ∙ ground arith),
      rw there (ap to_difference down ∙ to_difference-negative n k),
      rw there (ground arith),
      rw there (ground arith),
      rw there (ground arith),
      rw there (ground arith),
    )
