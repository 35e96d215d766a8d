-- ===== src/Base/Bits.antt =====
-- The bits of a number, lowest first, and the operations on words of so many bits.
use Prim.Native.Nat.{min, max}
use kerrighed_tools.Base.Tests.{ltb, ◌==◌, if◌then◌else◌}
use mathlib.Core.Path.{◌≡◌, refl}
use native.Mathlib.Omega.{arith}
use Prim.Native.Nat.{ℕ, zero, suc, ◌+◌, ◌-◌, ◌*◌, ◌/◌, ◌%◌, ◌≤◌, ◌<◌}

-- Bit `i` of `w`.
abbrev pub bit : ℕ → ℕ → ℕ
bit zero w = w % 2
bit (suc i) w = bit i (w / 2)

-- 1 << i
abbrev pub shl : ℕ → ℕ
shl zero = 1
shl (suc i) = shl i * 2

-- The word of `k` ones.
abbrev pub ones : ℕ → ℕ
ones zero = 0
ones (suc k) = ones k * 2 + 1

-- `~w` on a word of `k` bits, in which `w` lies.
abbrev pub complement : ℕ → ℕ → ℕ
complement k w = ones k - w

-- Bit by bit, on words of `k` bits.
combine : (ℕ → ℕ → ℕ) → ℕ → ℕ → ℕ → ℕ
combine op zero v w = 0
combine op (suc k) v w = op (v % 2) (w % 2) + 2 * combine op k (v / 2) (w / 2)

-- `v & w` and `v | w`
unfoldable pub word_and : ℕ → ℕ → ℕ → ℕ
unfolding combine
word_and = combine min

unfoldable pub word_or : ℕ → ℕ → ℕ → ℕ
unfolding combine
word_or = combine max

-- An operation on two bits gives a bit.
abbrev IsBitwise : (ℕ → ℕ → ℕ) → Type 0
IsBitwise op = (x y : ℕ) → x ≤ 1 → y ≤ 1 → op x y ≤ 1

pub bit_bound : (i w : ℕ) → bit i w ≤ 1
bit_bound zero w = omega arith
bit_bound (suc i) w = bit_bound i (w / 2)

module _ (op : ℕ → ℕ → ℕ) (bitwise : IsBitwise op) where
  bit-combine : (k i v w : ℕ) → i < k → bit i (combine op k v w) ≡ op (bit i v) (bit i w)
  unfolding combine
  bit-combine zero i v w h = absurd (omega arith)
  bit-combine (suc k) zero v w h =
      omega (arith, bitwise (v % 2) (w % 2) (omega arith) (omega arith))
  bit-combine (suc k) (suc i) v w h =
      let half : (op (v % 2) (w % 2) + 2 * combine op k (v / 2) (w / 2)) / 2
          ≡ combine op k (v / 2) (w / 2) =
        omega (arith, bitwise (v % 2) (w % 2) (omega arith) (omega arith)) in
      rw half (bit-combine k i (v / 2) (w / 2) (omega arith))

  combine_bound : (k v w : ℕ) → combine op k v w ≤ ones k
  unfolding combine
  combine_bound zero v w = omega arith
  combine_bound (suc k) v w =
      omega (
        arith,
        bitwise (v % 2) (w % 2) (omega arith) (omega arith),
        combine_bound k (v / 2) (w / 2),
      )

pub bit-word_and : (k i v w : ℕ) → i < k → bit i (word_and k v w) ≡ min (bit i v) (bit i w)
unfolding word_and
bit-word_and k i v w h = bit-combine min (λ x y p q. omega arith) k i v w h

pub bit-word_or : (k i v w : ℕ) → i < k → bit i (word_or k v w) ≡ max (bit i v) (bit i w)
unfolding word_or
bit-word_or k i v w h = bit-combine max (λ x y p q. omega arith) k i v w h

pub word_or_bound : (k v w : ℕ) → word_or k v w ≤ ones k
unfolding word_or
word_or_bound k v w = combine_bound max (λ x y p q. omega arith) k v w

pub bit_of_zero : (i : ℕ) → bit i 0 ≡ 0
bit_of_zero zero = refl
bit_of_zero (suc i) = bit_of_zero i

pub bit-shl : (i j : ℕ) → bit i (shl j) ≡ (if j == i then 1 else 0)
bit-shl zero zero = refl
bit-shl zero (suc j) = ground arith
bit-shl (suc i) zero = ground (arith, bit_of_zero i)
bit-shl (suc i) (suc j) =
    let half : shl j * 2 / 2 ≡ shl j = omega arith in rw half (ground (arith, bit-shl i j))

pub bit-complement :
    (k i w : ℕ) → w ≤ ones k → bit i (complement k w) ≡ (if ltb i k then 1 - bit i w else 0)
bit-complement zero i w h = let e : 0 - w ≡ 0 = omega arith in rw e (ground (arith, bit_of_zero i))
bit-complement (suc k) zero w h = ground (arith)
bit-complement (suc k) (suc i) w h =
    let half : (ones k * 2 + 1 - w) / 2 ≡ ones k - w / 2 = omega arith in
    rw half (ground (arith, bit-complement k i (w / 2) (omega arith)))
