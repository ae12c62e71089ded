-- ===== src/Runtime/Mask.antt =====
-- The masks of `_wyinstr_mark_eval`, wyinstr.cpp: the words `1 << k` for k below 32.
use Prim.Native.Nat.{bit_and, bit_or}
use wyvern.Base.{
  ℕ, zero, suc, ◌+◌, ◌-◌, ◌^◌, ◌≤◌, ◌<◌, ◌≡◌, ◌≢◌, refl, Bool, true, false, ◌&&◌, ◌||◌, not, arith,
  ltb, ◌==◌, ==_iff, Bool-cases, inl, inr, if◌then◌else◌,
}
use wyvern.Base.Int.{pos}
use wyvern.Base.Bits.{bit_and-bit_or_self, bit_and-bit_or_apart, zero-bit_and}
use wyvern.Runtime.{ok, fault, bad_shift, arg_mask}

-- The word at bit k.
unfoldable pub mask : ℕ → ℕ
mask k = if ltb k 31 then 2 ^ k else 2 ^ 64 - 2 ^ 31

pub arg_mask-mask : (k : ℕ) → k < 32 → arg_mask (pos k) ≡ ok (mask k)
unfolding arg_mask mask
arg_mask-mask k h = ground arith

pub arg_mask_wide : (k : ℕ) → 32 ≤ k → arg_mask (pos k) ≡ fault bad_shift
unfolding arg_mask
arg_mask_wide k h = ground arith

-- A test of the numbers from i on, and what it says of each of them.
every : (ℕ → Bool) → ℕ → ℕ → Bool
every p i zero = true
every p i (suc count) = p i && every p (suc i) count

every-at :
    (p : ℕ → Bool) (count i x : ℕ) → every p i count ≡ true → i ≤ x → x < i + count → p x ≡ true
unfolding every
every-at p zero i x h low high = absurd (omega arith)
every-at p (suc count) i x h low high = ground (arith, every-at p count (suc i) x)

apart : ℕ → ℕ → Bool
unfolding mask
apart j k = j == k || bit_and (mask j) (mask k) == 0

apart_table : every (λ j. every (apart j) 0 32) 0 32 ≡ true
unfolding every apart
apart_table = refl

apart_below : (j k : ℕ) → j < 32 → k < 32 → apart j k ≡ true
apart_below j k hj hk =
    every-at (apart j) 32 0 k
      (every-at (λ j. every (apart j) 0 32) 32 0 j apart_table (omega arith) hj) (omega arith) hk

set_table : every (λ k. not (mask k == 0)) 0 32 ≡ true
unfolding every mask
set_table = refl

pub mask-ne-zero : (k : ℕ) → k < 32 → mask k ≢ 0
mask-ne-zero k h e =
    ground (arith, every-at (λ k. not (mask k == 0)) 32 0 k set_table (omega arith) h)

-- Two masks share no bit.
bit_and-mask_ne : (j k : ℕ) → j < 32 → k < 32 → j ≢ k → bit_and (mask j) (mask k) ≡ 0
unfolding apart
bit_and-mask_ne j k hj hk ne = ground (arith, apart_below j k hj hk)

-- The test of the code: whether the bitmap lacks argument k.
unfoldable pub is_first : ℕ → ℕ → Bool
is_first bits k = bit_and bits (mask k) == 0

pub is_first_zero : (k : ℕ) → is_first 0 k ≡ true
unfolding is_first
is_first_zero k = ground (arith, zero-bit_and (mask k))

-- Setting argument k's bits clears the test for k, and for no other argument.
pub is_first-bit_or :
    (bits k j : ℕ)
    → k < 32
    → j < 32
    → is_first (bit_or bits (mask k)) j ≡ (if k == j then false else is_first bits j)
unfolding is_first
is_first-bit_or bits k j hk hj = elim (Bool-cases (k == j)) [
  | inl e ↦
      rw (← (==_iff k j).0 e) (ground (arith, bit_and-bit_or_self bits (mask k), mask-ne-zero k hk))
  | inr e ↦ ground (arith, bit_and-bit_or_apart bits (mask k) (mask j), bit_and-mask_ne k j hk hj)
]
