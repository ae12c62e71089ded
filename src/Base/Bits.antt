-- ===== src/Base/Bits.antt =====
-- Laws of `bit_and` and `bit_or` at variables, by recursion on the digits.
use Prim.Native.Nat.{
  ℕ, zero, suc, ◌+◌, ◌*◌, ◌/◌, ◌%◌, ◌≤◌, min, max, bit_and, bit_or, digits, bit_and-bitwise,
  bit_or-bitwise,
}
use mathlib.Core.Path.{◌≡◌, refl}
use native.Mathlib.Omega.{arith}

-- A number that is zero has no digits, and one that is not has its last digit and its half's.
module _ (rest : ℕ → ℕ) (op : ℕ → ℕ → ℕ) where
  digits_enough : (x y n m : ℕ) → x ≤ m → x ≤ n → digits rest op n x y ≡ digits rest op m x y
  digits_enough (suc x) y zero m p q = absurd (omega arith)
  digits_enough (suc x) y (suc n) zero p q = absurd (omega arith)
  digits_enough zero y (suc n) (suc m) p q = refl
  digits_enough zero y zero (suc m) p q = refl
  digits_enough zero y (suc n) zero p q = refl
  digits_enough zero y zero zero p q = refl
  digits_enough (suc x) y (suc n) (suc m) p q =
      omega (arith, digits_enough (suc x / 2) (y / 2) n m (omega arith) (omega arith))

  digits_unroll :
      (x y : ℕ)
      → digits rest op (suc x) (suc x) y
        ≡ digits rest op (suc x / 2) (suc x / 2) (y / 2) * 2 + op (suc x % 2) (y % 2)
  digits_unroll x y =
      omega (arith, digits_enough (suc x / 2) (y / 2) x (suc x / 2) (omega arith) (omega arith))

bit_and_unroll : (x y : ℕ) → bit_and x y ≡ bit_and (x / 2) (y / 2) * 2 + min (x % 2) (y % 2)
bit_and_unroll zero y = omega (arith, bit_and-bitwise 0 (y / 2), bit_and-bitwise 0 y)
bit_and_unroll (suc x) y =
    rw (bit_and-bitwise (suc x) y, bit_and-bitwise (suc x / 2) (y / 2))
      (digits_unroll (λ _. 0) min x y)

bit_or_unroll : (x y : ℕ) → bit_or x y ≡ bit_or (x / 2) (y / 2) * 2 + max (x % 2) (y % 2)
bit_or_unroll zero y = omega (arith, bit_or-bitwise 0 (y / 2), bit_or-bitwise 0 y)
bit_or_unroll (suc x) y =
    rw (bit_or-bitwise (suc x) y, bit_or-bitwise (suc x / 2) (y / 2))
      (digits_unroll (λ b. b) max x y)

pub zero-bit_and : (y : ℕ) → bit_and 0 y ≡ 0
zero-bit_and y = bit_and-bitwise 0 y

bit_or_half : (x y : ℕ) → bit_or x y / 2 ≡ bit_or (x / 2) (y / 2)
bit_or_half x y = omega (arith, bit_or_unroll x y)

bit_or_last : (x y : ℕ) → bit_or x y % 2 ≡ max (x % 2) (y % 2)
bit_or_last x y = omega (arith, bit_or_unroll x y)

bit_and-bit_or_unroll :
    (x y m : ℕ)
    → bit_and (bit_or x y) m
      ≡ bit_and (bit_or (x / 2) (y / 2)) (m / 2) * 2 + min (max (x % 2) (y % 2)) (m % 2)
bit_and-bit_or_unroll x y m = rw (bit_and_unroll (bit_or x y) m, bit_or_half x y, bit_or_last x y)

-- `n` bounds the operands, which are halved together.
bit_and-bit_or_below : (n x m : ℕ) → x ≤ n → m ≤ n → bit_and (bit_or x m) m ≡ m
bit_and-bit_or_below zero zero zero p q = refl
bit_and-bit_or_below zero zero (suc m) p q = absurd (omega arith)
bit_and-bit_or_below zero (suc x) m p q = absurd (omega arith)
bit_and-bit_or_below (suc n) x m p q = omega (
  arith,
  bit_and-bit_or_unroll x m m,
  bit_and-bit_or_below n (x / 2) (m / 2) (omega arith) (omega arith),
)

-- A word that was or-ed with a mask holds the whole mask.
pub bit_and-bit_or_self : (x m : ℕ) → bit_and (bit_or x m) m ≡ m
bit_and-bit_or_self x m = bit_and-bit_or_below (x + m) x m (omega arith) (omega arith)

bit_and-bit_or_apart_below :
    (n x y m : ℕ) → x ≤ n → y ≤ n → bit_and y m ≡ 0 → bit_and (bit_or x y) m ≡ bit_and x m
bit_and-bit_or_apart_below zero zero zero m p q e = refl
bit_and-bit_or_apart_below zero zero (suc y) m p q e = absurd (omega arith)
bit_and-bit_or_apart_below zero (suc x) y m p q e = absurd (omega arith)
bit_and-bit_or_apart_below (suc n) x y m p q e = omega (
  arith,
  bit_and-bit_or_unroll x y m,
  bit_and_unroll x m,
  bit_and_unroll y m,
  bit_and-bit_or_apart_below n (x / 2) (y / 2) (m / 2) (omega arith) (omega arith)
      (omega (arith, bit_and_unroll y m)),
)

-- Or-ing a mask in leaves the bits of a mask apart from it.
pub bit_and-bit_or_apart : (x y m : ℕ) → bit_and y m ≡ 0 → bit_and (bit_or x y) m ≡ bit_and x m
bit_and-bit_or_apart x y m e =
    bit_and-bit_or_apart_below (x + y) x y m (omega arith) (omega arith) e
