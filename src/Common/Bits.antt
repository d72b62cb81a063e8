-- ===== src/Common/Bits.antt =====
-- Single bits of a machine word, by recursion on the bit's position: `w & (1 << k)`,
-- `w | (1 << k)` and `w & ~(1 << k)`.
use Prim.Native.Nat.{ℕ, zero, suc, ◌+◌, ◌*◌, ◌/◌, ◌%◌, ◌^◌, ◌<◌, ◌-◌, bit_and, bit_or}
use mathlib.Core.Path.{◌≡◌, refl, ap}
use mathlib.Core.Logic.{◌≢◌}
use mathlib.Core.Bool.{Bool, true, false, ◌&&◌}
use native.Mathlib.Omega.{arith}
use wei_os.Common.Tests.{◌==◌, if◌then◌else◌}

abbrev pub test_bit : ℕ → ℕ → Bool
test_bit w zero = w % 2 == 1
test_bit w (suc k) = test_bit (w / 2) k

abbrev pub set_bit : ℕ → ℕ → ℕ
set_bit w zero = w / 2 * 2 + 1
set_bit w (suc k) = set_bit (w / 2) k * 2 + w % 2

abbrev pub clear_bit : ℕ → ℕ → ℕ
clear_bit w zero = w / 2 * 2
clear_bit w (suc k) = clear_bit (w / 2) k * 2 + w % 2

pub half_of_pair : (a b : ℕ) → b < 2 → (a * 2 + b) / 2 ≡ a
half_of_pair a b h = omega arith

pub test_bit-set_bit_self : (w k : ℕ) → test_bit (set_bit w k) k ≡ true
test_bit-set_bit_self w zero = ground arith
test_bit-set_bit_self w (suc k) =
    rw (half_of_pair (set_bit (w / 2) k) (w % 2) (omega arith)) (test_bit-set_bit_self (w / 2) k)

pub test_bit-clear_bit_self : (w k : ℕ) → test_bit (clear_bit w k) k ≡ false
test_bit-clear_bit_self w zero = ground arith
test_bit-clear_bit_self w (suc k) =
    rw (half_of_pair (clear_bit (w / 2) k) (w % 2) (omega arith))
      (test_bit-clear_bit_self (w / 2) k)

pub test_bit-set_bit_ne : (w k j : ℕ) → k ≢ j → test_bit (set_bit w k) j ≡ test_bit w j
test_bit-set_bit_ne w zero zero h = absurd (h refl)
test_bit-set_bit_ne w zero (suc j) h = ap (λ n. test_bit n j) (half_of_pair (w / 2) 1 (omega arith))
test_bit-set_bit_ne w (suc k) zero h = ground arith
test_bit-set_bit_ne w (suc k) (suc j) h =
    rw (half_of_pair (set_bit (w / 2) k) (w % 2) (omega arith))
      (test_bit-set_bit_ne (w / 2) k j (λ e. h (ap suc e)))

pub test_bit-clear_bit_ne : (w k j : ℕ) → k ≢ j → test_bit (clear_bit w k) j ≡ test_bit w j
test_bit-clear_bit_ne w zero zero h = absurd (h refl)
test_bit-clear_bit_ne w zero (suc j) h = ap (λ n. test_bit n j) (omega arith)
test_bit-clear_bit_ne w (suc k) zero h = ground arith
test_bit-clear_bit_ne w (suc k) (suc j) h =
    rw (half_of_pair (clear_bit (w / 2) k) (w % 2) (omega arith))
      (test_bit-clear_bit_ne (w / 2) k j (λ e. h (ap suc e)))

pub test_bit-zero : (k : ℕ) → test_bit 0 k ≡ false
test_bit-zero zero = refl
test_bit-zero (suc k) = test_bit-zero k

-- Setting a clear bit and clearing it again restores the word.
pub set_bit-clear_bit : (w k : ℕ) → test_bit w k ≡ true → set_bit (clear_bit w k) k ≡ w
set_bit-clear_bit w zero h = ground arith
set_bit-clear_bit w (suc k) h =
    rw (half_of_pair (clear_bit (w / 2) k) (w % 2) (omega arith), set_bit-clear_bit (w / 2) k h)
      (omega arith)

-- The reading of `|` and of `& ~` at the words below 64.
all_below : ℕ → (ℕ → Bool) → Bool
all_below zero p = true
all_below (suc n) p = p n && all_below n p

bits_table :
    all_below 6 (λ k. all_below 64 λ w.
      (set_bit w k == bit_or w (2 ^ k))
      && (clear_bit w k == bit_and w (63 - 2 ^ k))
      && (if test_bit w k then 1 else 0) == bit_and w (2 ^ k) / 2 ^ k)
    ≡ true
unfolding all_below
bits_table = refl
