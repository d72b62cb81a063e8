-- ===== src/Fs/Bitmap/Search.antt =====
-- The bits of a bitmap block that `balloc` and `bfree` of kern/bio.c read and change.
use mathlib.Core.Path.{subst}
use wei_os.Common.{
  test_bit, set_bit, clear_bit, sym, ap, ◌%◌, ◌≢◌, ap, ℕ, zero, suc, ◌+◌, ◌/◌, ◌%◌, ◌≤◌, ◌<◌, ◌≡◌,
  ◌≢◌, ◌⊎◌, inl, inr, sym, true, false, none, some, ◌==◌, if◌then◌else◌, arith, length, get_or, set,
  test_bit, set_bit, clear_bit, Bool-cases, get_or-set_self, get_or-set_ne, test_bit-set_bit_self,
  test_bit-set_bit_ne, test_bit-clear_bit_self, test_bit-clear_bit_ne,
}
use wei_os.Fs.{Block}
use wei_os.Fs.Bitmap.{first_clear, block_bit, mark_bit, clear_mark}

-- The search ends at a bit below its end that is clear, and all bits before it are set; or, without
-- one, all bits are set. Each bit is either outside of the searched part or known to be set.
pub record IsFirst (k j i : ℕ) (c : Block) : Type 0 where
  pub in_range : (j ≤ i) × (i < j + k)
  pub clear : block_bit c i ≡ false
  pub first : (h : ℕ) → (h < j) ⊎ (i ≤ h) ⊎ (block_bit c h ≡ true)

-- `balloc` takes the lowest clear bit among the bits that it searches.
pub first_clear-IsFirst : (k j i : ℕ) (c : Block) → first_clear k j c ≡ some i → IsFirst k j i c
unfolding first_clear
first_clear-IsFirst zero j i c e = absurd (ground arith)
first_clear-IsFirst (suc k) j i c e = elim (Bool-cases (block_bit c j)) [
  | inl used ↦
      let rest = first_clear-IsFirst k (j + 1) i c (ground arith) in
      let (low, high) = rest.in_range in
      let before = rest.first in
      record {
        in_range = (omega arith, omega arith);
        clear = rest.clear;
        first = λ h. let b = before h in ground arith;
      }
  | inr free ↦
      let here : i ≡ j = ground arith in
      record {
        in_range = (omega arith, omega arith);
        clear = rw here free;
        first = λ h. ground arith;
      }
]

-- When the search finds nothing, no bit that it searched is clear.
pub first_clear-full :
    (k j : ℕ) (c : Block)
    → first_clear k j c ≡ none
    → (h : ℕ) → (h < j) ⊎ (j + k ≤ h) ⊎ (block_bit c h ≡ true)
unfolding first_clear
first_clear-full zero j c e h = ground arith
first_clear-full (suc k) j c e h = elim (Bool-cases (block_bit c j)) [
  | inl used ↦ let rest = first_clear-full k (j + 1) c (ground arith) h in ground arith
  | inr free ↦ absurd (ground arith)
]

-- A bit of a block in which one byte is replaced.
block_bit_same :
    (c : Block) (i j w : ℕ)
    → i / 8 < length c
    → i / 8 ≡ j / 8
    → block_bit (set c (i / 8) w) j ≡ test_bit w (j % 8)
block_bit_same c i j w h e =
    rw (sym e) (ap (λ x. test_bit x (j % 8)) (get_or-set_self c (i / 8) w 0 h))

block_bit_other :
    (c : Block) (i j w : ℕ) → i / 8 ≢ j / 8 → block_bit (set c (i / 8) w) j ≡ block_bit c j
block_bit_other c i j w e = ap (λ x. test_bit x (j % 8)) (get_or-set_ne c (i / 8) (j / 8) w 0 e)

-- Marking block `i` as used changes its bit and no other.
pub block_bit-mark_bit :
    (c : Block) (i j : ℕ)
    → i / 8 < length c
    → block_bit (mark_bit c i) j ≡ (if i == j then true else block_bit c j)
block_bit-mark_bit c i j h = elim (Bool-cases (i / 8 == j / 8)) [
  | inl same_byte ↦
      let e : i / 8 ≡ j / 8 = ground arith in
      let byte = get_or c (i / 8) 0 in
      let here = block_bit_same c i j (set_bit byte (i % 8)) h e in
      let old : get_or c (j / 8) 0 ≡ byte = ap (λ x. get_or c x 0) (sym e) in
      elim (Bool-cases (i % 8 == j % 8)) [
        | inl same_bit ↦
            let g : i % 8 ≡ j % 8 = ground arith in
            let all : i ≡ j = omega arith in
            let changed =
              subst (λ x. test_bit (set_bit byte (i % 8)) x ≡ true) g
                (test_bit-set_bit_self byte (i % 8)) in
            ground arith
        | inr other_bit ↦
            let g : i % 8 ≢ j % 8 = λ q. ground arith in
            let all : i ≢ j = λ q. g (ap (λ x. x % 8) q) in
            let kept = test_bit-set_bit_ne byte (i % 8) (j % 8) g in
            let was = ap (λ x. test_bit x (j % 8)) old in ground arith
      ]
  | inr other_byte ↦
      let e : i / 8 ≢ j / 8 = λ q. ground arith in
      let all : i ≢ j = λ q. e (ap (λ x. x / 8) q) in
      let kept = block_bit_other c i j (set_bit (get_or c (i / 8) 0) (i % 8)) e in ground arith
]

-- Giving block `i` back clears its bit and no other.
pub block_bit-clear_mark :
    (c : Block) (i j : ℕ)
    → i / 8 < length c
    → block_bit (clear_mark c i) j ≡ (if i == j then false else block_bit c j)
block_bit-clear_mark c i j h = elim (Bool-cases (i / 8 == j / 8)) [
  | inl same_byte ↦
      let e : i / 8 ≡ j / 8 = ground arith in
      let byte = get_or c (i / 8) 0 in
      let here = block_bit_same c i j (clear_bit byte (i % 8)) h e in
      let old : get_or c (j / 8) 0 ≡ byte = ap (λ x. get_or c x 0) (sym e) in
      elim (Bool-cases (i % 8 == j % 8)) [
        | inl same_bit ↦
            let g : i % 8 ≡ j % 8 = ground arith in
            let all : i ≡ j = omega arith in
            let changed =
              subst (λ x. test_bit (clear_bit byte (i % 8)) x ≡ false) g
                (test_bit-clear_bit_self byte (i % 8)) in
            ground arith
        | inr other_bit ↦
            let g : i % 8 ≢ j % 8 = λ q. ground arith in
            let all : i ≢ j = λ q. g (ap (λ x. x % 8) q) in
            let kept = test_bit-clear_bit_ne byte (i % 8) (j % 8) g in
            let was = ap (λ x. test_bit x (j % 8)) old in ground arith
      ]
  | inr other_byte ↦
      let e : i / 8 ≢ j / 8 = λ q. ground arith in
      let all : i ≢ j = λ q. e (ap (λ x. x / 8) q) in
      let kept = block_bit_other c i j (clear_bit (get_or c (i / 8) 0) (i % 8)) e in ground arith
]
