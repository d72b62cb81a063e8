-- ===== src/Text/Bounded.antt =====
-- The bounded copies of lib/string.c: which bytes they may write.
use wei_os.Common.{
  ◌∙◌, ap, ℕ, zero, suc, ◌+◌, ◌<◌, ◌≤◌, ◌≡◌, ◌≢◌, ◌⊎◌, inl, inr, refl, ◌==◌, arith, Bool-cases,
}
use wei_os.Text.{Memory, safestrcpy, safe_loop, strncpy, write_at}

safe_loop_inside :
    (s t n : ℕ) (m : Memory) (j : ℕ) → (safe_loop s t n m j ≡ m j) ⊎ ((s ≤ j) × (j < s + suc n))
unfolding safe_loop
safe_loop_inside s t zero m j = ground arith
safe_loop_inside s t (suc n) m j =
    let rest = safe_loop_inside (s + 1) (t + 1) n (write_at m s (m t)) j in ground arith

-- `safestrcpy` writes no byte outside of the `n` bytes of its target.
pub safestrcpy_inside :
    (s t n : ℕ) (m : Memory) (j : ℕ) → (safestrcpy s t n m j ≡ m j) ⊎ ((s ≤ j) × (j < s + n))
unfolding safestrcpy
safestrcpy_inside s t zero m j = inl refl
safestrcpy_inside s t (suc n) m j = safe_loop_inside s t n m j

safe_loop_ends : (s t n : ℕ) (m : Memory) → (k : ℕ) × (k ≤ n) × (safe_loop s t n m (s + k) ≡ 0)
unfolding safe_loop
safe_loop_ends s t zero m = (0, omega arith, ground arith)
safe_loop_ends s t (suc n) m =
    let (k, small, ends) = safe_loop_ends (s + 1) (t + 1) n (write_at m s (m t)) in
    elim (Bool-cases (m t == 0)) [
      | inl end ↦ (1, omega arith, ground arith)
      | inr more ↦
          let shift : s + 1 + k ≡ s + (k + 1) = omega arith in
          let there = ap (safe_loop (s + 1) (t + 1) n (write_at m s (m t))) shift in
          (k + 1, omega arith, ground arith)
    ]

-- Whatever the source holds, `safestrcpy` into `n` bytes, one at least, leaves a NUL in them.
pub safestrcpy_ends :
    (s t n : ℕ) (m : Memory) → 0 < n → (k : ℕ) × (k < n) × (safestrcpy s t n m (s + k) ≡ 0)
unfolding safestrcpy
safestrcpy_ends s t zero m h = absurd (omega arith)
safestrcpy_ends s t (suc n) m h =
    let (k, small, ends) = safe_loop_ends s t n m in (k, omega arith, ends)

-- `strncpy` of a source with no NUL in its first `n` bytes, `n` at least 1, writes a NUL behind the
-- `n` bytes of its target; the target begins behind the source's `n` bytes.
pub strncpy_writes_behind :
    (d s n : ℕ) (m : Memory)
    → 0 < n
    → s + n ≤ d
    → ((i : ℕ) → i < n → m (s + i) ≢ 0)
    → strncpy d s n m (d + n) ≡ 0
unfolding strncpy
strncpy_writes_behind d s zero m h g full = absurd (omega arith)
strncpy_writes_behind d s (suc zero) m h g full = ground arith
strncpy_writes_behind d s (suc (suc n)) m h g full =
    let zero_shift : s + 0 ≡ s = omega arith in
    let first : m s ≢ 0 = λ e. full 0 (omega arith) (ap m zero_shift ∙ e) in
    let shift : d + 1 + suc n ≡ d + suc (suc n) = omega arith in
    let rest =
      strncpy_writes_behind (d + 1) (s + 1) (suc n) (write_at m d (m s)) (omega arith) (omega arith)
        (λ i small e. later i small e) in
    let there = ap (strncpy (d + 1) (s + 1) (suc n) (write_at m d (m s))) shift in ground arith
  where
    later : (i : ℕ) → i < suc n → write_at m d (m s) (s + 1 + i) ≢ 0
    later i small e =
        let shift : s + 1 + i ≡ s + suc i = omega arith in
        let there = ap m shift in full (suc i) (omega arith) (ground arith)
