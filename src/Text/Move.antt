-- ===== src/Text/Move.antt =====
-- `memmove` and `memset` of lib/string.c against the copy that they stand for.
use wei_os.Common.{
  ℕ, zero, suc, ◌+◌, ◌-◌, ◌≤◌, ◌≡◌, ◌≢◌, ◌⊎◌, inl, inr, ◌&&◌, ltb, leb, if◌then◌else◌, arith,
  Bool-cases,
}
use wei_os.Text.{Memory, memset, memmove, move_up, move_down, write_at}

-- The memory after a copy through a buffer of its own.
abbrev pub copied : ℕ → ℕ → ℕ → Memory → Memory
copied d s n m j = if leb d j && ltb j (d + n) then m (s + (j - d)) else m j

move_up_lem :
    (d s n : ℕ) (m : Memory)
    → (d ≤ s) ⊎ (s + n ≤ d)
    → (j : ℕ) → move_up d s n m j ≡ copied d s n m j
unfolding move_up
move_up_lem d s zero m h j = ground arith
move_up_lem d s (suc n) m h j =
    let rest = move_up_lem (d + 1) (s + 1) n (write_at m d (m s)) (ground arith) j in
    let shift : (j ≤ d) ⊎ (s + 1 + (j - (d + 1)) ≡ s + (j - d)) = ground arith in
    let start : (j ≢ d) ⊎ (s + (j - d) ≡ s) = ground arith in ground arith

move_down_lem : (d s n : ℕ) (m : Memory) → s ≤ d → (j : ℕ) → move_down d s n m j ≡ copied d s n m j
unfolding move_down
move_down_lem d s zero m h j = ground arith
move_down_lem d s (suc n) m h j =
    let rest = move_down_lem d s n (write_at m (d + n) (m (s + n))) h j in
    let last : (j ≢ d + n) ⊎ (s + (j - d) ≡ s + n) = ground arith in ground arith

-- `memmove` copies as if through a buffer, however the two areas overlap: each byte of the target
-- gets what its source byte held before, and no other byte changes.
pub memmove-copied : (d s n : ℕ) (m : Memory) (j : ℕ) → memmove d s n m j ≡ copied d s n m j
unfolding memmove
memmove-copied d s n m j = elim (Bool-cases (ltb s d && ltb d (s + n))) [
  | inl over ↦ let rest = move_down_lem d s n m (ground arith) j in ground arith
  | inr apart ↦ let rest = move_up_lem d s n m (ground arith) j in ground arith
]

-- `memset` fills its area and changes no other byte.
pub memset_lem :
    (s ch n : ℕ) (m : Memory) (j : ℕ)
    → memset s ch n m j ≡ (if leb s j && ltb j (s + n) then ch else m j)
unfolding memset
memset_lem s ch zero m j = ground arith
memset_lem s ch (suc n) m j = ground (arith, memset_lem (s + 1) ch n (write_at m s ch) j)
