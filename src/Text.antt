-- ===== src/Text.antt =====
-- The string routines of lib/string.c. A string is the list of its bytes before the NUL, a memory a
-- function from addresses to bytes; an area does not wrap around the end of the address space.
pub mod Compare
pub mod Move
pub mod Bounded
mod Tests
use wei_os.Common.{
  ℕ, zero, suc, ◌+◌, ◌-◌, ◌%◌, ◌^◌, ◌/◌, Bool, true, false, not, ◌&&◌, ◌||◌, List, [], ◌∷◌, ◌++◌,
  ◌==◌, ltb, leb, if◌then◌else◌,
}

abbrev pub Memory : Type 0
Memory = ℕ → ℕ

abbrev pub write_at : Memory → ℕ → ℕ → Memory
write_at m a v b = if a == b then v else m b

-- The difference of two bytes as a 32-bit `int`.
abbrev pub diff : ℕ → ℕ → ℕ
diff a b = (a + 2 ^ 32 - b) % 2 ^ 32

unfoldable pub strlen : List ℕ → ℕ
strlen [] = 0
strlen (c ∷ s) = strlen s + 1

unfoldable pub strcmp : List ℕ → List ℕ → ℕ
strcmp [] [] = 0
strcmp [] (b ∷ t) = diff 0 b
strcmp (a ∷ s) [] = diff a 0
strcmp (a ∷ s) (b ∷ t) = let rest = strcmp s t in if a == b then rest else diff a b

unfoldable pub strncmp : List ℕ → List ℕ → ℕ → ℕ
strncmp s t zero = 0
strncmp [] [] (suc n) = 0
strncmp [] (b ∷ t) (suc n) = diff 0 b
strncmp (a ∷ s) [] (suc n) = diff a 0
strncmp (a ∷ s) (b ∷ t) (suc n) = let rest = strncmp s t n in if a == b then rest else diff a b

-- The index of the first such byte.
unfoldable pub strchr : List ℕ → ℕ → ℕ → List ℕ
strchr [] c i = []
strchr (a ∷ s) c i = let rest = strchr s c (i + 1) in if a == c then i ∷ [] else rest

unfoldable pub memset : ℕ → ℕ → ℕ → Memory → Memory
memset s ch zero m = m
memset s ch (suc n) m = memset (s + 1) ch n (write_at m s ch)

-- The loop of `memmove` that goes up.
unfoldable pub move_up : ℕ → ℕ → ℕ → Memory → Memory
move_up d s zero m = m
move_up d s (suc n) m = move_up (d + 1) (s + 1) n (write_at m d (m s))

-- The loop of `memmove` that goes down from the ends `d + n` and `s + n`.
unfoldable pub move_down : ℕ → ℕ → ℕ → Memory → Memory
move_down d s zero m = m
move_down d s (suc n) m = move_down d s n (write_at m (d + n) (m (s + n)))

unfoldable pub memmove : ℕ → ℕ → ℕ → Memory → Memory
unfolding move_up move_down
memmove d s n m = if ltb s d && ltb d (s + n) then move_down d s n m else move_up d s n m

unfoldable pub memcmp : ℕ → ℕ → ℕ → Memory → ℕ
memcmp s t zero m = 0
memcmp s t (suc n) m =
    let rest = memcmp (s + 1) (t + 1) n m in if m s == m t then rest else diff (m s) (m t)

-- The loop of `safestrcpy` with `n` after the decrement, and the NUL behind it.
unfoldable pub safe_loop : ℕ → ℕ → ℕ → Memory → Memory
safe_loop s t zero m = write_at m s 0
safe_loop s t (suc n) m =
    let m' = write_at m s (m t) in
    let rest = safe_loop (s + 1) (t + 1) n m' in if m t == 0 then write_at m' (s + 1) 0 else rest

unfoldable pub safestrcpy : ℕ → ℕ → ℕ → Memory → Memory
unfolding safe_loop
safestrcpy s t zero m = m
safestrcpy s t (suc n) m = safe_loop s t n m

-- The loop of `strncpy` and the NUL behind it; the source copies a byte before it tests `n`.
unfoldable pub strncpy : ℕ → ℕ → ℕ → Memory → Memory
strncpy d s zero m = write_at (write_at m d (m s)) (d + 1) 0
strncpy d s (suc n) m =
    let m' = write_at m d (m s) in
    let rest = strncpy (d + 1) (s + 1) n m' in
    if m s == 0 then write_at m' (d + 1) 0 else if n == 0 then write_at m' (d + 1) 0 else rest

-- `*s |= 0x20`.
abbrev pub with_case_bit : ℕ → ℕ
with_case_bit c = if c / 32 % 2 == 1 then c else c + 32

unfoldable pub lowercase : List ℕ → List ℕ
lowercase [] = []
lowercase (c ∷ s) = (if leb 65 c && leb c 97 then with_case_bit c else c) ∷ lowercase s
