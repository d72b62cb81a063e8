-- ===== src/Print.antt =====
-- The numbers of lib/printfmt.c: `screen_write_radix`, for radix 8 and 10, and `screen_write_hex`.
-- What they write on the screen is the list of its characters; its length is their result.
pub mod Digits
mod Tests
use wei_os.Common.{
  ℕ, zero, suc, ◌+◌, ◌-◌, ◌*◌, ◌/◌, ◌%◌, List, [], ◌∷◌, ◌==◌, ltb, if◌then◌else◌, map,
}

-- The loop that fills `num_stack`, with `k` rounds left; the last digit pushed comes first.
unfoldable pub push_digits : ℕ → ℕ → ℕ → List ℕ → List ℕ
push_digits zero radix n num_stack = num_stack
push_digits (suc k) radix n num_stack =
    let pushed = push_digits k radix (n / radix) ((n % radix) ∷ num_stack) in
    if n == 0 then num_stack else pushed

-- `d | 0x30` of a digit below 16.
abbrev pub radix_char : ℕ → ℕ
radix_char d = 48 + d

-- `hex_map`.
abbrev pub hex_char : ℕ → ℕ
hex_char d = if ltb d 10 then 48 + d else 55 + d

-- 32 rounds are enough for a 32-bit number.
unfoldable pub screen_write_radix : ℕ → ℕ → List ℕ
unfolding push_digits
screen_write_radix n radix = if n == 0 then 48 ∷ [] else map radix_char (push_digits 32 radix n [])

unfoldable pub screen_write_hex : ℕ → List ℕ
unfolding push_digits
screen_write_hex n = if n == 0 then 48 ∷ [] else map hex_char (push_digits 32 16 n [])
