-- ===== src/Print/Digits.antt =====
-- The numbers that lib/printfmt.c writes, read back.
use wei_os.Common.{
  Bool, true, false, if◌then◌else◌, refl, ◌^◌, ap, ℕ, zero, suc, ◌+◌, ◌-◌, ◌*◌, ◌/◌, ◌%◌, ◌<◌, ◌≤◌,
  ◌≡◌, ◌⊎◌, ◌∙◌, inl, inr, sym, List, [], ◌∷◌, ◌==◌, ltb, if◌then◌else◌, map, arith, length,
  Bool-cases,
}
use wei_os.Print.{screen_write_hex, hex_char, radix_char, screen_write_radix, push_digits}

-- The value of a character as a digit.
abbrev pub digit_of : ℕ → ℕ
digit_of c = if ltb c 65 then c - 48 else c - 55

-- The number that characters stand for, read from the left.
abbrev pub read_back : ℕ → ℕ → List ℕ → ℕ
read_back radix acc [] = acc
read_back radix acc (c ∷ cs) = read_back radix (acc * radix + digit_of c) cs

-- A radix that the printers use.
abbrev pub IsRadix : ℕ → Type 0
IsRadix r = (r ≡ 8) ⊎ (r ≡ 10) ⊎ (r ≡ 16)

-- `r` to the power `k`.
abbrev power : ℕ → ℕ → ℕ
power r zero = 1
power r (suc k) = power r k * r

divide : (r n m : ℕ) → IsRadix r → n < m * r → (n / r < m) × (n / r * r + n % r ≡ n) × (n % r < r)
divide r n m (inl e) h = ground arith
divide r n m (inr (inl e)) h = ground arith
divide r n m (inr (inr e)) h = ground arith

push_digits-length :
    (k j r n : ℕ) (st : List ℕ)
    → IsRadix r
    → n < power r j
    → length (push_digits k r n st) ≤ length st + j
unfolding push_digits
push_digits-length zero j r n st i h = omega arith
push_digits-length (suc k) zero r n st i h = ground arith
push_digits-length (suc k) (suc j) r n st i h =
    let (small, parts, digit) = divide r n (power r j) i h in
    let rest = push_digits-length k j r (n / r) ((n % r) ∷ st) i small in ground arith

push_digits-read_back :
    (ch : ℕ → ℕ) (k r n : ℕ) (st : List ℕ)
    → IsRadix r
    → ((d : ℕ) → d < r → digit_of (ch d) ≡ d)
    → n < power r k
    → read_back r 0 (map ch (push_digits k r n st)) ≡ read_back r n (map ch st)
unfolding push_digits
push_digits-read_back ch zero r n st i c h =
    let none_left : n ≡ 0 = omega arith in ap (λ x. read_back r x (map ch st)) (sym none_left)
push_digits-read_back ch (suc k) r n st i c h = elim (Bool-cases (n == 0)) [
  | inl e ↦
      let none_left : n ≡ 0 = ground arith in
      let run : push_digits (suc k) r n st ≡ st = ground arith in
      ap (λ x. read_back r 0 (map ch x)) run ∙ ap (λ x. read_back r x (map ch st)) (sym none_left)
  | inr e ↦
      let (small, parts, digit) = divide r n (power r k) i h in
      let run : push_digits (suc k) r n st ≡ push_digits k r (n / r) ((n % r) ∷ st) =
        ground arith in
      let rest = push_digits-read_back ch k r (n / r) ((n % r) ∷ st) i c small in
      let value : n / r * r + digit_of (ch (n % r)) ≡ n = omega (arith, c (n % r) digit) in
      ap (λ x. read_back r 0 (map ch x)) run ∙ rest ∙ ap (λ x. read_back r x (map ch st)) value
]

length-map : (f : ℕ → ℕ) (xs : List ℕ) → length (map f xs) ≡ length xs
length-map f [] = refl
length-map f (x ∷ xs) = ap suc (length-map f xs)

-- A printed number: it reads back as `n`, and its digits fit in `room` places.
pub record IsNumeral (radix n room : ℕ) (cs : List ℕ) : Type 0 where
  pub value : read_back radix 0 cs ≡ n
  pub fits : length cs ≤ room

pushed-IsNumeral :
    (ch : ℕ → ℕ) (r n room : ℕ)
    → IsRadix r
    → ((d : ℕ) → d < r → digit_of (ch d) ≡ d)
    → n < power r 32
    → n < power r room
    → IsNumeral r n room (map ch (push_digits 32 r n []))
pushed-IsNumeral ch r n room i c h g = record {
  value = push_digits-read_back ch 32 r n [] i c h;
  fits =
      omega (arith, length-map ch (push_digits 32 r n []), push_digits-length 32 room r n [] i g);
}

octal : (n : ℕ) → n < 2 ^ 32 → IsNumeral 8 n 11 (map radix_char (push_digits 32 8 n []))
octal n h =
    pushed-IsNumeral radix_char 8 n 11 (inl refl) (λ d b. ground arith) (omega arith) (omega arith)

decimal : (n : ℕ) → n < 2 ^ 32 → IsNumeral 10 n 10 (map radix_char (push_digits 32 10 n []))
decimal n h =
    pushed-IsNumeral radix_char 10 n 10 (inr (inl refl)) (λ d b. ground arith) (omega arith)
      (omega arith)

hexadecimal : (n : ℕ) → n < 2 ^ 32 → IsNumeral 16 n 8 (map hex_char (push_digits 32 16 n []))
hexadecimal n h =
    pushed-IsNumeral hex_char 16 n 8 (inr (inr refl)) (λ d b. ground arith) (omega arith)
      (omega arith)

zero-IsNumeral : (r n room : ℕ) → 0 < room → (n == 0) ≡ true → IsNumeral r n room (48 ∷ [])
zero-IsNumeral r n room h e = record { value = ground arith; fits = omega arith }

either :
    (is_zero : Bool) (r n room : ℕ) (digits : List ℕ)
    → (is_zero ≡ true → IsNumeral r n room (48 ∷ []))
    → IsNumeral r n room digits
    → IsNumeral r n room (if is_zero then 48 ∷ [] else digits)
either true r n room digits h g = h refl
either false r n room digits h g = g

-- Every 32-bit number reads back from the characters that the printers write: in octal and decimal by
-- `screen_write_radix`, with at most 11 and 10 digits for its stack of 12, and in hexadecimal by
-- `screen_write_hex`, with at most 8 digits for its stack of 8.
pub screen_write-IsNumeral :
    (n : ℕ)
    → n < 2 ^ 32
    → IsNumeral 8 n 11 (screen_write_radix n 8)
      × IsNumeral 10 n 10 (screen_write_radix n 10)
      × IsNumeral 16 n 8 (screen_write_hex n)
unfolding screen_write_radix screen_write_hex
screen_write-IsNumeral n h = (
  either (n == 0) 8 n 11 (map radix_char (push_digits 32 8 n []))
      (zero-IsNumeral 8 n 11 (omega arith)) (octal n h),
  either (n == 0) 10 n 10 (map radix_char (push_digits 32 10 n []))
      (zero-IsNumeral 10 n 10 (omega arith)) (decimal n h),
  either (n == 0) 16 n 8 (map hex_char (push_digits 32 16 n []))
      (zero-IsNumeral 16 n 8 (omega arith)) (hexadecimal n h),
)
