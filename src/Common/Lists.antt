-- ===== src/Common/Lists.antt =====
-- C arrays and intrusive lists as lists with native indices.
use Prim.Native.Nat.{◌≤◌, ℕ, zero, suc, ◌+◌, ◌-◌, ◌<◌, min}
use mathlib.Core.Path.{◌≡◌, refl, ap}
use mathlib.Core.Logic.{◌≢◌, ◌⊎◌, inl, inr}
use mathlib.Core.List.{List, [], ◌∷◌, ◌++◌}
use mathlib.Core.Option.{Option, none, some}
use mathlib.Core.Bool.{Bool, true, false, not, ◌&&◌, ◌||◌}
use wei_os.Common.Tests.{◌==◌, if◌then◌else◌}
use native.Mathlib.Omega.{arith}

module _ {ℓ} {A : Type ℓ} where
  abbrev pub length : List A → ℕ
  length [] = 0
  length (x ∷ xs) = suc (length xs)

  abbrev pub get_elem? : List A → ℕ → Option A
  get_elem? [] i = none
  get_elem? (x ∷ xs) zero = some x
  get_elem? (x ∷ xs) (suc i) = get_elem? xs i

  abbrev pub get_or : List A → ℕ → A → A
  get_or [] i d = d
  get_or (x ∷ xs) zero d = x
  get_or (x ∷ xs) (suc i) d = get_or xs i d

  -- A write out of bounds changes nothing.
  abbrev pub set : List A → ℕ → A → List A
  set [] i v = []
  set (x ∷ xs) zero v = v ∷ xs
  set (x ∷ xs) (suc i) v = x ∷ set xs i v

  abbrev pub take : ℕ → List A → List A
  take zero xs = []
  take (suc n) [] = []
  take (suc n) (x ∷ xs) = x ∷ take n xs

  abbrev pub drop : ℕ → List A → List A
  drop zero xs = xs
  drop (suc n) [] = []
  drop (suc n) (x ∷ xs) = drop n xs

  abbrev pub replicate : ℕ → A → List A
  replicate zero a = []
  replicate (suc n) a = a ∷ replicate n a

module _ {ℓ} {A : Type ℓ} where
  pub length-append : (xs ys : List A) → length (xs ++ ys) ≡ length xs + length ys
  length-append [] ys = omega arith
  length-append (x ∷ xs) ys = omega (arith, length-append xs ys)

  pub length-set : (xs : List A) (i : ℕ) (v : A) → length (set xs i v) ≡ length xs
  length-set [] i v = refl
  length-set (x ∷ xs) zero v = refl
  length-set (x ∷ xs) (suc i) v = ap suc (length-set xs i v)

  pub get_or-set_self :
      (xs : List A) (i : ℕ) (v d : A) → i < length xs → get_or (set xs i v) i d ≡ v
  get_or-set_self [] i v d h = absurd (omega arith)
  get_or-set_self (x ∷ xs) zero v d h = refl
  get_or-set_self (x ∷ xs) (suc i) v d h = get_or-set_self xs i v d (omega arith)

  pub get_or-set_ne :
      (xs : List A) (i j : ℕ) (v d : A) → i ≢ j → get_or (set xs i v) j d ≡ get_or xs j d
  get_or-set_ne [] i j v d h = refl
  get_or-set_ne (x ∷ xs) zero zero v d h = absurd (h refl)
  get_or-set_ne (x ∷ xs) zero (suc j) v d h = refl
  get_or-set_ne (x ∷ xs) (suc i) zero v d h = refl
  get_or-set_ne (x ∷ xs) (suc i) (suc j) v d h = get_or-set_ne xs i j v d (λ e. h (ap suc e))

  pub length-take : (n : ℕ) (xs : List A) → length (take n xs) ≡ min n (length xs)
  length-take zero xs = omega arith
  length-take (suc n) [] = omega arith
  length-take (suc n) (x ∷ xs) = omega (arith, length-take n xs)

  pub length-drop : (n : ℕ) (xs : List A) → length (drop n xs) ≡ length xs - n
  length-drop zero xs = omega arith
  length-drop (suc n) [] = omega arith
  length-drop (suc n) (x ∷ xs) = omega (arith, length-drop n xs)

  pub length-replicate : (n : ℕ) (a : A) → length (replicate n a) ≡ n
  length-replicate zero a = refl
  length-replicate (suc n) a = ap suc (length-replicate n a)

pub List-cases {ℓ} :
    {A : Type ℓ} (xs : List A) → (xs ≡ []) ⊎ ((x : A) × (rest : List A) × (xs ≡ x ∷ rest))
List-cases [] = inl refl
List-cases (x ∷ xs) = inr (x, xs, refl)

abbrev pub has : ℕ → List ℕ → Bool
has p [] = false
has p (x ∷ xs) = x == p || has p xs

abbrev pub nodup : List ℕ → Bool
nodup [] = true
nodup (x ∷ xs) = not (has x xs) && nodup xs

abbrev pub count : ℕ → List ℕ → ℕ
count p [] = 0
count p (x ∷ xs) = (if x == p then 1 else 0) + count p xs

pub count-set :
    (p : ℕ) (xs : List ℕ) (i v : ℕ)
    → i < length xs
    → count p (set xs i v) + (if get_or xs i 0 == p then 1 else 0)
      ≡ count p xs + (if v == p then 1 else 0)
count-set p [] i v h = absurd (omega arith)
count-set p (x ∷ xs) zero v h = ground arith
count-set p (x ∷ xs) (suc i) v h = omega (arith, count-set p xs i v (omega arith))

-- A value that is somewhere in the list is counted.
pub count-get_or : (xs : List ℕ) (i p : ℕ) → i < length xs → get_or xs i 0 ≡ p → 0 < count p xs
count-get_or [] i p h e = absurd (omega arith)
count-get_or (x ∷ xs) zero p h e = ground arith
count-get_or (x ∷ xs) (suc i) p h e = omega (arith, count-get_or xs i p (omega arith) e)

-- `list_del` of a node that stands in a list at most once.
abbrev pub unlink : ℕ → List ℕ → List ℕ
unlink p [] = []
unlink p (x ∷ xs) = if x == p then unlink p xs else x ∷ unlink p xs

pub unlink-absent : (p : ℕ) (l : List ℕ) → has p l ≡ false → unlink p l ≡ l
unlink-absent p [] h = refl
unlink-absent p (x ∷ xs) h = ground (arith, unlink-absent p xs)

pub has-unlink : (p j : ℕ) (l : List ℕ) → has j (unlink p l) ≡ (if p == j then false else has j l)
has-unlink p j [] = ground arith
has-unlink p j (x ∷ xs) = ground (arith, has-unlink p j xs)

pub has-append_one : (p j : ℕ) (l : List ℕ) → has j (l ++ (p ∷ [])) ≡ (has j l || p == j)
has-append_one p j [] = ground arith
has-append_one p j (x ∷ xs) = ground (arith, has-append_one p j xs)

pub nodup-unlink : (p : ℕ) (l : List ℕ) → nodup l ≡ true → nodup (unlink p l) ≡ true
nodup-unlink p [] h = refl
nodup-unlink p (x ∷ xs) h = ground (arith, nodup-unlink p xs, has-unlink p x xs)

pub length-unlink :
    (p : ℕ) (l : List ℕ) → nodup l ≡ true → has p l ≡ true → length (unlink p l) + 1 ≡ length l
length-unlink p [] h m = absurd (cc)
length-unlink p (x ∷ xs) h m = ground (arith, length-unlink p xs, unlink-absent p xs)

module _ {ℓ} {A : Type ℓ} where
  pub set-set : (xs : List A) (i : ℕ) (v w : A) → set (set xs i v) i w ≡ set xs i w
  set-set [] i v w = refl
  set-set (x ∷ xs) zero v w = refl
  set-set (x ∷ xs) (suc i) v w = ap (λ l. x ∷ l) (set-set xs i v w)

  pub set-get_or : (xs : List A) (i : ℕ) (d : A) → set xs i (get_or xs i d) ≡ xs
  set-get_or [] i d = refl
  set-get_or (x ∷ xs) zero d = refl
  set-get_or (x ∷ xs) (suc i) d = ap (λ l. x ∷ l) (set-get_or xs i d)

pub count-le-length : (p : ℕ) (xs : List ℕ) → count p xs ≤ length xs
count-le-length p [] = omega arith
count-le-length p (x ∷ xs) = ground (arith, count-le-length p xs)

pub nodup-append_one :
    (n : ℕ) (l : List ℕ) → nodup l ≡ true → has n l ≡ false → nodup (l ++ (n ∷ [])) ≡ true
nodup-append_one n [] h g = refl
nodup-append_one n (x ∷ l) h g = ground (arith, nodup-append_one n l, has-append_one n x l)
