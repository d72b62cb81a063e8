-- ===== src/Links/Entries.antt =====
-- The entries that name an inode, counted over the directories.
use wei_os.Links.Balance.{with_entry}
use wei_os.Links.{update, put_entry, is_dir, Volume, iunlockput}
use wei_os.Common.{
  ◌^◌, ◌%◌, ap, take, ◌&&◌, inr, Bool-cases, inl, [], false, true, ◌<◌, ◌≤◌, zero, ◌==◌, ◌≢◌, ◌⊎◌,
  arith, ◌+◌, if◌then◌else◌, ◌∷◌, ◌≡◌, suc, List, ℕ, refl,
}

-- The entries of a directory that name inode `x`.
abbrev pub count_in : ℕ → List (ℕ × List ℕ) → ℕ
count_in x [] = 0
count_in x (e ∷ es) = (if e.0 == x then 1 else 0) + count_in x es

abbrev pub naming : ℕ → Volume → ℕ → ℕ
naming x v d = if is_dir d v then count_in x (v.entries d) else 0

abbrev pub sum : ℕ → (ℕ → ℕ) → ℕ
sum zero f = 0
sum (suc k) f = sum k f + f k

-- The entries of all directories that name inode `x`.
abbrev pub total : ℕ → Volume → ℕ
total x v = sum v.n_inodes (naming x v)

pub sum-same : (k : ℕ) (f g : ℕ → ℕ) → ((d : ℕ) → f d ≡ g d) → sum k f ≡ sum k g
sum-same zero f g h = refl
sum-same (suc k) f g h = omega (arith, sum-same k f g h, h k)

sum_below : (k a : ℕ) (f g : ℕ → ℕ) → ((d : ℕ) → (a ≡ d) ⊎ (f d ≡ g d)) → k ≤ a → sum k f ≡ sum k g
sum_below zero a f g h l = refl
sum_below (suc k) a f g h l = elim (h k) [
  | inl e ↦ absurd (omega arith)
  | inr e ↦ omega (arith, sum_below k a f g h (omega arith), e)
]

-- A change of one term.
pub sum-change :
    (k a : ℕ) (f g : ℕ → ℕ)
    → ((d : ℕ) → (a ≡ d) ⊎ (f d ≡ g d))
    → a < k
    → sum k f + g a ≡ sum k g + f a
sum-change zero a f g h l = absurd (omega arith)
sum-change (suc k) a f g h l = elim (Bool-cases (a == k)) [
  | inl e ↦
      let same : a ≡ k = ground arith in
      omega (arith, sum_below k a f g h (omega arith), ap f same, ap g same)
  | inr e ↦ elim (h k) [
    | inl q ↦ absurd (ground arith)
    | inr q ↦ omega (arith, sum-change k a f g h (ground arith), q)
  ]
]

count_in-put_entry :
    (x ino : ℕ) (name : List ℕ) (es : List (ℕ × List ℕ))
    → x ≢ 0
    → count_in x (put_entry (ino, name) es) ≡ count_in x es + (if ino == x then 1 else 0)
count_in-put_entry x ino name [] h = ground arith
count_in-put_entry x ino name (e ∷ es) h = ground (arith, count_in-put_entry x ino name es)

-- A new entry counts for the inode that it names.
pub total-with_entry :
    (x di ino : ℕ) (name : List ℕ) (v : Volume)
    → x ≢ 0
    → is_dir di v ≡ true
    → di < v.n_inodes
    → ino < 65536
    → total x (with_entry di name ino v) ≡ total x v + (if ino == x then 1 else 0)
total-with_entry x di ino name v h dir small short =
    let cut : ino % 2 ^ 16 ≡ ino = omega arith in
    let w = with_entry di name ino v in
    let change =
      sum-change v.n_inodes di (naming x w) (naming x v)
        (λ d. elim (Bool-cases (di == d)) [ inl e ↦ inl (ground arith) | inr e ↦ inr (rw e refl) ])
        small in
    let here : naming x w di ≡ naming x v di + (if ino == x then 1 else 0) =
      ground (arith, cut, count_in-put_entry x (ino % 2 ^ 16) (take 14 name) (v.entries di)) in
    omega (arith, change, here)

-- What differs in the references and link counts only has the same entries.
pub total-same :
    (x : ℕ) (v w : Volume)
    → w.n_inodes ≡ v.n_inodes
    → ((d : ℕ) → naming x w d ≡ naming x v d)
    → total x w ≡ total x v
total-same x v w n h = rw n (sum-same v.n_inodes (naming x w) (naming x v) h)

-- An inode that is no directory, or has a link, is given back without a change of the entries.
pub iunlockput-naming :
    (x i : ℕ) (v : Volume)
    → (is_dir i v ≡ false) ⊎ ((v.nlink i == 0) ≡ false)
    → (d : ℕ) → naming x (iunlockput i v) d ≡ naming x v d
unfolding iunlockput
iunlockput-naming x i v h d = elim (Bool-cases (v.nlink i == 0 && v.refs i == 1)) [
  | inr e ↦ rw e refl
  | inl e ↦ rw e (elim h [ inl file ↦ ground arith | inr linked ↦ absurd (ground arith) ])
]

pub iunlockput-kept :
    (i : ℕ) (v : Volume)
    → ((iunlockput i v).n_inodes ≡ v.n_inodes)
      × ((iunlockput i v).nlink ≡ v.nlink)
      × ((x : ℕ) → (is_dir x (iunlockput i v) ≡ true) ⊎ (is_dir x (iunlockput i v) ≡ false))
unfolding iunlockput
iunlockput-kept i v = elim (Bool-cases (v.nlink i == 0 && v.refs i == 1)) [
  | inr e ↦ rw e (refl, refl, λ x. Bool-cases (is_dir x v))
  | inl e ↦ rw e (refl, refl, λ x. Bool-cases (update v.type i 0 x == 1))
]
