-- ===== src/Buddy/Count.antt =====
-- The accounting of kern/buddy.c: the free pages of a zone are those of the blocks on its lists.
use mathlib.Core.Path.{subst}
use wei_os.Common.{
  ◌-◌, List-cases, some, refl, ltb, Bool-cases, ◌==◌, inl, inr, ◌<◌, true, ap, ℕ, zero, suc, ◌+◌,
  ◌-◌, ◌*◌, ◌<◌, ◌≤◌, ◌≡◌, inl, inr, refl, true, some, List, ◌∷◌, ◌==◌, if◌then◌else◌, arith,
  length, has, nodup, unlink, length-unlink, List-cases, Bool-cases,
}
use wei_os.Buddy.{
  ltb, Zone, update, block_size, put_block, take_block, split, search_area, out_of_buddy,
}

-- The pages of the blocks of the first `n` orders.
abbrev pub pages_below : ℕ → (ℕ → List ℕ) → ℕ
pages_below zero l = 0
pages_below (suc n) l = pages_below n l + block_size n * length (l n)

-- The counters agree with the lists of the first `n` orders.
pub record IsCounted (n : ℕ) (z : Zone) : Type 0 where
  pub total : z.free_pages ≡ pages_below n z.free_list
  pub each : (o : ℕ) → z.nr_free o ≡ length (z.free_list o)

-- Replacing the list of one order below `n`.
pub pages_below-update :
    (n o : ℕ) (l : ℕ → List ℕ) (xs : List ℕ)
    → pages_below n (update l o xs) + (if ltb o n then block_size o * length (l o) else 0)
      ≡ pages_below n l + (if ltb o n then block_size o * length xs else 0)
pages_below-update zero o l xs = ground arith
pages_below-update (suc n) o l xs =
    let rest = pages_below-update n o l xs in
    elim (Bool-cases (o == n)) [
      | inl here ↦
          let e : o ≡ n = ground arith in
          let new : block_size n * length (update l o xs n) ≡ block_size o * length xs =
            ground arith in
          let old : block_size n * length (l n) ≡ block_size o * length (l o) = ground arith in
          ground arith
      | inr other ↦
          let same : block_size n * length (update l o xs n) ≡ block_size n * length (l n) =
            ground arith in
          ground arith
    ]

times_suc : (a b : ℕ) → a * suc b ≡ a * b + a
times_suc a b = omega arith

put_block-counts :
    (n page o : ℕ) (z : Zone)
    → o < n
    → pages_below n (put_block page o z).free_list ≡ pages_below n z.free_list + block_size o
put_block-counts n page o z h =
    let sum = pages_below-update n o z.free_list (page ∷ z.free_list o) in
    let more = times_suc (block_size o) (length (z.free_list o)) in
    let inside : ltb o n ≡ true = ground arith in ground arith

put_block-each :
    (page o : ℕ) (z : Zone)
    → ((i : ℕ) → z.nr_free i ≡ length (z.free_list i))
    → (i : ℕ) → (put_block page o z).nr_free i ≡ length ((put_block page o z).free_list i)
put_block-each page o z h i = let here = h i in let there = h o in ground arith

-- A page that stands once in the list of an order leaves it.
take_block-counts :
    (n page o mark : ℕ) (z : Zone)
    → o < n
    → nodup (z.free_list o) ≡ true
    → has page (z.free_list o) ≡ true
    → pages_below n (take_block page o mark z).free_list + block_size o ≡ pages_below n z.free_list
take_block-counts n page o mark z h once there =
    let fewer = length-unlink page (z.free_list o) once there in
    let sum = pages_below-update n o z.free_list (unlink page (z.free_list o)) in
    let more = times_suc (block_size o) (length (unlink page (z.free_list o))) in
    let all : suc (length (unlink page (z.free_list o))) ≡ length (z.free_list o) = omega arith in
    let product = ap (λ x. block_size o * x) all in
    let inside : ltb o n ≡ true = ground arith in ground arith

take_block-each :
    (page o mark : ℕ) (z : Zone)
    → nodup (z.free_list o) ≡ true
    → has page (z.free_list o) ≡ true
    → ((i : ℕ) → z.nr_free i ≡ length (z.free_list i))
    → (i : ℕ)
    → (take_block page o mark z).nr_free i ≡ length ((take_block page o mark z).free_list i)
take_block-each page o mark z once there h i =
    let here = h i in
    let at = h o in let fewer = length-unlink page (z.free_list o) once there in ground arith

-- Splitting a block of order `order + k` gives all of it back but one block of order `order`.
split-counts :
    (n page order k : ℕ) (z : Zone)
    → order + k ≤ n
    → ((i : ℕ) → z.nr_free i ≡ length (z.free_list i))
    → (pages_below n (split page order k z).free_list + block_size order
        ≡ pages_below n z.free_list + block_size (order + k))
      × ((split page order k z).free_pages ≡ z.free_pages)
      × ((i : ℕ) → (split page order k z).nr_free i ≡ length ((split page order k z).free_list i))
unfolding split
split-counts n page order zero z h e =
    let same : order ≡ order + 0 = omega arith in
    (ap (λ x. pages_below n z.free_list + block_size x) same, refl, e)
split-counts n page order (suc k) z h e =
    let z' = put_block (page + block_size (order + k)) (order + k) z in
    let more = put_block-counts n (page + block_size (order + k)) (order + k) z (omega arith) in
    let (pages, same, each) =
      split-counts n page order k z' (omega arith)
        (put_block-each (page + block_size (order + k)) (order + k) z e) in
    let twice : block_size (order + suc k) ≡ block_size (order + k) + block_size (order + k) =
      let e : order + suc k ≡ suc (order + k) = omega arith in ap block_size e in
    (omega arith, same, each)

-- What taking `gone` pages from a zone does to its accounts.
pub record Removes (n gone : ℕ) (z z' : Zone) : Type 0 where
  pub pages : pages_below n z'.free_list + gone ≡ pages_below n z.free_list
  pub total : z'.free_pages ≡ z.free_pages - gone
  pub each : (o : ℕ) → z'.nr_free o ≡ length (z'.free_list o)

pub search_area-Removes :
    (n left order k page : ℕ) (z z' : Zone)
    → order + k + left ≤ n
    → ((o : ℕ) → nodup (z.free_list o) ≡ true)
    → ((o : ℕ) → z.nr_free o ≡ length (z.free_list o))
    → search_area left order k z ≡ some (page, z')
    → Removes n (block_size order) z z'
unfolding search_area
search_area-Removes n zero order k page z z' h once each e = absurd (ground arith)
search_area-Removes n (suc left) order k page z z' h once each e =
    elim (List-cases (z.free_list (order + k))) [
      | inl empty ↦
          search_area-Removes n left order (k + 1) page z z' (omega arith) once each (ground arith)
      | inr (first, rest, full) ↦
          let there : has first (z.free_list (order + k)) ≡ true = ground arith in
          let z1 = take_block first (order + k) out_of_buddy z in
          let z2 = record z1 { free_pages = z.free_pages - block_size order } in
          let less =
            take_block-counts n first (order + k) out_of_buddy z (omega arith) (once (order + k))
              there in
          let counted =
            take_block-each first (order + k) out_of_buddy z (once (order + k)) there each in
          let (pages, total, all) = split-counts n first order k z2 (omega arith) counted in
          let run : split first order k z2 ≡ z' = ground arith in
          subst (Removes n (block_size order) z) run
            (record { pages = omega arith; total = total; each = all })
    ]
