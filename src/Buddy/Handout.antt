-- ===== src/Buddy/Handout.antt =====
-- The block that `__rmqueue` of kern/buddy.c hands out is no longer free, and all other pages are.
use wei_os.Buddy.{
  out_of_buddy, unlink, some, take_block, true, memlevel, block_size, put_block, ltb, ◌∷◌, suc,
  Zone, List, rmqueue, search_area, split, ℕ, update,
}
use wei_os.Buddy.Count.{IsCounted, Removes, search_area-Removes}
use wei_os.Common.{
  inr, unlink-absent, inl, ◌-◌, List-cases, ◌∙◌, ◌==◌, Bool-cases, arith, ◌≤◌, nodup, zero, [],
  ◌&&◌, ◌≡◌, ◌<◌, ◌+◌, leb, if◌then◌else◌, refl,
}
use mathlib.Core.Path.{ap, sym, subst}

-- 1 for a page of the block of an order, and 0 for any other.
abbrev pub in_block : ℕ → ℕ → ℕ → ℕ
in_block order first p = if leb first p && ltb p (first + block_size order) then 1 else 0

-- How many blocks of a list, and of the lists of the first `n` orders, a page is in.
abbrev pub in_blocks : ℕ → List ℕ → ℕ → ℕ
in_blocks order [] p = 0
in_blocks order (x ∷ xs) p = in_block order x p + in_blocks order xs p

abbrev pub covers : ℕ → (ℕ → List ℕ) → ℕ → ℕ
covers zero l p = 0
covers (suc n) l p = covers n l p + in_blocks n (l n) p

covers-update :
    (p n o : ℕ) (l : ℕ → List ℕ) (xs : List ℕ)
    → covers n (update l o xs) p + (if ltb o n then in_blocks o (l o) p else 0)
      ≡ covers n l p + (if ltb o n then in_blocks o xs p else 0)
covers-update p zero o l xs = ground arith
covers-update p (suc n) o l xs =
    let rest = covers-update p n o l xs in
    elim (Bool-cases (o == n)) [
      | inl here ↦
          let e : o ≡ n = ground arith in
          let new : in_blocks n (update l o xs n) p ≡ in_blocks o xs p =
            rw here (ap (λ i. in_blocks i xs p) (sym e)) in
          let old : in_blocks n (l n) p ≡ in_blocks o (l o) p =
            ap (λ i. in_blocks i (l i) p) (sym e) in
          ground (arith, rest, new, old)
      | inr other ↦
          let same : in_blocks n (update l o xs n) p ≡ in_blocks n (l n) p = rw other refl in
          ground (arith, rest, same)
    ]

put_block-covers :
    (p n page o : ℕ) (z : Zone)
    → o < n
    → covers n (put_block page o z).free_list p ≡ covers n z.free_list p + in_block o page p
put_block-covers p n page o z h =
    let sum = covers-update p n o z.free_list (page ∷ z.free_list o) in
    let inside : ltb o n ≡ true = ground arith in
    let more : in_blocks o (page ∷ z.free_list o) p
        ≡ in_block o page p + in_blocks o (z.free_list o) p =
      refl in
    ground (arith, sum, more)

-- The first page of a list of distinct pages is taken.
take_block-covers :
    (p n page o mark : ℕ) (rest : List ℕ) (z : Zone)
    → o < n
    → nodup (z.free_list o) ≡ true
    → z.free_list o ≡ page ∷ rest
    → covers n (take_block page o mark z).free_list p + in_block o page p ≡ covers n z.free_list p
take_block-covers p n page o mark rest z h once full =
    let left : unlink page (z.free_list o) ≡ rest =
      ap (unlink page) full ∙ ground (arith, unlink-absent page rest, ap nodup full, once) in
    let sum = covers-update p n o z.free_list (unlink page (z.free_list o)) in
    let inside : ltb o n ≡ true = ground arith in
    let before : in_blocks o (z.free_list o) p ≡ in_block o page p + in_blocks o rest p =
      ap (λ xs. in_blocks o xs p) full in
    let after : in_blocks o (unlink page (z.free_list o)) p ≡ in_blocks o rest p =
      ap (λ xs. in_blocks o xs p) left in
    ground (arith, sum, before, after)

in_block-halves :
    (order page p : ℕ)
    → in_block (suc order) page p
      ≡ in_block order page p + in_block order (page + block_size order) p
in_block-halves order page p = ground arith

split-covers :
    (p n page order k : ℕ) (z : Zone)
    → order + k ≤ n
    → covers n (split page order k z).free_list p + in_block order page p
      ≡ covers n z.free_list p + in_block (order + k) page p
unfolding split
split-covers p n page order zero z h =
    let same : order ≡ order + 0 = omega arith in
    ap (λ x. covers n z.free_list p + in_block x page p) same
split-covers p n page order (suc k) z h =
    let half = page + block_size (order + k) in
    let z' = put_block half (order + k) z in
    let more = put_block-covers p n half (order + k) z (omega arith) in
    let rest = split-covers p n page order k z' (omega arith) in
    let e : order + suc k ≡ suc (order + k) = omega arith in
    let halves = ap (λ x. in_block x page p) e ∙ in_block-halves (order + k) page p in
    omega (arith, more, rest, halves)

search_area-covers :
    (p n left order k page : ℕ) (z z' : Zone)
    → order + k + left ≤ n
    → ((o : ℕ) → nodup (z.free_list o) ≡ true)
    → search_area left order k z ≡ some (page, z')
    → covers n z'.free_list p + in_block order page p ≡ covers n z.free_list p
unfolding search_area
search_area-covers p n zero order k page z z' h once e = absurd (ground arith)
search_area-covers p n (suc left) order k page z z' h once e =
    elim (List-cases (z.free_list (order + k))) [
      | inl empty ↦
          search_area-covers p n left order (k + 1) page z z' (omega arith) once (ground arith)
      | inr (first, rest, full) ↦
          let z1 = take_block first (order + k) out_of_buddy z in
          let z2 : Zone = record z1 { free_pages = z.free_pages - block_size order } in
          let less =
            take_block-covers p n first (order + k) out_of_buddy rest z (omega arith)
              (once (order + k)) full in
          let back = split-covers p n first order k z2 (omega arith) in
          let run : split first order k z2 ≡ z' = ground arith in
          let same : first ≡ page = ground arith in
          let result : covers n (split first order k z2).free_list p + in_block order first p
              ≡ covers n z.free_list p =
            omega (arith, less, back) in
          subst (λ y. covers n y.free_list p + in_block order page p ≡ covers n z.free_list p) run
            (subst
              (λ y.
                covers n (split first order k z2).free_list p + in_block order y p
                ≡ covers n z.free_list p)
              same result)
    ]

-- `__rmqueue` keeps the accounts: the counters of the lists and of the zone still agree with the lists,
-- however large the block was that had to be split, and each page of the zone is in as many free blocks
-- as before, but for those of the block of the wanted order that is handed out, which are in one fewer.
-- The pages of each list are distinct.
pub rmqueue-IsCounted :
    (order page : ℕ) (z z' : Zone)
    → order < memlevel
    → IsCounted memlevel z
    → ((o : ℕ) → nodup (z.free_list o) ≡ true)
    → rmqueue z order ≡ some (page, z')
    → IsCounted memlevel z'
      × (z'.free_pages + block_size order ≡ z.free_pages)
      × ((p : ℕ)
          → covers memlevel z'.free_list p + in_block order page p ≡ covers memlevel z.free_list p)
unfolding rmqueue
rmqueue-IsCounted order page z z' h v once e =
    let done =
      search_area-Removes memlevel (memlevel - order) order 0 page z z' (omega arith) once v.each
        e in
    let (counted, total) = settle memlevel (block_size order) z z' v done in
    (
      counted,
      total,
      λ p. search_area-covers p memlevel (memlevel - order) order 0 page z z' (omega arith) once e,
    )
  where
    settle :
        (n gone : ℕ) (z z' : Zone)
        → IsCounted n z
        → Removes n gone z z'
        → IsCounted n z' × (z'.free_pages + gone ≡ z.free_pages)
    settle n gone z z' v r =
        let total = v.total in
        let left = r.total in
        let pages = r.pages in (record { total = omega arith; each = r.each }, omega arith)
