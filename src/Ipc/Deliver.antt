-- ===== src/Ipc/Deliver.antt =====
-- What a message brings to the process that waits for it.
use wei_os.Ipc.{
  wake_receiver, with_space, pte_w, pte_syscall, bit_and, space, utop, ipc_try_send, ipc_recv,
  Memory, Ipc, delivered, no_memory,
}
use wei_os.Paging.{uvpt_index, ptindex, pdindex, pgdir_walk, update}
use wei_os.Paging.Translate.{IsValid, translate}
use wei_os.Common.{
  not, ◌≢◌, ltb, ◌&&◌, if◌then◌else◌, ◌-◌, ◌^◌, ◌%◌, ◌∙◌, true, List-cases, inr, ◌==◌, inl,
  Bool-cases, arith, ◌<◌, [], ◌⊎◌, false, ◌≡◌, ℕ, refl, none, some,
}
use wei_os.Paging.{page_insert, page_lookup, pgdir_walk}
use wei_os.Common.{Option-cases}
use wei_os.Common.{Option-cases}
use wei_os.Ipc.{send_page, Sent}
use wei_os.Paging.Translate.{page_insert-Mapped}
use wei_os.Common.{ap, sym}
use mathlib.Core.Path.{subst}
use wei_os.Paging.{no_entry}

walk_refused :
    (va : ℕ) (m : Memory)
    → (pgdir_walk true va m).0 ≡ none
    → (m.fresh ≡ []) × ((pgdir_walk true va m).1 ≡ m)
unfolding pgdir_walk
walk_refused va m h = elim (Bool-cases (m.pgdir (pdindex va)).present) [
  | inl there ↦ absurd (ground (arith, h))
  | inr absent ↦ elim (List-cases m.fresh) [
    | inl empty ↦ (empty, ground arith)
    | inr (f, rest, more) ↦ absurd (ground (arith, h, more))
  ]
]

-- A page can only be refused for want of a frame for a table.
page_insert_refused :
    (pp va perm : ℕ) (m : Memory)
    → ((page_insert pp va perm m).0 ≡ 0)
      ⊎ (((page_insert pp va perm m).0 ≡ 1) × (m.fresh ≡ []) × ((page_insert pp va perm m).1 ≡ m))
unfolding page_insert
page_insert_refused pp va perm m = elim (Option-cases (pgdir_walk true va m).0) [
  | inl failed ↦
      let (empty, same) = walk_refused va m failed in
      let run : (page_insert pp va perm m).1 ≡ (pgdir_walk true va m).1 = ground arith in
      inr (ground arith, empty, run ∙ same)
  | inr ((t, k), found) ↦ inl (ground arith)
]

-- The page of an address, with its entry.
page_lookup_present :
    (va pp : ℕ) (m : Memory)
    → translate va m ≡ some pp
    → pp < m.npages_num
    → page_lookup va m ≡ some (pp, (m.pgdir (pdindex va)).frame, ptindex va)
unfolding page_lookup pgdir_walk
page_lookup_present va pp m h small = ground (arith, h)

-- A receiver with the message.
abbrev pub Got : ℕ → ℕ → ℕ → ℕ → Ipc → Type 0
Got cur to val perm s =
    (s.from to ≡ cur)
    × (s.value to ≡ val)
    × (s.perm to ≡ perm)
    × (s.recving to ≡ false)
    × (s.asleep to ≡ false)

-- A process that waits for a page at `va`.
abbrev waits : ℕ → ℕ → Ipc → Ipc
waits to va s = record s {
  dstva = update s.dstva to va;
  recving = update s.recving to true;
  asleep = update s.asleep to true;
}

ipc_recv-waits : (to va : ℕ) (s : Ipc) → va % 4096 ≡ 0 → (ipc_recv to va s).1 ≡ waits to va s
unfolding ipc_recv
ipc_recv-waits to va s h =
    let free : (ltb va utop && not (va % 4096 == 0)) ≡ false = ground arith in rw free refl

ipc_try_send-page :
    (cur to val srcva perm : ℕ) (s : Ipc)
    → s.lives to ≡ true
    → s.recving to ≡ true
    → s.dstva to < utop
    → srcva < utop
    → ipc_try_send cur to val srcva perm s ≡ send_page cur to val srcva perm s
unfolding ipc_try_send
ipc_try_send-page cur to val srcva perm s a b c d =
    let page : (ltb (s.dstva to) utop && ltb srcva utop) ≡ true = ground arith in
    rw (a, b, page) refl

-- What a page transfer does once its checks are passed.
abbrev sent : ℕ → ℕ → ℕ → ℕ → ℕ → Ipc → Sent × Ipc
sent cur to val perm pp s =
    let inserted = page_insert pp (s.dstva to) perm (space to s) in
    let s' = with_space to inserted.1 s in
    if inserted.0 == 0 then (delivered, wake_receiver cur to val perm s') else (no_memory, s')

send_page_checked :
    (cur to val srcva perm pp : ℕ) (s : Ipc)
    → srcva % 4096 ≡ 0
    → page_lookup srcva (space cur s)
      ≡ some (pp, (s.directory cur (pdindex srcva)).frame, ptindex srcva)
    → bit_and perm (2 ^ 32 - 1 - pte_syscall) ≡ 0
    → (bit_and perm pte_w ≡ 0)
      ⊎ (bit_and (s.memory.table (s.directory cur (pdindex srcva)).frame (ptindex srcva)).perm pte_w
          ≢ 0)
    → send_page cur to val srcva perm s ≡ sent cur to val perm pp s
unfolding send_page
send_page_checked cur to val srcva perm pp s aligned place allowed writable =
    let start : (srcva % 4096 == 0) ≡ true = ground arith in
    let good : (bit_and perm (2 ^ 32 - 1 - pte_syscall) == 0) ≡ true = ground arith in
    let write : (not (bit_and perm pte_w == 0)
          && bit_and (s.memory.table (s.directory cur (pdindex srcva)).frame (ptindex srcva)).perm
              pte_w
            == 0)
        ≡ false =
      ground arith in
    rw (start, place) (rw (good, write) refl)

-- The message is delivered, with a page at `va` and no other change of the pages of the receiver
-- outside its window at UVPT, or there was no frame for a table and no page changes.
abbrev pub Arrival : ℕ → ℕ → ℕ → ℕ → ℕ → ℕ → Ipc → Sent × Ipc → Type 0
Arrival cur to val va perm pp s r =
    ((r.0 ≡ delivered)
      × Got cur to val perm r.1
      × ((a : ℕ)
          → (pdindex a == uvpt_index) ≡ false
          → translate a (space to r.1) ≡ (
              if pdindex a == pdindex va && ptindex a == ptindex va
              then some pp
              else translate a (space to s))))
    ⊎ ((r.0 ≡ no_memory)
        × (s.memory.fresh ≡ [])
        × ((a : ℕ) → translate a (space to r.1) ≡ translate a (space to s)))

space-with_space : (p : ℕ) (m : Memory) (s : Ipc) → space p (with_space p m s) ≡ m
space-with_space p m s = let here : (p == p) ≡ true = ground arith in rw here refl

sent-Arrival :
    (cur to val va perm pp : ℕ) (s : Ipc)
    → IsValid (space to s)
    → va < utop
    → Arrival cur to val va perm pp s (sent cur to val perm pp (waits to va s))
sent-Arrival cur to val va perm pp s valid below =
    let at : (waits to va s).dstva to ≡ va = ground arith in
    let m = (page_insert pp va perm (space to s)).1 in
    rw at (elim (page_insert_refused pp va perm (space to s)) [
      | inl ok ↦
          let mapped = page_insert-Mapped pp va perm (space to s) valid (ground arith) ok in
          rw ok (
            inl (
              refl,
              (ground arith, ground arith, ground arith, ground arith, ground arith),
              (λ a outside.
                  ap (translate a) (space-with_space to m s) ∙ mapped.translated a outside),
            ))
      | inr (failed, empty, same) ↦
          rw failed (inr (refl, empty, λ a. ap (translate a) (space-with_space to m s ∙ same)))
    ])

transferred :
    (cur to val va srcva perm pp : ℕ) (s : Ipc)
    → s.lives to ≡ true
    → va < utop
    → va % 4096 ≡ 0
    → srcva < utop
    → srcva % 4096 ≡ 0
    → page_lookup srcva (space cur s)
      ≡ some (pp, (s.directory cur (pdindex srcva)).frame, ptindex srcva)
    → bit_and perm (2 ^ 32 - 1 - pte_syscall) ≡ 0
    → (bit_and perm pte_w ≡ 0)
      ⊎ (bit_and (s.memory.table (s.directory cur (pdindex srcva)).frame (ptindex srcva)).perm pte_w
          ≢ 0)
    → IsValid (space to s)
    → Arrival cur to val va perm pp s (ipc_try_send cur to val srcva perm (ipc_recv to va s).1)
transferred cur to val va srcva perm pp s lives small aligned src_small src_aligned place allowed
      writable valid =
    let w = waits to va s in
    let run : ipc_try_send cur to val srcva perm (ipc_recv to va s).1 ≡ sent cur to val perm pp w =
      ap (ipc_try_send cur to val srcva perm) (ipc_recv-waits to va s aligned)
      ∙ ipc_try_send-page cur to val srcva perm w lives (ground arith) (ground arith) src_small
      ∙ send_page_checked cur to val srcva perm pp w src_aligned place allowed writable in
    subst (Arrival cur to val va perm pp s) (sym run)
      (sent-Arrival cur to val va perm pp s valid small)

-- When a process that lives, and whose tables are separate, has called `ipc_recv` for a page at an
-- aligned `va` below UTOP, a send to it of a page that the sender has at
-- an aligned `srcva` below UTOP, with permissions that it may give, brings the receiver the sender's identifier, the value
-- and the permissions, wakes it up, and maps the sender's page at `va` and nothing else in the
-- receiver outside its window of page tables at UVPT; or no frame is left for a table and the send fails without a change of what is mapped.
pub ipc_recv-ipc_try_send :
    (cur to val va srcva perm pp : ℕ) (s : Ipc)
    → s.lives to ≡ true
    → va < utop
    → va % 4096 ≡ 0
    → srcva < utop
    → srcva % 4096 ≡ 0
    → translate srcva (space cur s) ≡ some pp
    → pp < s.memory.npages_num
    → bit_and perm (2 ^ 32 - 1 - pte_syscall) ≡ 0
    → (bit_and perm pte_w ≡ 0)
      ⊎ (bit_and (s.memory.table (s.directory cur (pdindex srcva)).frame (ptindex srcva)).perm pte_w
          ≢ 0)
    → IsValid (space to s)
    → Arrival cur to val va perm pp s (ipc_try_send cur to val srcva perm (ipc_recv to va s).1)
ipc_recv-ipc_try_send cur to val va srcva perm pp s lives small aligned src_small src_aligned mapped
      inside allowed writable valid =
    transferred cur to val va srcva perm pp s lives small aligned src_small src_aligned
      (page_lookup_present srcva pp (space cur s) mapped inside) allowed writable valid

page_lookup_absent :
    (va : ℕ) (m : Memory)
    → (m.pgdir (pdindex va)).present ≡ true
    → m.table (m.pgdir (pdindex va)).frame (ptindex va) ≡ no_entry
    → 0 < m.npages_num
    → (translate va m ≡ none)
      × (page_lookup va m ≡ some (0, (m.pgdir (pdindex va)).frame, ptindex va))
unfolding page_lookup pgdir_walk
page_lookup_absent va m there absent some_page = (ground arith, ground arith)

-- When the receiver waits for a page at `va` and the sender has a table for `srcva` and no page at it, a send of that page for reading is not
-- refused: it does what a send of the page with frame 0 does, where the page mapped is told outside
-- the receiver's window at UVPT.
pub ipc_try_send_absent :
    (cur to val va srcva perm : ℕ) (s : Ipc)
    → s.lives to ≡ true
    → va < utop
    → va % 4096 ≡ 0
    → srcva < utop
    → srcva % 4096 ≡ 0
    → (s.directory cur (pdindex srcva)).present ≡ true
    → s.memory.table (s.directory cur (pdindex srcva)).frame (ptindex srcva) ≡ no_entry
    → 0 < s.memory.npages_num
    → bit_and perm (2 ^ 32 - 1 - pte_syscall) ≡ 0
    → bit_and perm pte_w ≡ 0
    → IsValid (space to s)
    → (translate srcva (space cur s) ≡ none)
      × Arrival cur to val va perm 0 s (ipc_try_send cur to val srcva perm (ipc_recv to va s).1)
ipc_try_send_absent cur to val va srcva perm s lives small aligned src_small src_aligned there
      absent some_page allowed read_only valid =
    let (unmapped, place) = page_lookup_absent srcva (space cur s) there absent some_page in
    (
      unmapped,
      transferred cur to val va srcva perm 0 s lives small aligned src_small src_aligned place
          allowed (inl read_only) valid,
    )
