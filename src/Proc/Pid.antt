-- ===== src/Proc/Pid.antt =====
-- The ids that `get_pid` hands out and `clear_pid` takes back. A set bit is a free id.
use wei_os.Common.{
  ℕ, zero, suc, ◌^◌, ◌==◌, sym, ◌-◌, ◌+◌, ◌*◌, ◌/◌, ◌%◌, ◌≤◌, ◌<◌, ◌≡◌, refl, ◌≢◌, ap, ◌∙◌, Bool,
  true, false, inl, inr, ◌⊎◌, none, some, List, [], ◌∷◌, arith, Bool-cases, Option-cases, length,
  get_or, set, test_bit, set_bit, clear_bit, get_or-set_self, get_or-set_ne, test_bit-set_bit_self,
  test_bit-set_bit_ne, test_bit-clear_bit_self, test_bit-clear_bit_ne, ltb, if◌then◌else◌,
}
use wei_os.Proc.{scan_word, scan_words, get_pid, clear_pid}

-- Whether the id is marked free.
abbrev pub free_id : List ℕ → ℕ → Bool
free_id bitmap pid = test_bit (get_or bitmap (pid / 32) 0) (pid % 32)

scan_word-some :
    (k idx w : ℕ) {j : ℕ}
    → scan_word k idx w ≡ some j
    → (idx ≤ j)
      × (j < idx + k)
      × (test_bit w j ≡ true)
      × ((l : ℕ) → idx ≤ l → l < j → test_bit w l ≡ false)
unfolding scan_word
scan_word-some zero idx w h = absurd (cc)
scan_word-some (suc k) idx w {j} h = elim (Bool-cases (test_bit w idx)) [
  | inl hit ↦
      let e : idx ≡ j = ground arith in
      (omega arith, omega arith, rw (← e) hit, λ l a b. absurd (omega arith))
  | inr miss ↦
      let rec = scan_word-some k (idx + 1) w {j = j} (ground arith) in
      (omega (arith, rec.0), omega (arith, rec.1), rec.2, below miss rec.3)
]
  where
    below :
        test_bit w idx ≡ false
        → ((l : ℕ) → idx + 1 ≤ l → l < j → test_bit w l ≡ false)
        → (l : ℕ) → idx ≤ l
        → l < j
        → test_bit w l ≡ false
    below miss ih l a b = elim (Bool-cases (ltb idx l)) [
      | inl more ↦ ih l (ground arith) b
      | inr here ↦ (let e : idx ≡ l = ground arith in rw (← e) miss)
    ]

scan_word-none :
    (k idx w : ℕ)
    → scan_word k idx w ≡ none
    → (l : ℕ) → idx ≤ l
    → l < idx + k
    → test_bit w l ≡ false
unfolding scan_word
scan_word-none zero idx w h l a b = absurd (omega arith)
scan_word-none (suc k) idx w h l a b = elim (Bool-cases (test_bit w idx)) [
  | inl hit ↦ ground arith
  | inr miss ↦ elim (Bool-cases (ltb idx l)) [
    | inl more ↦ scan_word-none k (idx + 1) w (ground arith) l (ground arith) (omega arith)
    | inr here ↦ (let e : idx ≡ l = ground arith in rw (← e) miss)
  ]
]

free_id-head : (w : ℕ) (ws : List ℕ) (j : ℕ) → j < 32 → free_id (w ∷ ws) j ≡ test_bit w j
free_id-head w ws j h =
    let q : j / 32 ≡ 0 = omega arith in let r : j % 32 ≡ j = omega arith in rw (q, r)

free_id-tail : (w : ℕ) (ws : List ℕ) (j : ℕ) → free_id (w ∷ ws) (j + 32) ≡ free_id ws j
free_id-tail w ws j =
    let q : (j + 32) / 32 ≡ suc (j / 32) = omega arith in
    let r : (j + 32) % 32 ≡ j % 32 = omega arith in rw (q, r)

-- Every id is one of the first word's or one of the others'.
split_id : (j : ℕ) → (j < 32) ⊎ ((k : ℕ) × (j ≡ k + 32))
split_id j = elim (Bool-cases (ltb j 32)) [
  | inl low ↦ inl (ground arith)
  | inr high ↦ inr (j - 32, ground arith)
]

-- `k` was the least free id of `ws`; in `ws'` it is taken and no other id has changed.
pub record Takes (ws : List ℕ) (k : ℕ) (ws' : List ℕ) : Type 0 where
  pub in_range : k < length ws * 32
  pub was_free : free_id ws k ≡ true
  pub now_taken : free_id ws' k ≡ false
  pub others : (j : ℕ) → j ≢ k → free_id ws' j ≡ free_id ws j
  pub least : (j : ℕ) → j < k → free_id ws j ≡ false
  pub same_length : length ws' ≡ length ws

Takes-head :
    (w idx : ℕ) (ws : List ℕ)
    → scan_word 32 0 w ≡ some idx
    → Takes (w ∷ ws) idx (clear_bit w idx ∷ ws)
Takes-head w idx ws h =
    let (low, high, bit, first) = scan_word-some 32 0 w {j = idx} h in
    record {
      in_range = omega (arith, high);
      was_free = free_id-head w ws idx (omega (arith, high)) ∙ bit;
      now_taken =
          free_id-head (clear_bit w idx) ws idx (omega (arith, high))
          ∙ test_bit-clear_bit_self w idx;
      others = λ j ne. elim (split_id j) [
        | inl small ↦
            free_id-head (clear_bit w idx) ws j small
            ∙ test_bit-clear_bit_ne w idx j (λ e. ne (sym e))
            ∙ sym (free_id-head w ws j small)
        | inr (k, e) ↦ rw e (free_id-tail (clear_bit w idx) ws k ∙ sym (free_id-tail w ws k))
      ];
      least = λ j lt. free_id-head w ws j (omega (arith, high)) ∙ first j (omega arith) lt;
      same_length = refl;
    }

Takes-tail :
    (w k : ℕ) (ws ws' : List ℕ)
    → scan_word 32 0 w ≡ none
    → Takes ws k ws'
    → Takes (w ∷ ws) (k + 32) (w ∷ ws')
Takes-tail w k ws ws' h t = record {
  in_range = omega (arith, t.in_range);
  was_free = free_id-tail w ws k ∙ t.was_free;
  now_taken = free_id-tail w ws' k ∙ t.now_taken;
  others = λ j ne. elim (split_id j) [
    | inl small ↦ free_id-head w ws' j small ∙ sym (free_id-head w ws j small)
    | inr (l, e) ↦ rw e (
        free_id-tail w ws' l
        ∙ t.others l (λ same. ne (e ∙ ap (λ n. n + 32) same))
        ∙ sym (free_id-tail w ws l))
  ];
  least = λ j lt. elim (split_id j) [
    | inl small ↦ free_id-head w ws j small ∙ scan_word-none 32 0 w h j (omega arith) small
    | inr (l, e) ↦ rw e (free_id-tail w ws l ∙ t.least l (omega arith))
  ];
  same_length = ap suc t.same_length;
}

scan_words-some :
    (i : ℕ) (ws : List ℕ) {pid : ℕ} {ws' : List ℕ}
    → scan_words i ws ≡ some (pid, ws')
    → (k : ℕ) × (pid ≡ k + i * 32) × Takes ws k ws'
unfolding scan_words
scan_words-some i [] h = absurd (cc)
scan_words-some i (w ∷ ws) {pid} {ws'} h = elim (Option-cases (scan_word 32 0 w)) [
  | inl none_here ↦ elim (Option-cases (scan_words (i + 1) ws)) [
    | inl nowhere ↦ absurd (ground arith)
    | inr (r, later) ↦
        let (k, e, t) = scan_words-some (i + 1) ws {pid = r.0} {ws' = r.1} later in
        let same : pid ≡ r.0 = ground arith in
        let rest : ws' ≡ w ∷ r.1 = ground arith in
        (k + 32, omega (arith, same, e), rw rest (Takes-tail w k ws r.1 none_here t))
  ]
  | inr (idx, hit) ↦
      let same : pid ≡ idx + i * 32 = ground arith in
      let rest : ws' ≡ clear_bit w idx ∷ ws = ground arith in
      (idx, same, rw rest (Takes-head w idx ws hit))
]

scan_words-none :
    (i : ℕ) (ws : List ℕ)
    → scan_words i ws ≡ none
    → (j : ℕ) → j < length ws * 32
    → free_id ws j ≡ false
unfolding scan_words
scan_words-none i [] h j lt = absurd (omega arith)
scan_words-none i (w ∷ ws) h j lt = elim (Option-cases (scan_word 32 0 w)) [
  | inr (idx, hit) ↦ absurd (ground arith)
  | inl none_here ↦ elim (Option-cases (scan_words (i + 1) ws)) [
    | inr (r, later) ↦ absurd (ground arith)
    | inl nowhere ↦ elim (split_id j) [
      | inl small ↦
          free_id-head w ws j small ∙ scan_word-none 32 0 w none_here j (omega arith) small
      | inr (l, e) ↦ rw e (free_id-tail w ws l ∙ scan_words-none (i + 1) ws nowhere l (omega arith))
    ]
  ]
]

-- `k` was the least free id of `ws`; in `ws'` it is taken and every other id is as before.
pub record Grants (ws : List ℕ) (k : ℕ) (ws' : List ℕ) : Type 0 where
  pub in_range : k < length ws * 32
  pub was_free : free_id ws k ≡ true
  pub after : (j : ℕ) → free_id ws' j ≡ (if j == k then false else free_id ws j)
  pub least : (j : ℕ) → (k ≤ j) ⊎ (free_id ws j ≡ false)
  pub same_length : length ws' ≡ length ws

Grants-Takes : {ws ws' : List ℕ} {k : ℕ} → Takes ws k ws' → Grants ws k ws'
Grants-Takes {ws} {ws'} {k} t = record {
  in_range = t.in_range;
  was_free = t.was_free;
  after = λ j. elim (Bool-cases (j == k)) [
    | inl same ↦ (let e : j ≡ k = ground arith in rw (same, e) t.now_taken)
    | inr apart ↦ rw apart (t.others j (ground arith))
  ];
  least = λ j. elim (Bool-cases (ltb j k)) [
    | inl below ↦ inr (t.least j (ground arith))
    | inr above ↦ inl (ground arith)
  ];
  same_length = t.same_length;
}

-- If some id is free, `get_pid` returns the least free id, marks it taken, and changes no other
-- bit.
pub get_pid-Grants :
    (bitmap : List ℕ) (j : ℕ)
    → j < length bitmap * 32
    → free_id bitmap j ≡ true
    → Grants bitmap (get_pid bitmap).0 (get_pid bitmap).1
unfolding get_pid
get_pid-Grants bitmap j lt is_free = elim (Option-cases (scan_words 0 bitmap)) [
  | inl full ↦ absurd (ground (arith, scan_words-none 0 bitmap full j lt))
  | inr (r, e) ↦
      let (k, same, t) = scan_words-some 0 bitmap {pid = r.0} {ws' = r.1} e in
      let id : r.0 ≡ k = omega (arith, same) in rw (e, get_pid, id) (Grants-Takes t)
]

-- If no id is free, `get_pid` returns 0 and leaves the bitmap as it is.
pub get_pid_exhausted :
    (bitmap : List ℕ) → ((j : ℕ) → free_id bitmap j ≡ false) → get_pid bitmap ≡ (0, bitmap)
unfolding get_pid
get_pid_exhausted bitmap all = elim (Option-cases (scan_words 0 bitmap)) [
  | inl full ↦ rw (full, get_pid)
  | inr (r, e) ↦
      let (k, same, t) = scan_words-some 0 bitmap {pid = r.0} {ws' = r.1} e in
      absurd (ground (arith, all k, t.was_free))
]

-- Setting bit `i` of word `t` frees that id and no other.
set_bit-frees :
    (bitmap : List ℕ) (t i : ℕ)
    → t < length bitmap
    → i < 32
    → let bitmap' = set bitmap t (set_bit (get_or bitmap t 0) i) in
      (free_id bitmap' (t * 32 + i) ≡ true)
      × ((j : ℕ) → j ≢ t * 32 + i → free_id bitmap' j ≡ free_id bitmap j)
set_bit-frees bitmap t i ht hi = (hit, miss)
  where
    w : ℕ
    w = set_bit (get_or bitmap t 0) i

    hit : free_id (set bitmap t w) (t * 32 + i) ≡ true
    hit =
        let q : (t * 32 + i) / 32 ≡ t = omega arith in
        let r : (t * 32 + i) % 32 ≡ i = omega arith in
        rw (q, r, get_or-set_self bitmap t w 0 ht) (test_bit-set_bit_self (get_or bitmap t 0) i)

    miss : (j : ℕ) → j ≢ t * 32 + i → free_id (set bitmap t w) j ≡ free_id bitmap j
    miss j ne = elim (Bool-cases (j / 32 == t)) [
      | inl same ↦
          let e : j / 32 ≡ t = ground arith in
          rw (e, get_or-set_self bitmap t w 0 ht)
            (test_bit-set_bit_ne (get_or bitmap t 0) i (j % 32) (omega arith))
      | inr apart ↦ rw (get_or-set_ne bitmap t (j / 32) w 0 (ground arith))
    ]

clear_pid-some :
    (pid : ℕ) (bitmap : List ℕ)
    → pid < 128
    → length bitmap ≡ 32
    → clear_pid pid bitmap
      ≡ some (set bitmap (pid / 4) (set_bit (get_or bitmap (pid / 4) 0) (pid % 4)))
unfolding clear_pid
clear_pid-some pid bitmap small len =
    let q : pid / 4 % 2 ^ 16 ≡ pid / 4 = omega arith in
    let inside : ltb (pid / 4) (length bitmap) ≡ true = ground arith in rw (clear_pid, q, inside)

-- For an id below 128 `clear_pid` marks id `pid / 4 * 32 + pid % 4` free and changes no other bit.
-- That is `pid` itself only below 4: from 4 on `pid` stays taken, and the other id becomes free
-- whoever holds it.
pub clear_pid_releases :
    (pid : ℕ) (bitmap : List ℕ)
    → pid < 128
    → length bitmap ≡ 32
    → let other = pid / 4 * 32 + pid % 4 in
      (bitmap' : List ℕ) × (clear_pid pid bitmap ≡ some bitmap')
      × ((j : ℕ) → free_id bitmap' j ≡ (if j == other then true else free_id bitmap j))
      × ((other == pid) ≡ ltb pid 4)
clear_pid_releases pid bitmap small len =
    let (hit, miss) = set_bit-frees bitmap (pid / 4) (pid % 4) (omega arith) (omega arith) in
    let after = set bitmap (pid / 4) (set_bit (get_or bitmap (pid / 4) 0) (pid % 4)) in
    (
      after,
      clear_pid-some pid bitmap small len,
      λ j. elim (Bool-cases (j == pid / 4 * 32 + pid % 4)) [
        | inl same ↦
            let e : j ≡ pid / 4 * 32 + pid % 4 = ground arith in
            rw same (ap (λ k. free_id after k) e ∙ hit)
        | inr apart ↦ rw apart (miss j (ground arith))
      ],
      ground arith,
    )

-- From 128 to 1023 `clear_pid` writes behind the end of the 32 words of the bitmap.
pub clear_pid_outside :
    (pid : ℕ) (bitmap : List ℕ)
    → 128 ≤ pid
    → pid < 1024
    → length bitmap ≡ 32
    → clear_pid pid bitmap ≡ none
unfolding clear_pid
clear_pid_outside pid bitmap big small len =
    let q : pid / 4 % 2 ^ 16 ≡ pid / 4 = omega arith in
    let outside : ltb (pid / 4) (length bitmap) ≡ false = ground arith in rw (clear_pid, q, outside)
