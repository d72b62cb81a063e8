-- ===== src/Proc/Tests.antt =====
-- A table with two processes, and the theorems at it.
use wei_os.Common.{
  test_bit-zero, zero, suc, ℕ, ◌/◌, ◌%◌, ◌≡◌, refl, false, List, [], ◌∷◌, arith, get_or, replicate,
}
use wei_os.Proc.{Manager, Proc, runnable, get_pid, scan_words, scan_word}
use wei_os.Proc.Pid.{free_id, Grants, get_pid-Grants}

abbrev words : List ℕ
words = 0xFFFFFFFC ∷ replicate 31 0xFFFFFFFF

abbrev holder : ℕ → Proc
holder p = record { pid = p / 100; ppid = 0; status = runnable }

-- Processes 1 and 2, in the descriptors at 100 and 200.
abbrev manager : Manager
manager = record {
  alive = 2;
  id_bitmap = words;
  proc_table = 0 ∷ 100 ∷ 200 ∷ replicate 1021 0;
  descs_cache = [];
  desc = holder;
}

get_pid_first : (get_pid words).0 ≡ 2
unfolding get_pid scan_words scan_word
get_pid_first = refl

get_pid-Grants_example : Grants words (get_pid words).0 (get_pid words).1
get_pid-Grants_example = get_pid-Grants words 40 (omega arith) refl

abbrev full : List ℕ
full = 0 ∷ 0 ∷ []

taken_words : (i : ℕ) → get_or full i 0 ≡ 0
taken_words zero = refl
taken_words (suc zero) = refl
taken_words (suc (suc i)) = refl

all_taken : (j : ℕ) → free_id full j ≡ false
all_taken j = rw (taken_words (j / 32)) (test_bit-zero (j % 32))
