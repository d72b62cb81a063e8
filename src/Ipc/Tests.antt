-- ===== src/Ipc/Tests.antt =====
-- Inputs of the theorems on messages.
use wei_os.Paging.Translate.{translate, IsValid}
use wei_os.Paging.{no_entry}
use wei_os.Common.{arith, [], ◌∷◌, ◌&&◌, ◌==◌, if◌then◌else◌, false, ◌≡◌, inl, true, refl, none}
use wei_os.Ipc.{ipc_recv, ipc_try_send, ipc_send, space, Ipc, succeeds, refused}
use wei_os.Ipc.Deliver.{ipc_try_send_absent, ipc_recv-ipc_try_send, Arrival}

-- Two processes, 1 with the table in frame 5, which maps the address 8192 to frame 9, and 2 without a
-- table; frame 6 is fresh.
abbrev two_procs : Ipc
two_procs = record {
  lives = λ p. true;
  recving = λ p. false;
  dstva = λ p. 0;
  from = λ p. 0;
  value = λ p. 0;
  perm = λ p. 0;
  directory =
      λ p i. if p == 1 && i == 0 then record { frame = 5; present = true; perm = 7 } else no_entry;
  memory = record {
    pgdir = λ i. no_entry;
    table = λ t k.
        if t == 5 && k == 2 then record { frame = 9; present = true; perm = 7 } else no_entry;
    p_ref = λ p. 1;
    fresh = 6 ∷ [];
    freed = [];
    npages_num = 100;
  };
  asleep = λ p. false;
}

two_procs-IsValid : IsValid (space 2 two_procs)
two_procs-IsValid = record { own = λ i j. inl refl; unused = λ i. inl refl; distinct = refl }

ipc_recv-ipc_try_send_example :
    Arrival 1 2 42 4096 5 9 two_procs (ipc_try_send 1 2 42 8192 5 (ipc_recv 2 4096 two_procs).1)
ipc_recv-ipc_try_send_example =
    ipc_recv-ipc_try_send 1 2 42 4096 8192 5 9 two_procs refl (omega arith) refl (omega arith) refl
      refl (omega arith) refl (inl refl) two_procs-IsValid

ipc_try_send_absent_example :
    (translate 12288 (space 1 two_procs) ≡ none)
    × Arrival 1 2 42 4096 5 0 two_procs (ipc_try_send 1 2 42 12288 5 (ipc_recv 2 4096 two_procs).1)
ipc_try_send_absent_example =
    ipc_try_send_absent 1 2 42 4096 12288 5 two_procs refl (omega arith) refl (omega arith) refl
      refl refl (omega arith) refl refl two_procs-IsValid

message_arrives :
    ((ipc_send 1 2 42 0 0 (ipc_recv 2 4001366017 two_procs).1).0 ≡ succeeds)
    × ((ipc_send 1 2 42 0 0 (ipc_recv 2 4001366017 two_procs).1).1.value 2 ≡ 42)
    × ((ipc_send 1 2 42 0 0 two_procs).0 ≡ refused)
unfolding ipc_send ipc_try_send ipc_recv
message_arrives = (refl, refl, refl)
