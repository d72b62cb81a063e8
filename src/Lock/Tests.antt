-- ===== src/Lock/Tests.antt =====
-- A run of a spin lock inside of another.
use wei_os.Common.{inr, refl, true, false, [], ◌∷◌, ◌==◌, if◌then◌else◌, arith}
use wei_os.Lock.{Machine}
use wei_os.Lock.Nesting.{Holds}

-- Lock 7 is held, and interrupts were on before.
abbrev holds_7 : Machine
holds_7 = record {
  interruptible = false;
  n_clis = 1;
  int_enabled = true;
  locked = λ k. 7 == k;
  owner = λ k. if k == 7 then 1 else 0;
}

holds_7-Holds : Holds true (7 ∷ []) holds_7
holds_7-Holds = record {
  depth = refl;
  flag = refl;
  saved = inr refl;
  locks = λ k. ground arith;
  owners = λ k. ground arith;
}
