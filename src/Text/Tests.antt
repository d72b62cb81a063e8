-- ===== src/Text/Tests.antt =====
-- Runs of the string routines at concrete inputs.
use wei_os.Common.{ℕ, ◌+◌, ◌≡◌, List, [], ◌∷◌}
use wei_os.Text.{Memory, memmove}
use wei_os.Text.Move.{memmove-copied}

abbrev ab : List ℕ
ab = 97 ∷ 98 ∷ []

abbrev abc : List ℕ
abc = 97 ∷ 98 ∷ 99 ∷ []

abbrev ramp : Memory
ramp j = j + 1

memmove-copied_example : memmove 12 10 5 ramp 15 ≡ 14
memmove-copied_example = memmove-copied 12 10 5 ramp 15
