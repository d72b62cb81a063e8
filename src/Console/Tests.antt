-- ===== src/Console/Tests.antt =====
-- Runs of the colour escapes at concrete inputs.
use wei_os.Common.{ℕ, [], ◌∷◌, get_or}

-- "[4fm" and "[0m".
abbrev colors : ℕ → ℕ
colors i = get_or (91 ∷ 52 ∷ 102 ∷ 109 ∷ []) i 0

abbrev resets : ℕ → ℕ
resets i = get_or (91 ∷ 48 ∷ 109 ∷ []) i 0
