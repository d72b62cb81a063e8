-- ===== src/Console.antt =====
-- The colour escapes of kern/console.c: `set_local_attr` reads what follows an ESC character. A text
-- is a function from positions to characters.
pub mod Escape
mod Tests
use wei_os.Common.{
  ℕ, zero, suc, ◌+◌, ◌-◌, ◌*◌, Bool, true, false, ◌&&◌, ◌||◌, not, Option, none, some, ◌==◌, ltb,
  leb, if◌then◌else◌,
}

-- The value of a hexadecimal digit; `none` is -1.
unfoldable pub is_color_controller : ℕ → Option ℕ
is_color_controller c =
    if leb 48 c && leb c 57
    then some (c - 48)
    else if leb 97 c && leb c 102
    then some (c - 97 + 10)
    else if leb 65 c && leb c 70
    then some (c - 65 + 10)
    else none

-- The statuses 1 to 7 of the automaton.
pub data Status : Type 0 where
  before_bracket : Status
  before_first : Status
  after_zero : Status
  before_second : Status
  before_end : Status
  accepted : Status
  failed : Status

-- The local variables of `set_local_attr`; `pos` is the index of `s`.
pub record Scan : Type 0 where
  pub status : Status
  pub cancel : Bool
  pub t1 : ℕ
  pub t2 : ℕ
  pub pos : ℕ

abbrev pub goto : Status → Scan → Scan
goto st x = record x { status = st; pos = x.pos + 1 }

-- A digit was read in the status before the end of the escape.
abbrev pub second_digit : ℕ → Scan → Scan
second_digit d x = record x { status = before_end; t2 = d; pos = x.pos + 1 }

-- One round of the loop, on character `c`.
unfoldable pub step : ℕ → Scan → Scan
unfolding is_color_controller
step c x = elim x.status [
  | before_bracket ↦ if c == 91 then goto before_first x else goto failed x
  | before_first ↦ elim (is_color_controller c) [
    | none ↦ goto failed x
    | some d ↦ record x {
      status = if d == 0 then after_zero else before_second;
      t1 = d;
      pos = x.pos + 1;
    }
  ]
  | after_zero ↦
      if c == 109
      then record (goto accepted x) { cancel = true }
      else elim (is_color_controller c) [
        | none ↦ goto failed x
        | some d ↦ if d == 0 then goto failed x else second_digit d x
      ]
  | before_second ↦ elim (is_color_controller c) [
    | none ↦ goto failed x
    | some d ↦ second_digit d x
  ]
  | before_end ↦ if c == 109 then goto accepted x else goto failed x
  | accepted ↦ x
  | failed ↦ x
]

unfoldable pub run : ℕ → (ℕ → ℕ) → Scan → Scan
unfolding step
run zero str x = x
run (suc k) str x = run k str (step (str x.pos) x)

abbrev pub begin_scan : ℕ → Scan
begin_scan s = record { status = before_bracket; cancel = false; t1 = 0; t2 = 0; pos = s }

-- The position after the escape and the new attribute, from the old one.
unfoldable pub outcome : ℕ → Scan → ℕ × ℕ
outcome lattr x = elim x.status [
  | failed ↦ (x.pos + 1, lattr)
  | before_bracket ↦ (x.pos, lattr)
  | before_first ↦ (x.pos, lattr)
  | after_zero ↦ (x.pos, lattr)
  | before_second ↦ (x.pos, lattr)
  | before_end ↦ (x.pos, lattr)
  | accepted ↦ (x.pos, if x.cancel then 7 * 256 else (x.t1 * 16 + x.t2) * 256)
]

-- Five rounds are enough.
unfoldable pub set_local_attr : (ℕ → ℕ) → ℕ → ℕ → ℕ × ℕ
unfolding run outcome
set_local_attr str s lattr = outcome lattr (run 5 str (begin_scan s))
