-- ===== src/Printf/Console.antt =====
-- lib.cc: `console_vprintf` with `console_putc`, and `console_clear`. The console is 25 rows of 80 cells;
-- `none` is a write outside of it.
pub mod Within
use Prim.Native.Nat.{bit_or}
use pug_os.Prelude.{
  ℕ, zero, suc, ◌+◌, ◌-◌, ◌%◌, ◌^◌, ◌*◌, List, [], ◌∷◌, Option, some, none, Bool, true, false, ltb,
  leb, ◌==◌, if◌then◌else◌, update, ◌>>=◌, ◌>>◌, check,
}
use pug_os.Printf.{Arg, Printed, done, undefined, unfinished, printer_vprintf}

abbrev pub columns : ℕ
columns = 80

abbrev pub rows : ℕ
rows = 25

abbrev pub ncells : ℕ
ncells = rows * columns

-- `console_printer`, with the cells and the index that `cursor` points to.
pub record ConsolePrinter : Type 0 where
  pub cells : ℕ → ℕ
  pub cursor : ℕ
  pub scroll : Bool

abbrev pub scrolled : (ℕ → ℕ) → ℕ → ℕ
scrolled cells k =
    if ltb k (ncells - columns) then cells (k + columns) else if ltb k ncells then 0 else cells k

-- The loop that brings the cursor back into the console.
pub settle : ℕ → ConsolePrinter → Option ConsolePrinter
settle zero p = none
settle (suc fuel) p = elim (ltb p.cursor ncells) [
  | true ↦ some p
  | false ↦ settle fuel (
      if p.scroll
      then record p { cells = scrolled p.cells; cursor = p.cursor - columns }
      else record p { cursor = 0 })
]

-- `*cp->cursor++ = cell`; a cell has 16 bits.
pub write_cell : ConsolePrinter → ℕ → Option ConsolePrinter
write_cell p cell =
    if ltb p.cursor ncells
    then some (record p { cells = update p.cells p.cursor (cell % 2 ^ 16); cursor = p.cursor + 1 })
    else none

-- The rest of the row, for a newline.
pub fill_row : ℕ → ConsolePrinter → ℕ → Option ConsolePrinter
fill_row zero p cell = some p
fill_row (suc n) p cell = write_cell p cell >>= λ q. fill_row n q cell

-- The loop of `console_putc` makes at most one round, from a cursor that is at most behind the last cell.
pub console_putc : ConsolePrinter → ℕ → ℕ → Option ConsolePrinter
console_putc p c color = do
  q ← settle 2 p
  if c == 10
      then fill_row (columns - q.cursor % columns) q (bit_or 32 color)
      else write_cell q (bit_or c color)

pub console_puts : ConsolePrinter → List (ℕ × ℕ) → Option ConsolePrinter
console_puts p [] = some p
console_puts p ((c, color) ∷ out) = console_putc p c color >>= λ q. console_puts q out

-- The cells and `cursorpos`
pub record Screen : Type 0 where
  pub cells : ℕ → ℕ
  pub cursorpos : ℕ

-- What `console_vprintf` starts with, for a position or, when that is negative, none.
pub start_at : Screen → Option ℕ → ConsolePrinter
start_at s none = record { cells = s.cells; cursor = s.cursorpos; scroll = true }
start_at s (some cpos) = record {
  cells = s.cells;
  cursor = if leb cpos ncells then cpos else 0;
  scroll = false;
}

pub stop_at : Screen → Option ℕ → ConsolePrinter → Screen
stop_at s none p = record { cells = p.cells; cursorpos = p.cursor }
stop_at s (some cpos) p = record s { cells = p.cells }

-- A write outside of the console is undefined.
put_screen : Screen → Option ℕ → Option ConsolePrinter → Printed (Screen × ℕ)
put_screen s cpos none = undefined
put_screen s cpos (some p) = done (stop_at s cpos p, p.cursor)

print_at : Screen → Option ℕ → Printed (List (ℕ × ℕ)) → Printed (Screen × ℕ)
unfolding put_screen
print_at s cpos (done out) = put_screen s cpos (console_puts (start_at s cpos) out)
print_at s cpos undefined = undefined
print_at s cpos unfinished = unfinished

pub console_vprintf : ℕ → Screen → Option ℕ → ℕ → List ℕ → List Arg → Printed (Screen × ℕ)
unfolding print_at
console_vprintf fuel s cpos color format args =
    print_at s cpos (printer_vprintf fuel color format args)

pub console_clear : Screen → Screen
console_clear s = record {
  cells = λ k. if ltb k ncells then bit_or 32 1792 else s.cells k;
  cursorpos = 0;
}
