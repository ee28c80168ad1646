-- ===== src/Printf/Console/Within.antt =====
-- lib.cc: what is printed stays on the console.
use Prim.Native.Nat.{bit_or}
use pug_os.Prelude.{
  ℕ, zero, suc, ◌+◌, ◌-◌, ◌%◌, ◌^◌, ◌≤◌, ◌<◌, ◌≡◌, ◌∙◌, refl, List, [], ◌∷◌, Option, some, none,
  true, false, arith, ltb, ◌==◌, if◌then◌else◌, update, lt_cases, eq_cases, inl, inr, ◌⊎◌, length,
}
use pug_os.Printf.{Arg, done, undefined, printer_vprintf}
use pug_os.Printf.Fuel.{printed-cases}
use pug_os.Printf.Console.{
  ncells, columns, ConsolePrinter, scrolled, settle, write_cell, fill_row, console_putc,
  console_puts, Screen, start_at, stop_at, put_screen, print_at, console_vprintf,
}

-- The step ends, with the cursor on the console or right behind it and the memory around the console as
-- it was.
pub record Within (p : ConsolePrinter) (r : Option ConsolePrinter) : Type 0 where
  pub after : ConsolePrinter
  pub run : r ≡ some after
  pub cursor : after.cursor ≤ ncells
  pub outside : (k : ℕ) → ncells ≤ k → after.cells k ≡ p.cells k

settle-inside : (p : ConsolePrinter) (fuel : ℕ) → p.cursor < ncells → settle (suc fuel) p ≡ some p
unfolding settle
settle-inside p fuel h =
    let e : ltb p.cursor ncells ≡ true = ground (arith, h) in rw (settle, e) refl

record Settled (p : ConsolePrinter) : Type 0 where
  after : ConsolePrinter
  run : settle 2 p ≡ some after
  cursor : after.cursor < ncells
  outside : (k : ℕ) → ncells ≤ k → after.cells k ≡ p.cells k

settle-Settled : (p : ConsolePrinter) → p.cursor ≤ ncells → Settled p
unfolding settle
settle-Settled p h = elim (lt_cases p.cursor ncells) [
  | inl q ↦ record { after = p; run = settle-inside p 1 q; cursor = q; outside = λ k a. refl }
  | inr q ↦
      let e : ltb p.cursor ncells ≡ false = ground (arith, q) in
      let back : ConsolePrinter =
        if p.scroll
        then record p { cells = scrolled p.cells; cursor = p.cursor - columns }
        else record p { cursor = 0 } in
      let inside : back.cursor < ncells = ground (arith, h) in
      record {
        after = back;
        run = rw (settle, e) (settle-inside back 0 inside);
        cursor = inside;
        outside = λ k a. ground (arith, a);
      }
]

write_cell-Within :
    (p : ConsolePrinter) (cell : ℕ) → p.cursor < ncells → Within p (write_cell p cell)
unfolding write_cell
write_cell-Within p cell h = record {
  after = record p { cells = update p.cells p.cursor (cell % 2 ^ 16); cursor = p.cursor + 1 };
  run = ground (arith, h);
  cursor = omega (arith, h);
  outside = λ k a. ground (arith, a, h);
}

fill_row-Within :
    (n : ℕ) (p : ConsolePrinter) (cell : ℕ) → p.cursor + n ≤ ncells → Within p (fill_row n p cell)
unfolding fill_row write_cell
fill_row-Within zero p cell h = record {
  after = p;
  run = refl;
  cursor = omega (arith, h);
  outside = λ k a. refl;
}
fill_row-Within (suc n) p cell h =
    let q : ConsolePrinter = record p {
      cells = update p.cells p.cursor (cell % 2 ^ 16);
      cursor = p.cursor + 1;
    } in
    let e : ltb p.cursor ncells ≡ true = ground (arith, h) in
    let r = fill_row-Within n q cell (omega (arith, h)) in
    record {
      after = r.after;
      run = rw (fill_row, write_cell, e) r.run;
      cursor = r.cursor;
      outside = λ k a. r.outside k a ∙ ground (arith, a, h);
    }

console_putc-Within :
    (p : ConsolePrinter) (c color : ℕ) → p.cursor ≤ ncells → Within p (console_putc p c color)
unfolding console_putc
console_putc-Within p c color h =
    let s = settle-Settled p h in
    elim (eq_cases c 10) [
      | inl e ↦
          let r =
            fill_row-Within (columns - s.after.cursor % columns) s.after (bit_or 32 color)
              (omega (arith, s.cursor)) in
          record {
            after = r.after;
            run = rw (console_putc, s.run, e) r.run;
            cursor = r.cursor;
            outside = λ k a. r.outside k a ∙ s.outside k a;
          }
      | inr n ↦
          let r = write_cell-Within s.after (bit_or c color) s.cursor in
          let f : (c == 10) ≡ false = ground (arith, n) in
          record {
            after = r.after;
            run = rw (console_putc, s.run, f) r.run;
            cursor = r.cursor;
            outside = λ k a. r.outside k a ∙ s.outside k a;
          }
    ]

pub console_puts-Within :
    (out : List (ℕ × ℕ)) (p : ConsolePrinter) → p.cursor ≤ ncells → Within p (console_puts p out)
unfolding console_puts
console_puts-Within [] p h = record { after = p; run = refl; cursor = h; outside = λ k a. refl }
console_puts-Within ((c, color) ∷ out) p h =
    let s = console_putc-Within p c color h in
    let r = console_puts-Within out s.after s.cursor in
    record {
      after = r.after;
      run = rw (console_puts, s.run) r.run;
      cursor = r.cursor;
      outside = λ k a. r.outside k a ∙ s.outside k a;
    }

start_at-bound :
    (s : Screen) (cpos : Option ℕ) → s.cursorpos ≤ ncells → (start_at s cpos).cursor ≤ ncells
unfolding start_at
start_at-bound s none h = h
start_at-bound s (some cpos) h = ground arith

-- What is printed keeps to the cells of the console.
abbrev pub Kept : Screen → Screen → ℕ → Type 0
Kept s s' pos =
    (pos ≤ ncells) × (s'.cursorpos ≤ ncells) × ((k : ℕ) → ncells ≤ k → s'.cells k ≡ s.cells k)

console_vprintf-done :
    (fuel : ℕ) (s : Screen) (cpos : Option ℕ) (color : ℕ) (format : List ℕ) (args : List Arg)
    (out : List (ℕ × ℕ))
    → s.cursorpos ≤ ncells
    → printer_vprintf fuel color format args ≡ done out
    → (s' : Screen) × (pos : ℕ) × (console_vprintf fuel s cpos color format args ≡ done (s', pos))
      × Kept s s' pos
unfolding console_vprintf print_at put_screen stop_at start_at
console_vprintf-done fuel s none color format args out h e =
    let r = console_puts-Within out (start_at s none) h in
    (
      stop_at s none r.after,
      r.after.cursor,
      rw (console_vprintf, e, r.run) refl,
      (r.cursor, r.cursor, r.outside),
    )
console_vprintf-done fuel s (some c) color format args out h e =
    let r = console_puts-Within out (start_at s (some c)) (start_at-bound s (some c) h) in
    (
      stop_at s (some c) r.after,
      r.after.cursor,
      rw (console_vprintf, e, r.run) refl,
      (r.cursor, h, r.outside),
    )

-- `console_vprintf` ends, with more rounds than the format has characters, when `cursorpos` is on the
-- console or right behind it. Where the arguments fit the format, it writes to the cells of the console
-- only, whatever is printed and whichever position it is told to start at, and leaves `cursorpos`, and
-- the position that it returns, on the console or right behind it.
pub console_vprintf-Within :
    (fuel : ℕ) (s : Screen) (cpos : Option ℕ) (color : ℕ) (format : List ℕ) (args : List Arg)
    → s.cursorpos ≤ ncells
    → length format < fuel
    → ((printer_vprintf fuel color format args ≡ undefined)
        × (console_vprintf fuel s cpos color format args ≡ undefined))
      ⊎ ((s' : Screen) × (pos : ℕ) × (console_vprintf fuel s cpos color format args
            ≡ done (s', pos))
          × Kept s s' pos)
unfolding console_vprintf print_at
console_vprintf-Within fuel s cpos color format args h p =
    elim (printed-cases fuel color format args p) [
      | inl e ↦ inl (e, rw (console_vprintf, e) refl)
      | inr (out, e) ↦ inr (console_vprintf-done fuel s cpos color format args out h e)
    ]
