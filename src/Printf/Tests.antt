-- ===== src/Printf/Tests.antt =====
-- Printf.antt on short formats.
use pug_os.Prelude.{ℕ, ◌≡◌, ◌≢◌, ◌⊎◌, refl, List, [], ◌∷◌, some, none, true, false, arith}
use pug_os.Printf.{
  no_flags, Flags, number, render, prefix_of, done, undefined, unfinished, printer_vprintf,
}
use pug_os.Printf.Layout.{Rendered, render-Rendered}
use pug_os.Printf.Fuel.{printer_vprintf_ends}
use pug_os.Printf.Buffer.{vsnprintf}
use pug_os.Printf.Buffer.Truncated.{Truncated, vsnprintf-Truncated}
use pug_os.Printf.Console.{Screen, console_vprintf}
use pug_os.Printf.Console.Within.{Kept, console_vprintf-Within}

-- `%08x`
abbrev zero_filled : Flags
zero_filled = record no_flags { zeros = true }

render-Rendered_example :
    (out : List ℕ) × (render zero_filled 8 none (number true 16 48879 false false false) ≡ some out)
    × Rendered zero_filled 8 16 48879 none
        (prefix_of zero_filled (number true 16 48879 false false false))
        out
render-Rendered_example =
    render-Rendered zero_filled 8 none true 16 48879 false false false (omega arith) (omega arith)
      (omega arith)

-- `hi`
abbrev hi : List ℕ
hi = 104 ∷ 105 ∷ []

printer_vprintf_ends_example :
    (printer_vprintf 3 7 hi [] ≢ unfinished)
    × (printer_vprintf 9 7 hi [] ≡ printer_vprintf 3 7 hi [])
printer_vprintf_ends_example = printer_vprintf_ends 3 9 7 hi [] (omega arith) (omega arith)

hi_printed : (c : ℕ) → printer_vprintf 3 c hi [] ≡ done ((104, c) ∷ (105, c) ∷ [])
unfolding printer_vprintf
hi_printed c = refl

vsnprintf-Truncated_example :
    ((printer_vprintf 3 0 hi [] ≡ undefined) × (vsnprintf 3 (λ a. 9) 100 2 hi [] ≡ undefined))
    ⊎ ((out : List (ℕ × ℕ)) × (printer_vprintf 3 0 hi [] ≡ done out)
        × ((mem' : ℕ → ℕ) × (n : ℕ) × (vsnprintf 3 (λ a. 9) 100 2 hi [] ≡ done (mem', n))
            × Truncated (λ a. 9) 100 2 out mem' n))
vsnprintf-Truncated_example = vsnprintf-Truncated 3 (λ a. 9) 100 2 hi [] (omega arith)

-- With the cursor behind the last cell.
abbrev full : Screen
full = record { cells = λ k. 7; cursorpos = 2000 }

console_vprintf-Within_example :
    ((printer_vprintf 3 1792 hi [] ≡ undefined)
      × (console_vprintf 3 full none 1792 hi [] ≡ undefined))
    ⊎ ((s' : Screen) × (pos : ℕ) × (console_vprintf 3 full none 1792 hi [] ≡ done (s', pos))
        × Kept full s' pos)
console_vprintf-Within_example =
    console_vprintf-Within 3 full none 1792 hi [] (omega arith) (omega arith)
