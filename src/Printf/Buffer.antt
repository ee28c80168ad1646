-- ===== src/Printf/Buffer.antt =====
-- lib.cc: `vsnprintf` with `string_putc`.
pub mod Truncated
use pug_os.Prelude.{
  ℕ, zero, suc, ◌+◌, ◌-◌, List, [], ◌∷◌, Option, some, none, Bool, true, false, not, ◌&&◌, ltb,
  ◌==◌, if◌then◌else◌, update, ◌>>=◌,
}
use pug_os.Mem.{Memory}
use pug_os.Printf.{Arg, Printed, map_printed, printer_vprintf}

-- `string_printer`, with the memory that it writes to.
pub record StringPrinter : Type 0 where
  pub memory : Memory
  pub s : ℕ
  pub end : ℕ
  pub n : ℕ

pub string_putc : StringPrinter → ℕ → StringPrinter
string_putc p c =
    if ltb p.s p.end
    then record p { memory = update p.memory p.s c; s = p.s + 1; n = p.n + 1 }
    else record p { n = p.n + 1 }

-- The calls of `putc`, whose color is not used.
pub put_all : StringPrinter → List (ℕ × ℕ) → StringPrinter
put_all p [] = p
put_all p ((c, color) ∷ out) = put_all (string_putc p c) out

pub terminate : ℕ → StringPrinter → Memory
terminate size p =
    if not (size == 0) && ltb p.s p.end
    then update p.memory p.s 0
    else if not (size == 0)
    then update p.memory (p.end - 1) 0
    else p.memory

-- `string_printer`, as the constructor makes it.
abbrev pub printer_at : Memory → ℕ → ℕ → StringPrinter
printer_at mem s size = record { memory = mem; s = s; end = s + size; n = 0 }

pub vsnprintf : ℕ → Memory → ℕ → ℕ → List ℕ → List Arg → Printed (Memory × ℕ)
vsnprintf fuel mem s size format args =
    map_printed (λ out. let p = put_all (printer_at mem s size) out in (terminate size p, p.n))
      (printer_vprintf fuel 0 format args)
