-- ===== src/Printf/Buffer/Truncated.antt =====
-- lib.cc: what `vsnprintf` leaves in the buffer.
use pug_os.Prelude.{
  ℕ, zero, suc, ◌+◌, ◌-◌, ◌≤◌, ◌<◌, ◌≡◌, refl, ◌⊎◌, inl, inr, min, List, [], ◌∷◌, not, ◌&&◌, arith,
  ltb, leb, ◌==◌, if◌then◌else◌, length,
}
use pug_os.Mem.{Memory}
use pug_os.Printf.{Arg, done, undefined, printer_vprintf}
use pug_os.Printf.Fuel.{printed-cases}
use pug_os.Printf.Buffer.{StringPrinter, string_putc, put_all, terminate, vsnprintf}

abbrev pub char_at : List (ℕ × ℕ) → ℕ → ℕ
char_at [] i = 0
char_at ((c, color) ∷ out) zero = c
char_at ((c, color) ∷ out) (suc i) = char_at out i

put_all-n : (out : List (ℕ × ℕ)) (p : StringPrinter) → (put_all p out).n ≡ p.n + length out
unfolding put_all string_putc
put_all-n [] p = omega arith
put_all-n ((c, color) ∷ out) p = ground (arith, put_all-n out (string_putc p c))

put_all-end : (out : List (ℕ × ℕ)) (p : StringPrinter) → (put_all p out).end ≡ p.end
unfolding put_all string_putc
put_all-end [] p = refl
put_all-end ((c, color) ∷ out) p = ground (arith, put_all-end out (string_putc p c))

put_all-s :
    (out : List (ℕ × ℕ)) (p : StringPrinter)
    → p.s ≤ p.end
    → (put_all p out).s ≡ min (p.s + length out) p.end
unfolding put_all string_putc
put_all-s [] p h = omega (arith, h)
put_all-s ((c, color) ∷ out) p h = ground (arith, h, put_all-s out (string_putc p c))

char_at-first : (o : ℕ × ℕ) (out : List (ℕ × ℕ)) (s x : ℕ) → s ≡ x → char_at (o ∷ out) (x - s) ≡ o.0
char_at-first o out s x e = let z : x - s ≡ 0 = omega (arith, e) in rw z refl

char_at-later :
    (o : ℕ × ℕ) (out : List (ℕ × ℕ)) (s x : ℕ)
    → s < x
    → char_at (o ∷ out) (x - s) ≡ char_at out (x - (s + 1))
char_at-later o out s x p = let z : x - s ≡ suc (x - (s + 1)) = omega (arith, p) in rw z refl

put_all-memory :
    (out : List (ℕ × ℕ)) (p : StringPrinter) (x : ℕ)
    → p.s ≤ p.end
    → (put_all p out).memory x ≡ (
        if leb p.s x && ltb x (min (p.s + length out) p.end)
        then char_at out (x - p.s)
        else p.memory x)
unfolding put_all string_putc
put_all-memory [] p x h = ground (arith, h)
put_all-memory ((c, color) ∷ out) p x h = ground (
  arith,
  h,
  put_all-memory out (string_putc p c) x,
  char_at-first (c, color) out p.s x,
  char_at-later (c, color) out p.s x,
)

-- The buffer of `size` bytes holds the start of the output and a zero, and the call returns how many
-- characters there were.
pub record Truncated (mem : Memory) (s size : ℕ) (out : List (ℕ × ℕ)) (mem' : Memory) (n : ℕ)
    : Type 0 where
  pub count : n ≡ length out
  pub chars : (i : ℕ) → i < min (length out) (size - 1) → mem' (s + i) ≡ char_at out i
  pub ends : 0 < size → mem' (s + min (length out) (size - 1)) ≡ 0
  pub outside : (x : ℕ) → (x < s) ⊎ (s + size ≤ x) → mem' x ≡ mem x

module _ (mem : Memory) (s size : ℕ) (out : List (ℕ × ℕ)) where
  abbrev start : StringPrinter
  start = record { memory = mem; s = s; end = s + size; n = 0 }

  abbrev last : StringPrinter
  last = put_all start out

  last-s : last.s ≡ min (s + length out) (s + size)
  last-s = put_all-s out start (omega arith)

  last-memory :
      (x : ℕ)
      → last.memory x ≡ (
          if leb s x && ltb x (min (s + length out) (s + size)) then char_at out (x - s) else mem x)
  last-memory x = put_all-memory out start x (omega arith)

  terminated :
      (x : ℕ)
      → terminate size last x
        ≡ (if not (size == 0) && (x == s + min (length out) (size - 1)) then 0 else last.memory x)
  unfolding terminate
  terminated x = ground (arith, last-s, put_all-end out start)

  terminate-Truncated : Truncated mem s size out (terminate size last) last.n
  terminate-Truncated = record {
    count = ground (arith, put_all-n out start);
    chars = λ i p.
        let e : s + i - s ≡ i = omega arith in
        ground (arith, p, terminated (s + i), last-memory (s + i), e);
    ends = λ p. ground (arith, p, terminated (s + min (length out) (size - 1)));
    outside = λ x o. ground (arith, o, terminated x, last-memory x);
  }

-- `vsnprintf` ends, with more rounds than the format has characters. Where the arguments fit the format,
-- it writes into its buffer only: as much of the output as there is room for before the zero at the end,
-- when the size is not 0. It returns the length of the whole output.
pub vsnprintf-Truncated :
    (fuel : ℕ) (mem : Memory) (s size : ℕ) (format : List ℕ) (args : List Arg)
    → length format < fuel
    → ((printer_vprintf fuel 0 format args ≡ undefined)
        × (vsnprintf fuel mem s size format args ≡ undefined))
      ⊎ ((out : List (ℕ × ℕ)) × (printer_vprintf fuel 0 format args ≡ done out)
          × ((mem' : Memory) × (n : ℕ) × (vsnprintf fuel mem s size format args ≡ done (mem', n))
              × Truncated mem s size out mem' n))
unfolding vsnprintf
vsnprintf-Truncated fuel mem s size format args p = elim (printed-cases fuel 0 format args p) [
  | inl e ↦ inl (e, rw (vsnprintf, e) refl)
  | inr (out, e) ↦ inr (
    out,
    e,
    (
      terminate size (last mem s size out),
      (last mem s size out).n,
      rw (vsnprintf, e) refl,
      terminate-Truncated mem s size out,
    ),
  )
]
