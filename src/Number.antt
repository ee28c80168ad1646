-- ===== src/Number.antt =====
-- lib.cc: numbers in text (`strtoul`, `strtol`, `fill_numbuf`) and pseudorandom numbers. A string is the
-- list of its bytes before the zero; a byte read at its end is that zero.
pub mod Digits
pub mod Print
pub mod RoundTrip
pub mod Zeros
pub mod Random
mod Tests
use pug_os.Prelude.{
  ℕ, zero, suc, ◌+◌, ◌-◌, ◌*◌, ◌/◌, ◌%◌, ◌^◌, Bool, true, false, not, ◌&&◌, ◌||◌, List, [], ◌∷◌,
  Option, some, none, ltb, leb, ◌==◌, if◌then◌else◌, get_or, drop,
}

-- `isspace`
pub isspace : ℕ → Bool
isspace c = (leb 9 c && leb c 13) || (c == 32)

pub skip_spaces : List ℕ → List ℕ
skip_spaces [] = []
skip_spaces (c ∷ s) = let rest = skip_spaces s in if isspace c then rest else c ∷ s

-- `*s` and `s[i]`
abbrev pub byte_at : List ℕ → ℕ → ℕ
byte_at s i = get_or s i 0

abbrev pub has_0x : List ℕ → Bool
has_0x s = (byte_at s 0 == 48) && ((byte_at s 1 == 120) || (byte_at s 1 == 88))

-- The base, and the string behind what told it.
pub find_base : ℕ → List ℕ → ℕ × List ℕ
find_base base s =
    if base == 0
    then (if has_0x s then (16, drop 2 s) else if byte_at s 0 == 48 then (8, s) else (10, s))
    else if (base == 16) && has_0x s
    then (16, drop 2 s)
    else (base, s)

-- A `char` from 128 on is negative, and so below every digit.
abbrev pub between : ℕ → ℕ → ℕ → Bool
between lo c hi = ltb c 128 && (leb lo c && ltb c hi)

unfoldable pub digit_of : ℕ → ℕ → Option ℕ
digit_of base c =
    if between 48 c (48 + base)
    then some (c - 48)
    else if ltb 10 base && between 97 c (97 + base - 10)
    then some (c - 97 + 10)
    else if ltb 10 base && between 65 c (65 + base - 10)
    then some (c - 65 + 10)
    else none

-- What the loop of `strtoul` leaves: `x`, `overflow` and the string behind the digits.
pub record Scanned : Type 0 where
  pub x : ℕ
  pub overflow : Bool
  pub rest : List ℕ

abbrev pub too_large : ℕ → ℕ → ℕ → Bool
too_large base x digit = ltb ((2 ^ 64 - 1 - digit) / base) x

pub scan : ℕ → List ℕ → ℕ → Bool → Scanned
scan base [] x overflow = record { x = x; overflow = overflow; rest = [] }
scan base (c ∷ s) x overflow = elim (digit_of base c) [
  | none ↦ record { x = x; overflow = overflow; rest = c ∷ s }
  | some d ↦ elim (too_large base x d) [
    | true ↦ scan base s x true
    | false ↦ scan base s ((x * base + d) % 2 ^ 64) overflow
  ]
]

abbrev pub negate : ℕ → ℕ
negate x = (2 ^ 64 - x) % 2 ^ 64

abbrev pub is_minus : List ℕ → Bool
is_minus s = byte_at s 0 == 45

-- The end of `strtoul`, with the sign that it read.
pub finish : Bool → Scanned → ℕ × List ℕ
finish negative r =
    let x = if r.overflow then 2 ^ 64 - 1 else r.x in (if negative then negate x else x, r.rest)

pub strtoul_signed : List ℕ → Bool → ℕ → ℕ × List ℕ
strtoul_signed s negative base = let (b, t) = find_base base s in finish negative (scan b t 0 false)

-- `strtoul`, and the string that `*endptr` points to.
pub strtoul : List ℕ → ℕ → ℕ × List ℕ
strtoul s base =
    let t = skip_spaces s in
    strtoul_signed (if is_minus t || (byte_at t 0 == 43) then drop 1 t else t) (is_minus t) base

-- `strtol`; the `long` is its register.
pub strtol : List ℕ → ℕ → ℕ × List ℕ
strtol s base =
    let t = skip_spaces s in
    let (u, rest) = strtoul (if is_minus t then drop 1 t else t) base in
    let bound = if is_minus t then 2 ^ 63 else 2 ^ 63 - 1 in
    let v = if ltb bound u then bound else u in (if is_minus t then negate v else v, rest)

-- `digits[v]`, of the lower or the upper digits.
pub digit_char : Bool → ℕ → ℕ
digit_char lower v = if ltb v 10 then 48 + v else if lower then 97 + v - 10 else 65 + v - 10

-- The loop of `fill_numbuf`, which writes downwards, with the number of bytes that are left in the buffer.
-- `none` is a write below it.
pub fill_loop : ℕ → Bool → ℕ → ℕ → List ℕ → Option (List ℕ)
fill_loop zero lower base val out = none
fill_loop (suc room) lower base val out =
    let out' = digit_char lower (val % base) ∷ out in
    let rest = fill_loop room lower base (val / base) out' in
    if val / base == 0 then some out' else rest

abbrev pub numbufsiz : ℕ
numbufsiz = 24

-- `fill_numbuf(numbuf + NUMBUFSIZ, val, base)`, where a negative base asks for the lower digits. One byte
-- is the zero at the end.
pub fill_numbuf : Bool → ℕ → ℕ → Option (List ℕ)
fill_numbuf lower base val = fill_loop (numbufsiz - 1) lower base val []

abbrev pub rand_max : ℕ
rand_max = 2 ^ 31 - 1

-- `rand_seed_set` and `rand_seed`
pub record Seed : Type 0 where
  pub seeded : Bool
  pub seed : ℕ

abbrev pub srand : ℕ → Seed
srand seed = record { seeded = true; seed = seed % 2 ^ 32 }

-- `rand()`
pub rand : Seed → Seed × ℕ
rand s =
    let before = if s.seeded then s.seed else 819234718 in
    let after = (before * 6364136223846793005 + 1) % 2 ^ 64 in
    (record { seeded = true; seed = after }, after / 2 ^ 32 % 2 ^ 31)

-- `rand(min, max)`, for bounds that are not negative. `none` is a failed assertion, or a sum
-- `max - min + 1` that is no `int`.
pub rand_between : Seed → ℕ → ℕ → Option (Seed × ℕ)
rand_between s min max =
    let (s', r) = rand s in
    if ltb max min || ltb rand_max (max - min)
    then none
    else if ltb rand_max (max - min + 1)
    then none
    else some (s', min + r * (max - min + 1) % 2 ^ 64 / (rand_max + 1))
