-- ===== src/Printf.antt =====
-- lib.cc: `printer_vprintf`, as the characters, with their colors, that it hands to `putc`. The format and
-- the strings are lists of their bytes before the zero. `none` is an argument that is missing or of
-- another kind, which C++ leaves undefined, as `undefined` is of the whole call.
pub mod Layout
pub mod Fuel
pub mod Buffer
pub mod Console
mod Tests
use pug_os.Prelude.{
  ℕ, zero, suc, ◌+◌, ◌-◌, ◌*◌, ◌%◌, ◌^◌, Bool, true, false, not, ◌&&◌, ◌||◌, List, [], ◌∷◌, ◌++◌,
  map, Option, some, none, ltb, leb, ◌==◌, if◌then◌else◌, ◌>>=◌, length, take, replicate, min,
}
use pug_os.Number.{fill_numbuf}

pub data Arg : Type 0 where
  word : ℕ → Arg
  text : List ℕ → Arg

-- `FLAG_ALT` to `FLAG_PLUSPOSITIVE`
pub record Flags : Type 0 where
  pub alt : Bool
  pub zeros : Bool
  pub left : Bool
  pub space : Bool
  pub plus : Bool

abbrev pub no_flags : Flags
no_flags = record { alt = false; zeros = false; left = false; space = false; plus = false }

-- `flags |= 1 << (flagc - flag_chars)`, for the characters `#0- +`.
pub set_flag : Flags → ℕ → Option Flags
set_flag f c =
    if c == 35
    then some (record f { alt = true })
    else if c == 48
    then some (record f { zeros = true })
    else if c == 45
    then some (record f { left = true })
    else if c == 32
    then some (record f { space = true })
    else if c == 43
    then some (record f { plus = true })
    else none

pub parse_flags : Flags → List ℕ → Flags × List ℕ
parse_flags f [] = (f, [])
parse_flags f (c ∷ s) = elim (set_flag f c) [ none ↦ (f, c ∷ s) | some g ↦ parse_flags g s ]

abbrev pub is_digit : ℕ → Bool
is_digit c = leb 48 c && leb c 57

-- The digits of a width or a precision, which stays an `int`.
pub parse_number : ℕ → List ℕ → ℕ × List ℕ
parse_number n [] = (n, [])
parse_number n (c ∷ s) =
    let rest = parse_number (10 * n + (c - 48)) s in if is_digit c then rest else (n, c ∷ s)

pub take_word : List Arg → Option (ℕ × List Arg)
take_word (word x ∷ args) = some (x, args)
take_word args = none

pub take_text : List Arg → Option (List ℕ × List Arg)
take_text (text t ∷ args) = some (t, args)
take_text args = none

-- An `int` that is only compared with what is positive: a negative one acts as 0.
abbrev pub clamp_int : ℕ → ℕ
clamp_int x = if ltb (x % 2 ^ 32) (2 ^ 31) then x % 2 ^ 32 else 0

-- A width, which acts as 0 when there is none.
pub parse_width : List ℕ → List Arg → Option (ℕ × List ℕ × List Arg)
parse_width [] args = some (0, [], args)
parse_width (c ∷ s) args =
    if leb 49 c && leb c 57
    then (let (n, rest) = parse_number 0 (c ∷ s) in some (n, rest, args))
    else if c == 42
    then (take_word args >>= λ (x, args'). some (clamp_int x, s, args'))
    else some (0, c ∷ s, args)

pub after_point : List ℕ → List Arg → Option (Option ℕ × List ℕ × List Arg)
after_point [] args = some (some 0, [], args)
after_point (c ∷ s) args =
    if is_digit c
    then (let (n, rest) = parse_number 0 (c ∷ s) in some (some n, rest, args))
    else if c == 42
    then (take_word args >>= λ (x, args'). some (some (clamp_int x), s, args'))
    else some (some 0, c ∷ s, args)

pub parse_precision : List ℕ → List Arg → Option (Option ℕ × List ℕ × List Arg)
parse_precision [] args = some (none, [], args)
parse_precision (c ∷ s) args = if c == 46 then after_point s args else some (none, c ∷ s, args)

-- What the switch on the conversion character leaves. A number is its base, its value and the flags
-- FLAG_SIGNED, FLAG_NEGATIVE and FLAG_ALT2; other data is a string.
pub data Field : Type 0 where
  number : (lower : Bool) (base num : ℕ) (signed negative alt2 : Bool) → Field
  string : List ℕ → Field

-- A field and what follows, or the color that `%C` sets.
pub data Converted : Type 0 where
  field : Field → List ℕ → List Arg → Converted
  set_color : ℕ → List ℕ → List Arg → Converted

-- The argument of `%d`, as an `int` or a `long`, by its absolute value and whether it is negative.
abbrev pub signed_number : Bool → ℕ → Field
signed_number long x =
    let w = if long then 2 ^ 64 else 2 ^ 32 in
    let v = x % w in
    let negative = leb w (2 * v) in
    number false 10 (if negative then w - v else v) true negative false

abbrev pub unsigned_number : Bool → Bool → ℕ → ℕ → Field
unsigned_number lower long base x =
    number lower base (if long then x % 2 ^ 64 else x % 2 ^ 32) false false false

-- A string of one `char`, which is empty when that is 0.
abbrev pub one_char : ℕ → List ℕ
one_char c = if c % 256 == 0 then [] else c % 256 ∷ []

pub convert_char : Bool → ℕ → List ℕ → List Arg → Option Converted
convert_char long c s args =
    if (c == 100) || (c == 105)
    then (take_word args >>= λ (x, r). some (field (signed_number long x) s r))
    else if c == 117
    then (take_word args >>= λ (x, r). some (field (unsigned_number false long 10 x) s r))
    else if c == 120
    then (take_word args >>= λ (x, r). some (field (unsigned_number true long 16 x) s r))
    else if c == 88
    then (take_word args >>= λ (x, r). some (field (unsigned_number false long 16 x) s r))
    else if c == 112
    then (take_word args >>= λ (x, r).
        some (field (number true 16 (x % 2 ^ 64) false false true) s r))
    else if c == 115
    then (take_text args >>= λ (t, r). some (field (string t) s r))
    else if c == 67
    then (take_word args >>= λ (x, r). some (set_color (x % 2 ^ 32) s r))
    else if c == 99
    then (take_word args >>= λ (x, r). some (field (string (one_char x)) s r))
    else some (field (string (c ∷ [])) s args)

-- The switch, with its `goto again`. At the end of the format the data is a `%`.
pub convert : Bool → List ℕ → List Arg → Option Converted
convert long [] args = some (field (string (37 ∷ [])) [] args)
convert long (c ∷ s) args =
    let rest = convert true s args in
    if (c == 108) || (c == 122) then rest else convert_char long c s args

pub is_number : Field → Bool
is_number (number lower base num signed negative alt2) = true
is_number (string t) = false

pub data_of : Field → Option (List ℕ)
data_of (number lower base num signed negative alt2) = fill_numbuf lower base num
data_of (string t) = some t

-- FLAG_ALT is set by `%p` as well.
pub prefix_of : Flags → Field → List ℕ
prefix_of f (string t) = []
prefix_of f (number lower base num signed negative alt2) =
    if signed
    then (if negative then 45 ∷ [] else if f.plus then 43 ∷ [] else if f.space then 32 ∷ [] else [])
    else if (f.alt || alt2) && (base == 16) && (not (num == 0) || alt2)
    then 48 ∷ (if lower then 120 else 88) ∷ []
    else []

pub data_len : Field → Option ℕ → List ℕ → ℕ
data_len fd none body = length body
data_len fd (some p) body = if is_number fd then length body else min p (length body)

pub zeros_of : Flags → Field → ℕ → Option ℕ → ℕ → ℕ → ℕ
zeros_of f fd width none datalen plen =
    if is_number fd && f.zeros && not f.left && ltb (datalen + plen) width
    then width - datalen - plen
    else 0
zeros_of f fd width (some p) datalen plen = if is_number fd then p - datalen else 0

-- From the padding on: the spaces are on the right with `-`, and else on the left.
pub pad : Flags → ℕ → List ℕ → ℕ → List ℕ → List ℕ
pad f width prefix zeros body =
    let spaces = replicate (width - (length body + zeros + length prefix)) 32 in
    (if f.left then [] else spaces)
    ++ (prefix ++ (replicate zeros 48 ++ (body ++ (if f.left then spaces else []))))

pub render : Flags → ℕ → Option ℕ → Field → Option (List ℕ)
render f width precision fd = do
  body ← data_of fd
  let datalen = data_len fd precision body
  let prefix = prefix_of f fd
  let zeros = zeros_of f fd width precision datalen (length prefix)
  some (pad f width prefix zeros (take datalen body))

abbrev pub colored : ℕ → List ℕ → List (ℕ × ℕ)
colored color cs = map (λ c. (c, color)) cs

pub finish_conversion :
    ℕ → Flags → ℕ → Option ℕ → Converted → Option (ℕ × List (ℕ × ℕ) × List ℕ × List Arg)
finish_conversion c f width precision (set_color c' s args) = some (c', [], s, args)
finish_conversion c f width precision (field fd s args) = do
  out ← render f width precision fd
  some (c, colored c out, s, args)

-- The color, the output and the rest of the format and the arguments, after a conversion.
pub conversion : ℕ → List ℕ → List Arg → Option (ℕ × List (ℕ × ℕ) × List ℕ × List Arg)
conversion c s args = do
  let (f, s1) = parse_flags no_flags s
  (width, s2, args2) ← parse_width s1 args
  (precision, s3, args3) ← parse_precision s2 args2
  converted ← convert false s3 args3
  finish_conversion c f width precision converted

-- How printing ends: with a result, with an argument that is missing or of another kind, or not within
-- the fuel.
pub data Printed (A : Type 0) : Type 0 where
  done : A → Printed A
  undefined unfinished : Printed A

abbrev pub map_printed : {A B : Type 0} → (A → B) → Printed A → Printed B
map_printed f (done x) = done (f x)
map_printed f undefined = undefined
map_printed f unfinished = unfinished

-- The loop, which a round takes at least one character of the format from.
unfoldable pub printer_vprintf : ℕ → ℕ → List ℕ → List Arg → Printed (List (ℕ × ℕ))
printer_vprintf zero color s args = unfinished
printer_vprintf (suc fuel) color [] args = done []
printer_vprintf (suc fuel) color (c ∷ s) args = elim (c == 37) [
  | false ↦ map_printed (λ out. (c, color) ∷ out) (printer_vprintf fuel color s args)
  | true ↦ elim (conversion color s args) [
    | none ↦ undefined
    | some (color', out, s', args') ↦
        map_printed (λ out'. out ++ out') (printer_vprintf fuel color' s' args')
  ]
]
