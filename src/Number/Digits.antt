-- ===== src/Number/Digits.antt =====
-- lib.cc: a digit that `fill_numbuf` writes is one that `strtoul` reads.
use pug_os.Prelude.{
  ℕ, ◌+◌, ◌*◌, ◌/◌, ◌%◌, ◌≤◌, ◌<◌, ◌≡◌, Bool, true, false, ◌&&◌, ◌||◌, List, ◌∷◌, some, arith, leb,
  ◌==◌,
}
use pug_os.Number.{isspace, digit_of, digit_char, skip_spaces, is_minus, byte_at}

-- `0` to `9`, `A` to `F`, `a` to `f`.
abbrev pub is_digit_char : ℕ → Bool
is_digit_char c = (leb 48 c && leb c 57) || (leb 65 c && leb c 70) || (leb 97 c && leb c 102)

pub digit_char-is_digit_char :
    (lower : Bool) (v : ℕ) → v < 16 → is_digit_char (digit_char lower v) ≡ true
unfolding digit_char
digit_char-is_digit_char lower v p = ground arith

pub digit_of-digit_char :
    (lower : Bool) (base v : ℕ) → base ≤ 16 → v < base → digit_of base (digit_char lower v) ≡ some v
unfolding digit_of digit_char
digit_of-digit_char lower base v p q = ground (arith, p, q)

-- A string that starts with a digit has no spaces, no sign and no `0x`.
pub plain_start :
    (c : ℕ) (s : List ℕ)
    → is_digit_char c ≡ true
    → (skip_spaces (c ∷ s) ≡ c ∷ s)
      × (is_minus (c ∷ s) ≡ false)
      × ((byte_at (c ∷ s) 0 == 43) ≡ false)
unfolding skip_spaces isspace
plain_start c s e = (ground (arith, e), ground (arith, e), ground (arith, e))

pub not-x : (c : ℕ) → is_digit_char c ≡ true → ((c == 120) || (c == 88)) ≡ false
not-x c e = ground (arith, e)

pub div_cancel : (v b : ℕ) → 0 < b → v / b * b + v % b ≡ v
div_cancel v b p = grind arith

pub mod_lt : (v b : ℕ) → 0 < b → v % b < b
mod_lt v b p = grind arith

pub le-div : (x b y : ℕ) → 0 < b → x * b ≤ y → x ≤ y / b
le-div x b y p h = grind arith
