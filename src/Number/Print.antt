-- ===== src/Number/Print.antt =====
-- lib.cc: `fill_numbuf` ends within its buffer, and writes digits only.
use pug_os.Prelude.{
  ℕ, zero, suc, ◌+◌, ◌*◌, ◌/◌, ◌%◌, ◌^◌, ◌≤◌, ◌<◌, ◌≡◌, ◌≢◌, refl, Bool, true, false, ◌&&◌, List,
  [], ◌∷◌, Option, some, arith, ◌==◌, eq_cases, inl, inr, length,
}
use native.Mathlib.Nat.{pow-succ'}
use pug_os.Number.{fill_loop, fill_numbuf, digit_char}
use pug_os.Number.Digits.{is_digit_char, digit_char-is_digit_char, mod_lt}

abbrev pub all_digit_chars : List ℕ → Bool
all_digit_chars [] = true
all_digit_chars (c ∷ s) = is_digit_char c && all_digit_chars s

-- At least one digit more than before, and digits only.
pub record Printed (room : ℕ) (out : List ℕ) (r : Option (List ℕ)) : Type 0 where
  pub text : List ℕ
  pub run : r ≡ some text
  pub digits : all_digit_chars text ≡ true
  pub some_digit : length out < length text
  pub fits : length text ≤ length out + room

div_shrinks : (val base p : ℕ) → 8 ≤ base → val < 8 * p → val / base < p
div_shrinks val base p b h = grind arith

not_done : (room v : ℕ) → v < 8 ^ room → v ≢ 0 → 0 < room
not_done zero v p n = absurd (n (omega (arith, p)))
not_done (suc room) v p n = omega arith

fill_loop-Printed :
    (room : ℕ) (lower : Bool) (base val : ℕ) (out : List ℕ)
    → 8 ≤ base
    → base ≤ 16
    → 0 < room
    → val < 8 ^ room
    → all_digit_chars out ≡ true
    → Printed room out (fill_loop room lower base val out)
unfolding fill_loop
fill_loop-Printed zero lower base val out a b p q d = absurd (omega (arith, p))
fill_loop-Printed (suc room) lower base val out a b p q d =
    let c = digit_char lower (val % base) in
    let dc : all_digit_chars (c ∷ out) ≡ true = ground (
      arith,
      d,
      digit_char-is_digit_char lower (val % base)
          (omega (arith, b, mod_lt val base (omega (arith, a)))),
    ) in
    elim (eq_cases (val / base) 0) [
      | inl e ↦
          let z : (val / base == 0) ≡ true = ground (arith, e) in
          record {
            text = c ∷ out;
            run = rw (fill_loop, z) refl;
            digits = dc;
            some_digit = omega arith;
            fits = omega arith;
          }
      | inr n ↦
          let z : (val / base == 0) ≡ false = ground (arith, n) in
          let step : 8 ^ suc room ≡ 8 * 8 ^ room = pow-succ' 8 room in
          let smaller : val / base < 8 ^ room =
            div_shrinks val base (8 ^ room) a (omega (arith, q, step)) in
          let more : 0 < room = not_done room (val / base) smaller n in
          let r = fill_loop-Printed room lower base (val / base) (c ∷ out) a b more smaller dc in
          record {
            text = r.text;
            run = rw (fill_loop, z) r.run;
            digits = r.digits;
            some_digit = omega (arith, r.some_digit);
            fits = omega (arith, r.fits);
          }
    ]

-- For a base from 8 to 16, `fill_numbuf` of a 64-bit number ends, and its 24 bytes are enough.
pub fill_numbuf-Printed :
    (lower : Bool) (base val : ℕ)
    → 8 ≤ base
    → base ≤ 16
    → val < 2 ^ 64
    → Printed 23 [] (fill_numbuf lower base val)
unfolding fill_numbuf
fill_numbuf-Printed lower base val a b p =
    fill_loop-Printed 23 lower base val [] a b (omega arith) (omega (arith, p)) refl
