-- ===== src/Number/RoundTrip.antt =====
-- lib.cc: `strtoul` reads what `fill_numbuf` writes.
use pug_os.Prelude.{
  ℕ, zero, suc, ◌+◌, ◌-◌, ◌*◌, ◌/◌, ◌%◌, ◌^◌, ◌≤◌, ◌<◌, ◌≡◌, ◌≢◌, refl, Bool, true, false, List, [],
  ◌∷◌, some, arith, eq_cases, inl, inr, length, ap, ◌∙◌,
}
use pug_os.Number.{
  fill_loop, fill_numbuf, digit_char, too_large, scan, find_base, strtoul, strtoul_signed, finish,
}
use pug_os.Number.Digits.{digit_of-digit_char, plain_start, not-x, div_cancel, mod_lt, le-div}
use pug_os.Number.Print.{all_digit_chars, fill_numbuf-Printed}

-- The last digit of `val` after the ones before.
scan_last :
    (lower : Bool) (base val : ℕ) (out : List ℕ)
    → 0 < base
    → base ≤ 16
    → val < 2 ^ 64
    → scan base (digit_char lower (val % base) ∷ out) (val / base) false ≡ scan base out val false
unfolding scan
scan_last lower base val out a b p =
    let d = digit_of-digit_char lower base (val % base) b (mod_lt val base a) in
    let whole = div_cancel val base a in
    let fits : too_large base (val / base) (val % base) ≡ false =
      ground
        (arith, le-div (val / base) base (2 ^ 64 - 1 - val % base) a (omega (arith, whole, p))) in
    let back : (val / base * base + val % base) % 2 ^ 64 ≡ val = omega (arith, whole, p) in
    rw (scan, d, fits, back) refl

pub scan-fill_loop :
    (room : ℕ) (lower : Bool) (base val : ℕ) (out text : List ℕ)
    → 0 < base
    → base ≤ 16
    → val < 2 ^ 64
    → fill_loop room lower base val out ≡ some text
    → scan base text 0 false ≡ scan base out val false
unfolding fill_loop
scan-fill_loop zero lower base val out text a b p e = cc
scan-fill_loop (suc room) lower base val out text a b p e = elim (eq_cases (val / base) 0) [
  | inl z ↦ ground (arith, e, z, scan_last lower base val out a b p)
  | inr n ↦ ground (
    arith,
    e,
    n,
    scan_last lower base val out a b p,
    scan-fill_loop room lower base (val / base) (digit_char lower (val % base) ∷ out) text a b
        (omega (arith, p, div_cancel val base a)),
  )
]

-- In a string of digits there is no prefix to skip.
find_base-plain :
    (base : ℕ) (s : List ℕ) → 0 < base → all_digit_chars s ≡ true → find_base base s ≡ (base, s)
unfolding find_base
find_base-plain base [] a d = ground (arith, a)
find_base-plain base (c ∷ []) a d = ground (arith, a)
find_base-plain base (c ∷ x ∷ s) a d = ground (arith, a, d, not-x x)

pub strtoul-digits :
    (base : ℕ) (s : List ℕ)
    → 0 < base
    → [] ≢ s
    → all_digit_chars s ≡ true
    → strtoul s base ≡ finish false (scan base s 0 false)
unfolding strtoul strtoul_signed
strtoul-digits base [] a n d = absurd (n refl)
strtoul-digits base (c ∷ s) a n d =
    let (spaces, minus, plus) = plain_start c s (ground (arith, d)) in
    rw (strtoul, spaces, minus, plus, strtoul_signed, find_base-plain base (c ∷ s) a d) refl

-- A 64-bit number that `fill_numbuf` writes, in a base from 8 to 16 and with the upper or the lower digits,
-- is the number that `strtoul` reads in that base, up to the end of the text.
pub strtoul-fill_numbuf :
    (lower : Bool) (base val : ℕ)
    → 8 ≤ base
    → base ≤ 16
    → val < 2 ^ 64
    → (text : List ℕ) × (fill_numbuf lower base val ≡ some text) × (strtoul text base ≡ (val, []))
unfolding fill_numbuf scan finish
strtoul-fill_numbuf lower base val a b p =
    let r = fill_numbuf-Printed lower base val a b p in
    let pos : 0 < base = omega (arith, a) in
    let n : [] ≢ r.text = λ e. absurd (omega (arith, r.some_digit, ap length e)) in
    (
      r.text,
      r.run,
      strtoul-digits base r.text pos n r.digits
          ∙ ap (finish false) (scan-fill_loop 23 lower base val [] r.text pos b p r.run),
    )
