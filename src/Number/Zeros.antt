-- ===== src/Number/Zeros.antt =====
-- lib.cc: `strtoul` of a number with zeros in front.
use pug_os.Prelude.{
  ℕ, zero, suc, ◌+◌, ◌*◌, ◌%◌, ◌^◌, ◌≤◌, ◌<◌, ◌≡◌, ◌≢◌, refl, ap, ◌∙◌, Bool, true, false, List, [],
  ◌++◌, some, arith, length, length-append, replicate,
}
use pug_os.Number.{digit_of, too_large, fill_numbuf, scan, strtoul, finish}
use pug_os.Number.Print.{all_digit_chars}
use pug_os.Number.RoundTrip.{strtoul-digits, scan-fill_loop}

digit_of-zero : (base : ℕ) → 0 < base → digit_of base 48 ≡ some 0
unfolding digit_of
digit_of-zero base a = ground (arith, a)

-- Leading zeros do not change what is read.
scan-zeros :
    (base z : ℕ) (s : List ℕ)
    → 0 < base
    → scan base (replicate z 48 ++ s) 0 false ≡ scan base s 0 false
unfolding scan
scan-zeros base zero s a = refl
scan-zeros base (suc z) s a =
    let d : digit_of base 48 ≡ some 0 = digit_of-zero base a in
    let fits : too_large base 0 0 ≡ false = ground arith in
    let same : (0 * base + 0) % 2 ^ 64 ≡ 0 = omega arith in
    rw (scan, d, fits, same) (scan-zeros base z s a)

all_digit_chars-zeros :
    (z : ℕ) (s : List ℕ) → all_digit_chars s ≡ true → all_digit_chars (replicate z 48 ++ s) ≡ true
all_digit_chars-zeros zero s d = d
all_digit_chars-zeros (suc z) s d = all_digit_chars-zeros z s d

nonempty-zeros : (z : ℕ) (s : List ℕ) → 0 < length s → [] ≢ replicate z 48 ++ s
nonempty-zeros z s h e = absurd (omega (arith, h, ap length e, length-append (replicate z 48) s))

pub reads-zeros :
    (lower : Bool) (base num z : ℕ) (text : List ℕ)
    → 8 ≤ base
    → base ≤ 16
    → num < 2 ^ 64
    → fill_numbuf lower base num ≡ some text
    → all_digit_chars text ≡ true
    → 0 < length text
    → strtoul (replicate z 48 ++ text) base ≡ (num, [])
unfolding fill_numbuf scan finish
reads-zeros lower base num z text a b p e d n =
    let pos : 0 < base = omega (arith, a) in
    strtoul-digits base (replicate z 48 ++ text) pos (nonempty-zeros z text n)
      (all_digit_chars-zeros z text d)
    ∙ ap (finish false)
        (scan-zeros base z text pos ∙ scan-fill_loop 23 lower base num [] text pos b p e)
