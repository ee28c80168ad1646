-- ===== src/Printf/Layout.antt =====
-- lib.cc: how `printer_vprintf` lays out a number.
use pug_os.Prelude.{
  ℕ, zero, suc, ◌+◌, ◌-◌, ◌^◌, ◌≤◌, ◌<◌, ◌≡◌, refl, ap, max, Bool, true, List, [], ◌++◌, Option,
  some, none, arith, if◌then◌else◌, length, length-append, take_all, replicate,
}
use pug_os.Number.{strtoul}
use pug_os.Number.Print.{fill_numbuf-Printed}
use pug_os.Number.Zeros.{reads-zeros}
use pug_os.Printf.{
  Flags, Field, number, is_number, data_of, data_len, prefix_of, zeros_of, pad, render,
}

length-replicate : (n c : ℕ) → length (replicate n c) ≡ n
length-replicate zero c = refl
length-replicate (suc n) c = ap suc (length-replicate n c)

pub length-pad :
    (f : Flags) (width : ℕ) (prefix : List ℕ) (zeros : ℕ) (text : List ℕ)
    → length (pad f width prefix zeros text) ≡ max width (length prefix + zeros + length text)
unfolding pad
length-pad f width prefix zeros text =
    let n = width - (length text + zeros + length prefix) in
    let spaces : List ℕ = replicate n 32 in
    let right : List ℕ = if f.left then spaces else [] in
    ground (
      arith,
      length-replicate n 32,
      length-replicate zeros 48,
      length-append spaces (prefix ++ (replicate zeros 48 ++ (text ++ right))),
      length-append prefix (replicate zeros 48 ++ (text ++ right)),
      length-append (replicate zeros 48) (text ++ right),
      length-append text right,
    )

-- The prefix, the zeros and the digits are padded to the width; `strtoul` reads the number from them.
pub record Rendered (f : Flags) (width base num : ℕ) (precision : Option ℕ) (prefix out : List ℕ)
    : Type 0 where
  pub zeros : ℕ
  pub digits : List ℕ
  pub layout : out ≡ pad f width prefix zeros digits
  pub width_of : length out ≡ max width (length prefix + zeros + length digits)
  pub precise : (p : ℕ) → precision ≡ some p → p ≤ zeros + length digits
  pub reads : strtoul (replicate zeros 48 ++ digits) base ≡ (num, [])

zeros_of-precise :
    (f : Flags) (fd : Field) (width p datalen plen : ℕ)
    → is_number fd ≡ true
    → p ≤ zeros_of f fd width (some p) datalen plen + datalen
unfolding zeros_of
zeros_of-precise f fd width p datalen plen e = ground (arith, e)

data_len-number :
    (fd : Field) (precision : Option ℕ) (text : List ℕ)
    → is_number fd ≡ true
    → data_len fd precision text ≡ length text
unfolding data_len
data_len-number fd none text e = refl
data_len-number fd (some p) text e = ground (arith, e)

-- A number is printed in a field that is as wide as its sign or prefix, its zeros and its digits need, and
-- at least as wide as asked for. The zeros fill it up to the precision, and what is read from the zeros
-- and the digits is the number.
pub render-Rendered :
    (f : Flags) (width : ℕ) (precision : Option ℕ) (lower : Bool) (base num : ℕ)
    (signed negative alt2 : Bool)
    → 8 ≤ base
    → base ≤ 16
    → num < 2 ^ 64
    → let fd = number lower base num signed negative alt2 in
      (out : List ℕ) × (render f width precision fd ≡ some out)
      × Rendered f width base num precision (prefix_of f fd) out
unfolding render data_of is_number
render-Rendered f width precision lower base num signed negative alt2 a b p =
    let fd = number lower base num signed negative alt2 in
    let r = fill_numbuf-Printed lower base num a b p in
    let prefix = prefix_of f fd in
    let z = zeros_of f fd width precision (length r.text) (length prefix) in
    let whole = data_len-number fd precision r.text refl in
    (
      pad f width prefix z r.text,
      rw (render, data_of, r.run, whole, take_all (length r.text) r.text (omega arith)) refl,
      record {
        zeros = z;
        digits = r.text;
        layout = refl;
        width_of = length-pad f width prefix z r.text;
        precise = λ q e. rw e (zeros_of-precise f fd width q (length r.text) (length prefix) refl);
        reads =
            reads-zeros lower base num z r.text a b p r.run r.digits (omega (arith, r.some_digit));
      },
    )
