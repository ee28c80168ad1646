-- ===== src/Printf/Fuel.antt =====
-- lib.cc: each round of `printer_vprintf` takes something from the format, so that the loop ends.
use pug_os.Prelude.{
  ℕ, zero, suc, ◌+◌, ◌-◌, ◌*◌, ◌≤◌, ◌<◌, ◌≡◌, ◌≢◌, ◌⊎◌, ◌++◌, refl, Bool, true, false, ◌||◌, List,
  [], ◌∷◌, Option, some, arith, ◌==◌, >>=-eq-some, length, Bool-cases, Option-cases, inl, inr, ap,
}
use pug_os.Printf.{
  Arg, word, text, Flags, no_flags, set_flag, parse_flags, parse_number, take_word, take_text,
  parse_width, after_point, parse_precision, Converted, field, set_color, convert_char, convert,
  finish_conversion, conversion, render, printer_vprintf, Printed, done, undefined, unfinished,
  map_printed,
}

parse_flags-le : (f : Flags) (s : List ℕ) → length (parse_flags f s).1 ≤ length s
unfolding parse_flags
parse_flags-le f [] = omega arith
parse_flags-le f (c ∷ s) = elim (Option-cases (set_flag f c)) [
  | inl e ↦ rw (parse_flags, e) (omega arith)
  | inr (g, e) ↦ rw (parse_flags, e) (omega (arith, parse_flags-le g s))
]

parse_number-le : (n : ℕ) (s : List ℕ) → length (parse_number n s).1 ≤ length s
unfolding parse_number
parse_number-le n [] = omega arith
parse_number-le n (c ∷ s) = ground (arith, parse_number-le (10 * n + (c - 48)) s)

parse_width-le :
    (s : List ℕ) (args : List Arg) (w : ℕ) (s' : List ℕ) (args' : List Arg)
    → parse_width s args ≡ some (w, s', args')
    → length s' ≤ length s
unfolding parse_width take_word
parse_width-le [] args w s' args' e = ground (arith, e)
parse_width-le (c ∷ s) [] w s' args' e = ground (arith, e, parse_number-le 0 (c ∷ s))
parse_width-le (c ∷ s) (word x ∷ r) w s' args' e = ground (arith, e, parse_number-le 0 (c ∷ s))
parse_width-le (c ∷ s) (text t ∷ r) w s' args' e = ground (arith, e, parse_number-le 0 (c ∷ s))

after_point-le :
    (s : List ℕ) (args : List Arg) (o : Option ℕ) (s' : List ℕ) (args' : List Arg)
    → after_point s args ≡ some (o, s', args')
    → length s' ≤ length s
unfolding after_point take_word
after_point-le [] args w s' args' e = ground (arith, e)
after_point-le (c ∷ s) [] w s' args' e = ground (arith, e, parse_number-le 0 (c ∷ s))
after_point-le (c ∷ s) (word x ∷ r) w s' args' e = ground (arith, e, parse_number-le 0 (c ∷ s))
after_point-le (c ∷ s) (text t ∷ r) w s' args' e = ground (arith, e, parse_number-le 0 (c ∷ s))

parse_precision-le :
    (s : List ℕ) (args : List Arg) (o : Option ℕ) (s' : List ℕ) (args' : List Arg)
    → parse_precision s args ≡ some (o, s', args')
    → length s' ≤ length s
unfolding parse_precision
parse_precision-le [] args w s' args' e = ground (arith, e)
parse_precision-le (c ∷ s) args w s' args' e = ground (arith, e, after_point-le s args w s' args')

abbrev rest_of : Converted → List ℕ
rest_of (field fd s args) = s
rest_of (set_color c s args) = s

convert_char-rest :
    (long : Bool) (c : ℕ) (s : List ℕ) (args : List Arg) (r : Converted)
    → convert_char long c s args ≡ some r
    → rest_of r ≡ s
unfolding convert_char take_word take_text
convert_char-rest long c s [] (field fd s' args') e = ground (arith, e)
convert_char-rest long c s [] (set_color k s' args') e = ground (arith, e)
convert_char-rest long c s (word x ∷ r) (field fd s' args') e = ground (arith, e)
convert_char-rest long c s (word x ∷ r) (set_color k s' args') e = ground (arith, e)
convert_char-rest long c s (text t ∷ r) (field fd s' args') e = ground (arith, e)
convert_char-rest long c s (text t ∷ r) (set_color k s' args') e = ground (arith, e)

convert-le :
    (long : Bool) (s : List ℕ) (args : List Arg) (r : Converted)
    → convert long s args ≡ some r
    → length (rest_of r) ≤ length s
unfolding convert
convert-le long [] args (field fd s' args') e = ground (arith, e)
convert-le long [] args (set_color k s' args') e = ground (arith, e)
convert-le long (c ∷ s) args r e = elim (Bool-cases ((c == 108) || (c == 122))) [
  | inl t ↦ omega (arith, convert-le true s args r (rw (t) at e))
  | inr t ↦ omega (arith, ap length (convert_char-rest long c s args r (rw (t) at e)))
]

finish_conversion-rest :
    (c : ℕ) (f : Flags) (w : ℕ) (p : Option ℕ) (r : Converted) (c' : ℕ) (out : List (ℕ × ℕ))
    (s' : List ℕ) (args' : List Arg)
    → finish_conversion c f w p r ≡ some (c', out, s', args')
    → s' ≡ rest_of r
unfolding finish_conversion
finish_conversion-rest c f w p (set_color k s args) c' out s' args' e = ground (arith, e)
finish_conversion-rest c f w p (field fd s args) c' out s' args' e =
    let (t, a, b) = >>=-eq-some (render f w p fd) _ e in ground (arith, b)

conversion-le :
    (c : ℕ) (s : List ℕ) (args : List Arg) (c' : ℕ) (out : List (ℕ × ℕ)) (s' : List ℕ)
    (args' : List Arg)
    → conversion c s args ≡ some (c', out, s', args')
    → length s' ≤ length s
unfolding conversion
conversion-le c s args c' out s' args' e =
    let (f, s1) = parse_flags no_flags s in
    let ((w, s2, args2), a, e2) = >>=-eq-some (parse_width s1 args) _ e in
    let ((p, s3, args3), b, e3) = >>=-eq-some (parse_precision s2 args2) _ e2 in
    let (r, d, e4) = >>=-eq-some (convert false s3 args3) _ e3 in
    omega (
      arith,
      parse_flags-le no_flags s,
      parse_width-le s1 args w s2 args2 a,
      parse_precision-le s2 args2 p s3 args3 b,
      convert-le false s3 args3 r d,
      ap length (finish_conversion-rest c f w p r c' out s' args' e4),
    )

-- The loop did end, and one round more of fuel changes nothing.
record Ends (r r' : Printed (List (ℕ × ℕ))) : Type 0 where
  ended : r ≢ unfinished
  same : r' ≡ r

Ends-map :
    (f : List (ℕ × ℕ) → List (ℕ × ℕ)) (r r' : Printed (List (ℕ × ℕ)))
    → Ends r r'
    → Ends (map_printed f r) (map_printed f r')
Ends-map f (done x) r' e = record { ended = λ h. cc; same = ap (map_printed f) e.same }
Ends-map f undefined r' e = record { ended = λ h. cc; same = ap (map_printed f) e.same }
Ends-map f unfinished r' e = absurd (e.ended refl)

loop-Ends :
    (fuel fuel' color : ℕ) (s : List ℕ) (args : List Arg)
    → length s < fuel
    → length s < fuel'
    → Ends (printer_vprintf fuel color s args) (printer_vprintf fuel' color s args)
unfolding printer_vprintf
loop-Ends zero fuel' color s args p q = absurd (omega (arith, p))
loop-Ends (suc fuel) zero color s args p q = absurd (omega (arith, q))
loop-Ends (suc fuel) (suc fuel') color [] args p q = record { ended = λ h. cc; same = refl }
loop-Ends (suc fuel) (suc fuel') color (c ∷ s) args p q = elim (Bool-cases (c == 37)) [
  | inr e ↦
      rw (printer_vprintf, e)
        (Ends-map (λ out. (c, color) ∷ out) _ _
          (loop-Ends fuel fuel' color s args (omega (arith, p)) (omega (arith, q))))
  | inl e ↦ elim (Option-cases (conversion color s args)) [
    | inl n ↦ rw (printer_vprintf, e, n) (record { ended = λ h. cc; same = refl })
    | inr ((color', out, s', args'), d) ↦
        let shorter = conversion-le color s args color' out s' args' d in
        rw (printer_vprintf, e, d)
          (Ends-map (λ out'. out ++ out') _ _
            (loop-Ends fuel fuel' color' s' args' (omega (arith, p, shorter))
              (omega (arith, q, shorter))))
  ]
]

-- The loop of `printer_vprintf` ends: with more rounds than the format has characters, it ends within
-- them, with its output or at an argument that is missing or of another kind, and the number of rounds
-- makes no difference.
pub printer_vprintf_ends :
    (fuel fuel' color : ℕ) (s : List ℕ) (args : List Arg)
    → length s < fuel
    → length s < fuel'
    → (printer_vprintf fuel color s args ≢ unfinished)
      × (printer_vprintf fuel' color s args ≡ printer_vprintf fuel color s args)
printer_vprintf_ends fuel fuel' color s args p q =
    let e = loop-Ends fuel fuel' color s args p q in (e.ended, e.same)

-- So it has an output, or the arguments do not fit the format.
pub printed-cases :
    (fuel color : ℕ) (s : List ℕ) (args : List Arg)
    → length s < fuel
    → (printer_vprintf fuel color s args ≡ undefined)
      ⊎ ((out : List (ℕ × ℕ)) × (printer_vprintf fuel color s args ≡ done out))
printed-cases fuel color s args p =
    go (printer_vprintf fuel color s args) (printer_vprintf_ends fuel fuel color s args p p).0
  where
    go :
        (r : Printed (List (ℕ × ℕ)))
        → r ≢ unfinished
        → (r ≡ undefined) ⊎ ((out : List (ℕ × ℕ)) × (r ≡ done out))
    go (done out) h = inr (out, refl)
    go undefined h = inl refl
    go unfinished h = absurd (h refl)
