-- ===== src/Alloc/Order.antt =====
-- k-alloc.cc: `order_of`, `find_max_order` and `min_larger_order`.
use pug_os.Prelude.{
  ℕ, zero, suc, ◌+◌, ◌-◌, ◌*◌, ◌/◌, ◌%◌, ◌^◌, ◌≤◌, ◌<◌, ◌≡◌, refl, inl, inr, true, false, Option,
  none, some, List, arith, Bool-cases, ◌==◌, lt_cases, max, leb, ◌↔◌, ◌&&◌, eq_cases, subst, sym,
  ◌∙◌, pow_suc, pow_mono,
}
use mathlib.Core.Bool.{false≢true}
use pug_os.Alloc.{
  Allocator, is_empty, msb_fuel, order_of, size_order, find_max_order_below, find_max_order,
  first_order, min_larger_order, min_order, max_order, norders,
}

msb_fuel-zero : (f : ℕ) → msb_fuel f 0 ≡ 0
unfolding msb_fuel
msb_fuel-zero zero = refl
msb_fuel-zero (suc f) = refl

msb_fuel-upper : (f x : ℕ) → x < 2 ^ f → x < 2 ^ msb_fuel f x
unfolding msb_fuel
msb_fuel-upper zero x h = h
msb_fuel-upper (suc f) x h =
    ground (arith, pow_suc f, pow_suc (msb_fuel f (x / 2)), msb_fuel-upper f (x / 2))

msb_fuel-lower : (f x : ℕ) → 0 < x → x < 2 ^ f → 2 ^ msb_fuel f x ≤ 2 * x
unfolding msb_fuel
msb_fuel-lower zero x p h = omega arith
msb_fuel-lower (suc f) x p h = elim (lt_cases 1 x) [
  | inl q ↦ ground (arith, pow_suc f, pow_suc (msb_fuel f (x / 2)), msb_fuel-lower f (x / 2))
  | inr q ↦ let e : x ≡ 1 = omega arith in rw e (ground (arith, msb_fuel-zero f))
]

order_of-upper : (n : ℕ) → n < 2 ^ 32 → n ≤ 2 ^ order_of n
unfolding order_of
order_of-upper n h = ground (arith, msb_fuel-upper 32 (n - 1))

order_of-lower : (n : ℕ) → 1 < n → n < 2 ^ 32 → 2 ^ order_of n < 2 * n
unfolding order_of
order_of-lower n p h = ground (arith, msb_fuel-lower 32 (n - 1))

-- C: for size
pub size_order_lem :
    (sz : ℕ)
    → 0 < sz
    → sz < 2 ^ 32
    → (sz ≤ 2 ^ size_order sz)
      × (min_order ≤ size_order sz)
      × (min_order < size_order sz → 2 ^ size_order sz < 2 * sz)
unfolding size_order
size_order_lem sz p h = ground (
  arith,
  order_of-upper (max sz 4096),
  order_of-lower (max sz 4096),
  pow_mono (order_of (max sz 4096)) 12,
  pow_mono 13 (order_of (max sz 4096)),
)

-- A block of the order can start at `start` and end by `end`.
abbrev pub Fits : ℕ → ℕ → ℕ → Type 0
Fits start end o = (start % 2 ^ o ≡ 0) × (start + 2 ^ o ≤ end)

-- `r` is the largest order under `bound` that fits, or none does.
abbrev pub IsLargest : ℕ → ℕ → ℕ → Option ℕ → Type 0
IsLargest start end bound none = (o : ℕ) → min_order ≤ o → o < bound → ¬ Fits start end o
IsLargest start end bound (some r) =
    (min_order ≤ r)
    × (r < bound)
    × Fits start end r
    × ((o : ℕ) → r < o → o < bound → ¬ Fits start end o)

Fits-test :
    (start end o : ℕ)
    → start + 2 ^ o < 2 ^ 64
    → (((start % 2 ^ o == 0) && leb ((start + 2 ^ o) % 2 ^ 64) end) ≡ true) ↔ Fits start end o
Fits-test start end o h =
    let e : (start + 2 ^ o) % 2 ^ 64 ≡ start + 2 ^ o = omega arith in
    (λ p. ground (arith, e), λ p. ground (arith, e))

IsLargest-extend :
    (start end b b' : ℕ) (r : Option ℕ)
    → b' ≡ b + 1
    → ¬ Fits start end b
    → IsLargest start end b r
    → IsLargest start end b' r
IsLargest-extend start end b b' none e n h = λ o p q fit. elim (eq_cases o b) [
  | inl same ↦ n (subst (Fits start end) same fit)
  | inr other ↦ h o p (ground arith) fit
]
IsLargest-extend start end b b' (some r) e n h = (
  h.0,
  omega arith,
  h.2,
  λ o p q fit. elim (eq_cases o b) [
    | inl same ↦ n (subst (Fits start end) same fit)
    | inr other ↦ h.3 o p (ground arith) fit
  ],
)

find_max_order_below-IsLargest :
    (k start end : ℕ)
    → start + 2 ^ (min_order + k) < 2 ^ 64
    → IsLargest start end (min_order + k) (find_max_order_below k start end)
unfolding find_max_order_below
find_max_order_below-IsLargest zero start end h = λ o p q. absurd (omega arith)
find_max_order_below-IsLargest (suc k) start end h =
    let small : start + 2 ^ (min_order + k) < 2 ^ 64 =
      omega (arith, pow_mono (min_order + k) (min_order + suc k)) in
    let test = Fits-test start end (min_order + k) small in
    elim (Bool-cases
      ((start % 2 ^ (min_order + k) == 0) && leb ((start + 2 ^ (min_order + k)) % 2 ^ 64) end)) [
        | inl e ↦ rw e (omega arith, omega arith, test.0 e, λ o p q. absurd (omega arith))
        | inr e ↦ rw e (
            IsLargest-extend start end (min_order + k) (min_order + suc k) _ (omega arith)
              (λ fit. false≢true (sym e ∙ test.1 fit))
              (find_max_order_below-IsLargest k start end small))
      ]

-- For a range that ends 16 MiB short of the address space, `find_max_order` returns the largest
-- order of 12 to 24 at which a block can start at the address, by alignment, and end within the
-- range; it returns -1 exactly when there is none.
pub find_max_order-IsLargest :
    (start end : ℕ)
    → start + 2 ^ 25 < 2 ^ 64
    → IsLargest start end (max_order + 1) (find_max_order start end)
unfolding find_max_order
find_max_order-IsLargest start end h = find_max_order_below-IsLargest norders start end h

-- Every order from `o` on and below `bound` has an empty list, but the result.
abbrev pub IsFirst : (ℕ → List ℕ) → ℕ → ℕ → Option ℕ → Type 0
IsFirst free o bound none = (t : ℕ) → o ≤ t → t < bound → is_empty (free t) ≡ true
IsFirst free o bound (some r) =
    (o ≤ r)
    × (r < bound)
    × (is_empty (free r) ≡ false)
    × ((t : ℕ) → o ≤ t → t < r → is_empty (free t) ≡ true)

IsFirst-extend :
    (free : ℕ → List ℕ) (o o' bound : ℕ) (r : Option ℕ)
    → o' ≡ o + 1
    → is_empty (free o) ≡ true
    → IsFirst free o' bound r
    → IsFirst free o bound r
IsFirst-extend free o o' bound none e x h = λ t p q. elim (eq_cases o t) [
  | inl same ↦ subst (λ u. is_empty (free u) ≡ true) same x
  | inr other ↦ h t (ground arith) q
]
IsFirst-extend free o o' bound (some r) e x h = (
  omega arith,
  h.1,
  h.2,
  λ t p q. elim (eq_cases o t) [
    | inl same ↦ subst (λ u. is_empty (free u) ≡ true) same x
    | inr other ↦ h.3 t (ground arith) q
  ],
)

first_order-IsFirst :
    (rounds : ℕ) (free : ℕ → List ℕ) (o bound : ℕ)
    → o + rounds ≡ bound
    → IsFirst free o bound (first_order rounds free o)
unfolding first_order
first_order-IsFirst zero free o bound e = λ t p q. absurd (omega arith)
first_order-IsFirst (suc rounds) free o bound e = elim (Bool-cases (is_empty (free o))) [
  | inl x ↦ rw x (
      IsFirst-extend free o (o + 1) bound _ refl x
        (first_order-IsFirst rounds free (o + 1) bound (omega arith)))
  | inr x ↦ rw x (omega arith, omega arith, x, λ t p q. absurd (omega arith))
]

-- For an order of at most 25, `min_larger_order` returns the least order from it up to 24 whose
-- list of free blocks is not empty, and -1 exactly when all those lists are empty.
pub min_larger_order-IsFirst :
    (s : Allocator) (o : ℕ)
    → o ≤ max_order + 1
    → IsFirst s.free o (max_order + 1) (min_larger_order s o)
unfolding min_larger_order
min_larger_order-IsFirst s o h =
    first_order-IsFirst (max_order + 1 - o) s.free o (max_order + 1) (omega arith)
