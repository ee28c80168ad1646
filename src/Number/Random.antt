-- ===== src/Number/Random.antt =====
-- lib.cc: the range of `rand`.
use pug_os.Prelude.{
  ℕ, ◌+◌, ◌-◌, ◌*◌, ◌/◌, ◌%◌, ◌^◌, ◌≤◌, ◌<◌, ◌≡◌, some, none, arith, ltb, ◌||◌, false, refl,
}
use pug_os.Number.{Seed, rand, rand_between, rand_max}

rand-bound : (s : Seed) → (rand s).1 < 2 ^ 31
unfolding rand
rand-bound s = omega arith

product-bound : (r w : ℕ) → r < 2 ^ 31 → r * w ≤ (2 ^ 31 - 1) * w
product-bound r w a = grind arith

scaled : (r w : ℕ) → r < 2 ^ 31 → 0 < w → w < 2 ^ 31 → r * w % 2 ^ 64 / (rand_max + 1) < w
scaled r w a p b = omega (arith, product-bound r w a)

-- `rand` between two bounds that are less than RAND_MAX apart returns a number between them. When they
-- are RAND_MAX apart, which its assertions admit, the width of the range is no `int`.
pub rand_between-bounds :
    (s : Seed) (min max : ℕ)
    → min ≤ max
    → max < 2 ^ 31
    → (max - min < rand_max
        → (t : Seed) × (r : ℕ) × (rand_between s min max ≡ some (t, r)) × (min ≤ r) × (r ≤ max))
      × (max - min ≡ rand_max → rand_between s min max ≡ none)
unfolding rand_between
rand_between-bounds s min max p q = (
  λ w.
      let k = (rand s).1 * (max - min + 1) % 2 ^ 64 / (rand_max + 1) in
      let b = scaled (rand s).1 (max - min + 1) (rand-bound s) (omega arith) (omega (arith, w)) in
      let fits : (ltb max min || ltb rand_max (max - min)) ≡ false = ground (arith, p, q) in
      let int : ltb rand_max (max - min + 1) ≡ false = ground (arith, w) in
      ((rand s).0, min + k, rw (rand_between, fits, int) refl, omega arith, omega (arith, b, p)),
  λ e. ground (arith, p, e),
)
