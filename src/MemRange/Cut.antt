-- ===== src/MemRange/Cut.antt =====
-- k-memrange.hh: `split`.
use pug_os.Prelude.{
  ℕ, ◌+◌, ◌-◌, ◌≤◌, ◌<◌, ◌≡◌, refl, inl, inr, true, false, some, arith, ◌==◌, update, lt_cases,
}
use pug_os.MemRange.{Ranges, split, cut, shift_up}
use pug_os.MemRange.Order.{At}

abbrev pub halved : Ranges → ℕ → ℕ → Ranges
halved s i x = record {
  n = s.n + 1;
  addr = update (shift_up s.addr s.n i) (i + 1) x;
  type = update (shift_up s.type s.n i) (i + 1) (s.type i);
}

module _ (m : ℕ) (s : Ranges) (i x : ℕ) (p : i < s.n) (lo : s.addr i < x)
    (hi : x < s.addr (i + 1)) where
  pub split-halved : s.n + 1 ≤ m → split m s i x ≡ some (halved s i x)
  unfolding split
  split-halved f = ground (arith, p, lo, hi, f)

  pub halved-sorted :
      ((k : ℕ) → k < s.n → s.addr k < s.addr (k + 1))
      → (k : ℕ) → k < s.n + 1
      → (halved s i x).addr k < (halved s i x).addr (k + 1)
  halved-sorted v k q = ground (arith, p, lo, hi, v k, v (k - 1))

  pub halved-At : (y type : ℕ) → At s y type → At (halved s i x) y type
  halved-At y type a = elim (lt_cases a.index i) [
    | inl b ↦ record {
      index = a.index;
      within = omega (arith, a.within);
      above = ground (arith, a.above, b);
      below = ground (arith, a.below, b);
      typed = ground (arith, a.typed, b);
    }
    | inr b ↦ elim (lt_cases i a.index) [
      | inl c ↦ record {
        index = a.index + 1;
        within = omega (arith, a.within);
        above = ground (arith, a.above, a.within, c);
        below = ground (arith, a.below, a.within, c);
        typed = ground (arith, a.typed, a.within, c);
      }
      | inr c ↦
          let e : a.index ≡ i = omega (arith, b, c) in
          elim (lt_cases y x) [
            | inl d ↦ record {
              index = i;
              within = omega (arith, p);
              above = ground (arith, a.above, e);
              below = ground (arith, d);
              typed = ground (arith, a.typed, e);
            }
            | inr d ↦ record {
              index = i + 1;
              within = omega (arith, p);
              above = ground (arith, d);
              below = ground (arith, a.below, e, p);
              typed = ground (arith, a.typed, e);
            }
          ]
    ]
  ]

  pub halved-limit : (halved s i x).addr (halved s i x).n ≡ s.addr s.n
  halved-limit = ground (arith, p)

  pub cut-halved : s.n + 1 ≤ m → cut m s i x ≡ some (1, halved s i x)
  unfolding cut
  cut-halved f = let e : (x == s.addr i) ≡ false = ground (arith, lo) in rw (e, split-halved f) refl

pub cut_same : (m : ℕ) (s : Ranges) (i x : ℕ) → x ≡ s.addr i → cut m s i x ≡ some (0, s)
unfolding cut
cut_same m s i x e = let f : (x == s.addr i) ≡ true = ground (arith, e) in rw (f) refl
