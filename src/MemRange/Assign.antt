-- ===== src/MemRange/Assign.antt =====
-- k-memrange.hh: the end of `set`, where the ranges between the bounds become one.
use pug_os.Prelude.{
  ℕ, ◌+◌, ◌-◌, ◌≤◌, ◌<◌, ◌≡◌, ◌≢◌, refl, ◌⊎◌, inl, inr, true, false, arith, ltb, update, lt_cases,
}
use pug_os.MemRange.{Ranges, assign, shift_down}
use pug_os.MemRange.Order.{Valid, At, index-lt, index-le, addr_mono}

-- The ranges from `i` to `j` make up `[first, last)`, and their neighbours have other types.
pub record Bounded (m : ℕ) (s : Ranges) (i j first last type : ℕ) : Type 0 where
  pub fits : s.n ≤ m
  pub start : s.addr 0 ≡ 0
  pub sorted : (k : ℕ) → k < s.n → s.addr k < s.addr (k + 1)
  pub order : i < j
  pub in_range : j ≤ s.n
  pub first_at : s.addr i ≡ first
  pub last_at : s.addr j ≡ last
  pub left : 0 < i → s.type (i - 1) ≢ type
  pub right : j < s.n → s.type j ≢ type
  pub distinct_left : (k : ℕ) → k + 1 < i → s.type k ≢ s.type (k + 1)
  pub distinct_right : (k : ℕ) → j ≤ k → k + 1 < s.n → s.type k ≢ s.type (k + 1)

-- What the assignment makes of the types of the addresses.
pub record Assigned (s s' : Ranges) (first last type : ℕ) : Type 0 where
  pub inside : (x : ℕ) → first ≤ x → x < last → At s' x type
  pub outside : (x t : ℕ) → (x < first) ⊎ (last ≤ x) → At s x t → At s' x t
  pub limit : s'.addr s'.n ≡ s.addr s.n

module _ (m : ℕ) (s : Ranges) (i j first last type : ℕ) (b : Bounded m s i j first last type) where
  abbrev merged : Ranges
  merged = record {
    n = s.n - (j - (i + 1));
    addr = shift_down s.addr s.n i j;
    type = shift_down (update s.type i type) s.n i j;
  }

  merged-Valid : Valid m merged
  merged-Valid = record {
    positive = omega (arith, b.order, b.in_range);
    fits = omega (arith, b.fits);
    start = ground (arith, b.start);
    sorted = λ k h. ground (
      arith,
      b.sorted k,
      b.sorted (k + j - (i + 1)),
      b.order,
      b.in_range,
      h,
      b.sorted i,
      addr_mono s b.sorted (i + 1) j,
    );
    distinct = λ k h. ground (
      arith,
      b.order,
      b.in_range,
      b.left,
      b.right,
      b.distinct_left k,
      b.distinct_right (k + j - (i + 1)),
      h,
    );
  }

  merged-inside : (x : ℕ) → first ≤ x → x < last → At merged x type
  merged-inside x p q = record {
    index = i;
    within = omega (arith, b.order, b.in_range);
    above = ground (arith, p, b.first_at);
    below = ground (arith, q, b.last_at, b.order, b.in_range);
    typed = ground arith;
  }

  merged-outside : (x t : ℕ) → (x < first) ⊎ (last ≤ x) → At s x t → At merged x t
  merged-outside x t (inl p) a =
      let k : a.index < i =
        index-lt s b.sorted a.index i x a.within (omega (arith, b.order, b.in_range)) a.above
          (ground (arith, p, b.first_at)) in
      record {
        index = a.index;
        within = omega (arith, k, b.order, b.in_range);
        above = ground (arith, a.above, k);
        below = ground (arith, a.below, k);
        typed = ground (arith, a.typed, k);
      }
  merged-outside x t (inr p) a =
      let k : j ≤ a.index =
        index-le s b.sorted j a.index x b.in_range a.within (ground (arith, p, b.last_at))
          a.below in
      let e : a.index - (j - (i + 1)) + j - (i + 1) ≡ a.index = omega (arith, k, b.order) in
      let f : a.index - (j - (i + 1)) + 1 + j - (i + 1) ≡ a.index + 1 = omega (arith, k, b.order) in
      record {
        index = a.index - (j - (i + 1));
        within = omega (arith, k, a.within, b.order, b.in_range);
        above = ground (arith, a.above, a.within, k, e, b.order);
        below = ground (arith, a.below, a.within, k, f, b.order);
        typed = ground (arith, a.typed, a.within, k, e, b.order);
      }

  merged-Assigned : Assigned s merged first last type
  merged-Assigned = record {
    inside = merged-inside;
    outside = merged-outside;
    limit = ground (arith, b.order, b.in_range);
  }

  single-merged : j ≡ i + 1 → record s { type = update s.type i type } ≡ merged
  single-merged e =
      let pn : s.n ≡ merged.n = omega (arith, e) in
      let pa : (k : ℕ) → s.addr k ≡ merged.addr k = λ k. ground (arith, e) in
      let pt : (k : ℕ) → update s.type i type k ≡ merged.type k = λ k. ground (arith, e) in
      λ t. record { n = pn t; addr = λ k. pa k t; type = λ k. pt k t }

  assign-merged : assign s i j type ≡ merged
  unfolding assign
  assign-merged = elim (lt_cases (i + 1) j) [
    | inl p ↦ let e : ltb (i + 1) j ≡ true = ground (arith, p) in rw (assign, e) refl
    | inr p ↦
        let e : ltb (i + 1) j ≡ false = ground (arith, p) in
        rw (assign, e) (single-merged (omega (arith, p, b.order)))
  ]

  pub assign-Valid : Valid m (assign s i j type)
  assign-Valid = rw assign-merged merged-Valid

  pub assign-Assigned : Assigned s (assign s i j type) first last type
  assign-Assigned = rw assign-merged merged-Assigned
