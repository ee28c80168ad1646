-- ===== src/MemRange/SetRange.antt =====
-- k-memrange.hh: `set` as an assignment to a map from addresses to types.
use pug_os.Prelude.{
  ℕ, ◌+◌, ◌-◌, ◌≤◌, ◌<◌, ◌≡◌, ◌≢◌, refl, ◌∙◌, inl, inr, true, false, ◌&&◌, ◌||◌, arith, ltb, leb,
  ◌==◌, if◌then◌else◌, update, eq_cases, Bool-cases,
}
use pug_os.MemRange.{Ranges, find_from, place, set_between, set_above, joined_left, set_range, set}
use pug_os.MemRange.Order.{Valid}
use pug_os.MemRange.Place.{Done, Result, done, place_exact, place-Result}
use pug_os.MemRange.Bounds.{
  extend_right, extend_left, Result-map, Starts, joins_right, ends_in, ends_moved, end_moved-At,
}
use pug_os.MemRange.Search.{Found, find_from-Found, lower_from-Found}

module _ (m : ℕ) (s : Ranges) (i j first last type : ℕ) (v : Valid m s) (b : Starts s i first type)
    (f : Found s last i j) (lt : first < last) (le : last ≤ s.addr s.n) where
  end_moved-Result :
      (j < s.n → s.type j ≢ type)
      → i < j
      → first ≡ s.addr i
      → Done m s first last type
          (place m (record s { addr = update s.addr j last }) i j first last type)
  end_moved-Result n p e =
      let x : Ranges = record s { addr = update s.addr j last } in
      let d =
        place_exact m x i j first last type (ends_moved m s i j first last type v b f lt le n p e)
          v.fits (ground (arith, e, p)) (ground arith) in
      record {
        after = d.after;
        run = d.run;
        valid = d.valid;
        assigned = record {
          inside = d.assigned.inside;
          outside = λ y t o h.
              d.assigned.outside y t o
                (end_moved-At m s i j first last type v b f lt le p e y t o h);
          limit = d.assigned.limit ∙ ground (arith, le, f.below);
        };
      }

  set_between-Result : Result m s first last type (set_between m s i j first last type)
  unfolding set_between
  set_between-Result = elim (Bool-cases (ltb j s.n && (s.type j == type))) [
    | inl c ↦
        let p : j < s.n = ground (arith, c) in
        let e : s.type j ≡ type = ground (arith, c) in
        rw (set_between, c)
          (Result-map m s first (s.addr (j + 1)) first last type
            (place m s i (j + 1) first (s.addr (j + 1)) type)
            (λ s'. extend_right m s s' j first last type v p e f.below lt (f.above p))
            (place-Result m s i (j + 1) first (s.addr (j + 1)) type
              (joins_right m s i j first last type v b f lt le p e)))
    | inr c ↦
        let n : j < s.n → s.type j ≢ type = λ p e. ground (arith, c, p, e) in
        elim (Bool-cases (ltb i j && (first == s.addr i))) [
          | inl d ↦
              rw (set_between, c, d)
                (done (end_moved-Result n (ground (arith, d)) (ground (arith, d))))
          | inr d ↦
              rw (set_between, c, d)
                (place-Result m s i j first last type
                  (ends_in m s i j first last type v b f lt le n))
        ]
  ]

set_above-Result :
    (m : ℕ) (s : Ranges) (i first last type : ℕ)
    → Valid m s
    → Starts s i first type
    → first < last
    → last ≤ s.addr s.n
    → Result m s first last type (set_above m s i first last type)
unfolding set_above
set_above-Result m s i first last type v b lt le =
    let j = find_from s.n s last i in
    let f : Found s last i j =
      find_from-Found s.n s last i (omega (arith, b.in_range)) (omega arith)
        (omega (arith, b.above, lt)) in
    let c : (leb j s.n && leb (s.addr j) last && ((j == s.n) || ltb last (s.addr (j + 1)))) ≡ true =
      ground (arith, f.end, f.below, f.above) in
    rw (set_above, c) (set_between-Result m s i j first last type v b f lt le)

joined-Starts :
    (m : ℕ) (s : Ranges) (i type : ℕ)
    → Valid m s
    → i < s.n
    → s.type i ≡ type
    → Starts s i (s.addr i) type
joined-Starts m s i type v p e = record {
  in_range = p;
  above = omega arith;
  below = v.sorted i p;
  left = λ h k. ground (arith, v.distinct (i - 1), e, p, k);
  split = λ h. absurd (h refl);
}

-- From the range `k`, of which the new one takes what has the same type.
joins_left :
    (m : ℕ) (s : Ranges) (k first last type : ℕ)
    → Valid m s
    → k < s.n
    → s.type k ≡ type
    → s.addr k ≤ first
    → first ≤ s.addr (k + 1)
    → first < last
    → last ≤ s.addr s.n
    → Result m s first last type
        (set_above m s k (if s.type k == type then s.addr k else first) last type)
joins_left m s k first last type v p e a b lt le =
    let same : (s.type k == type) ≡ true = ground (arith, e) in
    rw same (
      Result-map m s (s.addr k) last first last type (set_above m s k (s.addr k) last type)
        (λ s'. extend_left m s s' k first last type v p e a lt b)
        (set_above-Result m s k (s.addr k) last type v (joined-Starts m s k type v p e)
          (omega (arith, a, lt)) le))

-- From the range `i` that the new one starts in, when it does not join the one before.
starts_in :
    (m : ℕ) (s : Ranges) (i first last type : ℕ)
    → Valid m s
    → i < s.n
    → s.addr i ≤ first
    → first < s.addr (i + 1)
    → first < last
    → last ≤ s.addr s.n
    → (first ≡ s.addr i → 0 < i → s.type (i - 1) ≢ type)
    → Result m s first last type
        (set_above m s i (if s.type i == type then s.addr i else first) last type)
starts_in m s i first last type v p a b lt le l = elim (eq_cases (s.type i) type) [
  | inl e ↦ joins_left m s i first last type v p e a (omega (arith, b)) lt le
  | inr n ↦
      let other : (s.type i == type) ≡ false = ground (arith, n) in
      rw other (
        set_above-Result m s i first last type v
          (record { in_range = p; above = a; below = b; left = l; split = λ h. n }) lt le)
]

set_range-Result :
    (m : ℕ) (s : Ranges) (first last type : ℕ)
    → Valid m s
    → first < last
    → last ≤ s.addr s.n
    → Result m s first last type (set_range m s first last type)
unfolding set_range joined_left
set_range-Result m s first last type v lt le =
    let (i, r, p, a, b) =
      lower_from-Found (s.n + 1) s first 0 (omega arith) (omega (arith, v.start))
        (omega (arith, lt, le)) v.positive in
    let c : (ltb i s.n && leb (s.addr i) first && ltb first (s.addr (i + 1))) ≡ true =
      ground (arith, p, a, b) in
    elim (Bool-cases ((first == s.addr i) && ltb 0 i && (s.type (i - 1) == type))) [
      | inl d ↦
          let e : i - 1 + 1 ≡ i = ground (arith, d) in
          rw (set_range, r, c, joined_left, d)
            (joins_left m s (i - 1) first last type v (omega (arith, p)) (ground (arith, d))
              (ground (arith, d, v.sorted (i - 1), p)) (ground (arith, d, e)) lt le)
      | inr d ↦
          rw (set_range, r, c, joined_left, d)
            (starts_in m s i first last type v p a b lt le (λ x y z. ground (arith, d, x, y, z)))
    ]

-- `set` on a valid set of ranges, with bounds in order and within the limit, fails no assertion. Unless
-- there is no room, in a set that has less than two ranges to spare, and then nothing is changed, it
-- leaves a valid set, in which exactly the addresses of `[first, last)` have the new type, and every
-- other address the type that it had.
pub set-Result :
    (m : ℕ) (s : Ranges) (first last type : ℕ)
    → Valid m s
    → first ≤ last
    → last ≤ s.addr s.n
    → Result m s first last type (set m s first last type)
unfolding set
set-Result m s first last type v lt le = elim (eq_cases first last) [
  | inl e ↦
      let same : (first == last) ≡ true = ground (arith, e) in
      let c : (leb first last && leb last (s.addr s.n)) ≡ true = ground (arith, lt, le) in
      done (record {
        after = s;
        run = rw (set, c, same) refl;
        valid = v;
        assigned = record {
          inside = λ x p q. absurd (omega (arith, e, p, q));
          outside = λ x t o a. a;
          limit = refl;
        };
      })
  | inr n ↦
      let other : (first == last) ≡ false = ground (arith, n) in
      let c : (leb first last && leb last (s.addr s.n)) ≡ true = ground (arith, lt, le) in
      rw (set, c, other) (set_range-Result m s first last type v (omega (arith, lt, n)) le)
]
