-- ===== src/MemRange/Place.antt =====
-- k-memrange.hh: the splits at both ends of the new range in `set`.
use pug_os.Prelude.{
  ℕ, ◌+◌, ◌≤◌, ◌<◌, ◌≡◌, refl, ◌∙◌, inl, inr, Bool, true, false, Option, some, arith, ltb, ◌==◌,
  if◌then◌else◌, lt_cases, eq_cases,
}
use pug_os.MemRange.{Ranges, assign, place, cut, cut_and_assign}
use pug_os.MemRange.Order.{Valid, At}
use pug_os.MemRange.Cut.{halved, halved-At, halved-limit, cut-halved, cut_same}
use pug_os.MemRange.Assign.{Bounded, Assigned, assign-Valid, assign-Assigned}
use pug_os.MemRange.Fits.{
  Fits, LeftCut, left_same, left_halved, right_same, inside_last, right_halved,
}

-- A split changes the type of no address.
record Keeps (s s' : Ranges) : Type 0 where
  at : (x t : ℕ) → At s x t → At s' x t
  limit : s'.addr s'.n ≡ s.addr s.n

-- The ranges after both cuts, which moved the bounds to `a` and `b`.
record BothCut (m : ℕ) (s : Ranges) (i j first last type : ℕ) : Type 0 where
  cuts : Ranges
  a : ℕ
  b : ℕ
  run : cut_and_assign m s i j first last type ≡ some (true, assign cuts a b type)
  bounded : Bounded m cuts a b first last type
  keeps : Keeps s cuts

record RightCut (m : ℕ) (s : Ranges) (i j first last type : ℕ) : Type 0 where
  cuts : Ranges
  e : ℕ
  run : cut m s j last ≡ some (e, cuts)
  bounded : Bounded m cuts i (j + e) first last type
  keeps : Keeps s cuts

right_cut :
    (m : ℕ) (s : Ranges) (i j first last type : ℕ)
    → LeftCut s i j first last type
    → s.n + (if last == s.addr j then 0 else 1) ≤ m
    → RightCut m s i j first last type
right_cut m s i j first last type c r = elim (eq_cases last (s.addr j)) [
  | inl e ↦
      let z : j + 0 ≡ j = omega arith in
      record {
        cuts = s;
        e = 0;
        run = cut_same m s j last e;
        bounded = rw z (right_same m s i j first last type c (ground (arith, r, e)) e);
        keeps = record { at = λ x t h. h; limit = refl };
      }
  | inr n ↦
      let p = inside_last m s i j first last type c n in
      let lo : s.addr j < last = omega (arith, c.last_in, n) in
      let room : s.n + 1 ≤ m = ground (arith, r, n) in
      record {
        cuts = halved s j last;
        e = 1;
        run = cut-halved m s j last p lo (c.last_before p) room;
        bounded = right_halved m s i j first last type c room n;
        keeps = record {
          at = halved-At m s j last p lo (c.last_before p);
          limit = halved-limit m s j last p lo (c.last_before p);
        };
      }
]

run-after :
    (m : ℕ) (s s1 : Ranges) (i j d first last type : ℕ)
    → cut m s i first ≡ some (d, s1)
    → (c : RightCut m s1 (i + d) (j + d) first last type)
    → cut_and_assign m s i j first last type ≡ some (true, assign c.cuts (i + d) (j + d + c.e) type)
unfolding cut_and_assign
run-after m s s1 i j d first last type e c =
    let a : (c.cuts.addr (i + d) == first) ≡ true = ground (arith, c.bounded.first_at) in
    let b : (c.cuts.addr (j + d + c.e) == last) ≡ true = ground (arith, c.bounded.last_at) in
    rw (e, c.run, a, b) refl

both_cut :
    (m : ℕ) (s : Ranges) (i j first last type : ℕ)
    → Fits s i j first last type
    → s.n + (if first == s.addr i then 0 else 1) + (if last == s.addr j then 0 else 1) ≤ m
    → BothCut m s i j first last type
both_cut m s i j first last type f r = elim (eq_cases first (s.addr i)) [
  | inl e ↦
      let z : (k : ℕ) → k + 0 ≡ k = λ k. omega arith in
      let c0 =
        right_cut m s i j first last type (left_same s i j first last type f e)
          (ground (arith, r, e)) in
      let c : RightCut m s (i + 0) (j + 0) first last type = rw (z i, z j) c0 in
      record {
        cuts = c.cuts;
        a = i + 0;
        b = j + 0 + c.e;
        run = run-after m s s i j 0 first last type (cut_same m s i first e) c;
        bounded = c.bounded;
        keeps = c.keeps;
      }
  | inr n ↦
      let lo : s.addr i < first = omega (arith, f.first_in, n) in
      let room : s.n + 1 ≤ m = ground (arith, r, n) in
      let c =
        right_cut m (halved s i first) (i + 1) (j + 1) first last type
          (left_halved s i j first last type f n)
          (ground
            (arith, r, n, f.order, f.end, f.last_in, f.nonempty, f.first_in, f.first_before)) in
      record {
        cuts = c.cuts;
        a = i + 1;
        b = j + 1 + c.e;
        run =
            run-after m s (halved s i first) i j 1 first last type
              (cut-halved m s i first f.in_range lo f.first_before room) c;
        bounded = c.bounded;
        keeps = record {
          at = λ x t h. c.keeps.at x t (halved-At m s i first f.in_range lo f.first_before x t h);
          limit = c.keeps.limit ∙ halved-limit m s i first f.in_range lo f.first_before;
        };
      }
]

-- The new range is there.
pub record Done (m : ℕ) (s : Ranges) (first last type : ℕ) (r : Option (Bool × Ranges))
    : Type 0 where
  pub after : Ranges
  pub run : r ≡ some (true, after)
  pub valid : Valid m after
  pub assigned : Assigned s after first last type

-- There is no room for it, and nothing has changed; or it is there.
pub data Result (m : ℕ) (s : Ranges) (first last type : ℕ) (r : Option (Bool × Ranges))
    : Type 0 where
  no_room : m < s.n + 2 → r ≡ some (false, s) → Result m s first last type r
  done : Done m s first last type r → Result m s first last type r

module _ (m : ℕ) (s : Ranges) (i j first last type : ℕ) (f : Fits s i j first last type) where
  abbrev size : ℕ
  size = s.n + (if first == s.addr i then 0 else 1) + (if last == s.addr j then 0 else 1)

  place-Done : size ≤ m → Done m s first last type (place m s i j first last type)
  unfolding place
  place-Done p =
      let e : ltb m size ≡ false = ground (arith, p) in
      let c = both_cut m s i j first last type f p in
      let made = assign-Assigned m c.cuts c.a c.b first last type c.bounded in
      record {
        after = assign c.cuts c.a c.b type;
        run = rw (place, e, c.run) refl;
        valid = assign-Valid m c.cuts c.a c.b first last type c.bounded;
        assigned = record {
          inside = made.inside;
          outside = λ x t o h. made.outside x t o (c.keeps.at x t h);
          limit = made.limit ∙ c.keeps.limit;
        };
      }

  pub place_exact :
      s.n ≤ m
      → first ≡ s.addr i
      → last ≡ s.addr j
      → Done m s first last type (place m s i j first last type)
  place_exact r a b = place-Done (ground (arith, r, a, b))

  pub place-Result : Result m s first last type (place m s i j first last type)
  unfolding place
  place-Result = elim (lt_cases m size) [
    | inl p ↦
        let e : ltb m size ≡ true = ground (arith, p) in
        no_room (ground (arith, p)) (rw (place, e) refl)
    | inr p ↦ done (place-Done p)
  ]
