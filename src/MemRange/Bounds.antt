-- ===== src/MemRange/Bounds.antt =====
-- k-memrange.hh: how far the new range of `set` reaches into its neighbours.
use pug_os.Prelude.{
  ℕ, ◌+◌, ◌-◌, ◌≤◌, ◌<◌, ◌≡◌, ◌≢◌, sym, ◌∙◌, ◌⊎◌, inl, inr, Bool, Option, arith, update, subst,
  lt_cases,
}
use pug_os.MemRange.{Ranges}
use pug_os.MemRange.Order.{Valid, At, index-lt, index-le, addr_mono}
use pug_os.MemRange.Assign.{Assigned}
use pug_os.MemRange.Fits.{Fits}
use pug_os.MemRange.Place.{Result, no_room, done}
use pug_os.MemRange.Search.{Found, same_range}

-- A part of the new range at an end had the type before.
pub extend_right :
    (m : ℕ) (s s' : Ranges) (j first last type : ℕ)
    → Valid m s
    → j < s.n
    → s.type j ≡ type
    → s.addr j ≤ last
    → first < last
    → last < s.addr (j + 1)
    → Assigned s s' first (s.addr (j + 1)) type
    → Assigned s s' first last type
extend_right m s s' j first last type v p e a b c d = record {
  inside = λ x h k. d.inside x h (omega (arith, k, c));
  outside = λ x t o h. elim o [
    | inl k ↦ d.outside x t (inl k) h
    | inr k ↦ elim (lt_cases x (s.addr (j + 1))) [
      | inl q ↦
          subst (At s' x) (sym e ∙ same_range m s x t j v h p (omega (arith, a, k)) q)
            (d.inside x (omega (arith, b, k)) q)
      | inr q ↦ d.outside x t (inr q) h
    ]
  ];
  limit = d.limit;
}

pub extend_left :
    (m : ℕ) (s s' : Ranges) (i first last type : ℕ)
    → Valid m s
    → i < s.n
    → s.type i ≡ type
    → s.addr i ≤ first
    → first < last
    → first ≤ s.addr (i + 1)
    → Assigned s s' (s.addr i) last type
    → Assigned s s' first last type
extend_left m s s' i first last type v p e a b c d = record {
  inside = λ x h k. d.inside x (omega (arith, h, a)) k;
  outside = λ x t o h. elim o [
    | inr k ↦ d.outside x t (inr k) h
    | inl k ↦ elim (lt_cases x (s.addr i)) [
      | inl q ↦ d.outside x t (inl q) h
      | inr q ↦
          subst (At s' x) (sym e ∙ same_range m s x t i v h p q (omega (arith, c, k)))
            (d.inside x q (omega (arith, b, k)))
    ]
  ];
  limit = d.limit;
}

pub Result-map :
    (m : ℕ) (s : Ranges) (first last first' last' type : ℕ) (r : Option (Bool × Ranges))
    → ((s' : Ranges) → Assigned s s' first last type → Assigned s s' first' last' type)
    → Result m s first last type r
    → Result m s first' last' type r
Result-map m s first last first' last' type r f (no_room p e) = no_room p e
Result-map m s first last first' last' type r f (done d) =
    done (record { after = d.after; run = d.run; valid = d.valid; assigned = f d.after d.assigned })

-- The new range starts in the range `i`, which is joined when it has the type.
pub record Starts (s : Ranges) (i first type : ℕ) : Type 0 where
  pub in_range : i < s.n
  pub above : s.addr i ≤ first
  pub below : first < s.addr (i + 1)
  pub left : first ≡ s.addr i → 0 < i → s.type (i - 1) ≢ type
  pub split : first ≢ s.addr i → s.type i ≢ type

module _ (m : ℕ) (s : Ranges) (i j first last type : ℕ) (v : Valid m s) (b : Starts s i first type)
    (f : Found s last i j) (lt : first < last) (le : last ≤ s.addr s.n) where
  pub joins_right : j < s.n → s.type j ≡ type → Fits s i (j + 1) first (s.addr (j + 1)) type
  joins_right p e = record {
    start = v.start;
    sorted = v.sorted;
    in_range = b.in_range;
    order = omega (arith, f.order);
    end = omega (arith, p);
    nonempty = omega (arith, f.above p, lt);
    limit = addr_mono s v.sorted (j + 1) s.n (omega (arith, p)) (omega arith);
    first_in = b.above;
    first_before = b.below;
    last_in = omega arith;
    last_before = λ h. v.sorted (j + 1) h;
    right = λ h k. v.distinct j h (e ∙ sym k);
    distinct = v.distinct;
    left = b.left;
    left_split = b.split;
  }

  pub ends_in : (j < s.n → s.type j ≢ type) → Fits s i j first last type
  ends_in n = record {
    start = v.start;
    sorted = v.sorted;
    in_range = b.in_range;
    order = f.order;
    end = f.end;
    nonempty = lt;
    limit = le;
    first_in = b.above;
    first_before = b.below;
    last_in = f.below;
    last_before = f.above;
    right = n;
    distinct = v.distinct;
    left = b.left;
    left_split = b.split;
  }

  abbrev pub end_moved : Ranges
  end_moved = record s { addr = update s.addr j last }

  pub ends_moved :
      (j < s.n → s.type j ≢ type) → i < j → first ≡ s.addr i → Fits end_moved i j first last type
  ends_moved n p e = record {
    start = ground (arith, v.start, p);
    sorted = λ k h. ground (arith, v.sorted k, f.below, f.above, h);
    in_range = b.in_range;
    order = f.order;
    end = f.end;
    nonempty = lt;
    limit = ground (arith, le, f.below);
    first_in = ground (arith, b.above, p);
    first_before = ground (arith, b.below, p, lt);
    last_in = ground arith;
    last_before = λ h. ground (arith, f.above h);
    right = n;
    distinct = v.distinct;
    left = λ h. b.left e;
    left_split = λ h. absurd (h (ground (arith, e, p)));
  }

  pub end_moved-At :
      i < j → first ≡ s.addr i → (x t : ℕ) → (x < first) ⊎ (last ≤ x) → At s x t → At end_moved x t
  end_moved-At p e x t (inl k) a =
      let q : a.index < i =
        index-lt s v.sorted a.index i x a.within (omega (arith, b.in_range)) a.above
          (ground (arith, k, e)) in
      record {
        index = a.index;
        within = a.within;
        above = ground (arith, a.above, q, p);
        below = ground (arith, a.below, q, p);
        typed = a.typed;
      }
  end_moved-At p e x t (inr k) a =
      let q : j ≤ a.index =
        index-le s v.sorted j a.index x f.end a.within (omega (arith, k, f.below)) a.below in
      record {
        index = a.index;
        within = a.within;
        above = ground (arith, a.above, q, k);
        below = ground (arith, a.below, q);
        typed = a.typed;
      }
