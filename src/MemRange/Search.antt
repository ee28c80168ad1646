-- ===== src/MemRange/Search.antt =====
-- k-memrange.hh: the searches of `type` and `set`.
use pug_os.Prelude.{
  ℕ, zero, suc, ◌+◌, ◌≤◌, ◌<◌, ◌≡◌, refl, sym, ap, ◌∙◌, inl, inr, true, false, ◌&&◌, some, arith,
  ltb, leb, ◌==◌, lt_cases, Bool-cases,
}
use pug_os.MemRange.{Ranges, find_from, find, type_of, lower_from}
use pug_os.MemRange.Order.{Valid, At, index-le, addr_mono}

-- The range that a search for `x` from `i` on ends at.
pub record Found (s : Ranges) (x i j : ℕ) : Type 0 where
  pub order : i ≤ j
  pub end : j ≤ s.n
  pub below : s.addr j ≤ x
  pub above : j < s.n → x < s.addr (j + 1)

pub find_from-Found :
    (fuel : ℕ) (s : Ranges) (x i : ℕ)
    → i ≤ s.n
    → s.n ≤ i + fuel
    → s.addr i ≤ x
    → Found s x i (find_from fuel s x i)
unfolding find_from
find_from-Found zero s x i p q l = record {
  order = omega arith;
  end = p;
  below = l;
  above = λ h. absurd (omega (arith, p, q, h));
}
find_from-Found (suc fuel) s x i p q l = elim (Bool-cases (ltb i s.n && leb (s.addr (i + 1)) x)) [
  | inl e ↦
      let r =
        find_from-Found fuel s x (i + 1) (ground (arith, e)) (omega (arith, q))
          (ground (arith, e)) in
      rw (find_from, e)
        (record { order = omega (arith, r.order); end = r.end; below = r.below; above = r.above })
  | inr e ↦
      rw (find_from, e)
        (record { order = omega arith; end = p; below = l; above = λ h. ground (arith, e, h) })
]

pub lower_from-Found :
    (fuel : ℕ) (s : Ranges) (x i : ℕ)
    → s.n < i + fuel
    → s.addr i ≤ x
    → x < s.addr s.n
    → i < s.n
    → (j : ℕ) × (lower_from fuel s x i ≡ some j) × (j < s.n) × (s.addr j ≤ x) × (x < s.addr (j + 1))
unfolding lower_from
lower_from-Found zero s x i q l u p = absurd (omega (arith, q, p))
lower_from-Found (suc fuel) s x i q l u p = elim (lt_cases x (s.addr (i + 1))) [
  | inl h ↦
      let e : leb (s.addr (i + 1)) x ≡ false = ground (arith, h) in
      (i, rw (lower_from, e) refl, p, l, h)
  | inr h ↦
      let e : leb (s.addr (i + 1)) x ≡ true = ground (arith, h) in
      let more : i + 1 < s.n = ground (arith, h, u, p) in
      let (j, r, a, b, c) = lower_from-Found fuel s x (i + 1) (omega (arith, q)) h u more in
      (j, rw (lower_from, e) r, a, b, c)
]

-- An address is in one range only.
pub same_range :
    (m : ℕ) (s : Ranges) (x t j : ℕ)
    → Valid m s
    → (a : At s x t) → j < s.n
    → s.addr j ≤ x
    → x < s.addr (j + 1)
    → s.type j ≡ t
same_range m s x t j v a p q r =
    let e : a.index ≡ j = omega (
      arith,
      index-le s v.sorted a.index j x (omega (arith, a.within)) p a.above r,
      index-le s v.sorted j a.index x (omega (arith, p)) a.within q a.below,
    ) in
    ap s.type (sym e) ∙ a.typed

-- `type` returns the type of the range that the address is in.
pub type_of-At : (m : ℕ) (s : Ranges) (x t : ℕ) → Valid m s → At s x t → type_of s x ≡ some t
unfolding type_of find
type_of-At m s x t v a =
    let f = find_from-Found s.n s x 0 (omega arith) (omega arith) (omega (arith, v.start)) in
    let p : find_from s.n s x 0 < s.n =
      ground (arith, f.end, f.below, a.below, a.within, addr_mono s v.sorted (a.index + 1) s.n) in
    let e : (find_from s.n s x 0 == s.n) ≡ false = ground (arith, p) in
    let t' = same_range m s x t (find_from s.n s x 0) v a p f.below (f.above p) in
    rw (e) (ap some t')
