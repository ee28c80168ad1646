-- ===== src/Alloc/Init/Filled.antt =====
-- k-alloc.cc: what `init_kalloc` makes of each range.
use pug_os.Prelude.{
  ℕ, zero, suc, ◌+◌, ◌-◌, ◌*◌, ◌/◌, ◌%◌, ◌^◌, ◌≤◌, ◌<◌, ◌≡◌, refl, sym, inl, inr, Bool, not, Option,
  some, none, List, [], ◌∷◌, arith, ltb, ap, ◌∙◌, subst, pow_pos, ◌>>=◌, Bool-cases, Option-cases,
  lt_cases,
}
use pug_os.Alloc.{Allocator, max_order, min_order, page_size, find_max_order}
use pug_os.Alloc.Order.{IsLargest, find_max_order-IsLargest}
use pug_os.Alloc.Inv.{IsValid, IsBase, block_pages}
use pug_os.Alloc.Init.{
  Range, Ascending, memory, blank, put_block, cut_range, cut_ranges, init_kalloc, Cut, blank-Cut,
  put, put-Cut, Cut-mono, page_of_block, put_block-put,
}

-- The page `j` is in a block, which is free or in use as told.
abbrev pub Covered : Allocator → Bool → ℕ → Type 0
Covered t available j =
    (i : ℕ) × IsBase t i
    × (i ≤ j)
    × (j < i + block_pages (t.pages i).order)
    × ((t.pages i).allocated ≡ not available)

-- Each page from `addr` to `last` is in such a block, when these are addresses of pages.
abbrev pub Filled : Allocator → ℕ → ℕ → Bool → Type 0
Filled t addr last available =
    addr % page_size ≡ 0
    → last % page_size ≡ 0
    → (j : ℕ) → addr ≤ j * page_size
    → j * page_size < last
    → Covered t available j

-- The entries of `pages` before `a` stay.
abbrev Keeps : Allocator → Allocator → ℕ → Type 0
Keeps s t a = (k : ℕ) → k < a → t.pages k ≡ s.pages k

-- The loop ends, with the blocks before the page `b`, and the rest of the range is filled.
record Made (s : Allocator) (a addr last : ℕ) (available : Bool) (r : Option Allocator)
    : Type 0 where
  t : Allocator
  b : ℕ
  run : r ≡ some t
  cut : Cut t b
  bound : b * page_size ≤ last
  grows : a ≤ b
  keeps : Keeps s t a
  filled : Filled t addr last available

Covered-Keeps :
    (s t : Allocator) (a j : ℕ) (available : Bool)
    → Cut s a
    → Keeps s t a
    → Covered s available j
    → Covered t available j
Covered-Keeps s t a j available c keeps (i, base, p, q, w) =
    let e : t.pages i ≡ s.pages i =
      keeps i (omega (arith, c.ends i base, pow_pos ((s.pages i).order - min_order))) in
    (
      i,
      subst (λ x. 0 < x) (ap (λ x. x.order) (sym e)) base,
      p,
      subst (λ x. j < i + block_pages x) (ap (λ x. x.order) (sym e)) q,
      ap (λ x. x.allocated) e ∙ w,
    )

abbrev Cuts : ℕ → Type 0
Cuts fuel =
    (s : Allocator) (a addr last : ℕ) (available : Bool)
    → Cut s a
    → a * page_size ≤ addr
    → addr ≤ last
    → last ≤ memory
    → last < addr + fuel * page_size
    → Made s a addr last available (cut_range fuel s addr last available)

put-other :
    (s : Allocator) (i o : ℕ) (available : Bool)
    → (k : ℕ) → k < i
    → (put s i o available).pages k ≡ s.pages k
unfolding put
put-other s i o available k h = ground arith

put-Covered :
    (s t : Allocator) (i o j : ℕ) (available : Bool)
    → t.pages i ≡ (put s i o available).pages i
    → min_order ≤ o
    → i ≤ j
    → j < i + block_pages o
    → Covered t available j
unfolding put
put-Covered s t i o j available e p q h =
    let order : (t.pages i).order ≡ o = ap (λ x. x.order) e ∙ ground arith in
    let used : (t.pages i).allocated ≡ not available = ap (λ x. x.allocated) e ∙ ground arith in
    (i, omega (arith, order), q, subst (λ x. j < i + block_pages x) (sym order) h, used)

Made-block :
    (fuel : ℕ) (s : Allocator) (a addr last o : ℕ) (available : Bool)
    → Cuts fuel
    → Cut s a
    → a * page_size ≤ addr
    → addr ≤ last
    → last ≤ memory
    → last < addr + suc fuel * page_size
    → find_max_order addr last ≡ some o
    → Made s a addr last available
        (put_block s addr o available >>= λ t. cut_range fuel t (addr + 2 ^ o) last available)
Made-block fuel s a addr last o available rec v p q h m e =
    let w : IsLargest addr last (max_order + 1) (some o) =
      subst (IsLargest addr last (max_order + 1)) e
        (find_max_order-IsLargest addr last (omega arith)) in
    let (aligned, whole, size) = page_of_block o addr w.0 w.2.0 in
    let i = addr / page_size in
    let positive = pow_pos (o - min_order) in
    let c =
      put-Cut s i o available (Cut-mono s a i (omega arith) v) w.0 (omega (arith, w.1)) aligned
        (omega (arith, w.2)) (i + block_pages o) refl in
    let r =
      rec (put s i o available) (i + block_pages o) (addr + 2 ^ o) last available c (omega arith)
        (omega (arith, w.2)) h (omega (arith, positive)) in
    record {
      t = r.t;
      b = r.b;
      run =
          rw
            (put_block-put s addr o available w.0 (omega (arith, w.1))
              (omega (arith, w.2, positive)))
            r.run;
      cut = r.cut;
      bound = r.bound;
      grows = omega (arith, r.grows);
      keeps = λ k d. r.keeps k (omega (arith, d)) ∙ put-other s i o available k (omega (arith, d));
      filled = λ x y j d l. elim (lt_cases j (i + block_pages o)) [
        | inl z ↦
            put-Covered s r.t i o j available (r.keeps i (omega (arith, positive))) w.0
              (omega (arith, d, whole)) z
        | inr z ↦ r.filled (omega (arith, x, size)) y j (omega (arith, z, whole, size)) l
      ];
    }

-- Where no block fits, no page is left.
no_page :
    (addr last j : ℕ)
    → last ≤ memory
    → find_max_order addr last ≡ none
    → addr % page_size ≡ 0
    → last % page_size ≡ 0
    → addr ≤ j * page_size
    → j * page_size < last
    → ⊥
no_page addr last j h e x y p q =
    let w : IsLargest addr last (max_order + 1) none =
      subst (IsLargest addr last (max_order + 1)) e
        (find_max_order-IsLargest addr last (omega arith)) in
    w min_order (omega arith) (omega arith) (x, omega (arith, x, y, p, q))

cut_range-Made : (fuel : ℕ) → Cuts fuel
unfolding cut_range
cut_range-Made zero s a addr last available v p q h m = absurd (omega arith)
cut_range-Made (suc fuel) s a addr last available v p q h m = elim (Bool-cases (ltb addr last)) [
  | inr e ↦
      rw (e, cut_range)
        (record {
          t = s;
          b = a;
          run = refl;
          cut = v;
          bound = omega arith;
          grows = omega arith;
          keeps = λ k d. refl;
          filled = λ x y j d l. absurd (ground (arith, e, d, l));
        })
  | inl e ↦ elim (Option-cases (find_max_order addr last)) [
    | inl n ↦
        rw (e, n, cut_range)
          (record {
            t = s;
            b = a;
            run = refl;
            cut = v;
            bound = omega arith;
            grows = omega arith;
            keeps = λ k d. refl;
            filled = λ x y j d l. absurd (no_page addr last j h n x y d l);
          })
    | inr (o, f) ↦
        rw (e, f, cut_range)
          (Made-block fuel s a addr last o available (cut_range-Made fuel) v p q h m f)
  ]
]

-- Each range is filled, up to the first that starts at `MEMSIZE_PHYSICAL` or behind.
pub AllFilled : Allocator → List Range → Type 0
AllFilled t [] = Unit {0}
AllFilled t (r ∷ rs) = r.first < memory → Filled t r.first r.last r.available × AllFilled t rs

record Built (s : Allocator) (a : ℕ) (rs : List Range) (r : Option Allocator) : Type 0 where
  t : Allocator
  b : ℕ
  run : r ≡ some t
  cut : Cut t b
  keeps : Keeps s t a
  filled : AllFilled t rs

cut_ranges-Built :
    (s : Allocator) (a lo : ℕ) (rs : List Range)
    → Cut s a
    → a * page_size ≤ lo
    → Ascending lo rs
    → Built s a rs (cut_ranges s rs)
unfolding cut_ranges AllFilled
cut_ranges-Built s a lo [] v p h = record {
  t = s;
  b = a;
  run = refl;
  cut = v;
  keeps = λ k d. refl;
  filled = tt;
}
cut_ranges-Built s a lo (r ∷ rs) v p h = elim (Bool-cases (ltb r.first memory)) [
  | inr e ↦ rw e (record {
    t = s;
    b = a;
    run = refl;
    cut = v;
    keeps = λ k d. refl;
    filled = λ d. absurd (ground (arith, e, d));
  })
  | inl e ↦
      let m =
        cut_range-Made (r.last / page_size + 2) s a r.first r.last r.available v
          (omega (arith, h.0)) h.1 (ground (arith, h.2)) (omega arith) in
      let w = cut_ranges-Built m.t m.b r.last rs m.cut m.bound h.3 in
      record {
        t = w.t;
        b = w.b;
        run = rw (e, m.run) w.run;
        cut = w.cut;
        keeps = λ k d. w.keeps k (omega (arith, d, m.grows)) ∙ m.keeps k d;
        filled = λ d. (
          (λ x y j p q. Covered-Keeps m.t w.t m.b j r.available m.cut w.keeps (m.filled x y j p q)),
          w.filled,
        );
      }
]

-- For ranges of memory that follow one another and do not reach across `MEMSIZE_PHYSICAL`,
-- `init_kalloc` stays within `pages`, its loops end, and the state that it sets up is valid. In each
-- range that starts and ends at pages, up to the first that starts at `MEMSIZE_PHYSICAL` or behind, every
-- page is in a block, which is free if the range is available, and else in use.
pub init_kalloc-Filled :
    (ranges : List Range)
    → Ascending 0 ranges
    → (t : Allocator) × (init_kalloc ranges ≡ some t) × IsValid t × AllFilled t ranges
unfolding init_kalloc
init_kalloc-Filled ranges h =
    let w = cut_ranges-Built blank 0 0 ranges blank-Cut (omega arith) h in
    (w.t, w.run, w.cut.valid, w.filled)
