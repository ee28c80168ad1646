-- ===== src/Alloc/Coalesce.antt =====
-- k-alloc.cc: the loop of `kfree` joins the block with its free buddies.
use pug_os.Prelude.{
  ℕ, zero, suc, ◌+◌, ◌-◌, ◌%◌, ◌^◌, ◌≤◌, ◌<◌, ◌≡◌, refl, ◌⊎◌, inl, inr, true, false, some, arith,
  sym, ◌∙◌, subst, pow_pos, pow_mono, min, max, Bool-cases, lt_cases,
}
use pug_os.Alloc.{Allocator, min_order, max_order, npages, buddy_pindex, stays_apart, coalesce}
use pug_os.Alloc.Buddy.{buddy_pindex-pair}
use pug_os.Alloc.Inv.{Inv, IsBase, block_pages, IsAligned-of_mod, mod_of_IsAligned}
use pug_os.Alloc.Merge.{joined, joined-Inv, merge-joined, Halves, double}
use pug_os.Alloc.BreakUp.{Keeps}

-- The first page of the last 2 MiB of memory, 28 MiB: the buddy of that block would start at `npages`.
abbrev pub last_block : ℕ
last_block = 7168

-- A block that starts before the last 2 MiB does not end at the end of memory.
before_end :
    (k i : ℕ) → k ≤ 12 → i < last_block → i % 2 ^ k ≡ 0 → i + 2 ^ k ≤ npages → i + 2 ^ k < npages
before_end k i p q a h = elim (lt_cases k 9) [
  | inl small ↦ omega (arith, pow_mono k 8)
  | inr large ↦ elim (large_cases large) [
    | inl e ↦ at 9 e (λ b c. omega arith)
    | inr (inl e) ↦ at 10 e (λ b c. omega arith)
    | inr (inr (inl e)) ↦ at 11 e (λ b c. omega arith)
    | inr (inr (inr e)) ↦ at 12 e (λ b c. omega arith)
  ]
]
  where
    large_cases : 9 ≤ k → (k ≡ 9) ⊎ ((k ≡ 10) ⊎ ((k ≡ 11) ⊎ (k ≡ 12)))
    large_cases l = omega arith

    at :
        (t : ℕ)
        → k ≡ t
        → (i % 2 ^ t ≡ 0 → i + 2 ^ t ≤ npages → i + 2 ^ t < npages)
        → i + 2 ^ k < npages
    at t e f = subst (λ u. i % 2 ^ u ≡ 0 → i + 2 ^ u ≤ npages → i + 2 ^ u < npages) (sym e) f a h

-- The buddy of an aligned block, by the order of the block.
buddy-pair :
    (o i : ℕ)
    → min_order ≤ o
    → i % block_pages o ≡ 0
    → let b = buddy_pindex i o in
      (max i b ≡ min i b + block_pages o) × (min i b % block_pages (o + 1) ≡ 0)
buddy-pair o i p a =
    let e : min_order + (o - min_order) ≡ o = omega arith in
    let d : o + 1 - min_order ≡ suc (o - min_order) = omega arith in
    let (_, sum, even) =
      buddy_pindex-pair (o - min_order) i (IsAligned-of_mod (o - min_order) i a) in
    let b = buddy_pindex i (min_order + (o - min_order)) in
    subst
      (λ t.
        (max i (buddy_pindex i t) ≡ min i (buddy_pindex i t) + block_pages o)
        × (min i (buddy_pindex i t) % block_pages (o + 1) ≡ 0))
      e (sum, rw d (mod_of_IsAligned (suc (o - min_order)) (min i b) even))

-- What the loop leaves: a free block `j` in hand that covers the block `i` which it started from, and
-- the blocks in use as they were.
pub record Coalesced (s : Allocator) (i : ℕ) (t : Allocator) (j : ℕ) : Type 0 where
  pub inv : Inv t j
  pub base : IsBase t j
  pub unused : (t.pages j).allocated ≡ false
  pub keeps : Keeps s t
  pub used : (k : ℕ) → (t.pages k).allocated ≡ true → (s.pages k).allocated ≡ true
  pub wiped : t.wiped ≡ s.wiped
  pub starts : j ≤ i
  pub covers : i + block_pages (s.pages i).order ≤ j + block_pages (t.pages j).order

module _ (s : Allocator) (i : ℕ) (v : Inv s i) (c : IsBase s i) (a : (s.pages i).allocated ≡ false)
    (h : i < last_block) where
  buddy : ℕ
  buddy = buddy_pindex i (s.pages i).order

  buddy_in : buddy < npages
  unfolding buddy
  buddy_in = ground (
    arith,
    buddy-pair (s.pages i).order i,
    v.order_in i,
    v.aligned i,
    v.inside i,
    before_end ((s.pages i).order - min_order) i,
  )

  buddy-Halves :
      stays_apart s i buddy ≡ false → Halves s (s.pages i).order (min i buddy) (max i buddy) i buddy
  unfolding stays_apart buddy
  buddy-Halves e =
      let (sum, even) = buddy-pair (s.pages i).order i (v.order_in i c).0 (v.aligned i c) in
      let pos = pow_pos ((s.pages i).order - min_order) in
      record {
        least = (v.order_in i c).0;
        below = ground (arith, v.order_in i);
        next = sum;
        even = even;
        sides = omega arith;
        order_lo = ground arith;
        order_hi = ground arith;
        free_lo = ground arith;
        free_hi = ground arith;
      }

  -- One round: either the loop stops here, or it goes on from the joined block.
  round_stops : (fuel : ℕ) → stays_apart s i buddy ≡ true → coalesce (suc fuel) s i ≡ some (i, s)
  unfolding coalesce buddy
  round_stops fuel e = ground (arith, buddy_in)

  round_joins :
      (fuel : ℕ)
      → stays_apart s i buddy ≡ false
      → coalesce (suc fuel) s i
        ≡ coalesce fuel (joined s (min i buddy) (max i buddy) buddy) (min i buddy)
  unfolding coalesce buddy
  round_joins fuel e = ground (
    arith,
    buddy_in,
    merge-joined (s.pages i).order (min i buddy) (max i buddy) i buddy v (buddy-Halves e),
  )

  joined-step :
      stays_apart s i buddy ≡ false
      → (t : Allocator) (j : ℕ)
      → Coalesced (joined s (min i buddy) (max i buddy) buddy) (min i buddy) t j
      → Coalesced s i t j
  joined-step e t j w = record {
    inv = w.inv;
    base = w.base;
    unused = w.unused;
    keeps = λ k b u. ground (arith, w.keeps k, halves, pos);
    used = λ k u. ground (arith, w.used k, halves, pos);
    wiped = w.wiped;
    starts = ground (arith, w.starts);
    covers = ground (arith, w.covers, halves, double (s.pages i).order, pos);
  }
    where
      halves : Halves s (s.pages i).order (min i buddy) (max i buddy) i buddy
      halves = buddy-Halves e

      pos : 0 < block_pages (s.pages i).order
      pos = pow_pos ((s.pages i).order - min_order)

-- The loop of `kfree` ends, started at a free block in hand, within a round for each order up to 24.
pub coalesce-Coalesced :
    (fuel : ℕ) (s : Allocator) (i : ℕ)
    → Inv s i
    → IsBase s i
    → (s.pages i).allocated ≡ false
    → i < last_block
    → max_order < (s.pages i).order + fuel
    → (j : ℕ) × (t : Allocator) × (coalesce fuel s i ≡ some (j, t)) × Coalesced s i t j
coalesce-Coalesced zero s i v c a h m = absurd (omega (arith, v.order_in i c))
coalesce-Coalesced (suc fuel) s i v c a h m = elim (Bool-cases (stays_apart s i b)) [
  | inl e ↦ (
    i,
    s,
    round_stops s i v c a h fuel e,
    record {
      inv = v;
      base = c;
      unused = a;
      keeps = λ k d u. refl;
      used = λ k u. u;
      wiped = refl;
      starts = omega arith;
      covers = omega arith;
    },
  )
  | inr e ↦
      let w = buddy-Halves s i v c a h e in
      let lo = min i b in
      let t = joined s lo (max i b) b in
      let (j, u, run, r) =
        coalesce-Coalesced fuel t lo (joined-Inv (s.pages i).order lo (max i b) i b v w)
          (ground (arith, w, pow_pos ((s.pages i).order - min_order)))
          (ground (arith, w, pow_pos ((s.pages i).order - min_order))) (omega arith)
          (ground (arith, w, pow_pos ((s.pages i).order - min_order))) in
      (j, u, round_joins s i v c a h fuel e ∙ run, joined-step s i v c a h e u j r)
]
  where
    b : ℕ
    b = buddy s i v c a h
