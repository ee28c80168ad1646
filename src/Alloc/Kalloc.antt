-- ===== src/Alloc/Kalloc.antt =====
-- k-alloc.cc: `kalloc`.
use pug_os.Prelude.{
  max, ℕ, ◌+◌, ◌-◌, ◌*◌, ◌%◌, ◌^◌, ◌≤◌, ◌<◌, ◌≡◌, ◌≢◌, refl, ◌⊎◌, inl, inr, true, false, not, ◌&&◌,
  Option, some, none, List, [], ◌∷◌, arith, ◌==◌, ltb, if◌then◌else◌, update, count, count-cons, ap,
  subst, Bool-cases,
}
use pug_os.Alloc.{
  Allocator, min_order, max_order, npages, page_size, norders, pop_front, min_larger_order,
  take_block, kalloc_order, kalloc, size_order, is_empty, order_of,
}
use pug_os.Alloc.Order.{IsFirst, min_larger_order-IsFirst, size_order_lem}
use pug_os.Alloc.Buddy.{pow_page}
use pug_os.Alloc.Inv.{IsValid, Inv-head, IsBase, block_pages}
use pug_os.Alloc.BreakUp.{Keeps, Keeps-trans, found, break_up-Ready}

-- What `kalloc` promises of the block `i` of the order `o`, and of the state that it leaves: the state
-- is valid, the block is in use, it lies within memory, the blocks that were in use are as they were,
-- and none of them overlaps it.
pub record Taken (s : Allocator) (o i : ℕ) (t : Allocator) : Type 0 where
  pub valid : IsValid t
  pub page : t.pages i ≡ record { order = o; pindex = i; allocated = true }
  pub inside : i + block_pages o ≤ npages
  pub keeps : Keeps s t
  pub disjoint :
      (k : ℕ)
      → IsBase s k
      → (s.pages k).allocated ≡ true
      → (k + block_pages (s.pages k).order ≤ i) ⊎ (i + block_pages o ≤ k)

abbrev taken : Allocator → ℕ → ℕ → List ℕ → Allocator
taken s o i rest = record s {
  free = update s.free o rest;
  pages = update s.pages i (record (s.pages i) { allocated = true });
}

module _ {s : Allocator} (o i : ℕ) (rest : List ℕ) (v : IsValid s) (p : min_order ≤ o)
    (l : s.free o ≡ i ∷ rest) where
  taken-listed :
      (o' k : ℕ)
      → min_order ≤ o'
      → count k ((taken s o i rest).free o') ≡ (
          if (((taken s o i rest).pages k).order == o')
            && (not ((taken s o i rest).pages k).allocated && not (k == npages))
          then 1
          else 0)
  taken-listed o' k d =
      ground (
        arith,
        v.listed o' k,
        v.listed o k,
        ap (count k) l,
        count-cons k i rest,
        Inv-head o i rest v,
      )

  taken-IsValid : IsValid (taken s o i rest)
  taken-IsValid = record {
    order_in = λ k b. ground (arith, v.order_in k);
    self = λ k b. ground (arith, v.self k);
    aligned = λ k b. ground (arith, v.aligned k);
    inside = λ k b. ground (arith, v.inside k);
    apart = λ k j b c d. ground (arith, v.apart k j);
    listed = taken-listed;
  }

  taken-Keeps : Keeps s (taken s o i rest)
  taken-Keeps k b a = ground (arith, Inv-head o i rest v)

  taken-Taken : Taken s o i (taken s o i rest)
  taken-Taken = record {
    valid = taken-IsValid;
    page = ground (arith, Inv-head o i rest v, v.self i);
    inside = ground (arith, Inv-head o i rest v, v.inside i);
    keeps = taken-Keeps;
    disjoint = λ k b a. ground (arith, Inv-head o i rest v, v.apart k i, v.apart i k);
  }

Taken-after : (s t u : Allocator) (o i : ℕ) → Keeps s t → Taken t o i u → Taken s o i u
Taken-after s t u o i f w = record {
  valid = w.valid;
  page = w.page;
  inside = w.inside;
  keeps = Keeps-trans s t u f w.keeps;
  disjoint = λ k b a. ground (arith, f k b a, w.disjoint k);
}

take_block-Taken :
    (s : Allocator) (o larger : ℕ)
    → IsValid s
    → min_order ≤ o
    → o ≤ max_order
    → min_larger_order s o ≡ some larger
    → (i : ℕ) × (t : Allocator) × (take_block s o ≡ some (some (i * page_size), t)) × Taken s o i t
unfolding take_block pop_front
take_block-Taken s o larger v p q e =
    let (t, run, ready) =
      break_up-Ready norders s o larger v p q e (omega (arith, found s o larger q e)) in
    let (i, rest, l) = ready.offers in
    let w = taken-Taken o i rest ready.valid p l in
    (
      i,
      taken t o i rest,
      ground (arith, run, l, ready.valid.self i, Inv-head o i rest ready.valid),
      Taken-after s t _ o i ready.keeps w,
    )

-- Some list from the block's order on has a block.
abbrev pub Offered : Allocator → ℕ → Type 0
Offered s o = (m : ℕ) × (o ≤ m) × (m ≤ max_order) × (s.free m ≢ [])

-- What `kalloc` does: either no list from the block's order on has a block, or the order is too
-- large, and then the result is null and nothing changes; or one of the lists has a block, and the
-- result is a block.
abbrev pub KallocResult : Allocator → ℕ → Option (Option ℕ × Allocator) → Type 0
KallocResult s o none = ⊥
KallocResult s o (some (none, t)) = (t ≡ s) × ((m : ℕ) → o ≤ m → m ≤ max_order → s.free m ≡ [])
KallocResult s o (some (some pa, t)) =
    (i : ℕ) × (pa ≡ i * page_size) × (o ≤ max_order) × Offered s o × Taken s o i t

offered :
    (s : Allocator) (o larger : ℕ)
    → o ≤ max_order
    → min_larger_order s o ≡ some larger
    → Offered s o
offered s o larger q e =
    let f = found s o larger q e in
    (larger, omega (arith, f), omega (arith, f), λ z. ground (arith, f, z))

nil_of_test : (l : List ℕ) → is_empty l ≡ true → l ≡ []
nil_of_test [] e = refl
nil_of_test (x ∷ l) e = cc

kalloc_order-result :
    (s : Allocator) (o : ℕ) → IsValid s → min_order ≤ o → KallocResult s o (kalloc_order s o)
unfolding kalloc_order
kalloc_order-result s o v p = elim (Bool-cases (ltb max_order o)) [
  | inl big ↦ rw big (refl, λ m q r. absurd (ground arith))
  | inr small ↦ rw (small, kalloc_order) (go (ground arith) (min_larger_order s o) refl)
]
  where
    go :
        o ≤ max_order
        → (r : Option ℕ) → min_larger_order s o ≡ r
        → KallocResult s o (elim r [ none ↦ some (none, s) | some larger ↦ take_block s o ])
    go small none e = (refl, λ m q r. nil_of_test (s.free m) (none_found e m q (omega arith)))
      where
        none_found : min_larger_order s o ≡ none → IsFirst s.free o (max_order + 1) none
        none_found e =
            subst (IsFirst s.free o (max_order + 1)) e (min_larger_order-IsFirst s o (omega arith))
    go small (some larger) e =
        let (i, t, run, w) = take_block-Taken s o larger v p small e in
        rw run (i, refl, small, offered s o larger small e, w)

-- In a valid state, for a size from 1 to 2 ^ 32 - 1, `kalloc` meets no failed assertion and its loop
-- ends. The result is null, and the state as before, exactly when the list of every order from that of
-- the size up to 24 is empty; above 24 there is no such order. Otherwise one of
-- these lists has a block, and the result is the address of a block of the order of the size, which holds
-- the size, lies within memory, is in use and overlaps no block that was in use; those blocks are left as
-- they were, and the state is valid.
pub kalloc-result :
    (s : Allocator) (sz : ℕ)
    → IsValid s
    → 0 < sz
    → sz < 2 ^ 32
    → (sz ≤ page_size * block_pages (size_order sz)) × KallocResult s (size_order sz) (kalloc s sz)
unfolding kalloc
kalloc-result s sz v p q =
    let (fits, least, tight) = size_order_lem sz p q in
    let e : min_order + (size_order sz - min_order) ≡ size_order sz = omega arith in
    (
      omega (arith, fits, pow_page (size_order sz - min_order), ap (λ (t : ℕ). 2 ^ t) e),
      rw (positive sz p) (kalloc_order-result s (size_order sz) v least),
    )
  where
    positive : (n : ℕ) → 0 < n → (n == 0) ≡ false
    positive n h = ground arith

order_of-wraps : (n : ℕ) → order_of (2 ^ 32 + n) ≡ order_of n
unfolding order_of
order_of-wraps n = let e : (2 ^ 32 + n) % 2 ^ 32 ≡ n % 2 ^ 32 = omega arith in rw e refl

size_order-wraps : (n : ℕ) → page_size ≤ n → size_order (2 ^ 32 + n) ≡ size_order n
unfolding size_order
size_order-wraps n p =
    let a : max (2 ^ 32 + n) (2 ^ min_order) ≡ 2 ^ 32 + n = omega arith in
    let b : max n (2 ^ min_order) ≡ n = omega arith in rw (a, b, order_of-wraps n) refl

-- A size of 2 ^ 32 or more is cut to 32 bits on the way to `order_of`: for every size from 4096 up to
-- 2 ^ 32, a request for 4 GiB more does exactly what a request for the size does.
pub kalloc_wraps :
    (s : Allocator) (n : ℕ) → page_size ≤ n → n < 2 ^ 32 → kalloc s (2 ^ 32 + n) ≡ kalloc s n
unfolding kalloc
kalloc_wraps s n p q = ground (arith, size_order-wraps n)
