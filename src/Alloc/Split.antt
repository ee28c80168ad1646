-- ===== src/Alloc/Split.antt =====
-- k-alloc.cc: one round of the loop of `kalloc`, which halves a block.
use pug_os.Prelude.{
  ℕ, suc, ◌+◌, ◌-◌, ◌*◌, ◌%◌, ◌≤◌, ◌<◌, ◌≡◌, refl, false, not, ◌&&◌, some, List, ◌∷◌, arith, ◌==◌,
  if◌then◌else◌, update, count, count-cons, ap, ◌∙◌, pow_pos, pow_suc,
}
use pug_os.Alloc.{
  Allocator, min_order, max_order, npages, split, order_of, pop_front, push_back, min_larger_order,
}
use pug_os.Alloc.Inv.{
  Inv, Inv-head, IsBase, block_pages, push, count-push, IsAligned-of_mod, mod_of_IsAligned,
}

-- The state after the block `i`, first on the list of `larger`, is halved.
abbrev pub halved : Allocator → ℕ → ℕ → List ℕ → Allocator
halved s larger i rest =
    let j = i + block_pages (larger - 1) in
    record s {
      pages =
          update (update s.pages i (record (s.pages i) { order = larger - 1 })) j
            (record { order = larger - 1; pindex = j; allocated = false });
      free = push (push (update s.free larger rest) (larger - 1) i) (larger - 1) j;
    }

order_of_page : order_of 4096 ≡ 12
unfolding order_of
order_of_page = refl

module _ {s : Allocator} {h : ℕ} (larger i : ℕ) (rest : List ℕ) (v : Inv s h)
    (p : min_order < larger) (q : larger ≤ max_order) (e : s.free larger ≡ i ∷ rest) where
  double : block_pages larger ≡ 2 * block_pages (larger - 1)
  double =
      let d : larger - min_order ≡ suc (larger - 1 - min_order) = omega arith in
      rw d (pow_suc (larger - 1 - min_order))

  pub second_free : (s.pages (i + block_pages (larger - 1))).order ≡ 0
  second_free = ground (
    arith,
    Inv-head larger i rest v,
    double,
    pow_pos (larger - 1 - min_order),
    v.apart i (i + block_pages (larger - 1)),
  )

  halved-order_in :
      (k : ℕ)
      → IsBase (halved s larger i rest) k
      → (min_order ≤ ((halved s larger i rest).pages k).order)
        × (((halved s larger i rest).pages k).order ≤ max_order)
  halved-order_in k b = ground (arith, v.order_in k)

  halved_self :
      (k : ℕ) → IsBase (halved s larger i rest) k → ((halved s larger i rest).pages k).pindex ≡ k
  halved_self k b = ground (arith, v.self k, Inv-head larger i rest v)

  halves_aligned :
      (i % block_pages (larger - 1) ≡ 0)
      × ((i + block_pages (larger - 1)) % block_pages (larger - 1) ≡ 0)
  halves_aligned =
      let (m, d) = IsAligned-of_mod (larger - min_order) i mod_larger in
      let whole : i ≡ m * (2 * block_pages (larger - 1)) = d ∙ ap (λ (t : ℕ). m * t) double in
      (
        mod_of_IsAligned (larger - 1 - min_order) i (2 * m, omega (arith, whole)),
        mod_of_IsAligned (larger - 1 - min_order) (i + block_pages (larger - 1))
            (2 * m + 1, omega (arith, whole)),
      )
    where
      mod_larger : i % block_pages larger ≡ 0
      mod_larger = ground (arith, v.aligned i, Inv-head larger i rest v)

  halved-aligned :
      (k : ℕ)
      → IsBase (halved s larger i rest) k
      → k % block_pages ((halved s larger i rest).pages k).order ≡ 0
  halved-aligned k b = ground (arith, v.aligned k, halves_aligned)

  halved-inside :
      (k : ℕ)
      → IsBase (halved s larger i rest) k
      → k + block_pages ((halved s larger i rest).pages k).order ≤ npages
  halved-inside k b = ground (arith, v.inside k, v.inside i, double, Inv-head larger i rest v)

  halved-apart :
      (k l : ℕ)
      → IsBase (halved s larger i rest) k
      → IsBase (halved s larger i rest) l
      → k < l
      → k + block_pages ((halved s larger i rest).pages k).order ≤ l
  halved-apart k l b c d =
      ground (
        arith,
        v.apart k l,
        v.apart k i,
        v.apart i k,
        v.apart i l,
        double,
        Inv-head larger i rest v,
      )

  halved-listed :
      h ≡ npages
      → (o k : ℕ) → min_order ≤ o
      → count k ((halved s larger i rest).free o) ≡ (
          if ((((halved s larger i rest).pages k).order == o)
            && (not ((halved s larger i rest).pages k).allocated && not (k == h)))
          then 1
          else 0)
  halved-listed g o k d =
      rw
        (
          count-push (push (update s.free larger rest) (larger - 1) i) (larger - 1)
              (i + block_pages (larger - 1)),
          count-push (update s.free larger rest) (larger - 1) i,
        )
        (ground (
          arith,
          v.listed o k,
          v.listed larger k,
          ap (count k) e,
          count-cons k i rest,
          second_free,
          v.inside i,
          Inv-head larger i rest v,
          double,
        ))

  pub halved-Inv : h ≡ npages → Inv (halved s larger i rest) h
  halved-Inv g = record {
    order_in = halved-order_in;
    self = halved_self;
    aligned = halved-aligned;
    inside = halved-inside;
    apart = halved-apart;
    listed = halved-listed g;
  }

  pub split-halved :
      (o : ℕ) → min_larger_order s o ≡ some larger → split s o ≡ some (halved s larger i rest)
  unfolding split pop_front push_back
  split-halved o g = ground (
    arith,
    g,
    e,
    pow_pos (larger - 1 - min_order),
    Inv-head larger i rest v,
    v.self i,
    v.inside i,
    double,
    order_of_page,
  )
