-- ===== src/Alloc/Kfree.antt =====
-- k-alloc.cc: `kfree`.
use pug_os.Prelude.{
  ℕ, suc, ◌+◌, ◌-◌, ◌*◌, ◌/◌, ◌%◌, ◌^◌, ◌≤◌, ◌<◌, ◌≡◌, ◌≢◌, refl, true, false, some, none, ◌∷◌,
  arith, if◌then◌else◌, update, count, pow_pos,
}
use pug_os.Alloc.{
  Allocator, min_order, npages, page_size, norders, buddy_pindex, coalesce, release, kfree,
  push_back,
}
use pug_os.Alloc.Inv.{Inv, IsValid, IsBase, block_pages, on_list, push, count-push}
use pug_os.Alloc.Coalesce.{last_block, coalesce-Coalesced}

-- What `kfree` promises for the block `i`: the state is valid, the other blocks in use are as they
-- were, none that was not in use is, the block is covered by a block that is not in use, and its
-- bytes were cleared.
pub record Freed (s : Allocator) (i : ℕ) (t : Allocator) : Type 0 where
  pub valid : IsValid t
  pub keeps : (k : ℕ) → IsBase s k → (s.pages k).allocated ≡ true → k ≢ i → t.pages k ≡ s.pages k
  pub used : (k : ℕ) → (t.pages k).allocated ≡ true → ((s.pages k).allocated ≡ true) × (k ≢ i)
  pub covered :
      (j : ℕ) × IsBase t j
      × ((t.pages j).allocated ≡ false)
      × (j ≤ i)
      × (i + block_pages (s.pages i).order ≤ j + block_pages (t.pages j).order)
  pub wiped : t.wiped ≡ (i * page_size, 2 ^ (s.pages i).order) ∷ s.wiped

-- The block in hand goes to its list.
abbrev shelved : Allocator → ℕ → Allocator
shelved t j = record t { free = push t.free (t.pages j).order j }

shelved-listed :
    (t : Allocator) (j : ℕ)
    → Inv t j
    → IsBase t j
    → (t.pages j).allocated ≡ false
    → (o k : ℕ) → min_order ≤ o
    → count k ((shelved t j).free o) ≡ (if on_list (shelved t j) npages o k then 1 else 0)
shelved-listed t j v c a o k p = rw (count-push t.free (t.pages j).order j) (
    ground (
      arith,
      v.listed o k,
      v.inside k,
      pow_pos ((t.pages k).order - min_order),
      v.inside j,
      pow_pos ((t.pages j).order - min_order),
    ))

shelved-IsValid :
    (t : Allocator) (j : ℕ)
    → Inv t j
    → IsBase t j
    → (t.pages j).allocated ≡ false
    → IsValid (shelved t j)
shelved-IsValid t j v c a = record {
  order_in = v.order_in;
  self = v.self;
  aligned = v.aligned;
  inside = v.inside;
  apart = v.apart;
  listed = shelved-listed t j v c a;
}

-- `kfree` marks the block free before the loop.
abbrev marked : Allocator → ℕ → Allocator
marked s i = record s {
  pages = update s.pages i (record (s.pages i) { allocated = false });
  wiped = (i * page_size, 2 ^ (s.pages i).order) ∷ s.wiped;
}

module _ (s : Allocator) (i : ℕ) (v : IsValid s) (c : IsBase s i)
    (a : (s.pages i).allocated ≡ true) where
  marked-listed :
      (o k : ℕ)
      → min_order ≤ o
      → count k ((marked s i).free o) ≡ (if on_list (marked s i) i o k then 1 else 0)
  marked-listed o k p =
      ground (arith, v.listed o k, v.inside k, pow_pos ((s.pages k).order - min_order))

  marked-Inv : Inv (marked s i) i
  marked-Inv = record {
    order_in = λ k b. ground (arith, v.order_in k);
    self = λ k b. ground (arith, v.self k);
    aligned = λ k b. ground (arith, v.aligned k);
    inside = λ k b. ground (arith, v.inside k);
    apart = λ k j b d e. ground (arith, v.apart k j);
    listed = marked-listed;
  }

  release-Freed : i < last_block → (t : Allocator) × (release s i ≡ some t) × Freed s i t
  unfolding release push_back
  release-Freed h =
      let (j, t, run, w) =
        coalesce-Coalesced norders (marked s i) i marked-Inv (ground arith) (ground arith) h
          (ground (arith, v.order_in i)) in
      (
        shelved t j,
        ground (arith, run, w.inv.order_in j, w.base),
        record {
          valid = shelved-IsValid t j w.inv w.base w.unused;
          keeps = λ k b d n. ground (arith, w.keeps k);
          used = λ k d. ground (arith, w.used k);
          covered = (j, w.base, w.unused, w.starts, ground (arith, w.covers));
          wiped = w.wiped;
        },
      )

-- In a valid state, for the address of a block in use that starts below 28 MiB, `kfree` meets no
-- failed assertion and stays within `pages`, and its loop ends. Afterwards the state is valid, the
-- bytes of the block were cleared, a block that is not in use covers it, the other blocks in use are
-- as they were, and no block is in use that was not before.
pub kfree-Freed :
    (s : Allocator) (i : ℕ)
    → IsValid s
    → IsBase s i
    → (s.pages i).allocated ≡ true
    → i < last_block
    → (t : Allocator) × (kfree s (some (i * page_size)) ≡ some t) × Freed s i t
unfolding kfree
kfree-Freed s i v c a h =
    let (t, run, w) = release-Freed s i v c a h in
    let e : i * page_size / page_size ≡ i = omega arith in
    let d : i * page_size % page_size ≡ 0 = omega arith in (t, ground (arith, e, d, run), w)

last_buddy : buddy_pindex last_block 21 ≡ npages
unfolding buddy_pindex
last_buddy = refl

coalesce_last :
    (fuel : ℕ) (s : Allocator)
    → (s.pages last_block).order ≡ 21
    → coalesce (suc fuel) s last_block ≡ none
unfolding coalesce
coalesce_last fuel s e = rw (e, coalesce, last_buddy) refl

release_last : (s : Allocator) → (s.pages last_block).order ≡ 21 → release s last_block ≡ none
unfolding release
release_last s e = rw (coalesce_last 12 (marked s last_block) e) refl

-- In every state where the last 2 MiB of memory are one block in use, `kfree` of that block reads
-- the entry of its buddy at the index `npages`, one past the end of `pages`.
pub kfree-last_block :
    (s : Allocator)
    → (s.pages last_block).order ≡ 21
    → (s.pages last_block).allocated ≡ true
    → kfree s (some (last_block * page_size)) ≡ none
unfolding kfree
kfree-last_block s e a = rw a (release_last s e)
