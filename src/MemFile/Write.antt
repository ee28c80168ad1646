-- ===== src/MemFile/Write.antt =====
-- k-vfs.cc: `vnode_memfile::write` appends, growing the array by doubling.
use pug_os.Prelude.{
  ℕ, zero, suc, ◌+◌, ◌*◌, ◌^◌, ◌≤◌, ◌<◌, ◌≡◌, refl, ◌∙◌, Bool, true, false, List, [], ◌∷◌, ◌++◌,
  arith, ◌&&◌, ◌==◌, length,
}
use pug_os.MemFile.{
  MemFile, null, kernel_image, heap, ended, faulted, unfinished, write, write_loop, moved, doubled,
  can_grow, can_free, grown,
}

-- The file after the call holds the bytes behind those that it held.
pub record Appended (m : MemFile) (src : List ℕ) (m' : MemFile) : Type 0 where
  pub contents : m'.contents ≡ m.contents ++ src
  pub within : length m'.contents ≤ m'.capacity
  pub grown : m.capacity ≤ m'.capacity
  pub data_at : m'.data_at ≡ heap

module _ (has_memory : ℕ → Bool) (limit : ℕ) (small : 2 * limit < 2 ^ 64)
    (memory : (c : ℕ) → c ≤ 2 * limit → has_memory c ≡ true) where
  abbrev Ends : ℕ → MemFile → List ℕ → ℕ → Type 0
  Ends fuel m src n =
      (m' : MemFile) × (write_loop has_memory fuel m src n ≡ ended m' (n + length src))
      × Appended m src m'

module _ (has_memory : ℕ → Bool) where
  spin :
      (fuel n x : ℕ) (src : List ℕ) (m : MemFile)
      → m.capacity ≡ 0
      → m.data_at ≡ null
      → m.contents ≡ []
      → write_loop has_memory fuel m (x ∷ src) n ≡ unfinished
  unfolding write_loop
  spin zero n x src m e p d = refl
  spin (suc fuel) n x src m e p d =
      let full : (length m.contents == m.capacity) ≡ true = rw (e, d) refl in
      let none_left : doubled has_memory m ≡ 0 = rw (e) refl in
      let free : (can_grow has_memory m && can_free m.data_at) ≡ true = rw (d, p) refl in
      let nowhere : (grown has_memory m).data_at ≡ null = rw (none_left) refl in
      rw (write_loop, full, free) (spin fuel n x src (grown has_memory m) none_left nowhere d)

  full_faults :
      (fuel n x : ℕ) (src : List ℕ) (m : MemFile)
      → (length m.contents == m.capacity) ≡ true
      → m.data_at ≡ kernel_image
      → write_loop has_memory (suc fuel) m (x ∷ src) n ≡ faulted
  unfolding write_loop
  full_faults fuel n x src m full p =
      let stuck : (can_grow has_memory m && can_free m.data_at) ≡ false =
        rw (p) (and_false (can_grow has_memory m)) in
      rw (write_loop, full, stuck) refl
    where
      and_false : (b : Bool) → (b && false) ≡ false
      and_false true = refl
      and_false false = refl

  -- A `write` of at least one byte to a file whose array is full fails when `kalloc` has not made the array.
  -- An array in the image of the kernel, as each file of `initfs` has at first, makes `kfree` fail its
  -- assertion. Where there is no array, doubling its capacity of 0 gives none, and the loop never ends,
  -- whatever number of rounds it is given.
  pub full_write_fails :
      (fuel x off : ℕ) (src : List ℕ) (m : MemFile)
      → length m.contents ≡ m.capacity
      → (m.data_at ≡ kernel_image → write has_memory (suc fuel) m (x ∷ src) off ≡ (faulted, off))
        × (m.data_at ≡ null
            → m.capacity ≡ 0
            → write has_memory fuel m (x ∷ src) off ≡ (unfinished, off))
  unfolding write moved
  full_write_fails fuel x off src m full = (
    (λ p. rw (full_faults fuel 0 x src m (rw (full) (==_self m.capacity)) p) refl),
    λ p e. rw (spin fuel 0 x src m e p (nil_of_length m.contents (full ∙ e))) refl,
  )
    where
      ==_self : (n : ℕ) → (n == n) ≡ true
      ==_self n = ground arith

      nil_of_length : (l : List ℕ) → length l ≡ 0 → l ≡ []
      nil_of_length [] e = refl
      nil_of_length (y ∷ l) e = absurd (omega arith)
