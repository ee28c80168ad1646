-- ===== src/MemFile.antt =====
-- k-devices.hh: `memfile`; k-vfs.cc: `vnode_memfile::read` and `vnode_memfile::write`, each one step
-- under `memfile::lock_`.
pub mod Read
pub mod Write
mod Tests
use pug_os.Prelude.{
  ℕ, zero, suc, ◌+◌, ◌*◌, ◌%◌, ◌^◌, Bool, true, false, not, ◌&&◌, ◌||◌, List, [], ◌∷◌, ◌++◌, ltb,
  ◌==◌, if◌then◌else◌, length, get_or,
}

-- Where `data_` points: nowhere, into the image of the kernel, as for the files of `initfs`, or at a block
-- of `kalloc`.
pub data Place : Type 0 where
  null kernel_image heap : Place

-- `memfile`. `data_at` says where `data_` points, which is nowhere only if the capacity is 0. `contents` are the first `len_` bytes at `data_`; those behind are never read.
pub record MemFile : Type 0 where
  pub data_at : Place
  pub contents : List ℕ
  pub capacity : ℕ

-- The loop of `read` with `rounds` left of `sz`, at the position `at` (`n + off`).
pub read_loop : ℕ → List ℕ → ℕ → List ℕ
read_loop zero contents at = []
read_loop (suc rounds) contents at =
    let rest = read_loop rounds contents (at + 1) in
    if ltb at (length contents) then get_or contents at 0 ∷ rest else []

-- The bytes read, whose number is returned, and the new offset.
pub read : MemFile → ℕ → ℕ → List ℕ × ℕ
unfolding read_loop
read m sz off = let out = read_loop sz m.contents off in (out, off + length out)

-- How a call ends: with the file and the count, by a copy to the null pointer or a
-- failed assertion of `kfree`, or not within the fuel.
pub data Run : Type 0 where
  ended : MemFile → ℕ → Run
  faulted unfinished : Run

-- `off += n`, once the loop has ended.
pub moved : ℕ → Run → ℕ
moved off (ended m n) = off + n
moved off r = off

-- `kfree(data_)`: the null pointer is ignored, and `ka2pa` fails for what is in the image of the kernel.
abbrev pub can_free : Place → Bool
can_free kernel_image = false
can_free p = true

-- `has_memory c` says that `kalloc(c)` finds a block for a size `c` above 0.
module _ (has_memory : ℕ → Bool) where
  abbrev pub doubled : MemFile → ℕ
  doubled m = 2 * m.capacity % 2 ^ 64

  -- The new array can be written: `kalloc(0)` is null, but then no byte is copied there.
  abbrev pub can_grow : MemFile → Bool
  can_grow m = (length m.contents == 0) || (not (doubled m == 0) && has_memory (doubled m))

  -- The file with the new array, which is the null pointer for 0 bytes.
  abbrev pub grown : MemFile → MemFile
  grown m = record m { data_at = if doubled m == 0 then null else heap; capacity = doubled m }

  pub write_loop : ℕ → MemFile → List ℕ → ℕ → Run
  write_loop zero m src n = unfinished
  write_loop (suc fuel) m [] n = ended m n
  write_loop (suc fuel) m (x ∷ src) n = elim (length m.contents == m.capacity) [
    | true ↦ elim (can_grow m && can_free m.data_at) [
      | true ↦ write_loop fuel (grown m) (x ∷ src) n
      | false ↦ faulted
    ]
    | false ↦ write_loop fuel (record m { contents = m.contents ++ x ∷ [] }) src (n + 1)
  ]

  pub write : ℕ → MemFile → List ℕ → ℕ → Run × ℕ
  unfolding write_loop moved
  write fuel m src off = let r = write_loop fuel m src 0 in (r, moved off r)
