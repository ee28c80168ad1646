-- ===== src/Mem/Move.antt =====
-- lib.cc: `memcpy`, `memmove` and `memset` as what they leave in memory.
use pug_os.Prelude.{
  ℕ, zero, suc, ◌+◌, ◌-◌, ◌%◌, ◌≤◌, ◌≡◌, ◌⊎◌, ◌&&◌, arith, ltb, leb, if◌then◌else◌, update,
}
use pug_os.Mem.{Memory, memcpy, copy_down, memmove, memset}

-- The `n` bytes from `src` on are at `dst`, and the other bytes are as they were.
abbrev pub moved : Memory → ℕ → ℕ → ℕ → Memory
moved mem dst src n x = if leb dst x && ltb x (dst + n) then mem (src + (x - dst)) else mem x

pub memcpy-moved :
    (mem : Memory) (dst src n x : ℕ)
    → (dst ≤ src) ⊎ (src + n ≤ dst)
    → memcpy mem dst src n x ≡ moved mem dst src n x
unfolding memcpy
memcpy-moved mem dst src zero x o = ground arith
memcpy-moved mem dst src (suc n) x o =
    ground (arith, o, memcpy-moved (update mem dst (mem src)) (dst + 1) (src + 1) n x)

copy_down-moved :
    (mem : Memory) (dst src n x : ℕ) → src ≤ dst → copy_down mem dst src n x ≡ moved mem dst src n x
unfolding copy_down
copy_down-moved mem dst src zero x o = ground arith
copy_down-moved mem dst src (suc n) x o =
    ground (arith, o, copy_down-moved (update mem (dst + n) (mem (src + n))) dst src n x)

-- `memmove` puts the bytes of the source at the destination and leaves all others alone, whichever way
-- the two ranges overlap.
pub memmove-moved :
    (mem : Memory) (dst src n x : ℕ) → memmove mem dst src n x ≡ moved mem dst src n x
unfolding memmove
memmove-moved mem dst src n x =
    ground (arith, copy_down-moved mem dst src n x, memcpy-moved mem dst src n x)

pub memset-filled :
    (mem : Memory) (v c n x : ℕ)
    → memset mem v c n x ≡ (if leb v x && ltb x (v + n) then c % 256 else mem x)
unfolding memset
memset-filled mem v c zero x = ground arith
memset-filled mem v c (suc n) x =
    ground (arith, memset-filled (update mem v (c % 256)) (v + 1) c n x)
