-- ===== src/Chkfs/Reading.antt =====
-- k-vfs.cc: `vnode_inode::read`, over the blocks of the file.
pub mod Bytes
pub mod Slice
use pug_os.Prelude.{
  ℕ, zero, suc, ◌+◌, ◌-◌, ◌%◌, ◌^◌, Bool, List, [], ◌∷◌, ◌++◌, Option, some, none, ltb, ◌==◌,
  if◌then◌else◌, ◌>>=◌,
}
use pug_os.Chkfs.Blocks.{Inode, Store, blocksize, get_data_block, put}

-- `n` bytes from `start` on, which `memcpy` copies.
pub slice : (ℕ → ℕ) → ℕ → ℕ → List ℕ
slice f start zero = []
slice f start (suc n) = f start ∷ slice f (start + 1) n

-- `i_->size - off`, in 64 bits.
abbrev pub size_left : ℕ → ℕ → ℕ
size_left size off = (size + 2 ^ 64 - off) % 2 ^ 64

-- How much a round copies: up to the end of the block, and no more than there is.
unfoldable pub round_size : ℕ → ℕ → ℕ → ℕ
round_size size off sz =
    let n =
      if ltb (off - off % blocksize + blocksize) ((off + sz) % 2 ^ 64)
      then blocksize - off % blocksize
      else sz in
    if ltb (size_left size off) n then size_left size off else n

-- The loop: the bytes that are left in `buf`, whose number is `nread`, and `off` and the references then. The
-- bytes of a block are `content`. `none` is a loop that goes on when the fuel is spent.
pub read_loop :
    ℕ → (ℕ → Bool) → Inode → ℕ → (ℕ → ℕ → ℕ) → ℕ → ℕ → Store → Option (List ℕ × ℕ × Store)
read_loop zero room ino size content off sz s = none
read_loop (suc fuel) room ino size content off sz s =
    if sz == 0
    then some ([], off, s)
    else (get_data_block room ino (off - off % blocksize) s >>= λ (t, e). elim e [
      | none ↦ some ([], off, t)
      | some b ↦
          let n = round_size size off sz in
          if n == 0
          then some ([], off, put b t)
          else (read_loop fuel room ino size content (off + n) (sz - n) (put b t)
              >>= λ (bytes, off', u).
                  some (slice (content b) (off % blocksize) n ++ bytes, off', u))
    ])

-- A round copies at least a byte, so as many rounds as bytes and a last test are enough.
abbrev pub read : (ℕ → Bool) → Inode → ℕ → (ℕ → ℕ → ℕ) → ℕ → ℕ → Store → Option (List ℕ × ℕ × Store)
read room ino size content off sz s = read_loop (sz + 1) room ino size content off sz s
