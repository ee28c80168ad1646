-- ===== src/Chkfs/Blocks.antt =====
-- chickadeefs.hh, k-chkfs.cc and k-chkfsiter.cc: from an offset in a file to the block that it is stored in.
-- Of the buffer cache a block is used here as the words that it has and the references to it; `room`
-- says of which blocks `get_disk_entry` returns an entry. An entry is known by its block, and `none`
-- is a failed assertion or a read outside of a buffer.
pub mod Lookup
pub mod Iter
pub mod Find
pub mod Bitmap
use pug_os.Prelude.{
  ℕ, zero, suc, ◌+◌, ◌-◌, ◌*◌, ◌/◌, ◌%◌, ◌^◌, Bool, true, false, not, ◌&&◌, ◌||◌, List, [], ◌∷◌,
  Option, some, none, min, ltb, leb, ◌==◌, if◌then◌else◌, update, ◌>>=◌, ◌>>◌, check,
}

abbrev pub blocksize : ℕ
blocksize = 4096

abbrev pub ndirect : ℕ
ndirect = 9

abbrev pub nindirect : ℕ
nindirect = 1024

abbrev pub maxsize : ℕ
maxsize = ndirect * blocksize + nindirect * blocksize + nindirect * nindirect * blocksize

-- The block pointers of an inode.
pub record Inode : Type 0 where
  pub direct : ℕ → ℕ
  pub indirect : ℕ
  pub indirect2 : ℕ

-- The words of each block, and the references that are held to it.
pub record Store : Type 0 where
  pub words : ℕ → ℕ → ℕ
  pub refs : ℕ → ℕ

-- `if (bn != 0) e = bc.get_disk_entry(bn);`
unfoldable pub get_if : (ℕ → Bool) → ℕ → Store → Store × Option ℕ
get_if room bn s =
    if not (bn == 0) && room bn
    then (record s { refs = update s.refs bn (s.refs bn + 1) }, some bn)
    else (s, none)

abbrev pub put : ℕ → Store → Store
put bn s = record s { refs = update s.refs bn (s.refs bn - 1) }

unfoldable pub bi_direct_index : ℕ → Option ℕ
bi_direct_index bi =
    check (ltb bi (maxsize / blocksize))
    >> some (if ltb bi ndirect then bi else (bi - ndirect) % nindirect)

unfoldable pub bi_indirect_index : ℕ → Option ℕ
bi_indirect_index bi =
    check (leb (ndirect + nindirect) bi && ltb bi (maxsize / blocksize))
    >> some ((bi - ndirect - nindirect) / nindirect)

-- `get_data_block` from the number of an indirect block on.
unfoldable pub from_indirect : (ℕ → Bool) → ℕ → ℕ → Store → Option (Store × Option ℕ)
from_indirect room bi ibn s = elim ((get_if room ibn s).1) [
  | none ↦ some ((get_if room ibn s).0, none)
  | some b ↦ bi_direct_index bi >>= λ k.
      let s' = (get_if room ibn s).0 in
      let (t, de) = get_if room (s'.words b k) s' in some (put b t, de)
]

-- `get_data_block` from the doubly indirect block on.
unfoldable pub from_indirect2 : (ℕ → Bool) → ℕ → ℕ → Store → Option (Store × Option ℕ)
from_indirect2 room bi i2bn s = elim ((get_if room i2bn s).1) [
  | none ↦ some ((get_if room i2bn s).0, none)
  | some b ↦ bi_indirect_index bi >>= λ k.
      let s' = (get_if room i2bn s).0 in
      from_indirect room bi (s'.words b k) s' >>= λ (t, de). some (put b t, de)
]

-- The entry of the data block, whose buffer `get_data_block` returns.
unfoldable pub get_data_block : (ℕ → Bool) → Inode → ℕ → Store → Option (Store × Option ℕ)
get_data_block room ino off s =
    let bi = off / blocksize % 2 ^ 32 in
    check (off % blocksize == 0)
    >> (if leb (ndirect + nindirect) bi
        then from_indirect2 room bi ino.indirect2 s
        else if leb ndirect bi
        then from_indirect room bi ino.indirect s
        else (bi_direct_index bi >>= λ k. some (get_if room (ino.direct k) s)))

-- `dptr_`: into the inode, or into a block of pointers.
pub data Pointer : Type 0 where
  in_inode : ℕ → Pointer
  in_block : ℕ → ℕ → Pointer

-- `chkfs_fileiter`
pub record FileIter : Type 0 where
  pub off : ℕ
  pub dptr : Option Pointer
  pub indirect2_entry : Option ℕ
  pub indirect_entry : Option ℕ

unfoldable pub load : Inode → Store → Pointer → ℕ
load ino s (in_inode k) = ino.direct k
load ino s (in_block b k) = s.words b k

unfoldable pub blocknum : Inode → Store → FileIter → ℕ
blocknum ino s it = elim (it.dptr) [ none ↦ 0 | some p ↦ load ino s p ]

abbrev pub present : Inode → Store → FileIter → Bool
present ino s it = not (blocknum ino s it == 0)

abbrev pub iclass : ℕ → ℕ
iclass bi = (bi + nindirect - ndirect) / nindirect

abbrev pub is_none : Option ℕ → Bool
is_none o = elim o [ none ↦ true | some b ↦ false ]

-- The number that `get_iptr` points to, where `find` calls it: from the first indirect class on.
unfoldable pub get_iptr : Inode → Store → Option ℕ → ℕ → Option ℕ
get_iptr ino s none bi = if ltb 1 (iclass bi) then none else some ino.indirect
get_iptr ino s (some b) bi =
    if ltb 1 (iclass bi)
    then check (ltb (iclass bi - 2) nindirect) >> some (s.words b (iclass bi - 2))
    else some ino.indirect

unfoldable pub get_dptr : Option ℕ → ℕ → Option Pointer
get_dptr none bi = if leb ndirect bi then none else some (in_inode bi)
get_dptr (some b) bi =
    if leb ndirect bi then (bi_direct_index bi >>= λ k. some (in_block b k)) else some (in_inode bi)

-- The indirect entry of another class than that of `bi` is given back.
unfoldable pub leave_class : ℕ → ℕ → Option ℕ → Store → Option ℕ × Store
leave_class bi off none s = (none, s)
leave_class bi off (some b) s =
    if iclass bi == iclass (off / blocksize) then (some b, s) else (none, put b s)

unfoldable pub load_indirect2 : (ℕ → Bool) → Inode → ℕ → Option ℕ → Store → Option ℕ × Store
load_indirect2 room ino bi (some b) s = (some b, s)
load_indirect2 room ino bi none s =
    if leb (ndirect + nindirect) bi
    then ((get_if room ino.indirect2 s).1, (get_if room ino.indirect2 s).0)
    else (none, s)

-- With the entry of the doubly indirect block.
unfoldable pub load_indirect :
    (ℕ → Bool) → Inode → ℕ → Option ℕ → Option ℕ → Store → Option (Option ℕ × Store)
load_indirect room ino bi e2 (some b) s = some (some b, s)
load_indirect room ino bi e2 none s =
    if leb ndirect bi
    then (get_iptr ino s e2 bi >>= λ ibn. some ((get_if room ibn s).1, (get_if room ibn s).0))
    else some (none, s)

-- `find`, once the doubly indirect block is there or not needed.
unfoldable pub find_indirect :
    (ℕ → Bool) → Inode → ℕ → ℕ → Option ℕ → Option ℕ → Store → Option (FileIter × Store)
find_indirect room ino bi off e2 e1 s = load_indirect room ino bi e2 e1 s >>= λ (e, t).
    if leb ndirect bi && is_none e
    then some (record { off = off; dptr = none; indirect2_entry = e2; indirect_entry = e }, t)
    else (get_dptr e bi >>= λ p.
        some (record { off = off; dptr = some p; indirect2_entry = e2; indirect_entry = e }, t))

-- `find`, with the index of the block.
unfoldable pub find_block :
    (ℕ → Bool) → Inode → ℕ → ℕ → FileIter → Store → Option (FileIter × Store)
find_block room ino off bi it s =
    let (e1, s1) = leave_class bi it.off it.indirect_entry s in
    let (e2, s2) = load_indirect2 room ino bi it.indirect2_entry s1 in
    if leb (ndirect + nindirect) bi && is_none e2
    then some (record { off = off; dptr = none; indirect2_entry = e2; indirect_entry = e1 }, s2)
    else find_indirect room ino bi off e2 e1 s2

unfoldable pub find : (ℕ → Bool) → Inode → ℕ → FileIter → Store → Option (FileIter × Store)
find room ino off it s = find_block room ino off (min off maxsize / blocksize) it s

-- `allocate_block` on the free block bitmap, for a superblock with `nblocks` blocks; `fbb` are the bytes
-- from the start of the bitmap block on.
abbrev pub is_free : (ℕ → ℕ) → ℕ → Bool
is_free fbb bn = not (fbb (bn / 8) / 2 ^ (bn % 8) % 2 == 0)

abbrev pub e_nospc : ℕ
e_nospc = 2 ^ 32 - 28

-- `fbb[bn / 8] &= ~(1 << (bn % 8))`, for a bit that is set.
abbrev pub take_bit : (ℕ → ℕ) → ℕ → ℕ → ℕ
take_bit fbb bn = update fbb (bn / 8) (fbb (bn / 8) - 2 ^ (bn % 8))

-- The loop, from `bn` on, with the blocks that are left.
pub search_bitmap : ℕ → ℕ → (ℕ → ℕ) → (ℕ → ℕ) × ℕ
search_bitmap zero bn fbb = (fbb, bn)
search_bitmap (suc n) bn fbb =
    let rest = search_bitmap n (bn + 1) fbb in
    if is_free fbb bn then (take_bit fbb bn, bn) else rest

unfoldable pub allocate_block : ℕ → (ℕ → ℕ) → (ℕ → ℕ) × ℕ
allocate_block nblocks fbb =
    let (fbb', bn) = search_bitmap nblocks 0 fbb in
    if ltb bn nblocks then (fbb', bn) else (fbb', e_nospc)
