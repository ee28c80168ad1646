-- ===== src/Chkfs/Inodes/References.antt =====
-- `get_inode` and `put_inode`: how many references to the block of an inode they leave.
use pug_os.Prelude.{
  ℕ, zero, suc, ◌+◌, ◌-◌, ◌%◌, ◌^◌, ◌<◌, ◌≡◌, Bool, true, false, ◌&&◌, some, ltb, ◌==◌, arith,
}
use pug_os.Chkfs.Inodes.{Superblock, Inodes, block_of, get_inode, put_inode}

-- The same inode, `n` times.
pub get_times : (ℕ → Bool) → Superblock → ℕ → ℕ → Inodes → Inodes
get_times room sb inum zero s = s
get_times room sb inum (suc n) s = (get_inode room sb inum (get_times room sb inum n s)).0

pub put_times : Superblock → ℕ → ℕ → Inodes → Inodes
put_times sb inum zero s = s
put_times sb inum (suc n) s = put_inode sb (some inum) (put_times sb inum n s)

-- What an inode and its block count.
abbrev Counts : Superblock → ℕ → Inodes → ℕ → ℕ → Type 0
Counts sb inum s m r = (s.mref inum ≡ m) × (s.refs (block_of sb inum) ≡ r)

module _ (room : ℕ → Bool) (sb : Superblock) (inum : ℕ) where
  get_times-Counts :
      (n m r : ℕ) (s : Inodes)
      → 0 < inum
      → inum < sb.ninodes
      → room (block_of sb inum) ≡ true
      → Counts sb inum s m r
      → m + n < 2 ^ 32
      → Counts sb inum (get_times room sb inum n s) (m + n) (r + n)
  unfolding get_times get_inode
  get_times-Counts zero m r s lo hi has c small = (omega (arith, c.0), omega (arith, c.1))
  get_times-Counts (suc n) m r s lo hi has c small =
      let d = get_times-Counts n m r s lo hi has c (omega (arith, small)) in
      let valid : ((ltb 0 inum && ltb inum sb.ninodes) && room (block_of sb inum)) ≡ true =
        ground (arith, lo, hi, has) in
      rw (get_times, get_inode, valid) (ground (arith, d.0, small), ground (arith, d.1))

  put_times-Counts :
      (n m r : ℕ) (s : Inodes)
      → Counts sb inum s m r
      → n < m
      → m < 2 ^ 32
      → Counts sb inum (put_times sb inum n s) (m - n) r
  unfolding put_times put_inode
  put_times-Counts zero m r s c h small = (omega (arith, c.0), c.1)
  put_times-Counts (suc n) m r s c h small =
      let d = put_times-Counts n m r s c (omega (arith, h)) small in
      let after : ((put_times sb inum n s).mref inum + 2 ^ 32 - 1) % 2 ^ 32 ≡ m - suc n =
        omega (arith, d.0, h, small) in
      let held : (((put_times sb inum n s).mref inum + 2 ^ 32 - 1) % 2 ^ 32 == 0) ≡ false =
        ground (arith, after, h) in
      rw (held) (ground (arith, after), d.1)

  -- As many calls of `put_inode` as of `get_inode` bring `mref` back to 0, but give back one of the references
  -- to the inode's block that the calls of `get_inode` took, whatever their number: the others stay.
  pub put_inode-leak :
      (n r : ℕ) (s : Inodes)
      → 0 < inum
      → inum < sb.ninodes
      → room (block_of sb inum) ≡ true
      → Counts sb inum s 0 r
      → suc n < 2 ^ 32
      → Counts sb inum (put_times sb inum (suc n) (get_times room sb inum (suc n) s)) 0 (r + n)
  unfolding put_times put_inode
  put_inode-leak n r s lo hi has c small =
      let g = get_times-Counts (suc n) 0 r s lo hi has c (omega (arith, small)) in
      let (mref, refs) =
        put_times-Counts n (suc n) (r + suc n) (get_times room sb inum (suc n) s)
          (omega (arith, g.0), g.1) (omega arith) small in
      let before = put_times sb inum n (get_times room sb inum (suc n) s) in
      let after : (before.mref inum + 2 ^ 32 - 1) % 2 ^ 32 ≡ 0 = omega (arith, mref) in
      let last : ((before.mref inum + 2 ^ 32 - 1) % 2 ^ 32 == 0) ≡ true = ground (arith, after) in
      rw (last) (ground (arith, after), ground (arith, refs))
