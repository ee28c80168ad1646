-- ===== src/Chkfs/Inodes.antt =====
-- k-chkfs.cc: `get_inode` and `put_inode`, with `mref` of each inode and the references to the blocks that
-- the inodes stand in. `room` says of which blocks the buffer cache returns an entry.
pub mod References
use pug_os.Prelude.{
  ℕ, ◌+◌, ◌-◌, ◌/◌, ◌%◌, ◌^◌, Bool, ◌&&◌, Option, some, none, ltb, ◌==◌, if◌then◌else◌, update,
}

-- What the superblock says: `inode_bn` and `ninodes`.
pub record Superblock : Type 0 where
  pub inode_bn : ℕ
  pub ninodes : ℕ

pub record Inodes : Type 0 where
  pub mref : ℕ → ℕ
  pub refs : ℕ → ℕ

abbrev pub inodesperblock : ℕ
inodesperblock = 64

abbrev pub block_of : Superblock → ℕ → ℕ
block_of sb inum = sb.inode_bn + inum / inodesperblock

unfoldable pub get_inode : (ℕ → Bool) → Superblock → ℕ → Inodes → Inodes × Option ℕ
get_inode room sb inum s =
    if (ltb 0 inum && ltb inum sb.ninodes) && room (block_of sb inum)
    then (
      record {
        mref = update s.mref inum ((s.mref inum + 1) % 2 ^ 32);
        refs = update s.refs (block_of sb inum) (s.refs (block_of sb inum) + 1);
      },
      some inum,
    )
    else (s, none)

unfoldable pub put_inode : Superblock → Option ℕ → Inodes → Inodes
put_inode sb none s = s
put_inode sb (some inum) s =
    let m = (s.mref inum + 2 ^ 32 - 1) % 2 ^ 32 in
    record {
      mref = update s.mref inum m;
      refs =
          if m == 0
          then update s.refs (block_of sb inum) (s.refs (block_of sb inum) - 1)
          else s.refs;
    }
