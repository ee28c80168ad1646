-- ===== src/Chkfs/Tests.antt =====
-- The disk file system: runs on small inputs, and the theorems applied to them.
use pug_os.Prelude.{
  ◌/◌, ◌+◌, ◌-◌, Bool, ◌<◌, List, ◌==◌, min, update_other, ℕ, ◌%◌, ◌≡◌, refl, true, false, [], ◌∷◌,
  Option, some, none, arith, update, inl, inr, count, count-cons, count-nil, eq_cases, subst,
}
use pug_os.Chkfs.Lock.{
  Tasks, Phase, outside, read_loop, reading, writing, write_loop, unused, locked, Reach, here, next,
  turn,
}
use pug_os.Chkfs.Lock.Shares.{read_share, write_share}
use pug_os.Chkfs.Lock.Exclusive.{Reach-exclusive}
use pug_os.Chkfs.Cache.{Cache, Entry, sync, emptyblock}
use pug_os.Chkfs.Cache.Requests.{Answers, get_disk_entry}
use pug_os.Chkfs.Blocks.{Inode, Store, FileIter, get_data_block, find}
use pug_os.Chkfs.Blocks.Lookup.{Looked, block_at, get_data_block-Looked}
use pug_os.Chkfs.Blocks.Find.{StandsAt, IsIter, new_iter, find-StandsAt}
use pug_os.Chkfs.Reading.{read}
use pug_os.Chkfs.Reading.Bytes.{DoneReading, read-DoneReading}
use pug_os.Chkfs.Inodes.{Superblock, Inodes}
use pug_os.Chkfs.Inodes.References.{get_times, put_times, put_inode-leak}
use pug_os.Chkfs.Cache.Links.{IsCache, IsSlot, IsSlot-cast, has_buffer}
use pug_os.Chkfs.Cache.Entries.{Outcome, get_disk_entry-Outcome}
use pug_os.Chkfs.Cache.Drop.{Synced, sync-Synced}

-- One task holds the lock to write, and another waits to read.
abbrev one_writer : Tasks
one_writer = record {
  mlock = locked;
  phase = update (update (update (λ t. outside) 0 write_loop) 0 writing) 1 (read_loop locked);
}

one_writer_reached : Reach 2 unused one_writer
unfolding pug_os.Chkfs.Lock.advance pug_os.Chkfs.Lock.lock_write_round
one_writer_reached =
    next
      (next (next here (turn unused 0 true false (omega arith)))
        (turn _ 0 false false (omega arith)))
      (turn _ 1 false false (omega arith))

Reach-exclusive_example :
    (one_writer.mlock ≡ locked)
    × (read_share (one_writer.phase 1) ≡ 0)
    × (write_share (one_writer.phase 1) ≡ 0)
Reach-exclusive_example =
    Reach-exclusive 2 one_writer 0 1 (omega arith) one_writer_reached (omega arith) (omega arith)
      refl (λ e. omega (arith, e))

abbrev empty_entry : Entry
empty_entry = record {
  bn = emptyblock;
  ref = 0;
  loaded = false;
  loading = false;
  dirty = false;
  buf = none;
  fetching = false;
  prefetched = false;
}

-- The superblock's entry, dirty, in an otherwise empty cache.
abbrev superblock_entry : Entry
superblock_entry = record {
  bn = 0;
  ref = 1;
  loaded = true;
  loading = false;
  dirty = true;
  buf = some (λ k. 7);
  fetching = false;
  prefetched = false;
}

abbrev small_cache : Cache
small_cache = record {
  entries = update (λ i. empty_entry) 0 superblock_entry;
  e_list = 0 ∷ [];
  pref_list = [];
  dirty_list = 0 ∷ [];
  disk = λ bn. λ k. bn % 256;
}

abbrev answers : Answers
answers = record { memory = λ bn. true; taken = λ bn. true }

has_buffer_at : has_buffer (some (λ k. 7)) ≡ true
unfolding has_buffer
has_buffer_at = refl

small_cache-IsCache : IsCache small_cache
small_cache-IsCache = record {
  slot = λ i. elim (eq_cases 0 i) [
    | inl same ↦
        subst
          (λ i. IsSlot i (small_cache.entries i) (count i (0 ∷ [])) (count i []) (count i (0 ∷ [])))
          same
          (record {
            member = omega (arith, count-cons 0 0 [], count-nil 0);
            dirtied = omega (arith, count-cons 0 0 [], count-nil 0);
            idle = λ h. absurd (omega (arith, h, count-nil 0));
            inside = λ h. absurd (omega (arith, h));
            no_ref = λ h. absurd (omega (arith, h));
            no_use = λ h. absurd (omega (arith, h));
            filled = λ h. has_buffer_at;
          })
    | inr differ ↦
        let base : IsSlot i empty_entry 0 0 0 = record {
          member = refl;
          dirtied = refl;
          idle = λ h. refl;
          inside = λ h. refl;
          no_ref = λ h. refl;
          no_use = λ h. refl;
          filled = λ h. absurd (ground (arith, h));
        } in
        IsSlot-cast i (update_other (λ i. empty_entry) 0 i superblock_entry differ)
          (ground (arith, differ, count-cons i 0 [], count-nil i)) (count-nil i)
          (ground (arith, differ, count-cons i 0 [], count-nil i)) base
  ];
  unique = λ i j same full. ground (arith, same, full);
}

get_disk_entry-Outcome_example :
    (d : Cache) × (slot : Option ℕ) × (get_disk_entry answers small_cache 5 (λ b. b)
      ≡ some (d, slot))
    × Outcome small_cache d 5 slot
get_disk_entry-Outcome_example =
    get_disk_entry-Outcome answers small_cache 5 (λ b. b) small_cache-IsCache (λ b. refl)
      (omega arith) (λ k. ground arith)

sync-Synced_example : (d : Cache) × (sync true small_cache ≡ some d) × Synced true small_cache d
sync-Synced_example = sync-Synced true small_cache small_cache-IsCache

-- A file of one block, number 7, in a store where nobody holds a reference.
abbrev small_inode : Inode
small_inode = record { direct = update (λ k. 0) 0 7; indirect = 0; indirect2 = 9 }

abbrev idle_store : Store
idle_store = record { words = λ b. λ k. 0; refs = λ b. 0 }

abbrev plenty : ℕ → Bool
plenty b = true

new_iter-IsIter : IsIter small_inode idle_store.words new_iter
unfolding IsIter
new_iter-IsIter = record {
  top = λ b h. absurd (ground (arith, h));
  low = λ b h. absurd (ground (arith, h));
}

first_block :
    (pos : ℕ) → pos < 4 → (block_at small_inode idle_store.words (pos / 4096) == 0) ≡ false
unfolding block_at
first_block pos h = let e : pos / 4096 ≡ 0 = omega (arith, h) in rw (e) refl

get_data_block-Looked_example :
    Looked
      (get_data_block plenty small_inode 0 idle_store)
      idle_store
      (block_at small_inode idle_store.words 0)
get_data_block-Looked_example =
    get_data_block-Looked plenty small_inode 0 idle_store (λ b. refl) refl (omega arith)

find-StandsAt_example :
    (it : FileIter) × (s : Store) × (find plenty small_inode 40960 new_iter idle_store
      ≡ some (it, s))
    × StandsAt small_inode new_iter idle_store 40960 it s
find-StandsAt_example =
    find-StandsAt plenty (λ b. refl) small_inode new_iter idle_store 40960 (omega arith)
      new_iter-IsIter (λ b. omega arith)

read-DoneReading_example :
    (bytes : List ℕ) × (off : ℕ) × (t : Store) × (read plenty small_inode 4
        (λ b. λ k. b + k)
        1
        10
        idle_store
      ≡ some (bytes, off, t))
    × DoneReading small_inode (λ b. λ k. b + k) 1 (min 10 (4 - 1)) idle_store bytes off t
read-DoneReading_example =
    read-DoneReading plenty (λ b. refl) small_inode 4 (λ b. λ k. b + k) (omega arith) 1 10
      idle_store (omega arith) (omega arith) first_block

-- 128 inodes from block 20 on, none of them in use.
abbrev small_superblock : Superblock
small_superblock = record { inode_bn = 20; ninodes = 128 }

abbrev idle_inodes : Inodes
idle_inodes = record { mref = λ i. 0; refs = λ b. 0 }

put_inode-leak_example :
    ((put_times small_superblock 65 3 (get_times plenty small_superblock 65 3 idle_inodes)).mref 65
      ≡ 0)
    × ((put_times small_superblock 65 3 (get_times plenty small_superblock 65 3 idle_inodes)).refs
          21
        ≡ 2)
put_inode-leak_example =
    put_inode-leak plenty small_superblock 65 2 0 idle_inodes (omega arith) (omega arith) refl
      (refl, refl) (omega arith)
