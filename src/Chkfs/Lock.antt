-- ===== src/Chkfs/Lock.antt =====
-- k-chkfs.cc: the read/write lock of an inode, `mlock`, at the grain of its atomic accesses. Tasks are
-- numbers; a task that fails an assertion stops in `failed`.
pub mod Shares
pub mod Exclusive
pub mod Progress
use pug_os.Prelude.{
  ℕ, ◌+◌, ◌-◌, ◌%◌, ◌^◌, ◌<◌, Bool, true, false, not, ◌&&◌, ◌||◌, List, [], ◌∷◌, ◌==◌,
  if◌then◌else◌, update,
}

-- `uint32_t(-1)`, which says that a writer holds the lock.
abbrev pub locked : ℕ
locked = 2 ^ 32 - 1

-- Where a task stands: outside, in the loop of `lock_read` or of `unlock_read` with its local `v`, in the
-- loop of `lock_write`, or holding the lock.
pub data Phase : Type 0 where
  outside : Phase
  read_loop : ℕ → Phase
  reading : Phase
  unread_loop : ℕ → Phase
  write_loop : Phase
  writing : Phase
  failed : Phase

-- A round of the loop of `lock_read`. A weak exchange can fail without a reason, and loads `mlock` into `v`
-- whenever it fails.
unfoldable pub lock_read_round : ℕ → ℕ → Bool → ℕ × Phase
lock_read_round mlock v spurious =
    if v == locked
    then (mlock, read_loop mlock)
    else if (mlock == v) && not spurious
    then ((v + 1) % 2 ^ 32, reading)
    else (mlock, read_loop mlock)

unfoldable pub unlock_read_test : ℕ → ℕ × Phase
unlock_read_test mlock =
    (mlock, if (mlock == 0) || (mlock == locked) then failed else unread_loop mlock)

unfoldable pub unlock_read_round : ℕ → ℕ → Bool → ℕ × Phase
unlock_read_round mlock v spurious =
    if (mlock == v) && not spurious
    then ((v + 2 ^ 32 - 1) % 2 ^ 32, outside)
    else (mlock, unread_loop mlock)

unfoldable pub lock_write_round : ℕ → Bool → ℕ × Phase
lock_write_round mlock spurious =
    if (mlock == 0) && not spurious then (locked, writing) else (mlock, write_loop)

abbrev pub has_write_lock : ℕ → Bool
has_write_lock mlock = mlock == locked

unfoldable pub unlock_write : ℕ → ℕ × Phase
unlock_write mlock = if has_write_lock mlock then (0, outside) else (mlock, failed)

-- The next access of a task. One outside calls `lock_write` or `lock_read`; one that holds the lock lets it
-- go.
unfoldable pub advance : ℕ → Phase → Bool → Bool → ℕ × Phase
advance mlock outside to_write spurious =
    if to_write then (mlock, write_loop) else (mlock, read_loop mlock)
advance mlock (read_loop v) to_write spurious = lock_read_round mlock v spurious
advance mlock reading to_write spurious = unlock_read_test mlock
advance mlock (unread_loop v) to_write spurious = unlock_read_round mlock v spurious
advance mlock write_loop to_write spurious = lock_write_round mlock spurious
advance mlock writing to_write spurious = unlock_write mlock
advance mlock failed to_write spurious = (mlock, failed)

-- The lock and the tasks that use it.
pub record Tasks : Type 0 where
  pub mlock : ℕ
  pub phase : ℕ → Phase

-- Any task below `n` makes its next access.
pub data Step (n : ℕ) : Tasks → Tasks → Type 0 where
  turn :
      (s : Tasks) (t : ℕ) (to_write spurious : Bool)
      → t < n
      → Step n s (record {
        mlock = (advance s.mlock (s.phase t) to_write spurious).0;
        phase = update s.phase t ((advance s.mlock (s.phase t) to_write spurious).1);
      })

pub data Reach (n : ℕ) (s : Tasks) : Tasks → Type 0 where
  here : Reach n s s
  next : {t u : Tasks} → Reach n s t → Step n t u → Reach n s u

-- `clean_inode_block` sets `mlock` to 0.
abbrev pub unused : Tasks
unused = record { mlock = 0; phase = λ t. outside }
