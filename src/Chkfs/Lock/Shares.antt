-- ===== src/Chkfs/Lock/Shares.antt =====
-- The inode lock: the shares of it that tasks hold, and their sum.
use pug_os.Prelude.{ℕ, zero, suc, ◌+◌, ◌<◌, ◌≤◌, ◌≡◌, ◌⊎◌, inl, inr, refl, arith, update, eq_cases}
use pug_os.Chkfs.Lock.{
  Phase, outside, read_loop, reading, unread_loop, write_loop, writing, failed, locked,
}

-- The shares of the lock that a task in a phase holds.
unfoldable pub read_share : Phase → ℕ
read_share reading = 1
read_share (unread_loop v) = 1
read_share outside = 0
read_share (read_loop v) = 0
read_share write_loop = 0
read_share writing = 0
read_share failed = 0

unfoldable pub write_share : Phase → ℕ
write_share writing = 1
write_share reading = 0
write_share (unread_loop v) = 0
write_share outside = 0
write_share (read_loop v) = 0
write_share write_loop = 0
write_share failed = 0

pub writing_share : write_share writing ≡ 1
unfolding write_share
writing_share = refl

pub outside_share : write_share outside ≡ 0
unfolding write_share
outside_share = refl

-- The sum of the shares of the tasks below `n`.
unfoldable pub tally : (Phase → ℕ) → (ℕ → Phase) → ℕ → ℕ
tally w p zero = 0
tally w p (suc n) = w (p n) + tally w p n

tally-beyond :
    (w : Phase → ℕ) (p : ℕ → Phase) (t : ℕ) (x : Phase) (n : ℕ)
    → n ≤ t
    → tally w (update p t x) n ≡ tally w p n
unfolding tally
tally-beyond w p t x zero h = refl
tally-beyond w p t x (suc n) h = ground (arith, tally-beyond w p t x n)

pub tally-update :
    (w : Phase → ℕ) (p : ℕ → Phase) (t : ℕ) (x : Phase) (n : ℕ)
    → t < n
    → tally w (update p t x) n + w (p t) ≡ tally w p n + w x
unfolding tally
tally-update w p t x zero h = absurd (omega (arith, h))
tally-update w p t x (suc n) h = elim (eq_cases t n) [
  | inl e ↦ ground (arith, tally-beyond w p t x n)
  | inr ne ↦ ground (arith, tally-update w p t x n)
]

pub tally_at : (w : Phase → ℕ) (p : ℕ → Phase) (t n : ℕ) → t < n → w (p t) ≤ tally w p n
unfolding tally
tally_at w p t zero h = absurd (omega (arith, h))
tally_at w p t (suc n) h = elim (eq_cases t n) [
  | inl e ↦ ground arith
  | inr ne ↦ ground (arith, tally_at w p t n)
]

-- The word and the tasks agree: it counts the readers, or says that there is one writer.
unfoldable pub IsHeld : ℕ → ℕ → ℕ → Type 0
IsHeld mlock readers writers =
    ((mlock ≡ readers) × (writers ≡ 0)) ⊎ ((mlock ≡ locked) × (readers ≡ 0) × (writers ≡ 1))
