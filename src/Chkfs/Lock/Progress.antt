-- ===== src/Chkfs/Lock/Progress.antt =====
-- The inode lock: a task in the loop of `lock_read` is never shut out for good.
use pug_os.Prelude.{
  ℕ, zero, suc, ◌+◌, ◌<◌, ◌≡◌, ◌⊎◌, inl, inr, refl, sym, ap, ◌∙◌, false, arith, update, eq_cases,
}
use pug_os.Chkfs.Lock.{
  Phase, outside, read_loop, reading, unread_loop, write_loop, writing, failed, Tasks, turn, Reach,
  here, next, locked, advance, lock_read_round, unlock_write, unused,
}
use pug_os.Chkfs.Lock.Shares.{IsHeld, tally, write_share}
use pug_os.Chkfs.Lock.Exclusive.{Reach-IsLocked, tally_bound}

-- A turn of one task, in which its exchange does not fail without a reason.
abbrev pub after : Tasks → ℕ → Tasks
after s t = record {
  mlock = (advance s.mlock (s.phase t) false false).0;
  phase = update s.phase t ((advance s.mlock (s.phase t) false false).1);
}

pub Reach-after : {n : ℕ} {r s : Tasks} (t : ℕ) → t < n → Reach n r s → Reach n r (after s t)
Reach-after {n} {r} {s} t h reach = next reach (turn s t false false h)

-- From a word that is not locked, two turns are enough.
two_turns :
    (n t v : ℕ) (s : Tasks)
    → t < n
    → s.phase t ≡ read_loop v
    → s.mlock < locked
    → (u : Tasks) × Reach n s u × (u.phase t ≡ reading)
unfolding advance lock_read_round
two_turns n t v s h e m = elim (eq_cases s.mlock v) [
  | inl same ↦ (after s t, Reach-after t h here, ground (arith, e))
  | inr differ ↦ (after (after s t) t, Reach-after t h (Reach-after t h here), ground (arith, e))
]

share_cases : (x : Phase) → (x ≡ writing) ⊎ (write_share x ≡ 0)
unfolding write_share
share_cases outside = inr refl
share_cases (read_loop v) = inr refl
share_cases reading = inr refl
share_cases (unread_loop v) = inr refl
share_cases write_loop = inr refl
share_cases writing = inl refl
share_cases failed = inr refl

find_writer :
    (p : ℕ → Phase) (n : ℕ) → 0 < tally write_share p n → (t : ℕ) × (t < n) × (p t ≡ writing)
unfolding tally
find_writer p zero h = absurd (omega (arith, h))
find_writer p (suc n) h = elim (share_cases (p n)) [
  | inl w ↦ (n, omega arith, w)
  | inr idle ↦ let (t, lt, w) = find_writer p n (omega (arith, h, idle)) in (t, omega arith, w)
]

pub Reach-trans : {n : ℕ} {r s u : Tasks} → Reach n r s → Reach n s u → Reach n r u
Reach-trans p here = p
Reach-trans p (next q step) = next (Reach-trans p q) step

-- After its turn a writer has let go, and the other tasks are where they were.
writer_turn :
    (s : Tasks) (t k v : ℕ)
    → s.mlock ≡ locked
    → s.phase t ≡ writing
    → s.phase k ≡ read_loop v
    → ((after s t).mlock ≡ 0) × ((after s t).phase k ≡ read_loop v)
unfolding advance unlock_write
writer_turn s t k v m w e = elim (eq_cases t k) [
  | inl same ↦ absurd (differ (sym w ∙ ap s.phase same ∙ e))
  | inr ne ↦ (rw (w, m) refl, ground (arith, ne, e))
]
  where
    differ : writing ≡ read_loop v → ⊥
    differ h = ground (arith, h)

-- Of fewer than 2^32 - 2 tasks, one that is in the loop of `lock_read` can always come to hold the lock:
-- from any state that they can reach, some order of turns lets it read.
pub lock_read_may_end :
    (n t v : ℕ) (s : Tasks)
    → n + 1 < locked
    → Reach n unused s
    → t < n
    → s.phase t ≡ read_loop v
    → (u : Tasks) × Reach n s u × (u.phase t ≡ reading)
unfolding IsHeld
lock_read_may_end n t v s hn reach ht e =
    let h = Reach-IsLocked n hn reach in
    let bound = tally_bound s.phase n in
    elim h.held [
      | inl (readers, _) ↦ two_turns n t v s ht e (omega arith)
      | inr (word, _, writers) ↦
          let (k, hk, w) = find_writer s.phase n (omega arith) in
          let (free, waits) = writer_turn s k t v word w e in
          let (u, go, done) = two_turns n t v (after s k) ht waits (omega (arith, free)) in
          (u, Reach-trans (Reach-after k hk here) go, done)
    ]
