-- ===== src/Chkfs/Lock/Exclusive.antt =====
-- The inode lock: an access keeps what the word says, and a writer holds the lock alone.
use pug_os.Prelude.{
  ℕ, zero, suc, ◌+◌, ◌-◌, ◌%◌, ◌^◌, ◌<◌, ◌≤◌, ◌≡◌, ◌⊎◌, inl, inr, refl, sym, ap, ◌∙◌, subst, ◌||◌,
  Bool, true, false, not, ◌&&◌, arith, ◌==◌, if◌then◌else◌, update, eq_cases, Bool-cases,
}
use pug_os.Chkfs.Lock.{
  Phase, outside, read_loop, reading, unread_loop, write_loop, writing, failed, Tasks, Step, turn,
  Reach, here, next, locked, advance, lock_read_round, unlock_read_test, unlock_read_round,
  lock_write_round, unlock_write, has_write_lock, unused,
}
use pug_os.Chkfs.Lock.Shares.{
  read_share, write_share, writing_share, outside_share, tally, tally-update, tally_at, IsHeld,
}

pub has_failed : Phase → Bool
has_failed failed = true
has_failed outside = false
has_failed (read_loop v) = false
has_failed reading = false
has_failed (unread_loop v) = false
has_failed write_loop = false
has_failed writing = false

-- What an exchange of a round does.
exchange {ℓ} :
    {A : Type ℓ} (m v : ℕ) (spurious : Bool) (x y : A)
    → ((if (m == v) && not spurious then x else y) ≡ y)
      ⊎ ((m ≡ v) × ((if (m == v) && not spurious then x else y) ≡ x))
exchange m v true x y = elim (Bool-cases (m == v)) [
  | inl e ↦ inl (rw (e) refl)
  | inr e ↦ inl (rw (e) refl)
]
exchange m v false x y = elim (Bool-cases (m == v)) [
  | inl e ↦ inr (ground (arith, e), rw (e) refl)
  | inr e ↦ inl (rw (e) refl)
]

choice {ℓ} :
    {A : Type ℓ} (b : Bool) (x y : A)
    → ((b ≡ true) × ((if b then x else y) ≡ x)) ⊎ ((b ≡ false) × ((if b then x else y) ≡ y))
choice true x y = inl (refl, refl)
choice false x y = inr (refl, refl)

-- The word and the phase after an access, beside tasks that hold `r` and `w` shares.
abbrev Kept : ℕ → ℕ → ℕ × Phase → Type 0
Kept r w a =
    IsHeld (a.0) (r + read_share (a.1)) (w + write_share (a.1)) × (has_failed (a.1) ≡ false)

advance-Kept :
    (m : ℕ) (p : Phase) (to_write spurious : Bool) (r w : ℕ)
    → r + 1 < locked
    → IsHeld m (r + read_share p) (w + write_share p)
    → has_failed p ≡ false
    → Kept r w (advance m p to_write spurious)
unfolding advance lock_read_round unlock_read_test unlock_read_round lock_write_round unlock_write
    read_share write_share has_failed IsHeld
advance-Kept m outside true spurious r w hr h f = (h, refl)
advance-Kept m outside false spurious r w hr h f = (h, refl)
advance-Kept m (read_loop v) tw spurious r w hr h f =
    elim (choice {A = ℕ × Phase} (v == locked) (m, read_loop m)
      (if (m == v) && not spurious then ((v + 1) % 2 ^ 32, reading) else (m, read_loop m))) [
        | inl (e, same) ↦ rw (same) (h, refl)
        | inr (e, same) ↦
            elim (exchange {A = ℕ × Phase} m v spurious ((v + 1) % 2 ^ 32, reading)
              (m, read_loop m)) [
                | inl fails ↦ rw (same, fails) (h, refl)
                | inr (eq, wins) ↦ rw (same, wins) (ground (arith, h, e), refl)
              ]
      ]
advance-Kept m reading tw spurious r w hr h f =
    elim (choice ((m == 0) || (m == locked)) failed (unread_loop m)) [
      | inl (e, same) ↦ absurd (ground (arith, e, h))
      | inr (e, same) ↦ rw (same) (h, refl)
    ]
advance-Kept m (unread_loop v) tw spurious r w hr h f =
    elim (exchange {A = ℕ × Phase} m v spurious ((v + 2 ^ 32 - 1) % 2 ^ 32, outside)
      (m, unread_loop m)) [
        | inl fails ↦ rw (fails) (h, refl)
        | inr (eq, wins) ↦ rw (wins) (ground (arith, h), refl)
      ]
advance-Kept m write_loop tw spurious r w hr h f =
    elim (exchange {A = ℕ × Phase} m 0 spurious (locked, writing) (m, write_loop)) [
      | inl fails ↦ rw (fails) (h, refl)
      | inr (eq, wins) ↦ rw (wins) (ground (arith, h), refl)
    ]
advance-Kept m writing tw spurious r w hr h f =
    elim (choice {A = ℕ × Phase} (has_write_lock m) (0, outside) (m, failed)) [
      | inl (e, same) ↦ rw (same) (ground (arith, h), refl)
      | inr (e, same) ↦ absurd (ground (arith, e, h))
    ]
advance-Kept m failed tw spurious r w hr h f = absurd (ground (arith, f))

pub record IsLocked (n : ℕ) (s : Tasks) : Type 0 where
  pub held : IsHeld s.mlock (tally read_share s.phase n) (tally write_share s.phase n)
  pub runs : (t : ℕ) → has_failed (s.phase t) ≡ false

read_share_bound : (x : Phase) → read_share x ≤ 1
unfolding read_share
read_share_bound outside = omega arith
read_share_bound (read_loop v) = omega arith
read_share_bound reading = omega arith
read_share_bound (unread_loop v) = omega arith
read_share_bound write_loop = omega arith
read_share_bound writing = omega arith
read_share_bound failed = omega arith

pub tally_bound : (p : ℕ → Phase) (n : ℕ) → tally read_share p n ≤ n
unfolding tally
tally_bound p zero = omega arith
tally_bound p (suc n) = omega (arith, tally_bound p n, read_share_bound (p n))

tally-zeros : (w : Phase → ℕ) (n : ℕ) → w outside ≡ 0 → 0 ≡ tally w (λ t. outside) n
unfolding tally
tally-zeros w zero h = refl
tally-zeros w (suc n) h = omega (arith, h, tally-zeros w n h)

IsHeld-shares : (m : ℕ) {r r' w w' : ℕ} → r ≡ r' → w ≡ w' → IsHeld m r w → IsHeld m r' w'
IsHeld-shares m e f h = ground arith

Step-IsLocked : (n : ℕ) {s u : Tasks} → n + 1 < locked → Step n s u → IsLocked n s → IsLocked n u
Step-IsLocked n hn (turn s t to_write spurious ht) v =
    let p = s.phase t in
    let a = advance s.mlock p to_write spurious in
    let rs = tally_at read_share s.phase t n ht in
    let ws = tally_at write_share s.phase t n ht in
    let bound = tally_bound s.phase n in
    let (held, runs) =
      advance-Kept s.mlock p to_write spurious (tally read_share s.phase n - read_share p)
        (tally write_share s.phase n - write_share p) (omega arith)
        (IsHeld-shares _ (omega arith) (omega arith) v.held) (v.runs t) in
    record {
      held =
          IsHeld-shares _ (omega (arith, tally-update read_share s.phase t (a.1) n ht))
            (omega (arith, tally-update write_share s.phase t (a.1) n ht)) held;
      runs = λ k. elim (eq_cases t k) [
        | inl e ↦ ground (arith, runs)
        | inr ne ↦ ground (arith, v.runs k)
      ];
    }

unused-IsLocked : (n : ℕ) → IsLocked n unused
unfolding read_share write_share has_failed IsHeld
unused-IsLocked n = record {
  held = inl (tally-zeros read_share n refl, sym (tally-zeros write_share n refl));
  runs = λ t. refl;
}

pub Reach-IsLocked : (n : ℕ) {s : Tasks} → n + 1 < locked → Reach n unused s → IsLocked n s
Reach-IsLocked n hn here = unused-IsLocked n
Reach-IsLocked n hn (next r step) = Step-IsLocked n hn step (Reach-IsLocked n hn r)

-- Whatever order the accesses of fewer than 2^32 - 2 tasks come in, while a task holds the lock to write, the
-- word says so and no other task holds the lock: to write, to read, or on its way out of `unlock_read`.
pub Reach-exclusive :
    (n : ℕ) (s : Tasks) (t k : ℕ)
    → n + 1 < locked
    → Reach n unused s
    → t < n
    → k < n
    → s.phase t ≡ writing
    → (t ≡ k → ⊥)
    → (s.mlock ≡ locked) × (read_share (s.phase k) ≡ 0) × (write_share (s.phase k) ≡ 0)
unfolding IsHeld
Reach-exclusive n s t k hn reach ht hk w ne =
    let v = Reach-IsLocked n hn reach in
    let one : write_share (s.phase t) ≡ 1 = ap write_share w ∙ writing_share in
    let e = tally-update write_share s.phase t outside n ht in
    let at = tally_at write_share s.phase t n ht in
    let reads = tally_at read_share s.phase k n hk in
    let other : update s.phase t outside k ≡ s.phase k = ground (arith, ne) in
    let writes : write_share (s.phase k) ≤ tally write_share (update s.phase t outside) n =
      subst (λ x. write_share x ≤ tally write_share (update s.phase t outside) n) other
        (tally_at write_share (update s.phase t outside) k n hk) in
    (
      ground (arith, v.held, at, one),
      ground (arith, v.held, reads, at, one),
      ground (arith, v.held, at, e, one, writes, outside_share),
    )

-- The assertions of `unlock_read` and `unlock_write` hold for fewer than 2^32 - 2 tasks, whatever order their
-- accesses come in.
pub Reach-has_failed :
    (n : ℕ) (s : Tasks) (t : ℕ) → n + 1 < locked → Reach n unused s → has_failed (s.phase t) ≡ false
Reach-has_failed n s t hn reach = let v = Reach-IsLocked n hn reach in v.runs t
