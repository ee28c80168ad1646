-- ===== src/Process/Waitpid/Answer.antt =====
-- kernel.cc: the answers of `waitpid` for one child, with W_NOHANG.
use pug_os.Prelude.{
  ℕ, suc, ◌<◌, ◌≡◌, ◌≢◌, refl, ◌∙◌, ap, true, false, not, ◌&&◌, ◌||◌, some, none, arith, ◌==◌,
  if◌then◌else◌, inl, inr, ◌⊎◌, Option-cases, eq_cases, ◌>>=◌, ltb,
}
use pug_os.Process.{Kernel, nproc, e_child, e_again}
use pug_os.Process.Family.{Family}
use pug_os.Process.Waitpid.{
  Gaps, still, Waiting, start, answer, wait_round, wait_loop, reap_threads, no_child,
  no_threads_left, sys_waitpid,
}
use pug_os.Process.Waitpid.Threads.{is_over, reap_threads-Cleared}

-- The child is not the caller's, and nothing changes.
pub record NotMine (s : Kernel) (me child : ℕ) (s' : Kernel) (r : ℕ) : Type 0 where
  pub result : r ≡ e_child
  pub same : s' ≡ s
  pub why : (c : ℕ) → s.ptable child ≡ some c → (s.procs c).ppid ≢ (s.procs me).pid

-- The child is the caller's.
pub record Mine (s : Kernel) (me child : ℕ) : Type 0 where
  c : ℕ
  pub there : s.ptable child ≡ some c
  pub own : (s.procs c).ppid ≡ (s.procs me).pid

-- None of its threads has ended, and nothing changes.
pub record Busy (s : Kernel) (child : ℕ) (s' : Kernel) (r : ℕ) : Type 0 where
  pub result : r ≡ e_again
  pub same : s' ≡ s
  pub runs : (j : ℕ) → j < nproc → is_over s child j ≡ false

-- Some of its threads have ended: exactly their entries are free now.
pub record Done (s : Kernel) (child : ℕ) (s' : Kernel) (r : ℕ) : Type 0 where
  j : ℕ
  pub result : r ≡ child
  pub over : is_over s child j ≡ true
  pub ptable : (j : ℕ) → s'.ptable j ≡ (if is_over s child j then none else s.ptable j)

whose :
    (s : Kernel) (me child : ℕ)
    → 0 < child
    → 0 < (s.procs me).pid
    → ((no_child s me child ≡ true)
        × ((c : ℕ) → s.ptable child ≡ some c → (s.procs c).ppid ≢ (s.procs me).pid))
      ⊎ ((no_child s me child ≡ false) × Mine s me child)
unfolding no_child
whose s me child a b = elim (Option-cases (s.ptable child)) [
  | inl e ↦ inl (ground (arith, e, a, b), λ c d. absurd (ground (arith, e, d)))
  | inr (c, e) ↦ elim (eq_cases (s.procs c).ppid (s.procs me).pid) [
    | inl x ↦ inr (ground (arith, e, a, x), record { c = c; there = e; own = x })
    | inr x ↦ inl (ground (arith, e, a, x), λ d h y. x (ground (arith, e, h, y)))
  ]
]

wait_loop-once :
    (others : ℕ → Kernel → Kernel) (gaps : ℕ → Gaps) (n : ℕ) (v v' : Waiting) (me child : ℕ)
    → gaps n ≡ still
    → 0 < child
    → reap_threads still v child nproc 0 ≡ some v'
    → wait_loop others gaps (suc n) v me child true ≡ some v'
unfolding wait_loop
wait_loop-once others gaps n v v' me child alone a e =
    let z : (child == 0) ≡ false = ground arith in
    let once : wait_round (gaps n) v me child ≡ some v' = rw (alone, z) e in
    ap
      (λ o. o >>= λ v'.
        if (not (v'.to_reap == 0) && no_threads_left v'.kernel child) || true
        then some v'
        else wait_loop others gaps n (record v' { kernel = others n v'.kernel }) me child true)
      once
    ∙ ground arith

sys_waitpid-round :
    (others : ℕ → Kernel → Kernel) (gaps : ℕ → Gaps) (n : ℕ) (s : Kernel) (v' : Waiting)
    (me child : ℕ)
    → gaps n ≡ still
    → 0 < child
    → child < nproc
    → no_child s me child ≡ false
    → reap_threads still (start s) child nproc 0 ≡ some v'
    → sys_waitpid others gaps (suc n) s me child true ≡ some (answer true v')
unfolding sys_waitpid
sys_waitpid-round others gaps n s v' me child alone a b h e =
    let c : ltb child nproc ≡ true = ground arith in
    rw (c, h, wait_loop-once others gaps n (start s) v' me child alone a e) refl

answer_child :
    (v : Waiting) (child : ℕ)
    → 0 < child
    → v.to_reap ≡ child
    → answer true v ≡ (v.kernel, child, v.exit_status)
answer_child v child a e =
    let z : (v.to_reap == 0) ≡ false = ground (arith, e) in
    rw (z) (ap (λ t. (v.kernel, t, v.exit_status)) e)

-- When the family is in order, and nothing else changes the kernel while the call has dropped ptable_lock
-- around a `process_reap`, `waitpid` for one child with W_NOHANG ends after one round and never faults; it leaves the family in order. It answers E_CHILD and changes nothing when the process
-- is not the child's parent, and E_AGAIN, and changes nothing, when no thread of the child has ended.
-- Otherwise it answers the child's pid, and the entries that it frees are exactly those of the threads
-- of the child that have ended.
pub sys_waitpid-Answered :
    (others : ℕ → Kernel → Kernel) (gaps : ℕ → Gaps) (n : ℕ)
    → gaps n ≡ still
    → (s : Kernel) (init : ℕ) → Family s init
    → (me child : ℕ) → 0 < (s.procs me).pid
    → 0 < child
    → child < nproc
    → (s' : Kernel) × (r status : ℕ) × (sys_waitpid others gaps (suc n) s me child true
        ≡ some (s', r, status))
      × Family s' init
      × (NotMine s me child s' r ⊎ (Mine s me child × (Busy s child s' r ⊎ Done s child s' r)))
unfolding sys_waitpid
sys_waitpid-Answered others gaps n alone s init fam me child p a b = elim (whose s me child a p) [
  | inl (h, why) ↦
      let c : ltb child nproc ≡ true = ground arith in
      (s, e_child, 0, rw (c, h) refl, fam, inl (record { result = refl; same = refl; why = why }))
  | inr (h, mine) ↦
      let (v', e, fam', c) = reap_threads-Cleared nproc 0 (start s) init child (omega arith) fam in
      let round = sys_waitpid-round others gaps n s v' me child alone a b h e in
      elim c.result [
        | inl (x, all) ↦ (
          s,
          e_again,
          0,
          round ∙ ap (λ v. some (answer true v)) x,
          fam,
          inr (
            mine,
            inl (record { result = refl; same = refl; runs = λ j d. all j (omega arith) d }),
          ),
        )
        | inr (x, (j, d, o)) ↦ (
          v'.kernel,
          child,
          v'.exit_status,
          round ∙ ap some (answer_child v' child a x),
          fam',
          inr (
            mine,
            inr (record {
              j = j;
              result = refl;
              over = o;
              ptable = λ k. c.ptable k ∙ ground arith;
            }),
          ),
        )
      ]
]
