-- ===== src/Process/Exit/Whole.antt =====
-- kernel.cc: `process_exit` from its call on, for the last thread of a process, and for the first process.
use pug_os.Prelude.{
  ℕ, ◌+◌, ◌≤◌, ◌<◌, ◌≡◌, ◌≢◌, refl, sym, ◌∙◌, ap, subst, false, Option, some, arith, List, length,
  [], ltb,
}
use pug_os.Files.Inv.{Inv}
use pug_os.Process.{Kernel, nproc, broken, set_proc, active_threads, is_active, count_threads}
use pug_os.Process.Family.{Family, count_threads-quiet}
use pug_os.Process.Exit.{reparent, finish_exit, exit_from, with_status, process_exit}
use pug_os.Process.Exit.Move.{quiet-Family}
use pug_os.Process.Exit.Exited.{Ended, finish_exit-Ended}

exit_from-alone :
    (others : ℕ → Kernel → Kernel) (fuel : ℕ) (s : Kernel) (a : ℕ)
    → active_threads s a ≤ 1
    → exit_from others fuel s a ≡ finish_exit fuel s a
unfolding exit_from
exit_from-alone others fuel s a alone =
    let e : ltb 1 (active_threads s a) ≡ false = ground (arith, alone) in rw (e) refl

active_threads-with_status :
    (s : Kernel) (a status : ℕ) → active_threads (with_status s a status) a ≡ active_threads s a
unfolding active_threads
active_threads-with_status s a status =
    let t : ((with_status s a status).procs a).true_pid ≡ (s.procs a).true_pid = ground arith in
    ap (λ t. count_threads is_active (with_status s a status) t nproc) t
    ∙ count_threads-quiet is_active s a (record (s.procs a) { exit_status = status })
        (s.procs a).true_pid nproc refl refl

process_exit-alone :
    (others : ℕ → Kernel → Kernel) (fuel : ℕ) (s : Kernel) (a status : ℕ)
    → active_threads s a ≤ 1
    → process_exit others fuel s a status ≡ finish_exit fuel (with_status s a status) a
unfolding process_exit
process_exit-alone others fuel s a status alone =
    exit_from-alone others fuel (with_status s a status) a
      (subst (λ n. n ≤ 1) (sym (active_threads-with_status s a status)) alone)

-- Nothing that the exit goes by depends on the status but the status itself.
with_status_other :
    (s : Kernel) (a status b : ℕ)
    → (with_status s a status).procs b
      ≡ record (s.procs b) { exit_status = ((with_status s a status).procs b).exit_status }
with_status_other s a status b = ground arith

-- When the family and the reference counts of the files are in order, the exit of a process other than the
-- first, by a thread that is in the table and is its only active one, never faults and ends, with fuel
-- for each of its children. The family is in order again: the process has ended with its status, its
-- children are the first process's, a parent that was blocked is interrupted, and the reference counts
-- are in order once its table of descriptors is deleted.
pub process_exit-Ended :
    (others : ℕ → Kernel → Kernel) (s : Kernel) (init : ℕ)
    → Family s init
    → Inv s.files
    → (fuel a status : ℕ) → s.ptable (s.procs a).pid ≡ some a
    → a ≢ init
    → (s.procs a).true_pid < nproc
    → active_threads s a ≤ 1
    → length (s.procs a).children ≤ fuel
    → (s' : Kernel) × (process_exit others fuel s a status ≡ some s')
      × Family s' init
      × Ended (with_status s a status) a init status s'
process_exit-Ended others s init fam inv fuel a status own other range alone enough =
    let s0 = with_status s a status in
    let u = with_status_other s a status in
    let fam0 : Family s0 init =
      quiet-Family s init fam a (record (s.procs a) { exit_status = status }) refl refl refl refl
        (fam.set_up (s.procs a).pid a own) (λ e. absurd (other e)) (fam.childless a) in
    let (s', e, fam', d) =
      finish_exit-Ended s0 init fam0 inv fuel a (ap (λ p. s.ptable p.pid) (u a) ∙ own) other
        (subst (λ x. x < nproc) (ap (λ p. p.true_pid) (sym (u a))) range)
        (subst (λ l. length l ≤ fuel) (ap (λ p. p.children) (sym (u a))) enough) in
    let code : (s0.procs a).exit_status ≡ status = ground arith in
    (
      s',
      process_exit-alone others fuel s a status alone ∙ e,
      fam',
      subst (λ c. Ended s0 a init c s') code d,
    )

-- After `n` rounds none has faulted, and the first process still has a child to move.
abbrev pub Goes : ℕ → Kernel → ℕ → List ℕ → Type 0
Goes n s init l =
    (t : Kernel) × ((t.procs init).children ≢ [])
    × ((m : ℕ) → reparent (m + n) s init l ≡ reparent m t init (t.procs init).children)

-- The end of `process_exit`, behind the loop.
abbrev pub end_of : ℕ → Kernel → Option Kernel
end_of a s = some (set_proc s a (record (s.procs a) { state = broken }))
