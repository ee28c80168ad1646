-- ===== src/Process/Exit.antt =====
-- kernel.cc: `process_exit`.
pub mod Move
pub mod Exited
pub mod Whole
use pug_os.Prelude.{
  ℕ, zero, suc, ◌+◌, ◌-◌, Bool, true, false, not, ◌&&◌, Option, some, none, ◌==◌, ltb,
  if◌then◌else◌, update, List, [], ◌∷◌, ◌++◌, ◌>>=◌,
}
use pug_os.Files.Tables.{close_all}
use pug_os.Process.{
  Kernel, Proc, State, runnable, broken, nproc, is_blocked, is_broken, is_thread, set_proc,
  active_threads,
}

-- Another thread of the process of `a` that has not ended.
unfoldable pub is_other : Kernel → ℕ → Option ℕ → Bool
is_other s a none = false
is_other s a (some b) =
    ((s.procs b).true_pid == (s.procs a).true_pid)
    && not (is_broken (s.procs b).state)
    && not ((s.procs b).pid == (s.procs a).pid)

set_exiting : Kernel → Option ℕ → Kernel
set_exiting s none = s
set_exiting s (some b) = set_proc s b (record (s.procs b) { exiting = true })

-- The other threads are told to exit: the entries from `i` on, of which there are `n`.
unfoldable pub mark_from : Kernel → ℕ → ℕ → ℕ → Kernel
unfolding set_exiting
mark_from s a zero i = s
mark_from s a (suc n) i =
    mark_from (if is_other s a (s.ptable i) then set_exiting s (s.ptable i) else s) a n (suc i)

-- `proc::wake`, but for the run queue.
abbrev pub wake : Proc → Proc
wake p = if is_blocked p.state then record p { state = runnable } else p

rouse : Kernel → Option ℕ → Kernel
rouse s none = s
rouse s (some b) = set_proc s b (wake (record (s.procs b) { exiting = true }))

-- The condition that `process_exit` waits for. While it is false, the first of the other threads is
-- told to exit once more, and woken.
unfoldable pub threads_gone : Kernel → ℕ → ℕ → ℕ → Kernel × Bool
unfolding rouse
threads_gone s a zero i = (s, true)
threads_gone s a (suc n) i =
    let rest = threads_gone s a n (suc i) in
    if is_other s a (s.ptable i) then (rouse s (s.ptable i), false) else rest

-- How the wait ends: the others are gone, or the thread has been told to exit itself.
pub data Waited : Type 0 where
  gone died : Kernel → Waited

-- `block_until`; `others n s` is what the rest of the machine makes of `s` while the thread is blocked
-- with `n` rounds left.
unfoldable pub wait_threads : (ℕ → Kernel → Kernel) → ℕ → Kernel → ℕ → Option Waited
wait_threads others zero s a = none
wait_threads others (suc n) s a =
    let (s', done) = threads_gone s a nproc 0 in
    let rest = wait_threads others n (others n s') a in
    if (s.procs a).exiting
    then some (died (set_proc s a (record (s.procs a) { state = broken })))
    else (if done then some (gone s') else rest)

-- The parent is interrupted if it is blocked.
unfoldable pub interrupt : Kernel → Option ℕ → Kernel
interrupt s none = s
interrupt s (some d) =
    if is_blocked (s.procs d).state
    then set_proc s d (wake (record (s.procs d) { interrupted = true }))
    else s

-- One child, the first on the list of `a`, goes to the process 1.
abbrev pub move_child : Kernel → ℕ → ℕ → List ℕ → ℕ → Kernel
move_child s a c cs init =
    let popped = set_proc s a (record (s.procs a) { children = cs }) in
    let given = set_proc popped c (record (popped.procs c) { ppid = 1 }) in
    set_proc given init
      (record (given.procs init) { children = (given.procs init).children ++ c ∷ [] })

-- The loop that does it, on fuel; without a process 1 it faults.
unfoldable pub reparent : ℕ → Kernel → ℕ → List ℕ → Option Kernel
reparent n s a [] = some s
reparent zero s a (c ∷ cs) = none
reparent (suc n) s a (c ∷ cs) = s.ptable 1 >>= λ init.
    let s' = move_child s a c cs init in reparent n s' a (s'.procs a).children

-- What follows the wait.
unfoldable pub finish_exit : ℕ → Kernel → ℕ → Option Kernel
finish_exit fuel s a = do
  w ← close_all s.files (s.procs a).true_pid
  let told = interrupt (record s { files = w }) (s.ptable (s.procs a).ppid)
  s' ← reparent fuel told a (told.procs a).children
  some (set_proc s' a (record (s'.procs a) { state = broken }))

after_wait : ℕ → ℕ → Waited → Option Kernel
after_wait fuel a (gone s) = finish_exit fuel s a
after_wait fuel a (died s) = some s

unfoldable pub exit_from : (ℕ → Kernel → Kernel) → ℕ → Kernel → ℕ → Option Kernel
unfolding after_wait
exit_from others fuel s a =
    if ltb 1 (active_threads s a)
    then (wait_threads others fuel (mark_from s a nproc 0) a >>= after_wait fuel a)
    else finish_exit fuel s a

abbrev pub with_status : Kernel → ℕ → ℕ → Kernel
with_status s a status = set_proc s a (record (s.procs a) { exit_status = status })

unfoldable pub process_exit : (ℕ → Kernel → Kernel) → ℕ → Kernel → ℕ → ℕ → Option Kernel
process_exit others fuel s a status = exit_from others fuel (with_status s a status) a
