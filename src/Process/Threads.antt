-- ===== src/Process/Threads.antt =====
-- kernel.cc: the system calls `clone` and `texit`.
pub mod Cloned
use pug_os.Prelude.{
  ℕ, Bool, Option, some, none, if◌then◌else◌, update, ◌++◌, ◌∷◌, [], ◌>>=◌, ◌>>◌, ◌==◌, check, ◌^◌,
  ◌-◌,
}
use pug_os.Process.{
  Kernel, Proc, runnable, broken, new_proc, set_proc, free_proc, get_proc_slot, active_threads,
}
use pug_os.Process.Exit.{process_exit, with_status}

-- −1, in the register of the result.
abbrev pub e_none : ℕ
e_none = 2 ^ 64 - 1

-- The new thread, but for its pid, in a page that held `old`.
abbrev pub new_thread : Proc → Proc → Proc
new_thread me old = record (new_proc old) {
  ppid = me.ppid;
  true_pid = me.true_pid;
  state = runnable;
}

-- Only `ptable` has the thread; it is on the list of the process's own parent.
abbrev pub add_thread : Kernel → ℕ → Proc → ℕ → ℕ → Kernel
add_thread s f p i parent =
    let placed = record (set_proc s f (record p { pid = i })) {
      ptable = update s.ptable i (some f);
    } in
    set_proc placed parent
      (record (placed.procs parent) { children = (placed.procs parent).children ++ f ∷ [] })

unfoldable pub clone_into : Kernel → ℕ → ℕ → Proc → Option ℕ → Option (Kernel × ℕ)
clone_into s me f p none = some (free_proc (set_proc s f p) f, e_none)
clone_into s me f p (some i) = do
  parent ← s.true_ptable (s.procs me).ppid
  check (s.procs parent).live
  some (add_thread s f p i parent, i)

-- SYSCALL_CLONE, on the answer of `kalloc_proc`: a null pointer is followed. The page of the new proc is
-- no proc's that the search of the table would come by.
unfoldable pub sys_clone : Kernel → ℕ → Option ℕ → Option (Kernel × ℕ)
sys_clone s me none = none
sys_clone s me (some f) = clone_into s me f (new_thread (s.procs me) (s.procs f)) (get_proc_slot s)

-- SYSCALL_TEXIT
unfoldable pub sys_texit : (ℕ → Kernel → Kernel) → ℕ → Kernel → ℕ → ℕ → Option Kernel
sys_texit others fuel s a status =
    let left = with_status s a status in
    if active_threads s a == 1
    then process_exit others fuel s a status
    else some (set_proc left a (record (left.procs a) { state = broken }))
