-- ===== src/Process/Fork.antt =====
-- kernel.cc: `process_fork`.

pub mod Outcome
pub mod Forked
use pug_os.Prelude.{
  ℕ, Bool, Option, some, none, if◌then◌else◌, update, ◌++◌, ◌∷◌, [], ◌>>=◌, true, false,
}
use pug_os.Files.{World}
use pug_os.Files.Tables.{clear_table, clone_fds}
use pug_os.Process.{
  Kernel, Proc, broken, new_proc, init_user, set_proc, free_proc, slot_from, get_proc_slot, e_mfile,
  e_nomem,
}
use pug_os.Process.Reap.{process_reap}

-- What the allocators answer: the page of `kalloc_proc`, and whether there is memory for the page
-- table, for the table of descriptors, and for the copies of the parent's pages and their mappings.
pub record Supply : Type 0 where
  pub page : Option ℕ
  pub pagetable : Bool
  pub fdtable : Bool
  pub memory : Bool

abbrev pub set_entry : Kernel → ℕ → Option ℕ → Kernel
set_entry s i x = record s { ptable = update s.ptable i x; true_ptable = update s.true_ptable i x }

-- The proc that is set in both tables first: `broken` until the fork is done.
abbrev pub fresh : Proc → Proc
fresh old = record (new_proc old) { state = broken }

abbrev pub placed : Kernel → ℕ → ℕ → Proc → Kernel
placed s i f p = set_proc (set_entry s i (some f)) f p

-- `fproc->ppid_ = ogproc->pid_; ogproc->children_.push_back(fproc)`
abbrev pub adopt : Kernel → ℕ → ℕ → ℕ → Proc → World → Kernel
adopt s og i f p w =
    let child = placed s i f (record p { ppid = (s.procs og).pid }) in
    set_proc (record child { files = w }) og
      (record (child.procs og) { children = (child.procs og).children ++ f ∷ [] })

-- The rest of the fork, or its undoing.
abbrev pub copy_memory : Kernel → Supply → ℕ → Option (Kernel × ℕ)
copy_memory s m i =
    if m.memory then some (s, i) else (process_reap s i >>= λ (s', status). some (s', e_nomem))

unfoldable pub set_up_child : Kernel → ℕ → Supply → ℕ → ℕ → Option (Kernel × ℕ)
set_up_child s og m i f = do
  w ← clone_fds (clear_table s.files i) (s.procs og).true_pid i
  copy_memory (adopt s og i f (init_user i (fresh (s.procs f))) w) m i

-- Without memory for the table of descriptors, only `ptable` loses its entry.
abbrev pub without_fdtable : Kernel → ℕ → ℕ → Kernel
without_fdtable s i f =
    let ready = placed s i f (init_user i (fresh (s.procs f))) in
    let freed = free_proc ready f in record freed { ptable = update freed.ptable i none }

-- Whether the page table and the table of descriptors are there.
unfoldable pub with_tables : Kernel → ℕ → Supply → ℕ → ℕ → Bool → Bool → Option (Kernel × ℕ)
with_tables s og m i f false fdtable =
    some (set_entry (free_proc (placed s i f (fresh (s.procs f))) f) i none, e_nomem)
with_tables s og m i f true false = some (without_fdtable s i f, e_nomem)
with_tables s og m i f true true = set_up_child s og m i f

unfoldable pub fork_at : Kernel → ℕ → Supply → ℕ → Option ℕ → Option (Kernel × ℕ)
fork_at s og m i none = some (set_entry s i none, e_nomem)
fork_at s og m i (some f) = with_tables s og m i f m.pagetable m.fdtable

unfoldable pub fork_into : Kernel → ℕ → Supply → Option ℕ → Option (Kernel × ℕ)
fork_into s og m none = some (s, e_mfile)
fork_into s og m (some i) = fork_at s og m i m.page

-- The search is the loop of `get_proc_slot`, written out once more.
unfoldable pub process_fork : Kernel → ℕ → Supply → Option (Kernel × ℕ)
process_fork s og m = fork_into s og m (get_proc_slot s)
