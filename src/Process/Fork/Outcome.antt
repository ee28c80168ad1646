-- ===== src/Process/Fork/Outcome.antt =====
-- kernel.cc: what `process_fork` is called with, and how it may end.
use pug_os.Prelude.{
  ℕ, ◌+◌, ◌*◌, ◌-◌, ◌≤◌, ◌<◌, ◌≡◌, ◌≢◌, sym, ◌∙◌, ap, ◌⊎◌, inl, inr, true, false, some, none, arith,
  update, [], ◌∷◌, ◌++◌, lt_cases,
}
use std.Path.{fun_ext}
use pug_os.Files.{World, nfds}
use pug_os.Files.Inv.{Inv}
use pug_os.Files.Tables.{clear_table}
use pug_os.Files.Tables.Cloned.{Cloned}
use pug_os.Process.{Kernel, runnable, nproc, is_broken, e_mfile, e_nomem}
use pug_os.Process.Fork.{Supply}

-- The table is full, and nothing changes.
pub record Full (s s' : Kernel) (r : ℕ) : Type 0 where
  pub result : r ≡ e_mfile
  pub same : s' ≡ s
  pub full : (j : ℕ) → 1 ≤ j → j < nproc → s.ptable j ≢ none

-- One of the four allocations that a fork makes fails.
abbrev pub Lacks : Supply → Type 0
Lacks m = (m.page ≡ none) ⊎ (m.pagetable ≡ false) ⊎ (m.fdtable ≡ false) ⊎ (m.memory ≡ false)

-- There is a free pid but an allocation fails, and the same procs are in the table.
pub record NoMemory (s : Kernel) (m : Supply) (s' : Kernel) (r : ℕ) : Type 0 where
  pub lacks : Lacks m
  pub slot : (i : ℕ) × (1 ≤ i) × (i < nproc) × (s.ptable i ≡ none)
  pub result : r ≡ e_nomem
  pub same : (j : ℕ) → s'.ptable j ≡ s.ptable j

-- The child takes the lowest free pid, joins the end of its parent's list, and has the parent's table
-- of descriptors up to its first gap, with the reference counts in order.
pub record Born (s : Kernel) (og : ℕ) (m : Supply) (s' : Kernel) (r : ℕ) : Type 0 where
  pub f : ℕ
  pub free : s.ptable r ≡ none
  pub positive : 1 ≤ r
  pub in_range : r < nproc
  pub lowest : (j : ℕ) → 1 ≤ j → j < r → s.ptable j ≢ none
  pub page : m.page ≡ some f
  pub supply : (m.pagetable ≡ true) × (m.fdtable ≡ true) × (m.memory ≡ true)
  pub ptable : s'.ptable ≡ update s.ptable r (some f)
  pub pid : ((s'.procs f).pid ≡ r) × ((s'.procs f).true_pid ≡ r)
  pub ppid : (s'.procs f).ppid ≡ (s.procs og).pid
  pub state : (s'.procs f).state ≡ runnable
  pub children : (s'.procs og).children ≡ (s.procs og).children ++ f ∷ []
  pub others : (b : ℕ) → b ≢ f → b ≢ og → s'.procs b ≡ s.procs b
  pub inv : Inv s'.files
  pub files : Cloned (s.procs og).true_pid r 0 nfds s.files.slots s'.files.slots

-- The process that calls is in both tables and runs, and so is the first thread of it in the table.
pub record Caller (s : Kernel) (og : ℕ) : Type 0 where
  pub own : s.ptable (s.procs og).pid ≡ some og
  pub own_descriptor : s.true_ptable (s.procs og).pid ≡ some og
  pub running : is_broken (s.procs og).state ≡ false
  pub first_thread : s.ptable (s.procs og).true_pid ≢ none

-- The reference counts of the files are in order, and the table of a free pid has no entry in use.
pub record Tables (s : Kernel) : Type 0 where
  pub inv : Inv s.files
  pub unused : (i k : ℕ) → s.ptable i ≡ none → k < nfds → s.files.slots (i * nfds + k) ≡ none

pub clear_table-unused :
    (w : World) (i : ℕ) → ((k : ℕ) → k < nfds → w.slots (i * nfds + k) ≡ none) → clear_table w i ≡ w
unfolding clear_table
clear_table-unused w i free = ap (λ t. record w { slots = t }) (fun_ext entry)
  where
    entry : (j : ℕ) → (clear_table w i).slots j ≡ w.slots j
    entry j = elim (lt_cases j (i * nfds)) [
      | inl h ↦ ground arith
      | inr h ↦ elim (lt_cases (j - i * nfds) nfds) [
        | inl k ↦
            let at : i * nfds + (j - i * nfds) ≡ j = omega arith in
            let z : w.slots j ≡ none = sym (ap w.slots at) ∙ free (j - i * nfds) k in
            ground (arith, z)
        | inr k ↦ ground arith
      ]
    ]
