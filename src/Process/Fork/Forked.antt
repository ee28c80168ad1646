-- ===== src/Process/Fork/Forked.antt =====
-- kernel.cc: what `process_fork` does.
use pug_os.Prelude.{
  ℕ, ◌+◌, ◌*◌, ◌-◌, ◌≤◌, ◌<◌, ◌≡◌, ◌≢◌, refl, ◌∙◌, ap, ap₂, subst, ◌⊎◌, inl, inr, true, false,
  Option, some, none, arith, update, Option-cases, Bool-cases,
}
use pug_os.Files.{World, nfds}
use pug_os.Files.Inv.{Inv}
use pug_os.Files.Tables.{clear_table, clone_fds}
use pug_os.Files.Tables.Cloned.{Cloned, clone_fds-Cloned}
use pug_os.Process.{Kernel, Proc, nproc, init_user, get_proc_slot, e_mfile, e_nomem, free_proc}
use pug_os.Process.Family.{Family, kept-Family, free-Family}
use pug_os.Process.Child.{Ready, grown-Family}
use pug_os.Process.Reap.{process_reap, process_reap-Reaped}
use pug_os.Process.Fork.{
  Supply, adopt, placed, fresh, set_entry, process_fork, fork_into, fork_at, with_tables,
  set_up_child, without_fdtable, copy_memory,
}
use pug_os.Process.Fork.Outcome.{Full, Lacks, NoMemory, Born, Caller, Tables, clear_table-unused}
use pug_os.Process.Slots.{slot_from-lowest}

copied : (k : Kernel) (m : Supply) (i : ℕ) → m.memory ≡ true → copy_memory k m i ≡ some (k, i)
copied k m i h = rw (h) refl

not_copied :
    (k k' : Kernel) (m : Supply) (i status : ℕ)
    → m.memory ≡ false
    → process_reap k i ≡ some (k', status)
    → copy_memory k m i ≡ some (k', e_nomem)
not_copied k k' m i status h e = rw (h, e) refl

module _ (s : Kernel) (init : ℕ) (fam : Family s init) (tabs : Tables s) (og : ℕ)
    (caller : Caller s og) (m : Supply) (i : ℕ) (positive : 1 ≤ i) (in_range : i < nproc)
    (free : s.ptable i ≡ none) (lowest : (j : ℕ) → 1 ≤ j → j < i → s.ptable j ≢ none) where
  module _ (f : ℕ) (page : m.page ≡ some f) (dead : (s.procs f).live ≡ false) where
    abbrev born : Proc
    born = record (init_user i (fresh (s.procs f))) { ppid = (s.procs og).pid }

    abbrev descriptors : ℕ → Option ℕ
    descriptors = update s.true_ptable i (some f)

    ready : Ready s init fam og i f born descriptors
    ready = record {
      own = caller.own;
      own_descriptor = caller.own_descriptor;
      running = caller.running;
      in_range = in_range;
      free = free;
      page = dead;
      live = refl;
      pid = refl;
      ppid = refl;
      childless = refl;
      blank = refl;
      descriptors = λ j n. ground arith;
    }

    distinct : og ≢ f
    distinct h = ground (arith, caller.own, fam.alive (s.procs og).pid og, dead, h)

    abbrev grown : World → Kernel
    grown w = adopt s og i f (init_user i (fresh (s.procs f))) w

    grown-Born :
        (w : World)
        → Inv w
        → Cloned (s.procs og).true_pid i 0 nfds s.files.slots w.slots
        → (m.pagetable ≡ true) × (m.fdtable ≡ true) × (m.memory ≡ true)
        → Born s og m (grown w) i
    grown-Born w inv c supply = record {
      f = f;
      free = free;
      positive = positive;
      lowest = lowest;
      page = page;
      supply = supply;
      in_range = in_range;
      ptable = refl;
      pid = (ground (arith, distinct), ground (arith, distinct));
      ppid = ground (arith, distinct);
      state = ground (arith, distinct);
      children = ground (arith, distinct);
      others = λ b x y. ground arith;
      inv = inv;
      files = c;
    }

    process : (t : ℕ) × (t ≡ (s.procs og).true_pid) × (t < nproc) × (t ≢ i)
    process = elim (Option-cases (s.ptable (s.procs og).true_pid)) [
      | inl e ↦ absurd (caller.first_thread e)
      | inr (a, e) ↦ (
        (s.procs og).true_pid,
        refl,
        fam.in_table (s.procs og).true_pid a e,
        λ h. caller.first_thread (ap s.ptable h ∙ free),
      )
    ]

    cloned :
        (w : World) × (clone_fds (clear_table s.files i) (s.procs og).true_pid i ≡ some w)
        × Inv w
        × Cloned (s.procs og).true_pid i 0 nfds s.files.slots w.slots
    cloned =
        let (t, same, a, n) = process in
        let empty : (k : ℕ) → k < nfds → s.files.slots (i * nfds + k) ≡ none =
          λ k h. tabs.unused i k free h in
        let (w, e, inv, c) =
          clone_fds-Cloned (s.procs og).true_pid i (subst (λ t. t < nproc) same a) in_range
            (subst (λ t. t ≢ i) same n) s.files tabs.inv empty in
        (
          w,
          ap (λ x. clone_fds x (s.procs og).true_pid i) (clear_table-unused s.files i empty) ∙ e,
          inv,
          c,
        )

    undone :
        (w : World)
        → m.memory ≡ false
        → (s' : Kernel) × (process_reap (grown w) i ≡ some (s', ((grown w).procs f).exit_status))
          × Family s' init
          × NoMemory s m s' e_nomem
    undone w lack =
        let (s', e, fam', r) =
          process_reap-Reaped (grown w) init
            (grown-Family s init fam og i f born descriptors ready w) i f (ground arith)
            (λ h. ground (arith, fam.first, free, h)) (ground (arith, distinct)) in
        (
          s',
          e,
          fam',
          record {
            lacks = inr (inr (inr lack));
            slot = (i, positive, in_range, free);
            result = refl;
            same = λ j. ap (λ t. t j) r.ptable ∙ ground (arith, free);
          },
        )

    set_up_child-grown :
        (w : World)
        → clone_fds (clear_table s.files i) (s.procs og).true_pid i ≡ some w
        → set_up_child s og m i f ≡ copy_memory (grown w) m i
    unfolding set_up_child
    set_up_child-grown w e = rw (e) refl

    set_up_child-Outcome :
        m.pagetable ≡ true
        → m.fdtable ≡ true
        → (s' : Kernel) × (r : ℕ) × (set_up_child s og m i f ≡ some (s', r))
          × Family s' init
          × (NoMemory s m s' r ⊎ Born s og m s' r)
    set_up_child-Outcome has_pagetable has_fdtable =
        let (w, e, inv, c) = cloned in
        elim (Bool-cases m.memory) [
          | inl y ↦ (
            grown w,
            i,
            set_up_child-grown w e ∙ copied (grown w) m i y,
            grown-Family s init fam og i f born descriptors ready w,
            inr (grown-Born w inv c (has_pagetable, has_fdtable, y)),
          )
          | inr y ↦
              let (s', u, fam', r) = undone w y in
              (
                s',
                e_nomem,
                set_up_child-grown w e
                    ∙ not_copied (grown w) s' m i ((grown w).procs f).exit_status y u,
                fam',
                inl r,
              )
        ]

  -- Each of the early returns leaves the entry free.
  early-Family :
      (s' : Kernel) (f : ℕ)
      → (s.procs f).live ≡ false
      → ((j : ℕ) → s'.ptable j ≡ s.ptable j)
      → ((j : ℕ) → j ≢ i → s'.true_ptable j ≡ s.true_ptable j)
      → ((b : ℕ) → b ≢ f → s'.procs b ≡ s.procs b)
      → Family s' init
  early-Family s' f dead same same_descriptor others =
      kept-Family s init fam i free s' f dead same same_descriptor others

  short_of :
      (s' : Kernel) → Lacks m → ((j : ℕ) → s'.ptable j ≡ s.ptable j) → NoMemory s m s' e_nomem
  short_of s' lacks same = record {
    lacks = lacks;
    slot = (i, positive, in_range, free);
    result = refl;
    same = same;
  }

  abbrev no_pagetable : ℕ → Kernel
  no_pagetable f = set_entry (free_proc (placed s i f (fresh (s.procs f))) f) i none

  fork_at-Outcome :
      (f : ℕ)
      → m.page ≡ some f
      → (s.procs f).live ≡ false
      → (s' : Kernel) × (r : ℕ) × (fork_at s og m i (some f) ≡ some (s', r))
        × Family s' init
        × (NoMemory s m s' r ⊎ Born s og m s' r)
  unfolding fork_at with_tables
  fork_at-Outcome f page dead = elim (Bool-cases m.pagetable) [
    | inl y ↦ elim (Bool-cases m.fdtable) [
      | inl z ↦
          let (s', r, e, fam', o) = set_up_child-Outcome f page dead y z in
          (s', r, ap₂ (with_tables s og m i f) y z ∙ e, fam', o)
      | inr z ↦ (
        without_fdtable s i f,
        e_nomem,
        ap₂ (with_tables s og m i f) y z,
        early-Family (without_fdtable s i f) f dead (λ j. ground (arith, free))
            (λ j n. ground arith) (λ b n. ground arith),
        inl (short_of (without_fdtable s i f) (inr (inr (inl z))) λ j. ground (arith, free)),
      )
    ]
    | inr y ↦ (
      no_pagetable f,
      e_nomem,
      ap (λ b. with_tables s og m i f b m.fdtable) y,
      early-Family (no_pagetable f) f dead (λ j. ground (arith, free)) (λ j n. ground arith)
          (λ b n. ground arith),
      inl (short_of (no_pagetable f) (inr (inl y)) λ j. ground (arith, free)),
    )
  ]

-- `process_fork` keeps a family in order that is so on every path and never faults, when the process that
-- calls and the tables of descriptors are in order and the allocator hands out a page that is in no
-- use. It answers E_MFILE only when the table is full, and changes nothing; E_NOMEM only when a pid is
-- free and one of the four allocations fails, and the same procs are in the table; otherwise a pid is
-- free, all four allocations succeed, and the child takes the lowest free pid, joins the end of its
-- parent's list, and has its parent's table of descriptors up to the first gap.
pub process_fork-Forked :
    (s : Kernel) (init : ℕ)
    → Family s init
    → Tables s
    → (og : ℕ) → Caller s og
    → (m : Supply) → ((f : ℕ) → m.page ≡ some f → (s.procs f).live ≡ false)
    → (s' : Kernel) × (r : ℕ) × (process_fork s og m ≡ some (s', r))
      × Family s' init
      × (Full s s' r ⊎ (NoMemory s m s' r ⊎ Born s og m s' r))
unfolding process_fork fork_into fork_at get_proc_slot
process_fork-Forked s init fam tabs og caller m pages =
    elim (slot_from-lowest s init fam (nproc - 1) 1) [
      | inl (e, all) ↦ (
        s,
        e_mfile,
        ap (fork_into s og m) e,
        fam,
        inl (record { result = refl; same = refl; full = λ j a b. all j a (omega arith) }),
      )
      | inr (i, e, a, b, free, low) ↦ elim (Option-cases m.page) [
        | inl z ↦ (
          set_entry s i none,
          e_nomem,
          ap (fork_into s og m) e ∙ ap (fork_at s og m i) z,
          free-Family s init fam i free,
          inr (
              inl (
                short_of s init fam tabs og caller m i a (omega arith) free low (set_entry s i none)
                  (inl z) λ j. ground (arith, free))),
        )
        | inr (f, z) ↦
            let (s', r, x, fam', o) =
              fork_at-Outcome s init fam tabs og caller m i a (omega arith) free low f z
                (pages f z) in
            (s', r, ap (fork_into s og m) e ∙ ap (fork_at s og m i) z ∙ x, fam', inr o)
      ]
    ]
