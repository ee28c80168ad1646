-- ===== src/Process/Threads/Cloned.antt =====
-- kernel.cc: what `clone` does to the table and the family.
use pug_os.Prelude.{
  ℕ, ◌-◌, ◌≤◌, ◌<◌, ◌≡◌, ◌≢◌, refl, sym, ◌∙◌, ap, ◌⊎◌, inl, inr, true, false, some, none, arith,
  update, count-nil, Option-cases, ◌>>=◌, ◌>>◌, check,
}
use pug_os.Process.{Kernel, Proc, nproc, is_broken, set_proc, free_proc, get_proc_slot}
use pug_os.Process.Family.{Family, kept-Family, listed}
use pug_os.Process.Child.{Ready, grown-Family}
use pug_os.Process.Slots.{slot_from-lowest}
use pug_os.Process.Threads.{sys_clone, clone_into, add_thread, new_thread, e_none}

-- The table is full, and the same procs are in it.
pub record NoSlot (s s' : Kernel) (r : ℕ) : Type 0 where
  pub result : r ≡ e_none
  pub same : s'.ptable ≡ s.ptable
  pub full : (j : ℕ) → 1 ≤ j → j < nproc → s.ptable j ≢ none

-- The thread takes the lowest free pid; it is of the same process and has the same parent.
pub record Spawned (s : Kernel) (me f : ℕ) (s' : Kernel) (r : ℕ) : Type 0 where
  pub positive : 1 ≤ r
  pub in_range : r < nproc
  pub free : s.ptable r ≡ none
  pub lowest : (j : ℕ) → 1 ≤ j → j < r → s.ptable j ≢ none
  pub ptable : s'.ptable ≡ update s.ptable r (some f)
  pub true_ptable : s'.true_ptable ≡ s.true_ptable
  pub pid : (s'.procs f).pid ≡ r
  pub true_pid : (s'.procs f).true_pid ≡ (s.procs me).true_pid
  pub ppid : (s'.procs f).ppid ≡ (s.procs me).ppid
  pub files : s'.files ≡ s.files

module _ (s : Kernel) (init : ℕ) (fam : Family s init) (me f : ℕ)
    (own : s.ptable (s.procs me).pid ≡ some me) (dead : (s.procs f).live ≡ false) where
  distinct : (j b : ℕ) → s.ptable j ≡ some b → b ≢ f
  distinct j b e h = ground (arith, fam.alive j b e, dead, h)

  -- The parent, which has a child that runs.
  parent :
      (q : ℕ) × (s.ptable (s.procs me).ppid ≡ some q)
      × (s.true_ptable (s.procs me).ppid ≡ some q)
      × ((s.procs q).pid ≡ (s.procs me).ppid)
      × ((s.procs q).live ≡ true)
      × (is_broken (s.procs q).state ≡ false)
  parent =
      let l : listed s me ≡ true = ground (arith, own) in
      elim (Option-cases (s.ptable (s.procs me).ppid)) [
        | inl e ↦ absurd (fam.parent me l e)
        | inr (q, e) ↦ (
          q,
          e,
          fam.descriptor me l ∙ e,
          fam.has_pid (s.procs me).ppid q e,
          fam.alive (s.procs me).ppid q e,
          ground (
            arith,
            fam.kids (s.procs me).ppid q me e,
            fam.childless q,
            fam.has_pid (s.procs me).ppid q e,
            count-nil me,
            fam.runs,
            fam.own_parent,
            fam.first,
            e,
            own,
          ),
        )
      ]

  abbrev thread : ℕ → Proc
  thread i = record (new_thread (s.procs me) (s.procs f)) { pid = i }

  module _ (i q : ℕ) (positive : 1 ≤ i) (range : i < nproc) (free : s.ptable i ≡ none) where
    ready :
        s.ptable (s.procs me).ppid ≡ some q
        → s.true_ptable (s.procs me).ppid ≡ some q
        → (s.procs q).pid ≡ (s.procs me).ppid
        → is_broken (s.procs q).state ≡ false
        → Ready s init fam q i f (thread i) s.true_ptable
    ready e d p b = record {
      own = ap s.ptable p ∙ e;
      own_descriptor = ap s.true_ptable p ∙ d;
      running = b;
      in_range = range;
      free = free;
      page = dead;
      live = refl;
      pid = refl;
      ppid = sym p;
      childless = refl;
      blank = refl;
      descriptors = λ j n. refl;
    }

    added-Spawned :
        q ≢ f
        → ((j : ℕ) → 1 ≤ j → j < i → s.ptable j ≢ none)
        → Spawned s me f (add_thread s f (new_thread (s.procs me) (s.procs f)) i q) i
    added-Spawned n low = record {
      positive = positive;
      in_range = range;
      free = free;
      lowest = low;
      ptable = refl;
      true_ptable = refl;
      pid = ground (arith, n);
      true_pid = ground (arith, n);
      ppid = ground (arith, n);
      files = refl;
    }

    clone_into-added :
        s.true_ptable (s.procs me).ppid ≡ some q
        → (s.procs q).live ≡ true
        → (p : Proc) → clone_into s me f p (some i) ≡ some (add_thread s f p i q, i)
    unfolding clone_into
    clone_into-added d l p =
        ap (λ o. o >>= λ q. check (s.procs q).live >> some (add_thread s f p i q, i)) d
        ∙ ap (λ b. check b >> some (add_thread s f p i q, i)) l

no_entry : (s : Kernel) (init : ℕ) → Family s init → s.ptable nproc ≡ none
no_entry s init fam = elim (Option-cases (s.ptable nproc)) [
  | inl e ↦ e
  | inr (a, e) ↦ absurd (omega (arith, fam.in_table nproc a e))
]

-- `clone` by a thread in the table keeps a family in order that is so and never faults, when there is a page for
-- the new proc that is in no use. It refuses when the table is full; otherwise the new thread takes the
-- lowest free pid from 1 on and is of the same process, with the same parent, on whose list it is now.
pub sys_clone-Spawned :
    (s : Kernel) (init : ℕ)
    → Family s init
    → (me f : ℕ) → s.ptable (s.procs me).pid ≡ some me
    → (s.procs f).live ≡ false
    → (s' : Kernel) × (r : ℕ) × (sys_clone s me (some f) ≡ some (s', r))
      × Family s' init
      × (NoSlot s s' r ⊎ Spawned s me f s' r)
unfolding sys_clone get_proc_slot clone_into
sys_clone-Spawned s init fam me f own dead =
    let p = new_thread (s.procs me) (s.procs f) in
    elim (slot_from-lowest s init fam (nproc - 1) 1) [
      | inl (e, all) ↦ (
        free_proc (set_proc s f p) f,
        e_none,
        ap (clone_into s me f p) e,
        kept-Family s init fam nproc (no_entry s init fam) (free_proc (set_proc s f p) f) f dead
            (λ j. refl) (λ j n. refl) (λ b n. ground arith),
        inl (record { result = refl; same = refl; full = λ j a b. all j a (omega arith) }),
      )
      | inr (i, e, a, b, free, low) ↦
          let (q, x, d, y, l, z) = parent s init fam me f own dead in
          (
            add_thread s f p i q,
            i,
            ap (clone_into s me f p) e
                ∙ clone_into-added s init fam me f own dead i q a (omega arith) free d l p,
            grown-Family s init fam q i f (thread s init fam me f own dead i) s.true_ptable
                (ready s init fam me f own dead i q a (omega arith) free x d y z) s.files,
            inr (
                added-Spawned s init fam me f own dead i q a (omega arith) free
                  (distinct s init fam me f own dead (s.procs me).ppid q x) low),
          )
    ]
