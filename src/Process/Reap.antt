-- ===== src/Process/Reap.antt =====
-- kernel.cc: `process_reap`.
use pug_os.Prelude.{
  ℕ, ◌≡◌, ◌≢◌, refl, sym, ◌∙◌, ap, inl, inr, Bool, true, false, Option, some, none, arith, ◌==◌,
  if◌then◌else◌, update, [], erase, count-erase, count-nil, erase-nil, check, ◌>>=◌, ◌>>◌,
  Option-cases, eq_cases,
}
use pug_os.Files.{World}
use pug_os.Files.Tables.{clear_table}
use pug_os.Process.{Kernel, State, blank, nproc, count_threads, set_proc, free_proc}
use pug_os.Process.Family.{Family, count_threads-quiet, listed}

-- Any state but `blank`.
abbrev pub is_set_up : State → Bool
is_set_up blank = false
is_set_up _ = true

-- The tables of descriptors without that of `p`, when `p` is the last thread of its process.
unfoldable pub tables_left : Kernel → ℕ → World
tables_left s a =
    let pid = (s.procs a).true_pid in
    if count_threads is_set_up s pid nproc == 1 then clear_table s.files pid else s.files

abbrev pub without_child : Kernel → ℕ → ℕ → Kernel
without_child s q a = set_proc s q (record (s.procs q) { children = erase a (s.procs q).children })

unfoldable pub take_out : Kernel → ℕ → ℕ → ℕ → Kernel
take_out s i a parent =
    let family = without_child s parent a in
    let freed = free_proc (record family { files = tables_left family a }) a in
    record freed {
      ptable = update freed.ptable i none;
      true_ptable = update freed.true_ptable i none;
    }

unfoldable pub reap_at : Kernel → ℕ → ℕ → Option (Kernel × ℕ)
reap_at s i a = do
  parent ← s.true_ptable (s.procs a).ppid
  check (s.procs parent).live
  some (take_out s i a parent, (s.procs a).exit_status)

-- The status is the exit status of the process reaped.
unfoldable pub process_reap : Kernel → ℕ → Option (Kernel × ℕ)
unfolding reap_at
process_reap s i = do a ← s.ptable i; reap_at s i a

-- What a reap leaves, but for the tables of descriptors.
abbrev pub reaped : Kernel → ℕ → ℕ → ℕ → World → Kernel
reaped s i a q w =
    let family =
      update s.procs q (record (s.procs q) { children = erase a (s.procs q).children }) in
    record s {
      ptable = update s.ptable i none;
      true_ptable = update s.true_ptable i none;
      procs = update family a (record (family a) { live = false });
      files = w;
    }

-- A process that is not the first, and has no children, leaves the table and its parent's list.
module _ (s : Kernel) (init : ℕ) (fam : Family s init) (i a q : ℕ) where
  still-listed :
      (w : World) (c : ℕ)
      → listed (reaped s i a q w) c ≡ true
      → (listed s c ≡ true) × ((s.procs c).pid ≢ i)
  still-listed w c h = ground arith

  not_its_child :
      (c : ℕ)
      → s.ptable i ≡ some a
      → i ≢ 1
      → (s.procs a).children ≡ []
      → listed s c ≡ true
      → (s.procs c).ppid ≢ i
  not_its_child c e n none_left l = elim (eq_cases (s.procs c).pid 1) [
    | inl one ↦ ground (arith, fam.first, fam.own_parent, l, one)
    | inr more ↦ ground (arith, fam.kids i a c, count-nil c, l, more)
  ]

  same_parent :
      (w : World) (c : ℕ)
      → (s.procs c).ppid ≢ i
      → ((reaped s i a q w).ptable ((reaped s i a q w).procs c).ppid ≡ s.ptable (s.procs c).ppid)
        × ((reaped s i a q w).true_ptable ((reaped s i a q w).procs c).ppid
            ≡ s.true_ptable (s.procs c).ppid)
  same_parent w c h = ground arith

  reaped-Family :
      (w : World)
      → s.ptable i ≡ some a
      → i ≢ 1
      → (s.procs a).children ≡ []
      → s.ptable (s.procs a).ppid ≡ some q
      → Family (reaped s i a q w) init
  reaped-Family w e n none_left d = record {
    in_table = λ j b h. ground (arith, fam.in_table j b);
    has_pid = λ j b h. ground (arith, fam.has_pid j b);
    alive = λ j b h. ground (arith, fam.alive j b, fam.has_pid j b, fam.has_pid i a);
    set_up = λ j b h. ground (arith, fam.set_up j b);
    first = ground (arith, fam.first);
    runs = ground (arith, fam.runs);
    own_parent = ground (arith, fam.own_parent);
    kids = λ j b c h. ground (
      arith,
      fam.kids j b c,
      fam.has_pid j b,
      fam.has_pid i a,
      count-erase a c (s.procs q).children,
      fam.has_pid (s.procs a).ppid q,
    );
    parent = λ c h.
        let (l, m) = still-listed w c h in
        let (x, y) = same_parent w c (not_its_child c e n none_left l) in
        λ z. fam.parent c l (sym x ∙ z);
    descriptor = λ c h.
        let (l, m) = still-listed w c h in
        let (x, y) = same_parent w c (not_its_child c e n none_left l) in
        y ∙ fam.descriptor c l ∙ sym x;
    childless = λ c h b. ground (arith, fam.childless c, fam.has_pid i a, erase-nil a);
  }

  parent_in_table : s.ptable i ≡ some a → (q' : ℕ) × (s.ptable (s.procs a).ppid ≡ some q')
  parent_in_table e = elim (Option-cases (s.ptable (s.procs a).ppid)) [
    | inl d ↦ absurd (fam.parent a (ground (arith, fam.has_pid i a, e)) d)
    | inr x ↦ x
  ]

-- The entry is free again and every other entry is as it was; the other procs keep their states, and
-- all but their lists of children; and the table of descriptors goes with the last thread that is set up.
pub record Reaped (s : Kernel) (i a : ℕ) (s' : Kernel) : Type 0 where
  pub ptable : s'.ptable ≡ update s.ptable i none
  pub true_ptable : s'.true_ptable ≡ update s.true_ptable i none
  pub gone : (s'.procs a).live ≡ false
  pub others :
      (b : ℕ) → b ≢ a → s'.procs b ≡ record (s.procs b) { children = (s'.procs b).children }
  pub files : s'.files ≡ tables_left s a

tables_left-without_child :
    (s : Kernel) (q a : ℕ) → tables_left (without_child s q a) a ≡ tables_left s a
unfolding tables_left
tables_left-without_child s q a = ground (
  arith,
  count_threads-quiet is_set_up s q (record (s.procs q) { children = erase a (s.procs q).children })
      (s.procs a).true_pid nproc refl refl,
)

take_out-reaped : (s : Kernel) (i a q : ℕ) → take_out s i a q ≡ reaped s i a q (tables_left s a)
unfolding take_out
take_out-reaped s i a q = rw (sym (tables_left-without_child s q a)) refl

reap_at-reaped :
    (s : Kernel) (i a q : ℕ)
    → s.true_ptable (s.procs a).ppid ≡ some q
    → (s.procs q).live ≡ true
    → reap_at s i a ≡ some (reaped s i a q (tables_left s a), (s.procs a).exit_status)
unfolding reap_at
reap_at-reaped s i a q d l =
    let found : reap_at s i a ≡ some (take_out s i a q, (s.procs a).exit_status) = rw (d, l) refl in
    found ∙ ap (λ k. some (k, (s.procs a).exit_status)) (take_out-reaped s i a q)

-- When the family is in order, a process in the table other than the first that has no children is
-- reaped without a fault, and the family is in order again; the reap frees its entry and its proc, keeps
-- every other one, and reports its exit status.
pub process_reap-Reaped :
    (s : Kernel) (init : ℕ)
    → Family s init
    → (i a : ℕ) → s.ptable i ≡ some a
    → i ≢ 1
    → (s.procs a).children ≡ []
    → (s' : Kernel) × (process_reap s i ≡ some (s', (s.procs a).exit_status))
      × Family s' init
      × Reaped s i a s'
unfolding process_reap
process_reap-Reaped s init fam i a e n none_left =
    let own : (s.procs a).pid ≡ i = fam.has_pid i a e in
    let l : listed s a ≡ true = ground (arith, e, own) in
    let (q, d) = parent_in_table s init fam i a 0 e in
    (
      reaped s i a q (tables_left s a),
      rw (e) (reap_at-reaped s i a q (fam.descriptor a l ∙ d) (fam.alive (s.procs a).ppid q d)),
      reaped-Family s init fam i a q (tables_left s a) e n none_left d,
      record {
        ptable = refl;
        true_ptable = refl;
        gone = ground arith;
        others = λ b m. ground arith;
        files = refl;
      },
    )
