-- ===== src/Process/Family.antt =====
-- kernel.hh: which process is on which list of children.
use pug_os.Prelude.{
  ℕ, suc, zero, ◌<◌, ◌≡◌, ◌≢◌, refl, Bool, true, false, not, ◌&&◌, some, none, arith, ◌==◌,
  if◌then◌else◌, update, [], count, inl, inr, eq_cases, Option-cases, sym, ◌∙◌, ap, subst,
}
use std.Path.{fun_ext}
use pug_os.Files.{World}
use pug_os.Files.Inv.{is_at}
use pug_os.Process.{State, count_threads, set_proc, Kernel, Proc, nproc, is_broken, is_blank}

-- The proc is the one that its pid leads to.
abbrev pub listed : Kernel → ℕ → Bool
listed s a = is_at (s.ptable (s.procs a).pid) a

-- It is a child of the process `i`. The first process is nobody's child.
abbrev pub is_child : Kernel → ℕ → ℕ → Bool
is_child s i a = listed s a && ((s.procs a).ppid == i) && not ((s.procs a).pid == 1)

-- The table and the family are in order: an entry leads to a proc of that pid that is
-- not blank; the first process is
-- there and has not ended; every proc is once on the list of the process that its `ppid` names, and on no other; that
-- process is in both tables; and a process that has ended has no children.
pub record Family (s : Kernel) (init : ℕ) : Type 0 where
  pub in_table : (i a : ℕ) → s.ptable i ≡ some a → i < nproc
  pub has_pid : (i a : ℕ) → s.ptable i ≡ some a → (s.procs a).pid ≡ i
  pub alive : (i a : ℕ) → s.ptable i ≡ some a → (s.procs a).live ≡ true
  pub set_up : (i a : ℕ) → s.ptable i ≡ some a → is_blank (s.procs a).state ≡ false
  pub first : s.ptable 1 ≡ some init
  pub runs : is_broken (s.procs init).state ≡ false
  pub own_parent : (s.procs init).ppid ≡ 1
  pub kids :
      (i a c : ℕ)
      → s.ptable i ≡ some a
      → count c (s.procs a).children ≡ (if is_child s i c then 1 else 0)
  pub parent : (c : ℕ) → listed s c ≡ true → s.ptable (s.procs c).ppid ≢ none
  pub descriptor :
      (c : ℕ) → listed s c ≡ true → s.true_ptable (s.procs c).ppid ≡ s.ptable (s.procs c).ppid
  pub childless :
      (c : ℕ) → listed s c ≡ true → is_broken (s.procs c).state ≡ true → (s.procs c).children ≡ []

pub files-Family :
    (s : Kernel) (init : ℕ) (w : World) → Family s init → Family (record s { files = w }) init
files-Family s init w fam = record {
  in_table = fam.in_table;
  has_pid = fam.has_pid;
  alive = fam.alive;
  set_up = fam.set_up;
  first = fam.first;
  runs = fam.runs;
  own_parent = fam.own_parent;
  kids = fam.kids;
  parent = fam.parent;
  descriptor = fam.descriptor;
  childless = fam.childless;
}

-- A page that is no proc's may change, and so may the descriptor of an entry that is free.
module _ (s : Kernel) (init : ℕ) (fam : Family s init) (i : ℕ) (free : s.ptable i ≡ none) where
  -- An entry that is free may be emptied once more.
  emptied-Family : Family (record s { true_ptable = update s.true_ptable i none }) init
  emptied-Family = record {
    in_table = fam.in_table;
    has_pid = fam.has_pid;
    alive = fam.alive;
    set_up = fam.set_up;
    first = fam.first;
    runs = fam.runs;
    own_parent = fam.own_parent;
    kids = fam.kids;
    parent = fam.parent;
    descriptor = λ c l.
        update_other_entry c (λ e. fam.parent c l (ap s.ptable e ∙ free)) ∙ fam.descriptor c l;
    childless = fam.childless;
  }
    where
      update_other_entry :
          (c : ℕ)
          → (s.procs c).ppid ≢ i
          → update s.true_ptable i none (s.procs c).ppid ≡ s.true_ptable (s.procs c).ppid
      update_other_entry c n = ground (arith, n)

  pub free-Family :
      Family
        (record s { ptable = update s.ptable i none; true_ptable = update s.true_ptable i none })
        init
  free-Family =
      let same : s.ptable ≡ update s.ptable i none = fun_ext (λ j. ground (arith, free)) in
      subst (λ t. Family (record s { ptable = t; true_ptable = update s.true_ptable i none }) init)
        same emptied-Family

  module _ (s' : Kernel) (f : ℕ) (dead : (s.procs f).live ≡ false)
      (same : (j : ℕ) → s'.ptable j ≡ s.ptable j)
      (same_descriptor : (j : ℕ) → j ≢ i → s'.true_ptable j ≡ s.true_ptable j)
      (others : (b : ℕ) → b ≢ f → s'.procs b ≡ s.procs b) where
    old : (j b : ℕ) → s'.ptable j ≡ some b → b ≢ f
    old j b h e = ground (arith, fam.alive j b (sym (same j) ∙ h), dead, e)

    listed_old : (c : ℕ) → listed s' c ≡ true → c ≢ f
    listed_old c l e = ground (arith, old (s'.procs c).pid c, l, e)

    same_listed : (c : ℕ) → c ≢ f → listed s' c ≡ listed s c
    same_listed c n =
        ap (λ p. is_at (s'.ptable p.pid) c) (others c n)
        ∙ ap (λ x. is_at x c) (same (s.procs c).pid)

    same_child : (j c : ℕ) → is_child s' j c ≡ is_child s j c
    same_child j c = elim (eq_cases c f) [
      | inl e ↦ ground (arith, e, old (s'.procs c).pid c, fam.alive (s.procs c).pid c, dead)
      | inr n ↦ ground (arith, same_listed c n, others c n)
    ]

    before : (c : ℕ) → listed s' c ≡ true → (s'.procs c ≡ s.procs c) × (listed s c ≡ true)
    before c l = let n = listed_old c l in (others c n, sym (same_listed c n) ∙ l)

    parent_entry :
        (c : ℕ)
        → listed s' c ≡ true
        → (s'.ptable (s'.procs c).ppid ≡ s.ptable (s.procs c).ppid)
          × (s'.true_ptable (s'.procs c).ppid ≡ s.true_ptable (s.procs c).ppid)
    parent_entry c l =
        let (e, l') = before c l in
        let other : (s.procs c).ppid ≢ i = λ x. fam.parent c l' (ap s.ptable x ∙ free) in
        (
          ap (λ p. s'.ptable p.ppid) e ∙ same (s.procs c).ppid,
          ap (λ p. s'.true_ptable p.ppid) e ∙ same_descriptor (s.procs c).ppid other,
        )

    pub kept-Family : Family s' init
    kept-Family = record {
      in_table = λ j b h. fam.in_table j b (sym (same j) ∙ h);
      has_pid =
          λ j b h. ap (λ p. p.pid) (others b (old j b h)) ∙ fam.has_pid j b (sym (same j) ∙ h);
      alive = λ j b h. ap (λ p. p.live) (others b (old j b h)) ∙ fam.alive j b (sym (same j) ∙ h);
      set_up = λ j b h.
          ap (λ p. is_blank p.state) (others b (old j b h)) ∙ fam.set_up j b (sym (same j) ∙ h);
      first = same 1 ∙ fam.first;
      runs = ap (λ p. is_broken p.state) (others init (old 1 init (same 1 ∙ fam.first))) ∙ fam.runs;
      own_parent =
          ap (λ p. p.ppid) (others init (old 1 init (same 1 ∙ fam.first))) ∙ fam.own_parent;
      kids = λ j b c h.
          ap (λ p. count c p.children) (others b (old j b h))
          ∙ fam.kids j b c (sym (same j) ∙ h)
          ∙ ap (λ t. if t then 1 else 0) (sym (same_child j c));
      parent = λ c l z. let (x, y) = parent_entry c l in fam.parent c (before c l).1 (sym x ∙ z);
      descriptor =
          λ c l. let (x, y) = parent_entry c l in y ∙ fam.descriptor c (before c l).1 ∙ sym x;
      childless = λ c l z.
          let (e, l') = before c l in
          ap (λ p. p.children) e ∙ fam.childless c l' (sym (ap (λ p. is_broken p.state) e) ∙ z);
    }

-- A thread counts by its process and its state alone.
pub count_threads-quiet :
    (test : State → Bool) (s : Kernel) (b : ℕ) (p : Proc) (pid n : ℕ)
    → p.true_pid ≡ (s.procs b).true_pid
    → p.state ≡ (s.procs b).state
    → count_threads test (set_proc s b p) pid n ≡ count_threads test s pid n
unfolding count_threads
count_threads-quiet test s b p pid zero e h = refl
count_threads-quiet test s b p pid (suc n) e h = elim (Option-cases (s.ptable n)) [
  | inl d ↦ ground (arith, d, count_threads-quiet test s b p pid n e h)
  | inr (c, d) ↦ elim (eq_cases b c) [
    | inl x ↦ ground (arith, d, x, e, ap test h, count_threads-quiet test s b p pid n e h)
    | inr x ↦ ground (arith, d, x, count_threads-quiet test s b p pid n e h)
  ]
]
