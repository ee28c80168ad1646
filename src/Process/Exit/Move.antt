-- ===== src/Process/Exit/Move.antt =====
-- kernel.cc: the family while the children of a process that exits go to the first process.
use pug_os.Prelude.{
  ℕ, zero, suc, ◌≤◌, ◌≡◌, ◌≢◌, refl, sym, ◌∙◌, ap, true, false, some, arith, ◌==◌, if◌then◌else◌,
  List, length, append-nil, append_assoc, [], ◌∷◌, ◌++◌, count, count-nil, count-cons,
  count-push_back,
}
use pug_os.Process.{Kernel, Proc, is_blank, is_broken, set_proc}
use pug_os.Process.Family.{Family, listed, is_child}
use pug_os.Process.Exit.{move_child, reparent}

module _ (s : Kernel) (init : ℕ) (fam : Family s init) where
  -- A proc may change but for what the family is about.
  pub quiet-Family :
      (b : ℕ) (p : Proc)
      → p.live ≡ (s.procs b).live
      → p.pid ≡ (s.procs b).pid
      → p.ppid ≡ (s.procs b).ppid
      → p.children ≡ (s.procs b).children
      → is_blank p.state ≡ false
      → (b ≡ init → is_broken p.state ≡ false)
      → (listed s b ≡ true → is_broken p.state ≡ true → p.children ≡ [])
      → Family (set_proc s b p) init
  quiet-Family b p e1 e2 e3 e4 e5 e6 e7 = record {
    in_table = fam.in_table;
    has_pid = λ j c h. ground (arith, fam.has_pid j c);
    alive = λ j c h. ground (arith, fam.alive j c);
    set_up = λ j c h. ground (arith, fam.set_up j c);
    first = fam.first;
    runs = ground (arith, fam.runs, e6);
    own_parent = ground (arith, fam.own_parent);
    kids = λ j c d h. ground (arith, fam.kids j c d);
    parent = λ c l. ground (arith, fam.parent c);
    descriptor = λ c l. ground (arith, fam.descriptor c);
    childless = λ c l z. ground (arith, fam.childless c);
  }

  module _ (a c : ℕ) (cs : List ℕ) (own : s.ptable (s.procs a).pid ≡ some a) (other : a ≢ init)
      (e : (s.procs a).children ≡ c ∷ cs) where
    first_descriptor : s.true_ptable 1 ≡ some init
    first_descriptor =
        ground (arith, fam.first, fam.own_parent, fam.has_pid 1 init, fam.descriptor init)

    own_child : is_child s (s.procs a).pid c ≡ true
    own_child = ground (arith, fam.kids (s.procs a).pid a c own, count-cons c c cs, e)

    once : count c cs ≡ 0
    once = ground (arith, fam.kids (s.procs a).pid a c own, count-cons c c cs, e, own_child)

    not_first : (s.procs a).pid ≢ 1
    not_first h = ground (arith, own, fam.first, h, other)

    not_init : c ≢ init
    not_init h = ground (arith, own_child, fam.first, fam.has_pid 1 init, h)

    pub moved-Family : Family (move_child s a c cs init) init
    moved-Family = record {
      in_table = fam.in_table;
      has_pid = λ j b h. ground (arith, fam.has_pid j b);
      alive = λ j b h. ground (arith, fam.alive j b);
      set_up = λ j b h. ground (arith, fam.set_up j b);
      first = fam.first;
      runs = ground (arith, fam.runs);
      own_parent = ground (arith, fam.own_parent);
      kids = λ j b d h. ground (
        arith,
        fam.kids j b d,
        fam.has_pid j b,
        fam.has_pid 1 init,
        fam.first,
        count-cons d c cs,
        count-push_back d c (s.procs init).children,
        own_child,
        once,
        not_first,
        not_init,
        e,
        other,
      );
      parent = λ d l. ground (arith, fam.parent d, fam.first, own_child, not_init, other);
      descriptor = λ d l.
          ground (arith, fam.descriptor d, fam.first, first_descriptor, own_child, not_init, other);
      childless = λ d l z.
          ground
            (arith, fam.childless d, fam.runs, own_child, not_init, other, fam.childless a, own, e);
    }

-- The children of `a` are those of the first process now, after its own, in the same order; nothing
-- else of any proc changes.
pub record Moved (s : Kernel) (a init : ℕ) (cs : List ℕ) (s' : Kernel) : Type 0 where
  pub ptable : s'.ptable ≡ s.ptable
  pub files : s'.files ≡ s.files
  pub left : (s'.procs a).children ≡ []
  pub taken : (s'.procs init).children ≡ (s.procs init).children ++ cs
  pub ppid : (b : ℕ) → (s'.procs b).ppid ≡ (if count b cs == 0 then (s.procs b).ppid else 1)
  pub others :
      (b : ℕ)
      → s'.procs b
        ≡ record (s.procs b) { ppid = (s'.procs b).ppid; children = (s'.procs b).children }

reparent-step :
    (n : ℕ) (s s' : Kernel) (a c init : ℕ) (cs : List ℕ)
    → s.ptable 1 ≡ some init
    → a ≢ init
    → reparent n (move_child s a c cs init) a cs ≡ some s'
    → reparent (suc n) s a (c ∷ cs) ≡ some s'
unfolding reparent
reparent-step n s s' a c init cs first other h =
    let kept : ((move_child s a c cs init).procs a).children ≡ cs = ground (arith, other) in
    rw (first) (ap (reparent n (move_child s a c cs init) a) kept ∙ h)

module _ (s s' : Kernel) (a c init : ℕ) (cs : List ℕ) (other : a ≢ init)
    (m : Moved (move_child s a c cs init) a init cs s') where
  move_child-others :
      (b x : ℕ) (y : List ℕ)
      → record ((move_child s a c cs init).procs b) { ppid = x; children = y }
        ≡ record (s.procs b) { ppid = x; children = y }
  move_child-others b x y = ground arith

  move_child-ppid :
      (b : ℕ) → ((move_child s a c cs init).procs b).ppid ≡ (if c == b then 1 else (s.procs b).ppid)
  move_child-ppid b = ground arith

  move_child-children :
      ((move_child s a c cs init).procs init).children ≡ (s.procs init).children ++ c ∷ []
  move_child-children = ground (arith, other)

  Moved-cons : Moved s a init (c ∷ cs) s'
  Moved-cons = record {
    ptable = m.ptable;
    files = m.files;
    left = m.left;
    taken =
        m.taken
        ∙ ap (λ t. t ++ cs) move_child-children
        ∙ append_assoc (s.procs init).children (c ∷ []) cs;
    ppid = λ b.
        m.ppid b
        ∙ ap (λ x. if count b cs == 0 then x else 1) (move_child-ppid b)
        ∙ ground (arith, count-cons b c cs);
    others = λ b. m.others b ∙ move_child-others b (s'.procs b).ppid (s'.procs b).children;
  }

-- With fuel for every child, the loop ends.
pub reparent-Moved :
    (n : ℕ) (s : Kernel) (init : ℕ)
    → Family s init
    → (a : ℕ) (cs : List ℕ) → s.ptable (s.procs a).pid ≡ some a
    → a ≢ init
    → (s.procs a).children ≡ cs
    → length cs ≤ n
    → (s' : Kernel) × (reparent n s a cs ≡ some s') × Family s' init × Moved s a init cs s'
unfolding reparent
reparent-Moved n s init fam a [] own other e h = (
  s,
  refl,
  fam,
  record {
    ptable = refl;
    files = refl;
    left = e;
    taken = sym (append-nil _);
    ppid = λ b. ground (arith, count-nil b);
    others = λ b. refl;
  },
)
reparent-Moved zero s init fam a (c ∷ cs) own other e h = absurd (omega arith)
reparent-Moved (suc n) s init fam a (c ∷ cs) own other e h =
    let s1 = move_child s a c cs init in
    let fam1 = moved-Family s init fam a c cs own other e in
    let (s', r, fam', m) =
      reparent-Moved n s1 init fam1 a cs (ground (arith, own, other)) other (ground (arith, other))
        (omega arith) in
    (
      s',
      reparent-step n s s' a c init cs fam.first other r,
      fam',
      Moved-cons s s' a c init cs other m,
    )
