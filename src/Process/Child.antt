-- ===== src/Process/Child.antt =====
-- kernel.cc: the family with one child more, which a fork or a clone adds.
use pug_os.Prelude.{
  ℕ, ◌<◌, ◌≡◌, ◌≢◌, sym, ◌∙◌, inl, inr, true, false, Option, some, none, arith, update, [], ◌∷◌,
  ◌++◌, count-nil, count-push_back, eq_cases, Option-cases,
}
use pug_os.Files.{World}
use pug_os.Process.{Kernel, Proc, nproc, is_blank, is_broken}
use pug_os.Process.Family.{Family, listed}

-- The page `f` is not a proc's, and the entry `i` is free.
module _ (s : Kernel) (init : ℕ) (fam : Family s init) (og i f : ℕ) (p : Proc)
    (t : ℕ → Option ℕ) where
  pub record Ready : Type 0 where
    pub own : s.ptable (s.procs og).pid ≡ some og
    pub own_descriptor : s.true_ptable (s.procs og).pid ≡ some og
    pub running : is_broken (s.procs og).state ≡ false
    pub in_range : i < nproc
    pub free : s.ptable i ≡ none
    pub page : (s.procs f).live ≡ false
    pub live : p.live ≡ true
    pub pid : p.pid ≡ i
    pub ppid : p.ppid ≡ (s.procs og).pid
    pub childless : p.children ≡ []
    pub blank : is_blank p.state ≡ false
    pub descriptors : (j : ℕ) → j ≢ i → t j ≡ s.true_ptable j

  -- The new proc is `p`, at `f`, and the table of descriptors is `t`.
  abbrev pub grown : World → Kernel
  grown w =
      let procs = update s.procs f p in
      record s {
        ptable = update s.ptable i (some f);
        true_ptable = t;
        procs = update procs og (record (procs og) { children = (procs og).children ++ f ∷ [] });
        files = w;
      }

  module _ (r : Ready) where
    not_first : i ≢ 1
    not_first e = ground (arith, fam.first, r.free, e)

    other_page : (j b : ℕ) → s.ptable j ≡ some b → b ≢ f
    other_page j b e h = ground (arith, fam.alive j b e, r.page, h)

    distinct : og ≢ f
    distinct = other_page (s.procs og).pid og r.own

    kept_entry : (j : ℕ) → j ≢ i → update s.ptable i (some f) j ≡ s.ptable j
    kept_entry j h = ground arith

    own_pid : (s.procs og).pid ≢ i
    own_pid e = ground (arith, r.own, r.free, e)

    listed_before :
        (w : World) (c : ℕ)
        → c ≢ f
        → listed (grown w) c ≡ true
        → (listed s c ≡ true) × ((s.procs c).pid ≢ i)
    listed_before w c h l = ground (arith, own_pid)

    other_parent : (c : ℕ) → listed s c ≡ true → (s.procs c).ppid ≢ i
    other_parent c l e = ground (arith, fam.parent c l, r.free, e)

    not_listed : listed s f ≡ false
    not_listed = ground (arith, other_page (s.procs f).pid f)

    parent_entry :
        (w : World) (c : ℕ)
        → listed (grown w) c ≡ true
        → (b : ℕ) × ((grown w).ptable ((grown w).procs c).ppid ≡ some b)
          × ((grown w).true_ptable ((grown w).procs c).ppid ≡ some b)
    parent_entry w c l = elim (eq_cases f c) [
      | inl e ↦ (
        og,
        ground (arith, own_pid, r.own, e),
        ground (arith, own_pid, r.own_descriptor, e, r.descriptors (s.procs og).pid),
      )
      | inr n ↦
          let (l', m) = listed_before w c (λ e. n (sym e)) l in
          let other = other_parent c l' in
          elim (Option-cases (s.ptable (s.procs c).ppid)) [
            | inl d ↦ absurd (fam.parent c l' d)
            | inr (b, d) ↦ (
              b,
              ground (arith, other, d, n),
              ground (arith, other, d, n, fam.descriptor c l', r.descriptors (s.procs c).ppid),
            )
          ]
    ]

    pub grown-Family : (w : World) → Family (grown w) init
    grown-Family w = record {
      in_table = λ j b h. ground (arith, fam.in_table j b, r.in_range);
      has_pid = λ j b h. ground (arith, fam.has_pid j b, other_page j b, r.own, own_pid);
      alive = λ j b h. ground (arith, fam.alive j b, other_page j b, r.own, own_pid);
      set_up = λ j b h. ground (arith, fam.set_up j b, other_page j b);
      first = ground (arith, fam.first, not_first);
      runs = ground (arith, fam.runs, fam.first, other_page 1 init);
      own_parent = ground (arith, fam.own_parent, fam.first, other_page 1 init);
      kids = λ j b c h. ground (
        arith,
        fam.kids j b c,
        fam.kids j b f,
        other_page j b,
        fam.has_pid j b,
        count-nil c,
        count-push_back c f (s.procs og).children,
        not_listed,
        own_pid,
        other_parent c,
        listed_before w c,
        not_first,
        r.own,
      );
      parent = λ c l e. let (b, x, y) = parent_entry w c l in ground (arith, x, e);
      descriptor = λ c l. let (b, x, y) = parent_entry w c l in y ∙ sym x;
      childless = λ c l z. ground (arith, fam.childless c, listed_before w c, r.running, distinct);
    }
