-- ===== src/Process/Exit/Exited.antt =====
-- kernel.cc: what `process_exit` leaves, for the last thread of a process.
use pug_os.Prelude.{
  ℕ, ◌≤◌, ◌<◌, ◌≡◌, ◌≢◌, refl, sym, ◌∙◌, ap, subst, true, false, Option, some, none, arith, ◌==◌,
  if◌then◌else◌, length, [], ◌++◌, count, inl, inr, eq_cases, Bool-cases, ◌>>=◌,
}
use pug_os.Files.{World}
use pug_os.Files.Inv.{Inv, is_at}
use pug_os.Files.Tables.{close_all, clear_table}
use pug_os.Files.Tables.Closed.{close_all-Closed}
use pug_os.Process.{Kernel, runnable, broken, nproc, is_blocked, set_proc}
use pug_os.Process.Family.{Family, files-Family}
use pug_os.Process.Exit.{interrupt, reparent, finish_exit}
use pug_os.Process.Exit.Move.{quiet-Family, Moved, reparent-Moved}

-- Only the state of the proc `d` changes, and its flag.
record Told (s s' : Kernel) (o : Option ℕ) : Type 0 where
  pub ptable : s'.ptable ≡ s.ptable
  pub others :
      (b : ℕ)
      → s'.procs b
        ≡ record (s.procs b) { state = (s'.procs b).state; interrupted = (s'.procs b).interrupted }
  pub unchanged : (b : ℕ) → is_at o b ≡ false → s'.procs b ≡ s.procs b
  pub interrupted :
      (b : ℕ)
      → is_at o b ≡ true
      → is_blocked (s.procs b).state ≡ true
      → ((s'.procs b).state ≡ runnable) × ((s'.procs b).interrupted ≡ true)

same-Told :
    (s : Kernel) (o : Option ℕ)
    → ((b : ℕ) → is_at o b ≡ true → is_blocked (s.procs b).state ≡ false)
    → Told s s o
same-Told s o h = record {
  ptable = refl;
  others = λ b. refl;
  unchanged = λ b x. refl;
  interrupted = λ b x y. absurd (ground (arith, h b, x, y));
}

abbrev woken : Kernel → ℕ → Kernel
woken s d = set_proc s d (record (s.procs d) { interrupted = true; state = runnable })

interrupt-woken :
    (s : Kernel) (d : ℕ) → is_blocked (s.procs d).state ≡ true → interrupt s (some d) ≡ woken s d
unfolding interrupt
interrupt-woken s d h = rw (h) refl

interrupt-Told :
    (s : Kernel) (init : ℕ)
    → Family s init
    → (o : Option ℕ)
    → (s' : Kernel) × (interrupt s o ≡ s') × Family s' init × (s'.files ≡ s.files) × Told s s' o
unfolding interrupt
interrupt-Told s init fam none = (s, refl, fam, refl, same-Told s none (λ b x. cc))
interrupt-Told s init fam (some d) = elim (Bool-cases (is_blocked (s.procs d).state)) [
  | inl h ↦ (
    woken s d,
    interrupt-woken s d h,
    quiet-Family s init fam d (record (s.procs d) { interrupted = true; state = runnable }) refl
        refl refl refl refl (λ e. refl) (λ l z. cc),
    refl,
    record {
      ptable = refl;
      others = λ b. ground arith;
      unchanged = λ b x. ground (arith, x);
      interrupted = λ b x y. (ground (arith, x), ground (arith, x));
    },
  )
  | inr h ↦ (s, rw (h) refl, fam, refl, same-Told s (some d) (λ b x. ground (arith, x, h)))
]

abbrev ended : Kernel → ℕ → Kernel
ended s a = set_proc s a (record (s.procs a) { state = broken })

finish_exit-step :
    (fuel : ℕ) (s told s' : Kernel) (w : World) (a : ℕ)
    → close_all s.files (s.procs a).true_pid ≡ some w
    → interrupt (record s { files = w }) (s.ptable (s.procs a).ppid) ≡ told
    → (told.procs a).children ≡ (s.procs a).children
    → reparent fuel told a (s.procs a).children ≡ some s'
    → finish_exit fuel s a ≡ some (ended s' a)
unfolding finish_exit
finish_exit-step fuel s told s' w a c i k r =
    rw (c, i) (ap (λ o. o >>= λ t. some (ended t a)) (ap (reparent fuel told a) k ∙ r))

-- The process has ended with its status and without children: they are the first process's now, at
-- the end of its list and in the same order. A parent that was blocked is interrupted and can run; the
-- other procs keep their states. Once its table of descriptors is deleted, the reference counts are in
-- order.
pub record Ended (s : Kernel) (a init code : ℕ) (s' : Kernel) : Type 0 where
  pub ptable : s'.ptable ≡ s.ptable
  pub state : (s'.procs a).state ≡ broken
  pub status : (s'.procs a).exit_status ≡ code
  pub left : (s'.procs a).children ≡ []
  pub taken : (s'.procs init).children ≡ (s.procs init).children ++ (s.procs a).children
  pub ppid :
      (b : ℕ)
      → (s'.procs b).ppid ≡ (if count b (s.procs a).children == 0 then (s.procs b).ppid else 1)
  pub parent :
      (d : ℕ)
      → d ≢ a
      → s.ptable (s.procs a).ppid ≡ some d
      → is_blocked (s.procs d).state ≡ true
      → ((s'.procs d).state ≡ runnable) × ((s'.procs d).interrupted ≡ true)
  pub others :
      (b : ℕ) → b ≢ a → s.ptable (s.procs a).ppid ≢ some b → (s'.procs b).state ≡ (s.procs b).state
  pub files : Inv (clear_table s'.files (s.procs a).true_pid)

module _ (s told s' : Kernel) (a init : ℕ) (other : a ≢ init)
    (t : Told s told (s.ptable (s.procs a).ppid))
    (m : Moved told a init (s.procs a).children s') where
  ended-same :
      (b : ℕ)
      → ((s'.procs b).state ≡ (told.procs b).state)
        × ((s'.procs b).interrupted ≡ (told.procs b).interrupted)
        × ((s'.procs b).exit_status ≡ (s.procs b).exit_status)
  ended-same b = (
    ap (λ p. p.state) (m.others b),
    ap (λ p. p.interrupted) (m.others b),
    ap (λ p. p.exit_status) (m.others b) ∙ ap (λ p. p.exit_status) (t.others b),
  )

  kept-children : (b : ℕ) → a ≢ b → ((ended s' a).procs b).children ≡ (s'.procs b).children
  kept-children b n = ground arith

  kept-ppid : (b : ℕ) → ((ended s' a).procs b).ppid ≡ (s'.procs b).ppid
  kept-ppid b = ground arith

  kept-state : (b : ℕ) → b ≢ a → ((ended s' a).procs b).state ≡ (s'.procs b).state
  kept-state b n = ground arith

  kept-interrupted : (b : ℕ) → ((ended s' a).procs b).interrupted ≡ (s'.procs b).interrupted
  kept-interrupted b = ground arith

  not_at : (o : Option ℕ) (b : ℕ) → o ≢ some b → is_at o b ≡ false
  not_at none b h = refl
  not_at (some d) b h = elim (eq_cases d b) [
    | inl e ↦ absurd (h (ap some e))
    | inr e ↦ ground arith
  ]

  ended-Ended :
      Inv (clear_table s'.files (s.procs a).true_pid)
      → Ended s a init (s.procs a).exit_status (ended s' a)
  ended-Ended inv = record {
    ptable = m.ptable ∙ t.ptable;
    state = ground arith;
    status = ground (arith, (ended-same a).2);
    left = ground (arith, m.left);
    taken =
        kept-children init other
        ∙ m.taken
        ∙ ap (λ l. l ++ (s.procs a).children) (ap (λ p. p.children) (t.others init));
    ppid = λ b.
        kept-ppid b
        ∙ m.ppid b
        ∙ ap (λ x. if count b (s.procs a).children == 0 then x else 1)
            (ap (λ p. p.ppid) (t.others b));
    parent = λ d n e h.
        let (x, y) = t.interrupted d (ground (arith, e)) h in
        (kept-state d n ∙ (ended-same d).0 ∙ x, kept-interrupted d ∙ (ended-same d).1 ∙ y);
    others = λ b n e.
        kept-state b n
        ∙ (ended-same b).0
        ∙ ap (λ p. p.state) (t.unchanged b (not_at (s.ptable (s.procs a).ppid) b e));
    files = inv;
  }

-- The last thread of a process that is not the first: `fuel` for each of its children is enough.
pub finish_exit-Ended :
    (s : Kernel) (init : ℕ)
    → Family s init
    → Inv s.files
    → (fuel a : ℕ) → s.ptable (s.procs a).pid ≡ some a
    → a ≢ init
    → (s.procs a).true_pid < nproc
    → length (s.procs a).children ≤ fuel
    → (s' : Kernel) × (finish_exit fuel s a ≡ some s')
      × Family s' init
      × Ended s a init (s.procs a).exit_status s'
finish_exit-Ended s init fam inv fuel a own other range enough =
    let (w, c, inv', same, rest) = close_all-Closed (s.procs a).true_pid range s.files inv in
    let s0 = record s { files = w } in
    let (told, i, fam1, files, t) =
      interrupt-Told s0 init (files-Family s init w fam) (s.ptable (s.procs a).ppid) in
    let kids : (told.procs a).children ≡ (s.procs a).children = ap (λ p. p.children) (t.others a) in
    let there : told.ptable (told.procs a).pid ≡ some a =
      ap (λ f. f (told.procs a).pid) t.ptable ∙ ap (λ p. s.ptable p.pid) (t.others a) ∙ own in
    let (s', r, fam', m) =
      reparent-Moved fuel told init fam1 a (s.procs a).children there other kids enough in
    (
      ended s' a,
      finish_exit-step fuel s told s' w a c i kids r,
      quiet-Family s' init fam' a (record (s'.procs a) { state = broken }) refl refl refl refl refl
          (λ e. absurd (other e)) (λ l z. m.left),
      ended-Ended s told s' a init other
          (record {
            ptable = t.ptable;
            others = t.others;
            unchanged = t.unchanged;
            interrupted = t.interrupted;
          })
          m (subst (λ x. Inv (clear_table x (s.procs a).true_pid)) (sym (m.files ∙ files)) inv'),
    )
