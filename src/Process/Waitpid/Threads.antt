-- ===== src/Process/Waitpid/Threads.antt =====
-- kernel.cc: the loop of `waitpid` over the threads of one child.
use pug_os.Prelude.{
  ℕ, zero, suc, ◌+◌, ◌≤◌, ◌<◌, ◌≡◌, ◌≢◌, refl, sym, ◌∙◌, ap, Bool, true, false, some, none, arith,
  update, if◌then◌else◌, inl, inr, ◌⊎◌, Bool-cases, Option-cases, eq_cases, ◌>>=◌, ltb,
}
use pug_os.Process.{Kernel, nproc, is_broken, is_thread}
use pug_os.Process.Family.{Family}
use pug_os.Process.Reap.{Reaped, process_reap-Reaped}
use pug_os.Process.Waitpid.{Waiting, still, took, reap_entry, reap_threads}

-- A thread of the child that has ended.
abbrev pub is_over : Kernel → ℕ → ℕ → Bool
is_over s child j = is_thread is_broken s child (s.ptable j)

-- The entries of such threads are free, from `i` on; every other entry is as it was.
pub record Cleared (v : Waiting) (child i : ℕ) (v' : Waiting) : Type 0 where
  pub ptable :
      (j : ℕ)
      → v'.kernel.ptable j ≡ (
          if is_over v.kernel child j
          then (if ltb j i then v.kernel.ptable j else none)
          else v.kernel.ptable j)
  pub result :
      ((v' ≡ v) × ((j : ℕ) → i ≤ j → j < nproc → is_over v.kernel child j ≡ false))
      ⊎ ((v'.to_reap ≡ child) × ((j : ℕ) × (i ≤ j) × (is_over v.kernel child j ≡ true)))

over-entry :
    (s : Kernel) (child i : ℕ)
    → is_over s child i ≡ true
    → (a : ℕ) × (s.ptable i ≡ some a) × (is_broken (s.procs a).state ≡ true)
over-entry s child i h = elim (Option-cases (s.ptable i)) [
  | inl e ↦ absurd (ground (arith, e, h))
  | inr (a, e) ↦ (a, e, ground (arith, e, h))
]

same_over :
    (s s' : Kernel) (i a j child : ℕ)
    → Reaped s i a s'
    → ((b : ℕ) → s.ptable j ≡ some b → b ≢ a)
    → j ≢ i
    → is_over s' child j ≡ is_over s child j
same_over s s' i a j child d distinct n =
    let there : s'.ptable j ≡ s.ptable j = ap (λ t. t j) d.ptable ∙ ground arith in
    elim (Option-cases (s.ptable j)) [
      | inl e ↦ ground (arith, there, e)
      | inr (b, e) ↦ ground (arith, there, e, d.others b (distinct b e))
    ]

reap_entry-over :
    (v : Waiting) (init child i : ℕ)
    → Family v.kernel init
    → is_over v.kernel child i ≡ true
    → (v' : Waiting) × (reap_entry still v child i true ≡ some v')
      × Family v'.kernel init
      × (v'.to_reap ≡ child)
      × (v'.kernel.ptable ≡ update v.kernel.ptable i none)
      × ((j : ℕ) → j ≢ i → is_over v'.kernel child j ≡ is_over v.kernel child j)
unfolding reap_entry
reap_entry-over v init child i fam h =
    let (a, e, broken) = over-entry v.kernel child i h in
    let (s', r, fam', d) =
      process_reap-Reaped v.kernel init fam i a e
        (λ x. ground (arith, fam.first, fam.runs, broken, e, x))
        (fam.childless a (ground (arith, e, fam.has_pid i a)) broken) in
    (
      took still i v child (s', (v.kernel.procs a).exit_status),
      rw (r) refl,
      fam',
      refl,
      d.ptable,
      λ j n.
          same_over v.kernel s' i a j child d
            (λ b h x.
              n (sym (fam.has_pid j b h) ∙ ap (λ c. (v.kernel.procs c).pid) x ∙ fam.has_pid i a e))
            n,
    )

record Took (v : Waiting) (child i : ℕ) (v1 : Waiting) : Type 0 where
  pub to_reap : v1.to_reap ≡ child
  pub ptable : v1.kernel.ptable ≡ update v.kernel.ptable i none
  pub same : (j : ℕ) → j ≢ i → is_over v1.kernel child j ≡ is_over v.kernel child j

module _ (v v1 v2 : Waiting) (child i : ℕ) where
  over-Cleared :
      is_over v.kernel child i ≡ true
      → Took v child i v1
      → Cleared v1 child (suc i) v2
      → Cleared v child i v2
  over-Cleared h t c = record {
    ptable = λ j. elim (eq_cases j i) [
      | inl e ↦ c.ptable j ∙ ground (arith, here j e, h, e)
      | inr e ↦ c.ptable j ∙ ground (arith, there j e, t.same j e, e)
    ];
    result = elim c.result [
      | inl (e, all) ↦ inr (ap (λ w. w.to_reap) e ∙ t.to_reap, (i, omega arith, h))
      | inr (e, x) ↦ inr (e, (i, omega arith, h))
    ];
  }
    where
      here : (j : ℕ) → j ≡ i → v1.kernel.ptable j ≡ none
      here j e = ap (λ f. f j) t.ptable ∙ ground (arith, e)

      there : (j : ℕ) → j ≢ i → v1.kernel.ptable j ≡ v.kernel.ptable j
      there j e = ap (λ f. f j) t.ptable ∙ ground (arith, e)

  kept-Cleared :
      is_over v.kernel child i ≡ false → Cleared v child (suc i) v2 → Cleared v child i v2
  kept-Cleared h c = record {
    ptable = λ j. elim (eq_cases j i) [
      | inl e ↦ c.ptable j ∙ ground (arith, h, e)
      | inr e ↦ c.ptable j ∙ ground (arith, e)
    ];
    result = elim c.result [
      | inl (e, all) ↦ inl (
        e,
        λ j a b. elim (eq_cases i j) [
          | inl x ↦ ap (λ k. is_over v.kernel child k) (sym x) ∙ h
          | inr x ↦ all j (omega arith) b
        ],
      )
      | inr (e, (j, a, b)) ↦ inr (e, (j, omega arith, b))
    ];
  }

reap_threads-step :
    (v v1 v2 : Waiting) (child n i : ℕ) (b : Bool)
    → is_over v.kernel child i ≡ b
    → reap_entry still v child i b ≡ some v1
    → reap_threads still v1 child n (suc i) ≡ some v2
    → reap_threads still v child (suc n) i ≡ some v2
unfolding reap_threads reap_entry
reap_threads-step v v1 v2 child n i b h e r =
    ap (λ o. o >>= λ x. reap_threads still x child n (suc i))
      (ap (reap_entry still v child i) h ∙ e)
    ∙ r

pub reap_threads-Cleared :
    (n i : ℕ) (v : Waiting) (init child : ℕ)
    → i + n ≡ nproc
    → Family v.kernel init
    → (v' : Waiting) × (reap_threads still v child n i ≡ some v')
      × Family v'.kernel init
      × Cleared v child i v'
unfolding reap_threads reap_entry
reap_threads-Cleared zero i v init child e fam = (
  v,
  refl,
  fam,
  record {
    ptable = λ j. elim (Bool-cases (is_over v.kernel child j)) [
      | inl h ↦
          let (a, d, x) = over-entry v.kernel child j h in ground (arith, h, fam.in_table j a d)
      | inr h ↦ ground (arith, h)
    ];
    result = inl (refl, λ j a b. absurd (omega arith));
  },
)
reap_threads-Cleared (suc n) i v init child e fam = elim (Bool-cases (is_over v.kernel child i)) [
  | inl h ↦
      let (v1, r, fam1, t, p, s) = reap_entry-over v init child i fam h in
      let (v2, r2, fam2, c) = reap_threads-Cleared n (suc i) v1 init child (omega arith) fam1 in
      (
        v2,
        reap_threads-step v v1 v2 child n i true h r r2,
        fam2,
        over-Cleared v v1 v2 child i h (record { to_reap = t; ptable = p; same = s }) c,
      )
  | inr h ↦
      let (v2, r2, fam2, c) = reap_threads-Cleared n (suc i) v init child (omega arith) fam in
      (
        v2,
        reap_threads-step v v v2 child n i false h refl r2,
        fam2,
        kept-Cleared v v v2 child i h c,
      )
]
