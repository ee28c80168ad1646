-- ===== src/Process/Slots.antt =====
-- kernel.cc: the entry that a fork or a clone takes is the lowest that is free.
use pug_os.Prelude.{
  ℕ, zero, suc, ◌+◌, ◌≤◌, ◌<◌, ◌≡◌, ◌≢◌, refl, ◌⊎◌, inl, inr, true, false, some, none, arith,
  Option-cases, Bool-cases, eq_cases, sym,
}
use pug_os.Process.{Kernel, unused, slot_from}
use pug_os.Process.Family.{Family}

module _ (s : Kernel) (init : ℕ) (fam : Family s init) where
  unused-none : (j : ℕ) → unused s (s.ptable j) ≡ true → s.ptable j ≡ none
  unfolding unused
  unused-none j h = elim (Option-cases (s.ptable j)) [
    | inl e ↦ e
    | inr (a, e) ↦ ground (arith, fam.set_up j a e, h, e)
  ]

  used-some : (j : ℕ) → unused s (s.ptable j) ≡ false → s.ptable j ≢ none
  unfolding unused
  used-some j h e = ground (arith, h, e)

  pub slot_from-lowest :
      (n i : ℕ)
      → ((slot_from s n i ≡ none) × ((j : ℕ) → i ≤ j → j < i + n → s.ptable j ≢ none))
        ⊎ ((k : ℕ) × (slot_from s n i ≡ some k)
            × (i ≤ k)
            × (k < i + n)
            × (s.ptable k ≡ none)
            × ((j : ℕ) → i ≤ j → j < k → s.ptable j ≢ none))
  unfolding slot_from
  slot_from-lowest zero i = inl (refl, λ j a b. absurd (omega arith))
  slot_from-lowest (suc n) i = elim (Bool-cases (unused s (s.ptable i))) [
    | inl e ↦
        inr
          (i, rw (e) refl, omega arith, omega arith, unused-none i e, λ j a b. absurd (omega arith))
    | inr e ↦ elim (slot_from-lowest n (suc i)) [
      | inl (r, all) ↦ inl (
        rw (e) r,
        λ j a b. elim (eq_cases i j) [
          | inl y ↦ rw (sym y) (used-some i e)
          | inr y ↦ all j (omega arith) (omega arith)
        ],
      )
      | inr (k, r, a, b, free, all) ↦ inr (
        k,
        rw (e) r,
        omega arith,
        omega arith,
        free,
        λ j c d. elim (eq_cases i j) [
          | inl y ↦ rw (sym y) (used-some i e)
          | inr y ↦ all j (omega arith) d
        ],
      )
    ]
  ]
