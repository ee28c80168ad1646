-- ===== src/Paging/Walk.antt =====
-- k-vmiter.cc: the walk that `real_find` goes on with ends where a walk from the root does.
use pug_os.Prelude.{
  ℕ, zero, suc, ◌/◌, ◌%◌, ◌^◌, ◌≤◌, ◌≡◌, refl, sym, ◌∙◌, ap, subst, Bool, true, false, not, ◌&&◌,
  ◌==◌, Bool-cases, inl, inr, arith, eq_cases, ==_iff,
}
use native.Mathlib.Nat.{div-div-eq-div-mul}
use pug_os.Paging.{
  Perm, Entry, Tables, span, pageindex, both, initial_perm, Vmiter, down, from_top, real_find,
}

-- Addresses that agree above a level agree above the next.
agree_up : (va vb l : ℕ) → va / span l ≡ vb / span l → va / span (suc l) ≡ vb / span (suc l)
unfolding span
agree_up va vb l e =
    sym (div-div-eq-div-mul va (span l) (2 ^ 9))
    ∙ ap (λ x. x / 2 ^ 9) e
    ∙ div-div-eq-div-mul vb (span l) (2 ^ 9)

-- The entry that a table of the level `suc l` has for them is one, if they agree above the level `l`.
descends : Tables → ℕ → ℕ → ℕ → Bool
descends m va table l =
    (m table (pageindex va (suc l))).perm.present && not (m table (pageindex va (suc l))).huge

pub agree_le : (va vb i j : ℕ) → i ≤ j → va / span i ≡ vb / span i → va / span j ≡ vb / span j
agree_le va vb zero zero h e = e
agree_le va vb (suc i) zero h e = absurd (omega arith)
agree_le va vb i (suc j) h e = elim (eq_cases i (suc j)) [
  | inl x ↦ ap (λ k. va / span k) (sym x) ∙ e ∙ ap (λ k. vb / span k) x
  | inr x ↦ agree_up va vb j (agree_le va vb i j (omega arith) e)
]

abbrev stop : ℕ → ℕ → ℕ → Perm → Vmiter
stop va table level perm = record {
  table = table;
  index = pageindex va level;
  level = level;
  perm = perm;
  va = va;
}

module _ (m : Tables) (va : ℕ) where
  abbrev entry : ℕ → ℕ → Entry
  entry table l = m table (pageindex va (suc l))

  down-descends :
      (table l : ℕ) (perm : Perm)
      → descends m va table l ≡ true
      → down m va table (suc l) perm
        ≡ down m va (entry table l).pa l (both perm (entry table l).perm)
  unfolding down descends
  down-descends table l perm e = rw (e) refl

  down-stop :
      (table l : ℕ) (perm : Perm)
      → descends m va table l ≡ false
      → down m va table (suc l) perm ≡ stop va table (suc l) perm
  unfolding down descends
  down-stop table l perm e = rw (e) refl

  down_level : (l table : ℕ) (perm : Perm) → (down m va table l perm).level ≤ l
  unfolding down
  down_level zero table perm = omega arith
  down_level (suc l) table perm = elim (Bool-cases (descends m va table l)) [
    | inl e ↦
        let below = down_level l (entry table l).pa (both perm (entry table l).perm) in
        subst (λ it. it.level ≤ suc l) (sym (down-descends table l perm e)) (omega (arith, below))
    | inr e ↦ subst (λ it. it.level ≤ suc l) (sym (down-stop table l perm e)) (omega arith)
  ]

  pub down_va : (l table : ℕ) (perm : Perm) → (down m va table l perm).va ≡ va
  unfolding down
  down_va zero table perm = refl
  down_va (suc l) table perm = elim (Bool-cases (descends m va table l)) [
    | inl e ↦
        ap (λ it. it.va) (down-descends table l perm e)
        ∙ down_va l (entry table l).pa (both perm (entry table l).perm)
    | inr e ↦ ap (λ it. it.va) (down-stop table l perm e)
  ]

module _ (m : Tables) (va vb : ℕ) where
  descends-same :
      (table l : ℕ)
      → pageindex va (suc l) ≡ pageindex vb (suc l)
      → descends m va table l ≡ descends m vb table l
  unfolding descends
  descends-same table l e = ap (λ i. (m table i).perm.present && not (m table i).huge) e

  descended :
      (table l : ℕ) (perm : Perm)
      → va / span (suc l) ≡ vb / span (suc l)
      → descends m va table l ≡ true
      → down m vb (entry m va table l).pa l (both perm (entry m va table l).perm)
        ≡ down m vb table (suc l) perm
  descended table l perm same e =
      let index : pageindex va (suc l) ≡ pageindex vb (suc l) = ap (λ x. x % 2 ^ 9) same in
      ap (λ i. down m vb (m table i).pa l (both perm (m table i).perm)) index
      ∙ sym (down-descends m vb table l perm (sym (descends-same table l index) ∙ e))

  abbrev GoesOn : ℕ → ℕ → Perm → Vmiter → Type 0
  GoesOn table l perm it =
      va / span (suc it.level) ≡ vb / span (suc it.level)
      → down m vb it.table it.level it.perm ≡ down m vb table l perm

  goes_on : (l table : ℕ) (perm : Perm) → GoesOn table l perm (down m va table l perm)
  unfolding down
  goes_on zero table perm = λ h. refl
  goes_on (suc l) table perm = elim (Bool-cases (descends m va table l)) [
    | inl e ↦
        let below = entry m va table l in
        let there = down m va below.pa l (both perm below.perm) in
        subst (GoesOn table (suc l) perm) (sym (down-descends m va table l perm e)) (λ h.
          let same : va / span (suc l) ≡ vb / span (suc l) =
            agree_le va vb (suc there.level) (suc l)
              (omega (arith, down_level m va l below.pa (both perm below.perm))) h in
          goes_on l below.pa (both perm below.perm) h ∙ descended table l perm same e)
    | inr e ↦ subst (GoesOn table (suc l) perm) (sym (down-stop m va table l perm e)) (λ h. refl)
  ]

module _ (m : Tables) (va vb : ℕ) where
  abbrev SameEntry : ℕ → ℕ → Perm → Vmiter → Type 0
  SameEntry table l perm it =
      va / span it.level ≡ vb / span it.level → down m vb table l perm ≡ record it { va = vb }

  -- The addresses that the entry of an address covers are found there as well.
  pub same_entry : (l table : ℕ) (perm : Perm) → SameEntry table l perm (down m va table l perm)
  unfolding down
  same_entry zero table perm =
      λ h. ap (λ x. record (stop vb table zero perm) { index = x % 2 ^ 9 }) (sym h)
  same_entry (suc l) table perm = elim (Bool-cases (descends m va table l)) [
    | inl e ↦
        let below = entry m va table l in
        let there = down m va below.pa l (both perm below.perm) in
        subst (SameEntry table (suc l) perm) (sym (down-descends m va table l perm e)) (λ h.
          let same : va / span (suc l) ≡ vb / span (suc l) =
            agree_le va vb there.level (suc l)
              (omega (arith, down_level m va l below.pa (both perm below.perm))) h in
          sym (descended m va vb table l perm same e)
          ∙ same_entry l below.pa (both perm below.perm) h)
    | inr e ↦ subst (SameEntry table (suc l) perm) (sym (down-stop m va table l perm e)) (λ h.
        let index : pageindex va (suc l) ≡ pageindex vb (suc l) = ap (λ x. x % 2 ^ 9) h in
        down-stop m vb table l perm (sym (descends-same m va vb table l index) ∙ e)
        ∙ ap (λ i. record (stop vb table (suc l) perm) { index = i }) (sym index))
  ]

-- `real_find` moves an iterator to where a walk from the root finds the address, wherever it stood.
pub real_find-from_top :
    (m : Tables) (root va vb : ℕ) → real_find m root (from_top m root va) vb ≡ from_top m root vb
unfolding real_find
real_find-from_top m root va vb =
    let it = from_top m root va in
    let at : it.va ≡ va = down_va m va 3 root initial_perm in
    elim (Bool-cases (it.va / span (suc it.level) == vb / span (suc it.level))) [
      | inl e ↦
          let same : it.va / span (suc it.level) ≡ vb / span (suc it.level) = (==_iff _ _).0 e in
          rw (e) (
            goes_on m va vb 3 root initial_perm (ap (λ x. x / span (suc it.level)) (sym at) ∙ same))
      | inr e ↦ rw (e) refl
    ]
