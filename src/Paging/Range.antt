-- ===== src/Paging/Range.antt =====
-- k-vmiter.cc: `check_range`; kernel.cc: `validate_memory`.
use pug_os.Prelude.{
  ℕ, zero, suc, ◌+◌, ◌-◌, ◌*◌, ◌/◌, ◌%◌, ◌^◌, ◌≤◌, ◌<◌, ◌≡◌, ◌≢◌, refl, sym, ◌∙◌, ap, subst, ◌⊎◌,
  Bool, true, false, ◌||◌, ◌==◌, Bool-cases, some, inl, inr, arith, lt_cases, ltb,
}
use native.Mathlib.Nat.{div-eq_of_lt-le, div-mul-le_self, lt-div-mul-add, add-mul}
use pug_os.Paging.{
  Perm, Tables, span, from_top, real_find, initial_perm, step, has_perm, check_from, check_range,
  validate_memory, va_lowend, va_highmax,
}
use pug_os.Paging.Walk.{down_va, same_entry, real_find-from_top}

span_pos : (l : ℕ) → 0 < span l
unfolding span
span_pos zero = omega arith
span_pos (suc l) = omega (arith, span_pos l)

module _ (m : Tables) (root : ℕ) (p : Perm) where
  -- What the entry of the address, and those above it, allow.
  abbrev pub allowed : ℕ → Bool
  allowed va = has_perm m (from_top m root va) p

  abbrev size : ℕ → ℕ
  size va = span (from_top m root va).level

  abbrev next : ℕ → ℕ
  next va = (va / size va + 1) * size va

  step-next : (va : ℕ) → step m root (from_top m root va) ≡ from_top m root (next va)
  step-next va =
      ap (λ x. real_find m root (from_top m root va) ((x / size va + 1) * size va))
        (down_va m va 3 root initial_perm)
      ∙ real_find-from_top m root va (next va)

  next-lt : (va : ℕ) → va < next va
  next-lt va =
      let s = size va in
      let e : (va / s + 1) * s ≡ va / s * s + s = omega (arith, add-mul (va / s) 1 s) in
      subst (λ x. va < x) (sym e) (lt-div-mul-add {a = va} {b = s} (span_pos _))

  same_allowed : (va x : ℕ) → va ≤ x → x < next va → allowed x ≡ allowed va
  same_allowed va x a b =
      let s = size va in
      let e : x / s ≡ va / s = div-eq_of_lt-le s (omega (arith, div-mul-le_self va s)) b in
      ap (λ it. has_perm m it p) (same_entry m va x 3 root initial_perm (sym e))

  -- The answer is whether every address of the range allows what is asked.
  pub record Checked (va end : ℕ) (b : Bool) : Type 0 where
    pub all : b ≡ true → (x : ℕ) → va ≤ x → x < end → allowed x ≡ true
    pub some_not : b ≡ false → (x : ℕ) × (va ≤ x) × (x < end) × (allowed x ≡ false)

  check_from-end :
      (n va end : ℕ) → end ≤ va → check_from (suc n) m root (from_top m root va) end p ≡ some true
  unfolding check_from
  check_from-end n va end h =
      let e : ltb (from_top m root va).va end ≡ false =
        ap (λ x. ltb x end) (down_va m va 3 root initial_perm) ∙ ground (arith, h) in
      rw (e) refl

  check_from-not :
      (n va end : ℕ)
      → va < end
      → allowed va ≡ false
      → check_from (suc n) m root (from_top m root va) end p ≡ some false
  unfolding check_from
  check_from-not n va end h d =
      let e : ltb (from_top m root va).va end ≡ true =
        ap (λ x. ltb x end) (down_va m va 3 root initial_perm) ∙ ground (arith, h) in
      rw (e, d) refl

  check_from-next :
      (n va end : ℕ)
      → va < end
      → allowed va ≡ true
      → check_from (suc n) m root (from_top m root va) end p
        ≡ check_from n m root (from_top m root (next va)) end p
  unfolding check_from
  check_from-next n va end h d =
      let e : ltb (from_top m root va).va end ≡ true =
        ap (λ x. ltb x end) (down_va m va 3 root initial_perm) ∙ ground (arith, h) in
      rw (e, d) (ap (λ it. check_from n m root it end p) (step-next va))

  check_from-Checked :
      (n va end : ℕ)
      → end ≤ va + n
      → (b : Bool) × (check_from (suc n) m root (from_top m root va) end p ≡ some b)
        × Checked va end b
  check_from-Checked zero va end h = (
    true,
    check_from-end zero va end (omega arith),
    record { all = λ e x a b. absurd (omega arith); some_not = λ e. cc },
  )
  check_from-Checked (suc n) va end h = elim (lt_cases va end) [
    | inr out ↦ (
      true,
      check_from-end (suc n) va end out,
      record { all = λ e x a b. absurd (omega arith); some_not = λ e. cc },
    )
    | inl within ↦ elim (Bool-cases (allowed va)) [
      | inr d ↦ (
        false,
        check_from-not (suc n) va end within d,
        record { all = λ e. cc; some_not = λ e. (va, omega arith, within, d) },
      )
      | inl d ↦
          let (b, e, c) = check_from-Checked n (next va) end (omega (arith, next-lt va)) in
          (
            b,
            check_from-next (suc n) va end within d ∙ e,
            record {
              all = λ t x a l. elim (lt_cases x (next va)) [
                | inl before ↦ same_allowed va x a before ∙ d
                | inr behind ↦ c.all t x behind l
              ];
              some_not =
                  λ t. let (x, a, l, z) = c.some_not t in (x, omega (arith, next-lt va), l, z);
            },
          )
    ]
  ]

  -- What `validate_memory` answers.
  pub record Validated (addr sz : ℕ) (b : Bool) : Type 0 where
    pub valid :
        b ≡ true
        → (addr ≢ 0)
          × (addr + sz ≤ va_lowend)
          × ((x : ℕ) → addr ≤ x → x < addr + sz → allowed x ≡ true)
    pub invalid :
        b ≡ false
        → (addr ≡ 0)
          ⊎ ((va_lowend < addr + sz)
              ⊎ ((x : ℕ) × (addr ≤ x) × (x < addr + sz) × (allowed x ≡ false)))

  outside : ℕ → ℕ → Bool
  outside addr sz =
      (addr == 0) || ltb va_lowend ((addr + sz) % 2 ^ 64) || ltb (va_highmax - sz) addr

  outside-true :
      (addr sz : ℕ)
      → addr < 2 ^ 64
      → sz < 2 ^ 64
      → outside addr sz ≡ true
      → (addr ≡ 0) ⊎ (va_lowend < addr + sz)
  unfolding outside
  outside-true addr sz a b h = ground (arith, h, a, b)

  outside-false :
      (addr sz : ℕ)
      → addr < 2 ^ 64
      → sz < 2 ^ 64
      → outside addr sz ≡ false
      → (addr ≢ 0) × (addr + sz ≤ va_lowend)
  unfolding outside
  outside-false addr sz a b h = ground (arith, h, a, b)

  -- `validate_memory` ends with fuel for each byte of the range, and one more, and says whether the range is
  -- in user space, does not start at the null pointer, and every address of it allows what is asked in all
  -- the entries of the page tables on its way: no sum wraps around unnoticed, and no page is passed over.
  pub validate_memory-Validated :
      (n addr sz : ℕ)
      → addr < 2 ^ 64
      → sz < 2 ^ 64
      → sz ≤ n
      → (b : Bool) × (validate_memory (suc n) m root addr sz p ≡ some b) × Validated addr sz b
  unfolding validate_memory check_range outside
  validate_memory-Validated n addr sz a b h = elim (Bool-cases (outside addr sz)) [
    | inl e ↦ (
      false,
      rw (e) refl,
      record {
        valid = λ t. cc;
        invalid = λ t. elim (outside-true addr sz a b e) [ inl z ↦ inl z | inr z ↦ inr (inl z) ];
      },
    )
    | inr e ↦ elim (lt_cases 0 sz) [
      | inl some_size ↦
          let (r, x, c) = check_from-Checked n addr (addr + sz) (omega arith) in
          let z : ltb 0 sz ≡ true = ground arith in
          (
            r,
            rw (e, z) x,
            record {
              valid = λ t. let (u, v) = outside-false addr sz a b e in (u, v, c.all t);
              invalid = λ t. inr (inr (c.some_not t));
            },
          )
      | inr no_size ↦
          let z : ltb 0 sz ≡ false = ground arith in
          (
            true,
            rw (e, z) refl,
            record {
              valid = λ t.
                  let (u, v) = outside-false addr sz a b e in (u, v, λ x c d. absurd (omega arith));
              invalid = λ t. cc;
            },
          )
    ]
  ]
