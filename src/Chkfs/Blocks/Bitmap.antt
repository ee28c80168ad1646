-- ===== src/Chkfs/Blocks/Bitmap.antt =====
-- `allocate_block`: which block it takes, and that it takes no other.
use pug_os.Prelude.{
  update_here, update_other, ℕ, zero, suc, ◌+◌, ◌-◌, ◌/◌, ◌%◌, ◌^◌, ◌<◌, ◌≤◌, ◌≡◌, ◌⊎◌, inl, inr,
  refl, sym, ap, ap₂, ◌∙◌, Bool, true, false, not, ltb, ◌==◌, if◌then◌else◌, arith, eq_cases,
  Bool-cases, pow_suc,
}
use native.Mathlib.Nat.{div-div-eq-div-mul}
use pug_os.Chkfs.Blocks.{is_free, take_bit, search_bitmap, allocate_block, e_nospc}

-- What the search leaves: the first free block, or the one behind the last.
record Searched (fbb fbb' : ℕ → ℕ) (n i bn : ℕ) : Type 0 where
  lower : i ≤ bn
  upper : bn ≤ i + n
  before : (k : ℕ) → i ≤ k → k < bn → is_free fbb k ≡ false
  taken : bn < i + n → (is_free fbb bn ≡ true) × (fbb' ≡ take_bit fbb bn)
  full : i + n ≤ bn → fbb' ≡ fbb

search_bitmap-Searched :
    (n i : ℕ) (fbb : ℕ → ℕ)
    → Searched fbb ((search_bitmap n i fbb).0) n i ((search_bitmap n i fbb).1)
unfolding search_bitmap
search_bitmap-Searched zero i fbb = record {
  lower = omega arith;
  upper = omega arith;
  before = λ k l h. absurd (omega (arith, l, h));
  taken = λ h. absurd (omega (arith, h));
  full = λ h. refl;
}
search_bitmap-Searched (suc n) i fbb =
    let s = search_bitmap-Searched n (i + 1) fbb in
    elim (Bool-cases (is_free fbb i)) [
      | inl here ↦ rw (here) (record {
        lower = omega arith;
        upper = omega arith;
        before = λ k l h. absurd (omega (arith, l, h));
        taken = λ h. (here, refl);
        full = λ h. absurd (omega (arith, h));
      })
      | inr used ↦ rw (used) (record {
        lower = omega (arith, s.lower);
        upper = omega (arith, s.upper);
        before = λ k l h. elim (eq_cases i k) [
          | inl e ↦ ap (is_free fbb) (sym e) ∙ used
          | inr differ ↦ s.before k (omega (arith, l, differ)) h
        ];
        taken = λ h. s.taken (omega (arith, h));
        full = λ h. s.full (omega (arith, h));
      })
    ]

-- The bit of a block in a byte.
bit : ℕ → ℕ → Bool
bit x k = not (x / 2 ^ k % 2 == 0)

div-halves : (x k : ℕ) → x / 2 ^ suc k ≡ x / 2 / 2 ^ k
div-halves x k = ap (λ y. x / y) (pow_suc k) ∙ sym (div-div-eq-div-mul x 2 (2 ^ k))

bit-suc : (x k : ℕ) → bit x (suc k) ≡ bit (x / 2) k
unfolding bit
bit-suc x k = ap (λ y. not (y % 2 == 0)) (div-halves x k)

bit-zero : (x : ℕ) → bit x 0 ≡ not (x % 2 == 0)
unfolding bit
bit-zero x = ground arith

-- A bit that is set is at most the byte.
bit_bound : (x k : ℕ) → bit x k ≡ true → 2 ^ k ≤ x
bit_bound x zero h = let e = sym (bit-zero x) ∙ h in ground (arith, e)
bit_bound x (suc k) h = omega (arith, pow_suc k, bit_bound (x / 2) k (sym (bit-suc x k) ∙ h))

-- Taking a bit that is set out of a byte clears it and leaves the others.
clear_bit : (x k j : ℕ) → bit x k ≡ true → bit (x - 2 ^ k) j ≡ (if k == j then false else bit x j)
clear_bit x zero zero h = let e = sym (bit-zero x) ∙ h in bit-zero (x - 1) ∙ ground (arith, e)
clear_bit x zero (suc j) h =
    let e = sym (bit-zero x) ∙ h in
    let same : (x - 1) / 2 ≡ x / 2 = ground (arith, e) in
    bit-suc (x - 1) j ∙ ap (λ y. bit y j) same ∙ sym (bit-suc x j) ∙ ground arith
clear_bit x (suc k) zero h =
    let bound = bit_bound x (suc k) h in
    let same : (x - 2 ^ suc k) % 2 ≡ x % 2 = omega (arith, bound, pow_suc k) in
    bit-zero (x - 2 ^ suc k) ∙ ap (λ y. not (y == 0)) same ∙ sym (bit-zero x) ∙ ground arith
clear_bit x (suc k) (suc j) h =
    let bound = bit_bound x (suc k) h in
    let half : (x - 2 ^ suc k) / 2 ≡ x / 2 - 2 ^ k = omega (arith, bound, pow_suc k) in
    let rest = clear_bit (x / 2) k j (sym (bit-suc x k) ∙ h) in
    bit-suc (x - 2 ^ suc k) j ∙ ap (λ y. bit y j) half ∙ rest ∙ same
  where
    same :
        (if k == j then false else bit (x / 2) j)
        ≡ (if suc k == suc j then false else bit x (suc j))
    same = ground (arith, bit-suc x j)

-- What `allocate_block` takes.
take_bit-is_free :
    (fbb : ℕ → ℕ) (bn k : ℕ)
    → is_free fbb bn ≡ true
    → is_free (take_bit fbb bn) k ≡ (if bn == k then false else is_free fbb k)
unfolding bit
take_bit-is_free fbb bn k h = elim (eq_cases (bn / 8) (k / 8)) [
  | inl same ↦
      let e = update_here fbb (bn / 8) (k / 8) (fbb (bn / 8) - 2 ^ (bn % 8)) same in
      let bits : (bn % 8 == k % 8) ≡ (bn == k) = ground (arith, same) in
      let c = clear_bit (fbb (bn / 8)) (bn % 8) (k % 8) h in
      ap (λ y. bit y (k % 8)) (sym e)
      ∙ c
      ∙ ap₂ (λ b y. if b then false else bit y (k % 8)) bits (ap fbb same)
  | inr differ ↦
      let e = update_other fbb (bn / 8) (k / 8) (fbb (bn / 8) - 2 ^ (bn % 8)) differ in
      let ne : (bn == k) ≡ false = ground (arith, differ) in
      rw (ne) (ap (λ y. bit y (k % 8)) (sym e))
]

-- The two outcomes of `allocate_block`.
pub record TookBlock (nblocks : ℕ) (fbb fbb' : ℕ → ℕ) (bn : ℕ) : Type 0 where
  pub inside : bn < nblocks
  pub free : is_free fbb bn ≡ true
  pub lowest : (k : ℕ) → k < bn → is_free fbb k ≡ false
  pub after : (k : ℕ) → is_free fbb' k ≡ (if bn == k then false else is_free fbb k)

pub record NoBlock (nblocks : ℕ) (fbb fbb' : ℕ → ℕ) (bn : ℕ) : Type 0 where
  pub error : bn ≡ e_nospc
  pub full : (k : ℕ) → k < nblocks → is_free fbb k ≡ false
  pub unchanged : fbb' ≡ fbb

-- `allocate_block` returns the lowest block whose bit is set in the bitmap, and clears that bit and no other;
-- when no bit of the file system's blocks is set it returns E_NOSPC and changes nothing.
pub allocate_block-lowest :
    (nblocks : ℕ) (fbb : ℕ → ℕ)
    → TookBlock nblocks fbb ((allocate_block nblocks fbb).0) ((allocate_block nblocks fbb).1)
      ⊎ NoBlock nblocks fbb ((allocate_block nblocks fbb).0) ((allocate_block nblocks fbb).1)
unfolding allocate_block
allocate_block-lowest nblocks fbb =
    let s = search_bitmap-Searched nblocks 0 fbb in
    let bn = (search_bitmap nblocks 0 fbb).1 in
    elim (Bool-cases (ltb bn nblocks)) [
      | inl found ↦
          let lt : bn < nblocks = ground (arith, found) in
          let (free, same) = s.taken (omega (arith, lt)) in
          rw (found) (
            inl (record {
              inside = lt;
              free = free;
              lowest = λ k h. s.before k (omega arith) h;
              after = λ k. ap (λ f. is_free f k) same ∙ take_bit-is_free fbb bn k free;
            }))
      | inr none_left ↦
          let ge : nblocks ≤ bn = ground (arith, none_left) in
          rw (none_left) (
            inr (record {
              error = refl;
              full = λ k h. s.before k (omega arith) (omega (arith, h, ge));
              unchanged = s.full (omega (arith, ge));
            }))
    ]
