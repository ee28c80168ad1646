-- ===== src/Alloc/Buddy.antt =====
-- k-alloc.cc: `buddy_pindex`, and the alignment of blocks. `k` is an order less `MIN_ORDER`, so that
-- a block has `2 ^ k` pages.
use pug_os.Prelude.{
  ℕ, zero, suc, ◌+◌, ◌*◌, ◌/◌, ◌%◌, ◌^◌, ◌≡◌, refl, ◌⊎◌, inl, inr, arith, min, max, pow_pos,
  pow_suc, ap, ◌∙◌, sym,
}
use native.Mathlib.Nat.{mul-mod_left, add-mul-mod_self_right, mod-eq_of_lt}
use pug_os.Alloc.{buddy_pindex, min_order, page_size}

pub pow_page : (k : ℕ) → 2 ^ (min_order + k) ≡ page_size * 2 ^ k
pow_page zero = refl
pow_page (suc k) =
    let e : min_order + suc k ≡ suc (min_order + k) = omega arith in
    rw e (omega (arith, pow_suc (min_order + k), pow_suc k, pow_page k))

abbrev pub IsAligned : ℕ → ℕ → Type 0
IsAligned k i = (m : ℕ) × (i ≡ m * 2 ^ k)

half_cases : (m : ℕ) → (m ≡ 2 * (m / 2)) ⊎ (m ≡ 2 * (m / 2) + 1)
half_cases m = omega arith

-- An aligned block is the first or the second half of an aligned block of the next order.
pub IsAligned-cases :
    (k i : ℕ) → IsAligned k i → IsAligned (suc k) i ⊎ ((m : ℕ) × (i ≡ m * 2 ^ suc k + 2 ^ k))
IsAligned-cases k i (m, e) = elim (half_cases m) [
  | inl h ↦
      inl (
        m / 2,
        omega (arith, e, ap (λ (t : ℕ). m / 2 * t) (pow_suc k), ap (λ (t : ℕ). t * 2 ^ k) h),
      )
  | inr h ↦
      inr (
        m / 2,
        omega (arith, e, ap (λ (t : ℕ). m / 2 * t) (pow_suc k), ap (λ (t : ℕ). t * 2 ^ k) h),
      )
]

pair_size : (k : ℕ) → 2 ^ (min_order + k + 1) ≡ 2 * (page_size * 2 ^ k)
pair_size k =
    let e : min_order + k + 1 ≡ suc (min_order + k) = omega arith in
    rw e (omega (arith, pow_suc (min_order + k), pow_page k))

even_test : (m k i : ℕ) → i ≡ m * 2 ^ suc k → i * page_size % 2 ^ (min_order + k + 1) ≡ 0
even_test m k i e =
    let bytes : i * page_size ≡ m * (2 * (page_size * 2 ^ k)) =
      omega (arith, e, ap (λ (t : ℕ). m * t) (pow_suc k)) in
    rw (pair_size k, bytes) (mul-mod_left m (2 * (page_size * 2 ^ k)))

odd_test :
    (m k i : ℕ)
    → i ≡ m * 2 ^ suc k + 2 ^ k
    → i * page_size % 2 ^ (min_order + k + 1) ≡ page_size * 2 ^ k
odd_test m k i e =
    let bytes : i * page_size ≡ page_size * 2 ^ k + m * (2 * (page_size * 2 ^ k)) =
      omega (arith, e, ap (λ (t : ℕ). m * t) (pow_suc k)) in
    rw (pair_size k, bytes)
      (add-mul-mod_self_right (page_size * 2 ^ k) m (2 * (page_size * 2 ^ k))
        ∙ mod-eq_of_lt {m = 2 * (page_size * 2 ^ k)} (omega (arith, pow_pos k)))

pub buddy_pindex-even : (k i : ℕ) → IsAligned (suc k) i → buddy_pindex i (min_order + k) ≡ i + 2 ^ k
unfolding buddy_pindex
buddy_pindex-even k i (m, e) = ground (arith, even_test m k i e, pow_page k)

pub buddy_pindex-odd :
    (k i m : ℕ) → i ≡ m * 2 ^ suc k + 2 ^ k → buddy_pindex i (min_order + k) ≡ m * 2 ^ suc k
unfolding buddy_pindex
buddy_pindex-odd k i m e = ground (arith, odd_test m k i e, pow_page k, pow_pos k)

-- For a block aligned to its size, the buddy's buddy is the block itself, and the two blocks are the
-- halves of a block of the next order, which is aligned to its own size.
pub buddy_pindex-pair :
    (k i : ℕ)
    → IsAligned k i
    → let b = buddy_pindex i (min_order + k) in
      (buddy_pindex b (min_order + k) ≡ i)
      × (max i b ≡ min i b + 2 ^ k)
      × IsAligned (suc k) (min i b)
buddy_pindex-pair k i a = elim (IsAligned-cases k i a) [ inl h ↦ even h | inr (m, e) ↦ odd m e ]
  where
    even :
        IsAligned (suc k) i
        → let b = buddy_pindex i (min_order + k) in
          (buddy_pindex b (min_order + k) ≡ i)
          × (max i b ≡ min i b + 2 ^ k)
          × IsAligned (suc k) (min i b)
    even (m, e) = rw (buddy_pindex-even k i (m, e)) (
      buddy_pindex-odd k (i + 2 ^ k) m (omega (arith, e)) ∙ sym e,
      omega arith,
      (m, omega (arith, e)),
    )

    odd :
        (m : ℕ)
        → i ≡ m * 2 ^ suc k + 2 ^ k
        → let b = buddy_pindex i (min_order + k) in
          (buddy_pindex b (min_order + k) ≡ i)
          × (max i b ≡ min i b + 2 ^ k)
          × IsAligned (suc k) (min i b)
    odd m e = rw (buddy_pindex-odd k i m e) (
      buddy_pindex-even k (m * 2 ^ suc k) (m, refl) ∙ sym e,
      omega (arith, e),
      (m, omega (arith, e)),
    )
