-- ===== src/Mem/Compare.antt =====
-- lib.cc: `memcmp` as the first difference.
use pug_os.Prelude.{
  ℕ, zero, suc, ◌+◌, ◌<◌, ◌≡◌, ◌≢◌, arith, ◌==◌, eq_cases, true, false, inl, inr, ap, ap₂, sym, ◌∙◌,
  subst,
}
use pug_os.Mem.{Memory, Sign, same, byte_sign, memcmp}

-- The ranges are equal, or the sign is that of the first two bytes that differ.
pub data Compared (mem : Memory) (a b n : ℕ) : Sign → Type 0 where
  equal : ((i : ℕ) → i < n → mem (a + i) ≡ mem (b + i)) → Compared mem a b n same
  differs :
      (k : ℕ)
      → k < n
      → ((i : ℕ) → i < k → mem (a + i) ≡ mem (b + i))
      → mem (a + k) ≢ mem (b + k)
      → Compared mem a b n (byte_sign (mem (a + k)) (mem (b + k)))

shift : (f : ℕ → ℕ) (a i : ℕ) → f (a + suc i) ≡ f (a + 1 + i)
shift f a i = ap f (omega arith)

both :
    (mem : Memory) (a b n : ℕ)
    → mem a ≡ mem b
    → ((i : ℕ) → i < n → mem (a + 1 + i) ≡ mem (b + 1 + i))
    → (i : ℕ) → i < suc n
    → mem (a + i) ≡ mem (b + i)
both mem a b n e h zero p = ap mem (omega arith) ∙ e ∙ ap mem (omega arith)
both mem a b n e h (suc i) p = shift mem a i ∙ h i (omega (arith, p)) ∙ sym (shift mem b i)

Compared-suc :
    (mem : Memory) (a b n : ℕ) (r : Sign)
    → mem a ≡ mem b
    → Compared mem (a + 1) (b + 1) n r
    → Compared mem a b (suc n) r
Compared-suc mem a b n same e (equal h) = equal (both mem a b n e h)
Compared-suc mem a b n _ e (differs k p h d) =
    subst (λ s. Compared mem a b (suc n) s) (ap₂ byte_sign (shift mem a k) (shift mem b k))
      (differs (suc k) (omega (arith, p)) (both mem a b k e h)
        (λ x. d (sym (shift mem a k) ∙ x ∙ shift mem b k)))

-- `memcmp` returns 0 for equal ranges, and else the order of the first two bytes that differ, as unsigned
-- numbers.
pub memcmp-Compared : (mem : Memory) (a b n : ℕ) → Compared mem a b n (memcmp mem a b n)
unfolding memcmp
memcmp-Compared mem a b zero = equal (λ i h. elim h [ ])
memcmp-Compared mem a b (suc n) = elim (eq_cases (mem a) (mem b)) [
  | inl e ↦
      let t : (mem a == mem b) ≡ true = ground (arith, e) in
      rw t (
        Compared-suc mem a b n (memcmp mem (a + 1) (b + 1) n) e
          (memcmp-Compared mem (a + 1) (b + 1) n))
  | inr d ↦
      let f : (mem a == mem b) ≡ false = ground (arith, d) in
      let at_a : mem (a + 0) ≡ mem a = ap mem (omega arith) in
      let at_b : mem (b + 0) ≡ mem b = ap mem (omega arith) in
      rw f (
        subst (λ s. Compared mem a b (suc n) s) (ap₂ byte_sign at_a at_b)
          (differs 0 (omega arith) (λ i h. elim h [ ]) (λ x. d (sym at_a ∙ x ∙ at_b))))
]
