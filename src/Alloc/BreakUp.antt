-- ===== src/Alloc/BreakUp.antt =====
-- k-alloc.cc: the loop of `kalloc` ends with a block of the order on its list.
use pug_os.Prelude.{
  ℕ, zero, suc, ◌+◌, ◌-◌, ◌≤◌, ◌<◌, ◌≡◌, refl, inl, inr, true, false, Option, some, none, List, [],
  ◌∷◌, ◌++◌, arith, ◌==◌, update, ◌∙◌, subst, Bool-cases,
}
use pug_os.Alloc.{Allocator, min_order, max_order, min_larger_order, break_up, is_empty}
use pug_os.Alloc.Order.{IsFirst, min_larger_order-IsFirst}
use pug_os.Alloc.Inv.{IsValid, Inv-head, IsBase, block_pages, push}
use pug_os.Alloc.Split.{halved, halved-Inv, split-halved, second_free}

-- The blocks in use are left as they are.
abbrev pub Keeps : Allocator → Allocator → Type 0
Keeps s t = (k : ℕ) → IsBase s k → (s.pages k).allocated ≡ true → t.pages k ≡ s.pages k

pub Keeps-trans : (s t u : Allocator) → Keeps s t → Keeps t u → Keeps s u
Keeps-trans s t u f g k b a = g k (ground (arith, f k b a)) (ground (arith, f k b a)) ∙ f k b a

-- The list of the order is not empty.
abbrev pub Offers : Allocator → ℕ → Type 0
Offers s o = (i : ℕ) × (rest : List ℕ) × (s.free o ≡ i ∷ rest)

Offers-of_test : (s : Allocator) (o : ℕ) → is_empty (s.free o) ≡ false → Offers s o
Offers-of_test s o e = go (s.free o) refl e
  where
    go :
        (l : List ℕ)
        → s.free o ≡ l
        → is_empty l ≡ false
        → (i : ℕ) × (rest : List ℕ) × (s.free o ≡ i ∷ rest)
    go [] e h = cc
    go (i ∷ rest) e h = (i, rest, e)

-- With a block on the list of `m`, the search for an order from `o` on ends by `m`.
min_larger_order_le :
    (s : Allocator) (o m : ℕ)
    → o ≤ m
    → m ≤ max_order
    → is_empty (s.free m) ≡ false
    → (r : ℕ) × (min_larger_order s o ≡ some r) × (o ≤ r) × (r ≤ m)
min_larger_order_le s o m p q e =
    go (min_larger_order s o) refl (min_larger_order-IsFirst s o (omega arith))
  where
    go :
        (r : Option ℕ)
        → min_larger_order s o ≡ r
        → IsFirst s.free o (max_order + 1) r
        → (r : ℕ) × (min_larger_order s o ≡ some r) × (o ≤ r) × (r ≤ m)
    go none e' h = ground (arith, h m)
    go (some r) e' h = (r, e', h.0, ground (arith, h.3 m))

==_self : (o : ℕ) → (o == o) ≡ true
==_self o = ground arith

push-offers : (free : ℕ → List ℕ) (o i : ℕ) → is_empty (push free o i o) ≡ false
push-offers free o i = rw (==_self o) (append-offers (free o))
  where
    append-offers : (l : List ℕ) → is_empty (l ++ i ∷ []) ≡ false
    append-offers [] = refl
    append-offers (x ∷ l) = refl

halved-offers :
    (s : Allocator) (larger i : ℕ) (rest : List ℕ)
    → is_empty ((halved s larger i rest).free (larger - 1)) ≡ false
halved-offers s larger i rest =
    push-offers (push (update s.free larger rest) (larger - 1) i) (larger - 1)
      (i + block_pages (larger - 1))

pub record Ready (s : Allocator) (o : ℕ) (t : Allocator) : Type 0 where
  pub valid : IsValid t
  pub keeps : Keeps s t
  pub offers : Offers t o

halved-Keeps :
    (s : Allocator) (larger i : ℕ) (rest : List ℕ)
    → IsValid s
    → min_order < larger
    → larger ≤ max_order
    → s.free larger ≡ i ∷ rest
    → Keeps s (halved s larger i rest)
halved-Keeps s larger i rest v p q e k b a =
    ground (arith, Inv-head larger i rest v, second_free larger i rest v p q e)

-- What a result of `min_larger_order` says of the state.
pub found :
    (s : Allocator) (o r : ℕ)
    → o ≤ max_order
    → min_larger_order s o ≡ some r
    → IsFirst s.free o (max_order + 1) (some r)
found s o r p e =
    subst (IsFirst s.free o (max_order + 1)) e (min_larger_order-IsFirst s o (omega arith))

pub break_up-Ready :
    (fuel : ℕ) (s : Allocator) (o larger : ℕ)
    → IsValid s
    → min_order ≤ o
    → o ≤ max_order
    → min_larger_order s o ≡ some larger
    → larger < o + fuel
    → (t : Allocator) × (break_up fuel s o ≡ some t) × Ready s o t
unfolding break_up
break_up-Ready zero s o larger v p q e h = absurd (omega (arith, found s o larger q e))
break_up-Ready (suc fuel) s o larger v p q e h = elim (Bool-cases (is_empty (s.free o))) [
  | inr x ↦
      rw (x, break_up)
        (s, refl, record { valid = v; keeps = λ k b a. refl; offers = Offers-of_test s o x })
  | inl x ↦
      let f = found s o larger q e in
      let above : o < larger = ground (arith, f, x) in
      let (i, rest, l) = Offers-of_test s larger f.2 in
      let t = halved s larger i rest in
      let w : IsValid t = halved-Inv larger i rest v (omega arith) (omega (arith, f.1)) l refl in
      let (r, e', lo, hi) =
        min_larger_order_le t o (larger - 1) (omega arith) (omega (arith, f.1))
          (halved-offers s larger i rest) in
      let (u, run, ready) = break_up-Ready fuel t o r w p q e' (omega arith) in
      rw (x, break_up, split-halved larger i rest v (omega arith) (omega (arith, f.1)) l o e)
        (
          u,
          run,
          record {
            valid = ready.valid;
            keeps =
                Keeps-trans s t u
                  (halved-Keeps s larger i rest v (omega arith) (omega (arith, f.1)) l) ready.keeps;
            offers = ready.offers;
          },
        )
]
