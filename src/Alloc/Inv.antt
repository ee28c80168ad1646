-- ===== src/Alloc/Inv.antt =====
-- k-alloc.cc: the state of the allocator between the steps of an operation.
use pug_os.Prelude.{
  ℕ, ◌+◌, ◌-◌, ◌/◌, ◌%◌, ◌^◌, ◌≤◌, ◌<◌, ◌≡◌, ◌≢◌, Bool, false, not, ◌&&◌, List, [], ◌∷◌, ◌++◌,
  arith, ◌==◌, if◌then◌else◌, update, count, count-cons, count-push_back, ap, ◌∙◌,
}
use native.Mathlib.Nat.{div-add-mod', mul-mod_left}
use pug_os.Alloc.{Allocator, min_order, max_order, npages}
use pug_os.Alloc.Buddy.{IsAligned}

-- The number of pages of a block.
abbrev pub block_pages : ℕ → ℕ
block_pages o = 2 ^ (o - min_order)

-- A block starts at the page: only such an entry of `pages` has an order.
abbrev pub IsBase : Allocator → ℕ → Type 0
IsBase s i = 0 < (s.pages i).order

-- The block `i` belongs on the list of the order `o`; `h` is a block in hand, on no list.
abbrev pub on_list : Allocator → ℕ → ℕ → ℕ → Bool
on_list s h o i = ((s.pages i).order == o) && (not (s.pages i).allocated && not (i == h))

-- Blocks have an order from 12 to 24, know their own index, are aligned to their size, lie within
-- memory and do not overlap; and the list of an order holds each free block of it once, and nothing
-- else. `h` is a free block that is in hand, or `npages` if there is none.
pub record Inv (s : Allocator) (h : ℕ) : Type 0 where
  pub order_in :
      (i : ℕ) → IsBase s i → (min_order ≤ (s.pages i).order) × ((s.pages i).order ≤ max_order)
  pub self : (i : ℕ) → IsBase s i → (s.pages i).pindex ≡ i
  pub aligned : (i : ℕ) → IsBase s i → i % block_pages (s.pages i).order ≡ 0
  pub inside : (i : ℕ) → IsBase s i → i + block_pages (s.pages i).order ≤ npages
  pub apart : (i j : ℕ) → IsBase s i → IsBase s j → i < j → i + block_pages (s.pages i).order ≤ j
  pub listed : (o i : ℕ) → min_order ≤ o → count i (s.free o) ≡ (if on_list s h o i then 1 else 0)

-- Between operations no block is in hand.
abbrev pub IsValid : Allocator → Type 0
IsValid s = Inv s npages

pub IsAligned-of_mod : (k i : ℕ) → i % 2 ^ k ≡ 0 → IsAligned k i
IsAligned-of_mod k i e = (i / 2 ^ k, omega (arith, div-add-mod' i (2 ^ k)))

pub mod_of_IsAligned : (k i : ℕ) → IsAligned k i → i % 2 ^ k ≡ 0
mod_of_IsAligned k i (m, e) = ap (λ (t : ℕ). t % 2 ^ k) e ∙ mul-mod_left m (2 ^ k)

-- What a block that is first on a list is like.
pub Inv-head :
    {s : Allocator} {h : ℕ} (o i : ℕ) (rest : List ℕ)
    → Inv s h
    → min_order ≤ o
    → s.free o ≡ i ∷ rest
    → ((s.pages i).order ≡ o) × ((s.pages i).allocated ≡ false) × (i ≢ h) × (count i rest ≡ 0)
Inv-head {s} {h} o i rest v p e =
    ground (arith, v.listed o i p, ap (count i) e, count-cons i i rest)

-- `list::push_back`, as a change of the lists.
abbrev pub push : (ℕ → List ℕ) → ℕ → ℕ → ℕ → List ℕ
push free o i = update free o (free o ++ i ∷ [])

pub count-push :
    (free : ℕ → List ℕ) (o i o' q : ℕ)
    → count q (push free o i o') ≡ count q (free o') + (if (o == o') && (i == q) then 1 else 0)
count-push free o i o' q = ground (arith, count-push_back q i (free o))
