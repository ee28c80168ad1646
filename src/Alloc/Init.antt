-- ===== src/Alloc/Init.antt =====
-- k-alloc.cc: `init_kalloc` cuts the ranges of `physical_ranges` into blocks.
pub mod Filled
use pug_os.Prelude.{
  ℕ, zero, suc, ◌+◌, ◌-◌, ◌*◌, ◌/◌, ◌%◌, ◌^◌, ◌≤◌, ◌<◌, ◌≡◌, refl, inl, inr, Bool, true, false, not,
  Option, some, none, List, [], ◌∷◌, arith, if◌then◌else◌, update, count, ltb, count-nil, ap, ◌∙◌,
  subst, pow_pos, ◌>>=◌, ◌>>◌, check, Bool-cases, Option-cases,
}
use pug_os.Alloc.{
  Allocator, zero_page, min_order, max_order, npages, page_size, find_max_order, push_back,
}
use pug_os.Alloc.Buddy.{pow_page}
use pug_os.Alloc.Order.{IsLargest, find_max_order-IsLargest}
use pug_os.Alloc.Inv.{
  IsValid, IsBase, block_pages, IsAligned-of_mod, mod_of_IsAligned, on_list, push, count-push,
}

-- A range of `physical_ranges`; `available` says that its type is `mem_available`.
pub record Range : Type 0 where
  pub first : ℕ
  pub last : ℕ
  pub available : Bool

-- `MEMSIZE_PHYSICAL`
abbrev pub memory : ℕ
memory = npages * page_size

-- After `memset(pages, 0, sizeof(pages))`; the lists are empty at the start.
abbrev pub blank : Allocator
blank = record { pages = λ i. zero_page; free = λ o. []; wiped = [] }

-- The block of the order at `addr`, free and listed if its range is available.
pub put_block : Allocator → ℕ → ℕ → Bool → Option Allocator
unfolding push_back
put_block s addr o available =
    let i = addr / page_size in
    let fresh = λ (used : Bool). record s {
      pages = update s.pages i (record { order = o; pindex = i; allocated = used });
    } in
    check (ltb i npages) >> (if available then push_back (fresh false) o i else some (fresh true))

-- The inner loop, over one range.
pub cut_range : ℕ → Allocator → ℕ → ℕ → Bool → Option Allocator
cut_range zero s addr last available = none
cut_range (suc fuel) s addr last available = elim (ltb addr last) [
  | true ↦ elim (find_max_order addr last) [
    | some o ↦ put_block s addr o available >>= λ t. cut_range fuel t (addr + 2 ^ o) last available
    | none ↦ some s
  ]
  | false ↦ some s
]

-- The outer loop. A block has at least `page_size` bytes, which bounds the rounds on a range.
pub cut_ranges : Allocator → List Range → Option Allocator
unfolding cut_range
cut_ranges s [] = some s
cut_ranges s (r ∷ rs) =
    let rest =
      cut_range (r.last / page_size + 2) s r.first r.last r.available >>= λ t. cut_ranges t rs in
    if ltb r.first memory then rest else some s

pub init_kalloc : List Range → Option Allocator
unfolding cut_ranges
init_kalloc ranges = cut_ranges blank ranges

-- The blocks made so far end by the page `a`.
pub record Cut (s : Allocator) (a : ℕ) : Type 0 where
  pub valid : IsValid s
  pub ends : (i : ℕ) → IsBase s i → i + block_pages (s.pages i).order ≤ a

pub blank-Cut : Cut blank 0
blank-Cut = record {
  valid = record {
    order_in = λ i b. absurd (omega arith);
    self = λ i b. absurd (omega arith);
    aligned = λ i b. absurd (omega arith);
    inside = λ i b. absurd (omega arith);
    apart = λ i j b c d. absurd (omega arith);
    listed = λ o i p. ground (arith, count-nil i);
  };
  ends = λ i b. absurd (omega arith);
}

pub put : Allocator → ℕ → ℕ → Bool → Allocator
put s i o available =
    let marked = record s {
      pages = update s.pages i (record { order = o; pindex = i; allocated = not available });
    } in
    if available then record marked { free = push s.free o i } else marked

module _ (s : Allocator) (i o : ℕ) (available : Bool) (v : Cut s i) (p : min_order ≤ o)
    (q : o ≤ max_order) (a : i % block_pages o ≡ 0) (h : i + block_pages o ≤ npages) where
  put-listed :
      (o' k : ℕ)
      → min_order ≤ o'
      → count k ((put s i o available).free o')
        ≡ (if on_list (put s i o available) npages o' k then 1 else 0)
  unfolding put
  put-listed o' k d = ground (
    arith,
    v.valid.listed o' k,
    count-push s.free o i o' k,
    v.ends k,
    v.ends i,
    pow_pos (o - min_order),
    pow_pos ((s.pages i).order - min_order),
  )

  pub put-Cut : (b : ℕ) → b ≡ i + block_pages o → Cut (put s i o available) b
  unfolding put
  put-Cut b e = record {
    valid = record {
      order_in = λ k c. ground (arith, v.valid.order_in k);
      self = λ k c. ground (arith, v.valid.self k);
      aligned = λ k c. ground (arith, v.valid.aligned k);
      inside = λ k c. ground (arith, v.valid.inside k);
      apart = λ k j c d e. ground (
        arith,
        v.valid.apart k j,
        v.ends k,
        v.ends j,
        pow_pos ((s.pages j).order - min_order),
        pow_pos (o - min_order),
      );
      listed = put-listed;
    };
    ends = λ k c. ground (arith, v.ends k);
  }

pub Cut-mono : (s : Allocator) (a b : ℕ) → a ≤ b → Cut s a → Cut s b
Cut-mono s a b p v = record { valid = v.valid; ends = λ i c. omega (arith, v.ends i c) }

-- The page of an address that is a multiple of a block's size in bytes.
pub page_of_block :
    (o addr : ℕ)
    → min_order ≤ o
    → addr % 2 ^ o ≡ 0
    → (addr / page_size % block_pages o ≡ 0)
      × (addr / page_size * page_size ≡ addr)
      × (2 ^ o ≡ page_size * block_pages o)
page_of_block o addr p e =
    let d : 2 ^ o ≡ page_size * block_pages o =
      ap (λ (t : ℕ). 2 ^ t) (omega arith) ∙ pow_page (o - min_order) in
    let (m, f) = IsAligned-of_mod o addr e in
    let g : addr ≡ m * block_pages o * page_size = omega (arith, f, ap (λ (t : ℕ). m * t) d) in
    let page : addr / page_size ≡ m * block_pages o = omega (arith, g) in
    (mod_of_IsAligned (o - min_order) (addr / page_size) (m, page), omega (arith, g), d)

pub put_block-put :
    (s : Allocator) (addr o : ℕ) (available : Bool)
    → min_order ≤ o
    → o ≤ max_order
    → addr / page_size < npages
    → put_block s addr o available ≡ some (put s (addr / page_size) o available)
unfolding put_block push_back put
put_block-put s addr o available p q h = ground arith

-- The ranges follow one another, and those that start below `MEMSIZE_PHYSICAL` end by it.
abbrev pub Ascending : ℕ → List Range → Type 0
Ascending lo [] = Unit {0}
Ascending lo (r ∷ rs) =
    (lo ≤ r.first) × (r.first ≤ r.last) × (r.first < memory → r.last ≤ memory) × Ascending r.last rs
