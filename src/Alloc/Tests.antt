-- ===== src/Alloc/Tests.antt =====
-- Tests of k-alloc.cc, and the theorems at concrete states.
use pug_os.Prelude.{
  ℕ, ◌-◌, ◌*◌, ◌^◌, ◌≤◌, ◌≡◌, refl, true, false, Option, some, none, List, [], ◌∷◌, arith, ◌==◌,
  if◌then◌else◌, count-nil, count-cons,
}
use pug_os.Alloc.{
  Allocator, zero_page, page_size, order_of, find_max_order, kalloc, kfree, take_block, break_up,
  split, size_order, buddy_pindex,
}
use pug_os.Alloc.Inv.{IsValid, block_pages}
use pug_os.Alloc.Kalloc.{kalloc-result, KallocResult}
use pug_os.Alloc.Kfree.{kfree-Freed, Freed}
use pug_os.Alloc.Init.{Range, init_kalloc}
use pug_os.Alloc.Init.Filled.{AllFilled, init_kalloc-Filled}

-- The assertions of `test_kalloc` about the helpers.
order_of-tests :
    (order_of 0 ≡ 0) × (order_of 4095 ≡ 12) × (order_of 4096 ≡ 12) × (order_of 4097 ≡ 13)
unfolding order_of
order_of-tests = (refl, refl, refl, refl)

find_max_order-tests :
    (find_max_order 7 10 ≡ none)
    × (find_max_order 0x1000 0x10000 ≡ some 12)
    × (find_max_order 0x10000 0xFFFFFFFFFFF ≡ some 16)
    × (find_max_order 0 (2 ^ 64 - 1) ≡ some 24)
    × (find_max_order 0 0x1000 ≡ some 12)
unfolding find_max_order
find_max_order-tests = (refl, refl, refl, refl, refl)

buddy_pindex-tests : (buddy_pindex 0x11 12 ≡ 0x10) × (buddy_pindex 0x10 12 ≡ 0x11)
unfolding buddy_pindex
buddy_pindex-tests = (refl, refl)

-- One free block of 16 MiB.
abbrev whole : Allocator
whole = record {
  pages = λ i. if i == 0 then record { order = 24; pindex = 0; allocated = false } else zero_page;
  free = λ o. if o == 24 then 0 ∷ [] else [];
  wiped = [];
}

-- A page in use, and its free buddy.
abbrev pair : Allocator
pair = record {
  pages = λ i.
      if i == 0
      then record { order = 12; pindex = 0; allocated = true }
      else if i == 1
      then record { order = 12; pindex = 1; allocated = false }
      else zero_page;
  free = λ o. if o == 12 then 1 ∷ [] else [];
  wiped = [];
}

-- The last 2 MiB, in use.
abbrev tail : Allocator
tail = record {
  pages =
      λ i. if i == 7168 then record { order = 21; pindex = 7168; allocated = true } else zero_page;
  free = λ o. [];
  wiped = [];
}

whole-IsValid : IsValid whole
whole-IsValid = record {
  order_in = λ i b. ground arith;
  self = λ i b. ground arith;
  aligned = λ i b. ground arith;
  inside = λ i b. ground arith;
  apart = λ i j b c d. ground arith;
  listed = λ o i p. ground (arith, count-nil i, count-cons i 0 []);
}

pair-IsValid : IsValid pair
pair-IsValid = record {
  order_in = λ i b. ground arith;
  self = λ i b. ground arith;
  aligned = λ i b. ground arith;
  inside = λ i b. ground arith;
  apart = λ i j b c d. ground arith;
  listed = λ o i p. ground (arith, count-nil i, count-cons i 1 []);
}

tail-IsValid : IsValid tail
tail-IsValid = record {
  order_in = λ i b. ground arith;
  self = λ i b. ground arith;
  aligned = λ i b. ground arith;
  inside = λ i b. ground arith;
  apart = λ i j b c d. ground arith;
  listed = λ o i p. ground (arith, count-nil i);
}

-- 5000 bytes from the whole block: the first 8 KiB.
address : Option (Option ℕ × Allocator) → Option ℕ
address none = none
address (some (pa, s)) = pa

kalloc-address : (address (kalloc whole 5000) ≡ some 0)
unfolding address kalloc size_order order_of take_block break_up split
kalloc-address = refl

kalloc-result_example :
    (5000 ≤ page_size * block_pages (size_order 5000))
    × KallocResult whole (size_order 5000) (kalloc whole 5000)
kalloc-result_example = kalloc-result whole 5000 whole-IsValid (omega arith) (omega arith)

kfree-Freed_example :
    (t : Allocator) × (kfree pair (some (0 * page_size)) ≡ some t) × Freed pair 0 t
kfree-Freed_example = kfree-Freed pair 0 pair-IsValid (omega arith) refl (omega arith)

-- The first page is reserved, the rest of the first 2 MiB is not.
abbrev memory_map : List Range
memory_map =
    record { first = 0; last = 0x1000; available = false }
    ∷ record { first = 0x1000; last = 0x200000; available = true }
    ∷ record { first = 0x1E00000; last = 0x100000000; available = false }
    ∷ []

init_kalloc-Filled_example :
    (t : Allocator) × (init_kalloc memory_map ≡ some t) × IsValid t × AllFilled t memory_map
init_kalloc-Filled_example = init_kalloc-Filled memory_map (omega arith)
