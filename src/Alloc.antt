-- ===== src/Alloc.antt =====
-- k-alloc.cc, the buddy allocator of physical pages. A block is named by the index of its first page
-- in `pages`, and a kernel pointer by its physical address (`ka2pa`). `page_lock` is held for the
-- whole of each operation, so each is one step. `none` is a failed assertion, or an access outside
-- `pages`.
pub mod Order
pub mod Buddy
pub mod Inv
pub mod Split
pub mod BreakUp
pub mod Kalloc
pub mod Merge
pub mod Coalesce
pub mod Kfree
pub mod Init
mod Tests
use pug_os.Prelude.{
  ℕ, zero, suc, ◌+◌, ◌-◌, ◌*◌, ◌/◌, ◌%◌, ◌^◌, min, max, Bool, true, false, not, ◌&&◌, ◌||◌, Option,
  none, some, List, [], ◌∷◌, ◌++◌, ltb, leb, ◌==◌, if◌then◌else◌, update, count, erase, ◌>>=◌, ◌>>◌,
  check,
}

-- PAGESIZE, and MEMSIZE_PHYSICAL / PAGESIZE for 30 MiB of memory.
abbrev pub page_size : ℕ
page_size = 4096

abbrev pub npages : ℕ
npages = 30 * 1024 * 1024 / 4096

abbrev pub min_order : ℕ
min_order = 12

abbrev pub max_order : ℕ
max_order = 24

abbrev pub norders : ℕ
norders = 13

-- `pagestate`; its `link_` is the place in a list of `free`.
pub record PageState : Type 0 where
  pub order : ℕ
  pub pindex : ℕ
  pub allocated : Bool

-- What `memset(&pages[i], 0, sizeof(pagestate))` leaves.
abbrev pub zero_page : PageState
zero_page = record { order = 0; pindex = 0; allocated = false }

-- `pages`, and `_free_block_lists` by order. `wiped` records the ranges that `kfree` clears, as
-- physical address and size, the last one first.
pub record Allocator : Type 0 where
  pub pages : ℕ → PageState
  pub free : ℕ → List ℕ
  pub wiped : List (ℕ × ℕ)

-- The assertions of `free_blocks`.
abbrev pub order_ok : ℕ → Bool
order_ok o = leb o max_order && leb min_order o

-- `free_blocks(order)->push_back(&pages[i])`
pub push_back : Allocator → ℕ → ℕ → Option Allocator
push_back s o i =
    if order_ok o then some (record s { free = update s.free o (s.free o ++ i ∷ []) }) else none

pop_list : Allocator → ℕ → List ℕ → Option (ℕ × Allocator)
pop_list s o [] = none
pop_list s o (i ∷ rest) = some (i, record s { free = update s.free o rest })

-- `free_blocks(order)->pop_front()`; every caller goes on through the pointer, so a null one faults.
pub pop_front : Allocator → ℕ → Option (ℕ × Allocator)
unfolding pop_list
pop_front s o = if order_ok o then pop_list s o (s.free o) else none

-- `free_blocks(order)->erase(&pages[i])`, which asserts that the page is linked.
pub unlink : Allocator → ℕ → ℕ → Option Allocator
unlink s o i =
    if order_ok o && ltb 0 (count i (s.free o))
    then some (record s { free = update s.free o (erase i (s.free o)) })
    else none

abbrev pub is_empty : List ℕ → Bool
is_empty [] = true
is_empty (x ∷ xs) = false

-- `msb`: the number of bits of `x`, which has at most `fuel` of them.
pub msb_fuel : ℕ → ℕ → ℕ
msb_fuel zero x = 0
msb_fuel (suc fuel) x = if x == 0 then 0 else suc (msb_fuel fuel (x / 2))

pub msb : ℕ → ℕ
unfolding msb_fuel
msb x = msb_fuel 32 x

-- `order_of(int n)`: the argument is cut to 32 bits, and `n - 1` is read as its bit pattern.
pub order_of : ℕ → ℕ
unfolding msb
order_of n = let pattern = n % 2 ^ 32 in if pattern == 0 then 0 else msb (pattern - 1)

-- The loop of `find_max_order` over the orders from `MIN_ORDER + k - 1` down; `none` is -1.
pub find_max_order_below : ℕ → ℕ → ℕ → Option ℕ
find_max_order_below zero start end = none
find_max_order_below (suc k) start end =
    let size = 2 ^ (min_order + k) in
    let rest = find_max_order_below k start end in
    if (start % size == 0) && leb ((start + size) % 2 ^ 64) end then some (min_order + k) else rest

pub find_max_order : ℕ → ℕ → Option ℕ
unfolding find_max_order_below
find_max_order start end = find_max_order_below norders start end

-- The loop of `min_larger_order`, with `rounds` orders left to look at; `none` is -1.
pub first_order : ℕ → (ℕ → List ℕ) → ℕ → Option ℕ
first_order zero free o = none
first_order (suc rounds) free o =
    let rest = first_order rounds free (o + 1) in if is_empty (free o) then rest else some o

pub min_larger_order : Allocator → ℕ → Option ℕ
unfolding first_order
min_larger_order s o = first_order (max_order + 1 - o) s.free o

-- The body of the loop of `kalloc`: halve the first block of the smallest order that has one. A
-- shift by a negative number of bits is undefined.
pub split : Allocator → ℕ → Option Allocator
unfolding min_larger_order pop_front push_back
split s o = do
  larger ← min_larger_order s o
  (i, popped) ← pop_front s larger
  let half = (popped.pages i).order - 1
  let shrunk = record (popped.pages i) { order = half }
  first ← push_back (record popped { pages = update popped.pages i shrunk }) (larger - 1) i
  check (leb (order_of page_size) half)
  let j = shrunk.pindex + 2 ^ (half - order_of page_size)
  check (ltb j npages)
  let second : PageState = record { order = half; pindex = j; allocated = false }
  push_back (record first { pages = update first.pages j second }) half j

pub break_up : ℕ → Allocator → ℕ → Option Allocator
break_up zero s o = none
break_up (suc fuel) s o = elim (is_empty (s.free o)) [
  | true ↦ split s o >>= λ s'. break_up fuel s' o
  | false ↦ some s
]

-- `kalloc` from the loop on: split until the list of the order has a block, and take its first.
pub take_block : Allocator → ℕ → Option (Option ℕ × Allocator)
unfolding pop_front
take_block s o = do
  ready ← break_up norders s o
  (i, popped) ← pop_front ready o
  let taken = record (popped.pages i) { allocated = true }
  some (some (taken.pindex * page_size), record popped { pages = update popped.pages i taken })

-- `kalloc` for a given order.
pub kalloc_order : Allocator → ℕ → Option (Option ℕ × Allocator)
unfolding min_larger_order
kalloc_order s o =
    if ltb max_order o
    then some (none, s)
    else elim (min_larger_order s o) [ none ↦ some (none, s) | some larger ↦ take_block s o ]

-- The order that `kalloc` computes for `sz`, which is not 0.
pub size_order : ℕ → ℕ
size_order sz =
    let o = order_of (max sz (2 ^ min_order)) in if ltb o min_order then min_order else o

-- A null result is `none` in the pair.
pub kalloc : Allocator → ℕ → Option (Option ℕ × Allocator)
unfolding kalloc_order
kalloc s sz = if sz == 0 then some (none, s) else kalloc_order s (size_order sz)

-- The byte arithmetic is that of the source; the difference is not negative for an aligned block.
pub buddy_pindex : ℕ → ℕ → ℕ
buddy_pindex p o =
    let byte = p * page_size in
    if byte % 2 ^ (o + 1) == 0 then (byte + 2 ^ o) / page_size else (byte - 2 ^ o) / page_size

-- One round of the loop of `kfree` that joins the block `i` with its buddy `b`.
pub merge : Allocator → ℕ → ℕ → Option Allocator
unfolding unlink
merge s i b = do
  rest ← unlink s (s.pages b).order b
  let wiped = update rest.pages (max i b) zero_page
  let base = wiped (min i b)
  some (record rest { pages = update wiped (min i b) (record base { order = base.order + 1 }) })

-- The test that ends the loop of `kfree`; the page `b` is read first.
pub stays_apart : Allocator → ℕ → ℕ → Bool
stays_apart s i b =
    (s.pages b).allocated
    || (not ((s.pages b).order == (s.pages i).order) || ((s.pages i).order == max_order))

pub coalesce : ℕ → Allocator → ℕ → Option (ℕ × Allocator)
coalesce zero s i = none
coalesce (suc fuel) s i =
    let b = buddy_pindex i (s.pages i).order in
    elim (ltb b npages) [
      | true ↦ elim (stays_apart s i b) [
        | true ↦ some (i, s)
        | false ↦ merge s i b >>= λ s'. coalesce fuel s' (min i b)
      ]
      | false ↦ none
    ]

-- `kfree` for a page that is allocated.
pub release : Allocator → ℕ → Option Allocator
unfolding push_back
release s i = do
  let p = s.pages i
  let freed = record s {
    pages = update s.pages i (record p { allocated = false });
    wiped = (i * page_size, 2 ^ p.order) ∷ s.wiped;
  }
  (base, joined) ← coalesce norders freed i
  push_back joined (joined.pages base).order base

-- A null pointer and a page that is not allocated are left alone.
pub kfree : Allocator → Option ℕ → Option Allocator
kfree s none = some s
kfree s (some pa) = do
  check (pa % page_size == 0)
  check (ltb (pa / page_size) npages)
  if (s.pages (pa / page_size)).allocated then release s (pa / page_size) else some s
