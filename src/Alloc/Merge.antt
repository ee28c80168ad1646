-- ===== src/Alloc/Merge.antt =====
-- k-alloc.cc: one round of the loop of `kfree`, which joins a block and its buddy.
use pug_os.Prelude.{
  ℕ, suc, ◌+◌, ◌-◌, ◌*◌, ◌%◌, ◌≤◌, ◌<◌, ◌≡◌, ◌⊎◌, false, some, arith, if◌then◌else◌, update, count,
  erase, count-erase, pow_pos, pow_suc,
}
use pug_os.Alloc.{Allocator, zero_page, min_order, max_order, npages, merge, unlink}
use pug_os.Alloc.Inv.{Inv, IsBase, block_pages, on_list}

-- The state after the free block `b` leaves its list and the blocks `lo` and `hi` are one.
abbrev pub joined : Allocator → ℕ → ℕ → ℕ → Allocator
joined s lo hi b =
    let wiped = update s.pages hi zero_page in
    record s {
      free = update s.free (s.pages b).order (erase b (s.free (s.pages b).order));
      pages = update wiped lo (record (wiped lo) { order = (wiped lo).order + 1 });
    }

pub double : (o : ℕ) → min_order ≤ o → block_pages (o + 1) ≡ 2 * block_pages o
double o p =
    let d : o + 1 - min_order ≡ suc (o - min_order) = omega arith in rw d (pow_suc (o - min_order))

-- The two blocks are free, of one order `o` below 24, and side by side; `i` is in hand.
pub record Halves (s : Allocator) (o lo hi i b : ℕ) : Type 0 where
  pub least : min_order ≤ o
  pub below : o < max_order
  pub next : hi ≡ lo + block_pages o
  pub even : lo % block_pages (o + 1) ≡ 0
  pub sides : ((i ≡ lo) × (b ≡ hi)) ⊎ ((i ≡ hi) × (b ≡ lo))
  pub order_lo : (s.pages lo).order ≡ o
  pub order_hi : (s.pages hi).order ≡ o
  pub free_lo : (s.pages lo).allocated ≡ false
  pub free_hi : (s.pages hi).allocated ≡ false

module _ {s : Allocator} (o lo hi i b : ℕ) (v : Inv s i) (w : Halves s o lo hi i b) where
  joined-order_in :
      (k : ℕ)
      → IsBase (joined s lo hi b) k
      → (min_order ≤ ((joined s lo hi b).pages k).order)
        × (((joined s lo hi b).pages k).order ≤ max_order)
  joined-order_in k c = ground (arith, v.order_in k, pow_pos (o - min_order))

  joined_self : (k : ℕ) → IsBase (joined s lo hi b) k → ((joined s lo hi b).pages k).pindex ≡ k
  joined_self k c = ground (arith, v.self k, pow_pos (o - min_order))

  joined-aligned :
      (k : ℕ) → IsBase (joined s lo hi b) k → k % block_pages ((joined s lo hi b).pages k).order ≡ 0
  joined-aligned k c = ground (arith, v.aligned k, pow_pos (o - min_order))

  joined-inside :
      (k : ℕ)
      → IsBase (joined s lo hi b) k
      → k + block_pages ((joined s lo hi b).pages k).order ≤ npages
  joined-inside k c = ground (arith, v.inside k, v.inside hi, double o, pow_pos (o - min_order))

  joined-apart :
      (k l : ℕ)
      → IsBase (joined s lo hi b) k
      → IsBase (joined s lo hi b) l
      → k < l
      → k + block_pages ((joined s lo hi b).pages k).order ≤ l
  joined-apart k l c d e = ground (
    arith,
    v.apart k l,
    v.apart hi l,
    v.apart k lo,
    v.apart lo l,
    double o,
    pow_pos (o - min_order),
  )

  joined-listed :
      (q k : ℕ)
      → min_order ≤ q
      → count k ((joined s lo hi b).free q) ≡ (if on_list (joined s lo hi b) lo q k then 1 else 0)
  joined-listed q k d =
      ground
        (arith, v.listed q k, v.listed o k, count-erase b k (s.free o), pow_pos (o - min_order))

  pub joined-Inv : Inv (joined s lo hi b) lo
  joined-Inv = record {
    order_in = joined-order_in;
    self = joined_self;
    aligned = joined-aligned;
    inside = joined-inside;
    apart = joined-apart;
    listed = joined-listed;
  }

  pub merge-joined : merge s i b ≡ some (joined s lo hi b)
  unfolding merge unlink
  merge-joined = ground (arith, v.listed o b, pow_pos (o - min_order))
