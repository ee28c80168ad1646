-- ===== src/Chkfs/Cache.antt =====
-- k-chkfs.cc: `bufcache`. A slot is its index in `e_`, and a buffer is known by the slot that it belongs
-- to. `none` is a failed assertion, or a write of a buffer that is not there. `lock_` makes each of the
-- operations here a step; where `sync` lets go of it, nobody writes to a buffer.
pub mod Requests
pub mod Links
pub mod Sync
pub mod Search
pub mod Kept
pub mod Slots
pub mod Load
pub mod Fetch
pub mod Entries
pub mod Drop
use pug_os.Prelude.{
  ℕ, zero, suc, ◌+◌, ◌-◌, ◌*◌, ◌%◌, ◌^◌, Bool, true, false, not, ◌&&◌, ◌||◌, List, [], ◌∷◌, ◌++◌,
  Option, some, none, ltb, ◌==◌, if◌then◌else◌, update, erase, count, ◌>>=◌, ◌>>◌, check,
}

-- `e_` has `ne` slots, and a load is followed by at most `n_prefetch` more.
abbrev pub ne : ℕ
ne = 100

abbrev pub n_prefetch : ℕ
n_prefetch = 20

abbrev pub emptyblock : ℕ
emptyblock = 2 ^ 32 - 1

abbrev pub superblock_bn : ℕ
superblock_bn = 0

-- The bytes of a block.
abbrev pub Data : Type 0
Data = ℕ → ℕ

-- `bufentry`; `fetching` says that `fetch_status_` is E_AGAIN.
pub record Entry : Type 0 where
  pub bn : ℕ
  pub ref : ℕ
  pub loaded : Bool
  pub loading : Bool
  pub dirty : Bool
  pub buf : Option Data
  pub fetching : Bool
  pub prefetched : Bool

-- `bufentry::clear`, which leaves `fetch_status_` alone. The reference count is 0 by its assertion.
unfoldable pub cleared : Entry → Entry
cleared e = record e {
  bn = emptyblock;
  loaded = false;
  loading = false;
  dirty = false;
  buf = none;
  prefetched = false;
}

-- `bufcache`, and the disk behind it.
pub record Cache : Type 0 where
  pub entries : ℕ → Entry
  pub e_list : List ℕ
  pub pref_list : List ℕ
  pub dirty_list : List ℕ
  pub disk : ℕ → Data

abbrev pub set_entry : ℕ → Entry → Cache → Cache
set_entry i e c = record c { entries = update c.entries i e }

-- The first of the `n` numbers from `i` on that passes the test, or the one behind them.
pub first : (ℕ → Bool) → ℕ → ℕ → ℕ
first p zero i = i
first p (suc n) i = let rest = first p n (i + 1) in if p i then i else rest

pub first_of : (ℕ → Bool) → List ℕ → Option ℕ
first_of p [] = none
first_of p (i ∷ is) = let rest = first_of p is in if p i then some i else rest

abbrev pub linked : Cache → ℕ → Bool
linked c i = ltb 0 (count i c.e_list + count i c.pref_list)

-- `erase` of either list takes the entry out of the one that it is in.
unfoldable pub unlink : ℕ → Cache → Option Cache
unlink i c =
    if linked c i
    then some (record c { e_list = erase i c.e_list; pref_list = erase i c.pref_list })
    else none

unfoldable pub link : ℕ → Cache → Option Cache
link i c = if linked c i then none else some (record c { e_list = c.e_list ++ i ∷ [] })

unfoldable pub sully : ℕ → Cache → Cache
sully i c = record c {
  entries = update c.entries i (record (c.entries i) { dirty = true });
  dirty_list = if (c.entries i).dirty then c.dirty_list else i ∷ c.dirty_list;
}

-- The rounds of `sync`, for the entries of the list that it took. The disk takes every write, whose result
-- `sync` does not look at; get_write and put_write only keep other writers out, and one thread runs.
pub write_back : List ℕ → Cache → Option Cache
write_back [] c = some c
write_back (i ∷ is) c = elim ((c.entries i).buf) [
  | none ↦ none
  | some d ↦ write_back is (record c {
    entries = update c.entries i (record (c.entries i) { dirty = false });
    disk = update c.disk ((c.entries i).bn) d;
  })
]

-- `sync(false)`
unfoldable pub sync_dirty : Cache → Option Cache
sync_dirty c = write_back c.dirty_list (record c { dirty_list = [] })

unfoldable pub evict : ℕ → Cache → Option Cache
evict i c = unlink i c >>= λ d.
    if (d.entries i).ref == 0 then some (set_entry i (cleared (d.entries i)) d) else none

-- The loop of `sync(true)` that drops the entries from `i` on.
pub drop_from : ℕ → ℕ → Cache → Option Cache
drop_from zero i c = some c
drop_from (suc n) i c =
    (if not ((c.entries i).bn == emptyblock) && ((c.entries i).ref == 0) then evict i c else some c)
    >>= λ d. drop_from n (i + 1) d

unfoldable pub sync : Bool → Cache → Option Cache
sync drop c = sync_dirty c >>= λ d. if drop then drop_from ne 0 d else some d

-- The search for an empty slot. After it has called `sync` it goes on from slot 1.
pub search_empty : ℕ → ℕ → Cache → Option (Cache × ℕ)
search_empty zero i c = none
search_empty (suc fuel) i c =
    if (i == ne) || ((c.entries i).bn == emptyblock)
    then some (c, i)
    else if (c.entries i).dirty && ((c.entries i).ref == 0)
    then (sync_dirty c >>= λ d. search_empty fuel 1 d)
    else search_empty fuel (i + 1) c

abbrev pub evictable : Cache → ℕ → Bool
evictable c i = ((c.entries i).ref == 0) && not (c.entries i).dirty

abbrev pub unused_prefetch : Cache → ℕ → Bool
unused_prefetch c i =
    (c.entries i).prefetched && not (c.entries i).fetching && not (c.entries i).dirty

unfoldable pub evict_some : Cache → Option (Cache × ℕ)
evict_some c = elim (first_of (evictable c) c.e_list) [
  | some i ↦ evict i c >>= λ d. some (d, i)
  | none ↦ elim (first_of (unused_prefetch c) c.pref_list) [
    | some i ↦ evict i c >>= λ d. some (d, i)
    | none ↦ some (c, ne)
  ]
]

-- Two passes over the slots are enough, since the first `sync` leaves no entry dirty.
unfoldable pub find_free : Cache → Option (Cache × ℕ)
find_free c =
    search_empty (2 * ne + 1) 0 c >>= λ (d, i). if i == ne then evict_some d else some (d, i)

unfoldable pub claim : ℕ → ℕ → Cache → Option (Cache × Option ℕ)
claim bn i c = link i (set_entry i (record (c.entries i) { bn = bn }) c) >>= λ d. some (d, some i)

-- The slot, or `none` for -1.
unfoldable pub get_bufentry_slot : Cache → ℕ → Option (Cache × Option ℕ)
get_bufentry_slot c bn =
    let i = first (λ k. (c.entries k).bn == bn) ne 0 in
    if i == ne
    then (find_free c >>= λ (d, j). if j == ne then some (d, none) else claim bn j d)
    else unlink i c >>= λ d. claim bn i d

abbrev pub loadeding : Entry → Bool
loadeding e = e.loaded || e.loading
