-- ===== src/Chkfs/Cache/Requests.antt =====
-- k-chkfs.cc: `bufcache::get_disk_entry` with the load and the prefetch, and `put_entry`.
use pug_os.Prelude.{
  ℕ, zero, suc, ◌+◌, ◌-◌, ◌%◌, ◌^◌, Bool, true, false, not, ◌&&◌, ◌∷◌, Option, some, none, ◌==◌,
  if◌then◌else◌, update, ◌>>=◌,
}
use pug_os.Chkfs.Cache.{
  n_prefetch, superblock_bn, Data, Cache, set_entry, linked, unlink, link, get_bufentry_slot,
  loadeding,
}

-- What the allocator and the disk answer for a block: is there memory for its buffer, and is its read taken.
pub record Answers : Type 0 where
  pub memory : ℕ → Bool
  pub taken : ℕ → Bool

-- The load into a slot, with or without a buffer that it has already. The bytes stand for what the disk will
-- have put there once `fetch_status_` tells.
unfoldable pub load_into : Answers → ℕ → ℕ → Cache → Option Data → Cache × Bool
load_into a i bn c none =
    let e = c.entries i in
    if not (a.memory bn)
    then (set_entry i (record e { ref = (e.ref + 2 ^ 32 - 1) % 2 ^ 32 }) c, false)
    else if a.taken bn
    then (
      set_entry i (record e { buf = some (c.disk bn); loading = true; fetching = true }) c,
      true,
    )
    else (set_entry i (record e { buf = some (λ k. 0); loading = false }) c, false)
load_into a i bn c (some d) =
    let e = c.entries i in
    if a.taken bn
    then (
      set_entry i (record e { buf = some (c.disk bn); loading = true; fetching = true }) c,
      true,
    )
    else (set_entry i (record e { loading = false }) c, false)

unfoldable pub load_disk_block : Answers → ℕ → ℕ → Cache → Cache × Bool
load_disk_block a i bn c =
    if loadeding (c.entries i) then (c, true) else load_into a i bn c ((c.entries i).buf)

-- An entry that nobody refers to goes to the front of the prefetch list.
unfoldable pub mark_prefetch : ℕ → Cache → Option Cache
mark_prefetch i c =
    if (c.entries i).ref == 0
    then (unlink i c >>= λ d.
        if linked d i
        then none
        else some (record d {
          pref_list = i ∷ d.pref_list;
          entries = update d.entries i (record (d.entries i) { prefetched = true });
        }))
    else some c

-- The loop over the blocks from `bn` on, which stops where no slot is left or a load fails.
unfoldable pub prefetch : Answers → ℕ → ℕ → Cache → Option Cache
prefetch a zero bn c = some c
prefetch a (suc n) bn c = get_bufentry_slot c (bn % 2 ^ 32) >>= λ (d, slot). elim slot [
  | none ↦ some d
  | some i ↦ mark_prefetch i d >>= λ e.
      let (f, ok) = load_disk_block a i (bn % 2 ^ 32) e in
      if ok then prefetch a n (bn + 1) f else some f
]

-- The wait for the disk, and the end of a load.
unfoldable pub finish_load : (Data → Data) → ℕ → Cache → Option Cache
finish_load clean i c =
    let e = record (c.entries i) { fetching = false } in
    if not e.loading
    then some (set_entry i e c)
    else let f = record e {
      loading = false;
      loaded = true;
      buf = elim (e.buf) [ none ↦ none | some d ↦ some (clean d) ];
    } in
      if e.prefetched
      then (unlink i (set_entry i (record f { prefetched = false }) c) >>= λ d. link i d)
      else some (set_entry i f c)

unfoldable pub get_disk_entry : Answers → Cache → ℕ → (Data → Data) → Option (Cache × Option ℕ)
get_disk_entry a c bn clean = get_bufentry_slot c bn >>= λ (d, slot). elim slot [
  | none ↦ some (d, none)
  | some i ↦
      let e = d.entries i in
      let f =
        if bn == superblock_bn
        then d
        else set_entry i (record e { ref = (e.ref + 1) % 2 ^ 32 }) d in
      let (g, ok) = load_disk_block a i bn f in
      if not ok
      then some (g, none)
      else (if not (bn == superblock_bn) && not (loadeding e)
          then prefetch a n_prefetch (bn + 1) g
          else some g)
        >>= λ h. finish_load clean i h >>= λ k. some (k, some i)
]

unfoldable pub put_entry : ℕ → Cache → Cache
put_entry i c =
    if (c.entries i).bn == superblock_bn
    then c
    else set_entry i (record (c.entries i) { ref = ((c.entries i).ref + 2 ^ 32 - 1) % 2 ^ 32 }) c
