-- ===== src/Chkfs/Cache/Slots.antt =====
-- `bufcache::get_bufentry_slot`: an empty slot is found or made, and what somebody refers to stays.
use pug_os.Prelude.{
  ℕ, ◌+◌, ◌*◌, ◌<◌, ◌≤◌, ◌≡◌, ◌≢◌, refl, sym, ◌∙◌, true, false, Option, some, none, ltb, ◌==◌,
  update, erase, count, ◌>>=◌, arith, eq_cases, lt_cases, Bool-cases, inl, inr, ◌⊎◌, Option-cases,
}
use pug_os.Chkfs.Cache.{
  Cache, ne, emptyblock, cleared, link, linked, evict, claim, first, first_of, evictable,
  unused_prefetch, evict_some, find_free, get_bufentry_slot,
}
use pug_os.Chkfs.Cache.Links.{
  IsCache, relinked, relink-IsCache, unlink-held, evicted, evict-IsCache, claimed, claim-IsCache,
}
use pug_os.Chkfs.Cache.Sync.{Keeps, Keeps-update}
use pug_os.Chkfs.Cache.Kept.{Kept, Kept-refl, Keeps-Kept, Kept-trans, Kept-update}
use pug_os.Chkfs.Cache.Search.{first-IsFirst, first_of-found, search_empty-Searched}

-- The slot that `find_free` hands out, or `ne`.
pub record Freed (c d : Cache) (j : ℕ) : Type 0 where
  pub valid : IsCache d
  pub kept : Kept c d
  pub blocks : (k bn : ℕ) → (d.entries k).bn ≡ bn → (bn ≡ emptyblock) ⊎ ((c.entries k).bn ≡ bn)
  pub bound : j ≤ ne
  pub empty : j < ne → (d.entries j).bn ≡ emptyblock

evict_one :
    (c : Cache) (i : ℕ)
    → IsCache c
    → 0 < count i c.e_list + count i c.pref_list
    → (c.entries i).ref ≡ 0
    → (c.entries i).dirty ≡ false
    → (◌>>=◌ {B = Cache × ℕ} (evict i c) (λ d. some (d, i)) ≡ some (evicted i c, i))
      × Freed c (evicted i c) i
unfolding evicted cleared
evict_one c i v linked idle clean =
    let s = v.slot i in
    let full : (c.entries i).bn ≡ emptyblock → ⊥ = λ h. ground (arith, s.member, linked, h) in
    let (run, valid) = evict-IsCache c i v full idle clean in
    (
      rw (run) refl,
      record {
        valid = valid;
        kept = Kept-update c (evicted i c) i (cleared (c.entries i)) idle refl;
        blocks = λ k bn h. elim (eq_cases i k) [
          | inl same ↦ ground (arith, same, h)
          | inr differ ↦ ground (arith, differ, h)
        ];
        bound = elim (lt_cases ne i) [
          | inl over ↦ absurd (full (s.inside (omega (arith, over))))
          | inr h ↦ h
        ];
        empty = λ h. ground arith;
      },
    )

evict_some-Freed :
    (c : Cache) → IsCache c → (d : Cache) × (j : ℕ) × (evict_some c ≡ some (d, j)) × Freed c d j
unfolding evict_some
evict_some-Freed c v = elim (Option-cases (first_of (evictable c) c.e_list)) [
  | inr (i, found) ↦
      let (ok, there) = first_of-found (evictable c) c.e_list i found in
      let (run, freed) =
        evict_one c i v (omega (arith, there)) (ground (arith, ok)) (ground (arith, ok)) in
      (evicted i c, i, rw (evict_some, found) run, freed)
  | inl none_there ↦ elim (Option-cases (first_of (unused_prefetch c) c.pref_list)) [
    | inr (i, found) ↦
        let (ok, there) = first_of-found (unused_prefetch c) c.pref_list i found in
        let s = v.slot i in
        let (run, freed) =
          evict_one c i v (omega (arith, there)) (s.idle there) (ground (arith, ok)) in
        (evicted i c, i, rw (evict_some, none_there, found) run, freed)
    | inl nor_there ↦ (
      c,
      ne,
      rw (evict_some, none_there, nor_there) refl,
      record {
        valid = v;
        kept = Kept-refl c;
        blocks = λ k bn h. inr h;
        bound = omega arith;
        empty = λ h. absurd (omega (arith, h));
      },
    )
  ]
]

find_free-Freed :
    (c : Cache) → IsCache c → (d : Cache) × (j : ℕ) × (find_free c ≡ some (d, j)) × Freed c d j
unfolding find_free
find_free-Freed c v =
    let (d, j, run, s) = search_empty-Searched (2 * ne + 1) 0 c v (omega arith) (omega arith) in
    let kept = Keeps-Kept c d s.keeps in
    elim (Bool-cases (j == ne)) [
      | inl none_empty ↦
          let (e, k, go, f) = evict_some-Freed d s.valid in
          (
            e,
            k,
            rw (find_free, run, none_empty) go,
            record {
              valid = f.valid;
              kept = Kept-trans c d e kept f.kept;
              blocks = λ i bn h. elim (f.blocks i bn h) [
                | inl empty ↦ inl empty
                | inr at ↦ let same = s.keeps i in inr (sym (same.bn) ∙ at)
              ];
              bound = f.bound;
              empty = f.empty;
            },
          )
      | inr here ↦ (
        d,
        j,
        rw (find_free, run, here) refl,
        record {
          valid = s.valid;
          kept = kept;
          blocks = λ i bn h. let same = s.keeps i in inr (sym (same.bn) ∙ h);
          bound = s.bound;
          empty = s.empty;
        },
      )
    ]

-- The slot that a block is in afterwards. It has the references it had, and is not on the prefetch list.
pub record Placed (c d : Cache) (bn i : ℕ) : Type 0 where
  pub valid : IsCache d
  pub kept : Kept c d
  pub inside : i < ne
  pub block : (d.entries i).bn ≡ bn
  pub listed : count i d.pref_list ≡ 0
  pub ref :
      (((c.entries i).bn ≡ bn) × ((d.entries i).ref ≡ (c.entries i).ref))
      ⊎ (((k : ℕ) → k < ne → (c.entries k).bn ≢ bn) × ((d.entries i).ref ≡ 0))

-- What `get_bufentry_slot` does: it says that no slot is left, or puts the block into one.
unfoldable pub Slotted : Cache → Cache → ℕ → Option ℕ → Type 0
Slotted c d bn none = IsCache d × Kept c d
Slotted c d bn (some i) = Placed c d bn i

pub get_bufentry_slot-Slotted :
    (c : Cache) (bn : ℕ)
    → IsCache c
    → (bn ≡ emptyblock → ⊥)
    → (d : Cache) × (slot : Option ℕ) × (get_bufentry_slot c bn ≡ some (d, slot))
      × Slotted c d bn slot
unfolding Slotted get_bufentry_slot claimed relinked claim link
get_bufentry_slot-Slotted c bn v real =
    let i = first (λ k. (c.entries k).bn == bn) ne 0 in
    let f = first-IsFirst (λ k. (c.entries k).bn == bn) ne 0 in
    elim (Bool-cases (i == ne)) [
      | inl nowhere ↦
          let (d, j, run, free) = find_free-Freed c v in
          elim (Bool-cases (j == ne)) [
            | inl full ↦
                (d, none, rw (get_bufentry_slot, nowhere, run, full) refl, (free.valid, free.kept))
            | inr found ↦
                let lt : j < ne = ground (arith, found, free.bound) in
                let absent : (k : ℕ) → (d.entries k).bn ≡ bn → ⊥ = λ k h.
                  elim (free.blocks k bn h) [
                    | inl e ↦ real e
                    | inr at ↦ nowhere_else nowhere k at
                  ] in
                let (go, valid) = claim-IsCache d j bn free.valid lt (free.empty lt) real absent in
                let s = free.valid.slot j in
                (
                  claimed bn j d,
                  some j,
                  rw (get_bufentry_slot, nowhere, run, found) go,
                  record {
                    valid = valid;
                    kept = Kept-trans c d (claimed bn j d) free.kept (
                        Kept-update d (claimed bn j d) j (record (d.entries j) { bn = bn })
                          (s.no_ref (free.empty lt)) refl);
                    inside = lt;
                    block = ground arith;
                    listed = ground (arith, s.member, free.empty lt);
                    ref = inr (
                      (λ k inside at. nowhere_else nowhere k at),
                      ground (arith, s.no_ref (free.empty lt)),
                    );
                  },
                )
          ]
      | inr at ↦
          let lt : i < ne = ground (arith, at, f.upper) in
          let same : (c.entries i).bn ≡ bn = ground (arith, f.holds lt) in
          let s = v.slot i in
          let full : (c.entries i).bn ≡ emptyblock → ⊥ = λ h. real (sym same ∙ h) in
          let (go, valid) =
            relink-IsCache c i (record (c.entries i) { bn = bn }) v full (sym same) refl s.filled in
          let (gone, none_left) = unlink-held c i v full in
          let out : ltb 0 (count i (erase i c.e_list) + count i (erase i c.pref_list)) ≡ false =
            ground (arith, none_left) in
          (
            relinked i (record (c.entries i) { bn = bn }) c,
            some i,
            rw (get_bufentry_slot, at, gone, out) refl,
            record {
              valid = valid;
              kept =
                  Keeps-Kept c (relinked i (record (c.entries i) { bn = bn }) c)
                    (λ k. keeps i same k);
              inside = lt;
              block = ground arith;
              listed = omega (arith, none_left);
              ref = inl (same, ground arith);
            },
          )
    ]
  where
    nowhere_else :
        (first (λ k. (c.entries k).bn == bn) ne 0 == ne) ≡ true
        → (k : ℕ) → (c.entries k).bn ≡ bn
        → ⊥
    nowhere_else e k at =
        let f = first-IsFirst (λ k. (c.entries k).bn == bn) ne 0 in
        let s = v.slot k in
        elim (lt_cases k ne) [
          | inl lt ↦
              let out = f.before k (omega arith) (ground (arith, e, lt)) in ground (arith, out, at)
          | inr over ↦ real (sym at ∙ s.inside over)
        ]

    keeps :
        (i : ℕ)
        → (c.entries i).bn ≡ bn
        → (k : ℕ) → Keeps (c.entries k) (update c.entries i (record (c.entries i) { bn = bn }) k)
    keeps i same =
        Keeps-update c.entries i (record (c.entries i) { bn = bn })
          (record { bn = sym same; ref = refl; buf = refl; loaded = refl; loading = refl })
