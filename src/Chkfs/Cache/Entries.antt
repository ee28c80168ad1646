-- ===== src/Chkfs/Cache/Entries.antt =====
-- `bufcache::get_disk_entry` and `put_entry`: the references to the entries.
use pug_os.Prelude.{
  update_here, update_other, ℕ, ◌+◌, ◌-◌, ◌%◌, ◌^◌, ◌<◌, ◌≤◌, ◌≡◌, ◌≢◌, refl, sym, subst, ap, ap₂,
  ◌∙◌, Bool, true, false, not, ◌&&◌, ◌||◌, Option, some, none, ◌==◌, if◌then◌else◌, arith,
  Bool-cases, inl, inr, ◌⊎◌,
}
use pug_os.Chkfs.Cache.{Cache, Entry, Data, ne, emptyblock, loadeding, set_entry, get_bufentry_slot}
use pug_os.Chkfs.Cache.Links.{IsCache}
use pug_os.Chkfs.Cache.Sync.{Keeps-refl}
use pug_os.Chkfs.Cache.Kept.{Stays, Stays-trans, Keeps-Stays, Kept, Kept-refl}
use pug_os.Chkfs.Cache.Slots.{Slotted, Placed, get_bufentry_slot-Slotted}
use pug_os.Chkfs.Cache.Requests.{Answers, load_disk_block}
use pug_os.Chkfs.Cache.Load.{entry-IsCache, load_disk_block-Loaded}
use pug_os.Chkfs.Cache.{superblock_bn, n_prefetch}
use pug_os.Chkfs.Cache.Requests.{get_disk_entry, finish_load, put_entry}
use pug_os.Chkfs.Cache.Fetch.{prefetch-Kept, finish_load-Finished}

-- What `get_disk_entry` leaves when the block is in slot `i`. Where the slot held the block before, its
-- references are one more; where no slot held it, there is one. The superblock has no references counted.
pub record Fetched (c d : Cache) (bn i : ℕ) : Type 0 where
  pub valid : IsCache d
  pub inside : i < ne
  pub block : (d.entries i).bn ≡ bn
  pub loaded : (d.entries i).loaded ≡ true
  pub loading : (d.entries i).loading ≡ false
  pub ref :
      (bn ≡ superblock_bn)
      ⊎ (((c.entries i).bn ≡ bn) × ((d.entries i).ref ≡ (c.entries i).ref + 1))
      ⊎ (((k : ℕ) → k < ne → (c.entries k).bn ≢ bn) × ((d.entries i).ref ≡ 1))
  pub others :
      (k : ℕ) → (i ≡ k → ⊥) → ((c.entries k).ref ≡ 0 → ⊥) → Stays (c.entries k) (d.entries k)

-- The two outcomes. Where no slot is left or the disk does not take the read, what somebody refers to
-- is still in its slot.
unfoldable pub Outcome : Cache → Cache → ℕ → Option ℕ → Type 0
Outcome c d bn none =
    IsCache d × ((k : ℕ) → ((c.entries k).ref ≡ 0 → ⊥) → (d.entries k).bn ≡ (c.entries k).bn)
Outcome c d bn (some i) = Fetched c d bn i

-- The reference that the call takes, and the load.
pub record Taken (c g : Cache) (bn i : ℕ) (ok : Bool) : Type 0 where
  pub valid : IsCache g
  pub block : (g.entries i).bn ≡ bn
  pub loads : ok ≡ true → loadeding (g.entries i) ≡ true
  pub ref :
      (bn ≡ superblock_bn)
      ⊎ (((c.entries i).bn ≡ bn) × ((g.entries i).ref ≡ (c.entries i).ref + 1))
      ⊎ (((k : ℕ) → k < ne → (c.entries k).bn ≢ bn) × ((g.entries i).ref ≡ 1))
  pub others :
      (k : ℕ) → (i ≡ k → ⊥) → ((c.entries k).ref ≡ 0 → ⊥) → Stays (c.entries k) (g.entries k)
  pub kept_bn : (k : ℕ) → ((c.entries k).ref ≡ 0 → ⊥) → (g.entries k).bn ≡ (c.entries k).bn

abbrev pub take_ref : ℕ → ℕ → Cache → Cache
take_ref bn i d =
    if bn == superblock_bn
    then d
    else set_entry i (record (d.entries i) { ref = ((d.entries i).ref + 1) % 2 ^ 32 }) d

take_ref-Taken :
    (a : Answers) (c d : Cache) (bn i : ℕ)
    → Placed c d bn i
    → (bn ≡ emptyblock → ⊥)
    → a.memory bn ≡ true
    → (c.entries i).ref + 1 < 2 ^ 32
    → Taken c
        ((load_disk_block a i bn (take_ref bn i d)).0)
        bn
        i
        ((load_disk_block a i bn (take_ref bn i d)).1)
unfolding Kept
take_ref-Taken a c d bn i s real memory small = elim (Bool-cases (bn == superblock_bn)) [
  | inl super ↦
      let l = load_disk_block-Loaded a i bn d s.valid (λ h. real (sym s.block ∙ h)) memory in
      let same = l.stays i in
      rw (super) (record {
        valid = l.valid;
        block = same.bn ∙ s.block;
        loads = l.loads;
        ref = inl (ground (arith, super));
        others = λ k differ used. let st = s.kept k used in Stays-trans st (l.stays k);
        kept_bn = λ k used. let st = s.kept k used in let t = l.stays k in t.bn ∙ st.bn;
      })
  | inr plain ↦
      let e : Entry = record (d.entries i) { ref = ((d.entries i).ref + 1) % 2 ^ 32 } in
      let v = s.valid.slot i in
      let f : Cache = set_entry i e d in
      let full : (d.entries i).bn ≡ emptyblock → ⊥ = λ h. real (sym s.block ∙ h) in
      let valid =
        entry-IsCache d i e s.valid refl refl (λ h. absurd (omega (arith, h, s.listed)))
          (λ h. absurd (full h)) (λ h. absurd (full h)) v.filled in
      let at : f.entries i ≡ e = sym (update_here d.entries i i e refl) in
      let l = load_disk_block-Loaded a i bn f valid (λ h. full (sym (ap Entry.bn at) ∙ h)) memory in
      let same = l.stays i in
      let bumped = same.ref ∙ ap Entry.ref at in
      let gone : (k : ℕ) → (d.entries k).bn ≡ (f.entries k).bn = λ k. ground arith in
      rw (plain) (record {
        valid = l.valid;
        block = same.bn ∙ ap Entry.bn at ∙ s.block;
        loads = l.loads;
        ref = inr (elim s.ref [
          | inl (was, r) ↦ inl (was, bumped ∙ omega (arith, r, small))
          | inr (absent, r) ↦ inr (absent, bumped ∙ omega (arith, r))
        ]);
        others = λ k differ used.
            let st = s.kept k used in
            Stays-trans st (
              subst (λ x. Stays x (((load_disk_block a i bn f).0).entries k))
                (sym (update_other d.entries i k e differ)) (l.stays k));
        kept_bn =
            λ k used. let st = s.kept k used in let t = l.stays k in t.bn ∙ sym (gone k) ∙ st.bn;
      })
]

finish-Fetched :
    (clean : Data → Data) (c g h : Cache) (bn i : ℕ)
    → Taken c g bn i true
    → i < ne
    → (bn ≡ emptyblock → ⊥)
    → IsCache h
    → Kept g h
    → Stays (g.entries i) (h.entries i)
    → (k : Cache) × (finish_load clean i h ≡ some k) × Fetched c k bn i
unfolding Kept
finish-Fetched clean c g h bn i t lt real valid kept st =
    let full : (h.entries i).bn ≡ emptyblock → ⊥ = λ z. real (sym t.block ∙ sym (st.bn) ∙ z) in
    let same = st.all (t.loads refl) in
    let there : loadeding (h.entries i) ≡ true =
      ap₂ ◌||◌ (same.loaded) (same.loading) ∙ t.loads refl in
    let (k, run, f) = finish_load-Finished clean i h valid full there in
    (
      k,
      run,
      record {
        valid = f.valid;
        inside = lt;
        block = f.bn ∙ st.bn ∙ t.block;
        loaded = f.loaded;
        loading = f.loading;
        ref = elim t.ref [
          | inl super ↦ inl super
          | inr (inl (was, r)) ↦ inr (inl (was, f.ref ∙ st.ref ∙ r))
          | inr (inr (absent, r)) ↦ inr (inr (absent, f.ref ∙ st.ref ∙ r))
        ];
        others = λ j differ used.
            let before = t.others j differ used in
            let after = kept j (λ z. used (sym (before.ref) ∙ z)) in
            subst (Stays (c.entries j)) (sym (f.others j differ)) (Stays-trans before after);
      },
    )

-- While there is memory and no count is about to wrap around, `get_disk_entry` keeps the lists of slots in
-- order and fails no assertion. A slot that it returns holds the block, loaded; it has one reference more
-- if it held the block before, and one if no slot did, but the superblock, whose references are not
-- counted; every other entry that somebody refers to still holds its block, as many references and the
-- same bytes, whatever was evicted, written back or fetched ahead. And when it returns nullptr, what
-- somebody refers to is still in its slot.
pub get_disk_entry-Outcome :
    (a : Answers) (c : Cache) (bn : ℕ) (clean : Data → Data)
    → IsCache c
    → ((b : ℕ) → a.memory b ≡ true)
    → bn + 1 + n_prefetch ≤ emptyblock
    → ((k : ℕ) → (c.entries k).ref + 1 < 2 ^ 32)
    → (d : Cache) × (slot : Option ℕ) × (get_disk_entry a c bn clean ≡ some (d, slot))
      × Outcome c d bn slot
unfolding get_disk_entry Outcome Slotted Kept
get_disk_entry-Outcome a c bn clean v memory small refs =
    let real : bn ≡ emptyblock → ⊥ = λ h. omega (arith, h, small) in
    let (d, slot, run, s) = get_bufentry_slot-Slotted c bn v real in go real d slot run s
  where
    go :
        (bn ≡ emptyblock → ⊥)
        → (d : Cache) (slot : Option ℕ) → get_bufentry_slot c bn ≡ some (d, slot)
        → Slotted c d bn slot
        → (k : Cache) × (slot : Option ℕ) × (get_disk_entry a c bn clean ≡ some (k, slot))
          × Outcome c k bn slot
    go real d none run s =
        (d, none, rw (get_disk_entry, run) refl, (s.0, λ k used. let st = s.1 k used in st.bn))
    go real d (some i) run s =
        let t = take_ref-Taken a c d bn i s real (memory bn) (refs i) in
        let g = (load_disk_block a i bn (take_ref bn i d)).0 in
        elim (Bool-cases ((load_disk_block a i bn (take_ref bn i d)).1)) [
          | inr failed ↦ (g, none, rw (get_disk_entry, run, failed) refl, (t.valid, t.kept_bn))
          | inl ok ↦
              elim (Bool-cases (not (bn == superblock_bn) && not (loadeding (d.entries i)))) [
                | inl ahead ↦
                    let (h, fetch, valid, kept) =
                      prefetch-Kept a n_prefetch (bn + 1) g t.valid memory (omega (arith, small)) in
                    let used : (g.entries i).ref ≡ 0 → ⊥ = λ z. ground (arith, z, t.ref, ahead) in
                    let (k, finish, f) =
                      finish-Fetched clean c g h bn i (subst (Taken c g bn i) ok t)
                        (Placed.inside s) real valid kept (kept i used) in
                    (k, some i, rw (get_disk_entry, run, ok, ahead, fetch, finish) refl, f)
                | inr alone ↦
                    let (k, finish, f) =
                      finish-Fetched clean c g g bn i (subst (Taken c g bn i) ok t)
                        (Placed.inside s) real t.valid (Kept-refl g)
                        (Keeps-Stays (Keeps-refl (g.entries i))) in
                    (k, some i, rw (get_disk_entry, run, ok, alone, finish) refl, f)
              ]
        ]

-- To give a reference back keeps the lists of slots in order, when there is one.
pub put_entry-IsCache :
    (c : Cache) (i : ℕ)
    → IsCache c
    → i < ne
    → ((c.entries i).bn ≡ emptyblock → ⊥)
    → 0 < (c.entries i).ref
    → (c.entries i).ref < 2 ^ 32
    → IsCache (put_entry i c)
unfolding put_entry
put_entry-IsCache c i v lt full used word = elim (Bool-cases ((c.entries i).bn == superblock_bn)) [
  | inl super ↦ rw (super) v
  | inr plain ↦
      let s = v.slot i in
      let e : Entry = record (c.entries i) { ref = ((c.entries i).ref + 2 ^ 32 - 1) % 2 ^ 32 } in
      rw (plain) (
        entry-IsCache c i e v refl refl (λ h. absurd (omega (arith, s.idle h, used)))
          (λ h. absurd (full h)) (λ h. absurd (full h)) s.filled)
]
