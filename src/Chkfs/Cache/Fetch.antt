-- ===== src/Chkfs/Cache/Fetch.antt =====
-- `bufcache::get_disk_entry`: the block is in the slot that it returns, and what others refer to stays.
use pug_os.Prelude.{
  update_here, update_other, ℕ, zero, suc, ◌+◌, ◌%◌, ◌^◌, ◌≤◌, ◌≡◌, refl, sym, ap, ◌∙◌, Bool, true,
  false, Option, some, none, ltb, update, erase, count, arith, Bool-cases, inl, inr,
}
use pug_os.Chkfs.Cache.{
  Cache, Entry, Data, emptyblock, loadeding, set_entry, link, get_bufentry_slot,
}
use pug_os.Chkfs.Cache.Links.{IsCache, has_buffer, relinked, relink-IsCache, unlink-held}
use pug_os.Chkfs.Cache.Kept.{Kept, Kept-refl, Stays-Kept, Keeps-Kept, Kept-trans}
use pug_os.Chkfs.Cache.Slots.{Slotted, Placed, get_bufentry_slot-Slotted}
use pug_os.Chkfs.Cache.Requests.{Answers, load_disk_block, prefetch}
use pug_os.Chkfs.Cache.Load.{entry-IsCache, load_disk_block-Loaded, mark_prefetch-IsCache}
use pug_os.Chkfs.Cache.Requests.{finish_load}

pub prefetch-Kept :
    (a : Answers) (n bn : ℕ) (c : Cache)
    → IsCache c
    → ((b : ℕ) → a.memory b ≡ true)
    → bn + n ≤ emptyblock
    → (d : Cache) × (prefetch a n bn c ≡ some d) × IsCache d × Kept c d
unfolding prefetch Slotted
prefetch-Kept a zero bn c v memory h = (c, refl, v, Kept-refl c)
prefetch-Kept a (suc n) bn c v memory h =
    let small : (bn % 2 ^ 32 ≡ emptyblock → ⊥) = λ e. omega (arith, h, e) in
    let (d, slot, run, s) = get_bufentry_slot-Slotted c (bn % 2 ^ 32) v small in
    go d slot small run s (λ f w. prefetch-Kept a n (bn + 1) f w memory (omega (arith, h)))
  where
    go :
        (d : Cache) (slot : Option ℕ)
        → (bn % 2 ^ 32 ≡ emptyblock → ⊥)
        → get_bufentry_slot c (bn % 2 ^ 32) ≡ some (d, slot)
        → Slotted c d (bn % 2 ^ 32) slot
        → ((f : Cache)
            → IsCache f
            → (d : Cache) × (prefetch a n (bn + 1) f ≡ some d) × IsCache d × Kept f d)
        → (d : Cache) × (prefetch a (suc n) bn c ≡ some d) × IsCache d × Kept c d
    go d none small run s on = (d, rw (prefetch, run) refl, s.0, s.1)
    go d (some i) small run s on =
        let full : (d.entries i).bn ≡ emptyblock → ⊥ = λ e. small (sym (Placed.block s) ∙ e) in
        let (e, marks, valid, keeps) = mark_prefetch-IsCache d i (Placed.valid s) full in
        let k = keeps i in
        let l =
          load_disk_block-Loaded a i (bn % 2 ^ 32) e valid (λ z. full (sym (k.bn) ∙ z))
            (memory (bn % 2 ^ 32)) in
        let f = (load_disk_block a i (bn % 2 ^ 32) e).0 in
        let kept : Kept c f =
          Kept-trans c d f (Placed.kept s)
            (Kept-trans d e f (Keeps-Kept d e keeps) (Stays-Kept e f l.stays)) in
        elim (Bool-cases ((load_disk_block a i (bn % 2 ^ 32) e).1)) [
          | inl ok ↦
              let (g, rest, w, kept') = on f l.valid in
              (g, rw (prefetch, run, marks, ok) rest, w, Kept-trans c f g kept kept')
          | inr failed ↦ (f, rw (prefetch, run, marks, failed) refl, l.valid, kept)
        ]

-- The end of a load: what was on its way is there, once for all, and the other entries are as they were.
pub record Finished (clean : Data → Data) (c d : Cache) (i : ℕ) : Type 0 where
  pub valid : IsCache d
  pub bn : (d.entries i).bn ≡ (c.entries i).bn
  pub ref : (d.entries i).ref ≡ (c.entries i).ref
  pub loaded : (d.entries i).loaded ≡ true
  pub loading : (d.entries i).loading ≡ false
  pub same : (c.entries i).loading ≡ false → (d.entries i).buf ≡ (c.entries i).buf
  pub others : (k : ℕ) → (i ≡ k → ⊥) → d.entries k ≡ c.entries k

-- `clean` on a buffer that is there.
abbrev pub cleaned_buf : (Data → Data) → Option Data → Option Data
cleaned_buf clean b = elim b [ none ↦ none | some d ↦ some (clean d) ]

abbrev done : (Data → Data) → Entry → Bool → Entry
done clean e ahead = record e {
  fetching = false;
  loading = false;
  loaded = true;
  buf = cleaned_buf clean (e.buf);
  prefetched = ahead;
}

cleaned_buf-has_buffer :
    (clean : Data → Data) (b : Option Data)
    → has_buffer b ≡ true
    → has_buffer (cleaned_buf clean b) ≡ true
unfolding has_buffer
cleaned_buf-has_buffer clean none h = h
cleaned_buf-has_buffer clean (some d) h = refl

update_at : (f : ℕ → Entry) (i : ℕ) (e : Entry) → update f i e i ≡ e
update_at f i e = sym (update_here f i i e refl)

pub finish_load-Finished :
    (clean : Data → Data) (i : ℕ) (c : Cache)
    → IsCache c
    → ((c.entries i).bn ≡ emptyblock → ⊥)
    → loadeding (c.entries i) ≡ true
    → (d : Cache) × (finish_load clean i c ≡ some d) × Finished clean c d i
unfolding finish_load relinked link
finish_load-Finished clean i c v full there = elim (Bool-cases ((c.entries i).loading)) [
  | inr done_before ↦
      let e : Entry = record (c.entries i) { fetching = false } in
      let s = v.slot i in
      (
        set_entry i e c,
        rw (finish_load, done_before) refl,
        record {
          valid = entry-IsCache c i e v refl refl s.idle s.no_ref s.no_use s.filled;
          bn = ap Entry.bn (update_at c.entries i e);
          ref = ap Entry.ref (update_at c.entries i e);
          loaded = ap Entry.loaded (update_at c.entries i e) ∙ ground (arith, there, done_before);
          loading = ap Entry.loading (update_at c.entries i e) ∙ done_before;
          same = λ h. ap Entry.buf (update_at c.entries i e);
          others = λ k differ. sym (update_other c.entries i k e differ);
        },
      )
  | inl loads ↦
      let s = v.slot i in
      let e = done clean (c.entries i) ((c.entries i).prefetched) in
      let filled =
        cleaned_buf-has_buffer clean ((c.entries i).buf) (s.filled (ground (arith, loads))) in
      let g = done clean (c.entries i) false in
      elim (Bool-cases ((c.entries i).prefetched)) [
        | inr here ↦ (
          set_entry i e c,
          rw (finish_load, loads, here) refl,
          record {
            valid =
                entry-IsCache c i e v refl refl s.idle s.no_ref (λ h. absurd (full h))
                  (λ h. filled);
            bn = ap Entry.bn (update_at c.entries i e);
            ref = ap Entry.ref (update_at c.entries i e);
            loaded = ap Entry.loaded (update_at c.entries i e);
            loading = ap Entry.loading (update_at c.entries i e);
            same = λ h. absurd (ground (arith, h, loads));
            others = λ k differ. sym (update_other c.entries i k e differ);
          },
        )
        | inl ahead ↦
            let valid =
              entry-IsCache c i g v refl refl s.idle s.no_ref (λ h. absurd (full h))
                (λ h. filled) in
            let held : ((set_entry i g c).entries i).bn ≡ emptyblock → ⊥ =
              λ h. full (sym (ap Entry.bn (update_at c.entries i g)) ∙ h) in
            let (gone, none_left) = unlink-held (set_entry i g c) i valid held in
            let out : ltb 0 (count i (erase i c.e_list) + count i (erase i c.pref_list)) ≡ false =
              ground (arith, none_left) in
            (
              relinked i g c,
              rw (finish_load, loads, ahead, gone, out) refl,
              record {
                valid = (relink-IsCache c i g v full refl refl (λ h. filled)).1;
                bn = ap Entry.bn (update_at c.entries i g);
                ref = ap Entry.ref (update_at c.entries i g);
                loaded = ap Entry.loaded (update_at c.entries i g);
                loading = ap Entry.loading (update_at c.entries i g);
                same = λ h. absurd (ground (arith, h, loads));
                others = λ k differ. sym (update_other c.entries i k g differ);
              },
            )
      ]
]
