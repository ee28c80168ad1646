-- ===== src/Chkfs/Cache/Load.antt =====
-- `bufcache`: a load, and the blocks that are fetched ahead.
use pug_os.Prelude.{
  update_here, update_other, ℕ, ◌+◌, ◌<◌, ◌≡◌, refl, sym, subst, ◌∙◌, Bool, true, false, ◌∷◌,
  Option, some, none, ltb, ◌==◌, update, erase, count, arith, eq_cases, Bool-cases, inl, inr,
  count-cons,
}
use pug_os.Chkfs.Cache.{Cache, Entry, Data, emptyblock, loadeding, set_entry}
use pug_os.Chkfs.Cache.Links.{IsCache, has_buffer, changed, unlink-held, erase_other, in_use}
use pug_os.Chkfs.Cache.Sync.{Keeps, Keeps-refl, Keeps-update}
use pug_os.Chkfs.Cache.Kept.{Stays, Keeps-Stays}
use pug_os.Chkfs.Cache.Requests.{Answers, load_into, load_disk_block, mark_prefetch}

-- A change of one entry, which holds the same block.
pub entry-IsCache :
    (c : Cache) (i : ℕ) (e : Entry)
    → IsCache c
    → e.bn ≡ (c.entries i).bn
    → e.dirty ≡ (c.entries i).dirty
    → (0 < count i c.pref_list → e.ref ≡ 0)
    → (e.bn ≡ emptyblock → e.ref ≡ 0)
    → (e.bn ≡ emptyblock → in_use e ≡ false)
    → (in_use e ≡ true → has_buffer e.buf ≡ true)
    → IsCache (set_entry i e c)
entry-IsCache c i e v bn dirty idle no_ref no_use filled =
    let s = v.slot i in
    changed c i e c.e_list c.pref_list c.dirty_list v
      (record {
        member = ground (arith, s.member, bn);
        dirtied = ground (arith, s.dirtied, dirty);
        idle = idle;
        inside = λ h. bn ∙ s.inside h;
        no_ref = no_ref;
        no_use = no_use;
        filled = filled;
      })
      (λ k differ. (refl, refl, refl))
      (λ k same held. v.unique i k (sym bn ∙ same) (λ h. held (bn ∙ h))) c.disk

pub Stays-update :
    (f : ℕ → Entry) (i : ℕ) (e : Entry) → Stays (f i) e → (k : ℕ) → Stays (f k) (update f i e k)
Stays-update f i e h k = elim (eq_cases i k) [
  | inl same ↦
      subst (λ k. Stays (f k) (update f i e k)) same
        (subst (Stays (f i)) (update_here f i i e refl) h)
  | inr differ ↦ subst (Stays (f k)) (update_other f i k e differ) (Keeps-Stays (Keeps-refl (f k)))
]

-- A load: whether it succeeds or not, the entries stay; if it does, the bytes are there or on their way.
pub record Loaded (c d : Cache) (i : ℕ) (ok : Bool) : Type 0 where
  pub valid : IsCache d
  pub stays : (k : ℕ) → Stays (c.entries k) (d.entries k)
  pub loads : ok ≡ true → loadeding (d.entries i) ≡ true
  pub pref_list : d.pref_list ≡ c.pref_list

Stays-Loaded :
    (c : Cache) (i : ℕ) (b : Option Data) (l p : Bool) (ok : Bool)
    → IsCache c
    → ((c.entries i).bn ≡ emptyblock → ⊥)
    → loadeding (c.entries i) ≡ false
    → (in_use (record (c.entries i) { buf = b; loading = l; fetching = p }) ≡ true
        → has_buffer b ≡ true)
    → (ok ≡ true → l ≡ true)
    → Loaded c (set_entry i (record (c.entries i) { buf = b; loading = l; fetching = p }) c) i ok
Stays-Loaded c i b l p ok v full out filled h =
    let s = v.slot i in
    let e : Entry = record (c.entries i) { buf = b; loading = l; fetching = p } in
    record {
      valid = entry-IsCache c i e v refl refl s.idle s.no_ref (λ h. absurd (full h)) filled;
      stays =
          Stays-update c.entries i e
            (record { bn = refl; ref = refl; all = λ h. absurd (ground (arith, h, out)) });
      loads = λ e. ground (arith, h e);
      pref_list = refl;
    }

load_into-Loaded :
    (a : Answers) (i bn : ℕ) (c : Cache) (b : Option Data)
    → IsCache c
    → ((c.entries i).bn ≡ emptyblock → ⊥)
    → loadeding (c.entries i) ≡ false
    → a.memory bn ≡ true
    → b ≡ (c.entries i).buf
    → Loaded c ((load_into a i bn c b).0) i ((load_into a i bn c b).1)
unfolding load_into has_buffer
load_into-Loaded a i bn c none v full out memory same = elim (Bool-cases (a.taken bn)) [
  | inl takes ↦
      rw (memory, takes)
        (Stays-Loaded c i (some (c.disk bn)) true true true v full out (λ h. refl) (λ h. refl))
  | inr refuses ↦
      rw (memory, refuses)
        (Stays-Loaded c i (some (λ k. 0)) false ((c.entries i).fetching) false v full out
          (λ h. refl) (λ h. absurd (ground (arith, h))))
]
load_into-Loaded a i bn c (some d) v full out memory same = elim (Bool-cases (a.taken bn)) [
  | inl takes ↦
      rw (takes)
        (Stays-Loaded c i (some (c.disk bn)) true true true v full out (λ h. refl) (λ h. refl))
  | inr refuses ↦ rw (refuses) (
      Stays-Loaded c i ((c.entries i).buf) false ((c.entries i).fetching) false v full out
        (λ h. rw (sym same) refl) (λ h. absurd (ground (arith, h))))
]

pub load_disk_block-Loaded :
    (a : Answers) (i bn : ℕ) (c : Cache)
    → IsCache c
    → ((c.entries i).bn ≡ emptyblock → ⊥)
    → a.memory bn ≡ true
    → Loaded c ((load_disk_block a i bn c).0) i ((load_disk_block a i bn c).1)
unfolding load_disk_block
load_disk_block-Loaded a i bn c v full memory = elim (Bool-cases (loadeding (c.entries i))) [
  | inl there ↦ rw (there) (record {
    valid = v;
    stays = λ k. Keeps-Stays (Keeps-refl (c.entries k));
    loads = λ h. there;
    pref_list = refl;
  })
  | inr out ↦ rw (out) (load_into-Loaded a i bn c ((c.entries i).buf) v full out memory refl)
]

pub mark_prefetch-IsCache :
    (c : Cache) (i : ℕ)
    → IsCache c
    → ((c.entries i).bn ≡ emptyblock → ⊥)
    → (d : Cache) × (mark_prefetch i c ≡ some d)
      × IsCache d
      × ((k : ℕ) → Keeps (c.entries k) (d.entries k))
unfolding mark_prefetch
mark_prefetch-IsCache c i v full = elim (Bool-cases ((c.entries i).ref == 0)) [
  | inr used ↦ (c, rw (used) refl, v, λ k. Keeps-refl (c.entries k))
  | inl idle ↦
      let s = v.slot i in
      let e : Entry = record (c.entries i) { prefetched = true } in
      let (gone, none_left) = unlink-held c i v full in
      let out : ltb 0 (count i (erase i c.e_list) + count i (erase i c.pref_list)) ≡ false =
        ground (arith, none_left) in
      (
        record c {
          entries = update c.entries i e;
          e_list = erase i c.e_list;
          pref_list = i ∷ erase i c.pref_list;
        },
        rw (idle, gone, out) refl,
        changed c i e (erase i c.e_list) (i ∷ erase i c.pref_list) c.dirty_list v
            (record {
              member = ground (arith, full, none_left, count-cons i i (erase i c.pref_list));
              dirtied = s.dirtied;
              idle = λ h. ground (arith, idle);
              inside = s.inside;
              no_ref = s.no_ref;
              no_use = s.no_use;
              filled = s.filled;
            })
            (λ k differ. (
              erase_other i k c.e_list differ,
              ground (
                arith,
                differ,
                count-cons k i (erase i c.pref_list),
                erase_other i k c.pref_list differ,
              ),
              refl,
            ))
            (λ k same held. v.unique i k same held) c.disk,
        Keeps-update c.entries i e
            (record { bn = refl; ref = refl; buf = refl; loaded = refl; loading = refl }),
      )
]
