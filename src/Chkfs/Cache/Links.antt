-- ===== src/Chkfs/Cache/Links.antt =====
-- `bufcache`: the lists of slots. A slot that holds a block is on one of the two lists, no block is in two
-- slots, and what waits in the prefetch list is not referred to.
use pug_os.Prelude.{
  update_here, update_other, ℕ, ◌+◌, ◌<◌, ◌≤◌, ◌≡◌, refl, sym, subst, ap, ◌∙◌, Bool, true, false,
  ◌||◌, List, [], ◌∷◌, ◌++◌, Option, some, none, ltb, ◌==◌, if◌then◌else◌, update, erase, count,
  ◌>>=◌, arith, eq_cases, inl, inr, count-push_back, count-erase,
}
use pug_os.Chkfs.Cache.{
  Cache, Entry, Data, ne, emptyblock, cleared, set_entry, linked, unlink, link, evict, claim,
}

unfoldable pub has_buffer : Option Data → Bool
has_buffer none = false
has_buffer (some d) = true

abbrev pub in_use : Entry → Bool
in_use e = e.loaded || e.loading || e.dirty

-- A slot with its entry, and how often it is on `e_list_`, `pref_list_` and `dirty_list_`.
pub record IsSlot (i : ℕ) (e : Entry) (m p d : ℕ) : Type 0 where
  pub member : m + p ≡ (if e.bn == emptyblock then 0 else 1)
  pub dirtied : d ≡ (if e.dirty then 1 else 0)
  pub idle : 0 < p → e.ref ≡ 0
  pub inside : ne ≤ i → e.bn ≡ emptyblock
  pub no_ref : e.bn ≡ emptyblock → e.ref ≡ 0
  pub no_use : e.bn ≡ emptyblock → in_use e ≡ false
  pub filled : in_use e ≡ true → has_buffer e.buf ≡ true

pub record IsCache (c : Cache) : Type 0 where
  pub slot :
      (i : ℕ)
      → IsSlot i (c.entries i) (count i c.e_list) (count i c.pref_list) (count i c.dirty_list)
  pub unique :
      (i j : ℕ) → (c.entries i).bn ≡ (c.entries j).bn → ((c.entries i).bn ≡ emptyblock → ⊥) → i ≡ j

pub IsSlot-cast :
    (i : ℕ) {e e' : Entry} {m m' p p' d d' : ℕ}
    → e ≡ e'
    → m' ≡ m
    → p' ≡ p
    → d' ≡ d
    → IsSlot i e m p d
    → IsSlot i e' m' p' d'
IsSlot-cast i {e} {e'} {m} {m'} {p} {p'} {d} {d'} he hm hp hd s = rw (hm, hp, hd, sym he) s

-- A change of one slot.
pub changed :
    (c : Cache) (i : ℕ) (e : Entry) (ms ps ds : List ℕ)
    → IsCache c
    → IsSlot i e (count i ms) (count i ps) (count i ds)
    → ((k : ℕ)
        → (i ≡ k → ⊥)
        → (count k ms ≡ count k c.e_list)
          × (count k ps ≡ count k c.pref_list)
          × (count k ds ≡ count k c.dirty_list))
    → ((k : ℕ) → e.bn ≡ (c.entries k).bn → (e.bn ≡ emptyblock → ⊥) → i ≡ k)
    → (disk : ℕ → Data)
    → IsCache (record {
      entries = update c.entries i e;
      e_list = ms;
      pref_list = ps;
      dirty_list = ds;
      disk = disk;
    })
changed c i e ms ps ds v s others fresh disk = record {
  slot = λ k. elim (eq_cases i k) [
    | inl same ↦
        subst (λ k. IsSlot k (update c.entries i e k) (count k ms) (count k ps) (count k ds)) same
          (IsSlot-cast i (update_here c.entries i i e refl) refl refl refl s)
    | inr differ ↦
        let (m, p, d) = others k differ in
        IsSlot-cast k (update_other c.entries i k e differ) m p d (v.slot k)
  ];
  unique = λ k l same full. elim (eq_cases i k) [
    | inl e1 ↦ elim (eq_cases i l) [
      | inl e2 ↦ sym e1 ∙ e2
      | inr n2 ↦
          sym e1
          ∙ fresh l
              (ap Entry.bn (update_here c.entries i k e e1)
                ∙ same
                ∙ sym (ap Entry.bn (update_other c.entries i l e n2)))
              (λ h. full (sym (ap Entry.bn (update_here c.entries i k e e1)) ∙ h))
    ]
    | inr n1 ↦
        let b1 = ap Entry.bn (update_other c.entries i k e n1) in
        elim (eq_cases i l) [
          | inl e2 ↦
              let b2 = ap Entry.bn (update_here c.entries i l e e2) in
              sym (fresh k (b2 ∙ sym same ∙ sym b1) (λ h. full (same ∙ sym b2 ∙ h))) ∙ e2
          | inr n2 ↦
              v.unique k l (b1 ∙ same ∙ sym (ap Entry.bn (update_other c.entries i l e n2)))
                (λ h. full (sym b1 ∙ h))
        ]
  ];
}

-- A held slot, moved to the end of the first list.
unfoldable pub relinked : ℕ → Entry → Cache → Cache
relinked i e c = record c {
  entries = update c.entries i e;
  e_list = erase i c.e_list ++ i ∷ [];
  pref_list = erase i c.pref_list;
}

pub unlink-held :
    (c : Cache) (i : ℕ)
    → IsCache c
    → ((c.entries i).bn ≡ emptyblock → ⊥)
    → (unlink i c ≡ some (record c { e_list = erase i c.e_list; pref_list = erase i c.pref_list }))
      × (count i (erase i c.e_list) + count i (erase i c.pref_list) ≡ 0)
unfolding unlink
unlink-held c i v full =
    let s = v.slot i in
    let one : count i c.e_list + count i c.pref_list ≡ 1 = ground (arith, s.member, full) in
    let there : linked c i ≡ true = ground (arith, one) in
    (rw (there) refl, ground (arith, one, count-erase i i c.e_list, count-erase i i c.pref_list))

pub erase_other : (i k : ℕ) (xs : List ℕ) → (i ≡ k → ⊥) → count k (erase i xs) ≡ count k xs
erase_other i k xs h = ground (arith, h, count-erase i k xs)

pub relink-IsCache :
    (c : Cache) (i : ℕ) (e : Entry)
    → IsCache c
    → ((c.entries i).bn ≡ emptyblock → ⊥)
    → e.bn ≡ (c.entries i).bn
    → e.dirty ≡ (c.entries i).dirty
    → (in_use e ≡ true → has_buffer e.buf ≡ true)
    → (unlink i c >>= λ d. link i (set_entry i e d)) ≡ some (relinked i e c)
      × IsCache (relinked i e c)
unfolding relinked link
relink-IsCache c i e v full bn dirty filled =
    let s = v.slot i in
    let (gone, none_left) = unlink-held c i v full in
    let out : ltb 0 (count i (erase i c.e_list) + count i (erase i c.pref_list)) ≡ false =
      ground (arith, none_left) in
    (
      rw (gone, out) refl,
      changed c i e (erase i c.e_list ++ i ∷ []) (erase i c.pref_list) c.dirty_list v
          (record {
            member = ground (arith, full, bn, none_left, count-push_back i i (erase i c.e_list));
            dirtied = ground (arith, s.dirtied, dirty);
            idle = λ h. absurd (omega (arith, none_left, h));
            inside = λ h. ground (arith, bn, s.inside h);
            no_ref = λ h. absurd (full (sym bn ∙ h));
            no_use = λ h. absurd (full (sym bn ∙ h));
            filled = filled;
          })
          (λ k differ. (
            ground (
              arith,
              differ,
              count-push_back k i (erase i c.e_list),
              erase_other i k c.e_list differ,
            ),
            erase_other i k c.pref_list differ,
            refl,
          ))
          (λ k same held. v.unique i k (sym bn ∙ same) full) c.disk,
    )

unfoldable pub evicted : ℕ → Cache → Cache
evicted i c = record c {
  entries = update c.entries i (cleared (c.entries i));
  e_list = erase i c.e_list;
  pref_list = erase i c.pref_list;
}

pub evict-IsCache :
    (c : Cache) (i : ℕ)
    → IsCache c
    → ((c.entries i).bn ≡ emptyblock → ⊥)
    → (c.entries i).ref ≡ 0
    → (c.entries i).dirty ≡ false
    → (evict i c ≡ some (evicted i c)) × IsCache (evicted i c)
unfolding evict evicted cleared
evict-IsCache c i v full ref clean =
    let s = v.slot i in
    let (gone, none_left) = unlink-held c i v full in
    let zero_ref : ((c.entries i).ref == 0) ≡ true = ground (arith, ref) in
    (
      rw (gone, zero_ref) refl,
      changed c i (cleared (c.entries i)) (erase i c.e_list) (erase i c.pref_list) c.dirty_list v
          (record {
            member = none_left;
            dirtied = ground (arith, s.dirtied, clean);
            idle = λ h. ref;
            inside = λ h. refl;
            no_ref = λ h. ref;
            no_use = λ h. refl;
            filled = λ h. absurd (ground (arith, h));
          })
          (λ k differ. (erase_other i k c.e_list differ, erase_other i k c.pref_list differ, refl))
          (λ k same held. absurd (held refl)) c.disk,
    )

unfoldable pub claimed : ℕ → ℕ → Cache → Cache
claimed bn i c = record c {
  entries = update c.entries i (record (c.entries i) { bn = bn });
  e_list = c.e_list ++ i ∷ [];
}

pub claim-IsCache :
    (c : Cache) (i bn : ℕ)
    → IsCache c
    → i < ne
    → (c.entries i).bn ≡ emptyblock
    → (bn ≡ emptyblock → ⊥)
    → ((k : ℕ) → (c.entries k).bn ≡ bn → ⊥)
    → (claim bn i c ≡ some (claimed bn i c, some i)) × IsCache (claimed bn i c)
unfolding claim claimed link
claim-IsCache c i bn v hi free real new =
    let s = v.slot i in
    let none_left : count i c.e_list + count i c.pref_list ≡ 0 = ground (arith, s.member, free) in
    let out : ltb 0 (count i c.e_list + count i c.pref_list) ≡ false = ground (arith, none_left) in
    (
      rw (out) refl,
      changed c i (record (c.entries i) { bn = bn }) (c.e_list ++ i ∷ []) c.pref_list c.dirty_list v
          (record {
            member = ground (arith, none_left, real, count-push_back i i c.e_list);
            dirtied = s.dirtied;
            idle = s.idle;
            inside = λ h. absurd (omega (arith, h, hi));
            no_ref = λ h. absurd (real h);
            no_use = λ h. absurd (real h);
            filled = s.filled;
          })
          (λ k differ. (ground (arith, differ, count-push_back k i c.e_list), refl, refl))
          (λ k same held. absurd (new k (sym same))) c.disk,
    )
