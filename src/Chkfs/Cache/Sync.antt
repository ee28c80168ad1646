-- ===== src/Chkfs/Cache/Sync.antt =====
-- `bufcache::sync`: what is written to the disk, and that every entry stays what it was.
use pug_os.Prelude.{
  update_here, update_other, ℕ, ◌≡◌, refl, sym, subst, ap, ◌∙◌, true, false, List, [], ◌∷◌, Option,
  some, none, update, arith, eq_cases, inl, inr, count-nil, count-cons,
}
use pug_os.Chkfs.Cache.{Cache, Entry, Data, emptyblock, write_back, sync_dirty}
use pug_os.Chkfs.Cache.Links.{IsCache, changed, has_buffer}

-- The entry holds the same block, with the same references and bytes.
pub record Keeps (e f : Entry) : Type 0 where
  pub bn : f.bn ≡ e.bn
  pub ref : f.ref ≡ e.ref
  pub buf : f.buf ≡ e.buf
  pub loaded : f.loaded ≡ e.loaded
  pub loading : f.loading ≡ e.loading

pub Keeps-refl : (e : Entry) → Keeps e e
Keeps-refl e = record { bn = refl; ref = refl; buf = refl; loaded = refl; loading = refl }

pub Keeps-trans : {e f g : Entry} → Keeps e f → Keeps f g → Keeps e g
Keeps-trans k l = record {
  bn = l.bn ∙ k.bn;
  ref = l.ref ∙ k.ref;
  buf = l.buf ∙ k.buf;
  loaded = l.loaded ∙ k.loaded;
  loading = l.loading ∙ k.loading;
}

pub Keeps-update :
    (f : ℕ → Entry) (i : ℕ) (e : Entry) → Keeps (f i) e → (k : ℕ) → Keeps (f k) (update f i e k)
Keeps-update f i e h k = elim (eq_cases i k) [
  | inl same ↦
      subst (λ k. Keeps (f k) (update f i e k)) same
        (subst (Keeps (f i)) (update_here f i i e refl) h)
  | inr differ ↦ subst (Keeps (f k)) (update_other f i k e differ) (Keeps-refl (f k))
]

pub record Written (c d : Cache) : Type 0 where
  pub valid : IsCache d
  pub keeps : (i : ℕ) → Keeps (c.entries i) (d.entries i)
  pub no_dirty : d.dirty_list ≡ []
  pub pref_list : d.pref_list ≡ c.pref_list
  pub unwritten :
      (x : ℕ)
      → ((k : ℕ) → (c.entries k).dirty ≡ true → (c.entries k).bn ≡ x → ⊥)
      → d.disk x ≡ c.disk x
  pub stored :
      (k : ℕ) (b : Data)
      → (c.entries k).dirty ≡ true
      → (c.entries k).buf ≡ some b
      → d.disk ((c.entries k).bn) ≡ b

-- The rest of the list that `sync` took stands for the list of dirty entries.
abbrev with_list : List ℕ → Cache → Cache
with_list is c = record c { dirty_list = is }

abbrev cleaned : ℕ → Data → Cache → Cache
cleaned i d c = record c {
  entries = update c.entries i (record (c.entries i) { dirty = false });
  disk = update c.disk ((c.entries i).bn) d;
}

bytes : Data → Option Data → Data
bytes b none = b
bytes b (some d) = d

has_buffer-some : (b : Option Data) → has_buffer b ≡ true → (d : Data) × (b ≡ some d)
unfolding has_buffer
has_buffer-some none h = absurd (ground (arith, h))
has_buffer-some (some d) h = (d, refl)

cleaned-IsCache :
    (c : Cache) (i : ℕ) (is : List ℕ) (d : Data)
    → IsCache (with_list (i ∷ is) c)
    → ((c.entries i).dirty ≡ true) × IsCache (with_list is (cleaned i d c))
cleaned-IsCache c i is d v =
    let s = v.slot i in
    let dirty : (c.entries i).dirty ≡ true = ground (arith, s.dirtied, count-cons i i is) in
    (
      dirty,
      changed (with_list (i ∷ is) c) i (record (c.entries i) { dirty = false }) c.e_list c.pref_list
          is v
          (record {
            member = s.member;
            dirtied = ground (arith, s.dirtied, dirty, count-cons i i is);
            idle = s.idle;
            inside = s.inside;
            no_ref = s.no_ref;
            no_use = λ h. ground (arith, s.no_use h);
            filled = λ h. s.filled (ground (arith, h));
          })
          (λ k differ. (refl, refl, ground (arith, differ, count-cons k i is)))
          (λ k same held. v.unique i k same held) (update c.disk ((c.entries i).bn) d),
    )

cleaned-Keeps :
    (c : Cache) (i : ℕ) (d : Data) (k : ℕ) → Keeps (c.entries k) ((cleaned i d c).entries k)
cleaned-Keeps c i d k =
    Keeps-update c.entries i (record (c.entries i) { dirty = false })
      (record { bn = refl; ref = refl; buf = refl; loaded = refl; loading = refl }) k

write_back-cons :
    (i : ℕ) (is : List ℕ) (c : Cache) (b : Data)
    → (c.entries i).buf ≡ some b
    → write_back (i ∷ is) c ≡ write_back is (cleaned i b c)
unfolding write_back
write_back-cons i is c b has = ap (λ o. opened o) has
  where
    opened : Option Data → Option Cache
    opened o = elim o [ none ↦ none | some d ↦ write_back is (cleaned i d c) ]

-- One round, before the others.
cleaned-Written :
    (c d : Cache) (i : ℕ) (is : List ℕ) (b : Data)
    → IsCache (with_list (i ∷ is) c)
    → (c.entries i).buf ≡ some b
    → Written (cleaned i b c) d
    → Written c d
unfolding bytes
cleaned-Written c d i is b v has w =
    let e : Entry = record (c.entries i) { dirty = false } in
    let not_here : (k : ℕ) → (update c.entries i e k).dirty ≡ true → i ≡ k → ⊥ =
      λ k h same. false_true (ap Entry.dirty (update_here c.entries i k e same) ∙ h) in
    let before : (k : ℕ) → (i ≡ k → ⊥) → c.entries k ≡ update c.entries i e k =
      λ k differ. update_other c.entries i k e differ in
    let dirty = (cleaned-IsCache c i is b v).0 in
    let full : (c.entries i).bn ≡ emptyblock → ⊥ =
      λ h. let s = v.slot i in ground (arith, s.no_use h, dirty) in
    let here = w.unwritten ((c.entries i).bn) (λ k h same.
      let differ = not_here k h in
      differ (v.unique i k (sym same ∙ sym (ap Entry.bn (before k differ))) full)) in
    record {
      valid = w.valid;
      keeps = λ k. Keeps-trans (cleaned-Keeps c i b k) (w.keeps k);
      no_dirty = w.no_dirty;
      pref_list = w.pref_list;
      unwritten = λ x h.
          w.unwritten x (λ k dk same.
            let differ = not_here k dk in
            h k (ap Entry.dirty (before k differ) ∙ dk) (ap Entry.bn (before k differ) ∙ same))
          ∙ sym (update_other c.disk ((c.entries i).bn) x b (h i dirty));
      stored = λ k b' dk hb. elim (eq_cases i k) [
        | inl same ↦
            subst (λ k. (c.entries k).buf ≡ some b' → d.disk ((c.entries k).bn) ≡ b') same
              (λ h.
                here
                ∙ sym (update_here c.disk ((c.entries i).bn) ((c.entries i).bn) b refl)
                ∙ ap (bytes b) (sym has ∙ h))
              hb
        | inr differ ↦
            ap d.disk (ap Entry.bn (before k differ))
            ∙ w.stored k b' (sym (ap Entry.dirty (before k differ)) ∙ dk)
                (sym (ap Entry.buf (before k differ)) ∙ hb)
      ];
    }
  where
    false_true : false ≡ true → ⊥
    false_true h = ground (arith, h)

write_back-Written :
    (is : List ℕ) (c : Cache)
    → IsCache (with_list is c)
    → c.dirty_list ≡ []
    → (d : Cache) × (write_back is c ≡ some d) × Written c d
unfolding write_back
write_back-Written [] c v e = (
  c,
  refl,
  record {
    valid = subst (λ l. IsCache (with_list l c)) (sym e) v;
    keeps = λ i. Keeps-refl (c.entries i);
    no_dirty = e;
    pref_list = refl;
    unwritten = λ x h. refl;
    stored =
        λ k b dirty has. absurd (let s = v.slot k in ground (arith, s.dirtied, dirty, count-nil k));
  },
)
write_back-Written (i ∷ is) c v e =
    let s = v.slot i in
    let dirty = (cleaned-IsCache c i is (λ k. 0) v).0 in
    let (b, has) = has_buffer-some ((c.entries i).buf) (s.filled (ground (arith, dirty))) in
    let (d, run, w) = write_back-Written is (cleaned i b c) ((cleaned-IsCache c i is b v).1) e in
    (d, write_back-cons i is c b has ∙ run, cleaned-Written c d i is b v has w)

pub sync_dirty-Written :
    (c : Cache) → IsCache c → (d : Cache) × (sync_dirty c ≡ some d) × Written c d
unfolding sync_dirty
sync_dirty-Written c v =
    let (d, run, w) = write_back-Written c.dirty_list (with_list [] c) v refl in
    (
      d,
      run,
      record {
        valid = w.valid;
        keeps = w.keeps;
        no_dirty = w.no_dirty;
        pref_list = w.pref_list;
        unwritten = w.unwritten;
        stored = w.stored;
      },
    )

-- Nothing is dirty any more.
pub Written-dirty : {c d : Cache} → Written c d → (i : ℕ) → (d.entries i).dirty ≡ false
Written-dirty {c} {d} w i =
    let s = w.valid.slot i in ground (arith, s.dirtied, w.no_dirty, count-nil i)
