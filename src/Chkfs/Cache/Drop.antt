-- ===== src/Chkfs/Cache/Drop.antt =====
-- `bufcache::sync(true)`, which also empties the slots that nobody refers to.
use pug_os.Prelude.{
  update_here, update_other, ℕ, zero, suc, ◌+◌, ◌<◌, ◌≤◌, ◌≡◌, refl, sym, subst, ap, ◌∙◌, Bool,
  true, false, not, ◌&&◌, some, ◌==◌, update, count, count-nil, arith, eq_cases, lt_cases,
  Bool-cases, inl, inr,
}
use pug_os.Chkfs.Cache.{Cache, Entry, Data, ne, emptyblock, cleared, drop_from, sync}
use pug_os.Chkfs.Cache.Links.{IsCache, evicted, evict-IsCache}
use pug_os.Chkfs.Cache.Sync.{Keeps, Written-dirty, sync_dirty-Written}

record Dropped (c d : Cache) (n i : ℕ) : Type 0 where
  valid : IsCache d
  disk : d.disk ≡ c.disk
  dirty_list : d.dirty_list ≡ c.dirty_list
  used : (k : ℕ) → ((c.entries k).ref ≡ 0 → ⊥) → d.entries k ≡ c.entries k
  outside : (k : ℕ) → (i ≤ k → k < i + n → ⊥) → d.entries k ≡ c.entries k
  gone : (k : ℕ) → i ≤ k → k < i + n → (c.entries k).ref ≡ 0 → (d.entries k).bn ≡ emptyblock

-- A slot that is emptied, before the later ones.
evicted-Dropped :
    (c d : Cache) (n i : ℕ)
    → (c.entries i).ref ≡ 0
    → Dropped (evicted i c) d n (i + 1)
    → Dropped c d (suc n) i
unfolding evicted cleared
evicted-Dropped c d n i idle w =
    let e = cleared (c.entries i) in
    let other : (k : ℕ) → (i ≡ k → ⊥) → update c.entries i e k ≡ c.entries k =
      λ k differ. sym (update_other c.entries i k e differ) in
    record {
      valid = w.valid;
      disk = w.disk;
      dirty_list = w.dirty_list;
      used = λ k h.
          let differ : i ≡ k → ⊥ = λ same. h (ap (λ k. (c.entries k).ref) (sym same) ∙ idle) in
          w.used k (λ z. h (sym (ap Entry.ref (other k differ)) ∙ z)) ∙ other k differ;
      outside = λ k h.
          let differ : i ≡ k → ⊥ = λ same. h (omega (arith, same)) (omega (arith, same)) in
          w.outside k (λ l u. h (omega (arith, l)) (omega (arith, u))) ∙ other k differ;
      gone = λ k l u r. elim (eq_cases i k) [
        | inl same ↦
            ap Entry.bn
              (w.outside k (λ a b. omega (arith, a, same)) ∙ sym (update_here c.entries i k e same))
        | inr differ ↦
            w.gone k (omega (arith, l, differ)) (omega (arith, u))
              (ap Entry.ref (other k differ) ∙ r)
      ];
    }

evicted_clean :
    (c : Cache) (i : ℕ)
    → ((k : ℕ) → (c.entries k).dirty ≡ false)
    → (k : ℕ) → ((evicted i c).entries k).dirty ≡ false
unfolding evicted cleared
evicted_clean c i clean k = elim (eq_cases i k) [
  | inl same ↦ sym (ap Entry.dirty (update_here c.entries i k (cleared (c.entries i)) same))
  | inr differ ↦
      sym (ap Entry.dirty (update_other c.entries i k (cleared (c.entries i)) differ)) ∙ clean k
]

drop_from-Dropped :
    (n i : ℕ) (c : Cache)
    → IsCache c
    → ((k : ℕ) → (c.entries k).dirty ≡ false)
    → (d : Cache) × (drop_from n i c ≡ some d) × Dropped c d n i
unfolding drop_from
drop_from-Dropped zero i c v clean = (
  c,
  refl,
  record {
    valid = v;
    disk = refl;
    dirty_list = refl;
    used = λ k h. refl;
    outside = λ k h. refl;
    gone = λ k l h r. absurd (omega (arith, l, h));
  },
)
drop_from-Dropped (suc n) i c v clean =
    elim (Bool-cases (not ((c.entries i).bn == emptyblock) && ((c.entries i).ref == 0))) [
      | inr stays ↦
          let (d, run, w) = drop_from-Dropped n (i + 1) c v clean in
          (
            d,
            rw (stays) run,
            record {
              valid = w.valid;
              disk = w.disk;
              dirty_list = w.dirty_list;
              used = w.used;
              outside = λ k h. w.outside k (λ l u. h (omega (arith, l)) (omega (arith, u)));
              gone = λ k l u r. elim (eq_cases i k) [
                | inl same ↦
                    let e : d.entries k ≡ c.entries k =
                      w.outside k (λ a b. omega (arith, a, same)) in
                    ap Entry.bn e ∙ empty_bn stays same r
                | inr differ ↦ w.gone k (omega (arith, l, differ)) (omega (arith, u)) r
              ];
            },
          )
      | inl goes ↦
          let full : (c.entries i).bn ≡ emptyblock → ⊥ = λ h. ground (arith, goes, h) in
          let idle : (c.entries i).ref ≡ 0 = ground (arith, goes) in
          let (go, valid) = evict-IsCache c i v full idle (clean i) in
          let (d, run, w) =
            drop_from-Dropped n (i + 1) (evicted i c) valid (evicted_clean c i clean) in
          (d, rw (goes, go) run, evicted-Dropped c d n i idle w)
    ]
  where
    empty_bn :
        {k : ℕ}
        → (not ((c.entries i).bn == emptyblock) && ((c.entries i).ref == 0)) ≡ false
        → i ≡ k
        → (c.entries k).ref ≡ 0
        → (c.entries k).bn ≡ emptyblock
    empty_bn {k} stays same =
        subst (λ k. (c.entries k).ref ≡ 0 → (c.entries k).bn ≡ emptyblock) same
          (λ r. ground (arith, stays, r))

-- What `sync(drop)` leaves. `stored` and `unwritten` say what the disk has: the bytes of the entries that
-- were dirty, and elsewhere what it had.
pub record Synced (drop : Bool) (c d : Cache) : Type 0 where
  pub valid : IsCache d
  pub clean : (k : ℕ) → (d.entries k).dirty ≡ false
  pub used : (k : ℕ) → ((c.entries k).ref ≡ 0 → ⊥) → Keeps (c.entries k) (d.entries k)
  pub dropped : drop ≡ true → (k : ℕ) → (c.entries k).ref ≡ 0 → (d.entries k).bn ≡ emptyblock
  pub stored :
      (k : ℕ) (b : Data)
      → (c.entries k).dirty ≡ true
      → (c.entries k).buf ≡ some b
      → d.disk ((c.entries k).bn) ≡ b
  pub unwritten :
      (x : ℕ)
      → ((k : ℕ) → (c.entries k).dirty ≡ true → (c.entries k).bn ≡ x → ⊥)
      → d.disk x ≡ c.disk x

-- When the disk takes every write, `sync` fails no assertion. Afterwards no entry is dirty, each one that was has its bytes on the disk at
-- its block, and the other blocks of the disk are as they were. What somebody refers to is still in its
-- slot with its bytes, and with `drop` every slot that nobody refers to is empty.
pub sync-Synced :
    (drop : Bool) (c : Cache) → IsCache c → (d : Cache) × (sync drop c ≡ some d) × Synced drop c d
unfolding sync
sync-Synced false c v =
    let (d, run, w) = sync_dirty-Written c v in
    (
      d,
      rw (sync, run) refl,
      record {
        valid = w.valid;
        clean = Written-dirty w;
        used = λ k h. w.keeps k;
        dropped = λ h. absurd (ground (arith, h));
        stored = w.stored;
        unwritten = w.unwritten;
      },
    )
sync-Synced true c v =
    let (d, run, w) = sync_dirty-Written c v in
    let (e, go, x) = drop_from-Dropped ne 0 d w.valid (Written-dirty w) in
    (
      e,
      rw (sync, run) go,
      record {
        valid = x.valid;
        clean = λ k.
            let s = x.valid.slot k in
            ground (arith, s.dirtied, count-nil k, ap (count k) (x.dirty_list ∙ w.no_dirty));
        used = λ k h.
            let y = w.keeps k in
            subst (Keeps (c.entries k)) (sym (x.used k (λ z. h (sym (y.ref) ∙ z)))) y;
        dropped = λ h k r.
            let y = w.keeps k in
            elim (lt_cases k ne) [
              | inl lt ↦ x.gone k (omega arith) lt (y.ref ∙ r)
              | inr over ↦ let s = x.valid.slot k in s.inside over
            ];
        stored = λ k b dk hb. ap (λ f. f ((c.entries k).bn)) x.disk ∙ w.stored k b dk hb;
        unwritten = λ y h. ap (λ f. f y) x.disk ∙ w.unwritten y h;
      },
    )
