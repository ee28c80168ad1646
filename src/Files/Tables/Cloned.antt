-- ===== src/Files/Tables/Cloned.antt =====
-- kernel.cc: the table of descriptors that a fork copies.
use pug_os.Prelude.{
  ℕ, zero, suc, ◌+◌, ◌*◌, ◌≤◌, ◌<◌, ◌≡◌, ◌≢◌, refl, sym, ◌∙◌, inl, inr, Option, some, none, arith,
  update, Option-cases, subst, ap, eq_cases, update_other,
}
use pug_os.Files.{World, nslots, nfds, nproc, share}
use pug_os.Files.Inv.{Inv}
use pug_os.Files.Deref.{file_live, vnode_live}
use pug_os.Files.Calls.{slot, emptied_free, shared, shared-Inv, slot_lt}
use pug_os.Files.Tables.{retain_vnode, copy_fd, copy_entry, clone_from, clone_fds}

abbrev retained : World → ℕ → World
retained w v = record w {
  vnodes = update w.vnodes v (record (w.vnodes v) { refs = (w.vnodes v).refs + 1 });
}

retained-Inv : (w : World) (v : ℕ) → Inv w → Inv (retained w v)
retained-Inv w v inv = record {
  counted = inv.counted;
  dead = inv.dead;
  unused_file = inv.unused_file;
  has_vnode = inv.has_vnode;
  alive = λ u h. ground (arith, inv.alive u);
  holds = λ u. ground (arith, inv.holds u);
  unused_vnode = λ u h. ground (arith, inv.unused_vnode u);
}

-- One entry is copied, into a slot that is not in use.
record Copied (w : World) (j f : ℕ) (w' : World) : Type 0 where
  pub inv : Inv w'
  pub slots : w'.slots ≡ update w.slots j (some f)

copy_fd-Copied :
    (w : World) (inv : Inv w) (i j f : ℕ)
    → i < nslots
    → j < nslots
    → w.slots j ≡ none
    → w.slots i ≡ some f
    → (w' : World) × (copy_fd w j f ≡ some w') × Copied w j f w'
unfolding copy_fd share retain_vnode
copy_fd-Copied w inv i j f p q free e =
    let live = file_live w inv i f p e in
    elim (Option-cases (w.files f).vnode) [
      | inl d ↦ absurd (inv.has_vnode f live d)
      | inr (v, d) ↦ (
        retained (shared w j f) v,
        ground (arith, live, d, vnode_live w inv i f p e v d),
        record {
          inv = retained-Inv (shared w j f) v (shared-Inv w j f q (emptied_free w j inv free) live);
          slots = refl;
        },
      )
    ]

-- The entries of the table `q` from `i` to `n` are those of `p` up to the first that is not in use.
pub record Cloned (p q i n : ℕ) (s s' : ℕ → Option ℕ) : Type 0 where
  pub before : (j : ℕ) → j < slot q i → s' j ≡ s j
  pub beyond : (j : ℕ) → slot q n ≤ j → s' j ≡ s j
  pub copied :
      (k : ℕ)
      → i ≤ k
      → k < n
      → ((m : ℕ) → i ≤ m → m ≤ k → s (slot p m) ≢ none)
      → s' (slot q k) ≡ s (slot p k)
  pub stopped : (k m : ℕ) → i ≤ m → m ≤ k → k < n → s (slot p m) ≡ none → s' (slot q k) ≡ none

module _ (p q : ℕ) (a : p < nproc) (b : q < nproc) (ne : p ≢ q) where
  apart : (m i : ℕ) → m < nfds → i < nfds → slot q i ≢ slot p m
  apart m i c d e = ne (omega arith)

  unused-Cloned :
      (i : ℕ) (s : ℕ → Option ℕ)
      → ((k : ℕ) → i ≤ k → k < nfds → s (slot q k) ≡ none)
      → s (slot p i) ≡ none
      → Cloned p q i nfds s s
  unused-Cloned i s free e = record {
    before = λ j h. refl;
    beyond = λ j h. refl;
    copied = λ k c d all. absurd (all i (omega arith) c e);
    stopped = λ k m c d e g. free k (omega arith) e;
  }

  next-Cloned :
      (i f : ℕ) (s s' : ℕ → Option ℕ)
      → i < nfds
      → s (slot p i) ≡ some f
      → Cloned p q (suc i) nfds (update s (slot q i) (some f)) s'
      → Cloned p q i nfds s s'
  next-Cloned i f s s' c e r = record {
    before = λ j h. ground (arith, r.before j);
    beyond = λ j h. ground (arith, r.beyond j);
    copied = λ k d g all. elim (eq_cases i k) [
      | inl h ↦ rw (sym h) (ground (arith, r.before (slot q i), e))
      | inr h ↦
          r.copied k (omega arith) g (λ m u v. rw (there m (omega arith)) (all m (omega arith) v))
          ∙ there k g
    ];
    stopped = λ k m d g h z. elim (eq_cases i m) [
      | inl y ↦ absurd (ground (arith, e, y, z))
      | inr y ↦ r.stopped k m (omega arith) g h (there m (omega arith) ∙ z)
    ];
  }
    where
      there : (m : ℕ) → m < nfds → update s (slot q i) (some f) (slot p m) ≡ s (slot p m)
      there m h = sym (update_other s (slot q i) (slot p m) (some f) (apart m i h c))

  clone_from-Cloned :
      (n i : ℕ) (w : World)
      → i + n ≡ nfds
      → Inv w
      → ((k : ℕ) → i ≤ k → k < nfds → w.slots (slot q k) ≡ none)
      → (w' : World) × (clone_from w p q n i ≡ some w')
        × Inv w'
        × Cloned p q i nfds w.slots w'.slots
  unfolding clone_from copy_entry
  clone_from-Cloned zero i w e inv free = (
    w,
    refl,
    inv,
    record {
      before = λ j h. refl;
      beyond = λ j h. refl;
      copied = λ k c d all. absurd (omega arith);
      stopped = λ k m c d g z. absurd (omega arith);
    },
  )
  clone_from-Cloned (suc n) i w e inv free = elim (Option-cases (w.slots (slot p i))) [
    | inl d ↦ (w, rw (d) refl, inv, unused-Cloned i w.slots free d)
    | inr (f, d) ↦
        let (w1, s1, c) =
          copy_fd-Copied w inv (slot p i) (slot q i) f (slot_lt p i a (omega arith))
            (slot_lt q i b (omega arith)) (free i (omega arith) (omega arith)) d in
        let (w2, s2, inv2, r) = clone_from-Cloned n (suc i) w1 (omega arith) c.inv (λ k u v.
          ap (λ s. s (slot q k)) c.slots
          ∙ sym (update_other w.slots (slot q i) (slot q k) (some f) (λ y. omega arith))
          ∙ free k (omega arith) v) in
        (
          w2,
          rw (d, s1) s2,
          inv2,
          next-Cloned i f w.slots w2.slots (omega arith) d
              (subst (λ s. Cloned p q (suc i) nfds s w2.slots) c.slots r),
        )
  ]

  -- A fork copies the table of `p` into an empty table of another process up to the first entry that
  -- is not in use, and leaves the rest of it empty: what stands behind a gap is not inherited. It never
  -- faults when the reference counts are in order, and leaves them in order.
  pub clone_fds-Cloned :
      (w : World)
      → Inv w
      → ((k : ℕ) → k < nfds → w.slots (q * nfds + k) ≡ none)
      → (w' : World) × (clone_fds w p q ≡ some w') × Inv w' × Cloned p q 0 nfds w.slots w'.slots
  unfolding clone_fds
  clone_fds-Cloned w inv free = clone_from-Cloned nfds 0 w (omega arith) inv (λ k c d. free k d)
