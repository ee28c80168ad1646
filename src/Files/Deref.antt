-- ===== src/Files/Deref.antt =====
-- k-vfs.cc: `file::deref` and `file::~file`, for a file that a table entry points to.
use pug_os.Prelude.{
  ℕ, ◌-◌, ◌<◌, ◌≡◌, ◌≢◌, refl, inl, inr, true, false, some, none, arith, update, lt_cases,
  Option-cases,
}
use pug_os.Files.{World, nslots, deref, delete_file, drop_vnode, drop_vnode_of}
use pug_os.Files.Inv.{Inv, slot_count-update, slot_count-pos, file_count-update, file_count-pos}

-- Emptying the slot completes the call.
abbrev pub emptied : World → ℕ → World
emptied w i = record w { slots = update w.slots i none }

abbrev lowered : World → ℕ → World
lowered w f = record w {
  files = update w.files f (record (w.files f) { refs = (w.files f).refs - 1 });
}

-- The destructor and the release of the file, in `lowered w f`.
abbrev deleted : World → ℕ → ℕ → World
deleted w f v =
    let x = lowered w f in
    record x {
      files = update x.files f (record (x.files f) { live = false });
      vnodes = update x.vnodes v (drop_vnode (x.vnodes v) (x.files f));
    }

module _ (w : World) (inv : Inv w) (i f : ℕ) (p : i < nslots) (e : w.slots i ≡ some f) where
  pub file_live : (w.files f).live ≡ true
  file_live = ground (arith, inv.dead f, slot_count-pos nslots w.slots i f p e)

  pub refs_pos : 0 < (w.files f).refs
  refs_pos = ground (arith, inv.counted f, file_live, slot_count-pos nslots w.slots i f p e)

  in_use : f < w.next_file
  in_use = ground (arith, inv.unused_file f, file_live)

  lowered-Inv : 1 < (w.files f).refs → Inv (emptied (lowered w f) i)
  lowered-Inv m = record {
    counted = λ g l. ground (arith, inv.counted g, slot_count-update nslots w.slots i g none);
    dead = λ g l. ground (arith, inv.dead g, slot_count-update nslots w.slots i g none);
    unused_file = λ g h. ground (arith, inv.unused_file g);
    has_vnode = λ g l. ground (arith, inv.has_vnode g);
    alive = λ v h. ground (
      arith,
      inv.alive v,
      file_count-update w.next_file w.files f v
          (record (w.files f) { refs = (w.files f).refs - 1 }),
    );
    holds = λ v. ground (
      arith,
      inv.holds v,
      file_count-update w.next_file w.files f v
          (record (w.files f) { refs = (w.files f).refs - 1 }),
    );
    unused_vnode = inv.unused_vnode;
  }

  module _ (v : ℕ) (d : (w.files f).vnode ≡ some v) where
    pub vnode_live : (w.vnodes v).live ≡ true
    vnode_live =
        ground (arith, inv.alive v, file_count-pos w.next_file w.files f v in_use file_live d)

    vnode_refs : 0 < (w.vnodes v).refs
    vnode_refs =
        ground (arith, inv.holds v, file_count-pos w.next_file w.files f v in_use file_live d)

    deleted-Inv : (w.files f).refs ≡ 1 → Inv (emptied (deleted w f v) i)
    unfolding drop_vnode
    deleted-Inv m = record {
      counted = λ g l. ground (arith, inv.counted g, slot_count-update nslots w.slots i g none);
      dead = λ g l.
          ground (
            arith,
            inv.dead g,
            inv.counted g,
            file_live,
            slot_count-update nslots w.slots i g none,
          );
      unused_file = λ g h. ground (arith, inv.unused_file g);
      has_vnode = λ g l. ground (arith, inv.has_vnode g);
      alive = λ u h. ground (
        arith,
        inv.alive u,
        inv.holds u,
        in_use,
        file_live,
        file_count-update w.next_file w.files f u
            (record (w.files f) { refs = (w.files f).refs - 1 }),
        file_count-update w.next_file (lowered w f).files f u
            (record ((lowered w f).files f) { live = false }),
      );
      holds = λ u. ground (
        arith,
        inv.holds u,
        in_use,
        file_live,
        file_count-update w.next_file w.files f u
            (record (w.files f) { refs = (w.files f).refs - 1 }),
        file_count-update w.next_file (lowered w f).files f u
            (record ((lowered w f).files f) { live = false }),
      );
      unused_vnode = λ u h. ground (arith, inv.unused_vnode u, inv.unused_vnode v, vnode_live);
    }

drop_vnode_of-some :
    (w : World) (f v : ℕ)
    → (w.vnodes v).live ≡ true
    → 0 < (w.vnodes v).refs
    → drop_vnode_of w f (some v)
      ≡ some (record w { vnodes = update w.vnodes v (drop_vnode (w.vnodes v) (w.files f)) })
unfolding drop_vnode_of
drop_vnode_of-some w f v l r = ground (arith, l, r)

delete_file-some :
    (w : World) (f v : ℕ)
    → (w.files f).vnode ≡ some v
    → (w.vnodes v).live ≡ true
    → 0 < (w.vnodes v).refs
    → delete_file w f
      ≡ some (record w {
        files = update w.files f (record (w.files f) { live = false });
        vnodes = update w.vnodes v (drop_vnode (w.vnodes v) (w.files f));
      })
unfolding delete_file
delete_file-some w f v d l r = simp (d, drop_vnode_of-some w f v l r)

-- What letting go of the slot's file does: it never faults, the world without the slot is in order,
-- the slots are as they were, and so are the other files.
pub record Released (w : World) (i f : ℕ) (w' : World) : Type 0 where
  pub inv : Inv (emptied w' i)
  pub slots : w'.slots ≡ w.slots
  pub others : (g : ℕ) → g ≢ f → w'.files g ≡ w.files g
  pub next_file : w'.next_file ≡ w.next_file
  pub next_vnode : w'.next_vnode ≡ w.next_vnode

module _ (w : World) (inv : Inv w) (i f : ℕ) (p : i < nslots) (e : w.slots i ≡ some f) where
  deref_last :
      (v : ℕ) → (w.files f).vnode ≡ some v → (w.files f).refs ≡ 1 → deref w f ≡ some (deleted w f v)
  unfolding deref
  deref_last v d m =
      let step : delete_file (lowered w f) f ≡ some (deleted w f v) =
        delete_file-some (lowered w f) f v (ground (arith, d)) (vnode_live w inv i f p e v d)
          (vnode_refs w inv i f p e v d) in
      ground (arith, file_live w inv i f p e, refs_pos w inv i f p e, step)

  pub deref_last-freed :
      (w.files f).refs ≡ 1 → (w' : World) × (deref w f ≡ some w') × ((w'.files f).live ≡ false)
  deref_last-freed m = elim (Option-cases (w.files f).vnode) [
    | inl d ↦ absurd (inv.has_vnode f (file_live w inv i f p e) d)
    | inr (v, d) ↦ (deleted w f v, deref_last v d m, ground arith)
  ]

  pub deref-Released : (w' : World) × (deref w f ≡ some w') × Released w i f w'
  unfolding deref
  deref-Released = elim (lt_cases 1 (w.files f).refs) [
    | inl m ↦ (
      lowered w f,
      ground (arith, file_live w inv i f p e),
      record {
        inv = lowered-Inv w inv i f p e m;
        slots = refl;
        others = λ g n. ground arith;
        next_file = refl;
        next_vnode = refl;
      },
    )
    | inr m ↦ elim (Option-cases (w.files f).vnode) [
      | inl d ↦ absurd (inv.has_vnode f (file_live w inv i f p e) d)
      | inr (v, d) ↦
          let one : (w.files f).refs ≡ 1 = omega (arith, refs_pos w inv i f p e) in
          (
            deleted w f v,
            deref_last v d one,
            record {
              inv = deleted-Inv w inv i f p e v d one;
              slots = refl;
              others = λ g n. ground arith;
              next_file = refl;
              next_vnode = refl;
            },
          )
    ]
  ]
