-- ===== src/Files/Tables/Closed.antt =====
-- kernel.cc: the loop of `process_exit` that lets go of the files of a table.
use pug_os.Prelude.{
  ℕ, zero, suc, ◌+◌, ◌-◌, ◌*◌, ◌<◌, ◌≤◌, ◌≡◌, ◌≢◌, refl, sym, ◌∙◌, inl, inr, ◌&&◌, Option, some,
  none, arith, leb, ltb, if◌then◌else◌, ◌>>=◌, Option-cases, subst, ap, update,
}
use std.Path.{fun_ext}
use pug_os.Files.{World, nfds, nproc, deref, delete_file, drop_vnode_of}
use pug_os.Files.Inv.{Inv}
use pug_os.Files.Deref.{deref-Released}
use pug_os.Files.Calls.{slot, slot_lt, emptied_free}
use pug_os.Files.Tables.{close_entry, close_from, close_all, clear_table}

-- What `deref` does has nothing to do with the tables.
abbrev with_slots : (ℕ → Option ℕ) → World → World
with_slots s w = record w { slots = s }

drop_vnode_of-with_slots :
    (w : World) (s : ℕ → Option ℕ) (f : ℕ) (v : Option ℕ)
    → drop_vnode_of (with_slots s w) f v ≡ (drop_vnode_of w f v >>= λ w'. some (with_slots s w'))
unfolding drop_vnode_of
drop_vnode_of-with_slots w s f none = refl
drop_vnode_of-with_slots w s f (some v) = ground arith

delete_file-with_slots :
    (w : World) (s : ℕ → Option ℕ) (f : ℕ)
    → delete_file (with_slots s w) f ≡ (delete_file w f >>= λ w'. some (with_slots s w'))
unfolding delete_file
delete_file-with_slots w s f = ground (arith, drop_vnode_of-with_slots w s f (w.files f).vnode)

deref-with_slots :
    (w : World) (s : ℕ → Option ℕ) (f : ℕ)
    → deref (with_slots s w) f ≡ (deref w f >>= λ w'. some (with_slots s w'))
unfolding deref
deref-with_slots w s f = ground (
  arith,
  delete_file-with_slots
      (record w { files = update w.files f (record (w.files f) { refs = (w.files f).refs - 1 }) }) s
      f,
)

module _ (p : ℕ) (a : p < nproc) where
  -- The table without its first `i` entries.
  abbrev without_first : ℕ → World → World
  without_first i w =
      with_slots (λ j. if leb (slot p 0) j && ltb j (slot p i) then none else w.slots j) w

  -- What letting go of the files from `i` on does.
  record Rest (w w' : World) (i : ℕ) : Type 0 where
    pub inv : Inv (without_first nfds w')
    pub slots : w'.slots ≡ w.slots
    pub others :
        (g : ℕ)
        → ((k : ℕ) → i ≤ k → k < nfds → w.slots (slot p k) ≢ some g)
        → w'.files g ≡ w.files g

  none_cleared : (w : World) → Inv w → Inv (without_first 0 w)
  none_cleared w inv =
      let same : w.slots ≡ (without_first 0 w).slots = fun_ext (λ j. ground arith) in
      subst (λ s. Inv (with_slots s w)) same inv

  -- Entry `i` joins the entries that are gone.
  more_cleared :
      (w : World) (s : ℕ → Option ℕ) (i : ℕ)
      → s ≡ (without_first i w).slots
      → update s (slot p i) none ≡ (without_first (suc i) w).slots
  more_cleared w s i e = ap (λ s. update s (slot p i) none) e ∙ fun_ext (λ j. ground arith)

  there : (w : World) (i : ℕ) → w.slots (slot p i) ≡ (without_first i w).slots (slot p i)
  there w i = ground arith

  deref_entry :
      (w : World) (i f : ℕ)
      → i < nfds
      → Inv (without_first i w)
      → w.slots (slot p i) ≡ some f
      → (w' : World) × (deref w f ≡ some w')
        × Inv (without_first (suc i) w')
        × (w'.slots ≡ w.slots)
        × ((g : ℕ) → g ≢ f → w'.files g ≡ w.files g)
  deref_entry w i f b inv e =
      let (w', s, r) =
        deref-Released (without_first i w) inv (slot p i) f (slot_lt p i a b)
          (sym (there w i) ∙ e) in
      let now : deref w f ≡ some (with_slots w.slots w') =
        deref-with_slots (without_first i w) w.slots f
        ∙ ap (λ o. o >>= λ x. some (with_slots w.slots x)) s in
      (
        with_slots w.slots w',
        now,
        subst (λ s. Inv (with_slots s w')) (more_cleared w w'.slots i r.slots) r.inv,
        refl,
        r.others,
      )

  close_from_open :
      (w w1 w' : World) (n i f : ℕ)
      → w.slots (slot p i) ≡ some f
      → deref w f ≡ some w1
      → close_from w1 p n (suc i) ≡ some w'
      → close_from w p (suc n) i ≡ some w'
  unfolding close_from close_entry
  close_from_open w w1 w' n i f d e h = rw (d, e) h

  close_from_unused :
      (w w' : World) (n i : ℕ)
      → w.slots (slot p i) ≡ none
      → close_from w p n (suc i) ≡ some w'
      → close_from w p (suc n) i ≡ some w'
  unfolding close_from close_entry
  close_from_unused w w' n i d h = rw (d) h

  close_from-Rest :
      (n i : ℕ) (w : World)
      → i + n ≡ nfds
      → Inv (without_first i w)
      → (w' : World) × (close_from w p n i ≡ some w') × Rest w w' i
  unfolding close_from close_entry
  close_from-Rest zero i w e inv =
      let all : i ≡ nfds = omega arith in
      (
        w,
        refl,
        record {
          inv = subst (λ i. Inv (without_first i w)) all inv;
          slots = refl;
          others = λ g h. refl;
        },
      )
  close_from-Rest (suc n) i w e inv = elim (Option-cases (w.slots (slot p i))) [
    | inl d ↦
        let next : Inv (without_first (suc i) w) =
          subst (λ s. Inv (with_slots s w)) (more_cleared w (without_first i w).slots i refl)
            (emptied_free (without_first i w) (slot p i) inv (sym (there w i) ∙ d)) in
        let (w', s, r) = close_from-Rest n (suc i) w (omega arith) next in
        (
          w',
          close_from_unused w w' n i d s,
          record {
            inv = r.inv;
            slots = r.slots;
            others = λ g h. r.others g (λ k u v. h k (omega arith) v);
          },
        )
    | inr (f, d) ↦
        let (w1, s1, inv1, same, others) = deref_entry w i f (omega arith) inv d in
        let (w', s, r) = close_from-Rest n (suc i) w1 (omega arith) inv1 in
        (
          w',
          close_from_open w w1 w' n i f d s1 s,
          record {
            inv = r.inv;
            slots = r.slots ∙ same;
            others = λ g h.
                r.others g (λ k u v y. h k (omega arith) v (sym (ap (λ s. s (slot p k)) same) ∙ y))
                ∙ others g (λ y. h i (omega arith) (omega arith) (d ∙ ap some (sym y)));
          },
        )
  ]

  -- The exit of a process lets go of the files of its table, one reference for each entry, and never
  -- faults when the reference counts are in order. They are in order again once the table is deleted,
  -- and a file that no entry of the table holds is as it was.
  pub close_all-Closed :
      (w : World)
      → Inv w
      → (w' : World) × (close_all w p ≡ some w')
        × Inv (clear_table w' p)
        × (w'.slots ≡ w.slots)
        × ((g : ℕ)
            → ((k : ℕ) → k < nfds → w.slots (p * nfds + k) ≢ some g)
            → w'.files g ≡ w.files g)
  unfolding close_all clear_table
  close_all-Closed w inv =
      let (w', s, r) = close_from-Rest nfds 0 w (omega arith) (none_cleared w inv) in
      let same : (without_first nfds w').slots ≡ (clear_table w' p).slots =
        fun_ext (λ j. ground arith) in
      (
        w',
        s,
        subst (λ s. Inv (with_slots s w')) same r.inv,
        r.slots,
        λ g h. r.others g (λ k u v. h k v),
      )
