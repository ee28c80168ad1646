-- ===== src/Files/Calls.antt =====
-- kernel.cc: the system calls `close` and `dup2` on a table of files.
use pug_os.Prelude.{
  ℕ, ◌+◌, ◌*◌, ◌<◌, ◌≡◌, ◌≢◌, refl, ◌⊎◌, inl, inr, true, Option, some, none, arith, update,
  lt_cases, Option-cases, ap,
}
use pug_os.Files.{
  World, nslots, nfds, nproc, int_arg, e_badf, lookup_fd, drop_old, share, replace_fd, dup_file,
  sys_dup2,
}
use pug_os.Files.Inv.{Inv, slot_count-update, file_count-update}
use pug_os.Files.Deref.{emptied, file_live, deref-Released, deref_last-freed}

abbrev pub slot : ℕ → ℕ → ℕ
slot p fd = p * nfds + fd

pub slot_lt : (p fd : ℕ) → p < nproc → fd < nfds → slot p fd < nslots
slot_lt p fd a b = omega arith

pub emptied_free : (w : World) (i : ℕ) → Inv w → w.slots i ≡ none → Inv (emptied w i)
emptied_free w i inv e = record {
  counted = λ g l. ground (arith, inv.counted g, slot_count-update nslots w.slots i g none);
  dead = λ g l. ground (arith, inv.dead g, slot_count-update nslots w.slots i g none);
  unused_file = inv.unused_file;
  has_vnode = inv.has_vnode;
  alive = inv.alive;
  holds = inv.holds;
  unused_vnode = inv.unused_vnode;
}

abbrev pub shared : World → ℕ → ℕ → World
shared w i f = record w {
  slots = update w.slots i (some f);
  files = update w.files f (record (w.files f) { refs = (w.files f).refs + 1 });
}

pub shared-Inv :
    (w : World) (i f : ℕ)
    → i < nslots
    → Inv (emptied w i)
    → (w.files f).live ≡ true
    → Inv (shared w i f)
shared-Inv w i f p inv l = record {
  counted = λ g h. ground (
    arith,
    inv.counted g,
    inv.counted f,
    slot_count-update nslots w.slots i g none,
    slot_count-update nslots w.slots i g (some f),
  );
  dead = λ g h. ground (
    arith,
    inv.dead g,
    slot_count-update nslots w.slots i g none,
    slot_count-update nslots w.slots i g (some f),
  );
  unused_file = λ g h. ground (arith, inv.unused_file g);
  has_vnode = λ g h. ground (arith, inv.has_vnode g);
  alive = λ v h. ground (
    arith,
    inv.alive v,
    file_count-update w.next_file w.files f v (record (w.files f) { refs = (w.files f).refs + 1 }),
  );
  holds = λ v. ground (
    arith,
    inv.holds v,
    file_count-update w.next_file w.files f v (record (w.files f) { refs = (w.files f).refs + 1 }),
  );
  unused_vnode = inv.unused_vnode;
}

-- The call answers with E_BADF for the reason given, and changes nothing.
pub record Refused (w w' : World) (r : ℕ) (reason : Type 0) : Type 0 where
  pub why : reason
  pub result : r ≡ e_badf
  pub same : w' ≡ w

-- The slot holds `x` now, every other slot is as it was, and the reference counts are in order.
pub record Stored (w w' : World) (r p fd : ℕ) (x : Option ℕ) : Type 0 where
  pub inv : Inv w'
  pub in_range : fd < nfds
  pub result : r ≡ 0
  pub slots : w'.slots ≡ update w.slots (p * nfds + fd) x

-- The slot of `newfd` is emptied first, or was empty.
drop_old-Inv :
    (w : World) (inv : Inv w) (i : ℕ)
    → i < nslots
    → (w' : World) × (drop_old w (w.slots i) ≡ some w') × (w'.slots ≡ w.slots) × Inv (emptied w' i)
unfolding drop_old
drop_old-Inv w inv i p = elim (Option-cases (w.slots i)) [
  | inl e ↦ (w, rw (e) refl, refl, emptied_free w i inv e)
  | inr (f, e) ↦ let (w', s, d) = deref-Released w inv i f p e in (w', rw (e) s, d.slots, d.inv)
]

replace_fd-Stored :
    (w : World) (inv : Inv w) (p old new f : ℕ)
    → p < nproc
    → old < nfds
    → new < nfds
    → old ≢ new
    → w.slots (slot p old) ≡ some f
    → (w' : World) × (replace_fd w (slot p new) f ≡ some (w', 0)) × Stored w w' 0 p new (some f)
unfolding replace_fd share
replace_fd-Stored w inv p old new f a b c n e =
    let (w', s, same, inv') = drop_old-Inv w inv (slot p new) (slot_lt p new a c) in
    let there : update w'.slots (slot p new) none (slot p old) ≡ some f =
      rw (same) (ground (arith, e)) in
    let live : (w'.files f).live ≡ true =
      file_live (emptied w' (slot p new)) inv' (slot p old) f (slot_lt p old a b) there in
    (
      shared w' (slot p new) f,
      rw (s, live) refl,
      record {
        inv = shared-Inv w' (slot p new) f (slot_lt p new a c) inv' live;
        in_range = c;
        result = refl;
        slots = ap (λ s. update s (slot p new) (some f)) same;
      },
    )

-- `dup2` between two different descriptors never faults when the reference counts are in order, not
-- even when the file that it drops from `newfd` is the one that it copies. It refuses a descriptor that
-- is out of range, and an `oldfd` that is not open; when both are in range and `oldfd` is open, the slot
-- of `newfd`, and no other, takes the file of `oldfd`, with the counts in order again.
pub sys_dup2-Stored :
    (w : World)
    → Inv w
    → (p old new : ℕ) → p < nproc
    → int_arg old ≢ int_arg new
    → (w' : World) × (r : ℕ) × (sys_dup2 w p old new ≡ some (w', r))
      × (Refused w w' r
            (int_arg old < nfds → int_arg new < nfds → w.slots (p * nfds + int_arg old) ≡ none)
          ⊎ ((f : ℕ) × (int_arg old < nfds)
              × (w.slots (p * nfds + int_arg old) ≡ some f)
              × Stored w w' r p (int_arg new) (some f)))
unfolding sys_dup2 lookup_fd dup_file
sys_dup2-Stored w inv p old new a n = elim (lt_cases (int_arg old) nfds) [
  | inl b ↦ elim (Option-cases (w.slots (slot p (int_arg old)))) [
    | inl e ↦
        (w, e_badf, ground (arith, e), inl (record { why = λ b c. e; result = refl; same = refl }))
    | inr (f, e) ↦ elim (lt_cases (int_arg new) nfds) [
      | inl c ↦
          let (w', s, d) = replace_fd-Stored w inv p (int_arg old) (int_arg new) f a b c n e in
          (w', 0, ground (arith, s), inr (f, b, e, d))
      | inr c ↦ (
        w,
        e_badf,
        ground (arith, e),
        inl (record { why = λ b d. absurd (omega arith); result = refl; same = refl }),
      )
    ]
  ]
  | inr b ↦ (
    w,
    e_badf,
    ground (arith),
    inl (record { why = λ c d. absurd (omega arith); result = refl; same = refl }),
  )
]

-- When `oldfd` and `newfd` are the same descriptor and it holds the only reference to its file, `dup2`
-- uses the file after it is freed.
pub sys_dup2_self :
    (w : World)
    → Inv w
    → (p reg f : ℕ) → p < nproc
    → int_arg reg < nfds
    → w.slots (p * nfds + int_arg reg) ≡ some f
    → (w.files f).refs ≡ 1
    → sys_dup2 w p reg reg ≡ none
unfolding sys_dup2 lookup_fd dup_file replace_fd drop_old share
sys_dup2_self w inv p reg f a b e m =
    let (w', s, dead) =
      deref_last-freed w inv (slot p (int_arg reg)) f (slot_lt p (int_arg reg) a b) e m in
    ground (arith, b, e, s, dead)
