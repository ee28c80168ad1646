-- ===== src/Chkfs/Blocks/Iter.antt =====
-- `chkfs_fileiter::find`: the block it stops at, and the references that the iterator holds.
use pug_os.Prelude.{
  ℕ, ◌+◌, ◌-◌, ◌/◌, ◌%◌, ◌<◌, ◌≤◌, ◌≡◌, ◌⊎◌, inl, inr, refl, sym, subst, ap, ◌∙◌, Bool, true, false,
  ◌&&◌, Option, some, none, ltb, leb, ◌==◌, if◌then◌else◌, arith, lt_cases, Bool-cases,
}
use pug_os.Chkfs.Blocks.{
  Inode, Store, blocksize, ndirect, nindirect, maxsize, get_if, bi_direct_index, Pointer, in_inode,
  in_block, load, iclass, is_none, get_iptr, get_dptr, leave_class, load_indirect2, load_indirect,
}
use pug_os.Chkfs.Blocks.Lookup.{through, block_at, entry_of, one_ref, get_if-Found, direct_index}

-- The indirect block of a class, or 0.
unfoldable pub class_block : Inode → (ℕ → ℕ → ℕ) → ℕ → ℕ
class_block ino words c = if ltb 1 c then through words ino.indirect2 (c - 2) else ino.indirect

-- The entry of the doubly indirect block and that of the indirect block of a class: what they are entries of.
pub record IsAt (ino : Inode) (words : ℕ → ℕ → ℕ) (c : ℕ) (e2 e1 : Option ℕ) : Type 0 where
  pub top : (b : ℕ) → e2 ≡ some b → (b ≡ ino.indirect2) × ((b == 0) ≡ false)
  pub low : (b : ℕ) → e1 ≡ some b → (b ≡ class_block ino words c) × ((b == 0) ≡ false) × (0 < c)

-- The references of an entry to block `b`.
abbrev pub entry_ref : Option ℕ → ℕ → ℕ
entry_ref e b = elim e [ none ↦ 0 | some x ↦ if x == b then 1 else 0 ]

entry_of-ref : (bn b : ℕ) → entry_ref (entry_of bn) b ≡ one_ref bn b
entry_of-ref bn b = ground arith

entry_of-some : (bn b : ℕ) → entry_of bn ≡ some b → (b ≡ bn) × ((b == 0) ≡ false)
entry_of-some bn b h = ground (arith, h)

-- An entry changes from `e` to `e'`, and the references with it.
pub record Moved (s s' : Store) (e e' : Option ℕ) : Type 0 where
  pub words : s'.words ≡ s.words
  pub refs : (b : ℕ) → s'.refs b + entry_ref e b ≡ s.refs b + entry_ref e' b

Moved-refl : (s : Store) (e : Option ℕ) → Moved s s e e
Moved-refl s e = record { words = refl; refs = λ b. refl }

get_if-Moved :
    (room : ℕ → Bool) (bn : ℕ) (s : Store)
    → ((b : ℕ) → room b ≡ true)
    → ((get_if room bn s).1 ≡ entry_of bn)
      × Moved s ((get_if room bn s).0) none ((get_if room bn s).1)
get_if-Moved room bn s all =
    let (got, f) = get_if-Found room bn s all in
    (
      got,
      record {
        words = f.words;
        refs = λ b. omega (arith, f.refs b, entry_of-ref bn b, ap (λ o. entry_ref o b) got);
      },
    )

pub entry_of-none : (bn : ℕ) → none ≡ entry_of bn → (bn == 0) ≡ true
entry_of-none bn h = ground (arith, h)

pub through-null : (words : ℕ → ℕ → ℕ) (b k : ℕ) → (b == 0) ≡ true → through words b k ≡ 0
unfolding through
through-null words b k h = rw (h) refl

through-real : (words : ℕ → ℕ → ℕ) (b k : ℕ) → (b == 0) ≡ false → through words b k ≡ words b k
unfolding through
through-real words b k h = rw (h) refl

pub block_at-class :
    (ino : Inode) (words : ℕ → ℕ → ℕ) (bi : ℕ)
    → ndirect ≤ bi
    → block_at ino words bi
      ≡ through words (class_block ino words (iclass bi)) ((bi - ndirect) % nindirect)
unfolding block_at class_block
block_at-class ino words bi above =
    let c : ltb bi ndirect ≡ false = ground (arith, above) in
    elim (lt_cases bi (ndirect + nindirect)) [
      | inl one ↦
          let flat : ltb 1 (iclass bi) ≡ false = ground (arith, one) in
          let near : ltb bi (ndirect + nindirect) ≡ true = ground (arith, one) in
          rw (c, flat, near) refl
      | inr two ↦
          let deep : ltb 1 (iclass bi) ≡ true = ground (arith, two) in
          let far : ltb bi (ndirect + nindirect) ≡ false = ground (arith, two) in
          let index : (bi - ndirect - nindirect) / nindirect ≡ iclass bi - 2 = omega (arith, two) in
          rw (c, deep, far)
            (ap (λ k. through words (through words ino.indirect2 k) ((bi - ndirect) % nindirect))
              index)
    ]

module _ (room : ℕ → Bool) (all : (b : ℕ) → room b ≡ true) (ino : Inode) where
  pub leave_class-Moved :
      (bi off : ℕ) (e1 e2 : Option ℕ) (s : Store)
      → ((b : ℕ) → entry_ref e1 b ≤ s.refs b)
      → IsAt ino s.words (iclass (off / blocksize)) e2 e1
      → Moved s ((leave_class bi off e1 s).1) e1 ((leave_class bi off e1 s).0)
        × IsAt ino s.words (iclass bi) e2 ((leave_class bi off e1 s).0)
  unfolding leave_class
  leave_class-Moved bi off none e2 s held v =
      (Moved-refl s none, record { top = v.top; low = λ b h. absurd (ground (arith, h)) })
  leave_class-Moved bi off (some b) e2 s held v =
      elim (Bool-cases (iclass bi == iclass (off / blocksize))) [
        | inl same ↦
            let class : iclass (off / blocksize) ≡ iclass bi = ground (arith, same) in
            rw (same) (Moved-refl s (some b), subst (λ c. IsAt ino s.words c e2 (some b)) class v)
        | inr other ↦ rw (other) (
          record { words = refl; refs = λ k. ground (arith, held k, held b) },
          record { top = v.top; low = λ b h. absurd (ground (arith, h)) },
        )
      ]

  pub load_indirect2-Moved :
      (bi c : ℕ) (e1 e2 : Option ℕ) (s : Store)
      → IsAt ino s.words c e2 e1
      → Moved s ((load_indirect2 room ino bi e2 s).1) e2 ((load_indirect2 room ino bi e2 s).0)
        × IsAt ino s.words c ((load_indirect2 room ino bi e2 s).0) e1
        × (ndirect + nindirect ≤ bi → (load_indirect2 room ino bi e2 s).0 ≡ entry_of ino.indirect2)
  unfolding load_indirect2
  load_indirect2-Moved bi c e1 (some b) s v =
      let (same, real) = v.top b refl in (Moved-refl s (some b), v, λ h. ground (arith, same, real))
  load_indirect2-Moved bi c e1 none s v = elim (Bool-cases (leb (ndirect + nindirect) bi)) [
    | inl deep ↦
        let (got, m) = get_if-Moved room ino.indirect2 s all in
        rw (deep) (
          m,
          record { top = λ b h. entry_of-some ino.indirect2 b (sym got ∙ h); low = v.low },
          λ h. got,
        )
    | inr flat ↦ rw (flat) (Moved-refl s none, v, λ h. absurd (ground (arith, h, flat)))
  ]

  get_iptr_at :
      (bi : ℕ) (e2 : Option ℕ) (s : Store)
      → ndirect ≤ bi
      → bi < maxsize / blocksize
      → (ndirect + nindirect ≤ bi → (e2 ≡ entry_of ino.indirect2) × (is_none e2 ≡ false))
      → get_iptr ino s e2 bi ≡ some (class_block ino s.words (iclass bi))
  unfolding get_iptr class_block through
  get_iptr_at bi none s lower upper deep = elim (lt_cases bi (ndirect + nindirect)) [
    | inl one ↦ let flat : ltb 1 (iclass bi) ≡ false = ground (arith, one) in rw (flat) refl
    | inr two ↦ absurd (let d = deep two in ground (arith, d.1))
  ]
  get_iptr_at bi (some b) s lower upper deep = elim (lt_cases bi (ndirect + nindirect)) [
    | inl one ↦ let flat : ltb 1 (iclass bi) ≡ false = ground (arith, one) in rw (flat) refl
    | inr two ↦
        let far : ltb 1 (iclass bi) ≡ true = ground (arith, two) in
        let inside : ltb (iclass bi - 2) nindirect ≡ true = ground (arith, upper) in
        let (same, real) = entry_of-some ino.indirect2 b (sym ((deep two).0)) in
        let null : (ino.indirect2 == 0) ≡ false = ap (λ x. x == 0) (sym same) ∙ real in
        rw (far, inside, null) (ap (λ x. some (s.words x (iclass bi - 2))) same)
  ]

  pub load_indirect-Moved :
      (bi : ℕ) (e1 e2 : Option ℕ) (s : Store)
      → bi < maxsize / blocksize
      → IsAt ino s.words (iclass bi) e2 e1
      → (ndirect + nindirect ≤ bi → (e2 ≡ entry_of ino.indirect2) × (is_none e2 ≡ false))
      → (e : Option ℕ) × (s' : Store) × (load_indirect room ino bi e2 e1 s ≡ some (e, s'))
        × Moved s s' e1 e
        × IsAt ino s.words (iclass bi) e2 e
        × (ndirect ≤ bi → e ≡ entry_of (class_block ino s.words (iclass bi)))
  unfolding load_indirect
  load_indirect-Moved bi (some b) e2 s upper v deep =
      let (same, real, _) = v.low b refl in
      (some b, s, refl, Moved-refl s (some b), v, λ h. ground (arith, same, real))
  load_indirect-Moved bi none e2 s upper v deep = elim (lt_cases bi ndirect) [
    | inl direct ↦
        let no_load : leb ndirect bi ≡ false = ground (arith, direct) in
        (
          none,
          s,
          rw (load_indirect, no_load) refl,
          Moved-refl s none,
          v,
          λ h. absurd (omega (arith, h, direct)),
        )
    | inr above ↦
        let loads : leb ndirect bi ≡ true = ground (arith, above) in
        let ibn = class_block ino s.words (iclass bi) in
        let (got, m) = get_if-Moved room ibn s all in
        (
          (get_if room ibn s).1,
          (get_if room ibn s).0,
          rw (load_indirect, loads, get_iptr_at bi e2 s above upper deep) refl,
          m,
          record {
            top = v.top;
            low = λ b h.
                let (same, real) = entry_of-some ibn b (sym got ∙ h) in
                (same, real, omega (arith, above));
          },
          λ h. got,
        )
  ]

  -- Where the pointer of the iterator stands, once the entries are there.
  pub get_dptr-At :
      (bi : ℕ) (e : Option ℕ) (s : Store)
      → bi < maxsize / blocksize
      → (ndirect ≤ bi → e ≡ entry_of (class_block ino s.words (iclass bi)))
      → ((leb ndirect bi && is_none e) ≡ true) × (block_at ino s.words bi ≡ 0)
        ⊎ ((leb ndirect bi && is_none e) ≡ false)
          × ((p : Pointer) × (get_dptr e bi ≡ some p) × (load ino s p ≡ block_at ino s.words bi))
  unfolding get_dptr load block_at
  get_dptr-At bi none s upper h = elim (lt_cases bi ndirect) [
    | inl direct ↦
        let c : leb ndirect bi ≡ false = ground (arith, direct) in
        let d : ltb bi ndirect ≡ true = ground (arith, direct) in
        rw (c, d) (inr (refl, (in_inode bi, refl, refl)))
    | inr above ↦
        let c : leb ndirect bi ≡ true = ground (arith, above) in
        let null : (class_block ino s.words (iclass bi) == 0) ≡ true = entry_of-none _ (h above) in
        rw (c) (inl (refl, block_at-class ino s.words bi above ∙ through-null s.words _ _ null))
  ]
  get_dptr-At bi (some b) s upper h = elim (lt_cases bi ndirect) [
    | inl direct ↦
        let c : leb ndirect bi ≡ false = ground (arith, direct) in
        let d : ltb bi ndirect ≡ true = ground (arith, direct) in
        rw (c, d) (inr (refl, (in_inode bi, refl, refl)))
    | inr above ↦
        let c : leb ndirect bi ≡ true = ground (arith, above) in
        let (same, real) = entry_of-some (class_block ino s.words (iclass bi)) b (sym (h above)) in
        let null : (class_block ino s.words (iclass bi) == 0) ≡ false =
          ap (λ x. x == 0) (sym same) ∙ real in
        let index : bi_direct_index bi ≡ some ((bi - ndirect) % nindirect) =
          direct_index bi upper ∙ ap some (ground (arith, above)) in
        rw (c, index)
          (inr (
            refl,
            (
              in_block b ((bi - ndirect) % nindirect),
              refl,
              ap (λ x. s.words x ((bi - ndirect) % nindirect)) same
                  ∙ sym (block_at-class ino s.words bi above ∙ through-real s.words _ _ null),
            ),
          ))
  ]
