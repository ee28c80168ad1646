-- ===== src/Chkfs/Blocks/Find.antt =====
-- `chkfs_fileiter::find`, from its steps.
use pug_os.Prelude.{
  ℕ, ◌+◌, ◌-◌, ◌/◌, ◌%◌, ◌<◌, ◌≤◌, ◌≡◌, inl, inr, refl, sym, subst, ap, ◌∙◌, Bool, true, false,
  ◌&&◌, Option, some, none, min, ltb, leb, ◌==◌, arith, Bool-cases,
}
use pug_os.Chkfs.Blocks.{
  Inode, Store, blocksize, ndirect, nindirect, maxsize, get_if, FileIter, in_inode, blocknum,
  iclass, is_none, get_iptr, leave_class, load_indirect2, load_indirect, find_indirect, find_block,
  find,
}
use pug_os.Chkfs.Blocks.Lookup.{block_at, entry_of}
use pug_os.Chkfs.Blocks.Iter.{
  entry_of-none, through-null, block_at-class, class_block, IsAt, entry_ref, leave_class-Moved,
  load_indirect2-Moved, load_indirect-Moved, get_dptr-At,
}

-- The entries of an iterator are those of the blocks that its offset needs.
unfoldable pub IsIter : Inode → (ℕ → ℕ → ℕ) → FileIter → Type 0
IsIter ino words it =
    IsAt ino words (iclass (it.off / blocksize)) it.indirect2_entry it.indirect_entry

-- The references of an iterator to block `b`.
abbrev pub held : FileIter → ℕ → ℕ
held it b = entry_ref it.indirect2_entry b + entry_ref it.indirect_entry b

-- Where `find` takes an iterator. The references to a block change by what the iterator holds.
pub record StandsAt (ino : Inode) (it : FileIter) (s : Store) (off : ℕ) (it' : FileIter)
    (s' : Store) : Type 0 where
  pub at : it'.off ≡ off
  pub valid : IsIter ino s'.words it'
  pub words : s'.words ≡ s.words
  pub block : blocknum ino s' it' ≡ block_at ino s.words (off / blocksize)
  pub refs : (b : ℕ) → s'.refs b + held it b ≡ s.refs b + held it' b

IsAt-words :
    (ino : Inode) (w w' : ℕ → ℕ → ℕ) (c : ℕ) (e2 e1 : Option ℕ)
    → w' ≡ w
    → IsAt ino w c e2 e1
    → IsAt ino w' c e2 e1
IsAt-words ino w w' c e2 e1 h v = subst (λ w. IsAt ino w c e2 e1) (sym h) v

-- No block at an index that needs the doubly indirect block, without one.
no_block :
    (ino : Inode) (words : ℕ → ℕ → ℕ) (bi : ℕ) (e2 : Option ℕ)
    → (leb (ndirect + nindirect) bi && is_none e2) ≡ true
    → (ndirect + nindirect ≤ bi → e2 ≡ entry_of ino.indirect2)
    → block_at ino words bi ≡ 0
unfolding class_block
no_block ino words bi none stops top =
    let deep : ndirect + nindirect ≤ bi = ground (arith, stops) in
    let null = entry_of-none ino.indirect2 (top deep) in
    let far : ltb 1 (iclass bi) ≡ true = ground (arith, deep) in
    let class : class_block ino words (iclass bi) ≡ 0 =
      rw (far) (through-null words ino.indirect2 (iclass bi - 2) null) in
    block_at-class ino words bi (omega (arith, deep))
    ∙ through-null words (class_block ino words (iclass bi)) ((bi - ndirect) % nindirect)
        (ap (λ x. x == 0) class)
no_block ino words bi (some b) stops top = absurd (ground (arith, stops))

module _ (room : ℕ → Bool) (all : (b : ℕ) → room b ≡ true) (ino : Inode) where
  find_indirect-StandsAt :
      (it : FileIter) (r s : Store) (off : ℕ) (e2 e1 : Option ℕ)
      → off / blocksize < maxsize / blocksize
      → s.words ≡ r.words
      → ((b : ℕ) → s.refs b + held it b ≡ r.refs b + (entry_ref e2 b + entry_ref e1 b))
      → IsAt ino s.words (iclass (off / blocksize)) e2 e1
      → (ndirect + nindirect ≤ off / blocksize
          → (e2 ≡ entry_of ino.indirect2) × (is_none e2 ≡ false))
      → (it' : FileIter) × (s' : Store) × (find_indirect room ino (off / blocksize) off e2 e1 s
          ≡ some (it', s'))
        × StandsAt ino it r off it' s'
  unfolding find_indirect blocknum IsIter
  find_indirect-StandsAt it r s off e2 e1 upper words refs v deep =
      let bi = off / blocksize in
      let (e, t, run, m, w, at) = load_indirect-Moved room all ino bi e1 e2 s upper v deep in
      let same : t.words ≡ r.words = m.words ∙ words in
      let at' : ndirect ≤ bi → e ≡ entry_of (class_block ino t.words (iclass bi)) =
        λ h. at h ∙ ap (λ x. entry_of (class_block ino x (iclass bi))) (sym m.words) in
      let block : block_at ino t.words bi ≡ block_at ino r.words bi =
        ap (λ x. block_at ino x bi) same in
      elim (get_dptr-At room all ino bi e t upper at') [
        | inl (stops, nothing) ↦ (
          record { off = off; dptr = none; indirect2_entry = e2; indirect_entry = e },
          t,
          rw (find_indirect, run, stops) refl,
          record {
            at = refl;
            valid = IsAt-words ino s.words t.words (iclass bi) e2 e m.words w;
            words = same;
            block = sym nothing ∙ block;
            refs = λ b. omega (arith, refs b, m.refs b);
          },
        )
        | inr (goes, (p, ptr, val)) ↦ (
          record { off = off; dptr = some p; indirect2_entry = e2; indirect_entry = e },
          t,
          rw (find_indirect, run, goes, ptr) refl,
          record {
            at = refl;
            valid = IsAt-words ino s.words t.words (iclass bi) e2 e m.words w;
            words = same;
            block = val ∙ block;
            refs = λ b. omega (arith, refs b, m.refs b);
          },
        )
      ]

  -- `find` to an offset within the size limit of files, with room in the cache, from an iterator whose
  -- entries fit its offset: the iterator stands at the offset, its entries fit again, and `blocknum` is the
  -- block that the pointers of the inode lead to, or 0 where one is missing. No block changes, and
  -- the iterator holds a reference for each of its entries and no other.
  pub find-StandsAt :
      (it : FileIter) (s : Store) (off : ℕ)
      → off < maxsize
      → IsIter ino s.words it
      → ((b : ℕ) → held it b ≤ s.refs b)
      → (it' : FileIter) × (s' : Store) × (find room ino off it s ≡ some (it', s'))
        × StandsAt ino it s off it' s'
  unfolding find find_block IsIter blocknum
  find-StandsAt it s off small v holds =
      let bi = off / blocksize in
      let clip : min off maxsize ≡ off = omega (arith, small) in
      let to_block : find room ino off it s ≡ find_block room ino off bi it s =
        ap (λ x. find_block room ino off (x / blocksize) it s) clip in
      let upper : bi < maxsize / blocksize = omega (arith, small) in
      let (m1, w1) =
        leave_class-Moved room all ino bi it.off it.indirect_entry it.indirect2_entry s
          (λ b. omega (arith, holds b)) v in
      let e1 = (leave_class bi it.off it.indirect_entry s).0 in
      let s1 = (leave_class bi it.off it.indirect_entry s).1 in
      let w1' = IsAt-words ino s.words s1.words (iclass bi) it.indirect2_entry e1 m1.words w1 in
      let (m2, w2, top) =
        load_indirect2-Moved room all ino bi (iclass bi) e1 it.indirect2_entry s1 w1' in
      let e2 = (load_indirect2 room ino bi it.indirect2_entry s1).0 in
      let s2 = (load_indirect2 room ino bi it.indirect2_entry s1).1 in
      let refs : (b : ℕ) → s2.refs b + held it b ≡ s.refs b + (entry_ref e2 b + entry_ref e1 b) =
        λ b. omega (arith, m1.refs b, m2.refs b) in
      let valid = IsAt-words ino s1.words s2.words (iclass bi) e2 e1 m2.words w2 in
      elim (Bool-cases (leb (ndirect + nindirect) bi && is_none e2)) [
        | inl stops ↦ (
          record { off = off; dptr = none; indirect2_entry = e2; indirect_entry = e1 },
          s2,
          to_block ∙ (rw (find_block, stops) refl),
          record {
            at = refl;
            valid = valid;
            words = m2.words ∙ m1.words;
            block = sym (no_block ino s.words bi e2 stops top);
            refs = refs;
          },
        )
        | inr goes ↦
            let (it', s', run, st) =
              find_indirect-StandsAt it s s2 off e2 e1 upper (m2.words ∙ m1.words) refs valid
                (λ h. (top h, ground (arith, goes, h))) in
            (it', s', to_block ∙ (rw (find_block, goes) run), st)
      ]

-- The iterator that the constructor makes.
abbrev pub new_iter : FileIter
new_iter = record {
  off = 0;
  dptr = some (in_inode 0);
  indirect2_entry = none;
  indirect_entry = none;
}

-- At the size limit or behind it, a file that has a doubly indirect block makes `find` read the word behind
-- the last one of that block, for an iterator that is new.
pub find_past_end :
    (room : ℕ → Bool) (ino : Inode) (off : ℕ) (s : Store)
    → ((b : ℕ) → room b ≡ true)
    → maxsize ≤ off
    → (ino.indirect2 == 0) ≡ false
    → find room ino off new_iter s ≡ none
unfolding find find_block leave_class load_indirect2 find_indirect load_indirect get_iptr get_if
find_past_end room ino off s all over real =
    let clip : min off maxsize ≡ maxsize = omega (arith, over) in
    ap (λ x. find_block room ino off (x / blocksize) new_iter s) clip
    ∙ (rw (all ino.indirect2, real) refl)
