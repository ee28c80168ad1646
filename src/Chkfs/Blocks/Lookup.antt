-- ===== src/Chkfs/Blocks/Lookup.antt =====
-- `get_data_block`: the block that it finds, and the references that it leaves.
use pug_os.Prelude.{
  ℕ, ◌+◌, ◌-◌, ◌/◌, ◌%◌, ◌^◌, ◌<◌, ◌≤◌, ◌≡◌, inl, inr, refl, subst, ap, ◌∙◌, Bool, true, false, not,
  ◌&&◌, Option, some, none, ltb, leb, ◌==◌, if◌then◌else◌, arith, lt_cases, Bool-cases,
}
use pug_os.Chkfs.Blocks.{
  Inode, Store, blocksize, ndirect, nindirect, maxsize, get_if, put, bi_direct_index,
  bi_indirect_index, from_indirect, from_indirect2, get_data_block,
}

-- The block that an inode has at block index `bi`, or 0: through as many pointers as the index needs, each
-- of which may be missing.
unfoldable pub through : (ℕ → ℕ → ℕ) → ℕ → ℕ → ℕ
through words b k = if b == 0 then 0 else words b k

abbrev pub indirect_at : Inode → (ℕ → ℕ → ℕ) → ℕ → ℕ
indirect_at ino words bi =
    if ltb bi (ndirect + nindirect)
    then ino.indirect
    else through words ino.indirect2 ((bi - ndirect - nindirect) / nindirect)

unfoldable pub block_at : Inode → (ℕ → ℕ → ℕ) → ℕ → ℕ
block_at ino words bi =
    if ltb bi ndirect
    then ino.direct bi
    else through words (indirect_at ino words bi) ((bi - ndirect) % nindirect)

-- An entry for the block, or none for 0.
abbrev pub entry_of : ℕ → Option ℕ
entry_of bn = if bn == 0 then none else some bn

-- How many of the references of an entry are to block `b`.
abbrev pub one_ref : ℕ → ℕ → ℕ
one_ref bn b = if not (bn == 0) && (bn == b) then 1 else 0

pub record Found (s t : Store) (bn : ℕ) : Type 0 where
  pub words : t.words ≡ s.words
  pub refs : (b : ℕ) → t.refs b ≡ s.refs b + one_ref bn b

pub get_if-Found :
    (room : ℕ → Bool) (bn : ℕ) (s : Store)
    → ((b : ℕ) → room b ≡ true)
    → ((get_if room bn s).1 ≡ entry_of bn) × Found s ((get_if room bn s).0) bn
unfolding get_if
get_if-Found room bn s all = elim (Bool-cases (bn == 0)) [
  | inl zero_bn ↦ rw (zero_bn) (refl, record { words = refl; refs = λ b. ground (arith, zero_bn) })
  | inr some_bn ↦
      rw (some_bn, all bn) (refl, record { words = refl; refs = λ b. ground (arith, some_bn) })
]

-- A lookup: what it returns, and that it only keeps the reference to that.
abbrev pub Looked : Option (Store × Option ℕ) → Store → ℕ → Type 0
Looked r s bn = (t : Store) × (r ≡ some (t, entry_of bn)) × Found s t bn

-- The reference to the pointer block is given back.
put-Found :
    (s t u : Store) (b bn : ℕ) → (b ≡ 0 → ⊥) → Found s t b → Found t u bn → Found s (put b u) bn
put-Found s t u b bn real f g = record {
  words = g.words ∙ f.words;
  refs = λ k. ground (arith, real, f.refs k, g.refs k);
}

pub direct_index :
    (bi : ℕ)
    → bi < maxsize / blocksize
    → bi_direct_index bi ≡ some (if ltb bi ndirect then bi else (bi - ndirect) % nindirect)
unfolding bi_direct_index
direct_index bi h = let e : ltb bi (maxsize / blocksize) ≡ true = ground (arith, h) in rw (e) refl

looked : Store → ℕ → Option (Store × Option ℕ)
looked t bn = some (t, entry_of bn)

from_indirect-Looked :
    (room : ℕ → Bool) (bi ibn : ℕ) (s : Store)
    → ((b : ℕ) → room b ≡ true)
    → ndirect ≤ bi
    → bi < maxsize / blocksize
    → Looked (from_indirect room bi ibn s) s (through s.words ibn ((bi - ndirect) % nindirect))
unfolding from_indirect through looked
from_indirect-Looked room bi ibn s all lower upper =
    let (got, f) = get_if-Found room ibn s all in
    let s' = (get_if room ibn s).0 in
    elim (Bool-cases (ibn == 0)) [
      | inl null ↦ (
        s',
        rw (from_indirect, got, null) refl,
        rw (null) (record { words = f.words; refs = λ b. ground (arith, f.refs b, null) }),
      )
      | inr real ↦
          let entry : (get_if room ibn s).1 ≡ some ibn = got ∙ (rw (real) refl) in
          let k = (bi - ndirect) % nindirect in
          let index : bi_direct_index bi ≡ some k =
            direct_index bi upper ∙ ap some (ground (arith, lower)) in
          let (got2, g) = get_if-Found room (s'.words ibn k) s' all in
          let u = (get_if room (s'.words ibn k) s').0 in
          (
            put ibn u,
            rw (from_indirect, entry, index, got2, real)
                (ap (λ w. looked (put ibn u) (w ibn k)) f.words),
            rw (real) (
                subst (λ w. Found s (put ibn u) (w ibn k)) f.words
                  (put-Found s s' u ibn (s'.words ibn k) (λ h. ground (arith, h, real)) f g)),
          )
    ]

indirect_index :
    (bi : ℕ)
    → ndirect + nindirect ≤ bi
    → bi < maxsize / blocksize
    → bi_indirect_index bi ≡ some ((bi - ndirect - nindirect) / nindirect)
unfolding bi_indirect_index
indirect_index bi l h =
    let e : (leb (ndirect + nindirect) bi && ltb bi (maxsize / blocksize)) ≡ true =
      ground (arith, h, l) in
    rw (e) refl

-- The same from the doubly indirect block on.
from_indirect2-Looked :
    (room : ℕ → Bool) (bi i2bn : ℕ) (s : Store)
    → ((b : ℕ) → room b ≡ true)
    → ndirect + nindirect ≤ bi
    → bi < maxsize / blocksize
    → Looked (from_indirect2 room bi i2bn s) s (
        through s.words
          (through s.words i2bn ((bi - ndirect - nindirect) / nindirect))
          ((bi - ndirect) % nindirect))
unfolding from_indirect2 through looked
from_indirect2-Looked room bi i2bn s all lower upper =
    let (got, f) = get_if-Found room i2bn s all in
    let s' = (get_if room i2bn s).0 in
    elim (Bool-cases (i2bn == 0)) [
      | inl null ↦ (
        s',
        rw (from_indirect2, got, null) refl,
        rw (null) (record { words = f.words; refs = λ b. ground (arith, f.refs b, null) }),
      )
      | inr real ↦
          let entry : (get_if room i2bn s).1 ≡ some i2bn = got ∙ (rw (real) refl) in
          let k = (bi - ndirect - nindirect) / nindirect in
          let m = (bi - ndirect) % nindirect in
          let (u, run, g) =
            from_indirect-Looked room bi (s'.words i2bn k) s' all (omega (arith, lower)) upper in
          (
            put i2bn u,
            rw (from_indirect2, entry, indirect_index bi lower upper, run, real)
                (ap (λ w. looked (put i2bn u) (through w (w i2bn k) m)) f.words),
            rw (real) (
                subst (λ w. Found s (put i2bn u) (through w (w i2bn k) m)) f.words
                  (put-Found s s' u i2bn (through s'.words (s'.words i2bn k) m)
                    (λ h. ground (arith, h, real)) f g)),
          )
    ]

-- For an offset of a block of a file, and with room in the cache, `get_data_block` returns the block that the
-- pointers of the inode lead to, through the indirect and the doubly indirect block where the index needs
-- them, or none where a pointer is missing. It changes no block, and of all the references that it
-- takes it only keeps the one to the block that it returns.
pub get_data_block-Looked :
    (room : ℕ → Bool) (ino : Inode) (off : ℕ) (s : Store)
    → ((b : ℕ) → room b ≡ true)
    → off % blocksize ≡ 0
    → off < maxsize
    → Looked (get_data_block room ino off s) s (block_at ino s.words (off / blocksize))
unfolding get_data_block block_at
get_data_block-Looked room ino off s all aligned small =
    let bi = off / blocksize in
    let upper : bi < maxsize / blocksize = omega (arith, small) in
    let whole : bi % 2 ^ 32 ≡ bi = omega (arith, small) in
    let start : (off % blocksize == 0) ≡ true = ground (arith, aligned) in
    elim (lt_cases bi ndirect) [
      | inl direct ↦
          let c1 : leb (ndirect + nindirect) bi ≡ false = ground (arith, direct) in
          let c2 : leb ndirect bi ≡ false = ground (arith, direct) in
          let c3 : ltb bi ndirect ≡ true = ground (arith, direct) in
          let index : bi_direct_index bi ≡ some bi = direct_index bi upper ∙ (rw (c3) refl) in
          let (got, f) = get_if-Found room (ino.direct bi) s all in
          rw (c3) (
            (get_if room (ino.direct bi) s).0,
            rw (get_data_block, start, whole, c1, c2, index, got) refl,
            f,
          )
      | inr above ↦ elim (lt_cases bi (ndirect + nindirect)) [
        | inl one ↦
            let c1 : leb (ndirect + nindirect) bi ≡ false = ground (arith, one) in
            let c2 : leb ndirect bi ≡ true = ground (arith, above) in
            let c3 : ltb bi ndirect ≡ false = ground (arith, above) in
            let c4 : ltb bi (ndirect + nindirect) ≡ true = ground (arith, one) in
            let (t, run, f) = from_indirect-Looked room bi ino.indirect s all above upper in
            rw (c3, c4) (t, rw (get_data_block, start, whole, c1, c2) run, f)
        | inr two ↦
            let c1 : leb (ndirect + nindirect) bi ≡ true = ground (arith, two) in
            let c3 : ltb bi ndirect ≡ false = ground (arith, above) in
            let c4 : ltb bi (ndirect + nindirect) ≡ false = ground (arith, two) in
            let (t, run, f) = from_indirect2-Looked room bi ino.indirect2 s all two upper in
            rw (c3, c4) (t, rw (get_data_block, start, whole, c1) run, f)
      ]
    ]
