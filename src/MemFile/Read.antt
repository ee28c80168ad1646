-- ===== src/MemFile/Read.antt =====
-- k-vfs.cc: `vnode_memfile::read` against the slice of the file.
use pug_os.Prelude.{
  ℕ, zero, suc, ◌+◌, ◌≤◌, ◌<◌, ◌≡◌, refl, ap, List, [], ◌∷◌, arith, ltb, length, take, drop, get_or,
  inl, inr, drop-nil, Bool-cases,
}
use pug_os.MemFile.{MemFile, read, read_loop}

drop-get_or : (xs : List ℕ) (i : ℕ) → i < length xs → drop i xs ≡ get_or xs i 0 ∷ drop (i + 1) xs
drop-get_or [] i h = elim h [ ]
drop-get_or (x ∷ xs) zero h = refl
drop-get_or (x ∷ xs) (suc i) h =
    let e : suc i + 1 ≡ suc (i + 1) = omega arith in rw e (drop-get_or xs i (omega arith))

drop_all : (xs : List ℕ) (i : ℕ) → length xs ≤ i → drop i xs ≡ []
drop_all [] i h = drop-nil i
drop_all (x ∷ xs) zero h = elim h [ ]
drop_all (x ∷ xs) (suc i) h = drop_all xs i (omega arith)

read_loop-slice :
    (rounds : ℕ) (xs : List ℕ) (at : ℕ) → read_loop rounds xs at ≡ take rounds (drop at xs)
unfolding read_loop
read_loop-slice zero xs at = refl
read_loop-slice (suc rounds) xs at = elim (Bool-cases (ltb at (length xs))) [
  | inl e ↦
      rw (e, drop-get_or xs at (ground arith))
        (ap (◌∷◌ (get_or xs at 0)) (read_loop-slice rounds xs (at + 1)))
  | inr e ↦ rw (e, drop_all xs at (ground arith)) refl
]

-- `read` returns the bytes from the offset on, as many as are asked for and there, and moves the
-- offset behind them.
pub read-slice :
    (m : MemFile) (sz off : ℕ)
    → read m sz off ≡ (take sz (drop off m.contents), off + length (take sz (drop off m.contents)))
unfolding read
read-slice m sz off = rw (read_loop-slice sz m.contents off) refl
