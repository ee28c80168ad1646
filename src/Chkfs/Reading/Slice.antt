-- ===== src/Chkfs/Reading/Slice.antt =====
-- `vnode_inode::read`: what a round copies, as a part of the file.
use pug_os.Prelude.{
  ℕ, zero, suc, ◌+◌, ◌-◌, ◌/◌, ◌%◌, ◌^◌, ◌<◌, ◌≤◌, ◌≡◌, refl, ap, ap₂, ◌∙◌, ◌∷◌, ◌++◌, min, arith,
}
use pug_os.Chkfs.Blocks.{Inode, blocksize}
use pug_os.Chkfs.Blocks.Lookup.{block_at}
use pug_os.Chkfs.Reading.{slice, round_size}

slice_cong :
    (f g : ℕ → ℕ) (a b n : ℕ)
    → ((k : ℕ) → k < n → f (a + k) ≡ g (b + k))
    → slice f a n ≡ slice g b n
unfolding slice
slice_cong f g a b zero h = refl
slice_cong f g a b (suc n) h =
    ap₂ ◌∷◌ (ap f (omega arith) ∙ h 0 (omega arith) ∙ ap g (omega arith)) (
      slice_cong f g (a + 1) (b + 1) n
        (λ k lt. ap f (omega arith) ∙ h (k + 1) (omega (arith, lt)) ∙ ap g (omega arith)))

pub slice-append : (f : ℕ → ℕ) (a n m : ℕ) → slice f a n ++ slice f (a + n) m ≡ slice f a (n + m)
unfolding slice
slice-append f a zero m = ap₂ (slice f) (omega arith) (omega arith)
slice-append f a (suc n) m =
    ap (◌∷◌ (f a))
      (ap (λ x. slice f (a + 1) n ++ slice f x m) (omega arith) ∙ slice-append f (a + 1) n m)
    ∙ cons (n + m)
    ∙ ap (slice f a) size
  where
    cons : (k : ℕ) → f a ∷ slice f (a + 1) k ≡ slice f a (suc k)
    cons k = refl

    size : suc (n + m) ≡ suc n + m
    size = omega arith

-- The byte of a file at a position.
pub file_byte : Inode → (ℕ → ℕ → ℕ) → (ℕ → ℕ → ℕ) → ℕ → ℕ
file_byte ino words content pos = content (block_at ino words (pos / blocksize)) (pos % blocksize)

-- A round that copies: it stays in the block and in the file, and it copies something.
pub round_size_bounds :
    (size off sz : ℕ)
    → off ≤ size
    → size < 2 ^ 32
    → sz < 2 ^ 63
    → (round_size size off sz ≤ min sz (size - off))
      × (off % blocksize + round_size size off sz ≤ blocksize)
      × (0 < sz → off < size → 0 < round_size size off sz)
unfolding round_size
round_size_bounds size off sz h small words = ground arith

-- One round.
pub slice_block :
    (ino : Inode) (words content : ℕ → ℕ → ℕ) (off n : ℕ)
    → off % blocksize + n ≤ blocksize
    → slice (content (block_at ino words (off / blocksize))) (off % blocksize) n
      ≡ slice (file_byte ino words content) off n
unfolding file_byte
slice_block ino words content off n h =
    slice_cong (content (block_at ino words (off / blocksize))) (file_byte ino words content)
      (off % blocksize) off n
      (λ k lt.
        let same : off / blocksize ≡ (off + k) / blocksize = omega (arith, h, lt) in
        let at : off % blocksize + k ≡ (off + k) % blocksize = omega (arith, h, lt) in
        ap₂ (λ x y. content (block_at ino words x) y) same at)
