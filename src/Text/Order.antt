-- ===== src/Text/Order.antt =====
-- lib.cc: `strcmp` and `strncmp` as the order of the dictionary.
use pug_os.Prelude.{
  ℕ, zero, suc, ◌+◌, ◌<◌, ◌≡◌, refl, List, [], ◌∷◌, some, arith, ltb, if◌then◌else◌, length, take,
}
use pug_os.Mem.{Memory, Sign, less, same, more}
use pug_os.Text.{strcmp, strncmp}
use pug_os.Text.Held.{Held}

pub dictionary : List ℕ → List ℕ → Sign
dictionary [] [] = same
dictionary [] (y ∷ ys) = less
dictionary (x ∷ xs) [] = more
dictionary (x ∷ xs) (y ∷ ys) = if ltb x y then less else if ltb y x then more else dictionary xs ys

-- `strcmp` on two strings ends, and returns their order in the dictionary, with the bytes as unsigned
-- numbers.
pub strcmp-dictionary :
    (fuel : ℕ) (mem : Memory) (a b : ℕ) (s t : List ℕ)
    → Held mem a s
    → Held mem b t
    → length s < fuel
    → strcmp fuel mem a b ≡ some (dictionary s t)
unfolding strcmp dictionary
strcmp-dictionary zero mem a b s t h k p = absurd (omega (arith, p))
strcmp-dictionary (suc fuel) mem a b [] [] h k p = ground (arith, h, k)
strcmp-dictionary (suc fuel) mem a b [] (y ∷ ys) h (e, d, k) p = ground (arith, h, e, d)
strcmp-dictionary (suc fuel) mem a b (x ∷ xs) [] (e, d, h) k p = ground (arith, e, d, k)
strcmp-dictionary (suc fuel) mem a b (x ∷ xs) (y ∷ ys) (e, d, h) (e', d', k) p =
    ground
      (arith, e, d, e', d', strcmp-dictionary fuel mem (a + 1) (b + 1) xs ys h k (omega (arith, p)))

pub strncmp-dictionary :
    (mem : Memory) (a b n : ℕ) (s t : List ℕ)
    → Held mem a s
    → Held mem b t
    → strncmp mem a b n ≡ dictionary (take n s) (take n t)
unfolding strncmp dictionary
strncmp-dictionary mem a b zero s t h k = refl
strncmp-dictionary mem a b (suc n) [] [] h k = ground (arith, h, k)
strncmp-dictionary mem a b (suc n) [] (y ∷ ys) h (e, d, k) = ground (arith, h, e, d)
strncmp-dictionary mem a b (suc n) (x ∷ xs) [] (e, d, h) k = ground (arith, e, d, k)
strncmp-dictionary mem a b (suc n) (x ∷ xs) (y ∷ ys) (e, d, h) (e', d', k) =
    ground (arith, e, d, e', d', strncmp-dictionary mem (a + 1) (b + 1) n xs ys h k)
