-- ===== src/Pipe/Ring.antt =====
-- k-vfs.hh: `bbuffer`, read as the queue of the bytes that it holds.
use pug_os.Prelude.{
  ℕ, zero, suc, ◌+◌, ◌%◌, ◌≤◌, ◌<◌, ◌≡◌, ◌≢◌, refl, ap, ap₂, ◌∙◌, List, [], ◌∷◌, ◌++◌, arith,
  length, take, drop, set, get_or, length-set, get_or-set_self, get_or-set_ne, append-nil,
  append_assoc,
}
use pug_os.Pipe.{Buffer, capacity, blit}

-- The `n` bytes from index `h` on, round the end of the array.
abbrev pub circle : List ℕ → ℕ → ℕ → List ℕ
circle buf h zero = []
circle buf h (suc n) = get_or buf h 0 ∷ circle buf ((h + 1) % capacity) n

-- The bytes that the pipe holds, oldest first.
abbrev pub contents : Buffer → List ℕ
contents b = circle b.buf b.pos b.len

pub length-circle : (buf : List ℕ) (h n : ℕ) → length (circle buf h n) ≡ n
length-circle buf h zero = refl
length-circle buf h (suc n) = ap suc (length-circle buf ((h + 1) % capacity) n)

pub record IsValid (b : Buffer) : Type 0 where
  pub storage : length b.buf ≡ capacity
  pub pos_in : b.pos < capacity
  pub len_in : b.len ≤ capacity

-- A step on the circle does not come back before it is round.
circle_apart : (h k : ℕ) → h < capacity → suc k < capacity → (h + suc k) % capacity ≢ h
circle_apart h k p q = omega arith

circle-set :
    (buf : List ℕ) (x n h i : ℕ)
    → length buf ≡ capacity
    → h < capacity
    → n < capacity
    → i ≡ (h + n) % capacity
    → circle (set buf i x) h (suc n) ≡ circle buf h n ++ x ∷ []
circle-set buf x zero h i l p q e =
    let same : i ≡ h = omega arith in rw (same, get_or-set_self buf h x 0 (omega arith)) refl
circle-set buf x (suc n) h i l p q e =
    ap₂ ◌∷◌ (get_or-set_ne buf x 0 (omega arith))
      (circle-set buf x n ((h + 1) % capacity) i l (omega arith) (omega arith) (omega arith))

-- Bytes put behind the last one, without passing the end of the array.
pub circle-blit :
    (xs buf : List ℕ) (h n i : ℕ)
    → length buf ≡ capacity
    → h < capacity
    → n + length xs ≤ capacity
    → i ≡ (h + n) % capacity
    → i + length xs ≤ capacity
    → circle (blit buf i xs) h (n + length xs) ≡ circle buf h n ++ xs
unfolding blit
circle-blit [] buf h n i l p q e r = let z : n + 0 ≡ n = omega arith in rw (z, append-nil) refl
circle-blit (x ∷ []) buf h n i l p q e r =
    let z : n + suc 0 ≡ suc n = omega arith in rw z (circle-set buf x n h i l p (omega arith) e)
circle-blit (x ∷ y ∷ xs) buf h n i l p q e r =
    let z : n + suc (length (y ∷ xs)) ≡ suc n + length (y ∷ xs) = omega arith in
    rw z (
      circle-blit (y ∷ xs) (set buf i x) h (suc n) (suc i) (length-set buf i x ∙ l) p (omega arith)
        (omega arith) (omega arith)
      ∙ ap (λ c. c ++ y ∷ xs) (circle-set buf x n h i l p (omega arith) e)
      ∙ append_assoc (circle buf h n) (x ∷ []) (y ∷ xs))

pub length-blit : (xs buf : List ℕ) (i : ℕ) → length (blit buf i xs) ≡ length buf
unfolding blit
length-blit [] buf i = refl
length-blit (x ∷ xs) buf i = length-blit xs (set buf i x) (suc i) ∙ length-set buf i x

take-drop-get_or :
    (buf : List ℕ) (h n : ℕ)
    → h < length buf
    → take (suc n) (drop h buf) ≡ get_or buf h 0 ∷ take n (drop (suc h) buf)
take-drop-get_or [] h n p = elim p [ ]
take-drop-get_or (x ∷ buf) zero n p = refl
take-drop-get_or (x ∷ buf) (suc h) n p = take-drop-get_or buf h n (omega arith)

-- The first bytes, up to the end of the array, lie one after the other.
pub circle_split :
    (buf : List ℕ) (n m h : ℕ)
    → length buf ≡ capacity
    → h < capacity
    → h + n ≤ capacity
    → circle buf h (n + m) ≡ take n (drop h buf) ++ circle buf ((h + n) % capacity) m
circle_split buf zero m h l q p =
    let z : zero + m ≡ m = omega arith in
    let same : (h + 0) % capacity ≡ h = omega arith in rw (z, same) refl
circle_split buf (suc zero) m h l q p =
    let z : suc zero + m ≡ suc m = omega arith in
    rw (z, take-drop-get_or buf h 0 (omega arith)) refl
circle_split buf (suc (suc n)) m h l q p =
    let z : suc (suc n) + m ≡ suc (suc n + m) = omega arith in
    let next : (h + 1) % capacity ≡ suc h = omega arith in
    let last : (suc h + suc n) % capacity ≡ (h + suc (suc n)) % capacity = omega arith in
    rw (z, take-drop-get_or buf h (suc n) (omega arith), next, ← last)
      (ap (◌∷◌ (get_or buf h 0)) (circle_split buf (suc n) m (suc h) l (omega arith) (omega arith)))
