-- ===== src/Keyboard/Queue.antt =====
-- k-devices.hh: `keyboardstate` as a queue of characters, while `pos_ + len_` is within `buf_`.
use pug_os.Prelude.{
  ℕ, zero, suc, ◌+◌, ◌-◌, ◌≤◌, ◌<◌, ◌≡◌, refl, ap, List, [], ◌∷◌, ◌++◌, arith, length, get_or, set,
  get_or-set_self, get_or-set_ne,
}
use pug_os.Keyboard.{Keyboard, nbuf}

-- The `n` elements from `pos` on.
unfoldable pub window : List ℕ → ℕ → ℕ → List ℕ
window buf pos zero = []
window buf pos (suc n) = get_or buf pos 0 ∷ window buf (pos + 1) n

-- The characters that are typed and not read, oldest first.
abbrev pub queued : Keyboard → List ℕ
queued k = window k.buf k.pos k.len

-- The counters are within `buf_`, and every character counts as the end of a line.
pub record Typed (k : Keyboard) : Type 0 where
  pub storage : length k.buf ≡ nbuf
  pub within : k.pos + k.len ≤ nbuf
  pub at_end : k.eol ≡ k.len

pub length-window : (buf : List ℕ) (pos n : ℕ) → length (window buf pos n) ≡ n
unfolding window
length-window buf pos zero = refl
length-window buf pos (suc n) = ap suc (length-window buf (pos + 1) n)

pub window-cons :
    (buf : List ℕ) (pos n : ℕ)
    → 0 < n
    → window buf pos n ≡ get_or buf pos 0 ∷ window buf (pos + 1) (n - 1)
unfolding window
window-cons buf pos zero h = elim h [ ]
window-cons buf pos (suc n) h = let e : suc n - 1 ≡ n = omega arith in rw e refl

window-set :
    (buf : List ℕ) (pos n i v : ℕ) → pos + n ≤ i → window (set buf i v) pos n ≡ window buf pos n
unfolding window
window-set buf pos zero i v h = refl
window-set buf pos (suc n) i v h =
    rw
      (
        get_or-set_ne buf {i = i} {j = pos} v 0 (omega arith),
        window-set buf (pos + 1) n i v (omega arith),
      )
      refl

window-snoc :
    (buf : List ℕ) (pos n : ℕ)
    → window buf pos (n + 1) ≡ window buf pos n ++ get_or buf (pos + n) 0 ∷ []
unfolding window
window-snoc buf pos zero = let e : pos + 0 ≡ pos = omega arith in rw e refl
window-snoc buf pos (suc n) =
    let e : pos + suc n ≡ pos + 1 + n = omega arith in
    let f : suc n + 1 ≡ suc (n + 1) = omega arith in
    rw (f, e) (ap (◌∷◌ (get_or buf pos 0)) (window-snoc buf (pos + 1) n))

pub window_put :
    (buf : List ℕ) (pos n ch : ℕ)
    → pos + n < length buf
    → window (set buf (pos + n) ch) pos (n + 1) ≡ window buf pos n ++ ch ∷ []
window_put buf pos n ch h =
    rw
      (
        window-snoc (set buf (pos + n) ch) pos n,
        window-set buf pos n (pos + n) ch (omega arith),
        get_or-set_self buf (pos + n) ch 0 h,
      )
      refl
