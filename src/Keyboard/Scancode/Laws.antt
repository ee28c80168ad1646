-- ===== src/Keyboard/Scancode/Laws.antt =====
-- k-devices.cc: what `keyboard_readc` returns, and what becomes of the modifiers.
use pug_os.Prelude.{
  ℕ, ◌+◌, ◌-◌, ◌%◌, ◌<◌, ◌≤◌, ◌≡◌, ◌≢◌, refl, sym, ◌∙◌, Bool, true, false, ◌&&◌, List, [], ◌∷◌,
  arith, ltb, if◌then◌else◌, get_or, zero, suc,
}
use pug_os.Keyboard.Scancode.{
  Modifiers, Keys, hold, flip, letter, translate, key_of, keyboard_readc, column,
}
use pug_os.Keyboard.Scancode.Keymap.{keymap, complex_keymap, ckey, key_shift, key_capslock}

-- The flag is set after the byte if it was set before.
pub record Sticks (m m' : Modifiers) : Type 0 where
  pub shift : m.shift ≡ true → m'.shift ≡ true
  pub control : m.control ≡ true → m'.control ≡ true
  pub alt : m.alt ≡ true → m'.alt ≡ true

abbrev all_below : ℕ → List ℕ → Bool
all_below b [] = true
all_below b (x ∷ xs) = ltb x b && all_below b xs

get_or-below : (b : ℕ) (xs : List ℕ) (i : ℕ) → 0 < b → all_below b xs ≡ true → get_or xs i 0 < b
get_or-below b [] i p h = p
get_or-below b (x ∷ xs) zero p h = ground arith
get_or-below b (x ∷ xs) (suc i) p h = get_or-below b xs i p (ground arith)

abbrev all_rows_below : ℕ → List (List ℕ) → Bool
all_rows_below b [] = true
all_rows_below b (x ∷ xs) = all_below b x && all_rows_below b xs

get_row-below :
    (b : ℕ) (xs : List (List ℕ)) (i : ℕ)
    → all_rows_below b xs ≡ true
    → all_below b (get_or xs i []) ≡ true
get_row-below b [] i h = refl
get_row-below b (x ∷ xs) zero h = ground arith
get_row-below b (x ∷ xs) (suc i) h = get_row-below b xs i (ground arith)

pub key_of-bound : (k : Keys) (byte : ℕ) → key_of k byte < 256
key_of-bound k byte =
    get_or-below 256 keymap (byte % 128 + (if k.last_escape then 128 else 0)) (omega arith) refl

complex-bound : (i j : ℕ) → get_or (get_or complex_keymap i []) j 0 < 256
complex-bound i j =
    get_or-below 256 (get_or complex_keymap i []) j (omega arith)
      (get_row-below 256 complex_keymap i refl)

translate-bound : (m : Modifiers) (ch : ℕ) → ch < 256 → (translate m ch).1 < 256
unfolding translate letter
translate-bound m ch p = ground (arith, complex-bound (ch - ckey 0) (column m))

translate-Sticks : (m : Modifiers) (ch : ℕ) → Sticks m (translate m ch).0
unfolding translate hold flip
translate-Sticks m ch = record {
  shift = λ h. ground (arith, h);
  control = λ h. ground (arith, h);
  alt = λ h. ground (arith, h);
}

pub record ReadKey (k : Keys) (byte : ℕ) (m' : Keys) (code : ℕ) : Type 0 where
  pub pressed : byte < 128 → code < 256
  pub released : 128 ≤ byte → byte ≢ 224 → 256 ≤ code × code < 512
  pub escape : byte ≡ 224 → (code ≡ 0) × (m'.last_escape ≡ true) × (m'.modifiers ≡ k.modifiers)
  pub sticks : Sticks k.modifiers m'.modifiers

-- For a byte from the keyboard, `keyboard_readc` returns a code below 256 for a key that is pressed, and
-- one from 256 to 511 for a key that is released; the escape byte only sets the escape. Whatever the
-- byte, shift, control and alt are never taken back once they are set.
pub keyboard_readc-ReadKey :
    (k : Keys) (byte : ℕ)
    → byte < 256
    → ReadKey k byte (keyboard_readc k byte).0 (keyboard_readc k byte).1
unfolding keyboard_readc
keyboard_readc-ReadKey k byte b =
    let bound = translate-bound k.modifiers (key_of k byte) (key_of-bound k byte) in
    let sticks = translate-Sticks k.modifiers (key_of k byte) in
    record {
      pressed = λ p. ground (arith, bound);
      released = λ p n. (ground (arith, n), ground (arith, n, bound));
      escape = λ e. ground (arith, e);
      sticks = record {
        shift = λ h. ground (arith, h, sticks.shift);
        control = λ h. ground (arith, h, sticks.control);
        alt = λ h. ground (arith, h, sticks.alt);
      };
    }

flip_twice : (m : Modifiers) (n : ℕ) → flip (flip m n) n ≡ m
unfolding flip
flip_twice m n = ground arith

translate_flips :
    (m : Modifiers) (ch : ℕ) → key_capslock ≤ ch → (translate m ch).0 ≡ flip m (ch - key_shift)
unfolding translate
translate_flips m ch p = ground arith

key_step :
    (k : Keys) (byte : ℕ)
    → byte ≢ 224
    → key_capslock ≤ key_of k byte
    → (keyboard_readc k byte).0
      ≡ record { modifiers = flip k.modifiers (key_of k byte - key_shift); last_escape = false }
unfolding keyboard_readc
key_step k byte n p = rw (sym (translate_flips k.modifiers (key_of k byte) p)) (ground (arith, n))

key_of_released :
    (k : Keys) (m : Modifiers) (byte : ℕ)
    → byte < 128
    → k.last_escape ≡ false
    → key_of (record { modifiers = m; last_escape = false }) (byte + 128) ≡ key_of k byte
key_of_released k m byte b e =
    let same : (byte + 128) % 128 ≡ byte % 128 = omega arith in rw (e, same) refl

not_escape :
    (k : Keys) (byte : ℕ)
    → byte < 128
    → k.last_escape ≡ false
    → key_capslock ≤ key_of k byte
    → byte ≢ 96
not_escape k byte b e p h =
    let zero_there : key_of k byte ≡ 0 = rw (e, h) refl in omega (arith, p, zero_there)

-- Caps lock, num lock and scroll lock are flipped when their key is pressed and flipped back when it is
-- released.
pub keyboard_readc_flips_back :
    (k : Keys) (byte : ℕ)
    → byte < 128
    → k.last_escape ≡ false
    → key_capslock ≤ key_of k byte
    → (keyboard_readc (keyboard_readc k byte).0 (byte + 128)).0 ≡ k
keyboard_readc_flips_back k byte b e p =
    let n = not_escape k byte b e p in
    let i = key_of k byte - key_shift in
    let again = key_of_released k (flip k.modifiers i) byte b e in
    let pressed : Keys = record { modifiers = flip k.modifiers i; last_escape = false } in
    let step : (keyboard_readc pressed (byte + 128)).0 ≡ record {
      modifiers = flip (flip k.modifiers i) (key_of pressed (byte + 128) - key_shift);
      last_escape = false;
    } =
      key_step pressed (byte + 128) (λ h. n (omega (arith, h))) (rw again p) in
    let back : (keyboard_readc pressed (byte + 128)).0 ≡ k =
      step ∙ rw (again, flip_twice k.modifiers i, sym e) refl in
    rw (key_step k byte (λ h. omega (arith, b, h)) p) back
