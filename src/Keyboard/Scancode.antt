-- ===== src/Keyboard/Scancode.antt =====
-- k-devices.cc: `keyboard_readc`. The data register is an argument, for a keyboard that is ready.
pub mod Keymap
pub mod Laws
use pug_os.Prelude.{
  ℕ, ◌+◌, ◌-◌, ◌*◌, ◌%◌, Bool, true, false, not, ◌&&◌, ◌||◌, List, [], ltb, leb, ◌==◌,
  if◌then◌else◌, get_or,
}
use Keymap.{keymap, complex_keymap, ckey, key_shift, key_capslock}

-- `modifiers`, a flag for each of the bits that the keys from KEY_SHIFT on set or flip.
pub record Modifiers : Type 0 where
  pub shift : Bool
  pub control : Bool
  pub alt : Bool
  pub capslock : Bool
  pub numlock : Bool
  pub scrolllock : Bool

-- The statics of the function. `last_escape` is 0x80 or 0.
pub record Keys : Type 0 where
  pub modifiers : Modifiers
  pub last_escape : Bool

abbrev pub differ : Bool → Bool → Bool
differ true b = not b
differ false b = b

-- `modifiers |= 1 << n`
pub hold : Modifiers → ℕ → Modifiers
hold m n = record {
  shift = m.shift || (n == 0);
  control = m.control || (n == 1);
  alt = m.alt || (n == 2);
  capslock = m.capslock || (n == 3);
  numlock = m.numlock || (n == 4);
  scrolllock = m.scrolllock || (n == 5);
}

-- `modifiers ^= 1 << n`
pub flip : Modifiers → ℕ → Modifiers
flip m n = record {
  shift = differ m.shift (n == 0);
  control = differ m.control (n == 1);
  alt = differ m.alt (n == 2);
  capslock = differ m.capslock (n == 3);
  numlock = differ m.numlock (n == 4);
  scrolllock = differ m.scrolllock (n == 5);
}

-- `modifiers & 3`
abbrev pub column : Modifiers → ℕ
column m = (if m.shift then 1 else 0) + (if m.control then 2 else 0)

pub letter : Modifiers → ℕ → ℕ
letter m ch = if m.control then ch - 96 else if differ m.shift m.capslock then ch - 32 else ch

-- What the entry of the key map means under the modifiers.
pub translate : Modifiers → ℕ → Modifiers × ℕ
unfolding letter hold flip
translate m ch =
    if leb 97 ch && leb ch 122
    then (m, letter m ch)
    else if leb key_capslock ch
    then (flip m (ch - key_shift), 0)
    else if leb key_shift ch
    then (hold m (ch - key_shift), 0)
    else if leb (ckey 0) ch && leb ch (ckey 21)
    then (m, get_or (get_or complex_keymap (ch - ckey 0) []) (column m) 0)
    else if ltb ch 128 && m.control
    then (m, 0)
    else (m, ch)

abbrev pub key_of : Keys → ℕ → ℕ
key_of k byte = get_or keymap (byte % 128 + (if k.last_escape then 128 else 0)) 0

unfoldable pub keyboard_readc : Keys → ℕ → Keys × ℕ
unfolding translate
keyboard_readc k byte =
    let (m, ch) = translate k.modifiers (key_of k byte) in
    if byte == 224
    then (record k { last_escape = true }, 0)
    else (record { modifiers = m; last_escape = false }, if leb 128 byte then ch + 256 else ch)
