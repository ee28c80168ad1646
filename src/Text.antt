-- ===== src/Text.antt =====
-- lib.cc: the functions on strings that end with a zero byte. A loop that such a byte ends is on fuel:
-- `none` is a call that reads on for longer.
pub mod Held
pub mod Copy
pub mod Order
mod Tests
use pug_os.Prelude.{
  ℕ, zero, suc, ◌+◌, ◌%◌, Bool, true, false, not, ◌&&◌, Option, some, none, ltb, ◌==◌,
  if◌then◌else◌, update,
}
use pug_os.Mem.{Memory, Sign, same, byte_sign}

-- The loop of `strlen`, with the count so far.
pub strlen_from : ℕ → Memory → ℕ → ℕ → Option ℕ
strlen_from zero mem s n = none
strlen_from (suc fuel) mem s n =
    let rest = strlen_from fuel mem (s + 1) (n + 1) in if mem s == 0 then some n else rest

pub strlen : ℕ → Memory → ℕ → Option ℕ
unfolding strlen_from
strlen fuel mem s = strlen_from fuel mem s 0

pub strnlen : Memory → ℕ → ℕ → ℕ
strnlen mem s zero = 0
strnlen mem s (suc maxlen) =
    let rest = strnlen mem (s + 1) maxlen in if mem s == 0 then 0 else rest + 1

pub strcpy : ℕ → Memory → ℕ → ℕ → Option Memory
strcpy zero mem dst src = none
strcpy (suc fuel) mem dst src =
    let mem' = update mem dst (mem src) in
    let rest = strcpy fuel mem' (dst + 1) (src + 1) in if mem src == 0 then some mem' else rest

-- The test of the loops of `strcmp` and `strncmp`.
abbrev pub goes_on : ℕ → ℕ → Bool
goes_on x y = not (x == 0) && not (y == 0) && (x == y)

pub strcmp : ℕ → Memory → ℕ → ℕ → Option Sign
strcmp zero mem a b = none
strcmp (suc fuel) mem a b =
    let rest = strcmp fuel mem (a + 1) (b + 1) in
    if goes_on (mem a) (mem b) then rest else some (byte_sign (mem a) (mem b))

pub strncmp : Memory → ℕ → ℕ → ℕ → Sign
strncmp mem a b zero = same
strncmp mem a b (suc n) =
    let rest = strncmp mem (a + 1) (b + 1) n in
    if goes_on (mem a) (mem b) then rest else byte_sign (mem a) (mem b)

-- `strchr`; the result is the pointer, if it is not null. `(char) c` is `c % 256`.
pub strchr : ℕ → Memory → ℕ → ℕ → Option (Option ℕ)
strchr zero mem s c = none
strchr (suc fuel) mem s c =
    let rest = strchr fuel mem (s + 1) c in
    if not (mem s == 0) && not (mem s == c % 256)
    then rest
    else if mem s == c % 256
    then some (some s)
    else some none
