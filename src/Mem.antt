-- ===== src/Mem.antt =====
-- lib.cc: the functions on memory. Memory maps an address to its byte, and the ranges that a call works
-- on do not wrap around.
pub mod Move
pub mod Compare
mod Tests
use pug_os.Prelude.{ℕ, zero, suc, ◌+◌, ◌%◌, ◌&&◌, ltb, ◌==◌, if◌then◌else◌, update}

abbrev pub Memory : Type 0
Memory = ℕ → ℕ

-- `memcpy`, and the loop of `memmove` that goes up.
pub memcpy : Memory → ℕ → ℕ → ℕ → Memory
memcpy mem dst src zero = mem
memcpy mem dst src (suc n) = memcpy (update mem dst (mem src)) (dst + 1) (src + 1) n

-- The loop of `memmove` that goes down.
pub copy_down : Memory → ℕ → ℕ → ℕ → Memory
copy_down mem dst src zero = mem
copy_down mem dst src (suc n) = copy_down (update mem (dst + n) (mem (src + n))) dst src n

pub memmove : Memory → ℕ → ℕ → ℕ → Memory
memmove mem dst src n =
    if ltb src dst && ltb dst (src + n) then copy_down mem dst src n else memcpy mem dst src n

pub memset : Memory → ℕ → ℕ → ℕ → Memory
memset mem v c zero = mem
memset mem v c (suc n) = memset (update mem v (c % 256)) (v + 1) c n

-- The `int` that a comparison returns: -1, 0 or 1.
pub data Sign : Type 0 where
  less same more : Sign

-- `(x > y) - (x < y)`
abbrev pub byte_sign : ℕ → ℕ → Sign
byte_sign x y = if ltb y x then more else if ltb x y then less else same

pub memcmp : Memory → ℕ → ℕ → ℕ → Sign
memcmp mem a b zero = same
memcmp mem a b (suc n) =
    let rest = memcmp mem (a + 1) (b + 1) n in
    if mem a == mem b then rest else byte_sign (mem a) (mem b)
