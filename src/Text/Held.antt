-- ===== src/Text/Held.antt =====
-- lib.cc: the string that stands at an address, and `strlen`, `strnlen` and `strchr` of it.
use pug_os.Prelude.{
  ℕ, zero, suc, ◌+◌, ◌%◌, ◌<◌, ◌≡◌, ◌≢◌, List, [], ◌∷◌, Option, some, none, arith, ◌==◌,
  if◌then◌else◌, length, min,
}
use pug_os.Mem.{Memory}
use pug_os.Text.{strlen_from, strlen, strnlen, strchr}

-- The bytes of the string are at the address, and behind them a zero.
abbrev pub Held : Memory → ℕ → List ℕ → Type 0
Held mem s [] = mem s ≡ 0
Held mem s (c ∷ cs) = (mem s ≡ c) × (c ≢ 0) × Held mem (s + 1) cs

strlen_from-length :
    (fuel : ℕ) (mem : Memory) (s n : ℕ) (cs : List ℕ)
    → Held mem s cs
    → length cs < fuel
    → strlen_from fuel mem s n ≡ some (n + length cs)
unfolding strlen_from
strlen_from-length zero mem s n cs h p = absurd (omega (arith, p))
strlen_from-length (suc fuel) mem s n [] h p = ground (arith, h)
strlen_from-length (suc fuel) mem s n (c ∷ cs) (e, d, h) p =
    ground (arith, e, d, strlen_from-length fuel mem (s + 1) (n + 1) cs h (omega (arith, p)))

pub strlen-length :
    (fuel : ℕ) (mem : Memory) (s : ℕ) (cs : List ℕ)
    → Held mem s cs
    → length cs < fuel
    → strlen fuel mem s ≡ some (length cs)
unfolding strlen
strlen-length fuel mem s cs h p = ground (arith, strlen_from-length fuel mem s 0 cs h p)

pub strnlen-min :
    (mem : Memory) (s maxlen : ℕ) (cs : List ℕ)
    → Held mem s cs
    → strnlen mem s maxlen ≡ min maxlen (length cs)
unfolding strnlen
strnlen-min mem s zero cs h = ground arith
strnlen-min mem s (suc n) [] h = ground (arith, h)
strnlen-min mem s (suc n) (c ∷ cs) (e, d, h) = ground (arith, e, d, strnlen-min mem (s + 1) n cs h)

-- Where the byte is first in the string, or at its end for a zero.
abbrev pub position : List ℕ → ℕ → ℕ → Option ℕ
position [] c s = if c == 0 then some s else none
position (x ∷ xs) c s = if x == c then some s else position xs c (s + 1)

pub strchr-position :
    (fuel : ℕ) (mem : Memory) (s c : ℕ) (cs : List ℕ)
    → Held mem s cs
    → length cs < fuel
    → strchr fuel mem s c ≡ some (position cs (c % 256) s)
unfolding strchr
strchr-position zero mem s c cs h p = absurd (omega (arith, p))
strchr-position (suc fuel) mem s c [] h p = ground (arith, h)
strchr-position (suc fuel) mem s c (x ∷ xs) (e, d, h) p =
    ground (arith, e, d, strchr-position fuel mem (s + 1) c xs h (omega (arith, p)))
