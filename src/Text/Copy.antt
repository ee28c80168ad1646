-- ===== src/Text/Copy.antt =====
-- lib.cc: `strcpy`.
use pug_os.Prelude.{
  ℕ, zero, suc, ◌+◌, ◌<◌, ◌≡◌, ◌∙◌, ◌⊎◌, false, List, [], ◌∷◌, Option, some, arith, ◌==◌, update,
  length,
}
use pug_os.Mem.{Memory}
use pug_os.Text.{strcpy}
use pug_os.Text.Held.{Held}

-- The string is at `dst`, and the other bytes are as they were.
pub record Copied (mem : Memory) (dst : ℕ) (s : List ℕ) (r : Option Memory) : Type 0 where
  pub after : Memory
  pub run : r ≡ some after
  pub held : Held after dst s
  pub below : (x : ℕ) → x < dst → after x ≡ mem x
  pub above : (x : ℕ) → dst + length s < x → after x ≡ mem x

-- A write outside of the string does not matter to it.
Held-update :
    (mem : Memory) (a s v : ℕ) (cs : List ℕ)
    → (a < s) ⊎ (s + length cs < a)
    → Held mem s cs
    → Held (update mem a v) s cs
Held-update mem a s v [] o h = ground (arith, o, h)
Held-update mem a s v (c ∷ cs) o (e, d, h) =
    (ground (arith, o, e), d, Held-update mem a (s + 1) v cs (ground (arith, o)) h)

-- `strcpy` of a string to a place that it does not overlap ends, puts it there with the zero at its end,
-- and writes no other byte.
pub strcpy-Copied :
    (fuel : ℕ) (mem : Memory) (dst src : ℕ) (s : List ℕ)
    → Held mem src s
    → length s < fuel
    → (dst < src) ⊎ (src + length s < dst)
    → Copied mem dst s (strcpy fuel mem dst src)
unfolding strcpy
strcpy-Copied zero mem dst src s h p o = absurd (omega (arith, p))
strcpy-Copied (suc fuel) mem dst src [] h p o = record {
  after = update mem dst (mem src);
  run = ground (arith, h);
  held = ground (arith, h);
  below = λ x q. ground (arith, q);
  above = λ x q. ground (arith, q);
}
strcpy-Copied (suc fuel) mem dst src (c ∷ s) (e, d, h) p o =
    let r =
      strcpy-Copied fuel (update mem dst (mem src)) (dst + 1) (src + 1) s
        (Held-update mem dst (src + 1) (mem src) s (ground (arith, o)) h) (omega (arith, p))
        (ground (arith, o)) in
    let go : (mem src == 0) ≡ false = ground (arith, e, d) in
    record {
      after = r.after;
      run = rw go r.run;
      held = (r.below dst (omega arith) ∙ ground (arith, e), d, r.held);
      below = λ x q. r.below x (omega (arith, q)) ∙ ground (arith, q);
      above = λ x q. r.above x (omega (arith, q)) ∙ ground (arith, q);
    }
