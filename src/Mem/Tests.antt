-- ===== src/Mem/Tests.antt =====
-- Mem.antt on overlapping ranges.
use pug_os.Prelude.{◌≡◌, refl}
use pug_os.Mem.{memmove}
use pug_os.Mem.Move.{moved, memmove-moved}

-- Up by one, onto itself.
memmove-moved_example : memmove (λ a. a) 11 10 5 12 ≡ moved (λ a. a) 11 10 5 12
memmove-moved_example = memmove-moved (λ a. a) 11 10 5 12

eleven : moved (λ a. a) 11 10 5 12 ≡ 11
eleven = refl
