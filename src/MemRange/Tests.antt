-- ===== src/MemRange/Tests.antt =====
-- MemRange.antt on a small set.
use pug_os.Prelude.{refl, arith}
use pug_os.MemRange.{one_range, set}
use pug_os.MemRange.Order.{Valid, At}
use pug_os.MemRange.Place.{Result}
use pug_os.MemRange.SetRange.{set-Result}

one_range-Valid : Valid 16 (one_range 100)
one_range-Valid = record {
  positive = omega arith;
  fits = omega arith;
  start = refl;
  sorted = λ k h. ground (arith, h);
  distinct = λ k h. absurd (omega (arith, h));
}

set-Result_example : Result 16 (one_range 100) 30 50 2 (set 16 (one_range 100) 30 50 2)
set-Result_example =
    set-Result 16 (one_range 100) 30 50 2 one_range-Valid (omega arith) (omega arith)

in_one_range : At (one_range 100) 30 0
in_one_range = record {
  index = 0;
  within = omega arith;
  above = omega arith;
  below = omega arith;
  typed = refl;
}
