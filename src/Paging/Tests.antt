-- ===== src/Paging/Tests.antt =====
-- Paging.antt on tables whose entries all lead on, with a page that the user cannot reach.
use pug_os.Prelude.{◌+◌, ◌≡◌, Bool, true, false, not, some, arith, ◌==◌}
use pug_os.Paging.{Perm, Tables, from_top, real_find, validate_memory}
use pug_os.Paging.Walk.{real_find-from_top}
use pug_os.Paging.Range.{Validated, validate_memory-Validated}

abbrev present_user : Perm
present_user = record { present = true; writable = false; user = true }

abbrev some_tables : Tables
some_tables t i = record {
  perm = record { present = true; writable = true; user = not (i == 258) };
  huge = false;
  pa = t + 1;
}

real_find-from_top_example :
    real_find some_tables 0 (from_top some_tables 0 1048576) 1056768
    ≡ from_top some_tables 0 1056768
real_find-from_top_example = real_find-from_top some_tables 0 1048576 1056768

-- Two pages of which the second is allowed, and the third is not.
validate_memory-Validated_example :
    (b : Bool) × (validate_memory 8193 some_tables 0 1048576 8192 present_user ≡ some b)
    × Validated some_tables 0 present_user 1048576 8192 b
validate_memory-Validated_example =
    validate_memory-Validated some_tables 0 present_user 8192 1048576 8192 (omega arith)
      (omega arith) (omega arith)
