-- ===== src/Number/Tests.antt =====
-- Number.antt on small numbers.
use pug_os.Prelude.{ℕ, ◌≡◌, refl, List, [], some, true, arith}
use pug_os.Number.{fill_numbuf, digit_of, strtoul}
use pug_os.Number.RoundTrip.{strtoul-fill_numbuf}

strtoul-fill_numbuf_example :
    (text : List ℕ) × (fill_numbuf true 16 48879 ≡ some text) × (strtoul text 16 ≡ (48879, []))
strtoul-fill_numbuf_example =
    strtoul-fill_numbuf true 16 48879 (omega arith) (omega arith) (omega arith)

-- In base 16 a colon is read as a digit.
colon : digit_of 16 58 ≡ some 10
unfolding digit_of
colon = refl
