-- ===== src/Text/Tests.antt =====
-- Text.antt on two short strings.
use pug_os.Prelude.{refl, [], ◌∷◌, update}
use pug_os.Mem.{Memory}
use pug_os.Text.Held.{Held}

-- `sh` at 100 and `cat` at 200.
abbrev names : Memory
names = update (update (update (update (update (λ a. 0) 100 115) 101 104) 200 99) 201 97) 202 116

sh-Held : Held names 100 (115 ∷ 104 ∷ [])
sh-Held = (refl, λ e. cc, (refl, λ e. cc, refl))

cat-Held : Held names 200 (99 ∷ 97 ∷ 116 ∷ [])
cat-Held = (refl, λ e. cc, (refl, λ e. cc, (refl, λ e. cc, refl)))
