-- ===== src/Keyboard/Tests.antt =====
-- Keyboard.antt on a few keys.
use pug_os.Prelude.{◌≡◌, refl, false, [], ◌∷◌, some, arith, set}
use pug_os.Keyboard.{Keyboard, Line, new_keyboard, handle_interrupt, read, input, started}
use pug_os.Keyboard.Scancode.{Keys, keyboard_readc}
use pug_os.Keyboard.Queue.{queued, Typed}
use pug_os.Keyboard.Typing.{Interrupt, keys, handle_interrupt-Interrupt}
use pug_os.Keyboard.Reading.{read-Taken}
use pug_os.Keyboard.Taking.{Taken, until_eof}

abbrev no_keys : Keys
no_keys = record {
  modifiers = record {
    shift = false;
    control = false;
    alt = false;
    capslock = false;
    numlock = false;
    scrolllock = false;
  };
  last_escape = false;
}

-- Shift goes down, `a` does, shift comes up, and `a` is still a capital.
shift_a : (keyboard_readc (keyboard_readc (keyboard_readc no_keys 42).0 170).0 30).1 ≡ 65
unfolding keyboard_readc
shift_a = refl

-- The characters `h`, `i`, and a Ctrl-D.
abbrev hi : Keyboard
hi = record new_keyboard {
  buf = set (set (set new_keyboard.buf 0 104) 1 105) 2 4;
  len = 3;
  eol = 3;
  mode = input;
}

hi-Typed : Typed hi
hi-Typed = record { storage = refl; within = omega arith; at_end = refl }

handle_interrupt-Interrupt_example :
    Interrupt hi (keys no_keys (30 ∷ 158 ∷ [])) (handle_interrupt no_keys hi (30 ∷ 158 ∷ [])).1
handle_interrupt-Interrupt_example = handle_interrupt-Interrupt no_keys hi (30 ∷ 158 ∷ []) hi-Typed

read-Taken_example :
    (l : Line) × (read hi (λ a. 7) 100 5 ≡ some l)
    × Taken (record hi { mode = started hi.mode }) (λ a. 7) 100 0 (until_eof 5 (queued hi)) l
read-Taken_example = read-Taken hi (λ a. 7) 100 5 hi-Typed
