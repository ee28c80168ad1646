-- ===== src/Keyboard.antt =====
-- k-devices.hh and k-devices.cc: `keyboardstate`; k-vfs.cc: `vnode_kbc::read`. An interrupt, and a
-- `read`, are one step each, under `keyboardstate::lock_`.
pub mod Scancode
pub mod Queue
pub mod Typing
pub mod Taking
pub mod Reading
mod Tests
use pug_os.Prelude.{
  ℕ, zero, suc, ◌+◌, ◌-◌, ◌*◌, ◌/◌, ◌%◌, ◌^◌, Bool, true, false, not, ◌&&◌, ◌||◌, List, [], ◌∷◌,
  ◌++◌, Option, some, none, ltb, ◌==◌, if◌then◌else◌, get_or, set, update, check, ◌>>=◌, ◌>>◌,
  replicate, leb,
}
use pug_os.Keyboard.Scancode.{Keys, keyboard_readc}

-- The anonymous enum of `keyboardstate::state_`.
pub data Mode : Type 0 where
  boot input fail : Mode

abbrev pub is_input : Mode → Bool
is_input input = true
is_input m = false

abbrev pub started : Mode → Mode
started boot = input
started m = m

-- `keyboardstate`. `echoed` are the characters that `maybe_echo` passed to the console.
pub record Keyboard : Type 0 where
  pub buf : List ℕ
  pub pos : ℕ
  pub len : ℕ
  pub eol : ℕ
  pub mode : Mode
  pub echoed : List ℕ

-- The number of elements of `buf_`, and `sizeof(buf_)`, which counts the bytes of these `int`s.
abbrev pub nbuf : ℕ
nbuf = 256

abbrev pub sizeof_buf : ℕ
sizeof_buf = 4 * nbuf

-- `keyboardstate::keyboardstate()`, of a global, which starts out cleared.
abbrev pub new_keyboard : Keyboard
new_keyboard = record {
  buf = replicate nbuf 0;
  pos = 0;
  len = 0;
  eol = 0;
  mode = boot;
  echoed = [];
}

-- The machine goes on, is powered off, or an element outside of `buf_` is written.
pub data Handled : Type 0 where
  handled : Keyboard → Handled
  off overrun : Handled

pub maybe_echo : Keyboard → ℕ → Keyboard
maybe_echo k ch =
    if is_input k.mode && not (ch == 4) then record k { echoed = k.echoed ++ ch ∷ [] } else k

-- `normal_char`; `want_eol` is always true.
pub normal_char : Keyboard → ℕ → Handled
unfolding maybe_echo
normal_char k ch =
    let slot = (k.pos + k.len) % sizeof_buf in
    let stored = record k { buf = set k.buf slot ch; len = k.len + 1; eol = k.len + 1 } in
    if not (ltb k.len sizeof_buf)
    then handled k
    else if ltb slot nbuf
    then handled (maybe_echo stored ch)
    else overrun

pub backspace : Keyboard → Handled
unfolding maybe_echo
backspace k =
    if ltb k.eol k.len then handled (maybe_echo (record k { len = k.len - 1 }) 8) else handled k

-- The switch of `handle_interrupt`.
pub handle_char : Keyboard → ℕ → Handled
handle_char k ch =
    if ch == 0
    then handled k
    else if ch == 8
    then backspace k
    else if ch == 17
    then off
    else if (ch == 3) || (ch == 113)
    then (if is_input k.mode then normal_char k ch else off)
    else if ch == 13
    then normal_char k 10
    else normal_char k ch

-- The loop goes round again, unless the machine is off or broken.
abbrev pub go_on : Keys → (Keyboard → Keys × Handled) → Handled → Keys × Handled
go_on q rest (handled k) = rest k
go_on q rest off = (q, off)
go_on q rest overrun = (q, overrun)

-- `handle_interrupt`, for the bytes that the keyboard has ready.
pub handle_interrupt : Keys → Keyboard → List ℕ → Keys × Handled
handle_interrupt q k [] = (q, handled k)
handle_interrupt q k (byte ∷ bytes) =
    let (q', ch) = keyboard_readc q byte in
    go_on q' (λ k'. handle_interrupt q' k' bytes) (handle_char k ch)

-- `consume`; the counters are `unsigned`.
pub consume : Keyboard → ℕ → Option Keyboard
consume k n = do
  check (leb n k.len)
  some (record k {
    pos = (k.pos + n) % sizeof_buf;
    len = k.len - n;
    eol = (k.eol + 2 ^ 32 - n) % 2 ^ 32;
  })

-- A write of an `int` at the address.
pub write_int : (ℕ → ℕ) → ℕ → ℕ → (ℕ → ℕ)
write_int mem a x =
    update
      (update (update (update mem a (x % 256)) (a + 1) (x / 256 % 256)) (a + 2) (x / 65536 % 256))
      (a + 3) (x / 16777216 % 256)

-- What a `read` leaves: the count, the memory of the process, and the keyboard.
pub record Line : Type 0 where
  pub count : ℕ
  pub memory : ℕ → ℕ
  pub keyboard : Keyboard

-- Ctrl-D is left for the next call, unless it comes first.
pub consume_eof : Keyboard → ℕ → Option Keyboard
unfolding consume
consume_eof k n = if n == 0 then consume k 1 else some k

-- The loop of `read`, with `wanted` for `sz - n`. An element outside of `buf_` is not to be read.
pub read_loop : ℕ → Keyboard → (ℕ → ℕ) → ℕ → ℕ → Option Line
read_loop zero k mem addr n = some (record { count = n; memory = mem; keyboard = k })
read_loop (suc wanted) k mem addr n =
    let ch = get_or k.buf k.pos 0 in
    elim (k.eol == 0) [
      | true ↦ some (record { count = n; memory = mem; keyboard = k })
      | false ↦ elim (ltb k.pos nbuf) [
        | false ↦ none
        | true ↦ elim (ch == 4) [
          | true ↦
              consume_eof k n >>= λ k'. some (record { count = n; memory = mem; keyboard = k' })
          | false ↦
              consume k 1 >>= λ k'. read_loop wanted k' (write_int mem addr ch) (addr + 1) (n + 1)
        ]
      ]
    ]

-- `vnode_kbc::read`
pub read : Keyboard → (ℕ → ℕ) → ℕ → ℕ → Option Line
unfolding read_loop
read k mem addr sz = read_loop sz (record k { mode = started k.mode }) mem addr 0
