-- ===== src/Pipe.antt =====
-- k-vfs.hh: `bbuffer`; k-vfs.cc: `vnode_pipe::read` and `vnode_pipe::write`. The buffer's lock is held
-- but while a call sleeps in `block_until`, so what a call does once it may go on is one step from
-- the state at that time; `read_ready` and `write_ready` say when it may. Its assertion is about the
-- state at the time of the call.
pub mod Ring
pub mod Transfer
pub mod Stream
mod Tests
use pug_os.Prelude.{
  ℕ, zero, suc, ◌+◌, ◌-◌, ◌%◌, ◌^◌, min, Bool, true, false, not, ◌&&◌, ◌||◌, List, [], ◌∷◌, ◌++◌,
  Option, some, check, ◌>>◌, ltb, ◌==◌, if◌then◌else◌, length, take, drop, set,
}

-- BBUFFER_SIZE
abbrev pub capacity : ℕ
capacity = 128

-- `bbuffer`
pub record Buffer : Type 0 where
  pub buf : List ℕ
  pub pos : ℕ
  pub len : ℕ
  pub read_closed : Bool
  pub write_closed : Bool

-- A negative number as a `size_t`.
abbrev pub minus : ℕ → ℕ
minus n = 2 ^ 64 - n

-- E_PIPE is -32.
abbrev pub broken_pipe : ℕ
broken_pipe = minus 32

-- What a call returns, the bytes that it puts into the caller's memory, whether it wakes the other
-- side's wait queue, and the buffer that it leaves.
pub record Outcome : Type 0 where
  pub returned : ℕ
  pub bytes : List ℕ
  pub wakes : Bool
  pub after : Buffer

-- `memcpy(&buf[i], xs, n)` for the `n` bytes `xs`.
pub blit : List ℕ → ℕ → List ℕ → List ℕ
blit buf i [] = buf
blit buf i (x ∷ xs) = blit (set buf i x) (suc i) xs

-- The call goes on without sleeping, or after it.
abbrev pub read_ready : Buffer → ℕ → Bool
read_ready b sz = not (b.len == 0) || ((sz == 0) || b.write_closed)

abbrev pub read_chunk : Buffer → ℕ → ℕ
read_chunk b wanted = min (min wanted (capacity - b.pos)) b.len

-- The loop of `read`, with `wanted` for `sz - input_pos`.
pub read_loop : ℕ → Buffer → ℕ → List ℕ → List ℕ × Buffer
read_loop zero b wanted out = (out, b)
read_loop (suc fuel) b wanted out = elim (ltb 0 wanted && ltb 0 b.len) [
  | true ↦
      let n = read_chunk b wanted in
      read_loop fuel (record b { pos = (b.pos + n) % capacity; len = b.len - n }) (wanted - n)
        (out ++ take n (drop b.pos b.buf))
  | false ↦ (out, b)
]

-- `read` behind its assertion and its wait.
pub read_on : Buffer → ℕ → Outcome
unfolding read_loop
read_on b sz =
    let (out, b') = read_loop (suc sz) b sz [] in
    let refused : Outcome = record { returned = minus 1; bytes = out; wakes = false; after = b' } in
    let done : Outcome = record { returned = length out; bytes = out; wakes = true; after = b' } in
    if b.write_closed && (b.len == 0)
    then record { returned = 0; bytes = []; wakes = false; after = b }
    else if (length out == 0) && ltb 0 sz
    then refused
    else done

-- `read`, called when the pipe is `begin` and going on when it is `b`; none is the failed assertion.
pub read : Buffer → Buffer → ℕ → Option Outcome
unfolding read_on
read begin b sz = check (not begin.read_closed) >> some (read_on b sz)

abbrev pub write_ready : Buffer → List ℕ → Bool
write_ready b src = not (b.len == capacity) || ((length src == 0) || b.read_closed)

abbrev pub write_index : Buffer → ℕ
write_index b = (b.pos + b.len) % capacity

abbrev pub write_chunk : Buffer → ℕ → ℕ
write_chunk b wanted = min (min wanted (capacity - write_index b)) (capacity - b.len)

-- The loop of `write` over the bytes that are left; it returns `input_pos`.
pub write_loop : ℕ → Buffer → List ℕ → ℕ → ℕ × Buffer
unfolding blit
write_loop zero b src input_pos = (input_pos, b)
write_loop (suc fuel) b src input_pos = elim (ltb 0 (length src) && ltb b.len capacity) [
  | true ↦
      let n = write_chunk b (length src) in
      write_loop fuel (record b { buf = blit b.buf (write_index b) (take n src); len = b.len + n })
        (drop n src) (input_pos + n)
  | false ↦ (input_pos, b)
]

-- `write` behind its assertion and its wait.
pub write_on : Buffer → List ℕ → Outcome
unfolding write_loop
write_on b src =
    let (n, b') = write_loop (suc (length src)) b src 0 in
    let refused : Outcome = record { returned = minus 1; bytes = []; wakes = false; after = b' } in
    let done : Outcome = record { returned = n; bytes = []; wakes = true; after = b' } in
    if b.read_closed
    then record { returned = broken_pipe; bytes = []; wakes = false; after = b }
    else if (n == 0) && ltb 0 (length src)
    then refused
    else done

-- `write`, called when the pipe is `begin` and going on when it is `b`; none is the failed assertion.
pub write : Buffer → Buffer → List ℕ → Option Outcome
unfolding write_on
write begin b src = check (not begin.write_closed) >> some (write_on b src)
