-- ===== src/Pipe/Transfer.antt =====
-- k-vfs.cc: `vnode_pipe::read` takes from the front of the queue of bytes, and `vnode_pipe::write`
-- appends to it.
use pug_os.Prelude.{
  ℕ, zero, suc, ◌+◌, ◌-◌, ◌%◌, ◌≤◌, ◌<◌, ◌≡◌, refl, ap, ◌∙◌, sym, min, true, false, ◌&&◌, some,
  List, [], ◌∷◌, ◌++◌, arith, ltb, ◌==◌, length, take, drop, length-take, length-drop, take-append,
  drop-append, take-nil, drop-nil, append-nil, append_assoc, Bool-cases, take-add, ◌⊎◌, inl, inr,
}
use pug_os.Pipe.{
  Buffer, Outcome, capacity, broken_pipe, blit, read, read_on, read_loop, read_chunk, read_ready,
  write, write_on, write_loop, write_chunk, write_index, write_ready,
}
use pug_os.Pipe.Ring.{
  IsValid, contents, circle, length-circle, circle_split, circle-blit, length-blit,
}

abbrev pub SameFlags : Buffer → Buffer → Type 0
SameFlags b c = (c.read_closed ≡ b.read_closed) × (c.write_closed ≡ b.write_closed)

-- The buffer after one `memcpy` of the loop of `read`.
abbrev shifted : Buffer → ℕ → Buffer
shifted b n = record b { pos = (b.pos + n) % capacity; len = b.len - n }

shifted-IsValid : (b : Buffer) (n : ℕ) → IsValid b → IsValid (shifted b n)
shifted-IsValid b n v = omega arith

-- A chunk is the front of the queue.
contents-shifted :
    (b : Buffer) (n : ℕ)
    → IsValid b
    → n ≤ b.len
    → n ≤ capacity - b.pos
    → contents b ≡ take n (drop b.pos b.buf) ++ contents (shifted b n)
contents-shifted b n v p q =
    let e : b.len ≡ n + (b.len - n) = omega arith in
    ap (circle b.buf b.pos) e
    ∙ circle_split b.buf n (b.len - n) b.pos v.storage v.pos_in (omega arith)

length-chunk :
    (b : Buffer) (n : ℕ) → IsValid b → n ≤ capacity - b.pos → length (take n (drop b.pos b.buf)) ≡ n
length-chunk b n v p = omega (arith, length-take n (drop b.pos b.buf), length-drop b.pos b.buf)

record Reads (b : Buffer) (wanted : ℕ) (out : List ℕ) (r : List ℕ × Buffer) : Type 0 where
  valid : IsValid r.1
  taken : r.0 ≡ out ++ take wanted (contents b)
  left : contents r.1 ≡ drop wanted (contents b)
  flags : SameFlags b r.1

Reads-done :
    (b : Buffer) (wanted : ℕ) (out : List ℕ)
    → IsValid b
    → (wanted ≡ 0) ⊎ (b.len ≡ 0)
    → Reads b wanted out (out, b)
Reads-done b wanted out v (inl e) = record {
  valid = v;
  taken = rw (e, append-nil) refl;
  left = rw e refl;
  flags = (refl, refl);
}
Reads-done b wanted out v (inr e) = record {
  valid = v;
  taken = rw (e, take-nil wanted, append-nil) refl;
  left = rw (e, drop-nil wanted) refl;
  flags = (refl, refl);
}

Reads-step :
    (b : Buffer) (wanted n : ℕ) (out : List ℕ) (r : List ℕ × Buffer)
    → IsValid b
    → n ≤ b.len
    → n ≤ capacity - b.pos
    → n ≤ wanted
    → Reads (shifted b n) (wanted - n) (out ++ take n (drop b.pos b.buf)) r
    → Reads b wanted out r
Reads-step b wanted n out r v p q h w = record {
  valid = w.valid;
  taken =
      w.taken
      ∙ append_assoc out chunk (take (wanted - n) (contents (shifted b n)))
      ∙ ap (◌++◌ out) (
          sym (
            ap (take wanted) split
            ∙ take-append chunk _ wanted (omega (arith, size))
            ∙ ap (λ t. chunk ++ take (wanted - t) (contents (shifted b n))) size));
  left =
      w.left
      ∙ sym (
          ap (drop wanted) split
          ∙ drop-append chunk _ wanted (omega (arith, size))
          ∙ ap (λ t. drop (wanted - t) (contents (shifted b n))) size);
  flags = w.flags;
}
  where
    chunk : List ℕ
    chunk = take n (drop b.pos b.buf)

    size : length chunk ≡ n
    size = length-chunk b n v q

    split : contents b ≡ chunk ++ contents (shifted b n)
    split = contents-shifted b n v p q

read_loop-Reads :
    (fuel : ℕ) (b : Buffer) (wanted : ℕ) (out : List ℕ)
    → IsValid b
    → wanted < fuel
    → Reads b wanted out (read_loop fuel b wanted out)
unfolding read_loop
read_loop-Reads zero b wanted out v h = elim h [ ]
read_loop-Reads (suc fuel) b wanted out v h = elim (Bool-cases (ltb 0 wanted && ltb 0 b.len)) [
  | inr e ↦ rw (e, read_loop) (Reads-done b wanted out v (ground arith))
  | inl e ↦
      let more : (0 < wanted) × (0 < b.len) = ground arith in
      let n = read_chunk b wanted in
      rw (e, read_loop)
        (Reads-step b wanted n out _ v (omega arith) (omega arith) (omega arith) (
          read_loop-Reads fuel (shifted b n) (wanted - n) (out ++ take n (drop b.pos b.buf))
            (shifted-IsValid b n v) (omega arith)))
]

-- What a finished `read` of `sz` bytes has done.
pub record ReadDone (b : Buffer) (sz : ℕ) (r : Outcome) : Type 0 where
  pub bytes : r.bytes ≡ take sz (contents b)
  pub returned : r.returned ≡ length (take sz (contents b))
  pub left : contents r.after ≡ drop sz (contents b)
  pub valid : IsValid r.after
  pub flags : SameFlags b r.after
  pub wakes : 0 < r.returned → r.wakes ≡ true

length-taken : (b : Buffer) (sz : ℕ) → length (take sz (contents b)) ≡ min sz b.len
length-taken b sz = omega (arith, length-take sz (contents b), length-circle b.buf b.pos b.len)

pub read_on-ReadDone :
    (b : Buffer) (sz : ℕ) → IsValid b → read_ready b sz ≡ true → ReadDone b sz (read_on b sz)
unfolding read_on
read_on-ReadDone b sz v h = elim (Bool-cases (b.write_closed && (b.len == 0))) [
  | inl e ↦
      let none_left : b.len ≡ 0 = ground arith in
      rw e (record {
        bytes = rw (none_left, take-nil sz) refl;
        returned = rw (none_left, take-nil sz) refl;
        left = rw (none_left, drop-nil sz) refl;
        valid = v;
        flags = (refl, refl);
        wakes = λ p. absurd (omega arith);
      })
  | inr e ↦
      let w = read_loop-Reads (suc sz) b sz [] v (omega arith) in
      let size : length (read_loop (suc sz) b sz []).0 ≡ min sz b.len =
        ap length w.taken ∙ length-taken b sz in
      let served : ((length (read_loop (suc sz) b sz []).0 == 0) && ltb 0 sz) ≡ false =
        ground arith in
      rw (e, served)
        (record {
          bytes = w.taken;
          returned = ap length w.taken;
          left = w.left;
          valid = w.valid;
          flags = w.flags;
          wakes = λ p. refl;
        })
]

-- A call of `read` while the read end is open, on a pipe that is valid and whose reader need not sleep,
-- or no longer, meets no failed assertion: it returns the oldest bytes, as many as are asked for
-- and there, and their number, which is 0 if all are read and the write end is closed; it never returns
-- the error -1. The other bytes stay in order, the state stays valid, the flags stay, and the
-- writers are woken if a byte was taken.
pub read-ReadDone :
    (begin b : Buffer) (sz : ℕ)
    → begin.read_closed ≡ false
    → IsValid b
    → read_ready b sz ≡ true
    → (r : Outcome) × (read begin b sz ≡ some r) × ReadDone b sz r
unfolding read
read-ReadDone begin b sz o v h = (read_on b sz, rw o refl, read_on-ReadDone b sz v h)

-- The buffer after one `memcpy` of the loop of `write`.
abbrev extended : Buffer → List ℕ → Buffer
extended b xs = record b { buf = blit b.buf (write_index b) xs; len = b.len + length xs }

extended-IsValid :
    (b : Buffer) (xs : List ℕ) → IsValid b → length xs ≤ capacity - b.len → IsValid (extended b xs)
extended-IsValid b xs v p = omega (arith, length-blit xs b.buf (write_index b))

contents-extended :
    (b : Buffer) (xs : List ℕ)
    → IsValid b
    → length xs ≤ capacity - b.len
    → length xs ≤ capacity - write_index b
    → contents (extended b xs) ≡ contents b ++ xs
contents-extended b xs v p q =
    circle-blit xs b.buf b.pos b.len (write_index b) v.storage v.pos_in (omega arith) refl
      (omega arith)

record Writes (b : Buffer) (src : List ℕ) (input_pos : ℕ) (r : ℕ × Buffer) : Type 0 where
  valid : IsValid r.1
  count : r.0 ≡ input_pos + min (length src) (capacity - b.len)
  added : contents r.1 ≡ contents b ++ take (capacity - b.len) src
  flags : SameFlags b r.1

Writes-done :
    (b : Buffer) (src : List ℕ) (i : ℕ)
    → IsValid b
    → (src ≡ []) ⊎ (b.len ≡ capacity)
    → Writes b src i (i, b)
Writes-done b src i v (inl e) = record {
  valid = v;
  count = rw e (omega arith);
  added = rw (e, take-nil (capacity - b.len), append-nil) refl;
  flags = (refl, refl);
}
Writes-done b src i v (inr e) = record {
  valid = v;
  count = omega arith;
  added = rw (e, append-nil) refl;
  flags = (refl, refl);
}

Writes-step :
    (b : Buffer) (src : List ℕ) (n i : ℕ) (r : ℕ × Buffer)
    → IsValid b
    → n ≤ capacity - b.len
    → n ≤ capacity - write_index b
    → n ≤ length src
    → Writes
        (record b { buf = blit b.buf (write_index b) (take n src); len = b.len + n })
        (drop n src)
        (i + n)
        r
    → Writes b src i r
Writes-step b src n i r v p q h w = record {
  valid = w.valid;
  count = omega (arith, w.count, length-drop n src);
  added =
      w.added
      ∙ ap (λ c. c ++ take room (drop n src)) front
      ∙ append_assoc (contents b) (take n src) (take room (drop n src))
      ∙ ap (◌++◌ (contents b)) (sym (ap (λ t. take t src) whole ∙ take-add n room src));
  flags = w.flags;
}
  where
    room : ℕ
    room = capacity - (b.len + n)

    whole : capacity - b.len ≡ n + room
    whole = omega arith

    size : length (take n src) ≡ n
    size = omega (arith, length-take n src)

    front :
        circle (blit b.buf (write_index b) (take n src)) b.pos (b.len + n)
        ≡ contents b ++ take n src
    front =
        ap (λ t. circle (blit b.buf (write_index b) (take n src)) b.pos (b.len + t)) (sym size)
        ∙ contents-extended b (take n src) v (omega (arith, size)) (omega (arith, size))

write_step-IsValid :
    (b : Buffer) (src : List ℕ) (n : ℕ)
    → IsValid b
    → n ≤ capacity - b.len
    → IsValid (record b { buf = blit b.buf (write_index b) (take n src); len = b.len + n })
write_step-IsValid b src n v p = omega (arith, length-blit (take n src) b.buf (write_index b))

nil_of_length : (src : List ℕ) → length src ≡ 0 → src ≡ []
nil_of_length [] e = refl
nil_of_length (x ∷ src) e = absurd (omega arith)

write_loop-Writes :
    (fuel : ℕ) (b : Buffer) (src : List ℕ) (i : ℕ)
    → IsValid b
    → length src < fuel
    → Writes b src i (write_loop fuel b src i)
unfolding write_loop
write_loop-Writes zero b src i v h = elim h [ ]
write_loop-Writes (suc fuel) b src i v h =
    elim (Bool-cases (ltb 0 (length src) && ltb b.len capacity)) [
      | inr e ↦ rw (e, write_loop) (Writes-done b src i v (stop (ground arith)))
      | inl e ↦
          let more : (0 < length src) × (b.len < capacity) = ground arith in
          let n = write_chunk b (length src) in
          rw (e, write_loop)
            (Writes-step b src n i _ v (omega arith) (omega arith) (omega arith) (
              write_loop-Writes fuel _ (drop n src) (i + n)
                (write_step-IsValid b src n v (omega arith)) (omega (arith, length-drop n src))))
    ]
  where
    stop : (length src ≡ 0) ⊎ (b.len ≡ capacity) → (src ≡ []) ⊎ (b.len ≡ capacity)
    stop (inl e) = inl (nil_of_length src e)
    stop (inr e) = inr e

-- What a finished `write` of the bytes `src` has done.
pub record WriteDone (b : Buffer) (src : List ℕ) (r : Outcome) : Type 0 where
  pub returned : r.returned ≡ min (length src) (capacity - b.len)
  pub added : contents r.after ≡ contents b ++ take (capacity - b.len) src
  pub valid : IsValid r.after
  pub flags : SameFlags b r.after
  pub wakes : r.wakes ≡ true

-- What a call of `write` has done: E_PIPE if the read end is closed, else the bytes are there.
abbrev pub Answered : Buffer → List ℕ → Outcome → Type 0
Answered b src r =
    ((b.read_closed ≡ true) × (r.returned ≡ broken_pipe) × (r.after ≡ b))
    ⊎ ((b.read_closed ≡ false) × WriteDone b src r)

pub write_on-Answered :
    (b : Buffer) (src : List ℕ)
    → IsValid b
    → write_ready b src ≡ true
    → Answered b src (write_on b src)
unfolding write_on
write_on-Answered b src v h = elim (Bool-cases b.read_closed) [
  | inl e ↦ inl (e, rw e refl, rw e refl)
  | inr e ↦
      let w = write_loop-Writes (suc (length src)) b src 0 v (omega arith) in
      let served : (((write_loop (suc (length src)) b src 0).0 == 0) && ltb 0 (length src))
          ≡ false =
        ground (arith, w.count) in
      inr (
        e,
        simp (e, served)
            (record {
              returned = omega (arith, w.count);
              added = w.added;
              valid = w.valid;
              flags = w.flags;
              wakes = refl;
            }),
      )
]

-- A call of `write` while the write end is open, on a pipe that is valid and whose writer need not sleep,
-- or no longer, meets no failed assertion. If the read end is closed, it returns E_PIPE and leaves the
-- buffer as it was. If it is open, it appends as many of the bytes as there is room for, in order,
-- returns their number and wakes the readers; it never returns the error -1, the state stays valid and
-- the flags stay.
pub write-WriteDone :
    (begin b : Buffer) (src : List ℕ)
    → begin.write_closed ≡ false
    → IsValid b
    → write_ready b src ≡ true
    → (r : Outcome) × (write begin b src ≡ some r)
      × (((b.read_closed ≡ true) × (r.returned ≡ broken_pipe) × (r.after ≡ b))
          ⊎ ((b.read_closed ≡ false) × WriteDone b src r))
unfolding write
write-WriteDone begin b src o v h = (write_on b src, rw o refl, write_on-Answered b src v h)
