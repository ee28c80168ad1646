-- ===== src/Chkfs/Reading/Bytes.antt =====
-- `vnode_inode::read` returns the bytes of the file.
use pug_os.Prelude.{
  ℕ, zero, suc, ◌+◌, ◌-◌, ◌/◌, ◌%◌, ◌^◌, ◌<◌, ◌≤◌, ◌≡◌, inl, inr, refl, sym, subst, ap, ap₂, ◌∙◌,
  Bool, true, false, List, [], ◌++◌, some, none, min, ◌==◌, arith, eq_cases, lt_cases, Bool-cases,
}
use pug_os.Chkfs.Blocks.{Inode, Store, blocksize, get_data_block, put}
use pug_os.Chkfs.Blocks.Lookup.{block_at, entry_of, get_data_block-Looked, Looked}
use pug_os.Chkfs.Reading.{slice, round_size, read_loop, read}
use pug_os.Chkfs.Reading.Slice.{slice-append, file_byte, round_size_bounds, slice_block}

-- What a read leaves.
pub record DoneReading (ino : Inode) (content : ℕ → ℕ → ℕ) (off m : ℕ) (s : Store) (buf : List ℕ)
    (off' : ℕ) (t : Store) : Type 0 where
  pub bytes : buf ≡ slice (file_byte ino s.words content) off m
  pub at : off' ≡ off + m
  pub words : t.words ≡ s.words
  pub refs : (b : ℕ) → t.refs b ≡ s.refs b

nothing :
    (ino : Inode) (content : ℕ → ℕ → ℕ) (off m : ℕ) (s t : Store)
    → m ≡ 0
    → t.words ≡ s.words
    → ((b : ℕ) → t.refs b ≡ s.refs b)
    → DoneReading ino content off m s [] off t
unfolding slice
nothing ino content off m s t e words refs = record {
  bytes = ap (slice (file_byte ino s.words content) off) (sym e);
  at = omega (arith, e);
  words = words;
  refs = refs;
}

entry_of-null : (bn : ℕ) → (bn == 0) ≡ true → entry_of bn ≡ none
entry_of-null bn h = rw (h) refl

entry_of-real : (bn : ℕ) → (bn == 0) ≡ false → entry_of bn ≡ some bn
entry_of-real bn h = rw (h) refl

module _ (room : ℕ → Bool) (all : (b : ℕ) → room b ≡ true) (ino : Inode) (size : ℕ)
    (content : ℕ → ℕ → ℕ) (small : size < 2 ^ 32) where
  -- The three ways a round can go.
  read_loop-missing :
      (fuel off sz : ℕ) (s t : Store)
      → (sz == 0) ≡ false
      → get_data_block room ino (off - off % blocksize) s ≡ some (t, none)
      → read_loop (suc fuel) room ino size content off sz s ≡ some ([], off, t)
  unfolding read_loop
  read_loop-missing fuel off sz s t on run = rw (read_loop, on, run) refl

  read_loop-last :
      (fuel off sz : ℕ) (s t : Store) (b : ℕ)
      → (sz == 0) ≡ false
      → get_data_block room ino (off - off % blocksize) s ≡ some (t, some b)
      → (round_size size off sz == 0) ≡ true
      → read_loop (suc fuel) room ino size content off sz s ≡ some ([], off, put b t)
  unfolding read_loop
  read_loop-last fuel off sz s t b on run stops = rw (read_loop, on, run, stops) refl

  read_loop-copies :
      (fuel off sz : ℕ) (s t u : Store) (b : ℕ) (bytes : List ℕ) (off' : ℕ)
      → (sz == 0) ≡ false
      → get_data_block room ino (off - off % blocksize) s ≡ some (t, some b)
      → (round_size size off sz == 0) ≡ false
      → read_loop fuel room ino size content
          (off + round_size size off sz)
          (sz - round_size size off sz)
          (put b t)
        ≡ some (bytes, off', u)
      → read_loop (suc fuel) room ino size content off sz s
        ≡ some (slice (content b) (off % blocksize) (round_size size off sz) ++ bytes, off', u)
  unfolding read_loop
  read_loop-copies fuel off sz s t u b bytes off' on run copies rest =
      rw (read_loop, on, run, copies, rest) refl

  read_loop-DoneReading :
      (fuel off sz : ℕ) (s : Store)
      → sz < fuel
      → sz < 2 ^ 63
      → off ≤ size
      → ((pos : ℕ) → pos < size → (block_at ino s.words (pos / blocksize) == 0) ≡ false)
      → (bytes : List ℕ) × (off' : ℕ) × (t : Store) × (read_loop fuel room ino size content off sz s
          ≡ some (bytes, off', t))
        × DoneReading ino content off (min sz (size - off)) s bytes off' t
  unfolding read_loop
  read_loop-DoneReading zero off sz s enough words h full = absurd (omega (arith, enough))
  read_loop-DoneReading (suc fuel) off sz s enough words h full = elim (eq_cases sz 0) [
    | inl done ↦
        let stop : (sz == 0) ≡ true = ground (arith, done) in
        (
          [],
          off,
          s,
          rw (read_loop, stop) refl,
          nothing ino content off (min sz (size - off)) s s (omega (arith, done)) refl (λ b. refl),
        )
    | inr more ↦
        let on : (sz == 0) ≡ false = ground (arith, more) in
        let start = off - off % blocksize in
        let bn = block_at ino s.words (start / blocksize) in
        let bn = block_at ino s.words (off / blocksize) in
        let index : start / blocksize ≡ off / blocksize = omega arith in
        let (t, run, f) =
          subst (λ x. Looked (get_data_block room ino start s) s (block_at ino s.words x)) index
            (get_data_block-Looked room ino start s all (omega arith) (omega (arith, small, h))) in
        let n = round_size size off sz in
        let (fits, inside_block, some_bytes) = round_size_bounds size off sz h small words in
        elim (Bool-cases (bn == 0)) [
          | inl null ↦
              let run' = run ∙ ap (λ e. some (t, e)) (entry_of-null bn null) in
              (
                [],
                off,
                t,
                read_loop-missing fuel off sz s t on run',
                nothing ino content off (min sz (size - off)) s t (past null full) f.words
                    (λ b. ground (arith, f.refs b, null)),
              )
          | inr real ↦
              let run' = run ∙ ap (λ e. some (t, e)) (entry_of-real bn real) in
              let back : (b : ℕ) → (put bn t).refs b ≡ s.refs b =
                λ b. ground (arith, f.refs b, real) in
              elim (lt_cases off size) [
                | inr over ↦
                    let last : (n == 0) ≡ true = ground (arith, fits, over) in
                    (
                      [],
                      off,
                      put bn t,
                      read_loop-last fuel off sz s t bn on run' last,
                      nothing ino content off (min sz (size - off)) s (put bn t)
                          (omega (arith, over)) f.words back,
                    )
                | inl inside ↦
                    let copies : (n == 0) ≡ false =
                      ground (arith, some_bytes (omega (arith, more)) inside) in
                    let (bytes, off', u, rest, d) =
                      read_loop-DoneReading fuel (off + n) (sz - n) (put bn t)
                        (omega (arith, enough, some_bytes (omega (arith, more)) inside))
                        (omega (arith, words)) (omega (arith, fits, inside))
                        (λ pos lt.
                          ap (λ w. block_at ino w (pos / blocksize) == 0) f.words ∙ full pos lt) in
                    (
                      slice (content bn) (off % blocksize) n ++ bytes,
                      off',
                      u,
                      read_loop-copies fuel off sz s t u bn bytes off' on run' copies rest,
                      record {
                        bytes =
                            ap₂ ◌++◌ (slice_block ino s.words content off n inside_block) (
                              d.bytes
                              ∙ ap
                                  (λ w.
                                    slice (file_byte ino w content) (off + n)
                                      (min (sz - n) (size - (off + n))))
                                  f.words)
                            ∙ slice-append (file_byte ino s.words content) off n
                                (min (sz - n) (size - (off + n)))
                            ∙ ap (slice (file_byte ino s.words content) off) (total fits);
                        at = omega (arith, d.at, fits);
                        words = d.words ∙ f.words;
                        refs = λ b. d.refs b ∙ back b;
                      },
                    )
              ]
        ]
  ]
    where
      past :
          (block_at ino s.words (off / blocksize) == 0) ≡ true
          → ((pos : ℕ) → pos < size → (block_at ino s.words (pos / blocksize) == 0) ≡ false)
          → min sz (size - off) ≡ 0
      past null full = elim (lt_cases off size) [
        | inl inside ↦ absurd (let real = full off inside in ground (arith, real, null))
        | inr over ↦ omega (arith, over)
      ]

      total :
          {n : ℕ}
          → n ≤ min sz (size - off)
          → n + min (sz - n) (size - (off + n)) ≡ min sz (size - off)
      total fits = omega (arith, fits)

  -- When the cache has room for every block, `read` of less than 2 ^ 63 bytes, of a file of `size` bytes, less
  -- than 2 ^ 32, whose blocks are all there, from an offset in it or at its end: it copies
  -- the bytes of the file from the offset on, as many as were asked for or as there are, and moves the
  -- offset behind them. It changes no block and gives back every reference that it took.
  pub read-DoneReading :
      (off sz : ℕ) (s : Store)
      → sz < 2 ^ 63
      → off ≤ size
      → ((pos : ℕ) → pos < size → (block_at ino s.words (pos / blocksize) == 0) ≡ false)
      → (bytes : List ℕ) × (off' : ℕ) × (t : Store) × (read room ino size content off sz s
          ≡ some (bytes, off', t))
        × DoneReading ino content off (min sz (size - off)) s bytes off' t
  read-DoneReading off sz s words h full =
      read_loop-DoneReading (sz + 1) off sz s (omega arith) words h full
