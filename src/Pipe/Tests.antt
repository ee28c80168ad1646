-- ===== src/Pipe/Tests.antt =====
-- Tests of `vnode_pipe`, and the theorems at concrete pipes.
use pug_os.Prelude.{◌≡◌, ◌⊎◌, refl, some, true, false, [], ◌∷◌, arith, set, take}
use pug_os.Pipe.{Buffer, Outcome, broken_pipe, read, read_on, write, write_on}
use pug_os.Pipe.Ring.{IsValid, contents}
use pug_os.Pipe.Transfer.{ReadDone, WriteDone, read-ReadDone, write-WriteDone}
use pug_os.Pipe.Stream.{
  History, calls_read, calls_write, reads, writes, here, next, start, IsFifo, Reach-IsFifo,
  empty_pipe,
}

-- Three bytes round the end of the array.
abbrev wrapped : Buffer
wrapped = record empty_pipe {
  buf = set (set (set empty_pipe.buf 126 7) 127 8) 0 9;
  pos = 126;
  len = 3;
}

wrapped-IsValid : IsValid wrapped
wrapped-IsValid = record { storage = refl; pos_in = omega arith; len_in = omega arith }

contents-wrapped : contents wrapped ≡ 7 ∷ 8 ∷ 9 ∷ []
contents-wrapped = refl

read-wrapped : (read_on wrapped 10).bytes ≡ 7 ∷ 8 ∷ 9 ∷ []
unfolding read_on
read-wrapped = refl

write-wrapped : contents (write_on wrapped (4 ∷ 5 ∷ [])).after ≡ 7 ∷ 8 ∷ 9 ∷ 4 ∷ 5 ∷ []
unfolding write_on
write-wrapped = refl

read-ReadDone_example : (r : Outcome) × (read empty_pipe wrapped 2 ≡ some r) × ReadDone wrapped 2 r
read-ReadDone_example = read-ReadDone empty_pipe wrapped 2 refl wrapped-IsValid refl

write-WriteDone_example :
    (r : Outcome) × (write empty_pipe wrapped (4 ∷ 5 ∷ []) ≡ some r)
    × (((wrapped.read_closed ≡ true) × (r.returned ≡ broken_pipe) × (r.after ≡ wrapped))
        ⊎ ((wrapped.read_closed ≡ false) × WriteDone wrapped (4 ∷ 5 ∷ []) r))
write-WriteDone_example = write-WriteDone empty_pipe wrapped (4 ∷ 5 ∷ []) refl wrapped-IsValid refl

-- A reader that sleeps, a write, and what the reader then takes.
abbrev begun : History
begun = record start { readers = 1; writers = 1 }

abbrev written : History
written = record begun {
  writers = 0;
  pipe = (write_on empty_pipe (1 ∷ 2 ∷ [])).after;
  sent = take (write_on empty_pipe (1 ∷ 2 ∷ [])).returned (1 ∷ 2 ∷ []);
}

abbrev taken : History
taken = record written {
  readers = 0;
  pipe = (read_on written.pipe 1).after;
  received = (read_on written.pipe 1).bytes;
}

Reach-IsFifo_example : IsFifo taken
unfolding write_on
Reach-IsFifo_example = Reach-IsFifo (
    next
      (next
        (next (next here (calls_read start refl)) (calls_write (record start { readers = 1 }) refl))
        (writes begun (1 ∷ 2 ∷ []) (omega arith) refl))
      (reads written 1 (omega arith) refl))
