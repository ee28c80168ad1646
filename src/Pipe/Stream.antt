-- ===== src/Pipe/Stream.antt =====
-- k-vfs.cc: the calls on one pipe from both ends, in any order that the lock and the wait queues allow,
-- and the closing of its ends by `file::~file`.
use pug_os.Prelude.{
  ℕ, ◌+◌, ◌<◌, ◌-◌, ◌≡◌, refl, ap, ap₂, ◌∙◌, sym, min, true, false, List, [], ◌++◌, arith,
  if◌then◌else◌, length, take, take_all, take-append-drop, append-nil, append_assoc, replicate,
  lt_cases, inl, inr,
}
use pug_os.Pipe.{Buffer, capacity, read_on, read_ready, write_on, write_ready}
use pug_os.Pipe.Ring.{IsValid, contents}
use pug_os.Pipe.Transfer.{read_on-ReadDone, write_on-Answered}

-- The pipe, how many calls of `read` and of `write` have begun and not ended, the bytes that `write`
-- reported as written, and those that `read` handed out, oldest first.
pub record History : Type 0 where
  pub pipe : Buffer
  pub readers : ℕ
  pub writers : ℕ
  pub sent : List ℕ
  pub received : List ℕ

-- The bytes that the writer's return value tells it are in the pipe.
abbrev pub accepted : Buffer → List ℕ → List ℕ
accepted b src = if b.read_closed then [] else take (write_on b src).returned src

-- A call begins when its end is open, as it asserts, and goes on when it need not sleep.
pub data Step : History → History → Type 0 where
  calls_read :
      (h : History) → h.pipe.read_closed ≡ false → Step h (record h { readers = h.readers + 1 })
  calls_write :
      (h : History) → h.pipe.write_closed ≡ false → Step h (record h { writers = h.writers + 1 })
  reads :
      (h : History) (sz : ℕ)
      → 0 < h.readers
      → read_ready h.pipe sz ≡ true
      → Step h (record h {
        readers = h.readers - 1;
        pipe = (read_on h.pipe sz).after;
        received = h.received ++ (read_on h.pipe sz).bytes;
      })
  writes :
      (h : History) (src : List ℕ)
      → 0 < h.writers
      → write_ready h.pipe src ≡ true
      → Step h (record h {
        writers = h.writers - 1;
        pipe = (write_on h.pipe src).after;
        sent = h.sent ++ accepted h.pipe src;
      })
  closes_read : (h : History) → Step h (record h { pipe = record (h.pipe) { read_closed = true } })
  closes_write :
      (h : History) → Step h (record h { pipe = record (h.pipe) { write_closed = true } })

pub data Reach (g : History) : History → Type 0 where
  here : Reach g g
  next : {h k : History} → Reach g h → Step h k → Reach g k

-- `bbuffer::bbuffer()`
abbrev pub empty_pipe : Buffer
empty_pipe = record {
  buf = replicate capacity 0;
  pos = 0;
  len = 0;
  read_closed = false;
  write_closed = false;
}

abbrev pub start : History
start = record { pipe = empty_pipe; readers = 0; writers = 0; sent = []; received = [] }

pub record IsFifo (h : History) : Type 0 where
  pub valid : IsValid h.pipe
  pub stream : h.received ++ contents h.pipe ≡ h.sent

start-IsFifo : IsFifo start
start-IsFifo = record {
  valid = record { storage = refl; pos_in = omega arith; len_in = omega arith };
  stream = refl;
}

take-min : (n : ℕ) (src : List ℕ) → take (min (length src) n) src ≡ take n src
take-min n src = elim (lt_cases n (length src)) [
  | inl p ↦ let e : min (length src) n ≡ n = omega arith in rw e refl
  | inr p ↦
      let e : min (length src) n ≡ length src = omega arith in
      rw (e, take_all (length src) src (omega arith), take_all n src p) refl
]

writes-IsFifo :
    (h : History) (src : List ℕ)
    → IsFifo h
    → write_ready h.pipe src ≡ true
    → IsFifo (record h {
      writers = h.writers - 1;
      pipe = (write_on h.pipe src).after;
      sent = h.sent ++ accepted h.pipe src;
    })
writes-IsFifo h src v e = elim (write_on-Answered h.pipe src v.valid e) [
  | inl (closed, _, same) ↦
      simp (same, closed, append-nil) (record { valid = v.valid; stream = v.stream })
  | inr (open_end, w) ↦ record {
    valid = w.valid;
    stream =
        ap (◌++◌ h.received) w.added
        ∙ sym (append_assoc h.received (contents h.pipe) (take (capacity - h.pipe.len) src))
        ∙ ap₂ ◌++◌ v.stream (sym (told open_end w.returned));
  }
]
  where
    told :
        h.pipe.read_closed ≡ false
        → (write_on h.pipe src).returned ≡ min (length src) (capacity - h.pipe.len)
        → accepted h.pipe src ≡ take (capacity - h.pipe.len) src
    told c r = simp (c, r) (take-min (capacity - h.pipe.len) src)

Step-IsFifo : {h k : History} → Step h k → IsFifo h → IsFifo k
Step-IsFifo (calls_read h e) v = record { valid = v.valid; stream = v.stream }
Step-IsFifo (calls_write h e) v = record { valid = v.valid; stream = v.stream }
Step-IsFifo (reads h sz n e) v =
    let w = read_on-ReadDone h.pipe sz v.valid e in
    record {
      valid = w.valid;
      stream = rw (w.left, w.bytes, append_assoc, take-append-drop) v.stream;
    }
Step-IsFifo (writes h src n e) v = writes-IsFifo h src v e
Step-IsFifo (closes_read h) v = record {
  valid = record { storage = v.valid.storage; pos_in = v.valid.pos_in; len_in = v.valid.len_in };
  stream = v.stream;
}
Step-IsFifo (closes_write h) v = record {
  valid = record { storage = v.valid.storage; pos_in = v.valid.pos_in; len_in = v.valid.len_in };
  stream = v.stream;
}

-- After any sequence on a new pipe of calls of `read` and `write`, each of which begins while its end is
-- open and goes on when it need not sleep, and of closed ends, its state is valid, and the bytes
-- handed out to the reader, followed by those still in the pipe, are exactly the bytes that the writer
-- was told are written, in their order.
pub Reach-IsFifo : {h : History} → Reach start h → IsFifo h
Reach-IsFifo here = start-IsFifo
Reach-IsFifo (next r s) = Step-IsFifo s (Reach-IsFifo r)
