-- ===== src/Keyboard/Typing.antt =====
-- k-devices.cc: `handle_interrupt` as what is typed into the queue.
use pug_os.Prelude.{
  ℕ, ◌+◌, ◌%◌, ◌≤◌, ◌<◌, ◌≡◌, ◌≢◌, refl, sym, ap, ◌∙◌, inl, inr, Bool, true, false, not, ◌&&◌, ◌||◌,
  List, [], ◌∷◌, ◌++◌, arith, ltb, ◌==◌, if◌then◌else◌, length, length-set, set, append-nil,
  append_assoc, length-append, Bool-cases, lt_cases, eq_cases, subst,
}
use pug_os.Keyboard.{
  Keyboard, Mode, input, boot, fail, Handled, handled, off, overrun, nbuf, sizeof_buf, maybe_echo,
  normal_char, backspace, handle_char, handle_interrupt, is_input, go_on,
}
use pug_os.Keyboard.Scancode.{Keys, keyboard_readc}
use pug_os.Keyboard.Queue.{queued, Typed, window_put}

-- `k'` has the characters `cs` more in its queue, and is in order.
pub record Grown (k k' : Keyboard) (cs : List ℕ) : Type 0 where
  pub typed : Typed k'
  pub queue : queued k' ≡ queued k ++ cs
  pub mode : k'.mode ≡ k.mode
  pub reach : k'.pos + k'.len ≡ k.pos + k.len + length cs

unchanged : (k : Keyboard) → Typed k → Grown k k []
unchanged k t = record {
  typed = t;
  queue = sym (append-nil (queued k));
  mode = refl;
  reach = omega arith;
}

stored : Keyboard → ℕ → Keyboard
stored k ch = record k {
  buf = set k.buf ((k.pos + k.len) % sizeof_buf) ch;
  len = k.len + 1;
  eol = k.len + 1;
}

stored-Grown :
    (k : Keyboard) (ch : ℕ) → Typed k → k.pos + k.len < nbuf → Grown k (stored k ch) (ch ∷ [])
unfolding stored
stored-Grown k ch t p =
    let slot : (k.pos + k.len) % sizeof_buf ≡ k.pos + k.len = omega (arith, p) in
    rw slot (record {
      typed = record {
        storage = length-set k.buf (k.pos + k.len) ch ∙ t.storage;
        within = omega (arith, p);
        at_end = refl;
      };
      queue = window_put k.buf k.pos k.len ch (omega (arith, p, t.storage));
      mode = refl;
      reach = omega arith;
    })

maybe_echo-Grown :
    (k k' : Keyboard) (cs : List ℕ) (ch : ℕ) → Grown k k' cs → Grown k (maybe_echo k' ch) cs
unfolding maybe_echo
maybe_echo-Grown k k' cs ch g = elim (Bool-cases (is_input k'.mode && not (ch == 4))) [
  | inl e ↦ rw (e) (record {
    typed = record { storage = g.typed.storage; within = g.typed.within; at_end = g.typed.at_end };
    queue = g.queue;
    mode = g.mode;
    reach = g.reach;
  })
  | inr e ↦ rw (e) g
]

-- What a key leaves in the queue: nothing for no key and for the backspace, a newline for the return key.
abbrev pub letters : ℕ → List ℕ
letters ch = if (ch == 0) || (ch == 8) then [] else (if ch == 13 then 10 else ch) ∷ []

-- Control-Q powers the machine off, and so do Control-C and `q` while the keyboard takes no input.
abbrev pub powers_off : Mode → ℕ → Bool
powers_off mode ch = (ch == 17) || (not (is_input mode) && ((ch == 3) || (ch == 113)))

-- What a key does: nothing, the machine goes off, or one character is queued; and when the buffer has
-- been filled to its end, the element behind it is written.
pub data Key (k : Keyboard) (ch : ℕ) : Handled → Type 0 where
  ignored : letters ch ≡ [] → powers_off k.mode ch ≡ false → Key k ch (handled k)
  switched_off : powers_off k.mode ch ≡ true → Key k ch off
  queues :
      (k' : Keyboard) (c : ℕ)
      → letters ch ≡ c ∷ []
      → powers_off k.mode ch ≡ false
      → k.pos + k.len < nbuf
      → Grown k k' (c ∷ [])
      → Key k ch (handled k')
  runs_over :
      (c : ℕ)
      → letters ch ≡ c ∷ []
      → powers_off k.mode ch ≡ false
      → k.pos + k.len ≡ nbuf
      → Key k ch overrun

normal_char-within :
    (k : Keyboard) (ch : ℕ)
    → k.pos + k.len < nbuf
    → normal_char k ch ≡ handled (maybe_echo (stored k ch) ch)
unfolding normal_char stored
normal_char-within k ch p =
    let slot : (k.pos + k.len) % sizeof_buf ≡ k.pos + k.len = omega (arith, p) in
    let a : ltb k.len sizeof_buf ≡ true = ground (arith, p) in
    let b : ltb (k.pos + k.len) nbuf ≡ true = ground (arith, p) in rw (normal_char, slot, a, b) refl

normal_char-overrun : (k : Keyboard) (ch : ℕ) → k.pos + k.len ≡ nbuf → normal_char k ch ≡ overrun
unfolding normal_char
normal_char-overrun k ch p =
    let a : ltb k.len sizeof_buf ≡ true = ground (arith, p) in rw (normal_char, p, a) refl

normal_char-Key :
    (k : Keyboard) (ch c : ℕ)
    → Typed k
    → letters ch ≡ c ∷ []
    → powers_off k.mode ch ≡ false
    → Key k ch (normal_char k c)
normal_char-Key k ch c t e on = elim (lt_cases (k.pos + k.len) nbuf) [
  | inl p ↦ subst (Key k ch) (sym (normal_char-within k c p)) (
      queues (maybe_echo (stored k c) c) c e on p
        (maybe_echo-Grown k (stored k c) (c ∷ []) c (stored-Grown k c t p)))
  | inr p ↦
      let q : k.pos + k.len ≡ nbuf = omega (arith, p, t.within) in
      subst (Key k ch) (sym (normal_char-overrun k c q)) (runs_over c e on q)
]

backspace_ignored : (k : Keyboard) → Typed k → backspace k ≡ handled k
unfolding backspace
backspace_ignored k t = rw (t.at_end) (ground arith)

abbrev quits : ℕ → Bool
quits ch = (ch == 3) || (ch == 113)

return_stays : (mode : Mode) → powers_off mode 13 ≡ false
return_stays input = refl
return_stays boot = refl
return_stays fail = refl

other-Key :
    (k : Keyboard) (ch : ℕ) → Typed k → ch ≢ 0 → ch ≢ 8 → ch ≢ 17 → Key k ch (handle_char k ch)
unfolding handle_char
other-Key k ch t n0 n8 n17 =
    let a : (ch == 0) ≡ false = ground (arith, n0) in
    let b : (ch == 8) ≡ false = ground (arith, n8) in
    let c : (ch == 17) ≡ false = ground (arith, n17) in
    elim (Bool-cases (quits ch)) [
      | inl q ↦
          let d : (ch == 13) ≡ false = ground (arith, q) in
          elim (Bool-cases (is_input k.mode)) [
            | inl m ↦
                rw (handle_char, a, b, c, q, m)
                  (normal_char-Key k ch ch t (rw (a, b, d) refl) (rw (c, m) refl))
            | inr m ↦ rw (handle_char, a, b, c, q, m) (switched_off (rw (c, m, q) refl))
          ]
      | inr q ↦
          let on : powers_off k.mode ch ≡ false = ground (arith, c, q) in
          elim (eq_cases ch 13) [
            | inl e ↦ rw (handle_char, e) (normal_char-Key k 13 10 t refl (return_stays k.mode))
            | inr n ↦
                let d : (ch == 13) ≡ false = ground (arith, n) in
                rw (handle_char, a, b, c, q, d) (normal_char-Key k ch ch t (rw (a, b, d) refl) on)
          ]
    ]

-- While at most `nbuf` characters have been typed in all, each key does what `Key` says: a backspace is
-- ignored, since every character counts as the end of a line, and the character after the last of
-- these is written behind the buffer.
pub handle_char-Key : (k : Keyboard) (ch : ℕ) → Typed k → Key k ch (handle_char k ch)
unfolding handle_char
handle_char-Key k ch t = elim (eq_cases ch 0) [
  | inl e ↦ rw (handle_char, e) (ignored refl (ground arith))
  | inr n0 ↦ elim (eq_cases ch 8) [
    | inl e ↦ rw (handle_char, e, backspace_ignored k t) (ignored refl (ground arith))
    | inr n8 ↦ elim (eq_cases ch 17) [
      | inl e ↦ rw (handle_char, e) (switched_off refl)
      | inr n17 ↦ other-Key k ch t n0 n8 n17
    ]
  ]
]

-- The keys that the bytes of the keyboard stand for, with 0 for a byte that completes none.
pub keys : Keys → List ℕ → List ℕ
keys q [] = []
keys q (byte ∷ bytes) = (keyboard_readc q byte).1 ∷ keys (keyboard_readc q byte).0 bytes

pub text : List ℕ → List ℕ
text [] = []
text (ch ∷ chs) = letters ch ++ text chs

pub none_powers_off : Mode → List ℕ → Bool
none_powers_off mode [] = true
none_powers_off mode (ch ∷ chs) = not (powers_off mode ch) && none_powers_off mode chs

-- How an interrupt ends that brings these keys: all are queued; or the machine goes off at the first of
-- them that does that, if there is room for those before it; or the first for which there is no room
-- comes before any such.
pub data Interrupt (k : Keyboard) (chs : List ℕ) : Handled → Type 0 where
  goes_on :
      (k' : Keyboard)
      → none_powers_off k.mode chs ≡ true
      → Grown k k' (text chs)
      → Interrupt k chs (handled k')
  goes_off :
      (before after : List ℕ) (ch : ℕ)
      → chs ≡ before ++ ch ∷ after
      → none_powers_off k.mode before ≡ true
      → powers_off k.mode ch ≡ true
      → k.pos + k.len + length (text before) ≤ nbuf
      → Interrupt k chs off
  goes_over :
      (before after : List ℕ) (ch c : ℕ)
      → chs ≡ before ++ ch ∷ after
      → none_powers_off k.mode (before ++ ch ∷ []) ≡ true
      → letters ch ≡ c ∷ []
      → k.pos + k.len + length (text before) ≡ nbuf
      → Interrupt k chs overrun

Grown-trans :
    (k k' k'' : Keyboard) (cs ds : List ℕ)
    → Grown k k' cs
    → Grown k' k'' ds
    → Grown k k'' (cs ++ ds)
Grown-trans k k' k'' cs ds g h = record {
  typed = h.typed;
  queue = h.queue ∙ ap (λ q. q ++ ds) g.queue ∙ append_assoc (queued k) cs ds;
  mode = h.mode ∙ g.mode;
  reach = omega (arith, h.reach, g.reach, length-append cs ds);
}

-- One more key at the front, which the machine does not go off at.
quiet_cons :
    (m n : Mode) (ch : ℕ) (chs : List ℕ)
    → n ≡ m
    → powers_off m ch ≡ false
    → none_powers_off n chs ≡ true
    → none_powers_off m (ch ∷ chs) ≡ true
unfolding none_powers_off
quiet_cons m n ch chs same on h = rw on (ap (λ m. none_powers_off m chs) (sym same) ∙ h)

Interrupt-after :
    (k k' : Keyboard) (ch : ℕ) (chs : List ℕ) (h : Handled)
    → Grown k k' (letters ch)
    → powers_off k.mode ch ≡ false
    → Interrupt k' chs h
    → Interrupt k (ch ∷ chs) h
unfolding text
Interrupt-after k k' ch chs (handled k'') g on (goes_on l quiet i) =
    goes_on k'' (quiet_cons k.mode k'.mode ch chs g.mode on quiet)
      (Grown-trans k k' k'' (letters ch) (text chs) g i)
Interrupt-after k k' ch chs off g on (goes_off before after c e quiet go room) =
    goes_off (ch ∷ before) after c (ap (◌∷◌ ch) e)
      (quiet_cons k.mode k'.mode ch before g.mode on quiet)
      (ap (λ m. powers_off m c) (sym g.mode) ∙ go)
      (omega (arith, room, g.reach, length-append (letters ch) (text before)))
Interrupt-after k k' ch chs overrun g on (goes_over before after c d e quiet l full) =
    goes_over (ch ∷ before) after c d (ap (◌∷◌ ch) e)
      (quiet_cons k.mode k'.mode ch (before ++ c ∷ []) g.mode on quiet) l
      (omega (arith, full, g.reach, length-append (letters ch) (text before)))

go_on-Interrupt :
    (k : Keyboard) (ch : ℕ) (chs : List ℕ) (q : Keys) (rest : Keyboard → Keys × Handled)
    (h : Handled)
    → Typed k
    → ((k' : Keyboard) → Typed k' → Interrupt k' chs (rest k').1)
    → Key k ch h
    → Interrupt k (ch ∷ chs) (go_on q rest h).1
unfolding none_powers_off text
go_on-Interrupt k ch chs q rest h t r (ignored w on) =
    Interrupt-after k k ch chs (rest k).1 (subst (Grown k k) (sym w) (unchanged k t)) on (r k t)
go_on-Interrupt k ch chs q rest h t r (switched_off w) =
    goes_off [] chs ch refl refl w (omega (arith, t.within))
go_on-Interrupt k ch chs q rest h t r (queues k' c e on p g) =
    Interrupt-after k k' ch chs (rest k').1 (subst (Grown k k') (sym e) g) on (r k' g.typed)
go_on-Interrupt k ch chs q rest h t r (runs_over c l on e) =
    goes_over [] chs ch c refl (rw on refl) l (omega (arith, e))

-- While at most `nbuf` characters have been typed in all, before the interrupt, it handles the keys that its
-- bytes stand for in their order. When none of them powers the
-- machine off and there is room, it appends exactly their characters to the queue. It powers the machine
-- off only at a key that does so, and then no key before it did. It writes behind the buffer only when
-- the characters of the keys so far fill the buffer to its end, counted from the last one that was ever
-- typed, and one more comes.
pub handle_interrupt-Interrupt :
    (q : Keys) (k : Keyboard) (bytes : List ℕ)
    → Typed k
    → Interrupt k (keys q bytes) (handle_interrupt q k bytes).1
unfolding handle_interrupt keys text none_powers_off
handle_interrupt-Interrupt q k [] t = goes_on k refl (unchanged k t)
handle_interrupt-Interrupt q k (byte ∷ bytes) t =
    let q' = (keyboard_readc q byte).0 in
    let ch = (keyboard_readc q byte).1 in
    go_on-Interrupt k ch (keys q' bytes) q' (λ k'. handle_interrupt q' k' bytes) (handle_char k ch)
      t (λ k' t'. handle_interrupt-Interrupt q' k' bytes t') (handle_char-Key k ch t)
