-- ===== src/Keyboard/Reading.antt =====
-- k-vfs.cc: `vnode_kbc::read` as what it takes from the queue.
use pug_os.Prelude.{
  ℕ, zero, suc, ◌+◌, ◌<◌, ◌≡◌, refl, ap, ◌∙◌, inl, inr, true, false, List, [], ◌∷◌, some, arith,
  ltb, ◌==◌, if◌then◌else◌, get_or, Bool-cases, eq_cases,
}
use pug_os.Keyboard.{Keyboard, Line, nbuf, consume_eof, write_int, read_loop, read, started}
use pug_os.Keyboard.Queue.{window, queued, Typed}
use pug_os.Keyboard.Taking.{
  Taken-cons, until_eof, Taken, next, consume-next, next-Typed, next-queued, stop_here,
}

read_loop-stop :
    (wanted : ℕ) (k : Keyboard) (mem : ℕ → ℕ) (addr n : ℕ)
    → Typed k
    → k.len ≡ 0
    → (read_loop wanted k mem addr n ≡ some (record { count = n; memory = mem; keyboard = k }))
      × (until_eof wanted (queued k) ≡ [])
unfolding read_loop until_eof window
read_loop-stop zero k mem addr n t e = (refl, refl)
read_loop-stop (suc wanted) k mem addr n t e =
    let f : (k.eol == 0) ≡ true = ground (arith, t.at_end, e) in
    (rw (read_loop, f) refl, rw (e) refl)

-- The next character is one that the loop looks at.
module _ (wanted : ℕ) (k : Keyboard) (mem : ℕ → ℕ) (addr n : ℕ) (t : Typed k) (p : 0 < k.len) where
  some_left : (k.eol == 0) ≡ false
  some_left = ground (arith, t.at_end, p)

  in_buffer : ltb k.pos nbuf ≡ true
  in_buffer = ground (arith, t.within, p)

  read_loop-next :
      (get_or k.buf k.pos 0 == 4) ≡ false
      → read_loop (suc wanted) k mem addr n
        ≡ read_loop wanted (next k) (write_int mem addr (get_or k.buf k.pos 0)) (addr + 1) (n + 1)
  unfolding read_loop
  read_loop-next e = rw (read_loop, some_left, in_buffer, e, consume-next k t p) refl

  read_loop-eof :
      (get_or k.buf k.pos 0 == 4) ≡ true
      → read_loop (suc wanted) k mem addr n
        ≡ some (record { count = n; memory = mem; keyboard = if n == 0 then next k else k })
  unfolding read_loop consume_eof
  read_loop-eof e = elim (Bool-cases (n == 0)) [
    | inl z ↦ rw (read_loop, consume_eof, some_left, in_buffer, e, z, consume-next k t p) refl
    | inr z ↦ rw (read_loop, consume_eof, some_left, in_buffer, e, z) refl
  ]

until_eof-cons :
    (n x : ℕ) (xs : List ℕ) → (x == 4) ≡ false → until_eof (suc n) (x ∷ xs) ≡ x ∷ until_eof n xs
unfolding until_eof
until_eof-cons n x xs e = rw e refl

until_eof-eof : (n x : ℕ) (xs : List ℕ) → (x == 4) ≡ true → until_eof (suc n) (x ∷ xs) ≡ []
unfolding until_eof
until_eof-eof n x xs e = rw e refl

eof-Taken :
    (k : Keyboard) (mem : ℕ → ℕ) (addr n : ℕ)
    → Typed k
    → 0 < k.len
    → (get_or k.buf k.pos 0 == 4) ≡ true
    → Taken k mem addr n []
        (record { count = n; memory = mem; keyboard = if n == 0 then next k else k })
eof-Taken k mem addr zero t p e = record {
  count = omega arith;
  bytes = λ i h. elim h [ ];
  below = λ j h. refl;
  spill = λ h. elim h [ ];
  same = λ h. refl;
  typed = next-Typed k t p;
  left = inr (refl, next-queued k p ∙ ap (λ x. x ∷ queued (next k)) (ground (arith, e)));
}
eof-Taken k mem addr (suc n) t p e =
    let z : (suc n == 0) ≡ false = ground arith in rw z (stop_here k mem addr (suc n) t)

-- What the loop does with `wanted` characters to go.
abbrev LoopTakes : ℕ → Keyboard → (ℕ → ℕ) → ℕ → ℕ → Type 0
LoopTakes wanted k mem addr n =
    (l : Line) × (read_loop wanted k mem addr n ≡ some l)
    × Taken k mem addr n (until_eof wanted (queued k)) l

read_loop-Taken :
    (wanted : ℕ) (k : Keyboard) (mem : ℕ → ℕ) (addr n : ℕ) → Typed k → LoopTakes wanted k mem addr n
unfolding read_loop until_eof
read_loop-Taken zero k mem addr n t =
    (record { count = n; memory = mem; keyboard = k }, refl, stop_here k mem addr n t)
read_loop-Taken (suc wanted) k mem addr n t = elim (eq_cases k.len 0) [
  | inl e ↦
      let (r, u) = read_loop-stop (suc wanted) k mem addr n t e in
      (record { count = n; memory = mem; keyboard = k }, r, rw u (stop_here k mem addr n t))
  | inr ne ↦
      let p : 0 < k.len = omega (arith, ne) in
      elim (Bool-cases (get_or k.buf k.pos 0 == 4)) [
        | inl e ↦
            let u : until_eof (suc wanted) (queued k) ≡ [] =
              ap (until_eof (suc wanted)) (next-queued k p)
              ∙ until_eof-eof wanted (get_or k.buf k.pos 0) (queued (next k)) e in
            (
              record { count = n; memory = mem; keyboard = if n == 0 then next k else k },
              read_loop-eof wanted k mem addr n t p e,
              rw u (eof-Taken k mem addr n t p e),
            )
        | inr e ↦
            let ch = get_or k.buf k.pos 0 in
            let (l, r, d) =
              read_loop-Taken wanted (next k) (write_int mem addr ch) (addr + 1) (n + 1)
                (next-Typed k t p) in
            let u : until_eof (suc wanted) (queued k) ≡ ch ∷ until_eof wanted (queued (next k)) =
              ap (until_eof (suc wanted)) (next-queued k p)
              ∙ until_eof-cons wanted ch (queued (next k)) e in
            (
              l,
              read_loop-next wanted k mem addr n t p e ∙ r,
              rw u (Taken-cons k mem addr n (until_eof wanted (queued (next k))) l p d),
            )
      ]
]

-- While at most `nbuf` characters have been typed in all, `read` returns and takes the characters before
-- the first Ctrl-D, at most `sz`, out of the queue: the process gets the low byte of each and their
-- number. When there is at least one, the byte behind the last one is overwritten too.
pub read-Taken :
    (k : Keyboard) (mem : ℕ → ℕ) (addr sz : ℕ)
    → Typed k
    → (l : Line) × (read k mem addr sz ≡ some l)
      × Taken (record k { mode = started k.mode }) mem addr 0 (until_eof sz (queued k)) l
unfolding read
read-Taken k mem addr sz t =
    read_loop-Taken sz (record k { mode = started k.mode }) mem addr 0
      (record { storage = t.storage; within = t.within; at_end = t.at_end })
