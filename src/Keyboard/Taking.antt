-- ===== src/Keyboard/Taking.antt =====
-- k-vfs.cc: what a line is that `vnode_kbc::read` takes from the queue, and how it grows.
use pug_os.Prelude.{
  ℕ, zero, suc, ◌+◌, ◌-◌, ◌%◌, ◌/◌, ◌^◌, ◌<◌, ◌≡◌, refl, ap, ◌∙◌, ◌⊎◌, inl, inr, true, List, [],
  ◌∷◌, ◌++◌, some, arith, leb, ◌==◌, if◌then◌else◌, length, get_or, subst,
}
use pug_os.Keyboard.{Keyboard, Line, sizeof_buf, consume, write_int}
use pug_os.Keyboard.Queue.{window-cons, queued, Typed}

-- The characters before the first Ctrl-D, and at most `n`.
unfoldable pub until_eof : ℕ → List ℕ → List ℕ
until_eof zero xs = []
until_eof (suc n) [] = []
until_eof (suc n) (x ∷ xs) = let rest = until_eof n xs in if x == 4 then [] else x ∷ rest

abbrev pub final : List ℕ → ℕ
final [] = 0
final (x ∷ []) = x
final (x ∷ y ∷ ys) = final (y ∷ ys)

-- The line is in the memory of the process, one byte for each character, and the queue goes on behind
-- it, or behind a Ctrl-D that made the line empty. The byte after the line is written as well.
pub record Taken (k : Keyboard) (mem : ℕ → ℕ) (addr n : ℕ) (cs : List ℕ) (l : Line) : Type 0 where
  pub count : l.count ≡ n + length cs
  pub bytes : (i : ℕ) → i < length cs → l.memory (addr + i) ≡ get_or cs i 0 % 256
  pub below : (j : ℕ) → j < addr → l.memory j ≡ mem j
  pub spill : 0 < length cs → l.memory (addr + length cs) ≡ final cs / 256 % 256
  pub same : length cs ≡ 0 → l.memory ≡ mem
  pub typed : Typed l.keyboard
  pub left :
      (queued k ≡ cs ++ queued l.keyboard) ⊎ ((l.count ≡ 0) × (queued k ≡ 4 ∷ queued l.keyboard))

pub next : Keyboard → Keyboard
next k = record k { pos = k.pos + 1; len = k.len - 1; eol = k.eol - 1 }

pub consume-next : (k : Keyboard) → Typed k → 0 < k.len → consume k 1 ≡ some (next k)
unfolding consume next
consume-next k t p =
    let a : leb 1 k.len ≡ true = ground (arith, p) in
    let b : (k.pos + 1) % sizeof_buf ≡ k.pos + 1 = omega (arith, t.within) in
    let c : (k.eol + 2 ^ 32 - 1) % 2 ^ 32 ≡ k.eol - 1 = omega (arith, t.at_end, t.within, p) in
    rw (a, b, c) refl

pub next-Typed : (k : Keyboard) → Typed k → 0 < k.len → Typed (next k)
unfolding next
next-Typed k t p = record {
  storage = t.storage;
  within = omega (arith, t.within, p);
  at_end = omega (arith, t.at_end);
}

pub next-queued : (k : Keyboard) → 0 < k.len → queued k ≡ get_or k.buf k.pos 0 ∷ queued (next k)
unfolding next
next-queued k p = window-cons k.buf k.pos k.len p

pub stop_here :
    (k : Keyboard) (mem : ℕ → ℕ) (addr n : ℕ)
    → Typed k
    → Taken k mem addr n [] (record { count = n; memory = mem; keyboard = k })
stop_here k mem addr n t = record {
  count = omega arith;
  bytes = λ i h. elim h [ ];
  below = λ j h. refl;
  spill = λ h. elim h [ ];
  same = λ h. refl;
  typed = t;
  left = inl refl;
}

write_int-byte : (mem : ℕ → ℕ) (a x : ℕ) → write_int mem a x a ≡ x % 256
unfolding write_int
write_int-byte mem a x = ground arith

write_int-spill : (mem : ℕ → ℕ) (a x : ℕ) → write_int mem a x (a + 1) ≡ x / 256 % 256
unfolding write_int
write_int-spill mem a x = ground arith

write_int-below : (mem : ℕ → ℕ) (a x j : ℕ) → j < a → write_int mem a x j ≡ mem j
unfolding write_int
write_int-below mem a x j h = ground (arith, h)

-- One character more in front.
module _ (k : Keyboard) (mem : ℕ → ℕ) (addr n : ℕ) (cs : List ℕ) (l : Line) (p : 0 < k.len)
    (t : Taken (next k) (write_int mem addr (get_or k.buf k.pos 0)) (addr + 1) (n + 1) cs l) where
  abbrev pub ch : ℕ
  ch = get_or k.buf k.pos 0

  bytes-cons : (i : ℕ) → i < length (ch ∷ cs) → l.memory (addr + i) ≡ get_or (ch ∷ cs) i 0 % 256
  bytes-cons zero h =
      let e : addr + 0 ≡ addr = omega arith in
      rw e (t.below addr (omega arith) ∙ write_int-byte mem addr ch)
  bytes-cons (suc i) h =
      let e : addr + suc i ≡ addr + 1 + i = omega arith in rw e (t.bytes i (omega (arith, h)))

  spill-cons :
      (cs' : List ℕ) → cs ≡ cs' → l.memory (addr + length (ch ∷ cs')) ≡ final (ch ∷ cs') / 256 % 256
  spill-cons [] e = ap (λ m. m (addr + 1)) (t.same (ap length e)) ∙ write_int-spill mem addr ch
  spill-cons (c ∷ cs') e =
      let f : addr + length (ch ∷ c ∷ cs') ≡ addr + 1 + length (c ∷ cs') = omega arith in
      rw f (
        subst (λ xs. 0 < length xs → l.memory (addr + 1 + length xs) ≡ final xs / 256 % 256) e
          t.spill (omega arith))

  pub Taken-cons : Taken k mem addr n (ch ∷ cs) l
  Taken-cons = record {
    count = omega (arith, t.count);
    bytes = bytes-cons;
    below = λ j h. t.below j (omega (arith, h)) ∙ write_int-below mem addr ch j h;
    spill = λ h. spill-cons cs refl;
    same = λ h. absurd (omega (arith, h));
    typed = t.typed;
    left = elim t.left [
      | inl e ↦ inl (next-queued k p ∙ ap (λ q. ch ∷ q) e)
      | inr (e, f) ↦ absurd (omega (arith, e, t.count))
    ];
  }
