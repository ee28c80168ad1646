-- ===== src/Files/Seek/Sought.antt =====
-- kernel.cc: where `lseek` leaves the offset of a file.
use pug_os.Prelude.{
  ℕ, ◌+◌, ◌-◌, ◌*◌, ◌%◌, ◌^◌, ◌<◌, ◌≡◌, refl, ◌∙◌, true, some, arith, ltb, if◌then◌else◌,
}
use pug_os.Files.{World, nfds, nproc, int_arg, lookup_fd}
use pug_os.Files.Inv.{Inv, file_count-update}
use pug_os.Files.Deref.{file_live}
use pug_os.Files.Seek.{
  is_normie, negative, add_signed, clamp, moved_to, size_of, move_by, move_from_end, seek, seek_on,
  sys_lseek,
}

moved_to-Inv : (w : World) (f at : ℕ) → Inv w → Inv (moved_to w f at)
moved_to-Inv w f at inv = record {
  counted = λ g l. ground (arith, inv.counted g);
  dead = λ g l. ground (arith, inv.dead g);
  unused_file = λ g h. ground (arith, inv.unused_file g);
  has_vnode = λ g h. ground (arith, inv.has_vnode g);
  alive = λ v h. ground (
    arith,
    inv.alive v,
    file_count-update w.next_file w.files f v (record (w.files f) { off = at }),
  );
  holds = λ v. ground (
    arith,
    inv.holds v,
    file_count-update w.next_file w.files f v (record (w.files f) { off = at }),
  );
  unused_vnode = inv.unused_vnode;
}

-- The offset `off` from `base`, not below 0.
abbrev pub target : ℕ → ℕ → ℕ
target base off = if negative off then base - (2 ^ 64 - off) else base + off

-- The base that the origin names.
pub data Base (w : World) (f : ℕ) : ℕ → ℕ → Type 0 where
  from_start : Base w f 0 0
  from_here : Base w f 1 (w.files f).off
  from_end :
      (v : ℕ) → (w.files f).vnode ≡ some v → (w.vnodes v).live ≡ true → Base w f 2 (w.vnodes v).size

add_signed-target :
    (base off : ℕ)
    → base < 2 ^ 63
    → off < 2 ^ 64
    → target base off < 2 ^ 63
    → (sum : ℕ) × (add_signed base off ≡ some sum) × (clamp sum ≡ target base off)
unfolding add_signed
add_signed-target base off a b c =
    ((base + off) % 2 ^ 64, ground (arith, a, b, c), ground (arith, a, b, c))

move_by-target :
    (w : World) (f base off : ℕ)
    → base < 2 ^ 63
    → off < 2 ^ 64
    → target base off < 2 ^ 63
    → move_by w f base off ≡ some (moved_to w f (target base off), target base off)
unfolding move_by
move_by-target w f base off a b c =
    let (sum, e, t) = add_signed-target base off a b c in rw (e, t) refl

move_from_end-move_by :
    (w : World) (f v off : ℕ)
    → (w.files f).vnode ≡ some v
    → (w.vnodes v).live ≡ true
    → move_from_end w f off ≡ move_by w f (w.vnodes v).size off
unfolding move_from_end size_of
move_from_end-move_by w f v off d l = simp (d, l)

seek-target :
    (w : World) (f base off origin : ℕ)
    → is_normie (w.files f).kind ≡ true
    → Base w f origin base
    → base < 2 ^ 63
    → off < 2 ^ 64
    → target base off < 2 ^ 63
    → seek w f off origin ≡ some (moved_to w f (target base off), target base off)
unfolding seek
seek-target w f base off origin n from_start a b c =
    let t : clamp off ≡ target 0 off = ground (arith, b) in rw (seek, n, t) refl
seek-target w f base off origin n from_here a b c =
    rw (seek, n) (move_by-target w f (w.files f).off off a b c)
seek-target w f base off origin n (from_end v d l) a b c =
    rw (seek, n)
      (move_from_end-move_by w f v off d l ∙ move_by-target w f (w.vnodes v).size off a b c)

sys_lseek-seek :
    (w : World) (p fd f off origin : ℕ)
    → int_arg fd < nfds
    → w.slots (p * nfds + int_arg fd) ≡ some f
    → (w.files f).live ≡ true
    → sys_lseek w p fd off origin ≡ seek w f off (int_arg origin)
unfolding sys_lseek lookup_fd seek_on
sys_lseek-seek w p fd f off origin b e l =
    let here : ltb (int_arg fd) nfds ≡ true = ground (arith, b) in simp (here, e, l)

-- `lseek` on a descriptor of a regular file, from the start, the offset or the end of the file, moves the
-- offset by the signed distance, to 0 when that is below 0, answers with it, and leaves the reference
-- counts in order. The base and the new offset have to be below 2^63.
pub sys_lseek-target :
    (w : World)
    → Inv w
    → (p fd f base off origin : ℕ) → p < nproc
    → int_arg fd < nfds
    → w.slots (p * nfds + int_arg fd) ≡ some f
    → is_normie (w.files f).kind ≡ true
    → Base w f (int_arg origin) base
    → base < 2 ^ 63
    → off < 2 ^ 64
    → target base off < 2 ^ 63
    → (sys_lseek w p fd off origin ≡ some (moved_to w f (target base off), target base off))
      × Inv (moved_to w f (target base off))
sys_lseek-target w inv p fd f base off origin a b e n o c d g =
    let live = file_live w inv (p * nfds + int_arg fd) f (omega arith) e in
    (
      sys_lseek-seek w p fd f off origin b e live
          ∙ seek-target w f base off (int_arg origin) n o c d g,
      moved_to-Inv w f (target base off) inv,
    )
