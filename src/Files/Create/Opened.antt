-- ===== src/Files/Create/Opened.antt =====
-- kernel.cc: what `open` and `pipe` do to the table.
use pug_os.Prelude.{
  ℕ, ◌+◌, ◌*◌, ◌^◌, ◌<◌, ◌≡◌, ◌≢◌, refl, ◌⊎◌, inl, inr, Bool, true, false, some, none, arith,
  update,
}
use pug_os.Files.{World, File, Vnode, nslots, nfds, nproc, e_nfile, delete_file, drop_vnode_of}
use pug_os.Files.Inv.{Inv}
use pug_os.Files.Create.{
  attach, add_vnode, drop_new, inode_vnode, open_file, open_at, open_fd, pipe_vnode, pipe_end,
  pipe_at, sys_pipe,
}
use pug_os.Files.Create.Fill.{fresh_vnode, add_vnode-Inv, attach-count, attach-Inv}
use pug_os.Files.Create.Search.{First, Full, free_fd-First, FirstTwo, AtMostOne, pipe_fds-FirstTwo}

slot_lt : (p fd : ℕ) → p < nproc → fd < nfds → p * nfds + fd < nslots
slot_lt p fd a b = omega arith

-- The call answers `fd`: its slot, and no other, has the new file, which is on the new vnode.
pub record Opened (w w' : World) (p fd : ℕ) (x : File) (v : Vnode) : Type 0 where
  pub inv : Inv w'
  pub slots : w'.slots ≡ update w.slots (p * nfds + fd) (some w.next_file)
  pub files : w'.files ≡ update w.files w.next_file x
  pub vnodes : w'.vnodes ≡ update w.vnodes w.next_vnode v

drop_new_faults : (w : World) → drop_new w true ≡ none
unfolding drop_new delete_file drop_vnode_of
drop_new_faults w = ground arith

open_full :
    (w : World) (p : ℕ) (rd wr : Bool) (size : ℕ) (got : Bool)
    → open_at w p none rd wr size true got ≡ none
unfolding open_at
open_full w p rd wr size got = rw (drop_new_faults w) refl

-- The first file on a new vnode.
pub attach_fresh :
    (w : World)
    → Inv w
    → (i : ℕ) (v : Vnode) (x : File) → i < nslots
    → w.slots i ≡ none
    → v.live ≡ true
    → 0 < v.refs
    → x.live ≡ true
    → x.refs ≡ 1
    → x.vnode ≡ some w.next_vnode
    → Inv (attach (add_vnode w v) i x)
attach_fresh w inv i v x p e l r m n d =
    attach-Inv (add_vnode w v) (add_vnode-Inv w v inv l) i w.next_vnode x p e m n d
      (ground (arith, l)) (ground (arith, r, fresh_vnode w inv))

-- With memory for its objects and an empty slot in the table, `open` answers with the lowest descriptor
-- that is not in use and leaves the reference counts in order. When no slot is empty and the file was
-- allocated, it uses the vnode of that file before it is set.
pub open_fd-Opened :
    (w : World)
    → Inv w
    → (p : ℕ) → p < nproc
    → (rd wr : Bool) (size : ℕ) (got_vnode : Bool)
    → (Full w.slots (p * nfds) nfds 0 × (open_fd w p rd wr size true got_vnode ≡ none))
      ⊎ ((fd : ℕ) × (w' : World) × First w.slots (p * nfds) nfds 0 fd
          × (open_fd w p rd wr size true true ≡ some (w', fd))
          × Opened w w' p fd (open_file rd wr w.next_vnode) (inode_vnode size))
unfolding open_fd open_at
open_fd-Opened w inv p a rd wr size got = elim (free_fd-First w.slots (p * nfds) nfds 0) [
  | inl (e, full) ↦ inl (full, rw (e) (open_full w p rd wr size got))
  | inr (fd, e, first) ↦
      let file = open_file rd wr w.next_vnode in
      let v = inode_vnode size in
      inr (
        fd,
        attach (add_vnode w v) (p * nfds + fd) file,
        first,
        rw (e) refl,
        record {
          inv =
              attach_fresh w inv (p * nfds + fd) v file (slot_lt p fd a first.upper) first.empty
                refl (omega arith) refl refl refl;
          slots = refl;
          files = refl;
          vnodes = refl;
        },
      )
]

-- Both ends of a pipe are in the table, on one new vnode, and the reference counts are in order.
pub record Piped (w w' : World) (p r s : ℕ) : Type 0 where
  pub inv : Inv w'
  pub slots :
      w'.slots
      ≡ update
          (update w.slots (p * nfds + r) (some w.next_file))
          (p * nfds + s)
          (some (w.next_file + 1))
  pub files :
      w'.files
      ≡ update
          (update w.files w.next_file (pipe_end true w.next_vnode))
          (w.next_file + 1)
          (pipe_end false w.next_vnode)
  pub vnodes : w'.vnodes ≡ update w.vnodes w.next_vnode pipe_vnode

pub attach-attach-Inv :
    (w : World)
    → Inv w
    → (i j : ℕ) → i < nslots
    → j < nslots
    → i ≢ j
    → w.slots i ≡ none
    → w.slots j ≡ none
    → Inv (
        attach
          (attach (add_vnode w pipe_vnode) i (pipe_end true w.next_vnode))
          j
          (pipe_end false w.next_vnode))
attach-attach-Inv w inv i j a b n c d =
    let x = add_vnode w pipe_vnode in
    let inv' =
      attach_fresh w inv i pipe_vnode (pipe_end true w.next_vnode) a c refl (omega arith) refl refl
        refl in
    attach-Inv (attach x i (pipe_end true w.next_vnode)) inv' j w.next_vnode
      (pipe_end false w.next_vnode) b (ground (arith, n, d)) refl refl refl (ground arith)
      (ground (
        arith,
        attach-count x (add_vnode-Inv w pipe_vnode inv refl) i w.next_vnode
            (pipe_end true w.next_vnode) w.next_vnode refl refl,
        fresh_vnode w inv,
      ))

-- With memory for its objects, `pipe` refuses with E_NFILE and changes nothing when at most one slot of
-- the table is empty. Otherwise it fills the first two that are empty, with the read end in the first,
-- answers with both descriptors, and leaves the reference counts in order.
pub sys_pipe-Piped :
    (w : World)
    → Inv w
    → (p : ℕ) → p < nproc
    → (AtMostOne w.slots (p * nfds) nfds 0
        × (sys_pipe w p (record { rfile = true; wfile = true; vnode = true; buffer = true })
            ≡ some (w, e_nfile)))
      ⊎ ((r : ℕ) × (s : ℕ) × (w' : World) × FirstTwo w.slots (p * nfds) nfds 0 r s
          × (sys_pipe w p (record { rfile = true; wfile = true; vnode = true; buffer = true })
              ≡ some (w', r + s * 2 ^ 32))
          × Piped w w' p r s)
unfolding sys_pipe pipe_at
sys_pipe-Piped w inv p a = elim (pipe_fds-FirstTwo w.slots (p * nfds) nfds 0) [
  | inl (none, e, one) ↦ inl (one, rw (e) refl)
  | inl (some r, e, one) ↦ inl (one, rw (e) refl)
  | inr (r, s, e, two) ↦
      let w' =
        attach (attach (add_vnode w pipe_vnode) (p * nfds + r) (pipe_end true w.next_vnode))
          (p * nfds + s) (pipe_end false w.next_vnode) in
      inr (
        r,
        s,
        w',
        two,
        rw (e) refl,
        record {
          inv =
              attach-attach-Inv w inv (p * nfds + r) (p * nfds + s)
                (slot_lt p r a (omega (arith, two.order, two.upper))) (slot_lt p s a two.upper)
                (omega (arith, two.order)) two.empty_r two.empty_s;
          slots = refl;
          files = refl;
          vnodes = refl;
        },
      )
]
