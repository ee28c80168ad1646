-- ===== src/Files/Create.antt =====
-- kernel.cc: how `open` and `pipe` put new files into a table. What `open` does on the disk before,
-- and whether `knew` gets memory, are arguments.
pub mod Fill
pub mod Search
pub mod Opened
use pug_os.Prelude.{
  ℕ, zero, suc, ◌+◌, ◌-◌, ◌*◌, ◌^◌, ◌&&◌, Bool, true, false, Option, some, none, if◌then◌else◌,
  update, ◌>>=◌,
}
use pug_os.Files.{
  World, File, Vnode, Kind, normie, pipe, new_file, nfds, e_nfile, e_nomem, delete_file,
}

-- `x` in the slot, under the number that comes next.
abbrev pub attach : World → ℕ → File → World
attach w i x = record w {
  slots = update w.slots i (some w.next_file);
  files = update w.files w.next_file x;
  next_file = w.next_file + 1;
}

abbrev pub add_vnode : World → Vnode → World
add_vnode w v = record w { vnodes = update w.vnodes w.next_vnode v; next_vnode = w.next_vnode + 1 }

-- `kdelete` of a file that `knew` made, if it did, while its `vnode_` is not set.
pub drop_new : World → Bool → Option World
unfolding delete_file
drop_new w false = some w
drop_new w true =
    delete_file
      (record w { files = update w.files w.next_file new_file; next_file = w.next_file + 1 })
      w.next_file

-- The first empty slot, of `n` from `i` on, as a descriptor.
unfoldable pub free_fd : (ℕ → Option ℕ) → ℕ → ℕ → ℕ → Option ℕ
free_fd slots base zero fd = none
free_fd slots base (suc n) fd = elim (slots (base + fd)) [
  | none ↦ some fd
  | some f ↦ free_fd slots base n (fd + 1)
]

-- `vnode_inode`, with the size that the inode has when the call ends.
abbrev pub inode_vnode : ℕ → Vnode
inode_vnode size = record {
  live = true;
  refs = 1;
  has_buffer = false;
  read_closed = false;
  write_closed = false;
  size = size;
}

abbrev pub open_file : Bool → Bool → ℕ → File
open_file readable writeable v = record new_file {
  readable = readable;
  writeable = writeable;
  kind = normie;
  vnode = some v;
}

pub open_at : World → ℕ → Option ℕ → Bool → Bool → ℕ → Bool → Bool → Option (World × ℕ)
unfolding drop_new
open_at w p (some fd) rd wr size true true =
    some
      (attach (add_vnode w (inode_vnode size)) (p * nfds + fd) (open_file rd wr w.next_vnode), fd)
open_at w p (some fd) rd wr size got_file got_vnode = do
  w' ← drop_new w got_file
  some (w', e_nomem)
open_at w p none rd wr size got_file got_vnode = do w' ← drop_new w got_file; some (w', e_nfile)

-- SYSCALL_OPEN, from the search for a descriptor on.
pub open_fd : World → ℕ → Bool → Bool → ℕ → Bool → Bool → Option (World × ℕ)
unfolding open_at free_fd
open_fd w p rd wr size got_file got_vnode =
    open_at w p (free_fd w.slots (p * nfds) nfds 0) rd wr size got_file got_vnode

-- The loop of SYSCALL_PIPE, with `rfd` as it is before entry `i`.
pub pipe_fds : (ℕ → Option ℕ) → ℕ → ℕ → ℕ → Option ℕ → Option ℕ × Option ℕ
pipe_fds slots base zero i rfd = (rfd, none)
pipe_fds slots base (suc n) i rfd = elim (slots (base + i)) [
  | some f ↦ pipe_fds slots base n (i + 1) rfd
  | none ↦ elim rfd [ none ↦ pipe_fds slots base n (i + 1) (some i) | some r ↦ (some r, some i) ]
]

-- `vnode_pipe`, with its buffer and the two references that the call sets.
abbrev pub pipe_vnode : Vnode
pipe_vnode = record {
  live = true;
  refs = 2;
  has_buffer = true;
  read_closed = false;
  write_closed = false;
  size = 2 ^ 64 - 1;
}

abbrev pub pipe_end : Bool → ℕ → File
pipe_end reads v = record new_file {
  kind = pipe;
  readable = reads;
  writeable = if reads then false else true;
  vnode = some v;
}

-- What `knew` got: the two files, the vnode, the buffer.
pub record Got : Type 0 where
  pub rfile : Bool
  pub wfile : Bool
  pub vnode : Bool
  pub buffer : Bool

abandon_pipe : World → Got → Option (World × ℕ)
unfolding drop_new
abandon_pipe w got = do w' ← drop_new w got.rfile; w'' ← drop_new w' got.wfile; some (w'', e_nomem)

pub pipe_at : World → ℕ → Option ℕ × Option ℕ → Got → Option (World × ℕ)
unfolding abandon_pipe
pipe_at w p (some r, some s) got =
    let w' = attach (add_vnode w pipe_vnode) (p * nfds + r) (pipe_end true w.next_vnode) in
    if got.rfile && got.wfile && got.vnode && got.buffer
    then some (attach w' (p * nfds + s) (pipe_end false w.next_vnode), r + s * 2 ^ 32)
    else abandon_pipe w got
pipe_at w p fds got = some (w, e_nfile)

-- SYSCALL_PIPE
pub sys_pipe : World → ℕ → Got → Option (World × ℕ)
unfolding pipe_at pipe_fds
sys_pipe w p got = pipe_at w p (pipe_fds w.slots (p * nfds) nfds 0 none) got
