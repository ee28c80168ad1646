-- ===== src/Files.antt =====
-- k-vfs.hh and k-vfs.cc: `file`, `vnode` and `fdtable`; kernel.cc: the system calls that change them.
-- The table entry `fd` of the process `p` is the slot `p * nfds + fd`, files and vnodes are named by
-- numbers, and a freed object is one that is not `live`: to touch it faults, `none`. Each call runs
-- under the lock of the table, so it is one step.
pub mod Inv
pub mod Deref
pub mod Calls
pub mod Create
pub mod Seek
pub mod Tables
pub mod Tests
use pug_os.Prelude.{
  ℕ, zero, suc, ◌+◌, ◌-◌, ◌*◌, ◌%◌, ◌^◌, Bool, true, false, not, ◌&&◌, ◌||◌, Option, some, none,
  ltb, leb, ◌==◌, if◌then◌else◌, update, ◌>>=◌, ◌>>◌, check, max,
}

-- NFDS, NPROC
abbrev pub nfds : ℕ
nfds = 256

abbrev pub nproc : ℕ
nproc = 16

abbrev pub nslots : ℕ
nslots = nproc * nfds

-- The error codes of lib.hh, as a `uintptr_t`.
abbrev pub e_badf : ℕ
e_badf = 2 ^ 64 - 9

abbrev pub e_nfile : ℕ
e_nfile = 2 ^ 64 - 23

abbrev pub e_nomem : ℕ
e_nomem = 2 ^ 64 - 12

-- `file::type_t`
pub data Kind : Type 0 where
  normie pipe directory stream : Kind

abbrev pub is_pipe : Kind → Bool
is_pipe pipe = true
is_pipe _ = false

-- `file`; a vnode pointer that is not set yet is `none`.
pub record File : Type 0 where
  pub live : Bool
  pub kind : Kind
  pub readable : Bool
  pub writeable : Bool
  pub vnode : Option ℕ
  pub refs : ℕ
  pub off : ℕ

-- `vnode`, with the two flags of its `bbuffer`, if it has one, and what `size()` returns.
pub record Vnode : Type 0 where
  pub live : Bool
  pub refs : ℕ
  pub has_buffer : Bool
  pub read_closed : Bool
  pub write_closed : Bool
  pub size : ℕ

pub record World : Type 0 where
  pub slots : ℕ → Option ℕ
  pub files : ℕ → File
  pub vnodes : ℕ → Vnode
  pub next_file : ℕ
  pub next_vnode : ℕ

-- `file::file()`; the fields that it leaves open are given values here that the calls overwrite, but for
-- `vnode`, which is not to be used before it is set.
abbrev pub new_file : File
new_file = record {
  live = true;
  kind = normie;
  readable = false;
  writeable = false;
  vnode = none;
  refs = 1;
  off = 0;
}

-- `file::~file` on its vnode: one reference less, the ends of a pipe that the file held are closed, and
-- the vnode is freed with its last reference.
pub drop_vnode : Vnode → File → Vnode
drop_vnode v f =
    let closes = is_pipe f.kind && v.has_buffer in
    record v {
      refs = v.refs - 1;
      read_closed = v.read_closed || (closes && f.readable);
      write_closed = v.write_closed || (closes && f.writeable);
      live = not (v.refs - 1 == 0);
    }

pub drop_vnode_of : World → ℕ → Option ℕ → Option World
unfolding drop_vnode
drop_vnode_of w f none = none
drop_vnode_of w f (some v) = do
  check (w.vnodes v).live
  check (ltb 0 (w.vnodes v).refs)
  some (record w { vnodes = update w.vnodes v (drop_vnode (w.vnodes v) (w.files f)) })

-- `kdelete(f)` of a file: the destructor, then the memory.
pub delete_file : World → ℕ → Option World
unfolding drop_vnode_of
delete_file w f = do
  w' ← drop_vnode_of w f (w.files f).vnode
  some (record w' { files = update w'.files f (record (w'.files f) { live = false }) })

-- `file::deref`
pub deref : World → ℕ → Option World
unfolding delete_file
deref w f = do
  let file = w.files f
  check file.live
  check (ltb 0 file.refs)
  let lowered = record w { files = update w.files f (record file { refs = file.refs - 1 }) }
  if file.refs - 1 == 0 then delete_file lowered f else some lowered

-- An `int` argument, from its register: negative numbers come out above every descriptor.
abbrev pub int_arg : ℕ → ℕ
int_arg reg = reg % 2 ^ 32

-- `fds_[fd]`, or `none` for the tests that the calls answer with E_BADF.
pub lookup_fd : World → ℕ → ℕ → Option ℕ
lookup_fd w p fd = if ltb fd nfds then w.slots (p * nfds + fd) else none

close_file : World → ℕ → ℕ → Option ℕ → Option (World × ℕ)
unfolding deref
close_file w p fd none = some (w, e_badf)
close_file w p fd (some f) = do
  w' ← deref w f
  some (record w' { slots = update w'.slots (p * nfds + fd) none }, 0)

-- SYSCALL_CLOSE
pub sys_close : World → ℕ → ℕ → Option (World × ℕ)
unfolding close_file lookup_fd
sys_close w p reg = close_file w p (int_arg reg) (lookup_fd w p (int_arg reg))

drop_old : World → Option ℕ → Option World
unfolding deref
drop_old w none = some w
drop_old w (some f) = deref w f

-- `fds_[slot] = f; f->refs_++`
pub share : World → ℕ → ℕ → Option World
share w slot f = do
  check (w.files f).live
  some (record w {
    slots = update w.slots slot (some f);
    files = update w.files f (record (w.files f) { refs = (w.files f).refs + 1 });
  })

replace_fd : World → ℕ → ℕ → Option (World × ℕ)
unfolding drop_old share
replace_fd w slot f = do w' ← drop_old w (w.slots slot); w'' ← share w' slot f; some (w'', 0)

dup_file : World → ℕ → ℕ → Option ℕ → Option (World × ℕ)
unfolding replace_fd
dup_file w p newfd none = some (w, e_badf)
dup_file w p newfd (some f) =
    if ltb newfd nfds then replace_fd w (p * nfds + newfd) f else some (w, e_badf)

-- SYSCALL_DUP2
pub sys_dup2 : World → ℕ → ℕ → ℕ → Option (World × ℕ)
unfolding dup_file lookup_fd
sys_dup2 w p old_reg new_reg = dup_file w p (int_arg new_reg) (lookup_fd w p (int_arg old_reg))
