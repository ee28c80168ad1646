-- ===== src/Process.antt =====
-- kernel.hh, k-proc.cc and kernel.cc: `proc`, `ptable` and `true_ptable`, and the searches of the table.
-- A proc is named by the page that it stands in. The table of descriptors of a process is the one that
-- its `true_pid` names: its threads share it. A pointer that is null where C++ follows it is a fault,
-- `none`. What runs under `ptable_lock` is one step; the run queues and the queues of waiters are not
-- part of the state.
pub mod Family
pub mod Child
pub mod Slots
pub mod Reap
pub mod Fork
pub mod Exit
pub mod Waitpid
pub mod Threads
mod Tests
use pug_os.Prelude.{
  ℕ, zero, suc, ◌+◌, ◌-◌, ◌^◌, Bool, true, false, not, ◌&&◌, ◌||◌, Option, some, none, ◌==◌,
  if◌then◌else◌, update, List, [],
}
use pug_os.Files.{World}
pub use pug_os.Files.{nproc, e_nomem}
use pug_os.Files.Inv.{is_at}

-- The error codes of lib.hh, as a `pid_t` in the register of the result.
abbrev pub e_mfile : ℕ
e_mfile = 2 ^ 64 - 24

abbrev pub e_child : ℕ
e_child = 2 ^ 64 - 10

abbrev pub e_again : ℕ
e_again = 2 ^ 64 - 11

-- `proc::state_t`
pub data State : Type 0 where
  blank runnable blocked broken : State

abbrev pub is_blank : State → Bool
is_blank blank = true
is_blank _ = false

abbrev pub is_blocked : State → Bool
is_blocked blocked = true
is_blocked _ = false

abbrev pub is_broken : State → Bool
is_broken broken = true
is_broken _ = false

-- `runnable` or `blocked`
abbrev pub is_active : State → Bool
is_active runnable = true
is_active blocked = true
is_active _ = false

-- `proc`, with whether its page is allocated.
pub record Proc : Type 0 where
  pub live : Bool
  pub pid : ℕ
  pub true_pid : ℕ
  pub ppid : ℕ
  pub state : State
  pub exit_status : ℕ
  pub interrupted : Bool
  pub exiting : Bool
  pub children : List ℕ

pub record Kernel : Type 0 where
  pub ptable : ℕ → Option ℕ
  pub true_ptable : ℕ → Option ℕ
  pub procs : ℕ → Proc
  pub files : World

-- `proc::proc`, in a page that held `old`: the constructor leaves `true_pid_`, `ppid_` and
-- `exit_status_` as they are.
abbrev pub new_proc : Proc → Proc
new_proc old = record old {
  live = true;
  pid = 0;
  state = blank;
  interrupted = false;
  exiting = false;
  children = [];
}

-- What `proc::init_user` sets, but for the registers.
abbrev pub init_user : ℕ → Proc → Proc
init_user i p = record p { pid = i; true_pid = i; state = runnable }

abbrev pub set_proc : Kernel → ℕ → Proc → Kernel
set_proc s a p = record s { procs = update s.procs a p }

-- `kfree(p)`
abbrev pub free_proc : Kernel → ℕ → Kernel
free_proc s a = set_proc s a (record (s.procs a) { live = false })

-- `!ptab[i] || ptab[i]->state_ == proc::blank`
pub unused : Kernel → Option ℕ → Bool
unused s none = true
unused s (some a) = is_blank (s.procs a).state

-- The first such entry from `i` on, of `n`.
unfoldable pub slot_from : Kernel → ℕ → ℕ → Option ℕ
unfolding unused
slot_from s zero i = none
slot_from s (suc n) i =
    let rest = slot_from s n (suc i) in if unused s (s.ptable i) then some i else rest

-- `get_proc_slot(ptable)`; −1 is `none`.
unfoldable pub get_proc_slot : Kernel → Option ℕ
get_proc_slot s = slot_from s (nproc - 1) 1

-- `ptable[i] && ptable[i]->true_pid_ == pid`, with a test of the state.
abbrev pub is_thread : (State → Bool) → Kernel → ℕ → Option ℕ → Bool
is_thread test s pid none = false
is_thread test s pid (some a) = ((s.procs a).true_pid == pid) && test (s.procs a).state

-- How many of the first `n` entries pass.
unfoldable pub count_threads : (State → Bool) → Kernel → ℕ → ℕ → ℕ
count_threads test s pid zero = 0
count_threads test s pid (suc n) =
    (if is_thread test s pid (s.ptable n) then 1 else 0) + count_threads test s pid n

-- `active_threads(p)`
unfoldable pub active_threads : Kernel → ℕ → ℕ
active_threads s a = count_threads is_active s (s.procs a).true_pid nproc
