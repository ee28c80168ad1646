-- ===== src/Process/Waitpid.antt =====
-- kernel.cc: the system call `waitpid`.
mod Threads
pub mod Answer
use pug_os.Prelude.{
  ℕ, zero, suc, ◌+◌, Bool, true, false, not, ◌&&◌, ◌||◌, Option, some, none, ◌==◌, ltb,
  if◌then◌else◌, List, [], ◌∷◌, ◌>>=◌, ◌>>◌, check,
}
use pug_os.Process.{Kernel, Proc, nproc, is_broken, is_thread, count_threads, e_child, e_again}
use pug_os.Process.Reap.{process_reap}

-- The locals of the call: `to_reap` and `exit_status`, with the kernel that they are about.
pub record Waiting : Type 0 where
  pub kernel : Kernel
  pub to_reap : ℕ
  pub exit_status : ℕ

-- What the rest of the machine makes of the state while the call has dropped ptable_lock, before and
-- after the `process_reap` of the proc with a pid.
pub record Gaps : Type 0 where
  pub before : ℕ → Kernel → Kernel
  pub after : ℕ → Kernel → Kernel

-- Nothing else runs.
abbrev pub still : Gaps
still = record { before = λ i s. s; after = λ i s. s }

-- One proc is reaped; a status of 0 does not replace another.
abbrev pub took : Gaps → ℕ → Waiting → ℕ → Kernel × ℕ → Waiting
took g i v pid (s, status) = record {
  kernel = g.after i s;
  to_reap = pid;
  exit_status = if status == 0 then v.exit_status else status;
}

-- The first child on the list that has ended.
unfoldable pub first_broken : Kernel → List ℕ → Option ℕ
first_broken s [] = none
first_broken s (c ∷ cs) =
    let rest = first_broken s cs in if is_broken (s.procs c).state then some c else rest

reap_child : Gaps → Waiting → Option ℕ → Option Waiting
reap_child g v none = some v
reap_child g v (some c) =
    let i = (v.kernel.procs c).pid in
    let s = g.before i v.kernel in
    process_reap s (s.procs c).pid >>= λ x. some (took g i v (v.kernel.procs c).true_pid x)

-- "wait for any child"
unfoldable pub reap_any : Gaps → Waiting → ℕ → Option Waiting
unfolding reap_child
reap_any g v me = reap_child g v (first_broken v.kernel (v.kernel.procs me).children)

unfoldable pub reap_entry : Gaps → Waiting → ℕ → ℕ → Bool → Option Waiting
reap_entry g v child i false = some v
reap_entry g v child i true =
    process_reap (g.before i v.kernel) i >>= λ x. some (took g i v child x)

-- "wait for a child (child_pid)": the entries from `i` on, of which there are `n`.
unfoldable pub reap_threads : Gaps → Waiting → ℕ → ℕ → ℕ → Option Waiting
reap_threads g v child zero i = some v
reap_threads g v child (suc n) i =
    reap_entry g v child i (is_thread is_broken v.kernel child (v.kernel.ptable i)) >>= λ v'.
    reap_threads g v' child n (suc i)

abbrev pub wait_round : Gaps → Waiting → ℕ → ℕ → Option Waiting
wait_round g v me child = if child == 0 then reap_any g v me else reap_threads g v child nproc 0

unfoldable pub no_threads_left : Kernel → ℕ → Bool
no_threads_left s child = count_threads (λ x. true) s child nproc == 0

-- The loop; `others n s` is what the rest of the machine makes of `s` while the call is blocked with
-- `n` rounds left, and `gaps n` what it does within that round.
unfoldable pub wait_loop :
    (ℕ → Kernel → Kernel) → (ℕ → Gaps) → ℕ → Waiting → ℕ → ℕ → Bool → Option Waiting
wait_loop others gaps zero v me child nohang = none
wait_loop others gaps (suc n) v me child nohang = wait_round (gaps n) v me child >>= λ v'.
    let rest =
      wait_loop others gaps n (record v' { kernel = others n v'.kernel }) me child nohang in
    if (not (v'.to_reap == 0) && no_threads_left v'.kernel child) || nohang then some v' else rest

parent_of : Kernel → Option ℕ → ℕ
parent_of s none = 0
parent_of s (some c) = (s.procs c).ppid

abbrev pub is_empty : List ℕ → Bool
is_empty [] = true
is_empty (x ∷ xs) = false

-- The answers with E_CHILD: the process is not the child's parent, or has no children.
unfoldable pub no_child : Kernel → ℕ → ℕ → Bool
unfolding parent_of
no_child s me child =
    if child == 0
    then is_empty (s.procs me).children
    else not ((s.procs me).pid == parent_of s (s.ptable child))

-- The kernel, the result, and the status in `%ecx`.
abbrev pub answer : Bool → Waiting → Kernel × ℕ × ℕ
answer nohang v =
    if (v.to_reap == 0) && nohang
    then (v.kernel, e_again, 0)
    else (v.kernel, v.to_reap, v.exit_status)

abbrev pub start : Kernel → Waiting
start s = record { kernel = s; to_reap = 0; exit_status = 0 }

-- SYSCALL_WAITPID
unfoldable pub sys_waitpid :
    (ℕ → Kernel → Kernel) → (ℕ → Gaps) → ℕ → Kernel → ℕ → ℕ → Bool → Option (Kernel × ℕ × ℕ)
sys_waitpid others gaps fuel s me child nohang = do
  check (ltb child nproc)
  (if no_child s me child
      then some (s, e_child, 0)
      else (wait_loop others gaps fuel (start s) me child nohang >>= λ v. some (answer nohang v)))
