-- ===== src/Process/Tests.antt =====
-- Process.antt on a first process, a shell that has a pipe, and a child of the shell that has ended.
use pug_os.Prelude.{
  ℕ, ◌≤◌, ◌≡◌, refl, ◌⊎◌, true, false, Option, some, none, arith, ◌==◌, if◌then◌else◌, List, [],
  ◌∷◌, count-nil, count-cons,
}
use pug_os.Files.Tests.{piped, piped-Inv}
use pug_os.Process.{
  Kernel, Proc, State, blank, runnable, blocked, broken, active_threads, count_threads,
}
use pug_os.Process.Family.{Family}
use pug_os.Process.Reap.{process_reap, Reaped, process_reap-Reaped}
use pug_os.Process.Fork.{Supply, process_fork}
use pug_os.Process.Fork.Outcome.{Full, NoMemory, Born, Caller, Tables}
use pug_os.Process.Fork.Forked.{process_fork-Forked}
use pug_os.Process.Exit.{process_exit, with_status}
use pug_os.Process.Exit.Exited.{Ended}
use pug_os.Process.Exit.Whole.{process_exit-Ended}
use pug_os.Process.Waitpid.{still, sys_waitpid}
use pug_os.Process.Waitpid.Answer.{NotMine, Mine, Busy, Done, sys_waitpid-Answered}
use pug_os.Process.Threads.{sys_clone}
use pug_os.Process.Threads.Cloned.{NoSlot, Spawned, sys_clone-Spawned}

abbrev no_proc : Proc
no_proc = record {
  live = false;
  pid = 0;
  true_pid = 0;
  ppid = 0;
  state = blank;
  exit_status = 0;
  interrupted = false;
  exiting = false;
  children = [];
}

abbrev proc_of : ℕ → ℕ → State → ℕ → List ℕ → Proc
proc_of pid ppid state status children = record no_proc {
  live = true;
  pid = pid;
  true_pid = pid;
  ppid = ppid;
  state = state;
  exit_status = status;
  children = children;
}

abbrev table : ℕ → Option ℕ
table i =
    if i == 1 then some 100 else (if i == 2 then some 102 else (if i == 3 then some 103 else none))

abbrev shell_kernel : Kernel
shell_kernel = record {
  ptable = table;
  true_ptable = table;
  procs = λ a.
      if a == 100
      then proc_of 1 1 blocked 0 (102 ∷ [])
      else (if a == 102
          then proc_of 2 1 runnable 0 (103 ∷ [])
          else (if a == 103 then proc_of 3 2 broken 7 [] else no_proc));
  files = piped;
}

shell_kernel-Family : Family shell_kernel 100
shell_kernel-Family = record {
  in_table = λ i a h. ground arith;
  has_pid = λ i a h. ground arith;
  alive = λ i a h. ground arith;
  set_up = λ i a h. ground arith;
  first = refl;
  runs = refl;
  own_parent = refl;
  kids = λ i a c h. ground (arith, count-nil c, count-cons c 102 [], count-cons c 103 []);
  parent = λ c l e. ground arith;
  descriptor = λ c l. refl;
  childless = λ c l b. ground arith;
}

shell_kernel-Tables : Tables shell_kernel
shell_kernel-Tables = record { inv = piped-Inv; unused = λ i k e h. ground arith }

shell_kernel-Caller : Caller shell_kernel 102
shell_kernel-Caller = record {
  own = refl;
  own_descriptor = refl;
  running = refl;
  first_thread = cc;
}

process_reap-Reaped_example :
    (s' : Kernel) × (process_reap shell_kernel 3 ≡ some (s', 7))
    × Family s' 100
    × Reaped shell_kernel 3 103 s'
process_reap-Reaped_example =
    process_reap-Reaped shell_kernel 100 shell_kernel-Family 3 103 refl (omega arith) refl

abbrev plenty : Supply
plenty = record { page = some 104; pagetable = true; fdtable = true; memory = true }

process_fork-Forked_example :
    (s' : Kernel) × (r : ℕ) × (process_fork shell_kernel 102 plenty ≡ some (s', r))
    × Family s' 100
    × (Full shell_kernel s' r
        ⊎ (NoMemory shell_kernel plenty s' r ⊎ Born shell_kernel 102 plenty s' r))
process_fork-Forked_example =
    process_fork-Forked shell_kernel 100 shell_kernel-Family shell_kernel-Tables 102
      shell_kernel-Caller plenty (λ f e. ground (arith, e))

alone : (a : ℕ) → a ≡ 102 → active_threads shell_kernel a ≤ 1
unfolding active_threads count_threads
alone a e = rw (e) (omega arith)

process_exit-Ended_example :
    (s' : Kernel) × (process_exit (λ n s. s) 1 shell_kernel 102 5 ≡ some s')
    × Family s' 100
    × Ended (with_status shell_kernel 102 5) 102 100 5 s'
process_exit-Ended_example =
    process_exit-Ended (λ n s. s) shell_kernel 100 shell_kernel-Family piped-Inv 1 102 5 refl
      (omega arith) (omega arith) (alone 102 refl) (omega arith)

sys_waitpid-Answered_example :
    (s' : Kernel) × (r status : ℕ) × (sys_waitpid (λ n s. s) (λ n. still) 1 shell_kernel 102 3 true
      ≡ some (s', r, status))
    × Family s' 100
    × (NotMine shell_kernel 102 3 s' r
        ⊎ (Mine shell_kernel 102 3 × (Busy shell_kernel 3 s' r ⊎ Done shell_kernel 3 s' r)))
sys_waitpid-Answered_example =
    sys_waitpid-Answered (λ n s. s) (λ n. still) 0 refl shell_kernel 100 shell_kernel-Family 102 3
      (omega arith) (omega arith) (omega arith)

sys_clone-Spawned_example :
    (s' : Kernel) × (r : ℕ) × (sys_clone shell_kernel 102 (some 104) ≡ some (s', r))
    × Family s' 100
    × (NoSlot shell_kernel s' r ⊎ Spawned shell_kernel 102 104 s' r)
sys_clone-Spawned_example = sys_clone-Spawned shell_kernel 100 shell_kernel-Family 102 104 refl refl
