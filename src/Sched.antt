-- ===== src/Sched.antt =====
-- k-cpu.cc: the run queue of a processor, `cpustate::enqueue` and `cpustate::schedule`. A process is named
-- by a number. To resume one ends the call; page tables are left out. A failed assertion is `none`.
pub mod Picked
mod Tests
use pug_os.Prelude.{
  ℕ, zero, suc, ◌+◌, Bool, true, false, not, ◌&&◌, ◌||◌, Option, some, none, List, [], ◌∷◌, ◌++◌,
  ◌==◌, if◌then◌else◌, update, count, ◌>>=◌, ◌>>◌, check,
}
use pug_os.Files.Inv.{is_at}
use pug_os.Process.{State, runnable}

abbrev pub is_runnable : State → Bool
is_runnable runnable = true
is_runnable _ = false

-- `cpustate`, with the states of the processes. A queue holds processes of its own processor only.
pub record Cpu : Type 0 where
  pub current : Option ℕ
  pub runq : List ℕ
  pub idle : Option ℕ
  pub nschedule : ℕ
  pub state : ℕ → State
  pub resumable : ℕ → Bool

-- `cpustate::enqueue`
unfoldable pub enqueue : Cpu → ℕ → Option Cpu
enqueue c p =
    if not (is_at c.current p) && (count p c.runq == 0)
    then (check (c.resumable p || not (is_runnable (c.state p)))
        >> some (record c { runq = c.runq ++ p ∷ [] }))
    else some c

-- `cpustate::init_idle_task`, with the page that it gets.
abbrev pub init_idle_task : Cpu → ℕ → Cpu
init_idle_task c z = record c {
  idle = some z;
  state = update c.state z runnable;
  resumable = update c.resumable z true;
}

-- `current_ && current_->state_ == proc::runnable && current_ != yielding_from`
abbrev pub runs_on : Cpu → Option ℕ → Option ℕ → Bool
runs_on c yielding none = false
runs_on c yielding (some p) = is_runnable (c.state p) && not (is_at yielding p)

-- The current process leaves the processor, for the end of the queue if it can run.
unfoldable pub put_back : Cpu → Option ℕ → Option Cpu
put_back c none = some c
put_back c (some p) =
    let left = record c { current = none } in
    if is_runnable (c.state p) then enqueue left p else some left

abbrev pub after_put : Option ℕ → Option ℕ → Option ℕ
after_put yielding none = yielding
after_put yielding (some p) = none

-- The head of the queue is the current process, or the idle task is.
unfoldable pub take_next : Cpu → List ℕ → Cpu
take_next c [] = record c { current = c.idle; runq = [] }
take_next c (p ∷ ps) = record c { current = some p; runq = ps }

unfoldable pub schedule_loop : ℕ → Cpu → Option ℕ → Option Cpu
schedule_loop zero c yielding = none
schedule_loop (suc n) c yielding =
    let next = put_back c c.current >>= λ c'.
    schedule_loop n (take_next c' c'.runq) (after_put yielding c.current) in
    if runs_on c yielding c.current then some c else next

-- The idle task is set up first, or not run again.
unfoldable pub start : Cpu → ℕ → Option ℕ → Option ℕ → Cpu × Option ℕ
start c z yielding none = (init_idle_task c z, yielding)
start c z yielding (some i) = (c, if is_at c.current i then some i else yielding)

-- The processor with the process that it resumes, as the current one.
unfoldable pub schedule : ℕ → Cpu → ℕ → Option ℕ → Option Cpu
schedule fuel c z yielding =
    let (c', y) = start c z yielding c.idle in
    schedule_loop fuel (record c' { nschedule = c'.nschedule + 1 }) y
