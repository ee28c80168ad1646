-- ===== src/Wait.antt =====
-- k-wait.hh: `waiter` and `wait_queue`, as steps of the threads that wait for a condition and of the one
-- that makes it true. Each of the operations runs under the lock of the queue and is one step; a thread
-- is named by a number. Threads that are told to exit, which `block_until` ends, are not part of it.
pub mod Awake
pub mod Order
mod Tests
use pug_os.Prelude.{
  ℕ, zero, Bool, true, false, List, [], ◌∷◌, ◌++◌, ◌≡◌, ◌==◌, if◌then◌else◌, update, count, erase,
}
use pug_os.Process.{State, runnable, blocked, is_blocked}

-- `wait_queue::q_`, and the states of the threads.
pub record Queue : Type 0 where
  pub state : ℕ → State
  pub waiters : List ℕ

-- `waiter::prepare`
unfoldable pub prepare : Queue → ℕ → Queue
prepare q p = record { state = update q.state p blocked; waiters = q.waiters ++ p ∷ [] }

-- `waiter::clear`
unfoldable pub clear : Queue → ℕ → Queue
clear q p = record {
  state = update q.state p runnable;
  waiters = if count p q.waiters == 0 then q.waiters else erase p q.waiters;
}

-- `proc::wake`, but for the run queue.
abbrev pub wake : (ℕ → State) → ℕ → ℕ → State
wake state p = if is_blocked (state p) then update state p runnable else state

unfoldable pub wake_each : (ℕ → State) → List ℕ → ℕ → State
wake_each state [] = state
wake_each state (p ∷ ps) = wake_each (wake state p) ps

-- `wait_queue::wake_all`
unfoldable pub wake_all : Queue → Queue
wake_all q = record { state = wake_each q.state q.waiters; waiters = [] }

-- Where a thread stands in the loop of `block_until`.
pub data Pc : Type 0 where
  preparing testing yielding asleep clearing leaving finished : Pc

-- What the other side has still to do: make the condition true, or wake the queue.
pub data Action : Type 0 where
  raise wake_up : Action

pub record Machine : Type 0 where
  pub queue : Queue
  pub pc : ℕ → Pc
  pub condition : Bool
  pub todo : List Action

abbrev pub at : Machine → ℕ → Pc → Machine
at m p x = record m { pc = update m.pc p x }

-- `yield` leaves the processor to another thread if the state is `blocked`, until it is not.
pub data Step (m : Machine) : Machine → Type 0 where
  prepares :
      (p : ℕ) → m.pc p ≡ preparing → Step m (at (record m { queue = prepare m.queue p }) p testing)
  holds : (p : ℕ) → m.pc p ≡ testing → m.condition ≡ true → Step m (at m p leaving)
  fails : (p : ℕ) → m.pc p ≡ testing → m.condition ≡ false → Step m (at m p yielding)
  sleeps :
      (p : ℕ) → m.pc p ≡ yielding → is_blocked (m.queue.state p) ≡ true → Step m (at m p asleep)
  stays :
      (p : ℕ) → m.pc p ≡ yielding → is_blocked (m.queue.state p) ≡ false → Step m (at m p clearing)
  resumes :
      (p : ℕ) → m.pc p ≡ asleep → is_blocked (m.queue.state p) ≡ false → Step m (at m p clearing)
  clears :
      (p : ℕ) → m.pc p ≡ clearing → Step m (at (record m { queue = clear m.queue p }) p preparing)
  leaves :
      (p : ℕ) → m.pc p ≡ leaving → Step m (at (record m { queue = clear m.queue p }) p finished)
  raises :
      (rest : List Action)
      → m.todo ≡ raise ∷ rest
      → Step m (record m { condition = true; todo = rest })
  wakes :
      (rest : List Action)
      → m.todo ≡ wake_up ∷ rest
      → Step m (record m { queue = wake_all m.queue; todo = rest })

pub data Reach (m : Machine) : Machine → Type 0 where
  none_yet : Reach m m
  step : {n o : Machine} → Reach m n → Step n o → Reach m o
