-- ===== src/Wait/Order.antt =====
-- kernel.cc: `process_exit` wakes the queue of `waitpid` and sets the state that `waitpid` looks for
-- after that.
use pug_os.Prelude.{ℕ, ◌≡◌, ◌≢◌, refl, sym, ◌∙◌, true, false, arith, List, [], ◌∷◌}
use pug_os.Process.{is_blocked}
use pug_os.Wait.{
  prepare, clear, wake_all, preparing, testing, yielding, asleep, Action, raise, wake_up, Machine,
  at, Step, prepares, holds, fails, sleeps, stays, resumes, clears, leaves, raises, wakes, Reach,
  none_yet, step,
}

-- `p` is asleep, and nobody is going to wake the queue.
record Lost (m : Machine) (p : ℕ) : Type 0 where
  pub todo : m.todo ≡ []
  pub pc : m.pc p ≡ asleep
  pub state : is_blocked (m.queue.state p) ≡ true

cons_not_nil : {a : Action} {l : List Action} → a ∷ l ≢ []
cons_not_nil = cc

Step-Lost : (p : ℕ) (m n : Machine) → Lost m p → Step m n → Lost n p
unfolding prepare clear
Step-Lost p m n l (prepares q e) = record {
  todo = l.todo;
  pc = ground (arith, l.pc, e);
  state = ground (arith, l.pc, e, l.state);
}
Step-Lost p m n l (holds q e c) = record {
  todo = l.todo;
  pc = ground (arith, l.pc, e);
  state = l.state;
}
Step-Lost p m n l (fails q e c) = record {
  todo = l.todo;
  pc = ground (arith, l.pc, e);
  state = l.state;
}
Step-Lost p m n l (sleeps q e c) = record {
  todo = l.todo;
  pc = ground (arith, l.pc, e);
  state = l.state;
}
Step-Lost p m n l (stays q e c) = record {
  todo = l.todo;
  pc = ground (arith, l.pc, e);
  state = l.state;
}
Step-Lost p m n l (resumes q e c) = record {
  todo = l.todo;
  pc = ground (arith, l.pc, e, l.state, c);
  state = l.state;
}
Step-Lost p m n l (clears q e) = record {
  todo = l.todo;
  pc = ground (arith, l.pc, e);
  state = ground (arith, l.pc, e, l.state);
}
Step-Lost p m n l (leaves q e) = record {
  todo = l.todo;
  pc = ground (arith, l.pc, e);
  state = ground (arith, l.pc, e, l.state);
}
Step-Lost p m n l (raises rest e) = absurd (cons_not_nil (sym e ∙ l.todo))
Step-Lost p m n l (wakes rest e) = absurd (cons_not_nil (sym e ∙ l.todo))

Reach-Lost : (p : ℕ) (m n : Machine) → Lost m p → Reach m n → Lost n p
Reach-Lost p m n l none_yet = l
Reach-Lost p m n l (step {n = k} r t) = Step-Lost p k n (Reach-Lost p m k l r) t

-- The run that loses the wake-up: the queue is woken, `p` gets in line and finds the condition false,
-- the condition is made true, and `p` goes to sleep.
module _ (m : Machine) (p : ℕ) where
  abbrev after_wake : Machine
  after_wake = record m { queue = wake_all m.queue; todo = raise ∷ [] }

  abbrev in_line : Machine
  in_line = at (record after_wake { queue = prepare after_wake.queue p }) p testing

  abbrev after_test : Machine
  after_test = at in_line p yielding

  abbrev after_raise : Machine
  after_raise = record after_test { condition = true; todo = [] }

  abbrev pub lost : Machine
  lost = at after_raise p asleep

  lost-Reach :
      m.pc p ≡ preparing → m.condition ≡ false → m.todo ≡ wake_up ∷ raise ∷ [] → Reach m lost
  unfolding prepare
  lost-Reach e c d =
      step
        (step
          (step (step (step none_yet (wakes (raise ∷ []) d)) (prepares p e))
            (fails p (ground arith) c))
          (raises [] refl))
        (sleeps p (ground arith) (ground arith))

  lost-Lost : Lost lost p
  unfolding prepare
  lost-Lost = record { todo = refl; pc = ground arith; state = ground arith }

-- In the order of `process_exit`, a wake-up can be lost: a thread can come to wait for a condition that is
-- true, and whatever the others do, it sleeps on until somebody else wakes the queue.
pub exit_order-lost :
    (m : Machine) (p : ℕ)
    → m.pc p ≡ preparing
    → m.condition ≡ false
    → m.todo ≡ wake_up ∷ raise ∷ []
    → (n : Machine) × Reach m n
      × (n.condition ≡ true)
      × (n.todo ≡ [])
      × ((o : Machine) → Reach n o → o.pc p ≡ asleep)
exit_order-lost m p e c d = (
  lost m p,
  lost-Reach m p e c d,
  refl,
  refl,
  λ o r. (Reach-Lost p (lost m p) o (lost-Lost m p) r).pc,
)
