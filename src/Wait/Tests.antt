-- ===== src/Wait/Tests.antt =====
-- Wait.antt on two threads that are about to wait.
use pug_os.Prelude.{◌≡◌, ◌≢◌, refl, true, false, List, [], ◌∷◌}
use pug_os.Process.{runnable, is_blocked}
use pug_os.Wait.{
  prepare, preparing, testing, asleep, finished, Action, raise, wake_up, Machine, at, Step,
  prepares, raises, Reach, none_yet, step,
}
use pug_os.Wait.Awake.{Reach-awake}
use pug_os.Wait.Order.{exit_order-lost}

abbrev quiet : List Action → Machine
quiet todo = record {
  queue = record { state = λ p. runnable; waiters = [] };
  pc = λ p. preparing;
  condition = false;
  todo = todo;
}

abbrev in_order : Machine
in_order = quiet (raise ∷ wake_up ∷ [])

-- One thread is in line, and the condition holds now.
abbrev halfway : Machine
halfway =
    let m = at (record in_order { queue = prepare in_order.queue 4 }) 4 testing in
    record m { condition = true; todo = wake_up ∷ [] }

halfway-Reach : Reach in_order halfway
halfway-Reach = step (step none_yet (prepares 4 refl)) (raises (wake_up ∷ []) refl)

Reach-awake_example :
    (halfway.pc 4 ≢ finished → (o : Machine) × Step halfway o)
    × (halfway.todo ≡ [] → halfway.pc 4 ≡ asleep → is_blocked (halfway.queue.state 4) ≡ false)
Reach-awake_example =
    Reach-awake in_order halfway (record { outside = λ p. refl; todo = refl }) halfway-Reach 4

exit_order-lost_example :
    (n : Machine) × Reach (quiet (wake_up ∷ raise ∷ [])) n
    × (n.condition ≡ true)
    × (n.todo ≡ [])
    × ((o : Machine) → Reach n o → o.pc 4 ≡ asleep)
exit_order-lost_example = exit_order-lost (quiet (wake_up ∷ raise ∷ [])) 4 refl refl refl
