-- ===== src/Wait/Awake.antt =====
-- k-wait.hh: no wake-up is lost when the condition is made true before the queue is woken.
use pug_os.Prelude.{
  ℕ, ◌<◌, ◌≡◌, ◌≢◌, refl, sym, ◌∙◌, ap, Bool, true, false, arith, List, [], ◌∷◌, inl, inr, ◌⊎◌,
  Bool-cases, eq_cases, count, count-nil, count-cons, count-erase, count-push_back,
}
use pug_os.Process.{State, is_blocked}
use pug_os.Wait.{
  prepare, clear, wake, wake_each, wake_all, Pc, preparing, testing, yielding, asleep, clearing,
  leaving, finished, Action, raise, wake_up, Machine, at, Step, prepares, holds, fails, sleeps,
  stays, resumes, clears, leaves, raises, wakes, Reach, none_yet, step,
}

-- A thread that found the condition false, or is about to test it.
abbrev in_line : Pc → Bool
in_line testing = true
in_line yielding = true
in_line asleep = true
in_line _ = false

abbrev waits : Pc → Bool
waits yielding = true
waits asleep = true
waits _ = false

-- A thread in line that is blocked is on the queue; and after the last wake-up the condition holds, and
-- no thread that waits is blocked.
record Inv (m : Machine) : Type 0 where
  pub linked :
      (p : ℕ)
      → in_line (m.pc p) ≡ true
      → is_blocked (m.queue.state p) ≡ true
      → 0 < count p m.queue.waiters
  pub condition : m.todo ≢ raise ∷ wake_up ∷ [] → m.condition ≡ true
  pub order : (m.todo ≡ raise ∷ wake_up ∷ []) ⊎ ((m.todo ≡ wake_up ∷ []) ⊎ (m.todo ≡ []))
  pub awake : m.todo ≡ [] → (p : ℕ) → waits (m.pc p) ≡ true → is_blocked (m.queue.state p) ≡ false

wake_each-keeps :
    (ps : List ℕ) (state : ℕ → State) (p : ℕ)
    → is_blocked (state p) ≡ false
    → is_blocked (wake_each state ps p) ≡ false
unfolding wake_each
wake_each-keeps [] state p h = h
wake_each-keeps (q ∷ ps) state p h = wake_each-keeps ps (wake state q) p (ground (arith, h))

wake_each-wakes :
    (ps : List ℕ) (state : ℕ → State) (p : ℕ)
    → 0 < count p ps
    → is_blocked (wake_each state ps p) ≡ false
unfolding wake_each
wake_each-wakes [] state p h = absurd (ground (arith, count-nil p, h))
wake_each-wakes (q ∷ ps) state p h = elim (eq_cases q p) [
  | inl e ↦ wake_each-keeps ps (wake state q) p (ground (arith, e))
  | inr n ↦ wake_each-wakes ps (wake state q) p (ground (arith, count-cons p q ps, n, h))
]

-- After `wake_all`, nothing in line is blocked.
woken :
    (m : Machine)
    → Inv m
    → (p : ℕ) → in_line (m.pc p) ≡ true
    → is_blocked (wake_each m.queue.state m.queue.waiters p) ≡ false
woken m inv p l = elim (Bool-cases (is_blocked (m.queue.state p))) [
  | inl b ↦ wake_each-wakes m.queue.waiters m.queue.state p (inv.linked p l b)
  | inr b ↦ wake_each-keeps m.queue.waiters m.queue.state p b
]

waits-in_line : (x : Pc) → waits x ≡ true → in_line x ≡ true
waits-in_line yielding h = refl
waits-in_line asleep h = refl
waits-in_line preparing h = cc
waits-in_line testing h = cc
waits-in_line clearing h = cc
waits-in_line leaving h = cc
waits-in_line finished h = cc

cons_not_nil : {a : Action} {l : List Action} → a ∷ l ≢ []
cons_not_nil = cc

not_same : {q r : List Action} → wake_up ∷ q ≢ raise ∷ r
not_same = cc

abbrev tail : List Action → List Action
tail [] = []
tail (a ∷ l) = l

abbrev Order : List Action → Type 0
Order l = (l ≡ raise ∷ wake_up ∷ []) ⊎ ((l ≡ wake_up ∷ []) ⊎ (l ≡ []))

after_raise : (l rest : List Action) → Order l → l ≡ raise ∷ rest → rest ≡ wake_up ∷ []
after_raise l rest (inl x) e = ap tail (sym e ∙ x)
after_raise l rest (inr (inl x)) e = absurd (not_same (sym x ∙ e))
after_raise l rest (inr (inr x)) e = absurd (cons_not_nil (sym e ∙ x))

after_wake : (l rest : List Action) → Order l → l ≡ wake_up ∷ rest → rest ≡ []
after_wake l rest (inl x) e = absurd (not_same (sym e ∙ x))
after_wake l rest (inr (inl x)) e = ap tail (sym e ∙ x)
after_wake l rest (inr (inr x)) e = absurd (cons_not_nil (sym e ∙ x))

Step-Inv : (m n : Machine) → Inv m → Step m n → Inv n
unfolding prepare clear wake_all
Step-Inv m n inv (prepares p e) = record {
  linked = λ q l b. ground (arith, inv.linked q, count-push_back q p m.queue.waiters, l, b);
  condition = inv.condition;
  order = inv.order;
  awake = λ d q w. ground (arith, inv.awake d q, w);
}
Step-Inv m n inv (holds p e c) = record {
  linked = λ q l b. ground (arith, inv.linked q, l, b);
  condition = inv.condition;
  order = inv.order;
  awake = λ d q w. ground (arith, inv.awake d q, w);
}
Step-Inv m n inv (fails p e c) = record {
  linked = λ q l b. ground (arith, inv.linked q, e, l, b);
  condition = inv.condition;
  order = inv.order;
  awake = λ d q w. absurd (ground (arith, inv.condition (λ x. cons_not_nil (sym x ∙ d)), c));
}
Step-Inv m n inv (sleeps p e c) = record {
  linked = λ q l b. ground (arith, inv.linked q, e, l, b);
  condition = inv.condition;
  order = inv.order;
  awake = λ d q w. ground (arith, inv.awake d q, e, w);
}
Step-Inv m n inv (stays p e c) = record {
  linked = λ q l b. ground (arith, inv.linked q, l, b);
  condition = inv.condition;
  order = inv.order;
  awake = λ d q w. ground (arith, inv.awake d q, w);
}
Step-Inv m n inv (resumes p e c) = record {
  linked = λ q l b. ground (arith, inv.linked q, l, b);
  condition = inv.condition;
  order = inv.order;
  awake = λ d q w. ground (arith, inv.awake d q, w);
}
Step-Inv m n inv (clears p e) = record {
  linked = λ q l b. ground (arith, inv.linked q, count-erase p q m.queue.waiters, l, b);
  condition = inv.condition;
  order = inv.order;
  awake = λ d q w. ground (arith, inv.awake d q, w);
}
Step-Inv m n inv (leaves p e) = record {
  linked = λ q l b. ground (arith, inv.linked q, count-erase p q m.queue.waiters, l, b);
  condition = inv.condition;
  order = inv.order;
  awake = λ d q w. ground (arith, inv.awake d q, w);
}
Step-Inv m n inv (raises rest e) = record {
  linked = inv.linked;
  condition = λ x. refl;
  order = inr (inl (after_raise m.todo rest inv.order e));
  awake = λ d. absurd (cons_not_nil (sym (after_raise m.todo rest inv.order e) ∙ d));
}
Step-Inv m n inv (wakes rest e) = record {
  linked = λ q l b. absurd (ground (arith, woken m inv q l, b));
  condition = λ x. inv.condition (λ y. not_same (sym e ∙ y));
  order = inr (inr (after_wake m.todo rest inv.order e));
  awake = λ d q w. woken m inv q (waits-in_line (m.pc q) w);
}

-- Nothing waits, and the condition is still to be made true.
pub record Start (m : Machine) : Type 0 where
  pub outside : (p : ℕ) → m.pc p ≡ preparing
  pub todo : m.todo ≡ raise ∷ wake_up ∷ []

Start-Inv : (m : Machine) → Start m → Inv m
Start-Inv m s = record {
  linked = λ p l b. absurd (ground (arith, s.outside p, l));
  condition = λ x. absurd (x s.todo);
  order = inl s.todo;
  awake = λ d. absurd (cons_not_nil (sym s.todo ∙ d));
}

Reach-Inv : (m n : Machine) → Start m → Reach m n → Inv n
Reach-Inv m n s none_yet = Start-Inv m s
Reach-Inv m n s (step {n = k} r t) = Step-Inv k n (Reach-Inv m k s r) t

not_asleep :
    (m : Machine) (p : ℕ) → Inv m → m.todo ≡ [] → m.pc p ≢ finished → (n : Machine) × Step m n
not_asleep m p inv d h = at_pc (m.pc p) refl
  where
    at_pc : (x : Pc) → m.pc p ≡ x → (n : Machine) × Step m n
    at_pc preparing e = (at (record m { queue = prepare m.queue p }) p testing, prepares p e)
    at_pc testing e = (at m p leaving, holds p e (inv.condition (λ x. cons_not_nil (sym x ∙ d))))
    at_pc yielding e = (at m p clearing, stays p e (inv.awake d p (ground (arith, e))))
    at_pc asleep e = (at m p clearing, resumes p e (inv.awake d p (ground (arith, e))))
    at_pc clearing e = (at (record m { queue = clear m.queue p }) p preparing, clears p e)
    at_pc leaving e = (at (record m { queue = clear m.queue p }) p finished, leaves p e)
    at_pc finished e = absurd (h e)

-- When the condition is made true before the queue is woken, no wake-up is lost, whatever the order of
-- the steps of the threads that wait: as long as one of them has not got through, there is a step
-- to take, and once the queue has been woken no thread sleeps on.
pub Reach-awake :
    (m n : Machine)
    → Start m
    → Reach m n
    → (p : ℕ)
    → (n.pc p ≢ finished → (o : Machine) × Step n o)
      × (n.todo ≡ [] → n.pc p ≡ asleep → is_blocked (n.queue.state p) ≡ false)
Reach-awake m n s r p =
    let inv = Reach-Inv m n s r in
    (λ h. next inv inv.order h, λ d e. inv.awake d p (ground (arith, e)))
  where
    next : Inv n → Order n.todo → n.pc p ≢ finished → (o : Machine) × Step n o
    next inv (inl e) h =
        (record n { condition = true; todo = wake_up ∷ [] }, raises (wake_up ∷ []) e)
    next inv (inr (inl e)) h = (record n { queue = wake_all n.queue; todo = [] }, wakes [] e)
    next inv (inr (inr e)) h = not_asleep n p inv e h
