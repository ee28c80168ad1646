-- ===== src/Sched/Tests.antt =====
-- Sched.antt on a processor with an idle task and three processes.
use pug_os.Prelude.{
  ◌≡◌, refl, true, some, none, [], ◌∷◌, arith, ◌==◌, if◌then◌else◌, ◌>>=◌, count-nil, count-cons,
}
use pug_os.Process.{runnable, blocked}
use pug_os.Sched.{Cpu, schedule}
use pug_os.Sched.Picked.{pick, line_up, resumed, schedule-picked, idle_takes_turn}

-- The process 5 runs, 7 is blocked and 8 can run; 9 is the idle task.
abbrev busy : Cpu
busy = record {
  current = some 5;
  runq = 7 ∷ 8 ∷ [];
  idle = some 9;
  nschedule = 0;
  state = λ p. if p == 7 then blocked else runnable;
  resumable = λ p. true;
}

schedule-picked_example :
    schedule 5 busy 0 (some 5) ≡ some (resumed busy (pick busy.state 9 (line_up busy 5)))
schedule-picked_example =
    schedule-picked 4 0 busy 9 5 (some 5) refl refl refl
      (ground (arith, count-cons 5 7 (8 ∷ []), count-cons 5 8 [], count-nil 5)) refl refl
      (omega arith)

abbrev idling : Cpu
idling = record busy { current = some 9; runq = 8 ∷ [] }

idle_takes_turn_example :
    (schedule 4 idling 0 none >>= λ c'. schedule 4 c' 0 (some 8))
    ≡ some (record idling { current = some 9; runq = 8 ∷ []; nschedule = 2 })
idle_takes_turn_example =
    idle_takes_turn 3 0 idling 9 8 refl refl refl (omega arith) refl refl refl refl (omega arith)
