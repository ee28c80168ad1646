-- ===== src/Sched/Picked.antt =====
-- k-cpu.cc: which process `schedule` resumes.
use pug_os.Prelude.{
  ℕ, zero, suc, ◌+◌, ◌≤◌, ◌≡◌, ◌≢◌, refl, sym, ◌∙◌, ap, true, false, Option, some, none, List, [],
  ◌∷◌, ◌++◌, length, length-append, ◌==◌, if◌then◌else◌, count, count-nil, count-cons, ◌>>=◌, arith,
  Bool-cases, inl, inr,
}
use pug_os.Process.{State}
use pug_os.Sched.{
  Cpu, is_runnable, enqueue, runs_on, put_back, after_put, take_next, schedule_loop, start,
  schedule,
}

-- The reference: the first process of the queue that can run, and the queue behind it, or else `z`.
pub pick : (ℕ → State) → ℕ → List ℕ → ℕ × List ℕ
pick state z [] = (z, [])
pick state z (p ∷ ps) =
    let rest = pick state z ps in if is_runnable (state p) then (p, ps) else rest

abbrev pub picked : Cpu → ℕ × List ℕ → Cpu
picked c x = record c { current = some (x.0); runq = (x.1) }

loop-resumes :
    (n : ℕ) (c : Cpu) (y : Option ℕ)
    → runs_on c y c.current ≡ true
    → schedule_loop (suc n) c y ≡ some c
unfolding schedule_loop
loop-resumes n c y e = rw (e) refl

loop-moves :
    (n : ℕ) (c c' : Cpu) (y : Option ℕ)
    → runs_on c y c.current ≡ false
    → put_back c c.current ≡ some c'
    → schedule_loop (suc n) c y ≡ schedule_loop n (take_next c' c'.runq) (after_put y c.current)
unfolding schedule_loop
loop-moves n c c' y e h = rw (e, h) refl

pick-runnable :
    (state : ℕ → State) (z p : ℕ) (ps : List ℕ)
    → pick state z (p ∷ ps) ≡ (if is_runnable (state p) then (p, ps) else pick state z ps)
unfolding pick
pick-runnable state z p ps = refl

abbrev turned : Cpu → List ℕ → Cpu
turned c ps = record c { current = none; runq = ps }

put_back-not_runnable :
    (c : Cpu) (p : ℕ)
    → is_runnable (c.state p) ≡ false
    → put_back c (some p) ≡ some (record c { current = none })
unfolding put_back
put_back-not_runnable c p e = rw (e) refl

-- A processor that takes the head of its queue, and has nobody to pass over.
loop-picked :
    (ps : List ℕ) (n : ℕ) (c : Cpu) (z : ℕ)
    → c.idle ≡ some z
    → is_runnable (c.state z) ≡ true
    → length ps + 1 ≤ n
    → schedule_loop n (take_next c ps) none ≡ some (picked c (pick c.state z ps))
unfolding take_next pick
loop-picked ps zero c z i h e = absurd (omega arith)
loop-picked [] (suc n) c z i h e =
    let idle = record c { current = c.idle; runq = [] } in
    let here : runs_on idle none c.idle ≡ true = ap (runs_on idle none) i ∙ ground (arith, h) in
    loop-resumes n idle none here ∙ ap (λ o. some (record c { current = o; runq = [] })) i
loop-picked (p ∷ ps) (suc n) c z i h e =
    let c1 = record c { current = some p; runq = ps } in
    elim (Bool-cases (is_runnable (c.state p))) [
      | inl r ↦
          loop-resumes n c1 none (ground (arith, r))
          ∙ ap (λ b. some (picked c (if b then (p, ps) else pick c.state z ps))) (sym r)
      | inr r ↦
          loop-moves n c1 (turned c ps) none (ground (arith, r)) (put_back-not_runnable c1 p r)
          ∙ loop-picked ps n (turned c ps) z i h (omega arith)
          ∙ ap (λ b. some (picked c (if b then (p, ps) else pick c.state z ps))) (sym r)
    ]

-- Where the current process goes: to the end of the queue, if it can run.
abbrev pub line_up : Cpu → ℕ → List ℕ
line_up c p = if is_runnable (c.state p) then c.runq ++ p ∷ [] else c.runq

enqueue-pushed :
    (c : Cpu) (p : ℕ)
    → count p c.runq ≡ 0
    → c.resumable p ≡ true
    → enqueue (record c { current = none }) p ≡ some (turned c (c.runq ++ p ∷ []))
unfolding enqueue
enqueue-pushed c p a r = rw (a, r) refl

put_back-turned :
    (c : Cpu) (p : ℕ)
    → count p c.runq ≡ 0
    → c.resumable p ≡ true
    → put_back c (some p) ≡ some (turned c (line_up c p))
unfolding put_back
put_back-turned c p a r = elim (Bool-cases (is_runnable (c.state p))) [
  | inl e ↦ rw (e) (enqueue-pushed c p a r)
  | inr e ↦ rw (e) refl
]

length-line_up : (c : Cpu) (p : ℕ) → length (line_up c p) ≤ length c.runq + 1
length-line_up c p = ground (arith, length-append c.runq (p ∷ []))

loop-pass :
    (n : ℕ) (c : Cpu) (z p : ℕ) (y : Option ℕ)
    → c.idle ≡ some z
    → is_runnable (c.state z) ≡ true
    → c.current ≡ some p
    → count p c.runq ≡ 0
    → c.resumable p ≡ true
    → runs_on c y (some p) ≡ false
    → length c.runq + 2 ≤ n
    → schedule_loop (suc n) c y ≡ some (picked c (pick c.state z (line_up c p)))
loop-pass n c z p y i h e a r no_run enough =
    loop-moves n c (turned c (line_up c p)) y (ap (runs_on c y) e ∙ no_run)
      (ap (put_back c) e ∙ put_back-turned c p a r)
    ∙ ap (schedule_loop n (take_next (turned c (line_up c p)) (line_up c p))) (ap (after_put y) e)
    ∙ loop-picked (line_up c p) n (turned c (line_up c p)) z i h
        (omega (arith, length-line_up c p, enough))

-- The processor after the call.
abbrev pub resumed : Cpu → ℕ × List ℕ → Cpu
resumed c x = record (picked c x) { nschedule = c.nschedule + 1 }

start-idle :
    (c : Cpu) (fresh z p : ℕ) (y : Option ℕ)
    → c.current ≡ some p
    → start c fresh y (some z) ≡ (c, if p == z then some z else y)
unfolding start
start-idle c fresh z p y e = rw (e) refl

schedule-started :
    (fuel fresh : ℕ) (c c' : Cpu) (y y' : Option ℕ)
    → start c fresh y c.idle ≡ (c', y')
    → schedule fuel c fresh y ≡ schedule_loop fuel (record c' { nschedule = c'.nschedule + 1 }) y'
unfolding schedule
schedule-started fuel fresh c c' y y' e =
    ap (λ x. schedule_loop fuel (record (x.0) { nschedule = (x.0).nschedule + 1 }) (x.1)) e

-- When the current process gives up the processor, or cannot run, `schedule` ends with fuel for each
-- process on the queue and three rounds more. It resumes the first process that can run of the queue with
-- the current process at its end, if that can run; the processes that it passes leave the queue; and when
-- none can run it resumes the idle task. The idle task is one of the processes of this queue when it was
-- the current process.
pub schedule-picked :
    (n fresh : ℕ) (c : Cpu) (z p : ℕ) (y : Option ℕ)
    → c.idle ≡ some z
    → is_runnable (c.state z) ≡ true
    → c.current ≡ some p
    → count p c.runq ≡ 0
    → c.resumable p ≡ true
    → runs_on c (if p == z then some z else y) (some p) ≡ false
    → length c.runq + 2 ≤ n
    → schedule (suc n) c fresh y ≡ some (resumed c (pick c.state z (line_up c p)))
schedule-picked n fresh c z p y i h e a r no_run enough =
    let y' = if p == z then some z else y in
    schedule-started (suc n) fresh c c y y' (ap (start c fresh y) i ∙ start-idle c fresh z p y e)
    ∙ loop-pass n (record c { nschedule = c.nschedule + 1 }) z p y' i h e a r no_run enough

-- When the idle task is interrupted while one process waits on the queue, that process is resumed; but
-- when its time is over the idle task is resumed in its place, though it can still run.
pub idle_takes_turn :
    (n fresh : ℕ) (c : Cpu) (z a : ℕ)
    → c.idle ≡ some z
    → c.current ≡ some z
    → c.runq ≡ a ∷ []
    → a ≢ z
    → is_runnable (c.state z) ≡ true
    → is_runnable (c.state a) ≡ true
    → c.resumable z ≡ true
    → c.resumable a ≡ true
    → 3 ≤ n
    → (schedule (suc n) c fresh none >>= λ c'. schedule (suc n) c' fresh (some a))
      ≡ some (record c { current = some z; runq = a ∷ []; nschedule = c.nschedule + 2 })
unfolding pick
idle_takes_turn n fresh c z a i e q ne hz ha rz ra enough =
    let first : pick c.state z (line_up c z) ≡ (a, z ∷ []) =
      ap (pick c.state z) (lined c z hz ∙ ap (λ l. l ++ z ∷ []) q) ∙ rw (ha) refl in
    let c1 = resumed c (a, z ∷ []) in
    let second : pick c1.state z (line_up c1 a) ≡ (z, a ∷ []) =
      ap (pick c1.state z) (lined c1 a ha) ∙ rw (hz) refl in
    let step1 : schedule (suc n) c fresh none ≡ some c1 =
      schedule-picked n fresh c z z none i hz e (ap (count z) q ∙ alone z a (λ x. ne (sym x))) rz
        (ground arith) (short c.runq a q)
      ∙ ap (λ x. some (resumed c x)) first in
    let step2 : schedule (suc n) c1 fresh (some a) ≡ some (resumed c1 (z, a ∷ [])) =
      schedule-picked n fresh c1 z a (some a) i hz refl (alone a z ne) ra (ground (arith, ne))
        (omega arith)
      ∙ ap (λ x. some (resumed c1 x)) second in
    ap (λ o. o >>= λ c'. schedule (suc n) c' fresh (some a)) step1
    ∙ step2
    ∙ ap (λ k. some (record c { current = some z; runq = a ∷ []; nschedule = k })) (omega arith)
  where
    lined : (c : Cpu) (p : ℕ) → is_runnable (c.state p) ≡ true → line_up c p ≡ c.runq ++ p ∷ []
    lined c p h = rw (h) refl

    alone : (p a : ℕ) → p ≢ a → count p (a ∷ []) ≡ 0
    alone p a h = ground (arith, count-cons p a [], count-nil p, h)

    short : (l : List ℕ) (a : ℕ) → l ≡ a ∷ [] → length l + 2 ≤ n
    short l a e = rw (e) enough
