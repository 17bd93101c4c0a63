-- ===== src/Scheduler/Examples.antt =====
-- Runs of kernel/scheduler/scheduler.c on tasks at the addresses 8, 16 and 24.
use veil_os.Base.{ℕ, ◌≡◌, ◌≢◌, refl, false, Option, none, some, [], ◌∷◌, ◌==◌, if◌then◌else◌, arith}
use veil_os.Scheduler.{
  Task, Store, Scheduler, alive, default_task, active_task, kill_task, add_task, get_task_by_pid,
  reap,
}
use veil_os.Scheduler.Ring.{Links, IsRing, add_task-IsRing}
use veil_os.Scheduler.Kill.{reap-Links, reap_default-second}
use veil_os.Scheduler.Search.{OneOf, find_pid, get_task_by_pid-Links, get_task_by_pid_endless}

abbrev task : Option ℕ → (flags pid : ℕ) → Task
task next flags pid = record { next = next; flags = flags; time = 5; pid = pid }

abbrev store : Store
store a =
    if a == 0
    then task (some 8) 0 0
    else if a == 8
    then task (some 16) active_task 3
    else if a == 16
    then task (some 8) active_task 4
    else task none 0 0

abbrev scheduler : Scheduler
scheduler = record { tasks = store; current = 8; last_pid = 3; stop = false; killed = [] }

store-IsRing : IsRing store 8 (16 ∷ [])
store-IsRing =
    (refl, (refl, refl), ((omega arith, refl), (refl, refl)), (omega arith, (omega arith, refl)))

add_task-IsRing_example :
    (st' : Scheduler) × (add_task 5 scheduler 24 ≡ some (st', 5))
    × (IsRing st'.tasks 8 (16 ∷ 24 ∷ []))
    × (st'.last_pid ≡ 4)
add_task-IsRing_example =
    add_task-IsRing 5 scheduler 24 8 (16 ∷ []) store-IsRing
      (omega arith, (omega arith, (omega arith, refl))) (omega arith)

abbrev empty : Scheduler
empty = record scheduler { tasks = λ a. task none 0 0; current = default_task }

get_task_by_pid-Links_example :
    get_task_by_pid 2 scheduler 4 ≡ some (find_pid store (16 ∷ 8 ∷ []) 4)
get_task_by_pid-Links_example =
    get_task_by_pid-Links 2 scheduler 4 (16 ∷ []) (refl, refl) (omega arith, refl) (omega arith)

abbrev booted : Scheduler
booted = record scheduler { current = default_task }

no_pid_9 : (c : ℕ) → OneOf c (8 ∷ 16 ∷ []) → (store c).pid ≢ 9
no_pid_9 c one = ground (arith, one)

get_task_by_pid_endless_example : get_task_by_pid 100 booted 9 ≡ none
get_task_by_pid_endless_example =
    get_task_by_pid_endless 100 booted 9 8 (16 ∷ []) refl store-IsRing no_pid_9

-- The ring with a task that is to be killed.
abbrev marked : ℕ → Store
marked a b = if b == a then record (store a) { flags = kill_task } else store b

reap-Links_example :
    (st' : Scheduler) × (reap (record scheduler { tasks = marked 16 }) 8 ≡ alive st')
    × (st'.killed ≡ 16 ∷ [])
    × Links st'.tasks 8 [] 8
reap-Links_example =
    reap-Links (record scheduler { tasks = marked 16 }) 8 16 [] (refl, refl)
      ((omega arith, refl), (refl, refl)) (omega arith, (omega arith, refl)) refl

reap_default-second_example :
    (tasks : Store) × (reap (record booted { tasks = marked 8 }) default_task
      ≡ alive (record booted { tasks = tasks; killed = 16 ∷ [] }))
reap_default-second_example =
    reap_default-second (record booted { tasks = marked 8 }) 8 16 []
      (refl, (refl, refl), ((omega arith, refl), (refl, refl)), (omega arith, (omega arith, refl)))
      refl
