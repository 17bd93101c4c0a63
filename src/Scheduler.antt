-- ===== src/Scheduler.antt =====
-- kernel/scheduler/scheduler.c, over a store of tasks by address: the ring of tasks that
-- `default_task.next` leads into, the choice of the next task, and the timer. `default_task` has
-- address 0, which no other task has. The loops have fuel, and give `none` when it runs out.
pub mod Ring
pub mod Search
pub mod Kill
mod Examples
use veil_os.Base.{
  ℕ, zero, suc, ◌+◌, ◌-◌, Bool, true, false, not, ◌||◌, Option, none, some, List, [], ◌∷◌, ◌==◌,
  if◌then◌else◌, has, ltb, bit_or,
}

-- The fields of a task that the scheduler uses.
pub record Task : Type 0 where
  pub next : Option ℕ
  pub flags : ℕ
  pub time : ℕ
  pub pid : ℕ

abbrev pub Store : Type 0
Store = ℕ → Task

abbrev pub default_task : ℕ
default_task = 0

abbrev pub active_task : ℕ
active_task = 2

abbrev pub kill_task : ℕ
kill_task = 4

abbrev pub default_time : ℕ
default_time = 5

-- `killed` lists the tasks that `KillTask` was called with, the last one first.
pub record Scheduler : Type 0 where
  pub tasks : Store
  pub current : ℕ
  pub last_pid : ℕ
  pub stop : Bool
  pub killed : List ℕ

unfoldable pub put_task : Store → ℕ → Task → Store
put_task s a task b = if b == a then task else s b

unfoldable pub set_next : Store → ℕ → Option ℕ → Store
set_next s a next = put_task s a (record (s a) { next = next })

unfoldable pub scheduler_init : Scheduler → Scheduler
scheduler_init st = record st { last_pid = 1; stop = true; current = default_task }

-- `task->next ? task->next : default_task.next`
unfoldable pub advance : Store → ℕ → Option ℕ
advance s a = elim (s a).next [ some next ↦ some next | none ↦ (s default_task).next ]

-- The loop of `GetTaskByPID` from `current` on: the task, or that there is none. With no tasks at
-- all it reads through a null pointer, which gives no answer either.
unfoldable pub search_pid : (fuel : ℕ) → Store → (start current pid : ℕ) → Option (Option ℕ)
search_pid zero s start current pid = none
search_pid (suc fuel) s start current pid = elim (advance s current) [
  | none ↦ none
  | some next ↦
      let rest = search_pid fuel s start next pid in
      if (s next).pid == pid then some (some next) else if next == start then some none else rest
]

unfoldable pub get_task_by_pid : (fuel : ℕ) → Scheduler → (pid : ℕ) → Option (Option ℕ)
get_task_by_pid fuel st pid = search_pid fuel st.tasks st.current st.current pid

-- The walk of `AddTask` to the last task of the ring.
unfoldable pub find_last : (fuel : ℕ) → Store → (first last : ℕ) → Option ℕ
find_last zero s first last = none
find_last (suc fuel) s first last = elim (s last).next [
  | none ↦ some last
  | some next ↦ let rest = find_last fuel s first next in if next == first then some last else rest
]

unfoldable pub insert_task : (fuel : ℕ) → Store → (task : ℕ) → Option Store
insert_task fuel s task = elim (s default_task).next [
  | none ↦ some (set_next (set_next s default_task (some task)) task (some task))
  | some first ↦ elim (find_last fuel s first first) [
    | none ↦ none
    | some last ↦ some (set_next (set_next s last (some task)) task (some first))
  ]
]

-- The process id that is returned is one more than the one that is kept.
unfoldable pub add_task : (fuel : ℕ) → Scheduler → (task : ℕ) → Option (Scheduler × ℕ)
add_task fuel st task = elim (insert_task fuel st.tasks task) [
  | none ↦ none
  | some tasks ↦ some (record st { tasks = tasks; last_pid = st.last_pid + 1 }, st.last_pid + 1 + 1)
]

-- What one round of `get_next_task` does before it looks at a task.
pub data Reaped : Type 0 where
  -- The round goes on.
  alive : Scheduler → Reaped
  -- The last task was killed.
  idle : Scheduler → Reaped
  -- A null pointer is read through.
  fault : Reaped

-- The end of the round for a task `next` behind `current` that is to be killed: `after` is the store
-- in which `default_task.next` has been moved on. The link is read again from it.
unfoldable pub unlink : Scheduler → Store → (current : ℕ) → Reaped
unlink st after current = elim (after current).next [
  | none ↦ fault
  | some next ↦
      alive
        (record st { tasks = set_next after current (after next).next; killed = next ∷ st.killed })
]

-- `if (default_task.next == current->next)`: the entry of the ring moves on.
unfoldable pub move_entry : Store → (current next : ℕ) → Store
move_entry s current next = elim (s default_task).next [
  | none ↦ s
  | some first ↦
      if first == next
      then set_next s default_task (if next == current then none else (s next).next)
      else s
]

unfoldable pub reap : Scheduler → (current : ℕ) → Reaped
reap st current = elim (st.tasks current).next [
  | none ↦ alive st
  | some next ↦
      let after = move_entry st.tasks current next in
      if not (has (st.tasks next).flags kill_task)
      then alive st
      else if next == current
      then idle (record st { tasks = after; killed = current ∷ st.killed; current = default_task })
      else unlink st after current
]

-- The loop of `get_next_task`: the task that may run next, or `some none` where it returns 0.
unfoldable pub next_task_from :
    (fuel : ℕ) → Scheduler → (start current : ℕ) → Option (Scheduler × Option ℕ)
next_task_from zero st start current = none
next_task_from (suc fuel) st start current = elim (reap st current) [
  | idle st' ↦ some (st', none)
  | fault ↦ none
  | alive st' ↦ elim (advance st'.tasks current) [
    | none ↦ some (st', none)
    | some next ↦
        let rest = next_task_from fuel st' start next in
        if has (st'.tasks next).flags active_task || (next == start)
        then some (st', some next)
        else rest
  ]
]

unfoldable pub get_next_task : (fuel : ℕ) → Scheduler → Option (Scheduler × Option ℕ)
get_next_task fuel st = next_task_from fuel st st.current st.current

-- `switch_task` without the registers that it loads.
unfoldable pub switch_task : Scheduler → ℕ → Scheduler
switch_task st next = if st.current == next then st else record st { stop = false; current = next }

-- `GetCurrentPID`
unfoldable pub get_current_pid : Scheduler → ℕ
get_current_pid st = if st.current == default_task then 0 else (st.tasks st.current).pid

unfoldable pub exit_process : Scheduler → Scheduler
exit_process st =
    let task = st.tasks st.current in
    record st {
      tasks =
          put_task st.tasks st.current
            (record task { flags = bit_or task.flags kill_task; time = 0 });
    }

-- `SchedulerTick` without the registers: the state, and whether the tick returns into `Schedule`.
unfoldable pub scheduler_tick : (fuel : ℕ) → Scheduler → Option (Scheduler × Bool)
scheduler_tick fuel st =
    let task = st.tasks st.current in
    let time : ℕ = task.time - 1 in
    let running : Scheduler = record st {
      tasks = put_task st.tasks st.current (record task { time = time });
    } in
    let over : Scheduler = record st {
      tasks = put_task st.tasks st.current (record task { time = default_time });
      stop = true;
    } in
    if st.stop
    then some (st, false)
    else if ltb 0 time
    then some (running, false)
    else (elim (get_next_task fuel over) [
      | none ↦ none
      | some (st', none) ↦ some (st', true)
      | some (st', some next) ↦ some (st', not (next == st'.current))
    ])
