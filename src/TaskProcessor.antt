-- ===== src/TaskProcessor.antt =====
-- src/task_processor.rs: the thread that wakes futures at their deadlines and hands database objects over
-- to waiting requests. Instants and durations are numbers of nanoseconds; the ordered map of wakers is
-- the list of its entries, the first one first, and an ordered set the list of its elements. The
-- channel is in the store, and a wait for a task ends without one if the channel is empty.

pub mod Wakes
pub mod Expired
pub mod Retained
pub mod Examples
use elektro_em_eukal.Base.{
  ℕ, zero, suc, ◌+◌, ◌-◌, ◌*◌, ◌^◌, Bool, true, false, Option, none, some, List, [], ◌∷◌, ◌++◌,
  if◌then◌else◌, ◌==◌, ltb, leb, contains, Outcome, done, panicked, out_of_rounds,
}
use elektro_em_eukal.Anchors.{Store, Task}
use elektro_em_eukal.AccessController.Table.{Table}
use elektro_em_eukal.AccessController.Transfer.{transfer_ownership_sync}

abbrev pub default_check_interval : ℕ
default_check_interval = 60 * 10 ^ 9

pub record ThreadLocalData : Type 0 where
  pub waker_queue : List (ℕ × ℕ)
  pub monitored_containers : List ℕ
  pub monitored_object_ids : List ℕ
  pub wait_duration : ℕ

-- `BTreeMap::insert`: the map, and the waker that was there at the instant.
unfoldable pub insert_waker : ℕ → ℕ → List (ℕ × ℕ) → List (ℕ × ℕ) × Option ℕ
insert_waker instant waker [] = ((instant, waker) ∷ [], none)
insert_waker instant waker ((instant', waker') ∷ rest) =
    let (further, other) = insert_waker instant waker rest in
    if instant == instant'
    then ((instant, waker) ∷ rest, some waker')
    else if ltb instant instant'
    then ((instant, waker) ∷ ((instant', waker') ∷ rest), none)
    else ((instant', waker') ∷ further, other)

-- The loop over the offsets: a waker that was there is inserted at the next instant.
unfoldable pub insert_waker_near : ℕ → ℕ → ℕ → List (ℕ × ℕ) → List (ℕ × ℕ)
unfolding insert_waker
insert_waker_near zero instant waker queue = queue
insert_waker_near (suc attempts) instant waker queue =
    let (queue', other) = insert_waker instant waker queue in
    elim other [
      | none ↦ queue'
      | some other_waker ↦ insert_waker_near attempts (instant + 1) other_waker queue'
    ]

-- `BTreeSet::insert`.
unfoldable pub insert_sorted : ℕ → List ℕ → List ℕ
insert_sorted k [] = k ∷ []
insert_sorted k (k' ∷ rest) =
    let further = insert_sorted k rest in
    if k == k' then k' ∷ rest else if ltb k k' then k ∷ (k' ∷ rest) else k' ∷ further

abbrev pub wake : ℕ → Store → Store
wake waker st = record st { woken = st.woken ++ (waker ∷ []) }

-- The match on a task that was received at the time `now`; false if the processor has to stop.
unfoldable pub perform_task : ℕ → Task → ThreadLocalData → Store → ThreadLocalData × Store × Bool
unfolding insert_waker_near insert_sorted
perform_task now Task.shutdown d st = (d, st, false)
perform_task now (Task.wake_up deadline waker) d st =
    let queue = insert_waker_near 4 deadline waker d.waker_queue in
    if ltb deadline now
    then (d, wake waker st, true)
    else (record d { waker_queue = queue }, st, true)
perform_task now (Task.monitor_container name) d st =
    (record d { monitored_containers = insert_sorted name d.monitored_containers }, st, true)
perform_task now (Task.monitor_object object_id) d st =
    (record d { monitored_object_ids = insert_sorted object_id d.monitored_object_ids }, st, true)
perform_task now Task.scan_access_controller d st = (d, st, true)

unfoldable pub receive_task : ℕ → ThreadLocalData → Store → ThreadLocalData × Store × Bool
unfolding perform_task
receive_task now d st = elim st.tasks [
  | [] ↦ (d, st, true)
  | task ∷ rest ↦ perform_task now task d (record st { tasks = rest })
]

-- The monitored objects that still have to be monitored.
unfoldable pub retain_monitored : ℕ → List ℕ → Table → Store → Outcome (List ℕ × Table × Store)
unfolding transfer_ownership_sync
retain_monitored now [] table st = done ([], table, st)
retain_monitored now (id ∷ ids) table st = elim (transfer_ownership_sync now id table st) [
  | done (table', st', awaited) ↦ elim (retain_monitored now ids table' st') [
    | done (retained, table'', st'') ↦
        done (if awaited then id ∷ retained else retained, table'', st'')
    | panicked ↦ panicked
    | out_of_rounds ↦ out_of_rounds
  ]
  | panicked ↦ panicked
  | out_of_rounds ↦ out_of_rounds
]

-- The loop over the wakers: those that are woken, those that are left, and the next wait.
unfoldable pub wake_expired : ℕ → List (ℕ × ℕ) → List ℕ × List (ℕ × ℕ) × ℕ
wake_expired now [] = ([], [], default_check_interval)
wake_expired now ((deadline, waker) ∷ rest) =
    let (woken, left, wait) = wake_expired now rest in
    if leb now deadline
    then ([], (deadline, waker) ∷ rest, deadline - now)
    else (waker ∷ woken, left, wait)

abbrev wake_all : ℕ → ThreadLocalData → List ℕ × Table × Store → ThreadLocalData × Table × Store
unfolding wake_expired
wake_all now d (retained, table, st) =
    let (woken, left, wait) = wake_expired now d.waker_queue in
    (
      record d { waker_queue = left; monitored_object_ids = retained; wait_duration = wait },
      table,
      record st { woken = st.woken ++ woken },
    )

-- `now` is read behind the transfers, which run at the time `transferred`.
unfoldable pub process_time_critical_tasks :
    ℕ → ℕ → ThreadLocalData → Table → Store → Outcome (ThreadLocalData × Table × Store)
unfolding retain_monitored wake_all
process_time_critical_tasks transferred now d table st =
    elim (retain_monitored transferred d.monitored_object_ids table st) [
      | done retained ↦ done (wake_all now d retained)
      | panicked ↦ panicked
      | out_of_rounds ↦ out_of_rounds
    ]
