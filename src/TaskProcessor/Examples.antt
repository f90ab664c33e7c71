-- ===== src/TaskProcessor/Examples.antt =====
-- Queues of src/task_processor.rs on which the theorems about the thread are run.
use elektro_em_eukal.Base.{update, some, none, [], ◌∷◌, false, arith}
use elektro_em_eukal.Anchors.{Store, State, Task}
use elektro_em_eukal.AccessController.Object.{Request, Ownership, exclusive, no_prior, owned}
use elektro_em_eukal.AccessController.Table.{Table}
use elektro_em_eukal.TaskProcessor.{ThreadLocalData, perform_task, process_time_critical_tasks}
use elektro_em_eukal.TaskProcessor.Wakes.{Ascending, Keeps, perform_task-Keeps}
use elektro_em_eukal.TaskProcessor.Retained.{Serves, process_time_critical_tasks-Serves}

abbrev quiet_store : Store
quiet_store = record {
  transactions = λ p. record {
    state = State.active;
    prepare_instant = 0;
    commit_instant = 0;
    waiting_readers = [];
  };
  journals = λ p. record {
    transaction_anchor = p;
    creation_instant = none;
    submit_instant = 0;
    submitted = false;
    rolled_back = false;
    wake_up_others = false;
    next = none;
  };
  results = λ p. record { poisoned = false; result = none; waker = none };
  tasks = [];
  channel_bound = 2;
  woken = [];
}

abbrev waiting : ThreadLocalData
waiting = record {
  waker_queue = (10, 1) ∷ ((11, 2) ∷ ((30, 3) ∷ []));
  monitored_containers = [];
  monitored_object_ids = 8 ∷ (7 ∷ []);
  wait_duration = 5;
}

waiting-Ascending : Ascending waiting.waker_queue
waiting-Ascending = ((omega arith, (omega arith, tt)), ((omega arith, tt), (tt, tt)))

-- A request of the journal 2 waits for the object 7, which the journal 1 of another transaction has
-- locked; there is no other object.
abbrev one_awaited : Table
one_awaited =
    update (λ id. none) 7
      (some
        (owned (Ownership.locked_awaitable (exclusive 0 1 no_prior (Request.lock 10 2 3 ∷ [])))))

-- Two wakers give way to the new one.
perform_task-Keeps_example :
    Keeps 8 10 4 waiting quiet_store (perform_task 8 (Task.wake_up 10 4) waiting quiet_store)
perform_task-Keeps_example = perform_task-Keeps 8 10 4 waiting quiet_store waiting-Ascending

process_time_critical_tasks-Serves_example :
    Serves 19 20 waiting one_awaited quiet_store
      (process_time_critical_tasks 19 20 waiting one_awaited quiet_store)
process_time_critical_tasks-Serves_example =
    process_time_critical_tasks-Serves 19 20 waiting one_awaited quiet_store waiting-Ascending
