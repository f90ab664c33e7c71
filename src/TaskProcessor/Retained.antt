-- ===== src/TaskProcessor/Retained.antt =====
-- src/task_processor.rs: the time critical tasks, against the transfers that they run one after the
-- other and the wakers whose deadlines have passed.
use elektro_em_eukal.Base.{
  ℕ, ◌≡◌, refl, sym, subst, Bool, true, false, List, [], ◌∷◌, ◌++◌, if◌then◌else◌, Outcome, done,
  panicked, out_of_rounds,
}
use elektro_em_eukal.Anchors.{Store}
use elektro_em_eukal.AccessController.Table.{Table}
use elektro_em_eukal.AccessController.Transfer.{transfer_ownership_sync}
use elektro_em_eukal.TaskProcessor.{ThreadLocalData, retain_monitored, process_time_critical_tasks}
use elektro_em_eukal.TaskProcessor.Wakes.{Ascending}
use elektro_em_eukal.TaskProcessor.Expired.{
  due, pending, next_wait, wakes_due, process_time_critical_tasks-due,
}

-- One transfer for each of the objects, in order, with the answers whether they are still awaited;
-- each transfer starts from the table and the store that the one before it has left.
pub data Transfers (now : ℕ)
    : List ℕ → Table → Store → List (ℕ × Bool) → Table → Store → Type 0 where
  nothing : {table : Table} {st : Store} → Transfers now [] table st [] table st
  transfer :
      {id : ℕ} {ids : List ℕ} {table table' table'' : Table} {st st' st'' : Store} {awaited : Bool}
      {answers : List (ℕ × Bool)}
      → transfer_ownership_sync now id table st ≡ done (table', st', awaited)
      → Transfers now ids table' st' answers table'' st''
      → Transfers now (id ∷ ids) table st ((id, awaited) ∷ answers) table'' st''

-- The transfers of the objects come to one with the outcome `o`, after some that are done.
pub data Reaches (now : ℕ) (o : Outcome (Table × Store × Bool))
    : List ℕ → Table → Store → Type 0 where
  here :
      {id : ℕ} {ids : List ℕ} {table : Table} {st : Store}
      → transfer_ownership_sync now id table st ≡ o
      → Reaches now o (id ∷ ids) table st
  later :
      {id : ℕ} {ids : List ℕ} {table table' : Table} {st st' : Store} {awaited : Bool}
      → transfer_ownership_sync now id table st ≡ done (table', st', awaited)
      → Reaches now o ids table' st'
      → Reaches now o (id ∷ ids) table st

abbrev pub awaited_ids : List (ℕ × Bool) → List ℕ
awaited_ids [] = []
awaited_ids ((id, true) ∷ answers) = id ∷ awaited_ids answers
awaited_ids ((id, false) ∷ answers) = awaited_ids answers

abbrev Retains : ℕ → List ℕ → Table → Store → Outcome (List ℕ × Table × Store) → Type 0
Retains now ids table st (done (retained, table', st')) =
    (answers : List (ℕ × Bool)) × Transfers now ids table st answers table' st'
    × (retained ≡ awaited_ids answers)
Retains now ids table st panicked = Reaches now panicked ids table st
Retains now ids table st out_of_rounds = Reaches now out_of_rounds ids table st

awaited-first :
    (id : ℕ) (awaited : Bool) (retained : List ℕ) (answers : List (ℕ × Bool))
    → retained ≡ awaited_ids answers
    → (if awaited then id ∷ retained else retained) ≡ awaited_ids ((id, awaited) ∷ answers)
awaited-first id true retained answers e = cc
awaited-first id false retained answers e = e

module _ (now id : ℕ) (ids : List ℕ) (table : Table) (st : Store) where
  retained_of :
      (table' : Table) (st' : Store) (awaited : Bool) (o : Outcome (List ℕ × Table × Store))
      → transfer_ownership_sync now id table st ≡ done (table', st', awaited)
      → Retains now ids table' st' o
      → Retains now (id ∷ ids) table st (elim o [
        | done (retained, table'', st'') ↦
            done (if awaited then id ∷ retained else retained, table'', st'')
        | panicked ↦ panicked
        | out_of_rounds ↦ out_of_rounds
      ])
  retained_of table' st' awaited (done (retained, table'', st'')) e (answers, t, r) =
      ((id, awaited) ∷ answers, Transfers.transfer e t, awaited-first id awaited retained answers r)
  retained_of table' st' awaited panicked e h = Reaches.later e h
  retained_of table' st' awaited out_of_rounds e h = Reaches.later e h

  transferred_of :
      (o : Outcome (Table × Store × Bool))
      → transfer_ownership_sync now id table st ≡ o
      → ((table' : Table) (st' : Store)
          → Retains now ids table' st' (retain_monitored now ids table' st'))
      → Retains now (id ∷ ids) table st (elim o [
        | done (table', st', awaited) ↦ elim (retain_monitored now ids table' st') [
          | done (retained, table'', st'') ↦
              done (if awaited then id ∷ retained else retained, table'', st'')
          | panicked ↦ panicked
          | out_of_rounds ↦ out_of_rounds
        ]
        | panicked ↦ panicked
        | out_of_rounds ↦ out_of_rounds
      ])
  transferred_of (done (table', st', awaited)) e ih =
      retained_of table' st' awaited (retain_monitored now ids table' st') e (ih table' st')
  transferred_of panicked e ih = Reaches.here e
  transferred_of out_of_rounds e ih = Reaches.here e

retain_monitored-Retains :
    (now : ℕ) (ids : List ℕ) (table : Table) (st : Store)
    → Retains now ids table st (retain_monitored now ids table st)
unfolding retain_monitored
retain_monitored-Retains now [] table st = ([], Transfers.nothing, refl)
retain_monitored-Retains now (id ∷ ids) table st =
    transferred_of now id ids table st (transfer_ownership_sync now id table st) refl
      (retain_monitored-Retains now ids)

-- What the tasks make of the data `d`, by transfers at the time `transferred` and with the clock read
-- at `now`.
abbrev pub Serves :
    ℕ → ℕ → ThreadLocalData → Table → Store → Outcome (ThreadLocalData × Table × Store) → Type 0
Serves transferred now d table st (done (d', table', st')) =
    (answers : List (ℕ × Bool)) × ((st1 : Store) × Transfers transferred d.monitored_object_ids
        table st answers table' st1
      × (d'.monitored_object_ids ≡ awaited_ids answers)
      × (d'.monitored_containers ≡ d.monitored_containers)
      × (d'.waker_queue ≡ pending now d.waker_queue)
      × (d'.wait_duration ≡ next_wait now (pending now d.waker_queue))
      × (st' ≡ record st1 { woken = st1.woken ++ due now d.waker_queue }))
Serves transferred now d table st panicked =
    Reaches transferred panicked d.monitored_object_ids table st
Serves transferred now d table st out_of_rounds =
    Reaches transferred out_of_rounds d.monitored_object_ids table st

wakes_due-Serves :
    (transferred now : ℕ) (d : ThreadLocalData) (table : Table) (st : Store)
    (o : Outcome (List ℕ × Table × Store))
    → Retains transferred d.monitored_object_ids table st o
    → Serves transferred now d table st (wakes_due now d o)
wakes_due-Serves transferred now d table st (done (retained, table', st1)) (answers, t, r) =
    (answers, (st1, t, r, refl, refl, refl, refl))
wakes_due-Serves transferred now d table st panicked h = h
wakes_due-Serves transferred now d table st out_of_rounds h = h

-- On a queue in order, the time critical tasks first transfer the ownership of every monitored
-- object, one after the other, and go on monitoring exactly those whose transfer reports that they
-- are awaited. Then they wake exactly the wakers whose deadline has passed, the earliest first, keep
-- the others, and wait until the first of their deadlines. They panic, or run out of rounds, only if
-- one of these transfers does, after the transfers before it.
pub process_time_critical_tasks-Serves :
    (transferred now : ℕ) (d : ThreadLocalData) (table : Table) (st : Store)
    → Ascending d.waker_queue
    → Serves transferred now d table st (process_time_critical_tasks transferred now d table st)
process_time_critical_tasks-Serves transferred now d table st a =
    subst (Serves transferred now d table st)
      (sym (process_time_critical_tasks-due transferred now d table st a))
      (wakes_due-Serves transferred now d table st _
        (retain_monitored-Retains transferred d.monitored_object_ids table st))
