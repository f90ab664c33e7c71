-- ===== src/AccessController/Transfer.antt =====
-- src/access_controller.rs: `transfer_ownership_sync`, which the task processor calls for every
-- object that requests wait for.
use elektro_em_eukal.Base.{
  Outcome, done, out_of_rounds, panicked, ℕ, Bool, false, Option, none, some, List, [],
}
use elektro_em_eukal.Anchors.{Store}
use elektro_em_eukal.AccessController.Object.{Request, Ownership, exclusive, ObjectState, owned}
use elektro_em_eukal.AccessController.Prepare.{prepare_ownership_transfer}
use elektro_em_eukal.AccessController.Table.{Table, store_of}
use elektro_em_eukal.AccessController.Requests.{process_wait_queue, post_process_object_state}

-- `take(&mut wait_queue)`; an owner without a queue has none to take.
unfoldable pub take_wait_queue : ObjectState → ObjectState × Option (List Request)
take_wait_queue (owned (Ownership.created_awaitable (exclusive i o p q))) =
    (owned (Ownership.created_awaitable (exclusive i o p [])), some q)
take_wait_queue (owned (Ownership.locked_awaitable (exclusive i o p q))) =
    (owned (Ownership.locked_awaitable (exclusive i o p [])), some q)
take_wait_queue (owned (Ownership.deleted_awaitable (exclusive i o p q))) =
    (owned (Ownership.deleted_awaitable (exclusive i o p [])), some q)
take_wait_queue (owned (Ownership.protected_awaitable s)) =
    (owned (Ownership.protected_awaitable (record s { wait_queue = [] })), some s.wait_queue)
take_wait_queue other = (other, none)

unfoldable pub serve :
    ℕ → Store → ObjectState × Option (List Request) → Outcome (Store × ObjectState × Bool)
unfolding process_wait_queue post_process_object_state
serve now st (object, none) = done (post_process_object_state st object none)
serve now st (object, some q) = elim (process_wait_queue now st object q) [
  | done (st', object', q') ↦ done (post_process_object_state st' object' q')
  | panicked ↦ panicked
  | out_of_rounds ↦ out_of_rounds
]

-- The transfer on one object: the store, the object, and whether it is still waited for.
unfoldable pub transfer_object : ℕ → Store → ObjectState → Outcome (Store × ObjectState × Bool)
unfolding serve take_wait_queue
transfer_object now st object = elim (prepare_ownership_transfer st object) [
  | none ↦ panicked
  | some prepared ↦ serve now st (take_wait_queue prepared)
]

unfoldable pub transfer_ownership_sync : ℕ → ℕ → Table → Store → Outcome (Table × Store × Bool)
unfolding transfer_object
transfer_ownership_sync now id table st = elim (table id) [
  | none ↦ done (table, st, false)
  | some object ↦ elim (transfer_object now st object) [
    | done (st', object', awaited) ↦ done (store_of table id object', st', awaited)
    | panicked ↦ panicked
    | out_of_rounds ↦ out_of_rounds
  ]
]
