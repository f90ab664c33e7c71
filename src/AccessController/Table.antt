-- ===== src/AccessController/Table.antt =====
-- src/access_controller.rs: the public operations on the table of database objects, up to the
-- point where a request waits, and the replay of a log.
use elektro_em_eukal.Base.{
  Outcome, done, out_of_rounds, panicked, ℕ, Bool, true, Option, none, some, update,
}
use elektro_em_eukal.Anchors.{Store, Error, Result, ok, err}
use elektro_em_eukal.AccessController.Object.{
  Request, Ownership, ObjectState, owned, push_request_shared, push_request_exclusive,
}
use elektro_em_eukal.AccessController.Create.{Created, try_create}
use elektro_em_eukal.AccessController.Exclusive.{Attempt}
use elektro_em_eukal.AccessController.Share.{try_share}
use elektro_em_eukal.AccessController.Lock.{try_lock}
use elektro_em_eukal.AccessController.Delete.{try_delete}
use elektro_em_eukal.AccessController.Requests.{rounds_for}

abbrev pub Table : Type 0
Table = ℕ → Option ObjectState

-- An operation ends in a result, or its request waits on the placeholder until the deadline.
pub data Reply : Type 0 where
  replied : Result Bool → Reply
  waiting : ℕ → ℕ → Reply

abbrev pub Operated : Type 0
Operated = Table × Store × Reply

abbrev pub store_of : Table → ℕ → ObjectState → Table
store_of table id object = update table id (some object)

-- The request is queued only on an awaitable that an access left without a result.
push_request : Request → ObjectState → Store → Option (ObjectState × Store)
unfolding push_request_shared push_request_exclusive
push_request r (owned (Ownership.created_awaitable e)) st =
    let (e', st') = push_request_exclusive r e st in
    some (owned (Ownership.created_awaitable e'), st')
push_request r (owned (Ownership.locked_awaitable e)) st =
    let (e', st') = push_request_exclusive r e st in
    some (owned (Ownership.locked_awaitable e'), st')
push_request r (owned (Ownership.deleted_awaitable e)) st =
    let (e', st') = push_request_exclusive r e st in
    some (owned (Ownership.deleted_awaitable e'), st')
push_request r (owned (Ownership.protected_awaitable s)) st =
    let (s', st') = push_request_shared r s st in
    some (owned (Ownership.protected_awaitable s'), st')
push_request r other st = none

-- `create` waits for an object that is being created, and for no other.
push_create : Request → ObjectState → Store → Option (ObjectState × Store)
unfolding push_request
push_create r (owned (Ownership.created_awaitable e)) st =
    push_request r (owned (Ownership.created_awaitable e)) st
push_create r other st = none

queued : Table → ℕ → ObjectState → Store → ℕ → ℕ → Option (ObjectState × Store) → Operated
queued table id object st placeholder deadline none =
    (store_of table id object, st, replied (err Error.serialization_failure))
queued table id object st placeholder deadline (some (object', st')) =
    (store_of table id object', st', waiting placeholder deadline)

conclude :
    (Request → ObjectState → Store → Option (ObjectState × Store))
    → Table
    → ℕ
    → Option ℕ
    → Request
    → ℕ
    → Outcome Created
    → Outcome Operated
unfolding queued
conclude push table id deadline r placeholder (done (st, object, err e)) =
    done (store_of table id object, st, replied (err e))
conclude push table id deadline r placeholder (done (st, object, ok (some b))) =
    done (store_of table id object, st, replied (ok b))
conclude push table id none r placeholder (done (st, object, ok none)) =
    done (store_of table id object, st, replied (err Error.serialization_failure))
conclude push table id (some d) r placeholder (done (st, object, ok none)) =
    done (queued table id object st placeholder d (push r object st))
conclude push table id deadline r placeholder panicked = panicked
conclude push table id deadline r placeholder out_of_rounds = out_of_rounds

keep_store : Store → Outcome Attempt → Outcome Created
keep_store st (done (object, r)) = done (st, object, r)
keep_store st panicked = panicked
keep_store st out_of_rounds = out_of_rounds

-- `now` is the wall clock and `placeholder` the address of the new `AccessRequestResult`.
module _ (id n : ℕ) (deadline : Option ℕ) (now placeholder : ℕ) (table : Table) (st : Store) where
  unfoldable pub create : Outcome Operated
  unfolding conclude push_create
  create = elim (table id) [
    | none ↦ done (store_of table id (owned (Ownership.created n)), st, replied (ok true))
    | some object ↦
        conclude push_create table id deadline (Request.create now n placeholder) placeholder
          (try_create st object n deadline)
  ]

  unfoldable pub share : Outcome Operated
  unfolding conclude push_request keep_store rounds_for
  share = elim (table id) [
    | none ↦ done (store_of table id (owned (Ownership.protected n)), st, replied (ok true))
    | some object ↦
        conclude push_request table id deadline (Request.protect now n placeholder) placeholder
          (keep_store st (try_share (rounds_for object) st object n deadline))
  ]

  unfoldable pub lock : Outcome Operated
  unfolding conclude push_request keep_store rounds_for
  lock = elim (table id) [
    | none ↦ done (store_of table id (owned (Ownership.locked n)), st, replied (ok true))
    | some object ↦
        conclude push_request table id deadline (Request.lock now n placeholder) placeholder
          (keep_store st (try_lock (rounds_for object) st object n deadline))
  ]

  unfoldable pub delete : Outcome Operated
  unfolding conclude push_request keep_store rounds_for
  delete = elim (table id) [
    | none ↦ done (store_of table id (owned (Ownership.deleted n)), st, replied (ok true))
    | some object ↦
        conclude push_request table id deadline (Request.delete now n placeholder) placeholder
          (keep_store st (try_delete (rounds_for object) st object n deadline))
  ]

unfoldable pub playback_create_sync : ℕ → ℕ → Table → Table
playback_create_sync id n table = store_of table id (owned (Ownership.created n))

unfoldable pub playback_delete_sync : ℕ → ℕ → Table → Table
playback_delete_sync id n table = store_of table id (owned (Ownership.deleted n))
