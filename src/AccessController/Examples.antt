-- ===== src/AccessController/Examples.antt =====
-- Objects and journals of src/access_controller.rs on which the theorems about them are run.
use elektro_em_eukal.Base.{
  done, ℕ, ◌≡◌, refl, Bool, true, false, not, Option, none, some, [], ◌∷◌, arith, update, is_some,
}
use elektro_em_eukal.Anchors.{
  Store, State, TransactionAnchor, JournalAnchor, ok, eot_instant, is_rolled_back, is_terminated,
  transaction_id, prepare_instant, submit_instant,
}
use elektro_em_eukal.Snapshot.{Snapshot, sees}
use elektro_em_eukal.Access.{grant_write_access, known}
use elektro_em_eukal.AccessController.Object.{
  Request, Ownership, exclusive, no_prior, prior, ObjectState, owned, queue_of, placeholder_of,
}
use elektro_em_eukal.AccessController.Prepare.{prepare_ownership_transfer}
use elektro_em_eukal.AccessController.Create.{try_create}
use elektro_em_eukal.AccessController.Share.{try_share}
use elektro_em_eukal.AccessController.Lock.{try_lock}
use elektro_em_eukal.AccessController.Delete.{try_delete}
use elektro_em_eukal.AccessController.Requests.{rounds_for}
use elektro_em_eukal.AccessController.Transfer.{transfer_object}
use elektro_em_eukal.AccessController.Read.{read_object}
use elektro_em_eukal.AccessController.LockExcludes.{LockExcludes, try_lock-LockExcludes}
use elektro_em_eukal.AccessController.DeleteExcludes.{DeleteExcludes, try_delete-DeleteExcludes}
use elektro_em_eukal.AccessController.ShareExcludes.{ShareExcludes, try_share-ShareExcludes}
use elektro_em_eukal.AccessController.Waiters.{Serves, try_access-Serves}
use elektro_em_eukal.AccessController.Served.{CreateServes, try_create-Serves}
use elektro_em_eukal.AccessController.Panic.{is_stuck, prepare-some_iff}
use elektro_em_eukal.AccessController.Transferred.{Transferred, transfer_object-Transferred}
use elektro_em_eukal.AccessController.Termination.{Ends, try_access-Ends}
use elektro_em_eukal.AccessController.Progress.{RollsJournalsBack}
use elektro_em_eukal.AccessController.Completion.{transfer_object-Ends}
use elektro_em_eukal.AccessController.Visibility.{prepare-read}
use elektro_em_eukal.AccessController.Anomalies.{
  discarded_changes_take_effect, deletion_forgets_creation, promotion_forgets_creation,
  deleted_creation_visible, promotion_loses_protection,
}

-- Transaction 0 has committed at the instant 5, transaction 1 is active, and transaction 2 was
-- rolled back.
abbrev transactions : ℕ → TransactionAnchor
transactions =
    update
      (update
        (λ a. record {
          state = State.active;
          prepare_instant = 0;
          commit_instant = 0;
          waiting_readers = [];
        })
        0
        (record {
          state = State.committed;
          prepare_instant = 4;
          commit_instant = 5;
          waiting_readers = [];
        }))
      2
      (record {
        state = State.rolled_back;
        prepare_instant = 0;
        commit_instant = 0;
        waiting_readers = [];
      })

abbrev journal_of : ℕ → Option ℕ → ℕ → Bool → JournalAnchor
journal_of transaction created submitted_at discarded = record {
  transaction_anchor = transaction;
  creation_instant = created;
  submit_instant = submitted_at;
  submitted = true;
  rolled_back = discarded;
  wake_up_others = false;
  next = none;
}

-- Journal 0 belongs to transaction 0, and so does journal 3, which was rolled back; the journals 1
-- and 4 belong to transaction 1 one after the other, journal 5 is a discarded one of it, and journal
-- 2 belongs to transaction 2.
abbrev journals : ℕ → JournalAnchor
journals =
    update
      (update
        (update
          (update
            (update (update (λ j. journal_of 1 none 0 false) 0 (journal_of 0 none 1 false)) 1
              (journal_of 1 none 1 false))
            2 (journal_of 2 none 1 true))
          3 (journal_of 0 none 1 true))
        4 (journal_of 1 (some 1) 2 false))
      5 (journal_of 1 none 1 true)

abbrev example_store : Store
example_store = record {
  transactions = transactions;
  journals = journals;
  results =
      update (λ p. record { poisoned = false; result = none; waker = none }) 9
        (record { poisoned = false; result = some (ok true); waker = none });
  tasks = [];
  channel_bound = 4;
  woken = [];
}

-- A snapshot of the database at an instant.
abbrev snapshot_at : ℕ → Snapshot
snapshot_at i = record {
  tracker = some i;
  transaction_snapshot = none;
  journal_snapshot = none;
  task_processor = 0;
}

-- A deletion that journal 1 promoted from a lock on an object that transaction 1 protects, with a
-- request that has its result already and two that wait.
abbrev waited_for : ObjectState
waited_for = owned (
    Ownership.deleted_awaitable (
      exclusive 0 5 (prior (Ownership.locked_awaitable (exclusive 0 1 no_prior [])))
        (Request.protect 9 3 9 ∷ (Request.lock 10 4 7 ∷ (Request.delete 11 0 8 ∷ [])))))

example_store-RollsJournalsBack : RollsJournalsBack example_store
unfolding eot_instant is_rolled_back
example_store-RollsJournalsBack j e = ground arith

-- Journal 4 locks an object that journal 1 of its transaction protects.
try_lock-LockExcludes_example :
    LockExcludes example_store 4
      (1 ∷ [])
      (try_lock 2 example_store (owned (Ownership.protected 1)) 4 none)
try_lock-LockExcludes_example =
    try_lock-LockExcludes 2 example_store (owned (Ownership.protected 1)) 4 none

-- Journal 4 deletes an object that journal 1 of its transaction protects.
try_delete-DeleteExcludes_example :
    DeleteExcludes example_store 4
      (1 ∷ [])
      (try_delete 2 example_store (owned (Ownership.protected 1)) 4 none)
try_delete-DeleteExcludes_example =
    try_delete-DeleteExcludes 2 example_store (owned (Ownership.protected 1)) 4 none

-- Journal 4 shares an object that the committed journal 0 had locked.
try_share-ShareExcludes_example :
    ShareExcludes example_store 4
      (0 ∷ [])
      (try_share 2 example_store (owned (Ownership.locked 0)) 4 none)
try_share-ShareExcludes_example =
    try_share-ShareExcludes 2 example_store (owned (Ownership.locked 0)) 4 none

-- The discarded deletion goes back to the lock. The first request keeps its result, and journal 4 gets
-- the lock before journal 0 is served.
transfer_object-Transferred_example :
    Transferred example_store (queue_of waited_for) (transfer_object 3 example_store waited_for)
transfer_object-Transferred_example =
    transfer_object-Transferred 3 example_store waited_for (tt, refl)

transferred_objects :
    (o : ObjectState) × (st : Store) × (transfer_object 3 example_store waited_for
      ≡ done (st, o, true))
    × (queue_of o ≡ Request.delete 11 0 8 ∷ [])
    × ((st.results 9).result ≡ some (ok true))
unfolding transfer_object prepare_ownership_transfer is_rolled_back try_lock is_terminated
    grant_write_access transaction_id submit_instant try_delete
transferred_objects = (_, _, refl, refl, refl)

try_access-Ends_example :
    Ends (is_stuck example_store waited_for) (try_share 3 example_store waited_for 4 (some 9))
    × Ends (is_stuck example_store waited_for) (try_lock 3 example_store waited_for 4 (some 9))
    × Ends (is_stuck example_store waited_for) (try_delete 3 example_store waited_for 4 (some 9))
unfolding rounds_for
try_access-Ends_example =
    try_access-Ends 3 example_store waited_for 4 (some 9) example_store-RollsJournalsBack (tt, refl)
      (omega arith)

transfer_object-Ends_example :
    Ends (is_stuck example_store waited_for) (transfer_object 3 example_store waited_for)
transfer_object-Ends_example =
    transfer_object-Ends 3 example_store waited_for example_store-RollsJournalsBack (tt, refl)

try_access-Serves_example :
    Serves (queue_of waited_for) (try_share 3 example_store waited_for 4 (some 9))
    × Serves (queue_of waited_for) (try_lock 3 example_store waited_for 4 (some 9))
    × Serves (queue_of waited_for) (try_delete 3 example_store waited_for 4 (some 9))
try_access-Serves_example = try_access-Serves 3 example_store waited_for 4 (some 9) (tt, refl)

-- A creation that was rolled back, with a request that waits for it.
abbrev discarded_creation : ObjectState
discarded_creation =
    owned (Ownership.created_awaitable (exclusive 0 2 no_prior (Request.lock 10 4 7 ∷ [])))

try_create-Serves_example :
    CreateServes example_store 1 discarded_creation
      (queue_of discarded_creation)
      (try_create example_store discarded_creation 1 none)
try_create-Serves_example = try_create-Serves example_store discarded_creation 1 none refl

-- A deletion that was promoted from a creation, waited for, and rolled back.
abbrev stuck : ObjectState
stuck = owned (
    Ownership.deleted_awaitable
      (exclusive 0 5 (prior (Ownership.created 1)) (Request.lock 10 4 7 ∷ [])))

prepare-some_iff_example :
    is_some (prepare_ownership_transfer example_store stuck) ≡ not (is_stuck example_store stuck)
prepare-some_iff_example = prepare-some_iff example_store stuck tt

prepare-read_example :
    read_object example_store (ObjectState.created 5) (snapshot_at 7) none
    ≡ read_object example_store (owned (Ownership.created 0)) (snapshot_at 7) none
unfolding prepare_ownership_transfer is_rolled_back sees eot_instant
prepare-read_example =
    prepare-read example_store (snapshot_at 7) none (refl, refl) (owned (Ownership.created 0))
      (ObjectState.created 5) refl (refl, tt) refl

discarded_changes_take_effect_example :
    ((prepare_ownership_transfer example_store (owned (Ownership.created 3))
        ≡ some (ObjectState.created 5))
      × (read_object example_store (owned (Ownership.created 3)) (snapshot_at 7) none ≡ known false)
      × (read_object example_store (ObjectState.created 5) (snapshot_at 7) none ≡ known true))
    × ((prepare_ownership_transfer example_store (owned (Ownership.deleted 3))
          ≡ some (ObjectState.deleted 5))
        × (read_object example_store (owned (Ownership.deleted 3)) (snapshot_at 7) none
            ≡ known true)
        × (read_object example_store (ObjectState.deleted 5) (snapshot_at 7) none ≡ known false))
unfolding eot_instant is_rolled_back sees
discarded_changes_take_effect_example =
    discarded_changes_take_effect example_store (snapshot_at 7) none (refl, refl) 3 4 refl refl refl

-- The object was created at 4 and deleted at 5, and the snapshot is taken at 3.
deletion_forgets_creation_example :
    (prepare_ownership_transfer example_store
        (owned (Ownership.deleted_awaitable (exclusive 4 0 no_prior [])))
      ≡ some (ObjectState.deleted 5))
    × (read_object example_store
          (owned (Ownership.deleted_awaitable (exclusive 4 0 no_prior [])))
          (snapshot_at 3)
          none
        ≡ known false)
    × (read_object example_store (ObjectState.deleted 5) (snapshot_at 3) none ≡ known true)
unfolding eot_instant sees
deletion_forgets_creation_example =
    deletion_forgets_creation example_store (snapshot_at 3) none (refl, refl) 4 0 4 refl refl
      (omega arith)

abbrev protected_since_4 : Ownership
protected_since_4 =
    Ownership.protected_awaitable
      (record { creation_instant = 4; owner_set = 1 ∷ []; wait_queue = [] })

promotion_forgets_creation_example :
    (try_lock 1 example_store (owned protected_since_4) 1 none
      ≡ done (
        owned (Ownership.locked_awaitable (exclusive 0 1 (prior protected_since_4) [])),
        ok (some true),
      ))
    × (read_object example_store (owned protected_since_4) (snapshot_at 3) none ≡ known false)
    × (read_object example_store
          (owned (Ownership.locked_awaitable (exclusive 0 1 (prior protected_since_4) [])))
          (snapshot_at 3)
          none
        ≡ known true)
unfolding sees is_terminated
promotion_forgets_creation_example =
    promotion_forgets_creation example_store (snapshot_at 3) none (refl, refl) 0 4 1 refl refl

deleted_creation_visible_example :
    (try_delete 1 example_store (owned (Ownership.created 1)) 4 none
      ≡ done (
        owned (Ownership.deleted_awaitable (exclusive 0 4 (prior (Ownership.created 1)) [])),
        ok (some true),
      ))
    × (read_object example_store (owned (Ownership.created 1)) (snapshot_at 3) none ≡ known false)
    × (read_object example_store
          (owned (Ownership.deleted_awaitable (exclusive 0 4 (prior (Ownership.created 1)) [])))
          (snapshot_at 3)
          none
        ≡ known true)
unfolding eot_instant prepare_instant transaction_id grant_write_access submit_instant
deleted_creation_visible_example =
    deleted_creation_visible example_store (snapshot_at 3) none (refl, refl) 0 1 4 refl refl refl
      refl refl

-- The request with the placeholder 9 has timed out; afterwards journal 1 is discarded.
abbrev after_rollback : Store
after_rollback = record example_store { journals = update journals 1 (journal_of 1 none 1 true) }

promotion_loses_protection_example :
    (transfer_object 3 example_store (
        owned (
          Ownership.locked_awaitable
            (exclusive 0 1 (prior (Ownership.protected 4)) (Request.lock 10 0 9 ∷ []))))
      ≡ done (example_store, owned (Ownership.locked 1), false))
    × (try_lock 1 after_rollback (owned (Ownership.locked 1)) 0 none
        ≡ done (owned (Ownership.locked 0), ok (some true)))
unfolding is_rolled_back eot_instant grant_write_access transaction_id submit_instant placeholder_of
promotion_loses_protection_example =
    promotion_loses_protection 3 0 example_store after_rollback 1 4 0 (Request.lock 10 0 9) none
      refl refl refl refl
