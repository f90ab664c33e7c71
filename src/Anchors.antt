-- ===== src/Anchors.antt =====
-- src/journal.rs and src/transaction.rs: the anchors of journals and transactions, the shared
-- objects through which the access controller sees who owns a database object and how far the
-- owner has got. Anchors are reached through reference-counted pointers that outlive every use,
-- so the store maps every address to an anchor. The same store holds the result placeholders of
-- waiting requests and the channel of src/task_processor.rs.
use elektro_em_eukal.Base.{
  ℕ, ◌-◌, ◌^◌, ◌+◌, Bool, true, false, ◌||◌, Option, none, some, List, [], ◌∷◌, ◌++◌, if◌then◌else◌,
  ltb, length, nonzero, is_some, min, update,
}

-- The error codes that the modelled code returns.
pub data Error : Type 0 where
  conflict corrupt_database deadlock : Error
  generic : ℕ → Error
  io : ℕ → Error
  not_found out_of_memory serialization_failure timeout unexpected_state : Error
  uniqueness_violation wrong_parameter : Error

pub data Result {ℓ} (A : Type ℓ) : Type ℓ where
  ok : A → Result A
  err : Error → Result A

pub data State : Type 0 where
  active committing committed rolling_back rolled_back : State

-- `impl From<State> for usize`.
pub to_usize : State → ℕ
to_usize State.active = 0
to_usize State.committing = 1
to_usize State.committed = 2
to_usize State.rolling_back = 3
to_usize State.rolled_back = 4

-- Wall-clock instants, wakers and addresses are numbers.
pub data Task : Type 0 where
  shutdown : Task
  wake_up : ℕ → ℕ → Task
  monitor_container : ℕ → Task
  monitor_object : ℕ → Task
  scan_access_controller : Task

-- `transaction::Anchor`.
pub record TransactionAnchor : Type 0 where
  pub state : State
  pub prepare_instant : ℕ
  pub commit_instant : ℕ
  pub waiting_readers : List ℕ

-- `journal::Anchor`; a submit instant of 0 stands for none.
pub record JournalAnchor : Type 0 where
  pub transaction_anchor : ℕ
  pub creation_instant : Option ℕ
  pub submit_instant : ℕ
  pub submitted : Bool
  pub rolled_back : Bool
  pub wake_up_others : Bool
  pub next : Option ℕ

-- `AccessRequestResult`: the mutex may be poisoned.
pub record AccessRequestResult : Type 0 where
  pub poisoned : Bool
  pub result : Option (Result Bool)
  pub waker : Option ℕ

pub record Store : Type 0 where
  pub transactions : ℕ → TransactionAnchor
  pub journals : ℕ → JournalAnchor
  pub results : ℕ → AccessRequestResult
  pub tasks : List Task
  pub channel_bound : ℕ
  pub woken : List ℕ

-- `transaction::Anchor::new`.
unfoldable pub new_transaction_anchor : TransactionAnchor
new_transaction_anchor = record {
  state = State.active;
  prepare_instant = 0;
  commit_instant = 0;
  waiting_readers = [];
}

-- `journal::Anchor::new`.
unfoldable pub new_journal_anchor : ℕ → Option ℕ → JournalAnchor
new_journal_anchor transaction created = record {
  transaction_anchor = transaction;
  creation_instant = created;
  submit_instant = 0;
  submitted = false;
  rolled_back = false;
  wake_up_others = false;
  next = none;
}

-- `TaskProcessor::send_task`: `try_send` fails when the channel is full.
unfoldable pub send_task : Task → Store → Store × Bool
send_task task st =
    if ltb (length st.tasks) st.channel_bound
    then (record st { tasks = st.tasks ++ (task ∷ []) }, true)
    else (st, false)

abbrev prepared_at : State → ℕ → Option ℕ
prepared_at State.active instant = none
prepared_at State.committing instant = some instant
prepared_at State.committed instant = some instant
prepared_at State.rolling_back instant = some instant
prepared_at State.rolled_back instant = some instant

-- `transaction::Anchor::prepare_instant`.
unfoldable pub prepare_instant : TransactionAnchor → Option ℕ
prepare_instant t = prepared_at t.state t.prepare_instant

abbrev ended_at : State → ℕ → Option ℕ
ended_at State.active instant = none
ended_at State.committing instant = none
ended_at State.committed instant = some instant
ended_at State.rolling_back instant = none
ended_at State.rolled_back instant = some instant

-- `transaction::Anchor::eot_instant`.
unfoldable pub transaction_eot_instant : TransactionAnchor → Option ℕ
transaction_eot_instant t = ended_at t.state t.commit_instant

-- `transaction::Anchor::wake_up` pops and wakes every waiting reader.
unfoldable pub wake_up_readers : ℕ → Store → Store
wake_up_readers transaction st =
    let t = st.transactions transaction in
    record st {
      transactions = update st.transactions transaction (record t { waiting_readers = [] });
      woken = st.woken ++ t.waiting_readers;
    }

-- `transaction::Anchor::wait_eot`.
unfoldable pub wait_eot : ℕ → ℕ → Store → Store × Option ℕ
unfolding transaction_eot_instant wake_up_readers
wait_eot transaction waker st =
    let t = st.transactions transaction in
    let pushed = record st {
      transactions =
          update st.transactions transaction
            (record t { waiting_readers = waker ∷ t.waiting_readers });
    } in
    elim (transaction_eot_instant t) [
      | none ↦ (pushed, none)
      | some instant ↦ (wake_up_readers transaction pushed, some instant)
    ]

-- The methods of `journal::Anchor`, each on the anchor at an address.
unfoldable pub transaction_id : Store → ℕ → ℕ
transaction_id st journal = (st.journals journal).transaction_anchor

unfoldable pub eot_instant : Store → ℕ → Option ℕ
unfolding transaction_eot_instant
eot_instant st journal =
    transaction_eot_instant (st.transactions (st.journals journal).transaction_anchor)

unfoldable pub is_rolled_back : Store → ℕ → Bool
is_rolled_back st journal = (st.journals journal).rolled_back

unfoldable pub is_terminated : Store → ℕ → Bool
unfolding eot_instant is_rolled_back
is_terminated st journal = is_some (eot_instant st journal) || is_rolled_back st journal

unfoldable pub submit_instant : Store → ℕ → Option ℕ
submit_instant st journal = nonzero (st.journals journal).submit_instant

abbrev write_journal : ℕ → JournalAnchor → Store → Store
write_journal journal a st = record st { journals = update st.journals journal a }

unfoldable pub set_wake_up_others : ℕ → Store → Store
set_wake_up_others journal st =
    write_journal journal (record (st.journals journal) { wake_up_others = true }) st

-- `wake_up_others` of an anchor: a full channel is ignored.
unfoldable pub wake_up_others : ℕ → Store → Store
unfolding send_task
wake_up_others journal st =
    if (st.journals journal).wake_up_others
    then (send_task Task.scan_access_controller st).0
    else st

-- `NonZeroU32::saturating_add(1)`, and 1 where there is no instant.
unfoldable pub instant_after : Option ℕ → ℕ
instant_after none = 1
instant_after (some i) = min (i + 1) (2 ^ 32 - 1)

abbrev submit_instant_of : Store → Option ℕ → Option ℕ
submit_instant_of st none = none
submit_instant_of st (some journal) = nonzero (st.journals journal).submit_instant

-- `set_next` of an anchor: the anchor that stood there before, and the new submit instant.
unfoldable pub set_next : ℕ → Option ℕ → Store → Store × Option ℕ × ℕ
unfolding instant_after
set_next journal next st =
    let a = st.journals journal in
    let instant = instant_after (submit_instant_of st next) in
    (write_journal journal (record a { submit_instant = instant; next = next }) st, a.next, instant)

unfoldable pub set_submit_instant : ℕ → ℕ → Store → Store
set_submit_instant journal instant st =
    write_journal journal (record (st.journals journal) { submit_instant = instant }) st

unfoldable pub submit : ℕ → Store → Store
unfolding wake_up_others
submit journal st =
    wake_up_others journal
      (write_journal journal (record (st.journals journal) { submitted = true }) st)

unfoldable pub commit : ℕ → Store → Store
unfolding wake_up_others
commit journal st = wake_up_others journal st

unfoldable pub rollback : ℕ → Store → Store
unfolding wake_up_others
rollback journal st =
    wake_up_others journal
      (write_journal journal (record (st.journals journal) { rolled_back = true }) st)
