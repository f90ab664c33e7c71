-- ===== src/Waiting.antt =====
-- src/journal.rs: the futures `AwaitResponse`, of a request for a database object, and `AwaitEOT`, of
-- a reader that waits for the end of a transaction. A waker is a number; `woken` of the store is the
-- list of the wakers that were woken.

pub mod Wakers
pub mod Examples
use elektro_em_eukal.Base.{
  ℕ, Bool, true, false, ◌||◌, not, Option, none, some, List, [], ◌∷◌, ◌++◌, if◌then◌else◌, ltb,
  update, is_some,
}
use elektro_em_eukal.Anchors.{
  Store, Task, Error, Result, ok, err, AccessRequestResult, send_task, wait_eot,
  transaction_eot_instant,
}

pub record AwaitResponse : Type 0 where
  pub object_id : ℕ
  pub object_id_registered : Bool
  pub deadline : ℕ
  pub result_placeholder : ℕ

pub record AwaitEot : Type 0 where
  pub transaction_anchor : ℕ
  pub deadline : ℕ

pub data Poll : Type 0 where
  ready : Result Bool → Poll
  pending : Poll

unfoldable pub wake_by_ref : ℕ → Store → Store
wake_by_ref waker st = record st { woken = st.woken ++ (waker ∷ []) }

-- A task is sent to the task processor; the waker is woken at once if the channel is full, or if
-- `anyway`.
unfoldable pub send_or_wake : Bool → Task → ℕ → Store → Store
unfolding send_task wake_by_ref
send_or_wake anyway task waker st =
    let (st', sent) = send_task task st in if anyway || not sent then wake_by_ref waker st' else st'

-- The second half of the poll: the object is registered with the task processor at first, and
-- afterwards the task processor is to wake the waker at the deadline.
unfoldable pub register : ℕ → AwaitResponse → Store → AwaitResponse × Store
unfolding send_or_wake send_task
register waker f st =
    if f.object_id_registered
    then (f, send_or_wake false (Task.wake_up f.deadline waker) waker st)
    else (
      record f { object_id_registered = (send_task (Task.monitor_object f.object_id) st).1 },
      send_or_wake true (Task.monitor_object f.object_id) waker st,
    )

abbrev write_result : ℕ → AccessRequestResult → Store → Store
write_result p r st = record st { results = update st.results p r }

poll_placeholder :
    ℕ → ℕ → AwaitResponse → Store → Option (Result Bool) → AwaitResponse × Store × Poll
unfolding register
poll_placeholder now waker f st (some r) = (f, st, ready r)
poll_placeholder now waker f st none =
    let p = st.results f.result_placeholder in
    if ltb f.deadline now
    then (
      f,
      write_result f.result_placeholder (record p { result = some (err Error.timeout) }) st,
      ready (err Error.timeout),
    )
    else let (f', st') =
        register waker f (write_result f.result_placeholder (record p { waker = some waker }) st) in
      (f', st', pending)

-- `AwaitResponse::poll` at the time `now`; `contended` tells that somebody else holds the lock of the
-- placeholder.
unfoldable pub poll_response : Bool → ℕ → ℕ → AwaitResponse → Store → AwaitResponse × Store × Poll
unfolding poll_placeholder wake_by_ref
poll_response contended now waker f st =
    if contended || (st.results f.result_placeholder).poisoned
    then (f, wake_by_ref waker st, pending)
    else poll_placeholder now waker f st (st.results f.result_placeholder).result

-- `AwaitEOT::poll`.
unfoldable pub poll_eot : ℕ → ℕ → AwaitEot → Store → Store × Option (Result (Unit {0}))
unfolding wait_eot transaction_eot_instant send_or_wake
poll_eot now waker f st =
    if is_some (transaction_eot_instant (st.transactions f.transaction_anchor))
    then (st, some (ok tt))
    else if ltb f.deadline now
    then (st, some (err Error.timeout))
    else let (st', ended) = wait_eot f.transaction_anchor waker st in
      elim ended [
        | some instant ↦ (st', some (ok tt))
        | none ↦ (send_or_wake false (Task.wake_up f.deadline waker) waker st', none)
      ]
