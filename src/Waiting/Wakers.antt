-- ===== src/Waiting/Wakers.antt =====
-- src/journal.rs: the results of the two futures, and that neither loses its waker.
use elektro_em_eukal.Base.{
  ℕ, ◌≤◌, ◌<◌, ◌≡◌, ◌⊎◌, Bool, true, false, Option, none, some, [], ◌∷◌, ◌++◌, arith,
}
use elektro_em_eukal.Anchors.{
  Store, Task, Error, Result, ok, err, send_task, wait_eot, transaction_eot_instant,
}
use elektro_em_eukal.Waiting.{
  AwaitResponse, AwaitEot, Poll, ready, pending, wake_by_ref, send_or_wake, register, poll_response,
  poll_eot,
}

-- The waker was woken, or the task processor has the task to wake it at the deadline.
abbrev pub IsCovered : ℕ → ℕ → Store → Store → Type 0
IsCovered waker deadline st st' =
    (st'.woken ≡ st.woken ++ (waker ∷ []))
    ⊎ (st'.tasks ≡ st.tasks ++ (Task.wake_up deadline waker ∷ []))

-- What a poll of the future `f` leaves.
abbrev pub Responds : Bool → ℕ → ℕ → AwaitResponse → Store → AwaitResponse × Store × Poll → Type 0
Responds contended now waker f st (f', st', ready r) =
    (contended ≡ false)
    × ((st.results f.result_placeholder).poisoned ≡ false)
    × ((st'.results f.result_placeholder).result ≡ some r)
    × (((st.results f.result_placeholder).result ≡ some r)
        ⊎ (((st.results f.result_placeholder).result ≡ none)
            × (r ≡ err Error.timeout)
            × (f.deadline < now)))
Responds contended now waker f st (f', st', pending) =
    ((st'.results f.result_placeholder).result ≡ (st.results f.result_placeholder).result)
    × ((((contended ≡ true) ⊎ ((st.results f.result_placeholder).poisoned ≡ true))
          × (st'.woken ≡ st.woken ++ (waker ∷ [])))
        ⊎ ((contended ≡ false)
            × ((st.results f.result_placeholder).poisoned ≡ false)
            × ((st.results f.result_placeholder).result ≡ none)
            × (now ≤ f.deadline)
            × ((st'.results f.result_placeholder).waker ≡ some waker)
            × IsCovered waker f.deadline st st'))

-- A poll finds its result only when it has the lock of a placeholder that is not poisoned: the
-- result was there, or there was none, the deadline has passed, and the timeout is put there, so that
-- the wait queue passes over the request. A poll that is pending changes no result. If it did not get
-- the lock, or the placeholder is poisoned, its waker was woken; otherwise the placeholder had no
-- result, the deadline has not passed, the placeholder holds the waker, and the waker was woken or is
-- to be woken at the deadline.
pub poll_response-Responds :
    (contended : Bool) (now waker : ℕ) (f : AwaitResponse) (st : Store)
    → Responds contended now waker f st (poll_response contended now waker f st)
unfolding poll_response register send_or_wake wake_by_ref send_task
poll_response-Responds contended now waker f st = ground arith

abbrev pub WaitsForEnd : ℕ → ℕ → AwaitEot → Store → Store × Option (Result (Unit {0})) → Type 0
WaitsForEnd now waker f st (st', some (ok u)) =
    (a : ℕ) × (transaction_eot_instant (st.transactions f.transaction_anchor) ≡ some a)
WaitsForEnd now waker f st (st', some (err e)) =
    (e ≡ Error.timeout)
    × (f.deadline < now)
    × (transaction_eot_instant (st.transactions f.transaction_anchor) ≡ none)
WaitsForEnd now waker f st (st', none) =
    (transaction_eot_instant (st.transactions f.transaction_anchor) ≡ none)
    × ((st'.transactions f.transaction_anchor).waiting_readers
        ≡ waker ∷ (st.transactions f.transaction_anchor).waiting_readers)
    × (now ≤ f.deadline)
    × IsCovered waker f.deadline st st'

-- A reader stops waiting when the transaction has ended, or by a timeout when it has not ended and
-- the deadline has passed. It goes on waiting only until its deadline; its waker is then among the waiting readers of the transaction, and was woken or is to be woken at
-- the deadline.
pub poll_eot-WaitsForEnd :
    (now waker : ℕ) (f : AwaitEot) (st : Store)
    → WaitsForEnd now waker f st (poll_eot now waker f st)
unfolding poll_eot wait_eot send_or_wake wake_by_ref send_task
poll_eot-WaitsForEnd now waker f st = ground arith
