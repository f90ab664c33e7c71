-- ===== src/Waiting/Examples.antt =====
-- Polls of the futures of src/journal.rs on which the theorems about them are run.
use elektro_em_eukal.Base.{◌≡◌, refl, true, false, none, [], ◌∷◌}
use elektro_em_eukal.Anchors.{Store, State, Task, new_journal_anchor}
use elektro_em_eukal.Waiting.{AwaitResponse, AwaitEot, poll_response, poll_eot}
use elektro_em_eukal.Waiting.Wakers.{
  Responds, WaitsForEnd, poll_response-Responds, poll_eot-WaitsForEnd,
}

-- One task is queued, the channel has room for another, and transaction 0 is committing.
abbrev one_committing : Store
one_committing = record {
  transactions = λ a. record {
    state = State.committing;
    prepare_instant = 3;
    commit_instant = 0;
    waiting_readers = 5 ∷ [];
  };
  journals = λ j. new_journal_anchor 0 none;
  results = λ p. record { poisoned = false; result = none; waker = none };
  tasks = Task.monitor_object 4 ∷ [];
  channel_bound = 2;
  woken = [];
}

abbrev registered_response : AwaitResponse
registered_response = record {
  object_id = 4;
  object_id_registered = true;
  deadline = 20;
  result_placeholder = 1;
}

abbrev end_of_transaction : AwaitEot
end_of_transaction = record { transaction_anchor = 0; deadline = 20 }

-- The deadline has passed.
poll_response-Responds_example :
    Responds false 21 7 registered_response one_committing
      (poll_response false 21 7 registered_response one_committing)
poll_response-Responds_example =
    poll_response-Responds false 21 7 registered_response one_committing

poll_eot-WaitsForEnd_example :
    WaitsForEnd 9 7 end_of_transaction one_committing
      (poll_eot 9 7 end_of_transaction one_committing)
poll_eot-WaitsForEnd_example = poll_eot-WaitsForEnd 9 7 end_of_transaction one_committing

-- The transaction is committing: the reader is queued before the one that waits already.
poll_eot_queues :
    ((poll_eot 9 7 end_of_transaction one_committing).0.transactions 0).waiting_readers
    ≡ 7 ∷ (5 ∷ [])
unfolding poll_eot
poll_eot_queues = refl
