-- ===== src/AccessController/CollectExamples.antt =====
-- Objects of src/access_controller.rs on which the theorem about the garbage collection is run.
use elektro_em_eukal.Base.{refl, false, none, [], ◌∷◌, leb}
use elektro_em_eukal.Anchors.{Store, State, new_journal_anchor, eot_instant}
use elektro_em_eukal.AccessController.Object.{Ownership, owned}
use elektro_em_eukal.AccessController.Prepare.{prepare_ownership_transfer}
use elektro_em_eukal.AccessController.Collect.{collect}
use elektro_em_eukal.AccessController.Collected.{Collects, collect-Collects}

-- Every journal belongs to a transaction that has committed at the instant 5.
abbrev all_committed : Store
all_committed = record {
  transactions = λ a. record {
    state = State.committed;
    prepare_instant = 3;
    commit_instant = 5;
    waiting_readers = [];
  };
  journals = λ j. new_journal_anchor 0 none;
  results = λ p. record { poisoned = false; result = none; waker = none };
  tasks = [];
  channel_bound = 2;
  woken = [];
}

-- The deletion by journal 0 is collected once nobody reads before the instant 6.
collect-Collects_example :
    Collects all_committed (λ i. leb i 6) 1 (owned (Ownership.deleted 0)) (none, 5 ∷ [])
unfolding collect prepare_ownership_transfer eot_instant new_journal_anchor
collect-Collects_example =
    collect-Collects all_committed (λ i. leb i 6) 1 (owned (Ownership.deleted 0)) (none, 5 ∷ []) tt
      refl
