-- ===== src/Transaction/Examples.antt =====
-- Transactions of src/transaction.rs on which the theorems about them are run.
use elektro_em_eukal.Base.{
  done, ℕ, ◌≡◌, refl, Bool, true, false, Option, none, some, [], ◌∷◌, arith, update,
}
use elektro_em_eukal.Anchors.{
  Store, State, JournalAnchor, is_rolled_back, transaction_eot_instant, wait_eot,
}
use elektro_em_eukal.Access.{Relationship, grant_write_access}
use elektro_em_eukal.Transaction.{
  Transaction, submit_journal, rewind, open_journal, now, begin_rollback, finish_rollback,
  rollback_internal, post_commit,
}
use elektro_em_eukal.Transaction.Strand.{Chain, submit_journal-Chain}
use elektro_em_eukal.Transaction.Rollback.{
  RollsBack, rollback_internal-RollsBack, rollback_forgets_reader,
}
use elektro_em_eukal.Transaction.PostCommit.{IsCommitted, post_commit-IsCommitted}
use elektro_em_eukal.Transaction.Rewind.{RewindsTo, rewind-RewindsTo, stale_instant_grants_access}

abbrev submitted_at : ℕ → Option ℕ → Bool → JournalAnchor
submitted_at instant older discarded = record {
  transaction_anchor = 0;
  creation_instant = none;
  submit_instant = instant;
  submitted = true;
  rolled_back = discarded;
  wake_up_others = false;
  next = older;
}

-- Journal 2 was submitted after journal 1, and journal 3 is open.
abbrev two_journals : Store
two_journals = record {
  transactions = λ a. record {
    state = State.active;
    prepare_instant = 0;
    commit_instant = 0;
    waiting_readers = [];
  };
  journals =
      update
        (update (λ j. record (submitted_at 0 none false) { submitted = false }) 1
          (submitted_at 1 none false))
        2 (submitted_at 2 (some 1) false);
  results = λ p. record { poisoned = false; result = none; waker = none };
  tasks = [];
  channel_bound = 4;
  woken = [];
}

abbrev example_transaction : Transaction
example_transaction = record {
  anchor = 0;
  durable_flush_epoch = 0;
  eot_log_buffer = true;
  journal_strand = some 2;
  xid = none;
  calls = [];
}

abbrev two_journals-Chain : Chain two_journals (some 2) (2 ∷ (1 ∷ []))
two_journals-Chain = (refl, refl, ((λ e. omega (arith, e)), tt), (refl, refl, tt, refl))

-- Two compare-and-exchanges fail before journal 3 is in the strand.
submit_journal-Chain_example :
    let r =
      submit_journal 3 true
        (some 8)
        (some 1 ∷ (some 2 ∷ []))
        (record example_transaction { journal_strand = none })
        two_journals in
    (r.2 ≡ 3)
    × Chain r.1 r.0.journal_strand (3 ∷ (2 ∷ (1 ∷ [])))
    × ((r.1.journals 3).submitted ≡ true)
submit_journal-Chain_example =
    submit_journal-Chain 3 true (some 8) (some 1 ∷ (some 2 ∷ []))
      (record example_transaction { journal_strand = none }) two_journals (2 ∷ (1 ∷ []))
      two_journals-Chain ((λ e. omega (arith, e)), ((λ e. omega (arith, e)), tt)) (omega arith)

rewind-RewindsTo_example :
    RewindsTo example_transaction two_journals
      (2 ∷ (1 ∷ []))
      (some 1)
      (rewind 2 (some 1) example_transaction two_journals)
rewind-RewindsTo_example =
    rewind-RewindsTo 2 (some 1) example_transaction two_journals (2 ∷ (1 ∷ [])) two_journals-Chain
      (omega arith)

-- Journal 2 has been undone by a rewind to the instant 1.
abbrev rewound : Store
rewound = record two_journals {
  journals = update two_journals.journals 2 (submitted_at 1 none true);
}

stale_instant_grants_access_example :
    (is_rolled_back
        (open_journal 4 (record example_transaction { journal_strand = some 1 }) rewound)
        2
      ≡ true)
    × (grant_write_access
          (open_journal 4 (record example_transaction { journal_strand = some 1 }) rewound)
          2
          4
        ≡ Relationship.linearizable)
unfolding transaction_eot_instant now
stale_instant_grants_access_example =
    stale_instant_grants_access two_journals rewound
      (record example_transaction { journal_strand = some 1 }) 2 4 0 (refl, refl, refl, refl) refl
      refl refl refl (λ e. omega (arith, e))

rollback_internal-RollsBack_example :
    RollsBack example_transaction two_journals
      (2 ∷ (1 ∷ []))
      (rollback_internal 2 example_transaction two_journals)
rollback_internal-RollsBack_example =
    rollback_internal-RollsBack 2 example_transaction two_journals (2 ∷ (1 ∷ [])) two_journals-Chain
      (omega arith)

post_commit-IsCommitted_example :
    IsCommitted example_transaction 6 two_journals
      (2 ∷ (1 ∷ []))
      (post_commit 2 6 example_transaction two_journals)
post_commit-IsCommitted_example =
    post_commit-IsCommitted 2 6 example_transaction two_journals (2 ∷ (1 ∷ [])) two_journals-Chain
      (omega arith)

abbrev no_journals : Transaction
no_journals = record example_transaction { journal_strand = none }

rollback_forgets_reader_example :
    let begun = begin_rollback 0 two_journals in
    let (waiting, seen) = wait_eot 0 77 begun in
    (begun.woken ≡ [])
    × ((begun.transactions 0).waiting_readers ≡ [])
    × (seen ≡ none)
    × ((t' : Transaction) × (st' : Store) × (finish_rollback 0 no_journals waiting ≡ done (t', st'))
        × ((st'.transactions 0).state ≡ State.rolled_back)
        × ((st'.transactions 0).waiting_readers ≡ 77 ∷ [])
        × (st'.woken ≡ begun.woken))
rollback_forgets_reader_example = rollback_forgets_reader 0 77 no_journals two_journals refl
