-- ===== src/Recovery/Examples.antt =====
-- Logs of src/persistence_layer/file_io/recovery.rs on which the theorems about the recovery are run.
use elektro_em_eukal.Base.{ℕ, suc, ◌≡◌, ◌++◌, false, none, some, List, [], ◌∷◌, refl, arith, length}
use elektro_em_eukal.Anchors.{Store, State}
use elektro_em_eukal.LogRecord.{LogRecord, parts}
use elektro_em_eukal.LogRecord.Parts.{bytes_of}
use elektro_em_eukal.RandomAccessFile.{RandomAccessFile}
use elektro_em_eukal.FileIo.Refines.{all_bytes}
use elektro_em_eukal.Recovery.{Replay, Database, RecoveryData, new_recovery_data, recover_database}
use elektro_em_eukal.Recovery.Replayed.{replay, IsTorn}
use elektro_em_eukal.Recovery.Replays.{
  never, no_fault, taken, concluded_as, recover_database-replay,
}
use elektro_em_eukal.AccessController.Object.{Ownership}
use elektro_em_eukal.Recovery.Discards.{IsCommittedBy, discarded_log, replay-discarded}

abbrev empty_store : Store
empty_store = record {
  transactions = λ p. record {
    state = State.active;
    prepare_instant = 0;
    commit_instant = 0;
    waiting_readers = [];
  };
  journals = λ p. record {
    transaction_anchor = 0;
    creation_instant = none;
    submit_instant = 0;
    submitted = false;
    rolled_back = false;
    wake_up_others = false;
    next = none;
  };
  results = λ p. record { poisoned = false; result = none; waker = none };
  tasks = [];
  channel_bound = 2;
  woken = [];
}

abbrev empty_database : Database
empty_database = record { table = λ id. none; store = empty_store; free = 1; clock_updates = [] }

abbrev empty_replay : Replay
empty_replay = record {
  database = empty_database;
  playback_container = [];
  last_journal_anchor = none;
}

-- A transaction that creates an object in a journal and is committed.
abbrev records : List LogRecord
records =
    LogRecord.journal_created_object_single 4096 512 7
    ∷ (LogRecord.journal_submitted 4096 512 1 ∷ (LogRecord.transaction_committed 4096 9 ∷ []))

-- One byte of a record for a discarded journal.
abbrev torn_record : List ℕ
torn_record = 16 ∷ []

torn_record-IsTorn : IsTorn torn_record
unfolding parts bytes_of
torn_record-IsTorn = (
  LogRecord.buffer_discarded,
  0 ∷ (0 ∷ (0 ∷ (0 ∷ (0 ∷ (0 ∷ (0 ∷ [])))))),
  (tt, refl),
  refl,
  omega arith,
)

abbrev example_log : RandomAccessFile
example_log = record {
  content = all_bytes records ++ torn_record;
  len = length (all_bytes records ++ torn_record);
}

abbrev meanwhile : RecoveryData → RecoveryData
meanwhile r = record r { waker = some 3 }

recover_database-replay_example :
    recover_database
      (suc example_log.len)
      never
      no_fault
      meanwhile
      example_log
      (new_recovery_data empty_database none)
    ≡ concluded_as torn_record (meanwhile (taken empty_database none)) (replay records empty_replay)
unfolding taken new_recovery_data
recover_database-replay_example =
    recover_database-replay (suc example_log.len) meanwhile records torn_record example_log
      empty_database none
      (
        (((refl, omega arith), (refl, omega arith), omega arith), refl),
        (
          (((refl, omega arith), (refl, omega arith), omega arith), refl),
          ((((refl, omega arith), omega arith), refl), tt),
        ),
      )
      torn_record-IsTorn refl refl (omega arith) refl

replay-discarded_example :
    IsCommittedBy Ownership.created 7 2 9 5 (
      replay
        (discarded_log (LogRecord.journal_created_object_single 4096 512 7) 4096 9)
        empty_replay)
    × IsCommittedBy Ownership.deleted 7 2 9 5 (
        replay
          (discarded_log (LogRecord.journal_deleted_object_single 4096 512 7) 4096 9)
          empty_replay)
replay-discarded_example =
    replay-discarded 4096 512 7 9 5 empty_replay refl (omega arith) (λ e. omega (arith, e))
