-- ===== src/Recovery.antt =====
-- src/persistence_layer/file_io/recovery.rs: the database that is rebuilt from a log. What is behind the
-- mutex of the recovery data is a value here.

pub mod Polls
pub mod Replayed
pub mod Windows
pub mod Replays
pub mod Discards
pub mod Examples
use elektro_em_eukal.Base.{
  ℕ, zero, suc, ◌+◌, ◌-◌, ◌*◌, ◌%◌, ◌^◌, ◌≡◌, Bool, true, false, ◌&&◌, Option, none, some, List, [],
  ◌∷◌, ◌++◌, if◌then◌else◌, ◌==◌, ltb, length, is_empty, nonzero, update, Outcome, done, panicked,
  out_of_rounds,
}
use elektro_em_eukal.Anchors.{Store, Error, Result, ok, err, new_transaction_anchor}
use elektro_em_eukal.AccessController.Table.{Table, playback_create_sync, playback_delete_sync}
use elektro_em_eukal.LogRecord.{LogRecord, Parsed, parsed, too_short, from_raw_data}
use elektro_em_eukal.LogRecord
use elektro_em_eukal.RandomAccessFile.{RandomAccessFile, read}
use elektro_em_eukal.Playback.{
  Playback, new_playback, get_or_create_journal_anchor, submit_journal_anchor,
  discard_journal_anchor, rewind_playback, prepare_playback, commit_playback, rollback_playback,
}

-- The parts of the database that a log changes: a new anchor is put at the next free address, and
-- the instants with which the clock is updated are kept in order.
pub record Database : Type 0 where
  pub table : Table
  pub store : Store
  pub free : ℕ
  pub clock_updates : List ℕ

pub record MostRecentJournal : Type 0 where
  pub transaction_id : ℕ
  pub journal_id : ℕ

-- The variables of `recover_database`.
pub record Replay : Type 0 where
  pub database : Database
  pub playback_container : List (ℕ × Playback)
  pub last_journal_anchor : Option MostRecentJournal

abbrev pub find_playback : ℕ → List (ℕ × Playback) → Option Playback
find_playback t [] = none
find_playback t ((t', p) ∷ rest) =
    let later = find_playback t rest in if t == t' then some p else later

abbrev pub remove_playback : ℕ → List (ℕ × Playback) → List (ℕ × Playback)
remove_playback t [] = []
remove_playback t ((t', p) ∷ rest) =
    let others = remove_playback t rest in if t == t' then others else (t', p) ∷ others

abbrev pub put_playback : ℕ → Playback → List (ℕ × Playback) → List (ℕ × Playback)
put_playback t p l = (t, p) ∷ remove_playback t l

-- `entry(..).or_insert_with(..)`.
unfoldable pub playback_entry : ℕ → Replay → Replay × Playback
unfolding new_playback new_transaction_anchor
playback_entry t s = elim (find_playback t s.playback_container) [
  | some p ↦ (s, p)
  | none ↦
      let d = s.database in
      let p = new_playback d.free in
      (
        record s {
          database = record d {
            store = record d.store {
              transactions = update d.store.transactions d.free new_transaction_anchor;
            };
            free = d.free + 1;
          };
          playback_container = (t, p) ∷ s.playback_container;
        },
        p,
      )
]

-- The loop over the objects, by `playback_create_sync` or `playback_delete_sync`.
unfoldable pub change_objects : (ℕ → ℕ → Table → Table) → ℕ → List ℕ → Table → Table
change_objects change n [] table = table
change_objects change n (id ∷ ids) table = change_objects change n ids (change id n table)

-- The identifiers from the one at `i` on, modulo 2 ^ 64.
unfoldable pub objects_from : ℕ → ℕ → ℕ → ℕ → List ℕ
objects_from start interval i zero = []
objects_from start interval i (suc n) =
    ((start + i * interval) % 2 ^ 64) ∷ objects_from start interval (i + 1) n

-- The four records of created and of deleted objects.
unfoldable pub play_back_objects : (ℕ → ℕ → Table → Table) → ℕ → ℕ → List ℕ → Replay → Replay
unfolding playback_entry get_or_create_journal_anchor change_objects
play_back_objects change t j ids s =
    let (s', p) = playback_entry t s in
    let d = s'.database in
    let (p', st, n) = get_or_create_journal_anchor d.free j p d.store in
    record {
      database = record d {
        table = change_objects change n ids d.table;
        store = st;
        free = d.free + 1;
      };
      playback_container = put_playback t p' s'.playback_container;
      last_journal_anchor = some (record { transaction_id = t; journal_id = j });
    }

abbrev keep_playback : ℕ → Replay → Playback × Store → Replay
keep_playback t s (p, st) = record s {
  database = record s.database { store = st };
  playback_container = put_playback t p s.playback_container;
}

-- A journal ends; `none` is the panic where the transaction is unknown.
unfoldable pub end_journal : ℕ → (Playback → Store → Playback × Store) → Replay → Option Replay
end_journal t change s = elim (find_playback t s.playback_container) [
  | none ↦ none
  | some p ↦ some (keep_playback t s (change p s.database.store))
]

unfoldable pub discard_in : ℕ → Playback → Store → Playback × Store
unfolding discard_journal_anchor
discard_in j p st = (discard_journal_anchor j p, st)

-- The journal of the most recent change ends; `none` is the panic where there is none.
unfoldable pub end_most_recent : (ℕ → Playback → Store → Playback × Store) → Replay → Option Replay
unfolding end_journal
end_most_recent change s = elim s.last_journal_anchor [
  | none ↦ none
  | some l ↦
      end_journal l.transaction_id (change l.journal_id) (record s { last_journal_anchor = none })
]

unfoldable pub prepare_transaction : ℕ → ℕ → Replay → Replay
unfolding playback_entry prepare_playback
prepare_transaction t instant s =
    let (s', p) = playback_entry t s in
    let d = s'.database in
    let (clock, st) = prepare_playback instant p d.store in
    record s' {
      database = record d { store = st; clock_updates = d.clock_updates ++ (clock ∷ []) };
    }

unfoldable pub commit_transaction : ℕ → ℕ → Replay → Replay
unfolding playback_entry commit_playback
commit_transaction t instant s =
    let (s', p) = playback_entry t s in
    let d = s'.database in
    let (clock, st) = commit_playback instant p d.store in
    record s' {
      database = record d { store = st; clock_updates = d.clock_updates ++ (clock ∷ []) };
      playback_container = remove_playback t s'.playback_container;
    }

unfoldable pub roll_back_transaction : ℕ → ℕ → Replay → Replay
unfolding rollback_playback rewind_playback
roll_back_transaction t to s = elim (find_playback t s.playback_container) [
  | none ↦ s
  | some p ↦
      if to == 0
      then record s {
        database = record s.database { store = rollback_playback p s.database.store };
        playback_container = remove_playback t s.playback_container;
      }
      else keep_playback t s (rewind_playback (nonzero to) p s.database.store)
]

-- The arms of the match on a record; `none` is a panic.
unfoldable pub apply_record : LogRecord → Replay → Option Replay
unfolding play_back_objects objects_from end_most_recent discard_in end_journal
    submit_journal_anchor prepare_transaction commit_transaction roll_back_transaction
    playback_create_sync playback_delete_sync
apply_record LogRecord.end_of_log s = some s
apply_record (LogRecord.buffer_submitted instant) s =
    end_most_recent (λ j. submit_journal_anchor j instant) s
apply_record LogRecord.buffer_discarded s = end_most_recent discard_in s
apply_record (LogRecord.journal_created_object_single t j object) s =
    some (play_back_objects playback_create_sync t j (object ∷ []) s)
apply_record (LogRecord.journal_created_object_range t j start interval objects) s =
    some (play_back_objects playback_create_sync t j (objects_from start interval 0 objects) s)
apply_record (LogRecord.journal_deleted_object_single t j object) s =
    some (play_back_objects playback_delete_sync t j (object ∷ []) s)
apply_record (LogRecord.journal_deleted_object_range t j start interval objects) s =
    some (play_back_objects playback_delete_sync t j (objects_from start interval 0 objects) s)
apply_record (LogRecord.journal_submitted t j instant) s =
    end_journal t (submit_journal_anchor j instant) s
apply_record (LogRecord.journal_discarded t j) s = end_journal t (discard_in j) s
apply_record (LogRecord.transaction_prepared t instant) s = some (prepare_transaction t instant s)
apply_record (LogRecord.transaction_committed t instant) s = some (commit_transaction t instant s)
apply_record (LogRecord.transaction_rolled_back t to) s = some (roll_back_transaction t to s)

abbrev pub is_end_of_log : LogRecord → Bool
is_end_of_log LogRecord.end_of_log = true
is_end_of_log r = false

-- The loop over the records of a buffer that has `total` bytes; the bytes that were applied, or none
-- behind the end of the log.
unfoldable pub apply_records : ℕ → ℕ → List ℕ → Replay → Outcome (Replay × Option ℕ)
unfolding from_raw_data apply_record
apply_records zero total buffer s = if is_empty buffer then done (s, some total) else out_of_rounds
apply_records (suc rounds) total buffer s =
    let read_one : Outcome (Replay × Option ℕ) = elim (from_raw_data buffer) [
      | too_short ↦ done (s, some (total - length buffer))
      | LogRecord.panicked ↦ panicked
      | parsed r rest ↦
          let further : Outcome (Replay × Option ℕ) = elim (apply_record r s) [
            | none ↦ panicked
            | some s' ↦ apply_records rounds total rest s'
          ] in
          if is_end_of_log r then done (s, none) else further
    ] in
    if is_empty buffer then done (s, some total) else read_one

-- Every record takes bytes, so there are at most as many rounds.
unfoldable pub apply_to_database : List ℕ → Replay → Outcome (Replay × Option ℕ)
unfolding apply_records
apply_to_database buffer s = apply_records (length buffer) (length buffer) buffer s

-- The recovery is over at an offset of the log, or it was cancelled.
abbrev pub Recovered : Type 0
Recovered = Outcome (Option (Replay × ℕ))

abbrev pub advanced : ℕ → ℕ → Option ℕ → ℕ
advanced file_len offset none = file_len
advanced file_len offset (some n) = offset + n

unfoldable pub finish_tail : ℕ → ℕ → Outcome (Replay × Option ℕ) → Recovered
finish_tail file_len offset (done (s, n)) = done (some (s, advanced file_len offset n))
finish_tail file_len offset panicked = panicked
finish_tail file_len offset out_of_rounds = out_of_rounds

abbrev pub buffer_size : ℕ
buffer_size = 32

-- The part of the log that is shorter than the buffer. `cancelled` and `faults` tell for an offset
-- whether the recovery is cancelled then, and whether the read there fails.
module _ (cancelled : ℕ → Bool) (faults : ℕ → Option ℕ) (log : RandomAccessFile)
    (file_len : ℕ) where
  unfoldable pub recover_tail : ℕ → Replay → Recovered
  unfolding read apply_to_database finish_tail
  recover_tail offset s =
      let piece : Recovered = elim (read log (file_len - offset) offset (faults offset)) [
        | err e ↦ done (some (s, offset))
        | ok bytes ↦
            let applied = finish_tail file_len offset (apply_to_database bytes s) in
            if cancelled offset then done none else applied
      ] in
      if ltb offset file_len && ltb (file_len - offset) buffer_size
      then piece
      else done (some (s, offset))

  -- The loop over the windows of the log, and what follows it.
  unfoldable pub recover_windows : ℕ → ℕ → Replay → Recovered
  unfolding read apply_to_database recover_tail
  recover_windows zero offset s = out_of_rounds
  recover_windows (suc rounds) offset s = elim (read log buffer_size offset (faults offset)) [
    | err e ↦ recover_tail offset s
    | ok bytes ↦
        let applied : Recovered = elim (apply_to_database bytes s) [
          | done (s', some n) ↦ recover_windows rounds (offset + n) s'
          | done (s', none) ↦ recover_tail file_len s'
          | panicked ↦ panicked
          | out_of_rounds ↦ out_of_rounds
        ] in
        if cancelled offset then done none else applied
  ]

pub record RecoveryData : Type 0 where
  pub database : Option Database
  pub until : Option ℕ
  pub waker : Option ℕ
  pub result : Option (Result Database)

-- `RecoveryData::new`.
unfoldable pub new_recovery_data : Database → Option ℕ → RecoveryData
new_recovery_data database until = record {
  database = some database;
  until = until;
  waker = none;
  result = none;
}

-- The kind `InvalidData` of an input or output error.
abbrev pub invalid_data : ℕ
invalid_data = 21

-- The end of `recover_database`: the data, and the waker that is woken.
unfoldable pub conclude_recovery : ℕ → RecoveryData → Database → ℕ → RecoveryData × Option ℕ
conclude_recovery file_len r database offset = elim r.result [
  | some result ↦ (r, none)
  | none ↦ (
    record r {
      waker = none;
      result = some (if offset == file_len then ok database else err (Error.io invalid_data));
    },
    r.waker,
  )
]

unfoldable pub conclude_windows : ℕ → RecoveryData → Recovered → Outcome (RecoveryData × Option ℕ)
unfolding conclude_recovery
conclude_windows file_len r (done none) = done (r, none)
conclude_windows file_len r (done (some (s, offset))) =
    done (conclude_recovery file_len r s.database offset)
conclude_windows file_len r panicked = panicked
conclude_windows file_len r out_of_rounds = out_of_rounds

-- `recover_database`; another thread may cancel the recovery, or wait for it, until it concludes.
unfoldable pub recover_database :
    ℕ
    → (ℕ → Bool)
    → (ℕ → Option ℕ)
    → (RecoveryData → RecoveryData)
    → RandomAccessFile
    → RecoveryData
    → Outcome (RecoveryData × Option ℕ)
unfolding recover_windows conclude_windows
recover_database rounds cancelled faults meanwhile log r = elim r.database [
  | none ↦ panicked
  | some database ↦ conclude_windows log.len (meanwhile (record r { database = none })) (
      recover_windows cancelled faults log log.len rounds 0
        (record { database = database; playback_container = []; last_journal_anchor = none }))
]
