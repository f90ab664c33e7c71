-- ===== src/Snapshot.antt =====
-- src/snapshot.rs: what a reader sees of the database, of its transaction and of its journal.
use elektro_em_eukal.Base.{
  ℕ, Bool, false, Option, none, some, if◌then◌else◌, ◌==◌, leb, ltb, value_or_zero, option_le,
}

pub record TransactionSnapshot : Type 0 where
  pub id : ℕ
  pub instant : Option ℕ

-- A tracker is the instant that it holds; a journal snapshot is the journal's identifier; the task
-- processor is the address by which two databases are told apart.
pub record Snapshot : Type 0 where
  pub tracker : Option ℕ
  pub transaction_snapshot : Option TransactionSnapshot
  pub journal_snapshot : Option ℕ
  pub task_processor : ℕ

abbrev or_else {ℓ} : {A : Type ℓ} → Option A → Option A → Option A
or_else none b = b
or_else (some a) b = some a

unfoldable pub combine : Snapshot → Snapshot → Snapshot
combine s other =
    if s.task_processor == other.task_processor
    then record {
      tracker = or_else s.tracker other.tracker;
      transaction_snapshot = or_else s.transaction_snapshot other.transaction_snapshot;
      journal_snapshot = or_else s.journal_snapshot other.journal_snapshot;
      task_processor = s.task_processor;
    }
    else s

unfoldable pub from_database : ℕ → ℕ → Snapshot
from_database task_processor tracked = record {
  tracker = some tracked;
  transaction_snapshot = none;
  journal_snapshot = none;
  task_processor = task_processor;
}

unfoldable pub from_journal : ℕ → ℕ → Snapshot
from_journal task_processor journal = record {
  tracker = none;
  transaction_snapshot = none;
  journal_snapshot = some journal;
  task_processor = task_processor;
}

unfoldable pub from_transaction : ℕ → TransactionSnapshot → Snapshot
from_transaction task_processor t = record {
  tracker = none;
  transaction_snapshot = some t;
  journal_snapshot = none;
  task_processor = task_processor;
}

-- `S::Instant::default()` is 0.
unfoldable pub database_snapshot : Snapshot → ℕ
database_snapshot s = value_or_zero s.tracker

-- `*snapshot >= instant` and `*snapshot < instant`.
unfoldable pub sees : Snapshot → ℕ → Bool
unfolding database_snapshot
sees s instant = leb instant (database_snapshot s)

unfoldable pub precedes : Snapshot → ℕ → Bool
unfolding database_snapshot
precedes s instant = ltb (database_snapshot s) instant

-- `a <= b` through `partial_cmp`: snapshots of two transactions are not ordered.
unfoldable pub transaction_snapshot_le : TransactionSnapshot → TransactionSnapshot → Bool
transaction_snapshot_le a b = if a.id == b.id then option_le a.instant b.instant else false
