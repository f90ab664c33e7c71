-- ===== src/Access.antt =====
-- src/journal.rs: `Anchor::grant_read_access` and `Anchor::grant_write_access`, what the owner of a
-- database object lets a reader and a competing journal do. The loads of one call are atomic
-- together: the store does not change while it runs.
use elektro_em_eukal.Base.{
  ℕ, Bool, true, false, ◌&&◌, ◌||◌, not, Option, none, some, if◌then◌else◌, ◌==◌, leb, is_some,
}
use elektro_em_eukal.Anchors.{
  Store, transaction_id, eot_instant, is_rolled_back, submit_instant, prepare_instant,
}
use elektro_em_eukal.Snapshot.{
  Snapshot, TransactionSnapshot, database_snapshot, transaction_snapshot_le,
}

pub data Relationship : Type 0 where
  committed : ℕ → Relationship
  rolled_back linearizable concurrent unknown : Relationship

-- `submit_instant.map_or(false, |i| creation_instant.map_or(false, |a| i <= a))`.
abbrev pub submitted_before : Option ℕ → Option ℕ → Bool
submitted_before none created = false
submitted_before (some i) none = false
submitted_before (some i) (some a) = leb i a

grant_write_ended : Store → ℕ → ℕ → Relationship
grant_write_ended st owner instant =
    if instant == 0 || is_rolled_back st owner
    then Relationship.rolled_back
    else Relationship.committed instant

grant_write_same_transaction : Store → ℕ → ℕ → Relationship
grant_write_same_transaction st owner requester =
    if submitted_before (submit_instant st owner) (st.journals requester).creation_instant
    then (if (st.journals owner).submitted then Relationship.linearizable else Relationship.unknown)
    else if is_rolled_back st owner
    then Relationship.rolled_back
    else Relationship.concurrent

grant_write_open : Store → ℕ → ℕ → Relationship
unfolding grant_write_same_transaction
grant_write_open st owner requester =
    if transaction_id st owner == transaction_id st requester
    then grant_write_same_transaction st owner requester
    else if is_rolled_back st owner
    then Relationship.rolled_back
    else Relationship.unknown

-- `grant_write_access` of the anchor `owner`, for the anchor `requester`.
unfoldable pub grant_write_access : Store → ℕ → ℕ → Relationship
unfolding grant_write_ended grant_write_open
grant_write_access st owner requester =
    if owner == requester then Relationship.linearizable else elim (eot_instant st owner) [
      | some instant ↦ grant_write_ended st owner instant
      | none ↦ grant_write_open st owner requester
    ]

-- The result of `grant_read_access`: the visibility, or a future that waits for the end of the
-- transaction until the deadline.
pub data ReadAccess : Type 0 where
  known : Bool → ReadAccess
  await_eot : ℕ → ℕ → ReadAccess

from_own_journal : Store → ℕ → Option ℕ → Bool
from_own_journal st owner none = false
from_own_journal st owner (some journal) = owner == journal

from_newer_journal : Store → ℕ → Option TransactionSnapshot → Bool
from_newer_journal st owner none = false
from_newer_journal st owner (some t) =
    is_some (submit_instant st owner)
    && transaction_snapshot_le
        (record { id = transaction_id st owner; instant = submit_instant st owner }) t

read_of_prepared : Store → ℕ → Snapshot → Option ℕ → Option ℕ → ReadAccess
read_of_prepared st owner s none deadline = known false
read_of_prepared st owner s (some prepared) deadline =
    if not (prepared == 0) && leb (database_snapshot s) prepared
    then known false
    else elim deadline [ some d ↦ await_eot (transaction_id st owner) d | none ↦ known false ]

read_of_ended : Store → ℕ → Snapshot → Option ℕ → Option ℕ → ReadAccess
unfolding read_of_prepared
read_of_ended st owner s (some ended) deadline =
    if is_rolled_back st owner
    then known false
    else known (not (ended == 0) && leb ended (database_snapshot s))
read_of_ended st owner s none deadline =
    read_of_prepared st owner s (prepare_instant (st.transactions (transaction_id st owner)))
      deadline

unfoldable pub grant_read_access : Store → ℕ → Snapshot → Option ℕ → ReadAccess
unfolding from_own_journal from_newer_journal read_of_ended
grant_read_access st owner s deadline =
    if from_own_journal st owner s.journal_snapshot
    then known true
    else if from_newer_journal st owner s.transaction_snapshot
    then known true
    else read_of_ended st owner s (eot_instant st owner) deadline
