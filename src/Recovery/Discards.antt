-- ===== src/Recovery/Discards.antt =====
-- src/persistence_layer/file_io/recovery.rs: what the recovery makes of a journal that was discarded in a
-- transaction that was committed.
use elektro_em_eukal.Base.{
  ℕ, ◌+◌, ◌≡◌, ◌≢◌, ◌<◌, refl, ap, ◌∙◌, true, false, Option, none, some, List, [], ◌∷◌, arith, ◌==◌,
}
use elektro_em_eukal.Anchors.{Store, is_rolled_back, eot_instant}
use elektro_em_eukal.Access.{Relationship, grant_write_access}
use elektro_em_eukal.AccessController.Object.{Ownership, owned}
use elektro_em_eukal.LogRecord.{LogRecord}
use elektro_em_eukal.Recovery.{
  Replay, find_playback, put_playback, keep_playback, discard_in, apply_record, play_back_objects,
  playback_entry, change_objects, end_journal, end_most_recent, commit_transaction,
}
use elektro_em_eukal.AccessController.Table.{Table, playback_create_sync, playback_delete_sync}
use elektro_em_eukal.Playback.{
  Playback, get_or_create_journal_anchor, new_playback, discard_journal_anchor, commit_playback,
  commit_submitted, commit_unbounded,
}
use elektro_em_eukal.FileIo.Linked.{update_self}
use elektro_em_eukal.Anchors.{
  JournalAnchor, new_journal_anchor, wake_up_readers, transaction_eot_instant,
}
use elektro_em_eukal.Recovery.Replayed.{replay}

-- The object has the ownership `make n` of the journal anchor `n`, and competing journals take that
-- owner for one that was committed at the instant.
abbrev pub IsCommittedBy : (ℕ → Ownership) → ℕ → ℕ → ℕ → ℕ → Option Replay → Type 0
IsCommittedBy make object n instant requester none = true ≡ false
IsCommittedBy make object n instant requester (some s) =
    (s.database.table object ≡ some (owned (make n)))
    × (grant_write_access s.database.store n requester ≡ Relationship.committed instant)

same : (n : ℕ) → (n == n) ≡ true
same n = ground arith

after : (n : ℕ) → (n + 1 == n) ≡ false
after n = ground arith

-- A transaction that has created or deleted an object in the journal anchor `n`, its journal `j`, and
-- no journal of which was submitted.
record Began (make : ℕ → Ownership) (object n t j : ℕ) (s : Replay) : Type 0 where
  pub playback : Playback
  pub found : find_playback t s.playback_container ≡ some playback
  pub anchor : (s.database.store.journals n).transaction_anchor ≡ playback.anchor
  pub kept : (s.database.store.journals n).rolled_back ≡ false
  pub none_submitted : playback.submitted_journal_anchors ≡ []
  pub none_unbounded : playback.submitted_unbounded_journal_anchors ≡ []
  pub owner : s.database.table object ≡ some (owned (make n))

put-found :
    (t : ℕ) (p : Playback) (l : List (ℕ × Playback)) → find_playback t (put_playback t p l) ≡ some p
put-found t p l = rw (same t) refl

-- The change `change` gives the object the ownership `make`.
Gives : (ℕ → ℕ → Table → Table) → (ℕ → Ownership) → ℕ → Type 0
Gives change make object =
    (n : ℕ) (table : Table) → change object n table object ≡ some (owned (make n))

playback_create_sync-Gives : (object : ℕ) → Gives playback_create_sync Ownership.created object
unfolding playback_create_sync Gives
playback_create_sync-Gives object n table = update_self table object _

playback_delete_sync-Gives : (object : ℕ) → Gives playback_delete_sync Ownership.deleted object
unfolding playback_delete_sync Gives
playback_delete_sync-Gives object n table = update_self table object _

changed-Began :
    (change : ℕ → ℕ → Table → Table) (make : ℕ → Ownership) (t j object : ℕ) (s : Replay)
    → Gives change make object
    → find_playback t s.playback_container ≡ none
    → let s' = play_back_objects change t j (object ∷ []) s in
      Began make object (s.database.free + 1) t j s'
      × (s'.last_journal_anchor ≡ some (record { transaction_id = t; journal_id = j }))
unfolding play_back_objects playback_entry change_objects get_or_create_journal_anchor new_playback
    new_journal_anchor Gives
changed-Began change make t j object s g h =
    rw (play_back_objects, playback_entry, h)
      (
        record {
          playback = _;
          found = put-found t _ ((t, new_playback s.database.free) ∷ s.playback_container);
          anchor =
              ap (λ (x : JournalAnchor). x.transaction_anchor)
                (update_self s.database.store.journals (s.database.free + 1) _);
          kept =
              ap (λ (x : JournalAnchor). x.rolled_back)
                (update_self s.database.store.journals (s.database.free + 1) _);
          none_submitted = refl;
          none_unbounded = refl;
          owner = g (s.database.free + 1) s.database.table;
        },
        refl,
      )

commit_bare :
    (n instant : ℕ) (p : Playback) (st : Store)
    → p.submitted_journal_anchors ≡ []
    → p.submitted_unbounded_journal_anchors ≡ []
    → let st' = (commit_playback instant p st).1 in
      (st'.journals n ≡ st.journals n)
      × (transaction_eot_instant (st'.transactions p.anchor) ≡ some instant)
unfolding commit_playback commit_submitted commit_unbounded wake_up_readers transaction_eot_instant
commit_bare n instant p st e e' = rw (commit_playback, e, e') (refl, rw (same p.anchor) refl)

commit_found :
    (t instant : ℕ) (s : Replay) (p : Playback)
    → find_playback t s.playback_container ≡ some p
    → let s' = commit_transaction t instant s in
      (s'.database.table ≡ s.database.table)
      × (s'.database.store ≡ (commit_playback instant p s.database.store).1)
unfolding commit_transaction playback_entry
commit_found t instant s p h = rw (commit_transaction, playback_entry, h) (refl, refl)

granted :
    (n instant requester a : ℕ) (st : Store)
    → requester ≢ n
    → 0 < instant
    → (st.journals n).transaction_anchor ≡ a
    → (st.journals n).rolled_back ≡ false
    → transaction_eot_instant (st.transactions a) ≡ some instant
    → grant_write_access st n requester ≡ Relationship.committed instant
unfolding grant_write_access eot_instant is_rolled_back
granted n instant requester a st h z e e' t =
    let other : (n == requester) ≡ false = ground arith in
    let some_instant : (instant == 0) ≡ false = ground arith in
    rw (grant_write_access, eot_instant, is_rolled_back, other, e, t, some_instant, e') refl

module _ (make : ℕ → Ownership) (object n t j instant requester : ℕ) where
  -- The journal is no longer open, and nothing else changes.
  discarded-Began :
      (s : Replay) (b : Began make object n t j s)
      → Began make object n t j (
          keep_playback t
            (record s { last_journal_anchor = none })
            (discard_journal_anchor j b.playback, s.database.store))
  unfolding discard_journal_anchor
  discarded-Began s b = record {
    playback = discard_journal_anchor j b.playback;
    found = put-found t _ _;
    anchor = b.anchor;
    kept = b.kept;
    none_submitted = b.none_submitted;
    none_unbounded = b.none_unbounded;
    owner = b.owner;
  }

  committed-Committed :
      (s : Replay)
      → Began make object n t j s
      → 0 < instant
      → requester ≢ n
      → IsCommittedBy make object n instant requester (some (commit_transaction t instant s))
  committed-Committed s b z h =
      let (e, e') = commit_found t instant s b.playback b.found in
      let (f, f') =
        commit_bare n instant b.playback s.database.store b.none_submitted b.none_unbounded in
      (
        ap (λ x. x object) e ∙ b.owner,
        rw e' (
            granted n instant requester b.playback.anchor _ h z
              (ap (λ (x : JournalAnchor). x.transaction_anchor) f ∙ b.anchor)
              (ap (λ (x : JournalAnchor). x.rolled_back) f ∙ b.kept) f'),
      )

  discarded-Committed :
      (s : Replay)
      → Began make object n t j s
      → s.last_journal_anchor ≡ some (record { transaction_id = t; journal_id = j })
      → 0 < instant
      → requester ≢ n
      → IsCommittedBy make object n instant requester
          (replay (LogRecord.buffer_discarded ∷ (LogRecord.transaction_committed t instant ∷ [])) s)
  unfolding replay apply_record end_most_recent end_journal discard_in
  discarded-Committed s b l z h =
      rw (IsCommittedBy, end_most_recent, l, end_journal, b.found)
        (committed-Committed _ (discarded-Began s b) z h)

-- The log of a journal `j` that logs one record, whose log buffer is discarded, and whose
-- transaction is committed.
abbrev pub discarded_log : LogRecord → ℕ → ℕ → List LogRecord
discarded_log change t instant =
    change ∷ (LogRecord.buffer_discarded ∷ (LogRecord.transaction_committed t instant ∷ []))

-- In the recovery a journal whose log buffer was discarded ends as if it had been submitted. The
-- transaction is new to the recovery, and its journal creates or deletes one object: when the
-- transaction is committed, at an instant that is not 0, the object belongs to the journal as created
-- or deleted, and another journal finds that its owner was committed at that instant.
pub replay-discarded :
    (t j object instant requester : ℕ) (s : Replay)
    → find_playback t s.playback_container ≡ none
    → 0 < instant
    → requester ≢ s.database.free + 1
    → IsCommittedBy Ownership.created object
        (s.database.free + 1)
        instant
        requester
        (replay (discarded_log (LogRecord.journal_created_object_single t j object) t instant) s)
      × IsCommittedBy Ownership.deleted object
          (s.database.free + 1)
          instant
          requester
          (replay (discarded_log (LogRecord.journal_deleted_object_single t j object) t instant) s)
unfolding replay apply_record
replay-discarded t j object instant requester s h z r =
    let n = s.database.free + 1 in
    let (created, last) =
      changed-Began playback_create_sync Ownership.created t j object s
        (playback_create_sync-Gives object) h in
    let (deleted, last') =
      changed-Began playback_delete_sync Ownership.deleted t j object s
        (playback_delete_sync-Gives object) h in
    (
      discarded-Committed Ownership.created object n t j instant requester _ created last z r,
      discarded-Committed Ownership.deleted object n t j instant requester _ deleted last' z r,
    )
