-- ===== src/FileIo/Objects.antt =====
-- src/persistence_layer/file_io/mod.rs: `create` and `delete`, which log the identifiers of created and
-- of deleted objects; identifiers at a constant distance share a record. The two functions differ in
-- their records only.
use elektro_em_eukal.Base.{
  ℕ, ◌+◌, ◌-◌, ◌*◌, ◌^◌, ◌&&◌, not, Option, none, some, List, [], ◌∷◌, if◌then◌else◌, ◌==◌, ltb,
}
use elektro_em_eukal.LogRecord.{LogRecord}
use elektro_em_eukal.FileIo.{FileIo, write_log}

-- The record of `prev` and `id`, or none if the identifiers fall or are too far apart.
unfoldable pub pair : (ℕ → ℕ → ℕ → LogRecord) → ℕ → ℕ → Option LogRecord
pair range prev id =
    if ltb id prev
    then none
    else if ltb (id - prev) (2 ^ 32)
    then some (range prev (id - prev) 2)
    else none

-- A range with one more object.
unfoldable pub extend : (ℕ → ℕ → ℕ → LogRecord) → ℕ → ℕ → ℕ → ℕ → Option LogRecord
extend range start interval objects id =
    if ltb id start
    then none
    else if not (objects == 2 ^ 32 - 1) && (id - start == interval * objects)
    then some (range start interval (objects + 1))
    else none

unfoldable pub next_created : ℕ → ℕ → LogRecord → ℕ → Option LogRecord
unfolding pair extend
next_created t j (LogRecord.journal_created_object_single t' j' prev) id =
    pair (LogRecord.journal_created_object_range t j) prev id
next_created t j (LogRecord.journal_created_object_range t' j' start interval objects) id =
    extend (LogRecord.journal_created_object_range t j) start interval objects id
next_created t j r id = none

unfoldable pub next_deleted : ℕ → ℕ → LogRecord → ℕ → Option LogRecord
unfolding pair extend
next_deleted t j (LogRecord.journal_deleted_object_single t' j' prev) id =
    pair (LogRecord.journal_deleted_object_range t j) prev id
next_deleted t j (LogRecord.journal_deleted_object_range t' j' start interval objects) id =
    extend (LogRecord.journal_deleted_object_range t j) start interval objects id
next_deleted t j r id = none

-- The loop over the identifiers: the record that is being put together, and the current buffer.
module _ (single : ℕ → LogRecord) (next : LogRecord → ℕ → Option LogRecord) where
  unfoldable pub log_objects : List ℕ → Option LogRecord → ℕ → FileIo → Option (ℕ × FileIo)
  log_objects [] none b io = some (b, io)
  log_objects [] (some r) b io = write_log r b io
  log_objects (id ∷ ids) none b io = log_objects ids (some (single id)) b io
  log_objects (id ∷ ids) (some r) b io = elim (next r id) [
    | some r' ↦ log_objects ids (some r') b io
    | none ↦ elim (write_log r b io) [
      | none ↦ none
      | some (b', io') ↦ log_objects ids (some (single id)) b' io'
    ]
  ]

-- The log buffer that is current afterwards; `none` is a panic.
unfoldable pub create : ℕ → ℕ → ℕ → List ℕ → FileIo → Option (ℕ × FileIo)
unfolding log_objects next_created
create b t j ids io =
    log_objects (LogRecord.journal_created_object_single t j) (next_created t j) ids none b io

unfoldable pub delete : ℕ → ℕ → ℕ → List ℕ → FileIo → Option (ℕ × FileIo)
unfolding log_objects next_deleted
delete b t j ids io =
    log_objects (LogRecord.journal_deleted_object_single t j) (next_deleted t j) ids none b io
