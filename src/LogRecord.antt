-- ===== src/LogRecord.antt =====
-- src/persistence_layer/file_io/log_record.rs: log records, and how they are written to and read
-- from a buffer of bytes. The bytes of a number stand in little-endian order, and an instant of the
-- sequencer is a `u64`.

pub mod Parts
pub mod Written
pub mod RoundTrip
pub mod Consumes
pub mod Opcodes
pub mod Truncated
pub mod Examples
use elektro_em_eukal.Base.{
  ℕ, zero, suc, ◌+◌, ◌-◌, ◌*◌, ◌/◌, ◌%◌, ◌^◌, Bool, true, false, Option, none, some, List, [], ◌∷◌,
  ◌++◌, if◌then◌else◌, ◌==◌, length,
}
use elektro_em_eukal.LogRecord.Parts.{read_part, write_parts, bit_or}

-- The fields are the transaction, the journal, the object identifier, the interval and the number of
-- objects, or an instant.
pub data LogRecord : Type 0 where
  end_of_log : LogRecord
  buffer_submitted : ℕ → LogRecord
  buffer_discarded : LogRecord
  journal_created_object_single : ℕ → ℕ → ℕ → LogRecord
  journal_created_object_range : ℕ → ℕ → ℕ → ℕ → ℕ → LogRecord
  journal_deleted_object_single : ℕ → ℕ → ℕ → LogRecord
  journal_deleted_object_range : ℕ → ℕ → ℕ → ℕ → ℕ → LogRecord
  journal_submitted : ℕ → ℕ → ℕ → LogRecord
  journal_discarded : ℕ → ℕ → LogRecord
  transaction_prepared : ℕ → ℕ → LogRecord
  transaction_committed : ℕ → ℕ → LogRecord
  transaction_rolled_back : ℕ → ℕ → LogRecord

abbrev pub buffer_submitted_opcode : ℕ
buffer_submitted_opcode = 8

abbrev pub buffer_discarded_opcode : ℕ
buffer_discarded_opcode = 16

abbrev pub journal_created_single : ℕ
journal_created_single = 0

abbrev pub journal_created_range : ℕ
journal_created_range = 1

abbrev pub journal_deleted_single : ℕ
journal_deleted_single = 2

abbrev pub journal_deleted_range : ℕ
journal_deleted_range = 3

abbrev pub journal_submitted_opcode : ℕ
journal_submitted_opcode = 4

abbrev pub journal_discarded_opcode : ℕ
journal_discarded_opcode = 5

abbrev pub transaction_updated : ℕ
transaction_updated = 4

abbrev pub transaction_prepared_opcode : ℕ
transaction_prepared_opcode = 5

abbrev pub transaction_committed_opcode : ℕ
transaction_committed_opcode = 6

abbrev pub transaction_rolled_back_opcode : ℕ
transaction_rolled_back_opcode = 7

-- What parsing ends in: a record and the rest of the bytes, too few bytes, or the panic of
-- `unimplemented!()` and `unreachable!()`.
pub data Parsed : Type 0 where
  parsed : LogRecord → List ℕ → Parsed
  too_short : Parsed
  panicked : Parsed

unfoldable pub read_single : (ℕ → LogRecord) → List ℕ → Parsed
read_single make value = elim (read_part 8 value) [
  | none ↦ too_short
  | some (object, rest) ↦ parsed (make object) rest
]

unfoldable pub read_range : (ℕ → ℕ → ℕ → LogRecord) → List ℕ → Parsed
read_range make value = elim (read_part 8 value) [
  | none ↦ too_short
  | some (object, value1) ↦ elim (read_part 4 value1) [
    | none ↦ too_short
    | some (interval, value2) ↦ elim (read_part 4 value2) [
      | none ↦ too_short
      | some (objects, rest) ↦ parsed (make object interval objects) rest
    ]
  ]
]

unfoldable pub read_instant : (ℕ → LogRecord) → List ℕ → Parsed
read_instant make value = elim (read_part 4 value) [
  | none ↦ too_short
  | some (instant, rest) ↦ parsed (make instant) rest
]

-- The record of a journal `j` in the transaction `t`, by the opcode of the journal.
unfoldable pub read_updated : ℕ → ℕ → ℕ → List ℕ → Parsed
unfolding read_single read_range read_instant
read_updated opcode t j value =
    if opcode == journal_created_single
    then read_single (LogRecord.journal_created_object_single t j) value
    else if opcode == journal_created_range
    then read_range (LogRecord.journal_created_object_range t j) value
    else if opcode == journal_deleted_single
    then read_single (LogRecord.journal_deleted_object_single t j) value
    else if opcode == journal_deleted_range
    then read_range (LogRecord.journal_deleted_object_range t j) value
    else if opcode == journal_submitted_opcode
    then read_instant (LogRecord.journal_submitted t j) value
    else if opcode == journal_discarded_opcode
    then parsed (LogRecord.journal_discarded t j) value
    else panicked

unfoldable pub read_journal : ℕ → List ℕ → Parsed
unfolding read_updated
read_journal t value = elim (read_part 8 value) [
  | none ↦ too_short
  | some (journal_id_with_opcode, rest) ↦
      read_updated (journal_id_with_opcode % 8) t
        (journal_id_with_opcode - journal_id_with_opcode % 8) rest
]

-- By the opcode of the transaction, which is not zero.
unfoldable pub read_transaction : ℕ → ℕ → List ℕ → Parsed
unfolding read_journal read_single read_instant
read_transaction opcode t value =
    if opcode == transaction_updated
    then read_journal t value
    else if opcode == transaction_prepared_opcode
    then read_single (LogRecord.transaction_prepared t) value
    else if opcode == transaction_committed_opcode
    then read_single (LogRecord.transaction_committed t) value
    else if opcode == transaction_rolled_back_opcode
    then read_instant (LogRecord.transaction_rolled_back t) value
    else panicked

-- By the opcode in the lowest byte.
unfoldable pub read_buffer : ℕ → ℕ → List ℕ → Parsed
read_buffer word opcode value =
    if opcode == buffer_submitted_opcode
    then parsed (LogRecord.buffer_submitted (word / 2 ^ 32)) value
    else if opcode == buffer_discarded_opcode
    then parsed LogRecord.buffer_discarded value
    else panicked

unfoldable pub read_word : ℕ → List ℕ → Parsed
unfolding read_buffer read_transaction
read_word word value =
    if word == 0
    then parsed LogRecord.end_of_log value
    else if word % 8 == 0
    then read_buffer word (word % 256 - word % 8) value
    else read_transaction (word % 8) (word - word % 8) value

unfoldable pub from_raw_data : List ℕ → Parsed
unfolding read_word
from_raw_data value = elim (read_part 8 value) [
  | none ↦ too_short
  | some (transaction_id_with_opcode, rest) ↦ read_word transaction_id_with_opcode rest
]

-- The calls of `write_part`, in order: the width in bytes, and the value.
unfoldable pub parts : LogRecord → List (ℕ × ℕ)
unfolding bit_or
parts LogRecord.end_of_log = (8, 0) ∷ []
parts (LogRecord.buffer_submitted instant) =
    (8, bit_or 64 (instant * 2 ^ 32 % 2 ^ 64) buffer_submitted_opcode) ∷ []
parts LogRecord.buffer_discarded = (8, buffer_discarded_opcode) ∷ []
parts (LogRecord.journal_created_object_single t j object) =
    (8, bit_or 64 t transaction_updated)
    ∷ ((8, bit_or 64 j journal_created_single) ∷ ((8, object) ∷ []))
parts (LogRecord.journal_created_object_range t j object interval objects) =
    (8, bit_or 64 t transaction_updated)
    ∷ ((8, bit_or 64 j journal_created_range)
        ∷ ((8, object) ∷ ((4, interval) ∷ ((4, objects) ∷ []))))
parts (LogRecord.journal_deleted_object_single t j object) =
    (8, bit_or 64 t transaction_updated)
    ∷ ((8, bit_or 64 j journal_deleted_single) ∷ ((8, object) ∷ []))
parts (LogRecord.journal_deleted_object_range t j object interval objects) =
    (8, bit_or 64 t transaction_updated)
    ∷ ((8, bit_or 64 j journal_deleted_range)
        ∷ ((8, object) ∷ ((4, interval) ∷ ((4, objects) ∷ []))))
parts (LogRecord.journal_submitted t j instant) =
    (8, bit_or 64 t transaction_updated)
    ∷ ((8, bit_or 64 j journal_submitted_opcode) ∷ ((4, instant) ∷ []))
parts (LogRecord.journal_discarded t j) =
    (8, bit_or 64 t transaction_updated) ∷ ((8, bit_or 64 j journal_discarded_opcode) ∷ [])
parts (LogRecord.transaction_prepared t instant) =
    (8, bit_or 64 t transaction_prepared_opcode) ∷ ((8, instant) ∷ [])
parts (LogRecord.transaction_committed t instant) =
    (8, bit_or 64 t transaction_committed_opcode) ∷ ((8, instant) ∷ [])
parts (LogRecord.transaction_rolled_back t to) =
    (8, bit_or 64 t transaction_rolled_back_opcode) ∷ ((4, to) ∷ [])

-- `write` into a buffer: the buffer afterwards, and the number of bytes written, `none` if the
-- buffer is too short.
unfoldable pub write : LogRecord → List ℕ → List ℕ × Option ℕ
unfolding parts write_parts
write r buffer = write_parts (parts r) buffer
