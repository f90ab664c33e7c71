-- ===== src/LogRecord/RoundTrip.antt =====
-- src/persistence_layer/file_io/log_record.rs: what `write` writes, `from_raw_data` reads.
use elektro_em_eukal.Base.{
  ℕ, ◌+◌, ◌-◌, ◌*◌, ◌/◌, ◌%◌, ◌^◌, ◌≤◌, ◌<◌, ◌≡◌, refl, ◌∙◌, ap, subst, false, some, List, ◌++◌,
  ◌==◌, length, arith,
}
use elektro_em_eukal.LogRecord.Parts.{
  read_part, bytes_of, drop, bit_or, bit_or-scaled, scaled, read_part-bytes_of,
}
use elektro_em_eukal.LogRecord.Written.{size, written, write_parts-written}
use elektro_em_eukal.LogRecord.{
  LogRecord, parsed, read_single, read_range, read_instant, read_updated, read_journal,
  read_transaction, read_buffer, read_word, from_raw_data, parts, write, buffer_discarded_opcode,
}

-- An address of an anchor, with its three lowest bits clear.
abbrev pub IsAddress : ℕ → Type 0
IsAddress a = (a % 8 ≡ 0) × (a < 2 ^ 64)

-- The debug assertions of `write`, and the ranges of the fields' types.
abbrev pub IsValid : LogRecord → Type 0
IsValid LogRecord.end_of_log = Unit {0}
IsValid (LogRecord.buffer_submitted instant) = instant < 2 ^ 32
IsValid LogRecord.buffer_discarded = Unit {0}
IsValid (LogRecord.journal_created_object_single t j object) =
    IsAddress t × IsAddress j × (object < 2 ^ 64)
IsValid (LogRecord.journal_created_object_range t j object interval objects) =
    IsAddress t × IsAddress j × (object < 2 ^ 64) × (interval < 2 ^ 32) × (objects < 2 ^ 32)
IsValid (LogRecord.journal_deleted_object_single t j object) =
    IsAddress t × IsAddress j × (object < 2 ^ 64)
IsValid (LogRecord.journal_deleted_object_range t j object interval objects) =
    IsAddress t × IsAddress j × (object < 2 ^ 64) × (interval < 2 ^ 32) × (objects < 2 ^ 32)
IsValid (LogRecord.journal_submitted t j instant) = IsAddress t × IsAddress j × (instant < 2 ^ 32)
IsValid (LogRecord.journal_discarded t j) = IsAddress t × IsAddress j
IsValid (LogRecord.transaction_prepared t instant) = IsAddress t × (instant < 2 ^ 64)
IsValid (LogRecord.transaction_committed t instant) = IsAddress t × (instant < 2 ^ 64)
IsValid (LogRecord.transaction_rolled_back t to) = IsAddress t × (to < 2 ^ 32)

bit_or-address :
    (t opcode : ℕ) → t % 8 ≡ 0 → t < 2 ^ 64 → opcode < 8 → bit_or 64 t opcode ≡ t + opcode
bit_or-address t opcode e l h =
    let aligned : scaled 3 (t / 8) ≡ t = omega arith in
    subst (λ x. bit_or 64 x opcode ≡ x + opcode) aligned
      (bit_or-scaled 3 61 (t / 8) opcode h (omega arith))

bit_or-buffer : (i : ℕ) → i < 2 ^ 32 → bit_or 64 (i * 2 ^ 32 % 2 ^ 64) 8 ≡ i * 2 ^ 32 + 8
bit_or-buffer i l =
    let aligned : scaled 4 (i * 2 ^ 28) ≡ i * 2 ^ 32 % 2 ^ 64 = omega arith in
    subst (λ x. bit_or 64 x 8 ≡ i * 2 ^ 32 + 8) aligned
      (bit_or-scaled 4 60 (i * 2 ^ 28) 8 (omega arith) (omega arith) ∙ omega arith)

module _ (rest : List ℕ) where
  read_single-written :
      (make : ℕ → LogRecord) (v : ℕ)
      → v < 2 ^ 64
      → read_single make (bytes_of 8 v ++ rest) ≡ parsed (make v) rest
  unfolding read_single
  read_single-written make v h = rw (read_single, read_part-bytes_of 8 v rest h) refl

  read_instant-written :
      (make : ℕ → LogRecord) (v : ℕ)
      → v < 2 ^ 32
      → read_instant make (bytes_of 4 v ++ rest) ≡ parsed (make v) rest
  unfolding read_instant
  read_instant-written make v h = rw (read_instant, read_part-bytes_of 4 v rest h) refl

  read_range-written :
      (make : ℕ → ℕ → ℕ → LogRecord) (object interval objects : ℕ)
      → object < 2 ^ 64
      → interval < 2 ^ 32
      → objects < 2 ^ 32
      → read_range make (bytes_of 8 object ++ (bytes_of 4 interval ++ (bytes_of 4 objects ++ rest)))
        ≡ parsed (make object interval objects) rest
  unfolding read_range
  read_range-written make object interval objects h k l =
      rw
        (
          read_range,
          read_part-bytes_of 8 object (bytes_of 4 interval ++ (bytes_of 4 objects ++ rest)) h,
          read_part-bytes_of 4 interval (bytes_of 4 objects ++ rest) k,
          read_part-bytes_of 4 objects rest l,
        )
        refl

  read_journal-written :
      (t j opcode : ℕ)
      → j % 8 ≡ 0
      → j < 2 ^ 64
      → opcode < 8
      → read_journal t (bytes_of 8 (bit_or 64 j opcode) ++ rest) ≡ read_updated opcode t j rest
  unfolding read_journal
  read_journal-written t j opcode e l h =
      let word : bit_or 64 j opcode ≡ j + opcode = bit_or-address j opcode e l h in
      let clear : (j + opcode) % 8 ≡ opcode = omega arith in
      let address : j + opcode - opcode ≡ j = omega arith in
      rw (read_journal, word, read_part-bytes_of 8 (j + opcode) rest (omega arith), clear, address)
        refl

  from_raw_data-written :
      (t opcode : ℕ)
      → t % 8 ≡ 0
      → t < 2 ^ 64
      → opcode < 8
      → 0 < opcode
      → from_raw_data (bytes_of 8 (bit_or 64 t opcode) ++ rest) ≡ read_transaction opcode t rest
  unfolding from_raw_data read_word
  from_raw_data-written t opcode e l h p =
      let word : bit_or 64 t opcode ≡ t + opcode = bit_or-address t opcode e l h in
      let clear : (t + opcode) % 8 ≡ opcode = omega arith in
      let address : t + opcode - opcode ≡ t = omega arith in
      let nonzero_word : (t + opcode == 0) ≡ false = ground arith in
      let nonzero_opcode : (opcode == 0) ≡ false = ground arith in
      rw
        (
          from_raw_data,
          word,
          read_part-bytes_of 8 (t + opcode) rest (omega arith),
          read_word,
          nonzero_word,
          clear,
          nonzero_opcode,
          address,
        )
        refl

  from_raw_data-buffer :
      (i : ℕ)
      → i < 2 ^ 32
      → from_raw_data (bytes_of 8 (bit_or 64 (i * 2 ^ 32 % 2 ^ 64) 8) ++ rest)
        ≡ parsed (LogRecord.buffer_submitted i) rest
  unfolding from_raw_data read_word read_buffer
  from_raw_data-buffer i l =
      let word : bit_or 64 (i * 2 ^ 32 % 2 ^ 64) 8 ≡ i * 2 ^ 32 + 8 = bit_or-buffer i l in
      let nonzero_word : (i * 2 ^ 32 + 8 == 0) ≡ false = ground arith in
      let clear : (i * 2 ^ 32 + 8) % 8 ≡ 0 = omega arith in
      let opcode : (i * 2 ^ 32 + 8) % 256 ≡ 8 = omega arith in
      let instant : (i * 2 ^ 32 + 8) / 2 ^ 32 ≡ i = omega arith in
      rw
        (
          from_raw_data,
          word,
          read_part-bytes_of 8 (i * 2 ^ 32 + 8) rest (omega arith),
          read_word,
          nonzero_word,
          clear,
          opcode,
          read_buffer,
          instant,
        )
        refl

  from_raw_data-end : from_raw_data (bytes_of 8 0 ++ rest) ≡ parsed LogRecord.end_of_log rest
  unfolding from_raw_data read_word read_part bytes_of
  from_raw_data-end = refl

  from_raw_data-discarded :
      from_raw_data (bytes_of 8 buffer_discarded_opcode ++ rest)
      ≡ parsed LogRecord.buffer_discarded rest
  unfolding from_raw_data read_word read_buffer read_part bytes_of
  from_raw_data-discarded = refl

-- Parsing what was written gives the record back, and the bytes that follow it.
pub from_raw_data-parts :
    (r : LogRecord) (rest : List ℕ)
    → IsValid r
    → from_raw_data (written (parts r) rest) ≡ parsed r rest
unfolding parts read_updated read_transaction
from_raw_data-parts LogRecord.end_of_log rest h = from_raw_data-end rest
from_raw_data-parts (LogRecord.buffer_submitted instant) rest h =
    from_raw_data-buffer rest instant h
from_raw_data-parts LogRecord.buffer_discarded rest h = from_raw_data-discarded rest
from_raw_data-parts (LogRecord.journal_created_object_single t j object) rest (a, b, c) =
    from_raw_data-written _ t 4 a.0 a.1 (omega arith) (omega arith)
    ∙ read_journal-written _ t j 0 b.0 b.1 (omega arith)
    ∙ read_single-written rest _ object c
from_raw_data-parts (LogRecord.journal_created_object_range t j object interval objects) rest
      (a, b, c, d, e) =
    from_raw_data-written _ t 4 a.0 a.1 (omega arith) (omega arith)
    ∙ read_journal-written _ t j 1 b.0 b.1 (omega arith)
    ∙ read_range-written rest _ object interval objects c d e
from_raw_data-parts (LogRecord.journal_deleted_object_single t j object) rest (a, b, c) =
    from_raw_data-written _ t 4 a.0 a.1 (omega arith) (omega arith)
    ∙ read_journal-written _ t j 2 b.0 b.1 (omega arith)
    ∙ read_single-written rest _ object c
from_raw_data-parts (LogRecord.journal_deleted_object_range t j object interval objects) rest
      (a, b, c, d, e) =
    from_raw_data-written _ t 4 a.0 a.1 (omega arith) (omega arith)
    ∙ read_journal-written _ t j 3 b.0 b.1 (omega arith)
    ∙ read_range-written rest _ object interval objects c d e
from_raw_data-parts (LogRecord.journal_submitted t j instant) rest (a, b, c) =
    from_raw_data-written _ t 4 a.0 a.1 (omega arith) (omega arith)
    ∙ read_journal-written _ t j 4 b.0 b.1 (omega arith)
    ∙ read_instant-written rest _ instant c
from_raw_data-parts (LogRecord.journal_discarded t j) rest (a, b) =
    from_raw_data-written _ t 4 a.0 a.1 (omega arith) (omega arith)
    ∙ read_journal-written rest t j 5 b.0 b.1 (omega arith)
from_raw_data-parts (LogRecord.transaction_prepared t instant) rest (a, b) =
    from_raw_data-written _ t 5 a.0 a.1 (omega arith) (omega arith)
    ∙ read_single-written rest _ instant b
from_raw_data-parts (LogRecord.transaction_committed t instant) rest (a, b) =
    from_raw_data-written _ t 6 a.0 a.1 (omega arith) (omega arith)
    ∙ read_single-written rest _ instant b
from_raw_data-parts (LogRecord.transaction_rolled_back t to) rest (a, b) =
    from_raw_data-written _ t 7 a.0 a.1 (omega arith) (omega arith)
    ∙ read_instant-written rest _ to b

-- A valid record that is written into a buffer with room for it is read back from there, with the
-- bytes of the buffer that follow it, and `write` returns how many bytes it has.
pub write-from_raw_data :
    (r : LogRecord) (buffer : List ℕ)
    → IsValid r
    → size (parts r) ≤ length buffer
    → ((write r buffer).1 ≡ some (size (parts r)))
      × (from_raw_data (write r buffer).0 ≡ parsed r (drop (size (parts r)) buffer))
unfolding write
write-from_raw_data r buffer v h =
    let w = write_parts-written (parts r) buffer h in
    (
      ap (λ x. x.1) w,
      ap (λ x. from_raw_data x.0) w ∙ from_raw_data-parts r (drop (size (parts r)) buffer) v,
    )
