-- ===== src/LogRecord/Truncated.antt =====
-- src/persistence_layer/file_io/log_record.rs: what `from_raw_data` makes of a record that is cut off.
use elektro_em_eukal.Base.{
  ℕ, zero, suc, ◌+◌, ◌-◌, ◌*◌, ◌%◌, ◌<◌, ◌≡◌, refl, sym, ◌∙◌, Bool, true, false, Option, none, some,
  List, [], ◌∷◌, ◌++◌, if◌then◌else◌, ◌==◌, length, arith,
}
use elektro_em_eukal.LogRecord.Parts.{read_part}
use elektro_em_eukal.LogRecord.{
  LogRecord, Parsed, parsed, too_short, panicked, read_single, read_range, read_instant,
  read_updated, read_journal, read_transaction, read_buffer, read_word, from_raw_data,
  buffer_submitted_opcode, buffer_discarded_opcode, journal_created_single, journal_created_range,
  journal_deleted_single, journal_deleted_range, journal_submitted_opcode, journal_discarded_opcode,
  transaction_updated, transaction_prepared_opcode, transaction_committed_opcode,
  transaction_rolled_back_opcode,
}

module _ (more : List ℕ) where
  -- With more bytes behind, the same is read.
  abbrev ReadsOn : Option (ℕ × List ℕ) → Option (ℕ × List ℕ) → Type 0
  ReadsOn none b = Unit {0}
  ReadsOn (some (v, rest)) b = b ≡ some (v, rest ++ more)

  abbrev pub ParsesOn : Parsed → Parsed → Type 0
  ParsesOn (parsed r rest) b = b ≡ parsed r (rest ++ more)
  ParsesOn too_short b = Unit {0}
  ParsesOn panicked b = b ≡ panicked

  read_next :
      (b : ℕ) (o o' : Option (ℕ × List ℕ))
      → ReadsOn o o'
      → ReadsOn
          (elim o [ none ↦ none | some (v, rest) ↦ some (b + 256 * v, rest) ])
          (elim o' [ none ↦ none | some (v, rest) ↦ some (b + 256 * v, rest) ])
  read_next b none o' h = tt
  read_next b (some (v, rest)) o' h = rw h refl

  read_part-ReadsOn :
      (width : ℕ) (value : List ℕ)
      → ReadsOn (read_part width value) (read_part width (value ++ more))
  unfolding read_part
  read_part-ReadsOn zero value = refl
  read_part-ReadsOn (suc width) [] = tt
  read_part-ReadsOn (suc width) (b ∷ value) =
      read_next b (read_part width value) (read_part width (value ++ more))
        (read_part-ReadsOn width value)

  -- A parser that reads a number first and goes on with `k`.
  then-ParsesOn :
      (k : ℕ → List ℕ → Parsed) (o o' : Option (ℕ × List ℕ))
      → ((v : ℕ) (rest : List ℕ) → ParsesOn (k v rest) (k v (rest ++ more)))
      → ReadsOn o o'
      → ParsesOn
          (elim o [ none ↦ too_short | some (v, rest) ↦ k v rest ])
          (elim o' [ none ↦ too_short | some (v, rest) ↦ k v rest ])
  then-ParsesOn k none o' h r = tt
  then-ParsesOn k (some (v, rest)) o' h r = rw r (h v rest)

  read_single-ParsesOn :
      (make : ℕ → LogRecord) (value : List ℕ)
      → ParsesOn (read_single make value) (read_single make (value ++ more))
  unfolding read_single
  read_single-ParsesOn make value =
      then-ParsesOn (λ v rest. parsed (make v) rest) (read_part 8 value) _ (λ v rest. refl)
        (read_part-ReadsOn 8 value)

  read_instant-ParsesOn :
      (make : ℕ → LogRecord) (value : List ℕ)
      → ParsesOn (read_instant make value) (read_instant make (value ++ more))
  unfolding read_instant
  read_instant-ParsesOn make value =
      then-ParsesOn (λ v rest. parsed (make v) rest) (read_part 4 value) _ (λ v rest. refl)
        (read_part-ReadsOn 4 value)

  read_range-ParsesOn :
      (make : ℕ → ℕ → ℕ → LogRecord) (value : List ℕ)
      → ParsesOn (read_range make value) (read_range make (value ++ more))
  unfolding read_range
  read_range-ParsesOn make value =
      then-ParsesOn _ (read_part 8 value) (read_part 8 (value ++ more))
        (λ object value1.
          then-ParsesOn _ (read_part 4 value1) (read_part 4 (value1 ++ more))
            (λ interval value2.
              then-ParsesOn (λ v rest. parsed (make object interval v) rest) (read_part 4 value2)
                (read_part 4 (value2 ++ more)) (λ v rest. refl) (read_part-ReadsOn 4 value2))
            (read_part-ReadsOn 4 value1))
        (read_part-ReadsOn 8 value)

  -- A parser that tests the opcode.
  if-ParsesOn :
      (c : Bool) (a a' b b' : Parsed)
      → ParsesOn a a'
      → ParsesOn b b'
      → ParsesOn (if c then a else b) (if c then a' else b')
  if-ParsesOn true a a' b b' h h' = h
  if-ParsesOn false a a' b b' h h' = h'

  read_updated-ParsesOn :
      (opcode t j : ℕ) (value : List ℕ)
      → ParsesOn (read_updated opcode t j value) (read_updated opcode t j (value ++ more))
  unfolding read_updated
  read_updated-ParsesOn opcode t j value =
      if-ParsesOn (opcode == journal_created_single) _ _ _ _
        (read_single-ParsesOn (LogRecord.journal_created_object_single t j) value)
        (if-ParsesOn (opcode == journal_created_range) _ _ _ _
          (read_range-ParsesOn (LogRecord.journal_created_object_range t j) value)
          (if-ParsesOn (opcode == journal_deleted_single) _ _ _ _
            (read_single-ParsesOn (LogRecord.journal_deleted_object_single t j) value)
            (if-ParsesOn (opcode == journal_deleted_range) _ _ _ _
              (read_range-ParsesOn (LogRecord.journal_deleted_object_range t j) value)
              (if-ParsesOn (opcode == journal_submitted_opcode) _ _ _ _
                (read_instant-ParsesOn (LogRecord.journal_submitted t j) value)
                (if-ParsesOn (opcode == journal_discarded_opcode) _ _ _ _ refl refl)))))

  read_journal-ParsesOn :
      (t : ℕ) (value : List ℕ) → ParsesOn (read_journal t value) (read_journal t (value ++ more))
  unfolding read_journal
  read_journal-ParsesOn t value =
      then-ParsesOn (λ w rest. read_updated (w % 8) t (w - w % 8) rest) (read_part 8 value) _
        (λ w rest. read_updated-ParsesOn (w % 8) t (w - w % 8) rest) (read_part-ReadsOn 8 value)

  read_transaction-ParsesOn :
      (opcode t : ℕ) (value : List ℕ)
      → ParsesOn (read_transaction opcode t value) (read_transaction opcode t (value ++ more))
  unfolding read_transaction
  read_transaction-ParsesOn opcode t value =
      if-ParsesOn (opcode == transaction_updated) _ _ _ _ (read_journal-ParsesOn t value) (
        if-ParsesOn (opcode == transaction_prepared_opcode) _ _ _ _
          (read_single-ParsesOn (LogRecord.transaction_prepared t) value)
          (if-ParsesOn (opcode == transaction_committed_opcode) _ _ _ _
            (read_single-ParsesOn (LogRecord.transaction_committed t) value)
            (if-ParsesOn (opcode == transaction_rolled_back_opcode) _ _ _ _
              (read_instant-ParsesOn (LogRecord.transaction_rolled_back t) value) refl)))

  read_word-ParsesOn :
      (word : ℕ) (value : List ℕ) → ParsesOn (read_word word value) (read_word word (value ++ more))
  unfolding read_word read_buffer
  read_word-ParsesOn word value = if-ParsesOn (word == 0) _ _ _ _ refl (
      if-ParsesOn (word % 8 == 0) _ _ _ _
        (if-ParsesOn (word % 256 - word % 8 == buffer_submitted_opcode) _ _ _ _ refl
          (if-ParsesOn (word % 256 - word % 8 == buffer_discarded_opcode) _ _ _ _ refl refl))
        (read_transaction-ParsesOn (word % 8) (word - word % 8) value))

  -- What was parsed or refused is so with more bytes behind, which are left over then.
  pub from_raw_data-ParsesOn :
      (value : List ℕ) → ParsesOn (from_raw_data value) (from_raw_data (value ++ more))
  unfolding from_raw_data
  from_raw_data-ParsesOn value =
      then-ParsesOn read_word (read_part 8 value) _ read_word-ParsesOn (read_part-ReadsOn 8 value)

rest_empty : (xs ys : List ℕ) → [] ≡ xs ++ ys → length ys ≡ 0
rest_empty [] [] e = refl
rest_empty [] (y ∷ ys) e = cc
rest_empty (x ∷ xs) ys e = cc

cut_off :
    (r : LogRecord) (more : List ℕ) (a b : Parsed)
    → ParsesOn more a b
    → b ≡ parsed r []
    → 0 < length more
    → a ≡ too_short
cut_off r more (parsed r' rest) b h e l =
    let same : parsed r [] ≡ parsed r' (rest ++ more) = sym e ∙ h in
    let none_left : [] ≡ rest ++ more = cc in
    absurd (omega (arith, rest_empty rest more none_left, l))
cut_off r more too_short b h e l = refl
cut_off r more panicked b h e l = cc

-- A record without its last bytes is too short.
pub from_raw_data-cut_off :
    (r : LogRecord) (value more : List ℕ)
    → from_raw_data (value ++ more) ≡ parsed r []
    → 0 < length more
    → from_raw_data value ≡ too_short
from_raw_data-cut_off r value more e l =
    cut_off r more (from_raw_data value) _ (from_raw_data-ParsesOn more value) e l
