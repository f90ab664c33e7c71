-- ===== src/LogRecord/Opcodes.antt =====
-- src/persistence_layer/file_io/log_record.rs: the opcodes on which `from_raw_data` panics.
use elektro_em_eukal.Base.{
  ℕ, ◌-◌, ◌%◌, ◌<◌, ◌≡◌, ◌≢◌, refl, subst, Bool, true, false, ◌⊎◌, Option, none, some, List, length,
  arith, ◌+◌,
}
use elektro_em_eukal.LogRecord.Parts.{read_part}
use elektro_em_eukal.LogRecord.{
  LogRecord, Parsed, parsed, too_short, panicked, read_single, read_range, read_instant,
  read_updated, read_journal, read_transaction, read_buffer, read_word, from_raw_data, parts,
}
use elektro_em_eukal.LogRecord.RoundTrip.{IsValid}
use elektro_em_eukal.LogRecord.Written.{size}
use elektro_em_eukal.LogRecord.Consumes.{AreBytes, Consumes, from_raw_data-Consumes}

-- The second word of the record of a journal has one of the last two of the eight opcodes.
abbrev pub HasUnknownJournal : List ℕ → Type 0
HasUnknownJournal value =
    (v : ℕ) × ((rest : List ℕ) × (read_part 8 value ≡ some (v, rest)) × (5 < v % 8))

-- No record has the first word `word`: with no opcode of a transaction it is neither the end of the
-- log nor has it an opcode of a buffer; or its opcode of a transaction is below the first one; or the
-- word that follows has an opcode that no journal has.
abbrev pub HasUnknownOpcode : List ℕ → Type 0
HasUnknownOpcode value =
    (word : ℕ) × ((rest : List ℕ) × (read_part 8 value ≡ some (word, rest))
      × (((word ≢ 0) × (word % 8 ≡ 0) × (word % 256 ≢ 8) × (word % 256 ≢ 16))
          ⊎ ((0 < word % 8) × (word % 8 < 4))
          ⊎ ((word % 8 ≡ 4) × HasUnknownJournal rest)))

abbrev panics : Parsed → Bool
panics (parsed r rest) = false
panics too_short = false
panics panicked = true

panics_of : (o : Parsed) → panics o ≡ true → o ≡ panicked
panics_of (parsed r rest) h = cc
panics_of too_short h = cc
panics_of panicked h = refl

module _ (value : List ℕ) where
  single_calm :
      (make : ℕ → LogRecord) (o : Option (ℕ × List ℕ))
      → panics (elim o [ none ↦ too_short | some (object, rest) ↦ parsed (make object) rest ])
        ≡ false
  single_calm make none = refl
  single_calm make (some (v, rest)) = refl

  read_single_calm : (make : ℕ → LogRecord) → panics (read_single make value) ≡ false
  unfolding read_single
  read_single_calm make = single_calm make (read_part 8 value)

  read_instant_calm : (make : ℕ → LogRecord) → panics (read_instant make value) ≡ false
  unfolding read_instant
  read_instant_calm make = single_calm make (read_part 4 value)

then_calm :
    (next : ℕ → List ℕ → Parsed) (o : Option (ℕ × List ℕ))
    → ((v : ℕ) (rest : List ℕ) → panics (next v rest) ≡ false)
    → panics (elim o [ none ↦ too_short | some (v, rest) ↦ next v rest ]) ≡ false
then_calm next none h = refl
then_calm next (some (v, rest)) h = h v rest

read_range_calm :
    (value : List ℕ) (make : ℕ → ℕ → ℕ → LogRecord) → panics (read_range make value) ≡ false
unfolding read_range
read_range_calm value make = then_calm _ (read_part 8 value) λ v value1.
    then_calm _ (read_part 4 value1) λ i value2. single_calm value2 (make v i) (read_part 4 value2)

-- The code panics exactly if `P` holds.
abbrev Panics : Parsed → Type 0 → Type 0
Panics o P = (panics o ≡ true → P) × (P → panics o ≡ true)

read_updated-Panics :
    (opcode t j : ℕ) (value : List ℕ) → Panics (read_updated opcode t j value) (5 < opcode)
unfolding read_updated
read_updated-Panics opcode t j value =
    let created = read_single_calm value (LogRecord.journal_created_object_single t j) in
    let created_range = read_range_calm value (LogRecord.journal_created_object_range t j) in
    let deleted = read_single_calm value (LogRecord.journal_deleted_object_single t j) in
    let deleted_range = read_range_calm value (LogRecord.journal_deleted_object_range t j) in
    let submitted = read_instant_calm value (LogRecord.journal_submitted t j) in
    ((λ h. ground arith), (λ h. ground arith))

journal_of :
    (t : ℕ) (value : List ℕ) (o : Option (ℕ × List ℕ))
    → read_part 8 value ≡ o
    → Panics
        (elim o [ none ↦ too_short | some (v, rest) ↦ read_updated (v % 8) t (v - v % 8) rest ])
        (HasUnknownJournal value)
journal_of t value none e = ((λ h. cc), (λ (v, (rest, e', h)). cc))
journal_of t value (some (v, rest)) e = (
  (λ h. (v, (rest, e, (read_updated-Panics (v % 8) t (v - v % 8) rest).0 h))),
  (λ (v', (rest', e', h)).
      let same : v' ≡ v = cc in
      (read_updated-Panics (v % 8) t (v - v % 8) rest).1 (subst (λ x. 5 < x % 8) same h)),
)

read_journal-Panics :
    (t : ℕ) (value : List ℕ) → Panics (read_journal t value) (HasUnknownJournal value)
unfolding read_journal
read_journal-Panics t value = journal_of t value (read_part 8 value) refl

read_transaction-Panics :
    (opcode t : ℕ) (value : List ℕ)
    → opcode < 8
    → Panics
        (read_transaction opcode t value)
        ((opcode < 4) ⊎ ((opcode ≡ 4) × HasUnknownJournal value))
unfolding read_transaction
read_transaction-Panics opcode t value l =
    let (journal, journal') = read_journal-Panics t value in
    let prepared = read_single_calm value (LogRecord.transaction_prepared t) in
    let committed = read_single_calm value (LogRecord.transaction_committed t) in
    let rolled_back = read_instant_calm value (LogRecord.transaction_rolled_back t) in
    ((λ h. ground (arith, journal)), (λ h. ground (arith, journal')))

-- The first word is of no record, or one of a journal with an unknown opcode follows.
abbrev UnknownWord : ℕ → List ℕ → Type 0
UnknownWord word rest =
    ((word ≢ 0) × (word % 8 ≡ 0) × (word % 256 ≢ 8) × (word % 256 ≢ 16))
    ⊎ ((0 < word % 8) × (word % 8 < 4))
    ⊎ ((word % 8 ≡ 4) × HasUnknownJournal rest)

read_word-Panics :
    (word : ℕ) (value : List ℕ) → Panics (read_word word value) (UnknownWord word value)
unfolding read_word read_buffer
read_word-Panics word value =
    let (transaction, transaction') =
      read_transaction-Panics (word % 8) (word - word % 8) value (omega arith) in
    ((λ h. ground (arith, transaction)), (λ h. ground (arith, transaction')))

word_of :
    (value : List ℕ) (o : Option (ℕ × List ℕ))
    → read_part 8 value ≡ o
    → Panics
        (elim o [ none ↦ too_short | some (v, rest) ↦ read_word v rest ])
        (HasUnknownOpcode value)
word_of value none e = ((λ h. cc), (λ (v, (rest, e', h)). cc))
word_of value (some (v, rest)) e = (
  (λ h. (v, (rest, e, (read_word-Panics v rest).0 h))),
  (λ (v', (rest', e', h)).
      let same : v' ≡ v = cc in
      let same_rest : rest' ≡ rest = cc in
      (read_word-Panics v rest).1
        (subst (λ x. UnknownWord x rest) same (subst (UnknownWord v') same_rest h))),
)

from_raw_data-Panics : (value : List ℕ) → Panics (from_raw_data value) (HasUnknownOpcode value)
unfolding from_raw_data
from_raw_data-Panics value = word_of value (read_part 8 value) refl

-- What parsing makes of the bytes `value`.
abbrev pub Parses : List ℕ → Parsed → Type 0
Parses value (parsed r rest) = (length value ≡ size (parts r) + length rest) × IsValid r
Parses value too_short = length value < 32
Parses value panicked = HasUnknownOpcode value

parsed_of :
    (value : List ℕ) (o : Parsed)
    → Consumes 0 value o
    → (panics o ≡ true → HasUnknownOpcode value)
    → Parses value o
parsed_of value (parsed r rest) (c, v) h = (omega (arith, c), v)
parsed_of value too_short c h = omega (arith, c)
parsed_of value panicked c h = h refl

-- Whatever bytes `from_raw_data` is given, a record that it finds is one that `write` may write, and
-- it takes as many bytes from the front as `write` needs for the record; it asks for more bytes only
-- when it is given fewer than 32. It panics exactly when an opcode is unknown: the first word is not
-- 0, has no opcode of a transaction and neither opcode of a buffer, or its opcode of a transaction is
-- below 4, or it is 4 and the word that follows has an opcode above 5.
pub from_raw_data-Parses :
    (value : List ℕ)
    → AreBytes value
    → Parses value (from_raw_data value) × (HasUnknownOpcode value → from_raw_data value ≡ panicked)
from_raw_data-Parses value a = (
  parsed_of value (from_raw_data value) (from_raw_data-Consumes value a)
      (from_raw_data-Panics value).0,
  (λ h. panics_of (from_raw_data value) ((from_raw_data-Panics value).1 h)),
)
