-- ===== src/LogRecord/Consumes.antt =====
-- src/persistence_layer/file_io/log_record.rs: what `from_raw_data` takes from its input, whatever
-- bytes that is.
use elektro_em_eukal.Base.{
  ℕ, zero, suc, ◌+◌, ◌-◌, ◌*◌, ◌%◌, ◌^◌, ◌≤◌, ◌<◌, ◌≡◌, refl, Bool, true, false, Option, none, some,
  List, [], ◌∷◌, if◌then◌else◌, ◌==◌, length, arith, All,
}
use elektro_em_eukal.LogRecord.Parts.{read_part}
use elektro_em_eukal.LogRecord.{
  LogRecord, Parsed, parsed, too_short, panicked, read_single, read_range, read_instant,
  read_updated, read_journal, read_transaction, read_buffer, read_word, from_raw_data, parts,
}
use elektro_em_eukal.LogRecord.RoundTrip.{IsAddress, IsValid}
use elektro_em_eukal.LogRecord.Written.{size}

abbrev pub AreBytes : List ℕ → Type 0
AreBytes bs = All (λ b. b < 256) bs

-- What a read of `width` bytes makes of the bytes `value`.
abbrev Reads : ℕ → List ℕ → Option (ℕ × List ℕ) → Type 0
Reads width value none = length value < width
Reads width value (some (v, rest)) =
    (length value ≡ width + length rest) × (v < 256 ^ width) × AreBytes rest

read_more :
    (width b : ℕ) (value : List ℕ) (o : Option (ℕ × List ℕ))
    → b < 256
    → Reads width value o
    → Reads
        (suc width)
        (b ∷ value)
        (elim o [ none ↦ none | some (v, rest) ↦ some (b + 256 * v, rest) ])
read_more width b value none h r = omega (arith, r)
read_more width b value (some (v, rest)) h (e, l, a) = (omega (arith, e), omega (arith, l), a)

read_part-Reads :
    (width : ℕ) (value : List ℕ) → AreBytes value → Reads width value (read_part width value)
unfolding read_part
read_part-Reads zero value a = (omega arith, omega arith, a)
read_part-Reads (suc width) [] a = omega arith
read_part-Reads (suc width) (b ∷ value) (h, a) =
    read_more width b value (read_part width value) h (read_part-Reads width value a)

-- After `n` bytes the rest of a record was read from `value`.
abbrev pub Consumes : ℕ → List ℕ → Parsed → Type 0
Consumes n value (parsed r rest) = (n + length value ≡ size (parts r) + length rest) × IsValid r
Consumes n value too_short = n + length value < 32
Consumes n value panicked = Unit {0}

-- The records that `make` makes of a number below `bound` have the size `n`.
abbrev Makes : ℕ → ℕ → (ℕ → LogRecord) → Type 0
Makes n bound make = (v : ℕ) → v < bound → (size (parts (make v)) ≡ n) × IsValid (make v)

module _ (n : ℕ) (value : List ℕ) (a : AreBytes value) where
  single_of :
      (make : ℕ → LogRecord) (o : Option (ℕ × List ℕ))
      → n + 8 ≤ 32
      → Makes (n + 8) (2 ^ 64) make
      → Reads 8 value o
      → Consumes n value
          (elim o [ none ↦ too_short | some (object, rest) ↦ parsed (make object) rest ])
  single_of make none h m r = omega (arith, r, h)
  single_of make (some (v, rest)) h m (e, l, b) = (omega (arith, e, (m v l).0), (m v l).1)

  read_single-Consumes :
      (make : ℕ → LogRecord)
      → n + 8 ≤ 32
      → Makes (n + 8) (2 ^ 64) make
      → Consumes n value (read_single make value)
  unfolding read_single
  read_single-Consumes make h m = single_of make (read_part 8 value) h m (read_part-Reads 8 value a)

  instant_of :
      (make : ℕ → LogRecord) (o : Option (ℕ × List ℕ))
      → n + 4 ≤ 32
      → Makes (n + 4) (2 ^ 32) make
      → Reads 4 value o
      → Consumes n value
          (elim o [ none ↦ too_short | some (instant, rest) ↦ parsed (make instant) rest ])
  instant_of make none h m r = omega (arith, r, h)
  instant_of make (some (v, rest)) h m (e, l, b) = (omega (arith, e, (m v l).0), (m v l).1)

  read_instant-Consumes :
      (make : ℕ → LogRecord)
      → n + 4 ≤ 32
      → Makes (n + 4) (2 ^ 32) make
      → Consumes n value (read_instant make value)
  unfolding read_instant
  read_instant-Consumes make h m =
      instant_of make (read_part 4 value) h m (read_part-Reads 4 value a)

Consumes-moved :
    (n n' : ℕ) (value rest : List ℕ) (out : Parsed)
    → n + length value ≡ n' + length rest
    → Consumes n' rest out
    → Consumes n value out
Consumes-moved n n' value rest (parsed r left) e (c, v) = (omega (arith, e, c), v)
Consumes-moved n n' value rest too_short e c = omega (arith, e, c)
Consumes-moved n n' value rest panicked e c = tt

-- A read of `width` bytes, and then `next`.
read_then :
    (n width : ℕ) (value : List ℕ) (next : ℕ → List ℕ → Parsed) (o : Option (ℕ × List ℕ))
    → n + width ≤ 32
    → ((v : ℕ) (rest : List ℕ)
        → v < 256 ^ width
        → AreBytes rest
        → Consumes (n + width) rest (next v rest))
    → Reads width value o
    → Consumes n value (elim o [ none ↦ too_short | some (v, rest) ↦ next v rest ])
read_then n width value next none h k r = omega (arith, r, h)
read_then n width value next (some (v, rest)) h k (e, l, b) =
    Consumes-moved n (n + width) value rest (next v rest) (omega (arith, e)) (k v rest l b)

read_range-Consumes :
    (value : List ℕ) (a : AreBytes value) (make : ℕ → ℕ → ℕ → LogRecord)
    → ((v i m : ℕ)
        → v < 2 ^ 64
        → i < 2 ^ 32
        → m < 2 ^ 32
        → (size (parts (make v i m)) ≡ 32) × IsValid (make v i m))
    → Consumes 16 value (read_range make value)
unfolding read_range
read_range-Consumes value a make m =
    read_then 16 8 value _ (read_part 8 value) (omega arith)
      (λ v value1 l a1.
        read_then 24 4 value1 _ (read_part 4 value1) (omega arith)
          (λ i value2 k a2.
            instant_of 28 value2 a2 (λ o. make v i o) (read_part 4 value2) (omega arith)
              (λ o h. m v i o l k h) (read_part-Reads 4 value2 a2))
          (read_part-Reads 4 value1 a1))
      (read_part-Reads 8 value a)

choice-Consumes :
    (test : Bool) (n : ℕ) (value : List ℕ) (x y : Parsed)
    → Consumes n value x
    → Consumes n value y
    → Consumes n value (if test then x else y)
choice-Consumes true n value x y h k = h
choice-Consumes false n value x y h k = k

read_updated-Consumes :
    (opcode t j : ℕ) (value : List ℕ)
    → AreBytes value
    → IsAddress t
    → IsAddress j
    → Consumes 16 value (read_updated opcode t j value)
unfolding read_updated parts
read_updated-Consumes opcode t j value a h k =
    choice-Consumes (opcode == 0) 16 value _ _
      (read_single-Consumes 16 value a (LogRecord.journal_created_object_single t j) (omega arith)
        λ v l. (refl, (h, k, l)))
      (choice-Consumes (opcode == 1) 16 value _ _
        (read_range-Consumes value a (LogRecord.journal_created_object_range t j)
          λ v i m l l' l''. (refl, (h, k, l, l', l'')))
        (choice-Consumes (opcode == 2) 16 value _ _
          (read_single-Consumes 16 value a (LogRecord.journal_deleted_object_single t j)
            (omega arith) λ v l. (refl, (h, k, l)))
          (choice-Consumes (opcode == 3) 16 value _ _
            (read_range-Consumes value a (LogRecord.journal_deleted_object_range t j)
              λ v i m l l' l''. (refl, (h, k, l, l', l'')))
            (choice-Consumes (opcode == 4) 16 value _ _
              (read_instant-Consumes 16 value a (LogRecord.journal_submitted t j) (omega arith)
                λ v l. (refl, (h, k, l)))
              (choice-Consumes (opcode == 5) 16 value
                (parsed (LogRecord.journal_discarded t j) value) panicked (refl, (h, k)) tt)))))

read_journal-Consumes :
    (t : ℕ) (value : List ℕ)
    → AreBytes value
    → IsAddress t
    → Consumes 8 value (read_journal t value)
unfolding read_journal
read_journal-Consumes t value a h =
    read_then 8 8 value _ (read_part 8 value) (omega arith)
      (λ v rest l b.
        read_updated-Consumes (v % 8) t (v - v % 8) rest b h (omega arith, omega (arith, l)))
      (read_part-Reads 8 value a)

read_transaction-Consumes :
    (opcode t : ℕ) (value : List ℕ)
    → AreBytes value
    → IsAddress t
    → Consumes 8 value (read_transaction opcode t value)
unfolding read_transaction parts
read_transaction-Consumes opcode t value a h =
    choice-Consumes (opcode == 4) 8 value _ _ (read_journal-Consumes t value a h) (
      choice-Consumes (opcode == 5) 8 value _ _
        (read_single-Consumes 8 value a (LogRecord.transaction_prepared t) (omega arith)
          λ v l. (refl, (h, l)))
        (choice-Consumes (opcode == 6) 8 value _ _
          (read_single-Consumes 8 value a (LogRecord.transaction_committed t) (omega arith)
            λ v l. (refl, (h, l)))
          (choice-Consumes (opcode == 7) 8 value _ panicked
            (read_instant-Consumes 8 value a (LogRecord.transaction_rolled_back t) (omega arith)
              λ v l. (refl, (h, l)))
            tt)))

read_word-Consumes :
    (word : ℕ) (value : List ℕ)
    → AreBytes value
    → word < 2 ^ 64
    → Consumes 8 value (read_word word value)
unfolding read_word read_buffer parts
read_word-Consumes word value a h =
    ground (arith, read_transaction-Consumes (word % 8) (word - word % 8) value a)

-- Whatever bytes `from_raw_data` is given, a record that it finds is one that `write` may write, and
-- it takes as many bytes from the front as `write` needs for the record; it asks for more bytes only
-- when it is given fewer than 32.
pub from_raw_data-Consumes :
    (value : List ℕ) → AreBytes value → Consumes 0 value (from_raw_data value)
unfolding from_raw_data
from_raw_data-Consumes value a =
    read_then 0 8 value _ (read_part 8 value) (omega arith)
      (λ v rest l b. read_word-Consumes v rest b l) (read_part-Reads 8 value a)
