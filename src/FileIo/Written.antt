-- ===== src/FileIo/Written.antt =====
-- src/persistence_layer/file_io/mod.rs: what a write of a record leaves in a log buffer.
use elektro_em_eukal.Base.{
  ℕ, zero, suc, ◌+◌, ◌≤◌, ◌≡◌, refl, sym, ap, subst, ◌∙◌, none, some, List, [], ◌∷◌, ◌++◌, arith,
  length, length-append, append_assoc, ltb, ◌⊎◌, inl, inr, Bool-cases,
}
use elektro_em_eukal.LogRecord
use elektro_em_eukal.LogRecord.{LogRecord, parts}
use elektro_em_eukal.LogRecord.Parts.{bytes_of, drop, length-bytes_of}
use elektro_em_eukal.LogRecord.Written.{
  written, size, length-drop, length-write_parts, write_parts-written, write_parts-none,
}
use elektro_em_eukal.RandomAccessFile.{take}
use elektro_em_eukal.FileIo.{FileLogBuffer, zeros, new_log_buffer, write_record}
use elektro_em_eukal.FileIo.Processor.{payload}

-- The bytes of a record.
abbrev pub record_bytes : LogRecord → List ℕ
record_bytes r = written (parts r) []

pub written-append : (ps : List (ℕ × ℕ)) (rest : List ℕ) → written ps rest ≡ written ps [] ++ rest
written-append [] rest = refl
written-append ((w, v) ∷ ps) rest =
    ap (λ l. bytes_of w v ++ l) (written-append ps rest)
    ∙ sym (append_assoc (bytes_of w v) (written ps []) rest)

length-written : (ps : List (ℕ × ℕ)) → length (written ps []) ≡ size ps
length-written [] = refl
length-written ((w, v) ∷ ps) =
    omega
      (arith, length-append (bytes_of w v) (written ps []), length-bytes_of w v, length-written ps)

pub length-record_bytes : (r : LogRecord) → length (record_bytes r) ≡ size (parts r)
length-record_bytes r = length-written (parts r)

pub take-append : (xs ys : List ℕ) → take (length xs) (xs ++ ys) ≡ xs
unfolding take
take-append [] ys = refl
take-append (x ∷ xs) ys = ap (λ l. x ∷ l) (take-append xs ys)

pub length-take : (n : ℕ) (xs : List ℕ) → n ≤ length xs → length (take n xs) ≡ n
unfolding take
length-take zero xs h = refl
length-take (suc n) [] h = absurd (omega (arith, h))
length-take (suc n) (x ∷ xs) h = ap suc (length-take n xs (omega (arith, h)))

-- The type of the buffer, and that its position lies within it.
abbrev pub IsBuffer : FileLogBuffer → Type 0
IsBuffer l = (length l.buffer ≡ 32) × (l.bytes_written ≤ 32)

length-payload : (l : FileLogBuffer) → IsBuffer l → length (payload l) ≡ l.bytes_written
length-payload l (e, h) = length-take l.bytes_written l.buffer (omega (arith, e, h))

pub write-room :
    (r : LogRecord) (buffer : List ℕ)
    → size (parts r) ≤ length buffer
    → LogRecord.write r buffer
      ≡ (record_bytes r ++ drop (size (parts r)) buffer, some (size (parts r)))
unfolding LogRecord.write
write-room r buffer room =
    write_parts-written (parts r) buffer room
    ∙ ap (λ b. (b, some (size (parts r)))) (written-append (parts r) (drop (size (parts r)) buffer))

-- There is room for a record, or the write fails.
pub write-cases :
    (r : LogRecord) (buffer : List ℕ)
    → (size (parts r) ≤ length buffer) ⊎ ((LogRecord.write r buffer).1 ≡ none)
unfolding LogRecord.write
write-cases r buffer = elim (Bool-cases (ltb (length buffer) (size (parts r)))) [
  | inl t ↦ inr (write_parts-none (parts r) buffer (ground arith))
  | inr f ↦ inl (ground arith)
]

pub length-write :
    (r : LogRecord) (buffer : List ℕ) → length (LogRecord.write r buffer).0 ≡ length buffer
unfolding LogRecord.write
length-write r buffer = length-write_parts (parts r) buffer

-- A record that was written stands behind the earlier ones; the buffer is as long as before.
pub room_written :
    (r : LogRecord) (l : FileLogBuffer)
    → IsBuffer l
    → size (parts r) ≤ length (drop l.bytes_written l.buffer)
    → let l' = record l {
      buffer =
          take l.bytes_written l.buffer
          ++ (record_bytes r ++ drop (size (parts r)) (drop l.bytes_written l.buffer));
      bytes_written = l.bytes_written + size (parts r);
    } in
      IsBuffer l' × (payload l' ≡ payload l ++ record_bytes r)
room_written r l (e, h) room =
    let front = take l.bytes_written l.buffer in
    let rest = drop (size (parts r)) (drop l.bytes_written l.buffer) in
    let lf = length-payload l (e, h) in
    let both : length (front ++ record_bytes r) ≡ l.bytes_written + size (parts r) =
      omega (arith, length-append front (record_bytes r), lf, length-record_bytes r) in
    (
      (
        omega (
          arith,
          length-append front (record_bytes r ++ rest),
          lf,
          length-append (record_bytes r) rest,
          length-record_bytes r,
          length-drop (size (parts r)) (drop l.bytes_written l.buffer),
          length-drop l.bytes_written l.buffer,
          e,
          h,
          room,
        ),
        omega (arith, room, length-drop l.bytes_written l.buffer, e, h),
      ),
      subst (λ n. take n (front ++ (record_bytes r ++ rest)) ≡ front ++ record_bytes r) both
          (subst (λ x. take (length (front ++ record_bytes r)) x ≡ front ++ record_bytes r)
            (append_assoc front (record_bytes r) rest)
            (take-append (front ++ record_bytes r) rest)),
    )

-- A write that fails leaves a buffer with the bytes that were written before.
pub failed_write :
    (r : LogRecord) (l : FileLogBuffer)
    → IsBuffer l
    → IsBuffer (write_record r l).0
      × ((write_record r l).0.eoj_logging ≡ l.eoj_logging)
      × (payload (write_record r l).0 ≡ payload l)
unfolding write_record
failed_write r l (e, h) =
    let lf = length-payload l (e, h) in
    let bytes = (LogRecord.write r (drop l.bytes_written l.buffer)).0 in
    (
      (
        omega (
          arith,
          length-append (take l.bytes_written l.buffer) bytes,
          lf,
          length-write r (drop l.bytes_written l.buffer),
          length-drop l.bytes_written l.buffer,
          e,
          h,
        ),
        h,
      ),
      refl,
      subst (λ n. take n (take l.bytes_written l.buffer ++ bytes) ≡ take l.bytes_written l.buffer)
          lf (take-append (take l.bytes_written l.buffer) bytes),
    )

pub new-IsBuffer : IsBuffer new_log_buffer
unfolding new_log_buffer zeros
new-IsBuffer = (refl, omega arith)
