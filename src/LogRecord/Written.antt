-- ===== src/LogRecord/Written.antt =====
-- src/persistence_layer/file_io/log_record.rs: what `write` leaves in the buffer, and when it fails.
use elektro_em_eukal.Base.{
  length-append, ℕ, zero, suc, ◌+◌, ◌-◌, ◌≤◌, ◌<◌, ◌≡◌, refl, sym, ◌∙◌, ap, true, false, none, some,
  List, [], ◌∷◌, ◌++◌, ltb, length, arith, is_some, not, Bool-cases, inl, inr,
}
use elektro_em_eukal.LogRecord.Parts.{bytes_of, length-bytes_of, drop, write_part, write_parts}
use elektro_em_eukal.LogRecord.{LogRecord, parts, write}

-- The bytes that the writes `ps` put in front of `rest`, and how many there are.
abbrev pub written : List (ℕ × ℕ) → List ℕ → List ℕ
written [] rest = rest
written ((width, v) ∷ ps) rest = bytes_of width v ++ written ps rest

abbrev pub size : List (ℕ × ℕ) → ℕ
size [] = 0
size ((width, v) ∷ ps) = width + size ps

pub length-drop : (n : ℕ) (b : List ℕ) → length (drop n b) ≡ length b - n
unfolding drop
length-drop zero b = omega arith
length-drop (suc n) [] = omega arith
length-drop (suc n) (x ∷ b) = omega (arith, length-drop n b)

pub drop-empty : (n : ℕ) → drop n [] ≡ []
unfolding drop
drop-empty zero = refl
drop-empty (suc n) = refl

pub drop-drop : (m n : ℕ) (b : List ℕ) → drop n (drop m b) ≡ drop (m + n) b
unfolding drop
drop-drop zero n b = ap (λ x. drop x b) (omega arith)
drop-drop (suc m) n [] = drop-empty n ∙ sym (drop-empty (suc m + n))
drop-drop (suc m) n (x ∷ b) =
    let e : suc m + n ≡ suc (m + n) = omega arith in rw e (drop-drop m n b)

pub write_parts-written :
    (ps : List (ℕ × ℕ)) (buffer : List ℕ)
    → size ps ≤ length buffer
    → write_parts ps buffer ≡ (written ps (drop (size ps) buffer), some (size ps))
unfolding write_parts write_part
write_parts-written [] buffer h = ap (λ b. (b, some 0)) refl
write_parts-written ((width, v) ∷ ps) buffer h =
    let enough : ltb (length buffer) width ≡ false = ground arith in
    let rest =
      write_parts-written ps (drop width buffer) (omega (arith, length-drop width buffer)) in
    rw (write_parts, write_part, enough, rest, drop-drop width (size ps) buffer) refl

pub write_parts-none :
    (ps : List (ℕ × ℕ)) (buffer : List ℕ)
    → length buffer < size ps
    → (write_parts ps buffer).1 ≡ none
unfolding write_parts write_part
write_parts-none [] buffer h = absurd (omega (arith, h))
write_parts-none ((width, v) ∷ ps) buffer h = elim (Bool-cases (ltb (length buffer) width)) [
  | inl t ↦ rw (write_parts, write_part, t) refl
  | inr f ↦
      let enough : width ≤ length buffer = ground arith in
      let rest =
        write_parts-none ps (drop width buffer) (omega (arith, length-drop width buffer)) in
      rw (write_parts, write_part, f, rest) refl
]

-- A write that fails leaves a buffer of the same length too.
pub length-write_parts :
    (ps : List (ℕ × ℕ)) (buffer : List ℕ) → length (write_parts ps buffer).0 ≡ length buffer
unfolding write_parts write_part
length-write_parts [] buffer = refl
length-write_parts ((width, v) ∷ ps) buffer = elim (Bool-cases (ltb (length buffer) width)) [
  | inl t ↦ rw (write_parts, write_part, t) refl
  | inr f ↦
      rw (write_parts, write_part, f)
        (omega (
          arith,
          length-append (bytes_of width v) (write_parts ps (drop width buffer)).0,
          length-bytes_of width v,
          length-write_parts ps (drop width buffer),
          length-drop width buffer,
          ltb-false (length buffer) width f,
        ))
]
  where
    ltb-false : (a b : ℕ) → ltb a b ≡ false → b ≤ a
    ltb-false a b h = ground arith

pub size_bound : (r : LogRecord) → size (parts r) ≤ 32
unfolding parts
size_bound LogRecord.end_of_log = omega arith
size_bound (LogRecord.buffer_submitted i) = omega arith
size_bound LogRecord.buffer_discarded = omega arith
size_bound (LogRecord.journal_created_object_single t j o) = omega arith
size_bound (LogRecord.journal_created_object_range t j o i n) = omega arith
size_bound (LogRecord.journal_deleted_object_single t j o) = omega arith
size_bound (LogRecord.journal_deleted_object_range t j o i n) = omega arith
size_bound (LogRecord.journal_submitted t j i) = omega arith
size_bound (LogRecord.journal_discarded t j) = omega arith
size_bound (LogRecord.transaction_prepared t i) = omega arith
size_bound (LogRecord.transaction_committed t i) = omega arith
size_bound (LogRecord.transaction_rolled_back t i) = omega arith

-- `write` fails exactly if the buffer has no room for the record; a buffer of 32 bytes has room for
-- every record.
pub write-none :
    (r : LogRecord) (buffer : List ℕ)
    → (is_some (write r buffer).1 ≡ not (ltb (length buffer) (size (parts r))))
      × (32 ≤ length buffer → is_some (write r buffer).1 ≡ true)
unfolding write
write-none r buffer = elim (Bool-cases (ltb (length buffer) (size (parts r)))) [
  | inl t ↦
      let few : length buffer < size (parts r) = ground arith in
      let failed = write_parts-none (parts r) buffer few in
      (rw (failed, t) refl, λ h. absurd (omega (arith, size_bound r, few)))
  | inr f ↦
      let room : size (parts r) ≤ length buffer = ground arith in
      let w = ap (λ x. is_some x.1) (write_parts-written (parts r) buffer room) in
      (w ∙ ap not (sym f), λ h. w)
]
