-- ===== src/Recovery/Replayed.antt =====
-- src/persistence_layer/file_io/recovery.rs: what the loop over the records of a buffer does with a
-- buffer that holds a front of a log.
use elektro_em_eukal.Base.{
  ℕ, zero, suc, ◌+◌, ◌-◌, ◌≤◌, ◌<◌, ◌≡◌, refl, sym, ap, ◌∙◌, false, Option, none, some, List, [],
  ◌∷◌, ◌++◌, if◌then◌else◌, ltb, length, All, append_assoc, length-append, arith, Outcome, done,
  panicked, Bool-cases, inl, inr,
}
use elektro_em_eukal.LogRecord.{LogRecord, parsed, from_raw_data, parts}
use elektro_em_eukal.LogRecord.Parts.{drop}
use elektro_em_eukal.LogRecord.Written.{size, size_bound, length-drop}
use elektro_em_eukal.LogRecord.RoundTrip.{IsValid, from_raw_data-parts}
use elektro_em_eukal.LogRecord.Truncated.{from_raw_data-cut_off}
use elektro_em_eukal.FileIo.Written.{record_bytes, length-record_bytes, written-append}
use elektro_em_eukal.FileIo.Refines.{all_bytes}
use elektro_em_eukal.Recovery.{Replay, apply_record, apply_records, is_end_of_log}

-- The records of a log, applied one by one.
unfoldable pub replay : List LogRecord → Replay → Option Replay
replay [] s = some s
replay (r ∷ rs) s = elim (apply_record r s) [ none ↦ none | some s' ↦ replay rs s' ]

-- A record that `write` writes for an operation.
abbrev pub IsEntry : LogRecord → Type 0
IsEntry r = IsValid r × (is_end_of_log r ≡ false)

-- A proper front of a record, which may be empty.
abbrev pub IsTorn : List ℕ → Type 0
IsTorn torn =
    (r : LogRecord) × (more : List ℕ) × IsEntry r
    × (torn ++ more ≡ record_bytes r)
    × (0 < length more)

abbrev pub width : LogRecord → ℕ
width r = length (record_bytes r)

-- The records that lie within the first `n` bytes, the others, and the bytes of the former.
unfoldable pub fitting : ℕ → List LogRecord → List LogRecord
fitting n [] = []
fitting n (r ∷ rs) = let rest = fitting (n - width r) rs in if ltb n (width r) then [] else r ∷ rest

unfoldable pub later : ℕ → List LogRecord → List LogRecord
later n [] = []
later n (r ∷ rs) = let rest = later (n - width r) rs in if ltb n (width r) then r ∷ rs else rest

unfoldable pub consumed : ℕ → List LogRecord → ℕ
consumed n [] = 0
consumed n (r ∷ rs) =
    let rest = consumed (n - width r) rs in if ltb n (width r) then 0 else width r + rest

size_positive : (r : LogRecord) → 8 ≤ size (parts r)
unfolding parts
size_positive LogRecord.end_of_log = omega arith
size_positive (LogRecord.buffer_submitted i) = omega arith
size_positive LogRecord.buffer_discarded = omega arith
size_positive (LogRecord.journal_created_object_single t j o) = omega arith
size_positive (LogRecord.journal_created_object_range t j o i n) = omega arith
size_positive (LogRecord.journal_deleted_object_single t j o) = omega arith
size_positive (LogRecord.journal_deleted_object_range t j o i n) = omega arith
size_positive (LogRecord.journal_submitted t j i) = omega arith
size_positive (LogRecord.journal_discarded t j) = omega arith
size_positive (LogRecord.transaction_prepared t i) = omega arith
size_positive (LogRecord.transaction_committed t i) = omega arith
size_positive (LogRecord.transaction_rolled_back t i) = omega arith

pub width_bounds : (r : LogRecord) → (8 ≤ width r) × (width r ≤ 32)
width_bounds r = (
  omega (arith, length-record_bytes r, size_positive r),
  omega (arith, length-record_bytes r, size_bound r),
)

pub drop-append : (xs ys : List ℕ) → drop (length xs) (xs ++ ys) ≡ ys
unfolding drop
drop-append [] ys = refl
drop-append (x ∷ xs) ys = drop-append xs ys

-- Of two fronts of a list the shorter one is a front of the longer one.
fronts :
    (a b c d : List ℕ)
    → a ++ b ≡ c ++ d
    → length c ≤ length a
    → (a ≡ c ++ drop (length c) a) × (drop (length c) a ++ b ≡ d)
unfolding drop
fronts a b [] d e h = (refl, e)
fronts [] b (x ∷ c) d e h = absurd (omega (arith, h))
fronts (y ∷ a) b (x ∷ c) d e h =
    let same : y ≡ x = cc in
    let tails : a ++ b ≡ c ++ d = cc in
    let (f, f') = fronts a b c d tails (omega (arith, h)) in (rw same (ap (λ l. x ∷ l) f), f')

abbrev pub applied_as : ℕ → Option Replay → Outcome (Replay × Option ℕ)
applied_as n none = panicked
applied_as n (some s) = done (s, some n)

-- At a front of a record the loop ends.
stops :
    (rounds total : ℕ) (w more : List ℕ) (s : Replay) (r : LogRecord)
    → IsValid r
    → w ++ more ≡ record_bytes r
    → 0 < length more
    → length w ≤ rounds
    → apply_records rounds total w s ≡ done (s, some (total - length w))
unfolding apply_records
stops zero total [] more s r v e z h = ap (λ n. done (s, some n)) (omega arith)
stops zero total (b ∷ w) more s r v e z h = absurd (omega (arith, h))
stops (suc rounds) total [] more s r v e z h = ap (λ n. done (s, some n)) (omega arith)
stops (suc rounds) total (b ∷ w) more s r v e z h =
    let whole : from_raw_data (b ∷ w ++ more) ≡ parsed r [] =
      ap from_raw_data e ∙ from_raw_data-parts r [] v in
    rw (from_raw_data-cut_off r (b ∷ w) more whole z) refl

next_applied :
    (r : LogRecord) (rounds total n m : ℕ) (w' : List ℕ) (rs : List LogRecord) (o : Option Replay)
    → ((s' : Replay) → apply_records rounds total w' s' ≡ applied_as n (replay rs s'))
    → n ≡ m
    → elim o as (λ x. Outcome (Replay × Option ℕ)) [
      | none ↦ panicked
      | some s' ↦ apply_records rounds total w' s'
    ]
      ≡ applied_as m (elim o [ none ↦ none | some s' ↦ replay rs s' ])
next_applied r rounds total n m w' rs none k e = refl
next_applied r rounds total n m w' rs (some s') k e = k s' ∙ ap (λ x. applied_as x (replay rs s')) e

-- One record is read and applied, and the loop goes on behind it.
applies :
    (rounds total : ℕ) (w w' : List ℕ) (s : Replay) (r : LogRecord)
    → IsEntry r
    → w ≡ record_bytes r ++ w'
    → apply_records (suc rounds) total w s
      ≡ elim (apply_record r s) [ none ↦ panicked | some s' ↦ apply_records rounds total w' s' ]
unfolding apply_records
applies rounds total [] w' s r v e =
    absurd (omega (arith, ap length e, length-append (record_bytes r) w', (width_bounds r).0))
applies rounds total (b ∷ w) w' s r (v, o) e =
    let read_back : from_raw_data (b ∷ w) ≡ parsed r w' =
      ap from_raw_data (e ∙ sym (written-append (parts r) w')) ∙ from_raw_data-parts r w' v in
    rw (read_back, o) refl

-- A buffer that begins with a record, if the loop goes on as it should behind it.
fits :
    (rs : List LogRecord) (r : LogRecord) (rounds total : ℕ) (w : List ℕ) (s : Replay)
    → IsEntry r
    → length w ≤ rounds
    → width r ≤ length w
    → w ≡ record_bytes r ++ drop (width r) w
    → ((rounds' : ℕ) (s' : Replay)
        → length (drop (width r) w) ≤ rounds'
        → apply_records rounds' total (drop (width r) w) s'
          ≡ applied_as
              (total - (length (drop (width r) w) - consumed (length (drop (width r) w)) rs))
              (replay (fitting (length (drop (width r) w)) rs) s'))
    → apply_records rounds total w s
      ≡ applied_as
          (total - (length w - (width r + consumed (length w - width r) rs)))
          (replay (r ∷ fitting (length w - width r) rs) s)
unfolding replay
fits rs r zero total w s v h enough f k = absurd (omega (arith, h, enough, (width_bounds r).0))
fits rs r (suc rounds) total w s v h enough f k =
    let n = length-drop (width r) w in
    let within : length (drop (width r) w) ≤ rounds =
      omega (arith, h, n, enough, (width_bounds r).0) in
    applies rounds total w (drop (width r) w) s r v f
    ∙ next_applied r rounds total _ _ (drop (width r) w) _ (apply_record r s)
        (λ s'.
          k rounds s' within
          ∙ ap (λ x. applied_as (total - (x - consumed x rs)) (replay (fitting x rs) s')) n)
        (omega (arith, enough))

module _ (torn : List ℕ) (t : IsTorn torn) where
  -- The loop applies the records that lie within the buffer, and tells how many bytes these have.
  pub apply_records-replay :
      (rs : List LogRecord) (rounds total : ℕ) (w more : List ℕ) (s : Replay)
      → All IsEntry rs
      → w ++ more ≡ all_bytes rs ++ torn
      → length w ≤ rounds
      → apply_records rounds total w s
        ≡ applied_as
            (total - (length w - consumed (length w) rs))
            (replay (fitting (length w) rs) s)
  unfolding consumed fitting replay
  apply_records-replay [] rounds total w more s a e h =
      let (r, more', (v, o), e', z) = t in
      stops rounds total w (more ++ more') s r v
        (sym (append_assoc w more more') ∙ ap (λ x. x ++ more') e ∙ e')
        (omega (arith, length-append more more', z)) h
      ∙ ap (λ n. done (s, some n)) (omega arith)
  apply_records-replay (r ∷ rs) rounds total w more s ((v, o), a) e h =
      elim (Bool-cases (ltb (length w) (width r))) [
        | inl c ↦
            let short : length w < width r = ground arith in
            let (f, f') =
              fronts (record_bytes r) (all_bytes rs ++ torn) w more
                (sym (append_assoc (record_bytes r) (all_bytes rs) torn) ∙ sym e)
                (omega (arith, short)) in
            rw c (
              stops rounds total w (drop (length w) (record_bytes r)) s r v (sym f)
                (omega (arith, length-drop (length w) (record_bytes r), short)) h
              ∙ ap (λ n. done (s, some n)) (omega arith))
        | inr c ↦
            let enough : width r ≤ length w = ground arith in
            let (f, f') =
              fronts w more (record_bytes r) (all_bytes rs ++ torn)
                (e ∙ append_assoc (record_bytes r) (all_bytes rs) torn) enough in
            rw c (
              fits rs r rounds total w s (v, o) h enough f
                (λ rounds' s' h'.
                  apply_records-replay rs rounds' total (drop (width r) w) more s' a f' h'))
      ]
