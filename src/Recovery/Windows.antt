-- ===== src/Recovery/Windows.antt =====
-- src/persistence_layer/file_io/recovery.rs: the windows in which `recover_database` reads a log,
-- against the records of the log applied one by one.
use elektro_em_eukal.Base.{
  ℕ, zero, suc, ◌+◌, ◌-◌, ◌≤◌, ◌<◌, ◌≡◌, refl, sym, ap, ◌∙◌, false, Option, none, some, List, [],
  ◌∷◌, ◌++◌, ltb, length, All, append_assoc, length-append, arith, done, panicked, Bool-cases, inl,
  inr,
}
use elektro_em_eukal.LogRecord.{LogRecord}
use elektro_em_eukal.LogRecord.Parts.{drop}
use elektro_em_eukal.LogRecord.Written.{drop-drop}
use elektro_em_eukal.RandomAccessFile.{take}
use elektro_em_eukal.FileIo.Written.{record_bytes}
use elektro_em_eukal.FileIo.Refines.{all_bytes}
use elektro_em_eukal.Recovery.{Replay, Recovered, apply_record, finish_tail}
use elektro_em_eukal.Recovery.Replayed.{
  replay, IsEntry, IsTorn, width, width_bounds, fitting, later, consumed, applied_as, drop-append,
}

pub consumed_within : (n : ℕ) (rs : List LogRecord) → consumed n rs ≤ n
unfolding consumed
consumed_within n [] = omega arith
consumed_within n (r ∷ rs) = let rest = consumed_within (n - width r) rs in ground (arith, rest)

pub later-All : (n : ℕ) (rs : List LogRecord) → All IsEntry rs → All IsEntry (later n rs)
unfolding later
later-All n [] a = tt
later-All n (r ∷ rs) (h, a) = elim (Bool-cases (ltb n (width r))) [
  | inl c ↦ rw c (h, a)
  | inr c ↦ rw c (later-All (n - width r) rs a)
]

pub drop-consumed :
    (n : ℕ) (rs : List LogRecord) (torn : List ℕ)
    → drop (consumed n rs) (all_bytes rs ++ torn) ≡ all_bytes (later n rs) ++ torn
unfolding drop consumed later
drop-consumed n [] torn = refl
drop-consumed n (r ∷ rs) torn = elim (Bool-cases (ltb n (width r))) [
  | inl c ↦ rw c refl
  | inr c ↦ rw c (
      sym
        (drop-drop (width r) (consumed (n - width r) rs) ((record_bytes r ++ all_bytes rs) ++ torn))
      ∙ ap (drop (consumed (n - width r) rs)) (
          ap (drop (width r)) (append_assoc (record_bytes r) (all_bytes rs) torn)
          ∙ drop-append (record_bytes r) (all_bytes rs ++ torn))
      ∙ drop-consumed (n - width r) rs torn)
]

abbrev pub replay_on : List LogRecord → Option Replay → Option Replay
replay_on rs none = none
replay_on rs (some s) = replay rs s

replay-next :
    (n : ℕ) (r : LogRecord) (rs : List LogRecord) (o : Option Replay)
    → ((s' : Replay)
        → replay rs s' ≡ replay_on (later (n - width r) rs) (replay (fitting (n - width r) rs) s'))
    → elim o as (λ x. Option Replay) [ none ↦ none | some s' ↦ replay rs s' ]
      ≡ replay_on
          (later (n - width r) rs)
          (elim o [ none ↦ none | some s' ↦ replay (fitting (n - width r) rs) s' ])
replay-next n r rs none k = refl
replay-next n r rs (some s') k = k s'

pub replay-later :
    (n : ℕ) (rs : List LogRecord) (s : Replay)
    → replay rs s ≡ replay_on (later n rs) (replay (fitting n rs) s)
unfolding replay fitting later
replay-later n [] s = refl
replay-later n (r ∷ rs) s = elim (Bool-cases (ltb n (width r))) [
  | inl c ↦ rw c refl
  | inr c ↦ rw c (replay-next n r rs (apply_record r s) (λ s'. replay-later (n - width r) rs s'))
]

pub all_consumed :
    (n : ℕ) (rs : List LogRecord)
    → length (all_bytes rs) ≤ n
    → (consumed n rs ≡ length (all_bytes rs)) × (fitting n rs ≡ rs)
unfolding consumed fitting
all_consumed n [] h = (refl, refl)
all_consumed n (r ∷ rs) h =
    let l = length-append (record_bytes r) (all_bytes rs) in
    let fits : ltb n (width r) ≡ false = ground (arith, l, h) in
    let (e, e') = all_consumed (n - width r) rs (omega (arith, l, h)) in
    (rw fits (omega (arith, l, e)), rw fits (ap (λ x. r ∷ x) e'))

pub some_consumed : (n : ℕ) (r : LogRecord) (rs : List LogRecord) → 32 ≤ n → 0 < consumed n (r ∷ rs)
unfolding consumed
some_consumed n r rs h =
    let b = width_bounds r in
    let fits : ltb n (width r) ≡ false = ground (arith, b.1, h) in rw fits (omega (arith, b.0))

pub take_all : (xs : List ℕ) → take (length xs) xs ≡ xs
unfolding take
take_all [] = refl
take_all (x ∷ xs) = ap (λ l. x ∷ l) (take_all xs)

pub take-drop : (n : ℕ) (xs : List ℕ) → take n xs ++ drop n xs ≡ xs
unfolding take drop
take-drop zero xs = refl
take-drop (suc n) [] = refl
take-drop (suc n) (x ∷ xs) = ap (λ l. x ∷ l) (take-drop n xs)

-- The recovery ends at `offset`, or in the panic of a record.
abbrev pub recovered_as : ℕ → Option Replay → Recovered
recovered_as offset none = panicked
recovered_as offset (some s) = done (some (s, offset))

pub tail_as :
    (file_len offset n m : ℕ) (o : Option Replay)
    → offset + n ≡ m
    → finish_tail file_len offset (applied_as n o) ≡ recovered_as m o
unfolding finish_tail
tail_as file_len offset n m none e = refl
tail_as file_len offset n m (some s) e = ap (λ x. done (some (s, x))) e

pub torn_length : (torn : List ℕ) → IsTorn torn → length torn < 32
torn_length torn (r, more, v, e, z) =
    omega (arith, length-append torn more, ap length e, (width_bounds r).1, z)
