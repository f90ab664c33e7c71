-- ===== src/Recovery/Replays.antt =====
-- src/persistence_layer/file_io/recovery.rs: `recover_database` against the records of the log.
use elektro_em_eukal.Base.{
  ℕ, zero, suc, ◌+◌, ◌-◌, ◌≤◌, ◌<◌, ◌≡◌, refl, sym, ap, ◌∙◌, Bool, true, false, Option, none, some,
  List, [], ◌∷◌, ◌++◌, if◌then◌else◌, ◌==◌, ltb, length, All, append-nil, is_empty, length-append,
  arith, Outcome, done, panicked, out_of_rounds, Bool-cases, inl, inr,
}
use elektro_em_eukal.Anchors.{Error, ok, err}
use elektro_em_eukal.LogRecord.{LogRecord}
use elektro_em_eukal.LogRecord.Parts.{drop}
use elektro_em_eukal.LogRecord.Written.{length-drop, drop-drop}
use elektro_em_eukal.RandomAccessFile.{RandomAccessFile, take}
use elektro_em_eukal.RandomAccessFile.Reads.{read_window, read_short}
use elektro_em_eukal.FileIo.Written.{length-take, record_bytes}
use elektro_em_eukal.FileIo.Refines.{all_bytes}
use elektro_em_eukal.Recovery.{
  Replay, Recovered, RecoveryData, Database, apply_to_database, recover_tail, recover_windows,
  finish_tail, conclude_recovery, conclude_windows, recover_database, invalid_data,
  new_recovery_data,
}
use elektro_em_eukal.Recovery.Replayed.{
  replay, IsEntry, IsTorn, width_bounds, fitting, later, consumed, applied_as, apply_records-replay,
}
use elektro_em_eukal.Recovery.Windows.{
  consumed_within, later-All, drop-consumed, replay_on, replay-later, all_consumed, some_consumed,
  take_all, take-drop, recovered_as, tail_as, torn_length,
}

abbrev pub never : ℕ → Bool
never offset = false

abbrev pub no_fault : ℕ → Option ℕ
no_fault offset = none

module _ (log : RandomAccessFile) (torn : List ℕ) (t : IsTorn torn) where
  -- What is left of the log from an offset on.
  abbrev Left : ℕ → List LogRecord → Type 0
  Left offset rs =
      (drop offset log.content ≡ all_bytes rs ++ torn)
      × (offset + length (all_bytes rs ++ torn) ≡ log.len)

  apply_window :
      (rs : List LogRecord) (w more : List ℕ) (s : Replay)
      → All IsEntry rs
      → w ++ more ≡ all_bytes rs ++ torn
      → apply_to_database w s
        ≡ applied_as (consumed (length w) rs) (replay (fitting (length w) rs) s)
  unfolding apply_to_database
  apply_window rs w more s a e =
      apply_records-replay torn t rs (length w) (length w) w more s a e (omega arith)
      ∙ ap (λ n. applied_as n (replay (fitting (length w) rs) s))
          (omega (arith, consumed_within (length w) rs))

  nothing_left : (rs : List LogRecord) → length (all_bytes rs ++ torn) ≡ 0 → rs ≡ []
  nothing_left [] e = refl
  nothing_left (r ∷ rs) e = absurd (
      omega (
        arith,
        length-append (record_bytes r ++ all_bytes rs) torn,
        length-append (record_bytes r) (all_bytes rs),
        (width_bounds r).0,
        e,
      ))

  recover_tail-replay :
      (offset : ℕ) (rs : List LogRecord) (s : Replay)
      → All IsEntry rs
      → Left offset rs
      → length (all_bytes rs ++ torn) < 32
      → recover_tail never no_fault log log.len offset s
        ≡ recovered_as (log.len - length torn) (replay rs s)
  unfolding recover_tail replay
  recover_tail-replay offset rs s a (e, e') h =
      let l = length-append (all_bytes rs) torn in
      elim (Bool-cases (ltb offset log.len)) [
        | inl c ↦
            let n : log.len - offset ≡ length (all_bytes rs ++ torn) = omega (arith, e') in
            let few : ltb (log.len - offset) 32 ≡ true = ground (arith, n, h) in
            let piece =
              read_window log (length (all_bytes rs ++ torn)) offset _ e (omega arith)
              ∙ ap ok (take_all (all_bytes rs ++ torn)) in
            let (k, f) = all_consumed (length (all_bytes rs ++ torn)) rs (omega (arith, l)) in
            rw (c, few, n, piece)
              (ap (finish_tail log.len offset) (
                  apply_window rs (all_bytes rs ++ torn) [] s a (append-nil _)
                  ∙ ap (λ x. applied_as x (replay (fitting (length (all_bytes rs ++ torn)) rs) s)) k
                  ∙ ap (λ x. applied_as (length (all_bytes rs)) (replay x s)) f)
                ∙ tail_as log.len offset (length (all_bytes rs)) _ (replay rs s)
                    (omega (arith, l, e')))
        | inr c ↦
            let at_end : log.len ≤ offset = ground arith in
            let empty = nothing_left rs (omega (arith, at_end, e')) in
            rw c (
              ap (λ x. done (some (s, x))) (omega (arith, at_end, e', l))
              ∙ ap (λ x. recovered_as (log.len - length torn) (replay x s)) (sym empty))
      ]

  -- A window is applied, and the loop goes on behind the records in it.
  next_window :
      (rounds offset n m : ℕ) (later_ones : List LogRecord) (o : Option Replay)
      → ((s' : Replay)
          → recover_windows never no_fault log log.len rounds (offset + n) s'
            ≡ recovered_as m (replay later_ones s'))
      → elim (applied_as n o) as (λ x. Recovered) [
        | done (s', some k) ↦ recover_windows never no_fault log log.len rounds (offset + k) s'
        | done (s', none) ↦ recover_tail never no_fault log log.len log.len s'
        | panicked ↦ panicked
        | out_of_rounds ↦ out_of_rounds
      ]
        ≡ recovered_as m (replay_on later_ones o)
  next_window rounds offset n m later_ones none k = refl
  next_window rounds offset n m later_ones (some s') k = k s'

  some_progress : (rs : List LogRecord) → 32 ≤ length (all_bytes rs ++ torn) → 0 < consumed 32 rs
  some_progress [] h = absurd (omega (arith, h, torn_length torn t))
  some_progress (r ∷ rs) h = some_consumed 32 r rs (omega arith)

  recover_windows-replay :
      (rounds offset : ℕ) (rs : List LogRecord) (s : Replay)
      → All IsEntry rs
      → Left offset rs
      → length (all_bytes rs ++ torn) < rounds
      → recover_windows never no_fault log log.len rounds offset s
        ≡ recovered_as (log.len - length torn) (replay rs s)
  unfolding recover_windows
  recover_windows-replay zero offset rs s a (e, e') h = absurd (omega (arith, h))
  recover_windows-replay (suc rounds) offset rs s a (e, e') h =
      let rest = all_bytes rs ++ torn in
      elim (Bool-cases (ltb (length rest) 32)) [
        | inl c ↦
            let few : length rest < 32 = ground arith in
            rw (recover_windows, read_short log 32 offset rest e few)
              (recover_tail-replay offset rs s a (e, e') few)
        | inr c ↦
            let enough : 32 ≤ length rest = ground arith in
            let n = length-take 32 rest enough in
            let window =
              apply_window rs (take 32 rest) (drop 32 rest) s a (take-drop 32 rest)
              ∙ ap (λ x. applied_as (consumed x rs) (replay (fitting x rs) s)) n in
            let left = drop-consumed 32 rs torn in
            let size = sym (ap length left) ∙ length-drop (consumed 32 rs) rest in
            let within = consumed_within 32 rs in
            let progress = some_progress rs enough in
            rw (recover_windows, read_window log 32 offset rest e enough, window)
              (next_window rounds offset (consumed 32 rs) _ (later 32 rs) (replay (fitting 32 rs) s)
                  (λ s'.
                    recover_windows-replay rounds (offset + consumed 32 rs) (later 32 rs) s'
                      (later-All 32 rs a)
                      (
                        sym (drop-drop offset (consumed 32 rs) log.content)
                            ∙ ap (drop (consumed 32 rs)) e
                            ∙ left,
                        omega (arith, e', size, within, enough),
                      )
                      (omega (arith, h, size, within, progress, enough)))
                ∙ ap (recovered_as (log.len - length torn)) (sym (replay-later 32 rs s)))
      ]

-- The data behind the recovery of a log that ends in `torn`, and the waker that is woken.
abbrev pub concluded_as : List ℕ → RecoveryData → Option Replay → Outcome (RecoveryData × Option ℕ)
concluded_as torn r none = panicked
concluded_as torn r (some s) = done (
  record r {
    waker = none;
    result = some (if is_empty torn then ok s.database else err (Error.io invalid_data));
  },
  r.waker,
)

concluded :
    (log : RandomAccessFile) (torn : List ℕ) (r : RecoveryData) (o : Option Replay)
    → r.result ≡ none
    → length torn ≤ log.len
    → conclude_windows log.len r (recovered_as (log.len - length torn) o) ≡ concluded_as torn r o
unfolding conclude_windows conclude_recovery
concluded log torn r none e h = refl
concluded log [] r (some s) e h =
    let whole : (log.len - 0 == log.len) ≡ true = ground arith in rw (e, whole) refl
concluded log (b ∷ torn) r (some s) e h =
    let part : (log.len - suc (length torn) == log.len) ≡ false = ground (arith, h) in
    rw (e, part) refl

-- The data that the recovery of a database leaves behind its mutex when it takes the database.
unfoldable pub taken : Database → Option ℕ → RecoveryData
unfolding new_recovery_data
taken database until = record (new_recovery_data database until) { database = none }

-- The recovery of a log that holds the records `rs` and a front of one more, which may be empty, ends
-- within as many rounds as the log has bytes and one more, if it is not cancelled and no read fails. It
-- panics if one of the records does; otherwise the waiting task is woken and finds, behind a whole
-- last record, the database with the records applied in order, or, behind a torn one, an error.
pub recover_database-replay :
    (rounds : ℕ) (meanwhile : RecoveryData → RecoveryData) (rs : List LogRecord) (torn : List ℕ)
    (log : RandomAccessFile) (database : Database) (until : Option ℕ)
    → All IsEntry rs
    → IsTorn torn
    → log.content ≡ all_bytes rs ++ torn
    → log.len ≡ length log.content
    → log.len < rounds
    → (meanwhile (taken database until)).result ≡ none
    → recover_database rounds never no_fault meanwhile log (new_recovery_data database until)
      ≡ concluded_as torn (meanwhile (taken database until)) (
          replay rs
            (record { database = database; playback_container = []; last_journal_anchor = none }))
unfolding recover_database drop new_recovery_data taken
recover_database-replay rounds meanwhile rs torn log database until a t e l h n =
    let size = l ∙ ap length e in
    ap (conclude_windows log.len (meanwhile (taken database until))) (
      recover_windows-replay log torn t rounds 0 rs _ a (e, omega (arith, size))
        (omega (arith, size, h)))
    ∙ concluded log torn _ _ n (omega (arith, size, length-append (all_bytes rs) torn))
