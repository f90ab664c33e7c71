-- ===== src/FileIo/Refines.antt =====
-- src/persistence_layer/file_io/mod.rs: `create` and `delete` against what they promise, a log that
-- names the objects.
use elektro_em_eukal.Base.{
  ℕ, ◌^◌, ◌<◌, ◌≡◌, refl, sym, ap, subst, ◌∙◌, Option, none, some, List, [], ◌∷◌, ◌++◌, All,
  append_assoc, append-nil,
}
use elektro_em_eukal.LogRecord.{LogRecord}
use elektro_em_eukal.FileIo.{FileIo, write_log}
use elektro_em_eukal.FileIo.Objects.{log_objects, next_created, next_deleted, create, delete}
use elektro_em_eukal.FileIo.Written.{record_bytes}
use elektro_em_eukal.FileIo.Linked.{IsLogging}
use elektro_em_eukal.FileIo.Logged.{Logs, write_log-Logs}
use elektro_em_eukal.FileIo.Compression.{
  objects_of, all_objects, IsCreated, IsDeleted, records_of, log_records-Names,
  next_created-Extends, next_deleted-Extends,
}

abbrev pub all_bytes : List LogRecord → List ℕ
all_bytes [] = []
all_bytes (r ∷ rs) = record_bytes r ++ all_bytes rs

Logs-nothing :
    (io : FileIo) (ps : List ℕ) (b : ℕ) → IsLogging io ps b → Logs io ps b [] (some (b, io))
Logs-nothing io ps b s = (ps, s, sym (append-nil _), refl, refl)

-- One call after the other.
Logs-after :
    (io io' : FileIo) (ps : List ℕ) (b b' : ℕ) (bytes more : List ℕ) (o : Option (ℕ × FileIo))
    → Logs io ps b bytes (some (b', io'))
    → ((ps' : List ℕ) → IsLogging io' ps' b' → Logs io' ps' b' more o)
    → Logs io ps b (bytes ++ more) o
Logs-after io io' ps b b' bytes more none (ps', s, e, l, f) k = k ps' s
Logs-after io io' ps b b' bytes more (some (c, st)) (ps', s, e, l, f) k =
    let (qs, s', e', l', f') = k ps' s in
    (qs, s', e' ∙ ap (λ x. x ++ more) e ∙ append_assoc _ bytes more, l' ∙ l, f' ∙ f)

module _ (single : ℕ → LogRecord) (next : LogRecord → ℕ → Option LogRecord) where
  -- The record is logged and the loop goes on with a new one, or the record takes the identifier.
  next-Logs :
      (id : ℕ) (ids : List ℕ) (r : LogRecord) (b : ℕ) (io : FileIo) (ps : List ℕ)
      (o : Option LogRecord) (w : Option (ℕ × FileIo))
      → Logs io ps b (record_bytes r) w
      → ((r' : LogRecord) (b' : ℕ) (io' : FileIo) (ps' : List ℕ)
          → IsLogging io' ps' b'
          → Logs io' ps' b'
              (all_bytes (records_of single next ids (some r')))
              (log_objects single next ids (some r') b' io'))
      → IsLogging io ps b
      → Logs io ps b
          (all_bytes (elim o [
            | some r' ↦ records_of single next ids (some r')
            | none ↦ r ∷ records_of single next ids (some (single id))
          ]))
          (elim o [
            | some r' ↦ log_objects single next ids (some r') b io
            | none ↦ elim w [
              | none ↦ none
              | some (b', io') ↦ log_objects single next ids (some (single id)) b' io'
            ]
          ])
  next-Logs id ids r b io ps (some r') w l k s = k r' b io ps s
  next-Logs id ids r b io ps none none l k s = l
  next-Logs id ids r b io ps none (some (b', io')) l k s =
      Logs-after io io' ps b b' (record_bytes r) _ _ l (k (single id) b' io')

  current-Logs :
      (ids : List ℕ) (r : LogRecord) (b : ℕ) (io : FileIo) (ps : List ℕ)
      → IsLogging io ps b
      → Logs io ps b
          (all_bytes (records_of single next ids (some r)))
          (log_objects single next ids (some r) b io)
  unfolding log_objects records_of
  current-Logs [] r b io ps s =
      subst (λ x. Logs io ps b x (write_log r b io)) (sym (append-nil (record_bytes r)))
        (write_log-Logs r io ps b s)
  current-Logs (id ∷ ids) r b io ps s =
      next-Logs id ids r b io ps (next r id) (write_log r b io) (write_log-Logs r io ps b s)
        (λ r' b' io' ps' s'. current-Logs ids r' b' io' ps' s') s

  log_objects-Logs :
      (ids : List ℕ) (b : ℕ) (io : FileIo) (ps : List ℕ)
      → IsLogging io ps b
      → Logs io ps b
          (all_bytes (records_of single next ids none))
          (log_objects single next ids none b io)
  unfolding log_objects records_of
  log_objects-Logs [] b io ps s = Logs-nothing io ps b s
  log_objects-Logs (id ∷ ids) b io ps s = current-Logs ids (single id) b io ps s

-- The call succeeds, and the bytes that it leaves behind the pending ones are records of the kind `P`
-- that name the objects `ids`, in order.
abbrev pub LogsObjects :
    (LogRecord → Type 0) → List ℕ → FileIo → List ℕ → ℕ → Option (ℕ × FileIo) → Type 0
LogsObjects P ids io ps b o =
    (rs : List LogRecord) × All P rs × (all_objects rs ≡ ids) × Logs io ps b (all_bytes rs) o

-- `create` and `delete` do not panic, and implement a log to which the objects are appended one by
-- one: behind everything that was pending stand records of created, or deleted, objects of the
-- transaction and the journal that name exactly the given objects, in order, however the identifiers
-- are put together in ranges and distributed over buffers.
pub log-Refines :
    (t j : ℕ) (ids : List ℕ) (io : FileIo) (ps : List ℕ) (b : ℕ)
    → All (λ id. id < 2 ^ 64) ids
    → IsLogging io ps b
    → LogsObjects (IsCreated t j) ids io ps b (create b t j ids io)
      × LogsObjects (IsDeleted t j) ids io ps b (delete b t j ids io)
unfolding create delete objects_of
log-Refines t j ids io ps b a s =
    let created = LogRecord.journal_created_object_single t j in
    let deleted = LogRecord.journal_deleted_object_single t j in
    let (p, e) =
      log_records-Names created (next_created t j) (IsCreated t j) (λ id. refl)
        (λ id l. (refl, refl, l)) (λ id r. next_created-Extends t j id r) ids a in
    let (p', e') =
      log_records-Names deleted (next_deleted t j) (IsDeleted t j) (λ id. refl)
        (λ id l. (refl, refl, l)) (λ id r. next_deleted-Extends t j id r) ids a in
    (
      (
        records_of created (next_created t j) ids none,
        p,
        e,
        log_objects-Logs created (next_created t j) ids b io ps s,
      ),
      (
        records_of deleted (next_deleted t j) ids none,
        p',
        e',
        log_objects-Logs deleted (next_deleted t j) ids b io ps s,
      ),
    )
