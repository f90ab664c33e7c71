-- ===== src/FileIo/Logged.antt =====
-- src/persistence_layer/file_io/mod.rs: what `create`, `delete` and the ends of journals and
-- transactions put in front of the thread that writes the log.
use elektro_em_eukal.Base.{
  ℕ, ◌+◌, ◌≤◌, ◌<◌, ◌≡◌, ◌≢◌, refl, sym, ap, subst, ◌∙◌, false, Option, none, some, List, [], ◌∷◌,
  ◌++◌, arith, All, length, append_assoc, append-nil, update, inl, inr,
}
use elektro_em_eukal.LogRecord
use elektro_em_eukal.LogRecord.{LogRecord, parts}
use elektro_em_eukal.LogRecord.Parts.{drop}
use elektro_em_eukal.LogRecord.Written.{size, size_bound}
use elektro_em_eukal.RandomAccessFile.{take}
use elektro_em_eukal.FileIo.{
  FileLogBuffer, FileIo, new_log_buffer, write_buffer, allocate, flush_buffer, write_record,
  write_fresh, unwrap_written, write_or_flush, write_log,
}
use elektro_em_eukal.FileIo.Processor.{payload, end_of_journal}
use elektro_em_eukal.FileIo.Written.{
  record_bytes, IsBuffer, write-room, write-cases, room_written, failed_write, new-IsBuffer,
}
use elektro_em_eukal.FileIo.Linked.{
  Agree-update, Linked-frame, log_of, log_of-frame, IsLogging, flush_buffer-Linked, update_self,
}

-- The bytes in front of the next record: those of the linked buffers and of the current one.
abbrev pub pending : FileIo → List ℕ → ℕ → List ℕ
pending io ps b = log_of io.buffers ps ++ payload (io.buffers b)

-- The calls succeed, and leave `bytes` behind the bytes that were pending.
abbrev pub Logs : FileIo → List ℕ → ℕ → List ℕ → Option (ℕ × FileIo) → Type 0
Logs io ps b bytes none = ⊥
Logs io ps b bytes (some (b', io')) =
    (ps' : List ℕ) × IsLogging io' ps' b'
    × (pending io' ps' b' ≡ pending io ps b ++ bytes)
    × (io'.log ≡ io.log)
    × (io'.flush_epoch ≡ io.flush_epoch)

-- A change of the buffer in use that keeps it a buffer in use.
buffer-IsLogging :
    (io : FileIo) (ps : List ℕ) (b : ℕ) (l : FileLogBuffer)
    → IsLogging io ps b
    → IsBuffer l
    → l.eoj_logging ≡ false
    → IsLogging (write_buffer b l io) ps b
      × (pending (write_buffer b l io) ps b ≡ log_of io.buffers ps ++ payload l)
buffer-IsLogging io ps b l s v u =
    let same = Agree-update io.buffers b l ps s.apart in
    let here = update_self io.buffers b l in
    (
      record {
        linked =
            Linked-frame io.buffers (update io.buffers b l) io.log_buffer_link ps same s.linked;
        distinct = s.distinct;
        apart = s.apart;
        used = s.used;
        in_use = s.in_use;
        valid = subst IsBuffer (sym here) v;
        unended = ap (λ (x : FileLogBuffer). x.eoj_logging) here ∙ u;
      },
      ap (λ (x : FileLogBuffer). log_of (update io.buffers b l) ps ++ payload x) here
          ∙ ap (λ x. x ++ payload l) (log_of-frame io.buffers (update io.buffers b l) ps same),
    )

-- A record fits into an empty buffer.
empty_room :
    (r : LogRecord)
    → size (parts r) ≤ length (drop new_log_buffer.bytes_written new_log_buffer.buffer)
unfolding drop new_log_buffer
empty_room r = size_bound r

write_record-room :
    (r : LogRecord) (l : FileLogBuffer)
    → size (parts r) ≤ length (drop l.bytes_written l.buffer)
    → write_record r l ≡ (
      record l {
        buffer =
            take l.bytes_written l.buffer
            ++ (record_bytes r ++ drop (size (parts r)) (drop l.bytes_written l.buffer));
      },
      some (size (parts r)),
    )
unfolding write_record
write_record-room r l room =
    ap
      (λ (x : List ℕ × Option ℕ). (record l { buffer = take l.bytes_written l.buffer ++ x.0 }, x.1))
      (write-room r (drop l.bytes_written l.buffer) room)

-- The buffer in use with a record behind its bytes.
abbrev extended : LogRecord → FileLogBuffer → FileLogBuffer
extended r l = record l {
  buffer =
      take l.bytes_written l.buffer
      ++ (record_bytes r ++ drop (size (parts r)) (drop l.bytes_written l.buffer));
  bytes_written = l.bytes_written + size (parts r);
}

extended-Logs :
    (r : LogRecord) (io : FileIo) (ps : List ℕ) (b : ℕ)
    → IsLogging io ps b
    → size (parts r) ≤ length (drop (io.buffers b).bytes_written (io.buffers b).buffer)
    → Logs io ps b (record_bytes r) (some (b, write_buffer b (extended r (io.buffers b)) io))
extended-Logs r io ps b s room =
    let (v, e) = room_written r (io.buffers b) s.valid room in
    let (s', e') = buffer-IsLogging io ps b (extended r (io.buffers b)) s v s.unended in
    (
      ps,
      s',
      e'
          ∙ ap (λ x. log_of io.buffers ps ++ x) e
          ∙ sym (append_assoc (log_of io.buffers ps) (payload (io.buffers b)) (record_bytes r)),
      refl,
      refl,
    )

used_more : (n : ℕ) (ps : List ℕ) → All (λ p. p < n) ps → All (λ p. p < n + 1) ps
used_more n [] a = tt
used_more n (p ∷ ps) (h, a) = (omega (arith, h), used_more n ps a)

used_apart : (n : ℕ) (ps : List ℕ) → All (λ p. p < n) ps → All (λ p. p ≢ n) ps
used_apart n [] a = tt
used_apart n (p ∷ ps) (h, a) = ((λ e. omega (arith, e, h)), used_apart n ps a)

pub no_end : (l : FileLogBuffer) → l.eoj_logging ≡ false → end_of_journal l ≡ []
unfolding end_of_journal
no_end l e = rw e refl

new_unended : new_log_buffer.eoj_logging ≡ false
unfolding new_log_buffer
new_unended = refl

new_payload : payload new_log_buffer ≡ []
unfolding new_log_buffer take
new_payload = refl

-- The buffer in use is flushed and a new one is taken: the pending bytes are the same.
fresh-IsLogging :
    (io : FileIo) (ps : List ℕ) (b : ℕ)
    → IsLogging io ps b
    → let (b', io') = allocate (flush_buffer b io) in
      IsLogging io' (b ∷ ps) b'
      × (pending io' (b ∷ ps) b' ≡ pending io ps b)
      × (io'.buffers b' ≡ new_log_buffer)
      × (io'.log ≡ io.log)
      × (io'.flush_epoch ≡ io.flush_epoch)
unfolding allocate flush_buffer
fresh-IsLogging io ps b s =
    let (linked, logged, next, log, epoch) =
      flush_buffer-Linked io ps b s.in_use.0 s.apart s.linked in
    let n = (flush_buffer b io).next_address in
    let m = (flush_buffer b io).buffers in
    let used : All (λ p. p < n) (b ∷ ps) = rw next (s.in_use.1, s.used) in
    let same = Agree-update m n new_log_buffer (b ∷ ps) (used_apart n (b ∷ ps) used) in
    let here : update m n new_log_buffer n ≡ new_log_buffer = update_self m n new_log_buffer in
    (
      record {
        linked = Linked-frame m (update m n new_log_buffer) _ (b ∷ ps) same linked;
        distinct = (s.apart, s.distinct);
        apart = used_apart n (b ∷ ps) used;
        used = used_more n (b ∷ ps) used;
        in_use = (omega (arith, used.0, s.in_use.0), omega arith);
        valid = subst IsBuffer (sym here) new-IsBuffer;
        unended = ap (λ (x : FileLogBuffer). x.eoj_logging) here ∙ new_unended;
      },
      ap (λ (x : FileLogBuffer). log_of (update m n new_log_buffer) (b ∷ ps) ++ payload x) here
          ∙ ap (λ x. log_of (update m n new_log_buffer) (b ∷ ps) ++ x) new_payload
          ∙ append-nil (log_of (update m n new_log_buffer) (b ∷ ps))
          ∙ log_of-frame m (update m n new_log_buffer) (b ∷ ps) same
          ∙ logged
          ∙ ap (λ x. log_of io.buffers ps ++ (payload (io.buffers b) ++ x))
              (no_end (io.buffers b) s.unended)
          ∙ ap (λ x. log_of io.buffers ps ++ x) (append-nil (payload (io.buffers b))),
      here,
      log,
      epoch,
    )

write_record-none :
    (r : LogRecord) (l : FileLogBuffer)
    → (LogRecord.write r (drop l.bytes_written l.buffer)).1 ≡ none
    → (write_record r l).1 ≡ none
unfolding write_record
write_record-none r l e = e

write_fresh-Logs :
    (r : LogRecord) (io : FileIo) (ps : List ℕ) (b : ℕ)
    → IsLogging io ps b
    → io.buffers b ≡ new_log_buffer
    → Logs io ps b (record_bytes r) (write_fresh r b io)
unfolding write_fresh
write_fresh-Logs r io ps b s e =
    let room : size (parts r) ≤ length (drop (io.buffers b).bytes_written (io.buffers b).buffer) =
      subst (λ (x : FileLogBuffer). size (parts r) ≤ length (drop x.bytes_written x.buffer)) (sym e)
        (empty_room r) in
    subst (Logs io ps b (record_bytes r))
      (sym (
        ap (λ (x : FileLogBuffer × Option ℕ). unwrap_written b io x.0 x.1)
          (write_record-room r (io.buffers b) room)))
      (extended-Logs r io ps b s room)

-- Nothing else than the pending bytes counts.
Logs-same :
    (io io' : FileIo) (ps ps' : List ℕ) (b b' : ℕ) (bytes : List ℕ) (o : Option (ℕ × FileIo))
    → pending io' ps' b' ≡ pending io ps b
    → io'.log ≡ io.log
    → io'.flush_epoch ≡ io.flush_epoch
    → Logs io' ps' b' bytes o
    → Logs io ps b bytes o
Logs-same io io' ps ps' b b' bytes none e l f s = s
Logs-same io io' ps ps' b b' bytes (some (c, st)) e l f (qs, s, p, l', f') =
    (qs, s, p ∙ ap (λ x. x ++ bytes) e, l' ∙ l, f' ∙ f)

flushed-Logs :
    (r : LogRecord) (io : FileIo) (ps : List ℕ) (b : ℕ)
    → IsLogging io ps b
    → Logs io ps b (record_bytes r) (write_or_flush r b io (write_record r (io.buffers b)).0 none)
unfolding write_or_flush allocate
flushed-Logs r io ps b s =
    let l' = (write_record r (io.buffers b)).0 in
    let (v, u, p) = failed_write r (io.buffers b) s.valid in
    let (s', e) = buffer-IsLogging io ps b l' s v (u ∙ s.unended) in
    let io' = write_buffer b l' io in
    let (s'', e', new, log, epoch) = fresh-IsLogging io' ps b s' in
    Logs-same io (allocate (flush_buffer b io')).1 ps (b ∷ ps) b (allocate (flush_buffer b io')).0
      (record_bytes r) _ (e' ∙ e ∙ ap (λ x. log_of io.buffers ps ++ x) p) log epoch
      (write_fresh-Logs r (allocate (flush_buffer b io')).1 (b ∷ ps)
        (allocate (flush_buffer b io')).0 s'' new)

-- A record that is logged stands behind all bytes that were pending, whether the buffer had room for
-- it or not.
pub write_log-Logs :
    (r : LogRecord) (io : FileIo) (ps : List ℕ) (b : ℕ)
    → IsLogging io ps b
    → Logs io ps b (record_bytes r) (write_log r b io)
unfolding write_log
write_log-Logs r io ps b s =
    let l = io.buffers b in
    elim (write-cases r (drop l.bytes_written l.buffer)) [
      | inl room ↦
          subst (Logs io ps b (record_bytes r))
            (sym (
              ap (λ (x : FileLogBuffer × Option ℕ). write_or_flush r b io x.0 x.1)
                (write_record-room r l room)))
            (extended-Logs r io ps b s room)
      | inr full ↦
          subst (Logs io ps b (record_bytes r))
            (sym (ap (write_or_flush r b io (write_record r l).0) (write_record-none r l full)))
            (flushed-Logs r io ps b s)
    ]
