-- ===== src/FileIo/Batches.antt =====
-- src/persistence_layer/file_io/io_task_processor.rs: what a batch of log buffers becomes in the log.
use elektro_em_eukal.Base.{
  ℕ, zero, suc, ◌+◌, ◌<◌, ◌≡◌, ◌≢◌, refl, sym, ap, subst, ◌∙◌, Bool, true, false, List, [], ◌∷◌,
  ◌++◌, arith, All, length, length-append, if◌then◌else◌, ◌==◌, append_assoc, append-nil, Outcome,
  done, Bool-cases, inl, inr,
}
use elektro_em_eukal.RandomAccessFile.{RandomAccessFile, Fault, write_at, write_until}
use elektro_em_eukal.RandomAccessFile.Append.{write_at-length, write_until-write}
use elektro_em_eukal.FileIo.{FileLogBuffer, FileIo}
use elektro_em_eukal.FileIo.Processor.{
  payload, end_of_journal, take_next, write_end, write_log_buffer, write_log_buffers,
}
use elektro_em_eukal.FileIo.Linked.{
  Memory, Linked, Linked-frame, Distinct, log_bytes, Agree, update_other,
}
use elektro_em_eukal.FileIo.Logged.{no_end}

-- The recorded length of a file is that of its content.
abbrev pub IsExact : RandomAccessFile → Type 0
IsExact file = file.len ≡ length file.content

-- The file has the bytes behind its content.
abbrev pub Appends : List ℕ → RandomAccessFile → ℕ × RandomAccessFile → Type 0
Appends bytes file (offset, file') =
    (file'.content ≡ file.content ++ bytes) × (offset ≡ length file'.content) × IsExact file'

write_until-Appends :
    (file : RandomAccessFile) (bytes : List ℕ) (offset : ℕ) (faults : List Fault)
    → offset ≡ length file.content
    → IsExact file
    → Appends bytes file (offset + length bytes, write_until file bytes offset faults)
write_until-Appends file bytes offset faults e x = rw (write_until-write file bytes offset faults) (
  ap (λ o. write_at file.content o bytes) e ∙ write_at-length file.content bytes,
  same,
  omega (arith, same, x, e),
)
  where
    same : offset + length bytes ≡ length (write_at file.content offset bytes)
    same =
        let w = ap (λ o. write_at file.content o bytes) e ∙ write_at-length file.content bytes in
        omega (arith, e, ap length w, length-append file.content bytes)

Appends-after :
    (a b : List ℕ) (file : RandomAccessFile) (offset : ℕ) (file' : RandomAccessFile)
    (r : ℕ × RandomAccessFile)
    → Appends a file (offset, file')
    → Appends b file' r
    → Appends (a ++ b) file r
Appends-after a b file offset file' r (e, o, x) (e', o', x') =
    (e' ∙ ap (λ l. l ++ b) e ∙ append_assoc file.content a b, o', x')

write_end-Appends :
    (faults : ℕ → List Fault) (l : FileLogBuffer) (offset : ℕ) (file : RandomAccessFile)
    → offset ≡ length file.content
    → IsExact file
    → Appends (end_of_journal l) file (write_end faults l offset file)
unfolding write_end
write_end-Appends faults l offset file e x = elim (Bool-cases l.eoj_logging) [
  | inl t ↦
      subst
        (λ (b : Bool). Appends (end_of_journal l) file (
          if b
          then (
            offset + length (end_of_journal l),
            write_until file (end_of_journal l) offset (faults offset),
          )
          else (offset, file)))
        (sym t) (write_until-Appends file (end_of_journal l) offset (faults offset) e x)
  | inr f ↦
      subst
        (λ (b : Bool). Appends (end_of_journal l) file (
          if b
          then (
            offset + length (end_of_journal l),
            write_until file (end_of_journal l) offset (faults offset),
          )
          else (offset, file)))
        (sym f)
        (sym (append-nil file.content) ∙ ap (λ b. file.content ++ b) (sym (no_end l f)), e, x)
]

write_log_buffer-Appends :
    (faults : ℕ → List Fault) (l : FileLogBuffer) (offset : ℕ) (file : RandomAccessFile)
    → offset ≡ length file.content
    → IsExact file
    → Appends (log_bytes l) file (write_log_buffer faults l offset file)
unfolding write_log_buffer
write_log_buffer-Appends faults l offset file e x =
    let first = write_until-Appends file (payload l) offset (faults offset) e x in
    Appends-after (payload l) (end_of_journal l) file (offset + length (payload l))
      (write_until file (payload l) offset (faults offset)) _ first
      (write_end-Appends faults l (offset + length (payload l))
        (write_until file (payload l) offset (faults offset)) first.1 first.2)

-- From the front of the turned list.
abbrev pub forward : Memory → List ℕ → List ℕ
forward m [] = []
forward m (p ∷ ps) = log_bytes (m p) ++ forward m ps

-- The links of buffers change, and nothing else of them.
abbrev pub LinksChange : Memory → Memory → Type 0
LinksChange m m' =
    (q : ℕ)
    → (log_bytes (m' q) ≡ log_bytes (m q))
      × ((m' q).durable_flush_epoch ≡ (m q).durable_flush_epoch)

pub forward-same : (m m' : Memory) (ps : List ℕ) → LinksChange m m' → forward m' ps ≡ forward m ps
forward-same m m' [] c = refl
forward-same m m' (p ∷ ps) c =
    ap (λ x. x ++ forward m' ps) (c p).0 ∙ ap (λ x. log_bytes (m p) ++ x) (forward-same m m' ps c)

abbrev pub Writes : FileIo → List ℕ → Outcome (ℕ × FileIo) → Type 0
Writes io ps o =
    (m' : Memory) × (file' : RandomAccessFile) × (offset' : ℕ) × (o
      ≡ done (offset', record io { buffers = m'; log = file' }))
    × Appends (forward io.buffers ps) io.log (offset', file')
    × LinksChange io.buffers m'

unlinked : (b : ℕ) (io : FileIo) → LinksChange io.buffers (take_next b io).1.buffers
unfolding take_next end_of_journal
unlinked b io q = ground arith

unlinked_others :
    (b : ℕ) (io : FileIo) (ps : List ℕ)
    → All (λ q. q ≢ b) ps
    → Agree io.buffers (take_next b io).1.buffers ps
unfolding take_next
unlinked_others b io [] a = tt
unlinked_others b io (p ∷ ps) (n, a) = (update_other io.buffers b _ p n, unlinked_others b io ps a)

-- The rest of the list behind the buffer `p`.
Writes-after :
    (offset : ℕ) (file' : RandomAccessFile) (p : ℕ) (ps : List ℕ) (io : FileIo)
    (o : Outcome (ℕ × FileIo))
    → Appends (log_bytes (io.buffers p)) io.log (offset, file')
    → Writes (take_next p (record io { log = file' })).1 ps o
    → Writes io (p ∷ ps) o
unfolding take_next
Writes-after offset file' p ps io o a (m', f', o', e, a', c) =
    let io' = (take_next p (record io { log = file' })).1 in
    let c' = unlinked p (record io { log = file' }) in
    (
      m',
      f',
      o',
      e,
      Appends-after (log_bytes (io.buffers p)) (forward io.buffers ps) io.log offset file' (o', f')
          a (subst (λ x. Appends x file' (o', f')) (forward-same io.buffers io'.buffers ps c') a'),
      (λ q. ((c q).0 ∙ (c' q).0, (c q).1 ∙ (c' q).1)),
    )

-- The last buffer.
Writes-last :
    (offset : ℕ) (file' : RandomAccessFile) (p : ℕ) (io : FileIo)
    → Appends (log_bytes (io.buffers p)) io.log (offset, file')
    → Writes io (p ∷ []) (done (offset, (take_next p (record io { log = file' })).1))
unfolding take_next
Writes-last offset file' p io a = (
  (take_next p (record io { log = file' })).1.buffers,
  file',
  offset,
  refl,
  subst (λ x. Appends x io.log (offset, file')) (sym (append-nil (log_bytes (io.buffers p)))) a,
  unlinked p (record io { log = file' }),
)

pub write_log_buffers-Writes :
    (rounds : ℕ) (faults : ℕ → List Fault) (b offset p : ℕ) (ps : List ℕ) (io : FileIo)
    → Linked io.buffers b (p ∷ ps)
    → Distinct (p ∷ ps)
    → length ps < rounds
    → offset ≡ length io.log.content
    → IsExact io.log
    → Writes io (p ∷ ps) (write_log_buffers rounds faults b offset io)
unfolding write_log_buffers take_next
write_log_buffers-Writes zero faults b offset p ps io l d h e x = absurd (omega (arith, h))
write_log_buffers-Writes (suc rounds) faults b offset p [] io (e', z, l) d h e x =
    let w = write_log_buffer faults (io.buffers p) offset io.log in
    let a = write_log_buffer-Appends faults (io.buffers p) offset io.log e x in
    let last : ((io.buffers p).next == 0) ≡ true = ground (arith, l) in
    let io' = (take_next p (record io { log = w.1 })).1 in
    let rest = write_log_buffers rounds faults (io.buffers p).next w.0 io' in
    subst (λ y. Writes io (p ∷ []) (write_log_buffers (suc rounds) faults y offset io)) (sym e')
      (subst (λ c. Writes io (p ∷ []) (if c then done (w.0, io') else rest)) (sym last)
        (Writes-last w.0 w.1 p io a))
write_log_buffers-Writes (suc rounds) faults b offset p (q ∷ qs) io (e', z, l) (n, d) h e x =
    let w = write_log_buffer faults (io.buffers p) offset io.log in
    let a = write_log_buffer-Appends faults (io.buffers p) offset io.log e x in
    let more : ((io.buffers p).next == 0) ≡ false = ground (arith, l) in
    let io' = (take_next p (record io { log = w.1 })).1 in
    let rest = write_log_buffers rounds faults (io.buffers p).next w.0 io' in
    let ih : Writes io' (q ∷ qs) rest =
      write_log_buffers-Writes rounds faults (io.buffers p).next w.0 q qs io'
        (Linked-frame io.buffers io'.buffers (io.buffers p).next (q ∷ qs)
          (unlinked_others p (record io { log = w.1 }) (q ∷ qs) n) l)
        d (omega (arith, h)) a.1 a.2 in
    subst (λ y. Writes io (p ∷ (q ∷ qs)) (write_log_buffers (suc rounds) faults y offset io))
      (sym e')
      (subst (λ c. Writes io (p ∷ (q ∷ qs)) (if c then done (w.0, io') else rest)) (sym more)
        (Writes-after w.0 w.1 p (q ∷ qs) io rest a ih))
