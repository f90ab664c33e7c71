-- ===== src/FileIo/Durable.antt =====
-- src/persistence_layer/file_io/io_task_processor.rs: a batch of log buffers, from the list that is
-- taken to the flush epoch that is published.
use mathlib.Core.List.{reverse_aux}
use elektro_em_eukal.Base.{
  ℕ, ◌+◌, ◌≤◌, ◌<◌, ◌≡◌, ◌≢◌, refl, sym, ap, subst, ◌∙◌, false, List, [], ◌∷◌, ◌++◌, arith, All,
  length, if◌then◌else◌, ◌==◌, append_assoc, append-nil, Outcome, done,
}
use elektro_em_eukal.RandomAccessFile.{RandomAccessFile, Fault}
use elektro_em_eukal.FileIo.{FileIo}
use elektro_em_eukal.FileIo.Processor.{
  write_log_buffers, finish_batch, finish_written, write_taken, take_log_buffer_link,
  process_log_buffer_batch,
}
use elektro_em_eukal.FileIo.Linked.{Memory, Linked, Distinct, log_bytes, log_of}
use elektro_em_eukal.FileIo.Inverted.{Epochs, Disjoint, take_log_buffer_link-Inverts}
use elektro_em_eukal.FileIo.Batches.{IsExact, Appends, forward, Writes, write_log_buffers-Writes}

forward-reverse_aux :
    (m : Memory) (ps cs : List ℕ) → forward m (reverse_aux ps cs) ≡ log_of m ps ++ forward m cs
forward-reverse_aux m [] cs = refl
forward-reverse_aux m (p ∷ ps) cs =
    forward-reverse_aux m ps (p ∷ cs)
    ∙ sym (append_assoc (log_of m ps) (log_bytes (m p)) (forward m cs))

log_of-same :
    (m m' : Memory) (ps : List ℕ)
    → ((p : ℕ) → log_bytes (m' p) ≡ log_bytes (m p))
    → log_of m' ps ≡ log_of m ps
log_of-same m m' [] c = refl
log_of-same m m' (p ∷ ps) c =
    ap (λ x. log_of m' ps ++ x) (c p) ∙ ap (λ x. x ++ log_bytes (m p)) (log_of-same m m' ps c)

Disjoint-tail :
    (p : ℕ) (cs ps : List ℕ) → All (λ q. q ≢ p) ps → Disjoint cs ps → Disjoint (p ∷ cs) ps
Disjoint-tail p cs [] n a = tt
Disjoint-tail p cs (q ∷ ps) (n, ns) (a, more) =
    (((λ e. n (sym e)), a), Disjoint-tail p cs ps ns more)

Distinct-reverse_aux :
    (ps cs : List ℕ) → Distinct ps → Distinct cs → Disjoint cs ps → Distinct (reverse_aux ps cs)
Distinct-reverse_aux [] cs d d' a = d'
Distinct-reverse_aux (p ∷ ps) cs (n, d) d' (a, more) =
    Distinct-reverse_aux ps (p ∷ cs) d (a, d') (Disjoint-tail p cs ps n more)

length-reverse_aux : (ps cs : List ℕ) → length (reverse_aux ps cs) ≡ length ps + length cs
length-reverse_aux [] cs = omega arith
length-reverse_aux (p ∷ ps) cs = omega (arith, length-reverse_aux ps (p ∷ cs))

nothing_apart : (ps : List ℕ) → Disjoint [] ps
nothing_apart [] = tt
nothing_apart (p ∷ ps) = (tt, nothing_apart ps)

epochs_kept :
    (epoch : ℕ) (m m' : Memory) (ps : List ℕ)
    → ((p : ℕ) → (m' p).durable_flush_epoch ≡ (m p).durable_flush_epoch)
    → All (λ p. (m p).durable_flush_epoch ≡ epoch) ps
    → All (λ p. (m' p).durable_flush_epoch ≡ epoch) ps
epochs_kept epoch m m' [] c a = tt
epochs_kept epoch m m' (p ∷ ps) c (e, a) = (c p ∙ e, epochs_kept epoch m m' ps c a)

-- The linked buffers `ps` are in the log behind what was there, the oldest first; they know the epoch
-- since when they are durable, which is the present one; and all that waited are woken.
abbrev pub IsDurable : FileIo → List ℕ → Outcome (ℕ × FileIo) → Type 0
IsDurable io ps o =
    (m' : Memory) × (log' : RandomAccessFile) × (offset' : ℕ) × (o
      ≡ done (
        offset',
        record io {
          buffers = m';
          log = log';
          log_buffer_link = 0;
          flush_epoch = io.flush_epoch + 1;
          waker_bag = [];
          woken = io.woken ++ io.waker_bag;
        },
      ))
    × Appends (log_of io.buffers ps) io.log (offset', log')
    × All (λ p. (m' p).durable_flush_epoch ≡ io.flush_epoch + 1) ps

written-IsDurable :
    (c : ℕ) (ps : List ℕ) (io : FileIo) (m : Memory) (rs : List ℕ) (o : Outcome (ℕ × FileIo))
    → rs ≡ reverse_aux (c ∷ ps) []
    → Epochs (io.flush_epoch + 1) (c ∷ ps) io.buffers m
    → Writes (record io { buffers = m; log_buffer_link = 0 }) rs o
    → IsDurable io (c ∷ ps) (finish_written (io.flush_epoch + 1) o)
unfolding finish_written finish_batch
written-IsDurable c ps io m rs o e (bytes, epochs, others) (m', log', offset', e', a, change) = (
  m',
  log',
  offset',
  ap (finish_written (io.flush_epoch + 1)) e',
  subst (λ x. Appends x io.log (offset', log'))
      (ap (forward m) e
        ∙ forward-reverse_aux m (c ∷ ps) []
        ∙ append-nil (log_of m (c ∷ ps))
        ∙ log_of-same io.buffers m (c ∷ ps) bytes)
      a,
  epochs_kept (io.flush_epoch + 1) m m' (c ∷ ps) (λ p. (change p).1) epochs,
)

taken-IsDurable :
    (rounds : ℕ) (faults : ℕ → List Fault) (offset c : ℕ) (ps rs : List ℕ) (io : FileIo)
    (o : Outcome (ℕ × FileIo))
    → rs ≡ reverse_aux (c ∷ ps) []
    → Distinct rs
    → length rs ≤ rounds
    → 0 < length rs
    → offset ≡ length io.log.content
    → IsExact io.log
    → (m : Memory) → (head : ℕ) → o ≡ done (head, record io { buffers = m; log_buffer_link = 0 })
    → Linked m head rs
    → Epochs (io.flush_epoch + 1) (c ∷ ps) io.buffers m
    → IsDurable io (c ∷ ps) (write_taken rounds faults (io.flush_epoch + 1) offset o)
unfolding write_taken
taken-IsDurable rounds faults offset c ps [] io o e d h z f x m head eq l ep =
    absurd (omega (arith, z))
taken-IsDurable rounds faults offset c ps (r ∷ rs) io o e d h z f x m head eq (eh, zh, l) ep =
    let io' = record io { buffers = m; log_buffer_link = 0 } in
    let w = write_log_buffers rounds faults head offset io' in
    let some_head : (head == 0) ≡ false = ground arith in
    subst (λ y. IsDurable io (c ∷ ps) (write_taken rounds faults (io.flush_epoch + 1) offset y))
      (sym eq)
      (subst
        (λ b.
          IsDurable io (c ∷ ps)
            (if b then done (offset, io') else finish_written (io.flush_epoch + 1) w))
        (sym some_head)
        (written-IsDurable c ps io m (r ∷ rs) w e ep (
          write_log_buffers-Writes rounds faults head offset r rs io' (eh, zh, l) d
            (omega (arith, h)) f x)))

-- A batch ends with every linked buffer in the log, in the order in which the buffers were pushed and
-- each with the end of its journal, behind the bytes that were there, whatever writes fail on the
-- way; then the flush epoch that the buffers were given is published and every waker is woken.
pub process_log_buffer_batch-IsDurable :
    (rounds : ℕ) (faults : ℕ → List Fault) (offset c : ℕ) (ps : List ℕ) (io : FileIo)
    → Linked io.buffers io.log_buffer_link (c ∷ ps)
    → Distinct (c ∷ ps)
    → length (c ∷ ps) ≤ rounds
    → offset ≡ length io.log.content
    → IsExact io.log
    → IsDurable io (c ∷ ps) (process_log_buffer_batch rounds faults offset io)
unfolding process_log_buffer_batch
process_log_buffer_batch-IsDurable rounds faults offset c ps io l d h e x =
    let (m, head, eq, turned, ep) =
      take_log_buffer_link-Inverts rounds (io.flush_epoch + 1) c ps io l d (omega (arith, h)) in
    let n = length-reverse_aux (c ∷ ps) [] in
    taken-IsDurable rounds faults offset c ps (reverse_aux (c ∷ ps) []) io
      (take_log_buffer_link rounds (io.flush_epoch + 1) io) refl
      (Distinct-reverse_aux (c ∷ ps) [] d tt (nothing_apart (c ∷ ps))) (omega (arith, n, h))
      (omega (arith, n)) e x m head eq turned ep
