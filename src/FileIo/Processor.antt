-- ===== src/FileIo/Processor.antt =====
-- src/persistence_layer/file_io/io_task_processor.rs: how the thread for file operations writes a batch
-- of log buffers. The failures of writes at an offset of the log are given by `faults`.
use elektro_em_eukal.Base.{
  ℕ, zero, suc, ◌+◌, List, [], ◌++◌, if◌then◌else◌, ◌==◌, length, Outcome, done, panicked,
  out_of_rounds,
}
use elektro_em_eukal.LogRecord
use elektro_em_eukal.LogRecord.{LogRecord}
use elektro_em_eukal.RandomAccessFile.{RandomAccessFile, Fault, take, write_until}
use elektro_em_eukal.FileIo.{FileLogBuffer, FileIo, write_buffer, zeros}

-- `take_next` of the buffer at an address: the next address is 0 if there is none.
unfoldable pub take_next : ℕ → FileIo → ℕ × FileIo
take_next b io = ((io.buffers b).next, write_buffer b (record (io.buffers b) { next = 0 }) io)

unfoldable pub set_durable_flush_epoch : ℕ → ℕ → FileIo → FileIo
set_durable_flush_epoch epoch b io =
    write_buffer b (record (io.buffers b) { durable_flush_epoch = epoch }) io

-- The loop that turns the links round, from the buffer `current` and the one `next` after it; the
-- head of the turned list.
unfoldable pub invert : ℕ → ℕ → ℕ → ℕ → FileIo → Outcome (ℕ × FileIo)
unfolding take_next set_durable_flush_epoch
invert zero epoch current next io = if next == 0 then done (current, io) else out_of_rounds
invert (suc rounds) epoch current next io =
    let (after, io') = take_next next (set_durable_flush_epoch epoch next io) in
    let rest =
      invert rounds epoch next after
        (write_buffer next (record (io'.buffers next) { next = current }) io') in
    if next == 0 then done (current, io) else rest

-- `take_log_buffer_link`: 0 if no buffer waits.
unfoldable pub take_log_buffer_link : ℕ → ℕ → FileIo → Outcome (ℕ × FileIo)
unfolding invert take_next set_durable_flush_epoch
take_log_buffer_link rounds epoch io =
    let head = io.log_buffer_link in
    let io' = record io { log_buffer_link = 0 } in
    let (next, io'') = take_next head (set_durable_flush_epoch epoch head io') in
    if head == 0 then done (0, io') else invert rounds epoch head next io''

-- What is written for a buffer: its bytes, and eight bytes for the end of its journal.
abbrev pub payload : FileLogBuffer → List ℕ
payload l = take l.bytes_written l.buffer

unfoldable pub end_of_journal : FileLogBuffer → List ℕ
unfolding LogRecord.write zeros
end_of_journal l =
    if l.eoj_logging
    then (LogRecord.write
        (if l.submit_instant == 0
          then LogRecord.buffer_discarded
          else LogRecord.buffer_submitted l.submit_instant)
        (zeros 8)).0
    else []

unfoldable pub write_end :
    (ℕ → List Fault) → FileLogBuffer → ℕ → RandomAccessFile → ℕ × RandomAccessFile
unfolding write_until
write_end faults l offset log =
    if l.eoj_logging
    then (
      offset + length (end_of_journal l),
      write_until log (end_of_journal l) offset (faults offset),
    )
    else (offset, log)

unfoldable pub write_log_buffer :
    (ℕ → List Fault) → FileLogBuffer → ℕ → RandomAccessFile → ℕ × RandomAccessFile
unfolding write_end write_until
write_log_buffer faults l offset log =
    let bytes = payload l in
    write_end faults l (offset + length bytes) (write_until log bytes offset (faults offset))

-- The loop over the buffers, from `b`; the offset behind the log afterwards.
unfoldable pub write_log_buffers : ℕ → (ℕ → List Fault) → ℕ → ℕ → FileIo → Outcome (ℕ × FileIo)
unfolding write_log_buffer take_next
write_log_buffers zero faults b offset io = out_of_rounds
write_log_buffers (suc rounds) faults b offset io =
    let (offset', log') = write_log_buffer faults (io.buffers b) offset io.log in
    let (next, io') = take_next b (record io { log = log' }) in
    let rest = write_log_buffers rounds faults next offset' io' in
    if next == 0 then done (offset', io') else rest

-- The batch is durable, and every waker in the bag is woken.
unfoldable pub finish_batch : ℕ → FileIo → FileIo
finish_batch epoch io = record io {
  flush_epoch = epoch;
  waker_bag = [];
  woken = io.woken ++ io.waker_bag;
}

unfoldable pub finish_written : ℕ → Outcome (ℕ × FileIo) → Outcome (ℕ × FileIo)
unfolding finish_batch
finish_written epoch (done (offset, io)) = done (offset, finish_batch epoch io)
finish_written epoch panicked = panicked
finish_written epoch out_of_rounds = out_of_rounds

unfoldable pub write_taken :
    ℕ → (ℕ → List Fault) → ℕ → ℕ → Outcome (ℕ × FileIo) → Outcome (ℕ × FileIo)
unfolding write_log_buffers finish_written
write_taken rounds faults epoch offset (done (b, io)) =
    if b == 0
    then done (offset, io)
    else finish_written epoch (write_log_buffers rounds faults b offset io)
write_taken rounds faults epoch offset panicked = panicked
write_taken rounds faults epoch offset out_of_rounds = out_of_rounds

-- `process_log_buffer_batch`, from the offset where the log ends.
unfoldable pub process_log_buffer_batch : ℕ → (ℕ → List Fault) → ℕ → FileIo → Outcome (ℕ × FileIo)
unfolding take_log_buffer_link write_taken
process_log_buffer_batch rounds faults offset io =
    let epoch = io.flush_epoch + 1 in
    write_taken rounds faults epoch offset (take_log_buffer_link rounds epoch io)
