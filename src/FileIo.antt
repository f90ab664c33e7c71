-- ===== src/FileIo.antt =====
-- src/persistence_layer/file_io/mod.rs: the log buffers of `FileIO` and its operations on the log, and
-- `AwaitIO` of src/persistence_layer.rs. A log buffer is reached by its address, which is not 0, and
-- the buffers that wait to be written are linked by their `next` fields, the last one pushed first.
-- A new buffer is put at the next address that is free.

pub mod Objects
pub mod Processor
pub mod Compression
pub mod Linked
pub mod Logged
pub mod Refines
pub mod Inverted
pub mod Batches
pub mod Durable
pub mod Written
pub mod Examples
use elektro_em_eukal.Base.{
  ℕ, zero, suc, ◌+◌, ◌-◌, ◌*◌, ◌^◌, Bool, true, false, ◌&&◌, ◌||◌, not, Option, none, some, List,
  [], ◌∷◌, ◌++◌, if◌then◌else◌, ◌==◌, ltb, leb, length, nonzero, value_or_zero, is_some, update,
}
use elektro_em_eukal.Anchors.{Error, Result, ok, err}
use elektro_em_eukal.LogRecord.{LogRecord}
use elektro_em_eukal.LogRecord
use elektro_em_eukal.LogRecord.Parts.{drop}
use elektro_em_eukal.RandomAccessFile.{RandomAccessFile, take}
use elektro_em_eukal.EvictablePage.{EvictablePage}

-- `IOTask` of src/persistence_layer/file_io/io_task_processor.rs.
pub data IoTask : Type 0 where
  flush : IoTask
  resize : ℕ → IoTask
  fill_cache : ℕ → IoTask
  write_back : ℕ → IoTask
  write_back_evicted : EvictablePage → IoTask
  recover : IoTask
  shutdown : IoTask

pub record FileLogBuffer : Type 0 where
  pub buffer : List ℕ
  pub bytes_written : ℕ
  pub submit_instant : ℕ
  pub eoj_logging : Bool
  pub durable_flush_epoch : ℕ
  pub next : ℕ

unfoldable pub zeros : ℕ → List ℕ
zeros zero = []
zeros (suc n) = 0 ∷ zeros n

-- `FileLogBuffer::default`.
unfoldable pub new_log_buffer : FileLogBuffer
unfolding zeros
new_log_buffer = record {
  buffer = zeros 32;
  bytes_written = 0;
  submit_instant = 0;
  eoj_logging = false;
  durable_flush_epoch = 0;
  next = 0;
}

pub record FileIo : Type 0 where
  pub buffers : ℕ → FileLogBuffer
  pub next_address : ℕ
  pub log_buffer_link : ℕ
  pub flush_epoch : ℕ
  pub waker_bag : List ℕ
  pub woken : List ℕ
  pub tasks : List IoTask
  pub channel_bound : ℕ
  pub log : RandomAccessFile

abbrev pub write_buffer : ℕ → FileLogBuffer → FileIo → FileIo
write_buffer b l io = record io { buffers = update io.buffers b l }

-- `Arc::default`.
unfoldable pub allocate : FileIo → ℕ × FileIo
allocate io = (
  io.next_address,
  record io {
    buffers = update io.buffers io.next_address new_log_buffer;
    next_address = io.next_address + 1;
  },
)

unfoldable pub try_send : IoTask → FileIo → FileIo × Bool
try_send task io =
    let sent = ltb (length io.tasks) io.channel_bound in
    (record io { tasks = if sent then io.tasks ++ (task ∷ []) else io.tasks }, sent)

-- From the head that the first load finds; each entry of `interference` is the head that a failed
-- compare-and-exchange finds.
unfoldable pub push_log_buffer : ℕ → ℕ → List ℕ → FileIo → FileIo
push_log_buffer b head [] io = record io {
  buffers = update io.buffers b (record (io.buffers b) { next = head });
  log_buffer_link = b;
}
push_log_buffer b head (actual ∷ interference) io =
    push_log_buffer b actual interference
      (write_buffer b (record (io.buffers b) { next = head }) io)

-- The push is one step here. That the task could not be sent is ignored.
unfoldable pub flush_buffer : ℕ → FileIo → FileIo
unfolding push_log_buffer try_send
flush_buffer b io = (try_send flush (push_log_buffer b io.log_buffer_link [] io)).0

-- `buffer_mut` and `set_buffer_position` around a write of a record: the buffer with what was
-- written, which may be a front of the record, and the number of bytes, if there was room.
unfoldable pub write_record : LogRecord → FileLogBuffer → FileLogBuffer × Option ℕ
unfolding take drop LogRecord.write
write_record r l =
    let (bytes, written) = LogRecord.write r (drop l.bytes_written l.buffer) in
    (record l { buffer = take l.bytes_written l.buffer ++ bytes }, written)

unfoldable pub unwrap_written : ℕ → FileIo → FileLogBuffer → Option ℕ → Option (ℕ × FileIo)
unwrap_written b io l none = none
unwrap_written b io l (some n) =
    some (b, write_buffer b (record l { bytes_written = l.bytes_written + n }) io)

-- The buffer is new, and `unwrap` panics if there is no room in it.
unfoldable pub write_fresh : LogRecord → ℕ → FileIo → Option (ℕ × FileIo)
unfolding write_record unwrap_written
write_fresh r b io =
    let (l, written) = write_record r (io.buffers b) in unwrap_written b io l written

unfoldable pub write_or_flush :
    LogRecord → ℕ → FileIo → FileLogBuffer → Option ℕ → Option (ℕ × FileIo)
unfolding write_fresh flush_buffer allocate
write_or_flush r b io l (some n) =
    some (b, write_buffer b (record l { bytes_written = l.bytes_written + n }) io)
write_or_flush r b io l none =
    let (b', io') = allocate (flush_buffer b (write_buffer b l io)) in write_fresh r b' io'

-- A record is written to the buffer `b`, or, if that is full, to a new one after a flush; the buffer
-- that is current afterwards.
unfoldable pub write_log : LogRecord → ℕ → FileIo → Option (ℕ × FileIo)
unfolding write_record write_or_flush
write_log r b io =
    let (l, written) = write_record r (io.buffers b) in write_or_flush r b io l written

-- The one record that ends a journal with an empty buffer or a transaction; `none` is a panic.
unfoldable pub write_only : LogRecord → ℕ → FileIo → Option FileIo
unfolding write_record flush_buffer
write_only r b io =
    let (l, written) = write_record r (io.buffers b) in
    elim written [
      | none ↦ none
      | some n ↦ some (flush_buffer b (write_buffer b (record l { bytes_written = n }) io))
    ]

-- `submit`: the end of the journal is written behind the buffer when that is written to the log.
unfoldable pub submit : ℕ → ℕ → ℕ → Option ℕ → FileIo → Option FileIo
unfolding write_only flush_buffer
submit b transaction_id journal_id none io = some (flush_buffer b io)
submit b transaction_id journal_id (some instant) io =
    let l = io.buffers b in
    if l.bytes_written == 0
    then write_only (LogRecord.journal_submitted transaction_id journal_id instant) b io
    else some (
        flush_buffer b
          (write_buffer b (record l { submit_instant = instant; eoj_logging = true }) io))

unfoldable pub discard : ℕ → ℕ → ℕ → FileIo → Option FileIo
unfolding write_only flush_buffer
discard b transaction_id journal_id io =
    let l = io.buffers b in
    if l.bytes_written == 0
    then write_only (LogRecord.journal_discarded transaction_id journal_id) b io
    else some (flush_buffer b (write_buffer b (record l { eoj_logging = true }) io))

unfoldable pub rewind : ℕ → ℕ → Option ℕ → FileIo → Option FileIo
unfolding write_only
rewind b transaction_id instant io =
    write_only (LogRecord.transaction_rolled_back transaction_id (value_or_zero instant)) b io

unfoldable pub prepare : ℕ → ℕ → ℕ → FileIo → Option FileIo
unfolding write_only
prepare b transaction_id instant io =
    write_only (LogRecord.transaction_prepared transaction_id instant) b io

unfoldable pub commit : ℕ → ℕ → ℕ → FileIo → Option FileIo
unfolding write_only
commit b transaction_id instant io =
    write_only (LogRecord.transaction_committed transaction_id instant) b io

unfoldable pub current_flush_epoch : FileIo → Option ℕ
current_flush_epoch io = nonzero io.flush_epoch

-- `get_durable_flush_epoch` of a log buffer.
unfoldable pub get_durable_flush_epoch : ℕ → FileIo → Option ℕ
get_durable_flush_epoch b io = nonzero (io.buffers b).durable_flush_epoch

abbrev push_waker : ℕ → FileIo → FileIo
push_waker waker io = record io { waker_bag = waker ∷ io.waker_bag }

-- `meanwhile` is what other threads do between the push of the waker and the second load.
unfoldable pub check_io_completion : (FileIo → FileIo) → Option ℕ → ℕ → FileIo → FileIo × Bool
check_io_completion meanwhile none waker io = (push_waker waker io, false)
check_io_completion meanwhile (some epoch) waker io =
    if leb epoch io.flush_epoch
    then (io, true)
    else let io' = meanwhile (push_waker waker io) in (io', leb epoch io'.flush_epoch)

-- `AwaitIO::poll`, by the time `now`; other threads run between its loads.
unfoldable pub poll_await_io :
    (FileIo → FileIo)
    → (FileIo → FileIo)
    → (FileIo → FileIo)
    → ℕ
    → Option ℕ
    → ℕ
    → ℕ
    → FileIo
    → FileIo × Option (Result (Unit {0}))
unfolding check_io_completion get_durable_flush_epoch
poll_await_io before within after now deadline b waker io =
    let epoch = get_durable_flush_epoch b io in
    let (io', complete) = check_io_completion within epoch waker (before io) in
    let io'' = after io' in
    if complete
    then (io', some (ok tt))
    else if elim deadline [ none ↦ false | some d ↦ ltb d now ]
    then (io', some (err Error.timeout))
    else (
      if value_or_zero epoch == value_or_zero (get_durable_flush_epoch b io'')
          then io''
          else record io'' { woken = io''.woken ++ (waker ∷ []) },
      none,
    )
