-- ===== src/FileIo/Examples.antt =====
-- Log buffers of src/persistence_layer/file_io/mod.rs on which the theorems about them are run.
use elektro_em_eukal.Base.{ℕ, true, List, [], ◌∷◌, arith, refl, update}
use elektro_em_eukal.FileIo.{FileLogBuffer, FileIo, new_log_buffer}
use elektro_em_eukal.FileIo.Objects.{create, delete}
use elektro_em_eukal.FileIo.Processor.{process_log_buffer_batch}
use elektro_em_eukal.FileIo.Compression.{IsCreated, IsDeleted}
use elektro_em_eukal.FileIo.Linked.{IsLogging}
use elektro_em_eukal.FileIo.Written.{new-IsBuffer}
use elektro_em_eukal.FileIo.Refines.{LogsObjects, log-Refines}
use elektro_em_eukal.FileIo.Durable.{IsDurable, process_log_buffer_batch-IsDurable}

-- The buffer at 1 is in use and empty.
abbrev quiet : FileIo
quiet = record {
  buffers = λ p. new_log_buffer;
  next_address = 2;
  log_buffer_link = 0;
  flush_epoch = 4;
  waker_bag = 8 ∷ [];
  woken = [];
  tasks = [];
  channel_bound = 2;
  log = record { content = 5 ∷ []; len = 1 };
}

quiet-IsLogging : IsLogging quiet [] 1
unfolding new_log_buffer
quiet-IsLogging = record {
  linked = refl;
  distinct = tt;
  apart = tt;
  used = tt;
  in_use = (omega arith, omega arith);
  valid = new-IsBuffer;
  unended = refl;
}

-- Three identifiers in a row, two others, and the first one again.
abbrev some_objects : List ℕ
some_objects = 5 ∷ (6 ∷ (7 ∷ (20 ∷ (3 ∷ (5 ∷ [])))))

log-Refines_example :
    LogsObjects (IsCreated 4096 512) some_objects quiet [] 1 (create 1 4096 512 some_objects quiet)
    × LogsObjects
        (IsDeleted 4096 512)
        some_objects
        quiet
        []
        1
        (delete 1 4096 512 some_objects quiet)
log-Refines_example =
    log-Refines 4096 512 some_objects quiet [] 1
      (omega arith, (omega arith, (omega arith, (omega arith, (omega arith, (omega arith, tt))))))
      quiet-IsLogging

abbrev filled : ℕ → ℕ → FileLogBuffer
filled b next = record {
  buffer = b ∷ (2 ∷ (3 ∷ []));
  bytes_written = 2;
  submit_instant = 0;
  eoj_logging = true;
  durable_flush_epoch = 0;
  next = next;
}

-- The buffer at 2 was pushed first, then the one at 3.
abbrev busy : FileIo
busy = record quiet {
  buffers = update (update (λ p. new_log_buffer) 2 (filled 6 0)) 3 (filled 7 2);
  next_address = 4;
  log_buffer_link = 3;
}

-- The first attempt to write at the offset 1 fails behind one byte.
process_log_buffer_batch-IsDurable_example :
    IsDurable busy
      (3 ∷ (2 ∷ []))
      (process_log_buffer_batch 2 (update (λ offset. []) 1 ((1, 28) ∷ [])) 1 busy)
process_log_buffer_batch-IsDurable_example =
    process_log_buffer_batch-IsDurable 2 (update (λ offset. []) 1 ((1, 28) ∷ [])) 1 3 (2 ∷ []) busy
      (refl, omega arith, (refl, omega arith, refl)) (((λ e. omega (arith, e)), tt), (tt, tt))
      (omega arith) refl refl
