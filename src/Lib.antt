-- ===== src/Lib.antt =====
-- The access control of a transactional storage framework, its log and its recovery: database
-- objects are owned by journals, journals belong to transactions, and readers look at the objects
-- through snapshots; what journals and transactions do is logged, and read back when a database is
-- opened.
--
-- The parts and their files:
-- - Base (Tests, Lists, Outcomes): Boolean tests, lists over native numbers, memory as an updatable
--   function, and what a run of a loop ends in.
-- - Anchors: src/journal.rs and src/transaction.rs, `Anchor` of journals and of transactions,
--   `AccessRequestResult`, and `Task` and `send_task` of src/task_processor.rs. The store maps an
--   address to an anchor; it is the memory that the access controller and the transactions share.
-- - Snapshot: src/snapshot.rs.
-- - Access: src/journal.rs, `grant_read_access` and `grant_write_access`, through which the access
--   controller asks an owner what a reader or a competing journal may do.
-- - AccessController: src/access_controller.rs. Object has the states of an object and its
--   awaitables; Prepare the clean-up `prepare_ownership_transfer`; Create, Exclusive, Share, Lock
--   and Delete the `try_*` functions; Requests and Transfer the service of wait queues; Table the
--   public operations and the replay of a log; Collect the garbage collection; Read the visibility
--   of an object. The other children of this module hold proofs: Shape and Sound (which objects
--   arise), Panic, Owners and Freed (who has let go of an object), LockExcludes, DeleteExcludes,
--   ShareExcludes, Waiters, Settled, Served, Attempts, Processed and Transferred (what becomes of
--   waiting requests), Collected, Progress, Termination and Completion, Visibility and Anomalies.
-- - Transaction: src/transaction.rs, with Strand, Rewind, Rollback and PostCommit for its proofs.
-- - Playback: src/transaction.rs, `Playback`, the transaction that recovery rebuilds from a log,
--   with Rewinds and Submits for its proofs.
-- - Waiting: src/journal.rs, the futures `AwaitResponse` and `AwaitEOT`, with Wakers for its
--   proofs.
-- - TaskProcessor: src/task_processor.rs, the thread that serves the channel, wakes the futures of
--   Waiting at their deadlines and hands objects over through the access controller, with Wakes,
--   Expired and Retained for its proofs.
-- - Sequencer: src/sequencer/monotonic_u64.rs, with Order, Bound and Shortfalls for its proofs. The
--   queue of the scc library is the parameter `QueueOps`, a record of its operations and what they
--   are documented to do.
-- - LogRecord (Parts): src/persistence_layer/file_io/log_record.rs, with Written, RoundTrip,
--   Consumes and Opcodes for its proofs, and Truncated for what becomes of a record that is cut off.
-- - RandomAccessFile: src/persistence_layer/file_io/random_access_file.rs, with Append and Reads
--   for its proofs.
-- - EvictablePage: src/persistence_layer/file_io/evictable_page.rs, with Links for its proofs.
-- - PageManager: src/persistence_layer/file_io/page_manager.rs, the cache of pages between the
--   database file and its users; Chain has the removal of a page from a chain. Disk, Cached,
--   Transparent, Writes and Unlinked hold its proofs, and Lost one about a link that is not marked
--   as changed.
-- - FileIo: src/persistence_layer/file_io/mod.rs, the log buffers of the transactions and `AwaitIO`
--   of src/persistence_layer.rs; Objects has `create` and `delete`, and Processor the batches of
--   src/persistence_layer/file_io/io_task_processor.rs, by which the thread for file operations
--   writes the buffers that the others have pushed. Compression, Linked, Written, Logged and
--   Refines hold the proofs about the former, Inverted, Batches and Durable those about the latter.
-- - Recovery: src/persistence_layer/file_io/recovery.rs, which reads the log through LogRecord and
--   plays it back on Playback and on the table of the access controller; Polls has `AwaitRecovery`.
--   Replayed, Windows and Replays hold its proofs, and Discards one about the journals that were
--   discarded.
-- The parts with results have a module Examples with concrete states on which the theorems are run.
--
-- How state and operations correspond: the journal anchor behind an `Owner` is its address, and
-- every `&mut` argument is an argument and a component of the result. A panic is the outcome
-- `panicked`, or `none` in the clean-up, in the file I/O layer and for a record of the log. Calls
-- of the persistence layer are recorded in the list `calls` of a transaction. A call of the model
-- is one atomic step: the loads that one call of the source makes of other journals' anchors see
-- one store. `submit_journal` takes the heads that its failed compare-and-exchanges find as a list,
-- and `read` what each of its waits ends in.
--
-- `track_round` is one round of `track` from the clock value that it has loaded, and `update_clock`
-- takes the clock values that its compare-and-exchanges find as a list. A log record is written by
-- the list of its `write_part` calls. A log buffer is reached by its address, and a new one gets
-- the next address that is free. The attempts of the thread for file operations that fail are given
-- for each offset of the log, with the bytes that a failed write leaves; the recovery is given the
-- failing reads and the flag that cancels it in the same way. A fault of a file is an error kind.
-- What other threads do while `poll_await_io` or `recover_database` runs is a function of the
-- shared state.
--
-- Bounds and fuel: instants of a transaction are below 2^32 and saturate as in the source; database
-- instants are unbounded numbers with 0 for `S::Instant::default()`. The retry loops of
-- `try_share`, `try_lock` and `try_delete` have `rounds_for` rounds, one more than the promotions
-- that an object stands on; `rewind` and `post_commit` have a round for each journal of the strand,
-- and the loop of `min` over a shard one for each of its entries. The clock and the reference
-- counts of the sequencer wrap at 2^64, and the fields of a log record have the widths of their
-- types. The loops over linked log buffers have a round for each of them, the recovery one for each
-- byte of the log and one more. Offsets of files are unbounded.
--
-- Not modelled: the search for free pages, the header of the database file, the loop over the I/O
-- tasks, the opening of files, the containers and metadata of a database (src/container.rs,
-- src/metadata.rs, src/database.rs) with their garbage collection by the task processor, and weak
-- memory orders. Assertions of debug builds in `Playback` and in the recovery are left out.
-- `backup` and `participate` of the file I/O layer are not written yet in the source.
pub mod Base
pub mod Anchors
pub mod Snapshot
pub mod Access
pub mod AccessController
pub mod Transaction
pub mod Waiting
pub mod Playback
pub mod TaskProcessor
pub mod RandomAccessFile
pub mod EvictablePage
pub mod PageManager
pub mod FileIo
pub mod Recovery
pub mod LogRecord
pub mod Sequencer
