-- ===== src/AccessController.antt =====
-- src/access_controller.rs: who may create, protect, lock, delete and read a database object.
-- `Object` holds the states of an object, `Prepare` the clean-up before every access, `Create`,
-- `Share`, `Lock` and `Delete` the four kinds of access, `Requests` the wait queues, `Table` the
-- public operations, and `Read` what a snapshot sees.
pub mod Object
pub mod Prepare
pub mod Create
pub mod Exclusive
pub mod Share
pub mod Lock
pub mod Delete
pub mod Requests
pub mod Table
pub mod Transfer
pub mod Collect
pub mod Collected
pub mod CollectExamples
pub mod Read
pub mod Shape
pub mod Sound
pub mod Panic
pub mod Waiters
pub mod Settled
pub mod Served
pub mod Attempts
pub mod Processed
pub mod Transferred
pub mod Progress
pub mod Termination
pub mod Completion
pub mod Owners
pub mod Freed
pub mod LockExcludes
pub mod DeleteExcludes
pub mod ShareExcludes
pub mod Visibility
pub mod Anomalies
pub mod Examples
