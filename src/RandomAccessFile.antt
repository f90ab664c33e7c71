-- ===== src/RandomAccessFile.antt =====
-- src/persistence_layer/file_io/random_access_file.rs: a file that is read and written at any offset.
-- The file of the operating system is its bytes. An operation of the system may fail with an error
-- kind, and a write that fails may have written a front of its bytes before. One thread at a time
-- writes a file, so the compare-and-exchange that raises the length succeeds at once.

pub mod Append
pub mod Reads
use elektro_em_eukal.Base.{
  ℕ, zero, suc, ◌+◌, ◌-◌, ◌*◌, ◌/◌, Option, none, some, List, [], ◌∷◌, ◌++◌, if◌then◌else◌, ltb,
  length, max,
}
use elektro_em_eukal.Anchors.{Error, Result, ok, err}
use elektro_em_eukal.LogRecord.Parts.{drop}

-- The kind `UnexpectedEof` of an input or output error.
abbrev pub unexpected_eof : ℕ
unexpected_eof = 37

unfoldable pub take : ℕ → List ℕ → List ℕ
take zero bs = []
take (suc n) [] = []
take (suc n) (b ∷ bs) = b ∷ take n bs

pub record RandomAccessFile : Type 0 where
  pub content : List ℕ
  pub len : ℕ

-- What a positioned write leaves of the bytes of a file: a gap is filled with zeros.
unfoldable pub write_at : List ℕ → ℕ → List ℕ → List ℕ
unfolding drop
write_at content zero bytes = bytes ++ drop (length bytes) content
write_at [] (suc offset) bytes = 0 ∷ write_at [] offset bytes
write_at (b ∷ content) (suc offset) bytes = b ∷ write_at content offset bytes

-- `read_exact_at`, by an attempt that fails with the kind `fault`, if there is one.
unfoldable pub read : RandomAccessFile → ℕ → ℕ → Option ℕ → Result (List ℕ)
unfolding take drop
read file count offset (some fault) = err (Error.io fault)
read file count offset none =
    let bytes = take count (drop offset file.content) in
    if ltb (length bytes) count then err (Error.io unexpected_eof) else ok bytes

-- A failed attempt to write: how many bytes it wrote, and the error kind.
abbrev pub Fault : Type 0
Fault = ℕ × ℕ

unfoldable pub write :
    RandomAccessFile → List ℕ → ℕ → Option Fault → RandomAccessFile × Result (Unit {0})
unfolding take write_at
write file bytes offset (some (count, fault)) = (
  record file { content = write_at file.content offset (take count bytes) },
  err (Error.io fault),
)
write file bytes offset none = (
  record {
    content = write_at file.content offset bytes;
    len = max file.len (offset + length bytes);
  },
  ok tt,
)

-- A loop that writes until it succeeds, after the failed attempts `faults`.
unfoldable pub write_until : RandomAccessFile → List ℕ → ℕ → List Fault → RandomAccessFile
unfolding write
write_until file bytes offset [] = (write file bytes offset none).0
write_until file bytes offset (f ∷ faults) =
    write_until (write file bytes offset (some f)).0 bytes offset faults

unfoldable pub resize : ℕ → List ℕ → List ℕ
resize zero content = []
resize (suc n) [] = 0 ∷ resize n []
resize (suc n) (b ∷ content) = b ∷ resize n content

unfoldable pub set_len : RandomAccessFile → ℕ → Option ℕ → RandomAccessFile × Result (Unit {0})
unfolding resize
set_len file size (some fault) = (file, err (Error.io fault))
set_len file size none = (record { content = resize size file.content; len = size }, ok tt)
