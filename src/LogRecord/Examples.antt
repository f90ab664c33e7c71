-- ===== src/LogRecord/Examples.antt =====
-- Records of src/persistence_layer/file_io/log_record.rs on which the theorems about them are run.
use elektro_em_eukal.Base.{ℕ, ◌≡◌, refl, some, List, [], ◌∷◌, arith}
use elektro_em_eukal.LogRecord.Parts.{drop}
use elektro_em_eukal.LogRecord.{LogRecord, parsed, panicked, from_raw_data, parts, write}
use elektro_em_eukal.LogRecord.RoundTrip.{write-from_raw_data}
use elektro_em_eukal.LogRecord.Written.{size}
use elektro_em_eukal.LogRecord.Opcodes.{HasUnknownOpcode, Parses, from_raw_data-Parses}

abbrev submitted : LogRecord
submitted = LogRecord.journal_submitted 4096 512 7

abbrev buffer : List ℕ
buffer =
    1
    ∷ (2
        ∷ (3
            ∷ (4
                ∷ (5
                    ∷ (6
                        ∷ (7
                            ∷ (8
                                ∷ (9
                                    ∷ (10
                                        ∷ (11
                                            ∷ (12
                                                ∷ (13
                                                    ∷ (14
                                                        ∷ (15
                                                            ∷ (16
                                                            ∷ (17
                                                            ∷ (18
                                                            ∷ (19
                                                            ∷ (20
                                                            ∷ (21 ∷ (22 ∷ [])))))))))))))))))))))

write-from_raw_data_example :
    ((write submitted buffer).1 ≡ some (size (parts submitted)))
    × (from_raw_data (write submitted buffer).0
        ≡ parsed submitted (drop (size (parts submitted)) buffer))
unfolding parts
write-from_raw_data_example =
    write-from_raw_data submitted buffer ((refl, omega arith), (refl, omega arith), omega arith)
      (omega arith)

-- A buffer that was discarded, and two bytes more.
abbrev discarded_buffer : List ℕ
discarded_buffer = 16 ∷ (0 ∷ (0 ∷ (0 ∷ (0 ∷ (0 ∷ (0 ∷ (0 ∷ (9 ∷ (9 ∷ [])))))))))

from_raw_data-Parses_example :
    Parses discarded_buffer (from_raw_data discarded_buffer)
    × (HasUnknownOpcode discarded_buffer → from_raw_data discarded_buffer ≡ panicked)
from_raw_data-Parses_example = from_raw_data-Parses discarded_buffer (
  omega arith,
  (
    omega arith,
    (
      omega arith,
      (
        omega arith,
        (
          omega arith,
          (omega arith, (omega arith, (omega arith, (omega arith, (omega arith, tt))))),
        ),
      ),
    ),
  ),
)
