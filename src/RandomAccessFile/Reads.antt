-- ===== src/RandomAccessFile/Reads.antt =====
-- src/persistence_layer/file_io/random_access_file.rs: reads that lie in the file, and reads that do not.
use elektro_em_eukal.Base.{
  ℕ, zero, suc, ◌≤◌, ◌<◌, ◌≡◌, refl, true, false, none, List, [], ◌∷◌, ltb, length, arith,
}
use elektro_em_eukal.Anchors.{Error, ok, err}
use elektro_em_eukal.LogRecord.Parts.{drop}
use elektro_em_eukal.RandomAccessFile.{RandomAccessFile, take, read, unexpected_eof}
use elektro_em_eukal.FileIo.Written.{length-take}

module _ (log : RandomAccessFile) where
  pub read_window :
      (n offset : ℕ) (rest : List ℕ)
      → drop offset log.content ≡ rest
      → n ≤ length rest
      → read log n offset none ≡ ok (take n rest)
  unfolding read
  read_window n offset rest e h =
      let enough : ltb (length (take n rest)) n ≡ false = ground (arith, length-take n rest h) in
      rw (e, enough) refl

  pub read_short :
      (n offset : ℕ) (rest : List ℕ)
      → drop offset log.content ≡ rest
      → length rest < n
      → read log n offset none ≡ err (Error.io unexpected_eof)
  unfolding read
  read_short n offset rest e h =
      let few : ltb (length (take n rest)) n ≡ true = ground (arith, length-take_few n rest, h) in
      rw (e, few) refl
    where
      length-take_few : (n : ℕ) (xs : List ℕ) → length (take n xs) ≤ length xs
      length-take_few zero xs = omega arith
      length-take_few (suc n) [] = omega arith
      length-take_few (suc n) (x ∷ xs) = omega (arith, length-take_few n xs)
