-- ===== src/RandomAccessFile/Append.antt =====
-- src/persistence_layer/file_io/random_access_file.rs: writes at the end of a file, and repeated
-- attempts to write.
use elektro_em_eukal.Base.{
  append-nil, ℕ, zero, suc, ◌+◌, ◌≡◌, refl, sym, ap, ◌∙◌, List, [], ◌∷◌, ◌++◌, length, max,
}
use elektro_em_eukal.LogRecord.Parts.{drop}
use elektro_em_eukal.RandomAccessFile.{RandomAccessFile, Fault, take, write_at, write, write_until}

drop-nil : (n : ℕ) → drop n [] ≡ []
unfolding drop
drop-nil zero = refl
drop-nil (suc n) = refl

-- A write at the end of the content appends to it.
pub write_at-length :
    (content bytes : List ℕ) → write_at content (length content) bytes ≡ content ++ bytes
unfolding write_at
write_at-length [] bytes = ap (λ l. bytes ++ l) (drop-nil (length bytes)) ∙ append-nil bytes
write_at-length (b ∷ content) bytes = ap (λ l. b ∷ l) (write_at-length content bytes)

-- Whatever a failed write left is written over by the whole write.
overwritten :
    (content bytes : List ℕ) (n : ℕ)
    → bytes ++ drop (length bytes) (take n bytes ++ drop (length (take n bytes)) content)
      ≡ bytes ++ drop (length bytes) content
unfolding take drop
overwritten content [] zero = refl
overwritten content [] (suc n) = refl
overwritten content (b ∷ bytes) zero = refl
overwritten [] (b ∷ bytes) (suc n) =
    ap (λ l. b ∷ l)
      (ap (λ l. bytes ++ drop (length bytes) (take n bytes ++ l))
          (sym (drop-nil (length (take n bytes))))
        ∙ overwritten [] bytes n
        ∙ ap (λ l. bytes ++ l) (drop-nil (length bytes)))
overwritten (c ∷ content) (b ∷ bytes) (suc n) = ap (λ l. b ∷ l) (overwritten content bytes n)

pub write_at-take :
    (content bytes : List ℕ) (offset n : ℕ)
    → write_at (write_at content offset (take n bytes)) offset bytes ≡ write_at content offset bytes
unfolding write_at
write_at-take content bytes zero n = overwritten content bytes n
write_at-take [] bytes (suc offset) n = ap (λ l. 0 ∷ l) (write_at-take [] bytes offset n)
write_at-take (c ∷ content) bytes (suc offset) n =
    ap (λ l. c ∷ l) (write_at-take content bytes offset n)

-- The file that a write without a failure leaves is left after any failures.
pub write_until-write :
    (file : RandomAccessFile) (bytes : List ℕ) (offset : ℕ) (faults : List Fault)
    → write_until file bytes offset faults ≡ record {
      content = write_at file.content offset bytes;
      len = max file.len (offset + length bytes);
    }
unfolding write_until write
write_until-write file bytes offset [] = refl
write_until-write file bytes offset ((n, kind) ∷ faults) =
    write_until-write _ bytes offset faults
    ∙ ap (λ c. record { content = c; len = max file.len (offset + length bytes) })
        (write_at-take file.content bytes offset n)
