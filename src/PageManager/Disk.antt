-- ===== src/PageManager/Disk.antt =====
-- src/persistence_layer/file_io/page_manager.rs: the pages of the database file, and what a write of one
-- of them does to the others.
use elektro_em_eukal.Base.{
  ℕ, zero, suc, ◌+◌, ◌-◌, ◌%◌, ◌≤◌, ◌≡◌, ◌≢◌, refl, sym, ap, ◌∙◌, List, [], ◌∷◌, ◌++◌, arith,
  length, length-append, ◌⊎◌, inl, inr,
}
use elektro_em_eukal.LogRecord.Parts.{drop}
use elektro_em_eukal.LogRecord.Written.{length-drop, drop-drop}
use elektro_em_eukal.RandomAccessFile.{take, write_at}
use elektro_em_eukal.FileIo.Written.{take-append}
use elektro_em_eukal.EvictablePage.Links.{drop-write_at, drop-append}

-- The bytes of the page at an address.
unfoldable pub disk : ℕ → List ℕ → List ℕ
unfolding take drop
disk a content = take 512 (drop a content)

-- An address of a page that lies in the file.
abbrev pub InFile : ℕ → List ℕ → Type 0
InFile a content = (a % 512 ≡ 0) × (a + 512 ≤ length content)

pub length-write_at :
    (content : List ℕ) (offset : ℕ) (bytes : List ℕ)
    → length content ≤ length (write_at content offset bytes)
unfolding write_at
length-write_at content zero bytes =
    omega
      (arith, length-append bytes (drop (length bytes) content), length-drop (length bytes) content)
length-write_at [] (suc offset) bytes = omega arith
length-write_at (c ∷ content) (suc offset) bytes =
    omega (arith, length-write_at content offset bytes)

take-write_at :
    (content : List ℕ) (offset n : ℕ) (bytes : List ℕ)
    → n ≤ offset
    → offset ≤ length content
    → take n (write_at content offset bytes) ≡ take n content
unfolding take write_at
take-write_at content offset zero bytes h l = refl
take-write_at content zero (suc n) bytes h l = absurd (omega (arith, h))
take-write_at [] (suc offset) (suc n) bytes h l = absurd (omega (arith, l))
take-write_at (c ∷ content) (suc offset) (suc n) bytes h l =
    ap (λ x. c ∷ x) (take-write_at content offset n bytes (omega (arith, h)) (omega (arith, l)))

before-write_at :
    (content : List ℕ) (offset b n : ℕ) (bytes : List ℕ)
    → b + n ≤ offset
    → offset ≤ length content
    → take n (drop b (write_at content offset bytes)) ≡ take n (drop b content)
unfolding drop write_at
before-write_at content offset zero n bytes h l =
    take-write_at content offset n bytes (omega (arith, h)) l
before-write_at content zero (suc b) n bytes h l = absurd (omega (arith, h))
before-write_at [] (suc offset) (suc b) n bytes h l = absurd (omega (arith, l))
before-write_at (c ∷ content) (suc offset) (suc b) n bytes h l =
    before-write_at content offset b n bytes (omega (arith, h)) (omega (arith, l))

behind-write_at :
    (content : List ℕ) (offset b : ℕ) (bytes : List ℕ)
    → offset + length bytes ≤ b
    → drop b (write_at content offset bytes) ≡ drop b content
behind-write_at content offset b bytes h =
    let n = length bytes in
    let k : offset + (n + (b - (offset + n))) ≡ b = omega (arith, h) in
    let split : (xs : List ℕ) → drop b xs ≡ drop (b - (offset + n)) (drop n (drop offset xs)) =
      λ xs.
        ap (λ i. drop i xs) (sym k)
        ∙ sym (drop-drop offset (n + (b - (offset + n))) xs)
        ∙ sym (drop-drop n (b - (offset + n)) (drop offset xs)) in
    split (write_at content offset bytes)
    ∙ ap (λ l. drop (b - (offset + n)) (drop n l)) (drop-write_at offset content bytes)
    ∙ ap (drop (b - (offset + n))) (drop-append bytes (drop n (drop offset content)))
    ∙ sym (split content)

pages_apart : (a b : ℕ) → a % 512 ≡ 0 → b % 512 ≡ 0 → a ≢ b → (a + 512 ≤ b) ⊎ (b + 512 ≤ a)
pages_apart a b e e' n = omega (arith, e, e', n)

-- A page that was written is read back.
pub disk-write_at :
    (a : ℕ) (content bytes : List ℕ)
    → length bytes ≡ 512
    → disk a (write_at content a bytes) ≡ bytes
unfolding disk
disk-write_at a content bytes l =
    ap (take 512) (drop-write_at a content bytes)
    ∙ ap (λ n. take n (bytes ++ drop (length bytes) (drop a content))) (sym l)
    ∙ take-append bytes (drop (length bytes) (drop a content))

-- The other pages are not touched.
pub disk-write_at_other :
    (a b : ℕ) (content bytes : List ℕ)
    → length bytes ≡ 512
    → InFile a content
    → InFile b content
    → a ≢ b
    → disk b (write_at content a bytes) ≡ disk b content
unfolding disk
disk-write_at_other a b content bytes l (e, h) (e', h') n = elim (pages_apart a b e e' n) [
  | inl x ↦ ap (take 512) (behind-write_at content a b bytes (omega (arith, l, x)))
  | inr x ↦ before-write_at content a b 512 bytes x (omega (arith, h))
]
