-- ===== src/LogRecord/Parts.antt =====
-- src/persistence_layer/file_io/log_record.rs: `read_part` and `write_part`, and the bits of the
-- words that they read and write.
use elektro_em_eukal.Base.{
  ℕ, zero, suc, ◌+◌, ◌*◌, ◌/◌, ◌%◌, ◌^◌, ◌<◌, ◌≡◌, refl, sym, ◌∙◌, ap, subst, Option, none, some,
  List, [], ◌∷◌, ◌++◌, if◌then◌else◌, ltb, length, arith, max,
}

-- `a | b` on the lowest bits.
unfoldable pub bit_or : ℕ → ℕ → ℕ → ℕ
bit_or zero a b = 0
bit_or (suc bits) a b = max (a % 2) (b % 2) + 2 * bit_or bits (a / 2) (b / 2)

-- `read_part` of a type of `width` bytes: the value and the rest.
unfoldable pub read_part : ℕ → List ℕ → Option (ℕ × List ℕ)
read_part zero value = some (0, value)
read_part (suc width) [] = none
read_part (suc width) (b ∷ value) = elim (read_part width value) [
  | none ↦ none
  | some (v, rest) ↦ some (b + 256 * v, rest)
]

unfoldable pub bytes_of : ℕ → ℕ → List ℕ
bytes_of zero v = []
bytes_of (suc width) v = (v % 256) ∷ bytes_of width (v / 256)

unfoldable pub drop : ℕ → List ℕ → List ℕ
drop zero bs = bs
drop (suc n) [] = []
drop (suc n) (b ∷ bs) = drop n bs

-- `write_part`: the bytes written and the rest of the buffer.
unfoldable pub write_part : ℕ → ℕ → List ℕ → Option (List ℕ × List ℕ)
unfolding bytes_of drop
write_part width v buffer =
    if ltb (length buffer) width then none else some (bytes_of width v, drop width buffer)

-- Writes one after the other, to the first that fails.
unfoldable pub write_parts : List (ℕ × ℕ) → List ℕ → List ℕ × Option ℕ
unfolding write_part
write_parts [] buffer = (buffer, some 0)
write_parts ((width, v) ∷ ps) buffer = elim (write_part width v buffer) [
  | none ↦ (buffer, none)
  | some (bytes, rest) ↦
      let (rest', n) = write_parts ps rest in
      (bytes ++ rest', elim n [ none ↦ none | some m ↦ some (width + m) ])
]

-- `c` with `k` clear bits below it.
abbrev pub scaled : ℕ → ℕ → ℕ
scaled zero c = c
scaled (suc k) c = 2 * scaled k c

-- The width `k` bits above `bits`.
abbrev pub widened : ℕ → ℕ → ℕ
widened zero bits = bits
widened (suc k) bits = suc (widened k bits)

bit_or_zero : (bits a : ℕ) → a < 2 ^ bits → bit_or bits a 0 ≡ a
unfolding bit_or
bit_or_zero zero a h = omega arith
bit_or_zero (suc bits) a h = omega (arith, bit_or_zero bits (a / 2) (omega arith))

half_double : (a : ℕ) → (2 * a) / 2 ≡ a
half_double a = omega arith

-- An or fills the bits that are clear.
pub bit_or-scaled :
    (k bits c b : ℕ)
    → b < 2 ^ k
    → c < 2 ^ bits
    → bit_or (widened k bits) (scaled k c) b ≡ scaled k c + b
unfolding bit_or
bit_or-scaled zero bits c b h l =
    let e : b ≡ 0 = omega arith in
    subst (λ x. bit_or bits c x ≡ c + x) (sym e) (bit_or_zero bits c l ∙ omega arith)
bit_or-scaled (suc k) bits c b h l =
    rw (half_double (scaled k c)) (omega (arith, bit_or-scaled k bits c (b / 2) (omega arith) l))

-- A number fits into `width` bytes.
abbrev pub IsFitting : ℕ → ℕ → Type 0
IsFitting width v = v < 256 ^ width

-- What `write_part` writes, `read_part` reads.
pub read_part-bytes_of :
    (width v : ℕ) (rest : List ℕ)
    → IsFitting width v
    → read_part width (bytes_of width v ++ rest) ≡ some (v, rest)
unfolding read_part bytes_of
read_part-bytes_of zero v rest h = ap (λ x. some (x, rest)) (omega arith)
read_part-bytes_of (suc width) v rest h =
    rw (read_part-bytes_of width (v / 256) rest (omega arith))
      (ap (λ x. some (x, rest)) (omega arith))

pub length-bytes_of : (width v : ℕ) → length (bytes_of width v) ≡ width
unfolding bytes_of
length-bytes_of zero v = refl
length-bytes_of (suc width) v = omega (arith, length-bytes_of width (v / 256))
