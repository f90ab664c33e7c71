-- ===== src/EvictablePage/Links.antt =====
-- src/persistence_layer/file_io/evictable_page.rs: the links in the header of a page.
use elektro_em_eukal.Base.{
  ℕ, zero, suc, ◌+◌, ◌*◌, ◌^◌, ◌≤◌, ◌<◌, ◌≡◌, refl, sym, ap, subst, ◌∙◌, Option, some, List, [],
  ◌∷◌, ◌++◌, length, arith,
}
use elektro_em_eukal.LogRecord.Parts.{
  read_part, bytes_of, drop, read_part-bytes_of, length-bytes_of,
}
use elektro_em_eukal.LogRecord.Written.{drop-drop, drop-empty}
use elektro_em_eukal.RandomAccessFile.{write_at}
use elektro_em_eukal.EvictablePage.{
  EvictablePage, word_at, prev_page_address, set_prev_page_address, next_page_address,
  set_next_page_address, page_content,
}

pub drop-write_at :
    (offset : ℕ) (content bytes : List ℕ)
    → drop offset (write_at content offset bytes)
      ≡ bytes ++ drop (length bytes) (drop offset content)
unfolding drop write_at
drop-write_at zero content bytes = refl
drop-write_at (suc o) [] bytes =
    drop-write_at o [] bytes ∙ ap (λ l. bytes ++ drop (length bytes) l) (drop-empty o)
drop-write_at (suc o) (c ∷ content) bytes = drop-write_at o content bytes

word_at-write_at :
    (offset v : ℕ) (content : List ℕ)
    → v < 2 ^ 64
    → word_at offset (write_at content offset (bytes_of 8 v)) ≡ v
unfolding word_at
word_at-write_at offset v content h =
    rw (word_at, drop-write_at offset content (bytes_of 8 v), read_part-bytes_of 8 v _ h) refl

-- The first bytes are not touched by a write behind them.
abbrev Same : Option (ℕ × List ℕ) → Option (ℕ × List ℕ) → Type 0
Same a b = (v : ℕ) × (r : List ℕ) × (r' : List ℕ) × (a ≡ some (v, r)) × (b ≡ some (v, r'))

read_part-write_at :
    (w : ℕ) (content bytes : List ℕ)
    → w ≤ length content
    → Same (read_part w (write_at content w bytes)) (read_part w content)
unfolding read_part write_at
read_part-write_at zero content bytes h = (0, _, content, refl, refl)
read_part-write_at (suc w) [] bytes h = absurd (omega (arith, h))
read_part-write_at (suc w) (c ∷ content) bytes h =
    let (v, r, r', e, e') = read_part-write_at w content bytes (omega (arith, h)) in
    (c + 256 * v, r, r', (rw (read_part, e) refl), (rw (read_part, e') refl))

-- The bytes behind a write are not touched.
pub drop-append : (xs ys : List ℕ) → drop (length xs) (xs ++ ys) ≡ ys
unfolding drop
drop-append [] ys = refl
drop-append (x ∷ xs) ys = drop-append xs ys

drop-bytes_of : (w v : ℕ) (l : List ℕ) → drop w (bytes_of w v ++ l) ≡ l
drop-bytes_of w v l =
    subst (λ n. drop n (bytes_of w v ++ l) ≡ l) (length-bytes_of w v) (drop-append (bytes_of w v) l)

-- The links of a page, and the bytes behind them.
abbrev pub IsLinked : ℕ → ℕ → List ℕ → EvictablePage → Type 0
IsLinked prev next rest p =
    (prev_page_address p ≡ prev) × (next_page_address p ≡ next) × (page_content p ≡ rest)

unlinked_word :
    (content bytes : List ℕ)
    → 8 ≤ length content
    → word_at 0 (write_at content 8 bytes) ≡ word_at 0 content
unfolding word_at drop
unlinked_word content bytes h =
    let (v, r, r', e, e') = read_part-write_at 8 content bytes h in rw (word_at, e, e') refl

prev-IsLinked :
    (p : EvictablePage) (v : ℕ)
    → v < 2 ^ 64
    → IsLinked v (next_page_address p) (page_content p) (set_prev_page_address v p)
unfolding prev_page_address set_prev_page_address next_page_address page_content
prev-IsLinked p v h = (word_at-write_at 0 v p.page_buffer h, refl, drop-drop 8 8 p.page_buffer)

next-IsLinked :
    (p : EvictablePage) (v : ℕ)
    → v < 2 ^ 64
    → 16 ≤ length p.page_buffer
    → IsLinked (prev_page_address p) v (page_content p) (set_next_page_address v p)
unfolding prev_page_address next_page_address set_next_page_address page_content
next-IsLinked p v h l = (
  unlinked_word p.page_buffer (bytes_of 8 v) (omega (arith, l)),
  word_at-write_at 8 v p.page_buffer h,
  sym (drop-drop 8 8 (write_at p.page_buffer 8 (bytes_of 8 v)))
      ∙ ap (drop 8) (drop-write_at 8 p.page_buffer (bytes_of 8 v))
      ∙ drop-drop 8 8 p.page_buffer,
)

-- The setters change one link each and nothing else of a page.
pub set_links :
    (p : EvictablePage) (v : ℕ)
    → v < 2 ^ 64
    → 16 ≤ length p.page_buffer
    → IsLinked v (next_page_address p) (page_content p) (set_prev_page_address v p)
      × IsLinked (prev_page_address p) v (page_content p) (set_next_page_address v p)
set_links p v h l = (prev-IsLinked p v h, next-IsLinked p v h l)
