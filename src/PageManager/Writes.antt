-- ===== src/PageManager/Writes.antt =====
-- src/persistence_layer/file_io/page_manager.rs: changes of one page in the cache, and what the closures of
-- `delete_page` do to the bytes of a page.
use elektro_em_eukal.Base.{
  ℕ, zero, suc, ◌+◌, ◌-◌, ◌%◌, ◌≤◌, ◌≡◌, refl, sym, ap, subst, ◌∙◌, true, false, not, Option, some,
  List, [], ◌∷◌, arith, length, length-append, if◌then◌else◌, ◌==◌, Bool-cases, inl, inr, update,
}
use elektro_em_eukal.LogRecord.Parts.{drop, bytes_of, length-bytes_of}
use elektro_em_eukal.LogRecord.Written.{length-drop}
use elektro_em_eukal.RandomAccessFile.{write_at}
use elektro_em_eukal.FileIo.Linked.{update_self, update_other}
use elektro_em_eukal.EvictablePage.{
  EvictablePage, address, is_dirty, set_dirty, set_prev_page_address, set_next_page_address,
}
use elektro_em_eukal.PageManager.{PageManager, put_page}
use elektro_em_eukal.PageManager.Chain.{clear_links}
use elektro_em_eukal.PageManager.Disk.{disk, InFile}
use elektro_em_eukal.PageManager.Cached.{StandsFor, IsCoherent, view, page_at, different}

-- The page at `a` is changed by `f`, and no other one.
abbrev pub Changes : ℕ → (List ℕ → List ℕ) → PageManager → PageManager → Type 0
Changes a f m m' =
    IsCoherent m'
    × (length m.db.content ≤ length m'.db.content)
    × ((b : ℕ)
        → InFile b m.db.content
        → page_at b m' ≡ (if b == a then f (page_at b m) else page_at b m))

-- A writer that does `f` to the bytes of a page and marks it as dirty.
abbrev pub Writes : (EvictablePage → EvictablePage) → (List ℕ → List ℕ) → Type 0
Writes writer f =
    (page : EvictablePage)
    → (address (writer page) ≡ address page)
      × (is_dirty (writer page) ≡ true)
      × ((writer page).page_buffer ≡ f page.page_buffer)
      × (length page.page_buffer ≡ 512 → length (writer page).page_buffer ≡ 512)

pub put-Changes :
    (m : PageManager) (a : ℕ) (page : EvictablePage) (writer : EvictablePage → EvictablePage)
    (f : List ℕ → List ℕ)
    → IsCoherent m
    → m.page_cache a ≡ some page
    → Writes writer f
    → Changes a f m (put_page a (writer page) m)
put-Changes m a page writer f c e w =
    let (ad, d, s, n) = w page in
    (
      λ b page' e'. elim (Bool-cases (b == a)) [
        | inl t ↦
            let same : b ≡ a = ground (arith, t) in
            let found : some (writer page) ≡ some page' =
              sym (update_self m.page_cache a (some (writer page)))
              ∙ ap (update m.page_cache a (some (writer page))) (sym same)
              ∙ e' in
            let stands : StandsFor m.db.content a (writer page) =
              ((c a page e).0, ad ∙ (c a page e).1, n (c a page e).2, λ x. cc) in
            subst (λ x. StandsFor m.db.content x page') (sym same)
              (subst (StandsFor m.db.content a) (some_injective (writer page) page' found) stands)
        | inr g ↦
            c b page'
              (sym (update_other m.page_cache a (some (writer page)) b (different b a g)) ∙ e')
      ],
      omega arith,
      λ b i. elim (Bool-cases (b == a)) [
        | inl t ↦
            let same : b ≡ a = ground (arith, t) in
            rw t (
              subst
                (λ x.
                  view (update m.page_cache a (some (writer page)) x) (disk x m.db.content)
                  ≡ f (page_at x m))
                (sym same)
                (ap (λ x. view x (disk a m.db.content)) (update_self m.page_cache a _)
                  ∙ s
                  ∙ ap f (sym (ap (λ x. view x (disk a m.db.content)) e))))
        | inr g ↦ rw g (
            ap (λ x. view x (disk b m.db.content))
              (update_other m.page_cache a (some (writer page)) b (different b a g)))
      ],
    )
  where
    some_injective : (p q : EvictablePage) → some p ≡ some q → p ≡ q
    some_injective p q e = cc

abbrev pub Wrote : ℕ → (List ℕ → List ℕ) → PageManager → Option PageManager → Type 0
Wrote a f m r = (m' : PageManager) × (r ≡ some m') × Changes a f m m'

length-write_within :
    (content : List ℕ) (offset : ℕ) (bytes : List ℕ)
    → offset + length bytes ≤ length content
    → length (write_at content offset bytes) ≡ length content
unfolding write_at
length-write_within content zero bytes h = omega (
  arith,
  length-append bytes (drop (length bytes) content),
  length-drop (length bytes) content,
  h,
)
length-write_within [] (suc offset) bytes h = absurd (omega (arith, h))
length-write_within (x ∷ content) (suc offset) bytes h =
    omega (arith, length-write_within content offset bytes (omega (arith, h)))

-- The bytes of a page with another predecessor, with another successor, and with neither.
abbrev pub with_prev : ℕ → List ℕ → List ℕ
with_prev prev bytes = write_at bytes 0 (bytes_of 8 prev)

abbrev pub with_next : ℕ → List ℕ → List ℕ
with_next next bytes = write_at bytes 8 (bytes_of 8 next)

abbrev pub without_links : List ℕ → List ℕ
without_links bytes = with_next 0 (with_prev 0 bytes)

length-with_prev : (v : ℕ) (bytes : List ℕ) → length bytes ≡ 512 → length (with_prev v bytes) ≡ 512
length-with_prev v bytes h =
    let n = length-bytes_of 8 v in
    length-write_within bytes 0 (bytes_of 8 v) (omega (arith, n, h)) ∙ h

length-with_next : (v : ℕ) (bytes : List ℕ) → length bytes ≡ 512 → length (with_next v bytes) ≡ 512
length-with_next v bytes h =
    let n = length-bytes_of 8 v in
    length-write_within bytes 8 (bytes_of 8 v) (omega (arith, n, h)) ∙ h

-- A page that is marked as dirty keeps its address.
dirty_address :
    (page : EvictablePage)
    → (address (set_dirty page) ≡ address page) × (is_dirty (set_dirty page) ≡ true)
unfolding address set_dirty is_dirty
dirty_address page =
    let x = page.address_and_dirty_flag in
    let odd : ((x - x % 2 + 1) % 2 == 0) ≡ false = ground arith in (omega arith, ap not odd)

pub prev-Writes : (v : ℕ) → Writes (λ page. set_dirty (set_prev_page_address v page)) (with_prev v)
unfolding set_dirty set_prev_page_address address
prev-Writes v page =
    let (e, d) = dirty_address (set_prev_page_address v page) in
    (e, d, refl, length-with_prev v page.page_buffer)

pub next-Writes : (v : ℕ) → Writes (λ page. set_dirty (set_next_page_address v page)) (with_next v)
unfolding set_dirty set_next_page_address address
next-Writes v page =
    let (e, d) = dirty_address (set_next_page_address v page) in
    (e, d, refl, length-with_next v page.page_buffer)

pub clear-Writes : Writes clear_links without_links
unfolding clear_links set_dirty set_prev_page_address set_next_page_address address
clear-Writes page =
    let (e, d) = dirty_address (set_next_page_address 0 (set_prev_page_address 0 page)) in
    (
      e,
      d,
      refl,
      λ h.
          length-with_next 0 (with_prev 0 page.page_buffer) (length-with_prev 0 page.page_buffer h),
    )
