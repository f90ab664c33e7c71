-- ===== src/PageManager/Transparent.antt =====
-- src/persistence_layer/file_io/page_manager.rs: loading, giving up and writing back pages does not change
-- what the pages are.
use elektro_em_eukal.Base.{
  ℕ, ◌+◌, ◌≤◌, ◌≡◌, refl, sym, ap, subst, ◌∙◌, Bool, true, false, Option, none, some, is_some, List,
  [], ◌∷◌, arith, length, if◌then◌else◌, Bool-cases, inl, inr, update,
}
use elektro_em_eukal.LogRecord.Parts.{drop}
use elektro_em_eukal.LogRecord.Written.{length-drop}
use elektro_em_eukal.RandomAccessFile.{RandomAccessFile, Fault, read, write_at}
use elektro_em_eukal.RandomAccessFile.Reads.{read_window}
use elektro_em_eukal.FileIo.Linked.{update_self}
use elektro_em_eukal.FileIo.Written.{length-take}
use elektro_em_eukal.EvictablePage.{EvictablePage, address, is_dirty, from_file}
use elektro_em_eukal.PageManager.{
  PageManager, write_back_until, from_file_until, write_back_evicted_sync, evict, put_page,
  wake_caching, fill_cache_sync, write_back_sync,
}
use elektro_em_eukal.PageManager.Disk.{
  disk, InFile, length-write_at, disk-write_at, disk-write_at_other,
}
use elektro_em_eukal.PageManager.Cached.{
  StandsFor, IsCoherent, view, Kept, Kept-trans, replaced-Kept, write_back_until-write,
  written_content,
}

module _ (faults : List Fault) (m : PageManager) (v : ℕ) (page : EvictablePage) (c : IsCoherent m)
    (e : m.page_cache v ≡ some page) where
  abbrev written : RandomAccessFile
  written = (write_back_until faults page m.db).1

  content : written.content ≡ write_at m.db.content v page.page_buffer
  content =
      written_content faults page m.db
      ∙ ap (λ a. write_at m.db.content a page.page_buffer) (c v page e).1

  written_disk : disk v written.content ≡ page.page_buffer
  written_disk = ap (disk v) content ∙ disk-write_at v m.db.content page.page_buffer (c v page e).2

  -- The page is written back, and its entry is replaced.
  written-Kept :
      (o : Option EvictablePage)
      → ((page' : EvictablePage) → o ≡ some page' → StandsFor written.content v page')
      → view o (disk v written.content) ≡ page.page_buffer
      → Kept m (record m { db = written; page_cache = update m.page_cache v o })
  written-Kept o h s =
      replaced-Kept m v o written c h (s ∙ sym (ap (λ x. view x (disk v m.db.content)) e))
        (subst (λ x. length m.db.content ≤ length x) (sym content)
          (length-write_at m.db.content v page.page_buffer))
        (λ b f n.
          ap (disk b) content
          ∙ disk-write_at_other v b m.db.content page.page_buffer (c v page e).2 (c v page e).0 f n)

  removed-Kept : Kept m (
      if is_dirty page
      then write_back_evicted_sync faults page
          (record m { page_cache = update m.page_cache v none })
      else record m { page_cache = update m.page_cache v none })
  unfolding write_back_evicted_sync
  removed-Kept = elim (Bool-cases (is_dirty page)) [
    | inl t ↦ rw t (written-Kept none (λ page' x. absurd_page page' x) written_disk)
    | inr f ↦ rw f (
        replaced-Kept m v none m.db c (λ page' x. absurd_page page' x)
          (sym ((c v page e).3 f) ∙ sym (ap (λ x. view x (disk v m.db.content)) e)) (omega arith)
          (λ b f' n. refl))
  ]
    where
      absurd_page : {P : Type 0} → (page' : EvictablePage) → none ≡ some page' → P
      absurd_page page' x = cc

  in_written : InFile v written.content
  in_written = (
    (c v page e).0.0,
    subst (λ x. v + 512 ≤ length x) (sym content)
        (omega (arith, (c v page e).0.1, length-write_at m.db.content v page.page_buffer)),
  )

evict-Kept :
    (faults : List Fault) (victim : Option ℕ) (m : PageManager)
    → IsCoherent m
    → Kept m (evict faults victim m)
unfolding evict
evict-Kept faults none m c = (c, omega arith, λ b f. refl)
evict-Kept faults (some v) m c = evicted (m.page_cache v) refl
  where
    evicted :
        (o : Option EvictablePage)
        → m.page_cache v ≡ o
        → Kept m (elim o [
          | none ↦ m
          | some page ↦
              let m' = record m { page_cache = update m.page_cache v none } in
              let written = write_back_evicted_sync faults page m' in
              if is_dirty page then written else m'
        ])
    evicted none e = (c, omega arith, λ b f. refl)
    evicted (some page) e = removed-Kept faults m v page c e

loaded : ℕ → List ℕ → EvictablePage
loaded a content = record { address_and_dirty_flag = a; page_buffer = disk a content }

from_file_until-loaded :
    (kinds : List ℕ) (a : ℕ) (db : RandomAccessFile)
    → InFile a db.content
    → from_file_until kinds a db ≡ some (loaded a db.content)
unfolding from_file_until from_file read loaded disk
from_file_until-loaded [] a db (e, h) =
    let whole =
      read_window db 512 a (drop a db.content) refl (omega (arith, h, length-drop a db.content)) in
    rw (from_file_until, from_file, whole) refl
from_file_until-loaded (k ∷ kinds) a db f = from_file_until-loaded kinds a db f

loaded-StandsFor :
    (a : ℕ) (content : List ℕ) → InFile a content → StandsFor content a (loaded a content)
unfolding loaded address is_dirty disk
loaded-StandsFor a content (e, h) = (
  (e, h),
  omega (arith, e),
  length-take 512 (drop a content) (omega (arith, h, length-drop a content)),
  λ d. refl,
)

removed-none : (f : ℕ → Option EvictablePage) (v a : ℕ) → f a ≡ none → update f v none a ≡ none
removed-none f v a h = ground (arith, h)

evict-none :
    (faults : List Fault) (victim : Option ℕ) (m : PageManager) (a : ℕ)
    → m.page_cache a ≡ none
    → (evict faults victim m).page_cache a ≡ none
unfolding evict write_back_evicted_sync
evict-none faults none m a h = h
evict-none faults (some v) m a h = evicted (m.page_cache v)
  where
    dirty :
        (d : Bool) (page : EvictablePage)
        → (if d
              then write_back_evicted_sync faults page
                  (record m { page_cache = update m.page_cache v none })
              else record m { page_cache = update m.page_cache v none }).page_cache
            a
          ≡ none
    dirty true page = removed-none m.page_cache v a h
    dirty false page = removed-none m.page_cache v a h

    evicted :
        (o : Option EvictablePage)
        → (elim o as (λ x. PageManager) [
          | none ↦ m
          | some page ↦
              let m' = record m { page_cache = update m.page_cache v none } in
              let written = write_back_evicted_sync faults page m' in
              if is_dirty page then written else m'
        ]).page_cache
            a
          ≡ none
    evicted none = h
    evicted (some page) = dirty (is_dirty page) page

-- A page that is not in the cache is put there as it is in the file.
put-Kept :
    (a : ℕ) (m m' : PageManager)
    → Kept m m'
    → InFile a m.db.content
    → m.page_cache a ≡ none
    → m'.page_cache a ≡ none
    → Kept m (put_page a (loaded a m.db.content) m')
unfolding loaded
put-Kept a m m' (c, l, s) f n n' =
    let here = ap (λ x. view x (disk a m.db.content)) n in
    let same : disk a m'.db.content ≡ disk a m.db.content =
      sym (ap (λ x. view x (disk a m'.db.content)) n') ∙ s a f ∙ here in
    let in_file : InFile a m'.db.content = (f.0, omega (arith, f.1, l)) in
    let stands =
      subst (StandsFor m'.db.content a)
        (ap (λ x. record { address_and_dirty_flag = a; page_buffer = x }) same)
        (loaded-StandsFor a m'.db.content in_file) in
    Kept-trans m m' (put_page a (loaded a m.db.content) m') (c, l, s)
      (replaced-Kept m' a (some (loaded a m.db.content)) m'.db c
        (λ page e. subst (StandsFor m'.db.content a) (some_injective _ page e) stands)
        (sym here ∙ sym (s a f)) (omega arith) (λ b f' x. refl))
  where
    some_injective : (p q : EvictablePage) → some p ≡ some q → p ≡ q
    some_injective p q e = cc

-- The cache is coherent still, every page is what it was, and the one that was asked for is cached.
abbrev pub Fills : ℕ → PageManager → Option PageManager → Type 0
Fills a m r = (m' : PageManager) × (r ≡ some m') × Kept m m' × (is_some (m'.page_cache a) ≡ true)

fill_cache_sync-Fills :
    (kinds : List ℕ) (faults : List Fault) (victim : Option ℕ) (a : ℕ) (m : PageManager)
    → IsCoherent m
    → InFile a m.db.content
    → Fills a m (fill_cache_sync kinds faults victim a m)
unfolding fill_cache_sync
fill_cache_sync-Fills kinds faults victim a m c f = filled (m.page_cache a) refl
  where
    filled :
        (o : Option EvictablePage)
        → m.page_cache a ≡ o
        → Fills a m (elim o [
          | some page ↦ some (wake_caching m)
          | none ↦ elim (from_file_until kinds a m.db) [
            | none ↦ none
            | some page ↦ some (wake_caching (put_page a page (evict faults victim m)))
          ]
        ])
    filled (some page) e = (wake_caching m, refl, (c, omega arith, λ b f'. refl), ap is_some e)
    filled none e = rw (from_file_until-loaded kinds a m.db f) (
      wake_caching (put_page a (loaded a m.db.content) (evict faults victim m)),
      refl,
      put-Kept a m (evict faults victim m) (evict-Kept faults victim m c) f e
          (evict-none faults victim m a e),
      ap is_some (update_self (evict faults victim m).page_cache a (some (loaded a m.db.content))),
    )

cleaned-StandsFor :
    (content : List ℕ) (v : ℕ) (page : EvictablePage)
    → InFile v content
    → address page ≡ v
    → length page.page_buffer ≡ 512
    → page.page_buffer ≡ disk v content
    → StandsFor content v (record page { address_and_dirty_flag = address page })
unfolding address
cleaned-StandsFor content v page f ad l s = (f, omega (arith, ad, f.0), l, λ d. s)

write_back_sync-Kept :
    (faults : List Fault) (a : ℕ) (m : PageManager)
    → IsCoherent m
    → Kept m (write_back_sync faults a m)
unfolding write_back_sync
write_back_sync-Kept faults a m c = written_back (m.page_cache a) refl
  where
    some_injective : (p q : EvictablePage) → some p ≡ some q → p ≡ q
    some_injective p q e = cc

    written_back :
        (o : Option EvictablePage)
        → m.page_cache a ≡ o
        → Kept m (elim o [
          | none ↦ m
          | some page ↦
              let (page', db') = write_back_until faults page m.db in
              record (put_page a page' m) { db = db' }
        ])
    written_back none e = (c, omega arith, λ b f'. refl)
    written_back (some page) e =
        let cleaned =
          ap (λ (x : EvictablePage × RandomAccessFile). x.0)
            (write_back_until-write faults page m.db) in
        written-Kept faults m a page c e (some (write_back_until faults page m.db).0)
          (λ page' x.
            subst (StandsFor (write_back_until faults page m.db).1.content a)
              (sym cleaned ∙ some_injective _ page' x)
              (cleaned-StandsFor (write_back_until faults page m.db).1.content a page
                (in_written faults m a page c e) (c a page e).1 (c a page e).2
                (sym (written_disk faults m a page c e))))
          (ap (λ (x : EvictablePage). x.page_buffer) cleaned)

-- Behind the cache every page is what it was: when the thread for file operations loads a page of the
-- file, which ends whatever reads fail at first, and gives up another entry for it, dirty or clean, and
-- when it writes a page back, whatever writes fail at first. The pages in the cache that are clean
-- stay as they are in the file.
pub page_cache-Kept :
    (kinds : List ℕ) (faults : List Fault) (victim : Option ℕ) (a : ℕ) (m : PageManager)
    → IsCoherent m
    → InFile a m.db.content
    → Fills a m (fill_cache_sync kinds faults victim a m) × Kept m (write_back_sync faults a m)
page_cache-Kept kinds faults victim a m c f =
    (fill_cache_sync-Fills kinds faults victim a m c f, write_back_sync-Kept faults a m c)
