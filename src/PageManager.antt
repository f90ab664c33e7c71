-- ===== src/PageManager.antt =====
-- src/persistence_layer/file_io/page_manager.rs: the pages of the database file that are cached, as the
-- thread for file operations loads them and writes them back, and the bag of free pages. The cache of
-- the scc library is a map; which entry it gives up for a new one is an argument.

pub mod Chain
pub mod Disk
pub mod Cached
pub mod Transparent
pub mod Writes
pub mod Unlinked
pub mod Lost
pub mod Examples
use elektro_em_eukal.Base.{
  ℕ, zero, suc, ◌+◌, ◌-◌, ◌*◌, ◌/◌, Bool, true, false, Option, none, some, List, [], ◌∷◌, ◌++◌,
  if◌then◌else◌, is_empty, is_some, update,
}
use elektro_em_eukal.Anchors.{Result, ok, err}
use elektro_em_eukal.RandomAccessFile.{RandomAccessFile, Fault, set_len}
use elektro_em_eukal.FileIo.{IoTask}
use elektro_em_eukal.EvictablePage.{EvictablePage, page_size, from_file, is_dirty, write_back}

pub record PageManager : Type 0 where
  pub db : RandomAccessFile
  pub page_cache : ℕ → Option EvictablePage
  pub free_pages : List ℕ
  pub waker_bag_for_free_page : List ℕ
  pub waker_bag_for_caching_page : List ℕ
  pub woken : List ℕ
  pub tasks : List IoTask

-- `write_back` until it succeeds, behind the attempts that fail.
unfoldable pub write_back_until :
    List Fault → EvictablePage → RandomAccessFile → EvictablePage × RandomAccessFile
unfolding write_back
write_back_until [] page db = let (page', db', r) = write_back page db none in (page', db')
write_back_until (f ∷ faults) page db =
    let (page', db', r) = write_back page db (some f) in write_back_until faults page' db'

-- `from_file` until it succeeds, behind the attempts that fail with the given error kinds; none if it
-- never does, since the page is not in the file.
unfoldable pub from_file_until : List ℕ → ℕ → RandomAccessFile → Option EvictablePage
unfolding from_file
from_file_until [] page_address db = elim (from_file db page_address none) [
  | err e ↦ none
  | ok page ↦ some page
]
from_file_until (kind ∷ kinds) page_address db = elim (from_file db page_address (some kind)) [
  | err e ↦ from_file_until kinds page_address db
  | ok page ↦ some page
]

unfoldable pub write_back_evicted_sync : List Fault → EvictablePage → PageManager → PageManager
unfolding write_back_until
write_back_evicted_sync faults page m = record m { db = (write_back_until faults page m.db).1 }

-- The entry that is given up leaves the cache, and is written back if it is dirty.
unfoldable pub evict : List Fault → Option ℕ → PageManager → PageManager
unfolding write_back_evicted_sync is_dirty
evict faults none m = m
evict faults (some victim) m = elim (m.page_cache victim) [
  | none ↦ m
  | some page ↦
      let m' = record m { page_cache = update m.page_cache victim none } in
      let written = write_back_evicted_sync faults page m' in if is_dirty page then written else m'
]

abbrev pub wake_caching : PageManager → PageManager
wake_caching m = record m {
  waker_bag_for_caching_page = [];
  woken = m.woken ++ m.waker_bag_for_caching_page;
}

abbrev pub put_page : ℕ → EvictablePage → PageManager → PageManager
put_page a page m = record m { page_cache = update m.page_cache a (some page) }

-- `none` is a loop that does not end. The page is read before an entry is given up.
unfoldable pub fill_cache_sync :
    List ℕ → List Fault → Option ℕ → ℕ → PageManager → Option PageManager
unfolding from_file_until evict
fill_cache_sync kinds faults victim page_address m = elim (m.page_cache page_address) [
  | some page ↦ some (wake_caching m)
  | none ↦ elim (from_file_until kinds page_address m.db) [
    | none ↦ none
    | some page ↦ some (wake_caching (put_page page_address page (evict faults victim m)))
  ]
]

-- The page stays in the cache and is clean.
unfoldable pub write_back_sync : List Fault → ℕ → PageManager → PageManager
unfolding write_back_until
write_back_sync faults page_address m = elim (m.page_cache page_address) [
  | none ↦ m
  | some page ↦
      let (page', db') = write_back_until faults page m.db in
      record (put_page page_address page' m) { db = db' }
]

unfoldable pub add_free_page : ℕ → PageManager → PageManager
add_free_page page_address m = record m {
  free_pages = page_address ∷ m.free_pages;
  waker_bag_for_free_page = [];
  woken = m.woken ++ m.waker_bag_for_free_page;
}

-- The pages from the index `i` on.
unfoldable pub add_free_pages : ℕ → ℕ → PageManager → PageManager
unfolding add_free_page
add_free_pages i zero m = m
add_free_pages i (suc n) m = add_free_pages (i + 1) n (add_free_page (i * page_size) m)

-- `set_len` is repeated until it succeeds; a failed attempt changes nothing.
unfoldable pub resize_sync : ℕ → PageManager → PageManager
unfolding set_len add_free_pages
resize_sync new_size m =
    let old_size = m.db.len in
    add_free_pages (old_size / page_size) (new_size / page_size - old_size / page_size)
      (record m { db = (set_len m.db new_size none).0 })

-- `AwaitFreePage::poll`; other threads run between its loads.
unfoldable pub poll_free_page : (PageManager → PageManager) → ℕ → PageManager → PageManager × Bool
poll_free_page meanwhile waker m =
    let m' = meanwhile (record m { waker_bag_for_free_page = waker ∷ m.waker_bag_for_free_page }) in
    if is_empty m.free_pages
    then (m', if is_empty m'.free_pages then false else true)
    else (m, true)

-- `AwaitCachedPage::poll`.
unfoldable pub poll_cached_page :
    (PageManager → PageManager) → ℕ → ℕ → PageManager → PageManager × Bool
poll_cached_page meanwhile page_address waker m =
    let m' =
      meanwhile (record m { waker_bag_for_caching_page = waker ∷ m.waker_bag_for_caching_page }) in
    if is_some (m.page_cache page_address)
    then (m, true)
    else (m', is_some (m'.page_cache page_address))
