-- ===== src/PageManager/Lost.antt =====
-- src/persistence_layer/file_io/page_manager.rs: the link that `create_page` sets does not mark the page as
-- dirty.
use elektro_em_eukal.Base.{
  ℕ, ◌≡◌, ap, Bool, true, false, none, some, List, ◌==◌, if◌then◌else◌, update,
}
use elektro_em_eukal.RandomAccessFile.{Fault}
use elektro_em_eukal.FileIo.Linked.{update_self}
use elektro_em_eukal.EvictablePage.{
  EvictablePage, is_dirty, prev_page_address, set_prev_page_address,
}
use elektro_em_eukal.PageManager.{PageManager, evict, put_page}
use elektro_em_eukal.PageManager.Chain.{take_free_page}
use elektro_em_eukal.PageManager.Disk.{disk}
use elektro_em_eukal.PageManager.Cached.{view, page_at}

taken_is_clean :
    (prev : ℕ) (page : EvictablePage)
    → is_dirty page ≡ false
    → is_dirty (take_free_page prev page).0 ≡ false
unfolding take_free_page set_prev_page_address is_dirty
taken_is_clean prev page d = taken (prev_page_address page == 0)
  where
    taken :
        (c : Bool)
        → (let r : EvictablePage × Bool =
              if c then (set_prev_page_address prev page, true) else (page, false) in
            is_dirty r.0)
          ≡ false
    taken true = d
    taken false = d

-- A free page that is taken and then leaves the cache, before the task that writes it back is served, is
-- in the file as it was: it has no predecessor there, and passes for free.
pub take_free_page-lost :
    (faults : List Fault) (a prev : ℕ) (page : EvictablePage) (m : PageManager)
    → is_dirty page ≡ false
    → page_at a (evict faults (some a) (put_page a (take_free_page prev page).0 m))
      ≡ disk a m.db.content
unfolding evict
take_free_page-lost faults a prev page m d =
    let taken = (take_free_page prev page).0 in
    let there = update_self m.page_cache a (some taken) in
    rw (evict, there, taken_is_clean prev page d)
      (ap (λ x. view x (disk a m.db.content))
        (update_self (update m.page_cache a (some taken)) a none))
