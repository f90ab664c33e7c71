-- ===== src/PageManager/Chain.antt =====
-- src/persistence_layer/file_io/page_manager.rs: the operations of database threads on pages, and how a page
-- is taken out of a chain. `load` is what the thread for file operations does until the page that a
-- task asks for is cached; a task is sent by a call that waits for room in the channel.
use elektro_em_eukal.Base.{
  ℕ, Bool, true, false, Option, none, some, [], ◌∷◌, ◌++◌, if◌then◌else◌, ◌==◌, is_some,
}
use elektro_em_eukal.FileIo.{IoTask}
use elektro_em_eukal.EvictablePage.{
  EvictablePage, set_dirty, prev_page_address, next_page_address, set_prev_page_address,
  set_next_page_address,
}
use elektro_em_eukal.PageManager.{PageManager, put_page, add_free_page}

abbrev pub send : IoTask → PageManager → PageManager
send task m = record m { tasks = m.tasks ++ (task ∷ []) }

-- The closure of `create_page`: a page with a predecessor is not free.
unfoldable pub take_free_page : ℕ → EvictablePage → EvictablePage × Bool
unfolding prev_page_address set_prev_page_address
take_free_page prev page =
    if prev_page_address page == 0 then (set_prev_page_address prev page, true) else (page, false)

-- The closure that makes a page free.
unfoldable pub clear_links : EvictablePage → EvictablePage
unfolding set_dirty set_prev_page_address set_next_page_address
clear_links page = set_dirty (set_next_page_address 0 (set_prev_page_address 0 page))

module _ (load : ℕ → PageManager → PageManager) where
  -- The loop that waits for the page; `none` is a page that is never cached.
  unfoldable pub await_page : ℕ → PageManager → PageManager × Option EvictablePage
  await_page a m =
      let m' = if is_some (m.page_cache a) then m else load a (send (IoTask.fill_cache a) m) in
      (m', m'.page_cache a)

  unfoldable pub write_page : ℕ → (EvictablePage → EvictablePage) → PageManager → Option PageManager
  unfolding await_page
  write_page a writer m =
      let (m', found) = await_page a m in
      elim found [ none ↦ none | some page ↦ some (put_page a (writer page) m') ]

  -- A page of the chain gets a new link and is written back; the address 0 is no page.
  unfoldable pub relink : ℕ → (EvictablePage → EvictablePage) → PageManager → Option PageManager
  unfolding write_page set_dirty
  relink neighbour change m =
      let changed : Option PageManager =
        elim (write_page neighbour (λ page. set_dirty (change page)) m) [
          | none ↦ none
          | some m' ↦ some (send (IoTask.write_back neighbour) m')
        ] in
      if neighbour == 0 then some m else changed

  -- The links of the page, and what is done with them.
  unfoldable pub unlink : ℕ → ℕ → ℕ → PageManager → Option PageManager
  unfolding relink write_page clear_links add_free_page
  unlink a prev next m = elim (relink prev (set_next_page_address next) m) [
    | none ↦ none
    | some m1 ↦ elim (relink next (set_prev_page_address prev) m1) [
      | none ↦ none
      | some m2 ↦ elim (write_page a clear_links m2) [
        | none ↦ none
        | some m3 ↦ some (add_free_page a m3)
      ]
    ]
  ]

  unfoldable pub delete_page : ℕ → PageManager → Option PageManager
  unfolding await_page unlink
  delete_page a m =
      let (m', found) = await_page a m in
      elim found [
        | none ↦ none
        | some page ↦ unlink a (prev_page_address page) (next_page_address page) m'
      ]
