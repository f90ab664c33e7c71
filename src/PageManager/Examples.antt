-- ===== src/PageManager/Examples.antt =====
-- A cache of src/persistence_layer/file_io/page_manager.rs on which the theorem about it is run.
use elektro_em_eukal.LogRecord.Parts.{bytes_of}
use elektro_em_eukal.EvictablePage.{EvictablePage, address, is_dirty, word_at}
use elektro_em_eukal.PageManager.Chain.{delete_page}
use elektro_em_eukal.PageManager.Disk.{disk}
use elektro_em_eukal.PageManager.Unlinked.{IsLoader, Unlinks, delete_page-Unlinks}
use elektro_em_eukal.Base.{
  ℕ, ◌≡◌, ◌++◌, ap, sym, subst, is_some, true, refl, none, some, [], ◌∷◌, arith, update, Bool-cases,
  inl, inr, ◌∙◌, ◌==◌,
}
use elektro_em_eukal.FileIo.{zeros}
use elektro_em_eukal.FileIo.Linked.{update_self}
use elektro_em_eukal.PageManager.{PageManager, fill_cache_sync, write_back_sync}
use elektro_em_eukal.PageManager.Cached.{StandsFor, IsCoherent, Kept}
use elektro_em_eukal.PageManager.Transparent.{Fills, page_cache-Kept}

-- Four pages, none of them in the cache.
abbrev empty_cache : PageManager
unfolding zeros
empty_cache = record {
  db = record { content = zeros 2048; len = 2048 };
  page_cache = λ a. none;
  free_pages = [];
  waker_bag_for_free_page = [];
  waker_bag_for_caching_page = 3 ∷ [];
  woken = [];
  tasks = [];
}

empty_cache-IsCoherent : IsCoherent empty_cache
unfolding empty_cache
empty_cache-IsCoherent a page e = cc

abbrev dirty_page : EvictablePage
unfolding zeros bytes_of
dirty_page = record { address_and_dirty_flag = 1025; page_buffer = bytes_of 8 77 ++ zeros 504 }

-- The page at 1024 is in the cache and was changed there.
abbrev one_dirty : PageManager
unfolding empty_cache dirty_page
one_dirty = record empty_cache { page_cache = update (λ a. none) 1024 (some dirty_page) }

some_injective : (x y : EvictablePage) → some x ≡ some y → x ≡ y
some_injective x y e = cc

dirty_page-StandsFor : StandsFor one_dirty.db.content 1024 dirty_page
unfolding one_dirty dirty_page empty_cache zeros bytes_of address is_dirty
dirty_page-StandsFor = ((refl, omega arith), refl, refl, λ e. cc)

one_dirty-IsCoherent : IsCoherent one_dirty
unfolding one_dirty
one_dirty-IsCoherent a page e = elim (Bool-cases (a == 1024)) [
  | inl t ↦
      let here : a ≡ 1024 = ground (arith, t) in
      let same : some dirty_page ≡ some page =
        sym (update_self (λ x. none) 1024 (some dirty_page))
        ∙ subst (λ x. one_dirty.page_cache x ≡ some page) here e in
      subst (λ x. StandsFor one_dirty.db.content x page) (sym here)
        (subst (StandsFor one_dirty.db.content 1024) (some_injective dirty_page page same)
          dirty_page-StandsFor)
  | inr f ↦ absurd (ground (arith, e, f))
]

-- The page at 512 is read twice, since the first read fails, and the changed page gives way to it, once
-- it has been written, which fails at first.
page_cache-Kept_example :
    Fills 512 one_dirty (fill_cache_sync (5 ∷ []) ((7, 28) ∷ []) (some 1024) 512 one_dirty)
    × Kept one_dirty (write_back_sync ((7, 28) ∷ []) 512 one_dirty)
unfolding one_dirty empty_cache zeros
page_cache-Kept_example =
    page_cache-Kept (5 ∷ []) ((7, 28) ∷ []) (some 1024) 512 one_dirty one_dirty-IsCoherent
      (refl, omega arith)

-- The loader of one thread: it fills the cache and gives up nothing.
abbrev fill : ℕ → PageManager → PageManager
fill a m = elim (fill_cache_sync [] [] none a m) [ none ↦ m | some m' ↦ m' ]

fill-IsLoader : IsLoader fill
fill-IsLoader a m c f =
    let (m', e, k, t) = (page_cache-Kept [] [] none a m c f).0 in
    let filled : m' ≡ fill a m = sym (ap (λ o. elim o [ none ↦ m | some x ↦ x ]) e) in
    subst (λ x. Kept m x × (is_some (x.page_cache a) ≡ true)) filled (k, t)

-- The page at 1024 follows the one at 512, and is the last one.
abbrev chain : PageManager
unfolding zeros bytes_of
chain = record empty_cache {
  db = record {
    content =
        zeros 512
        ++ (bytes_of 8 0 ++ (bytes_of 8 1024 ++ (zeros 496 ++ (bytes_of 8 512 ++ zeros 504))));
    len = 1536;
  };
}

chain-IsCoherent : IsCoherent chain
unfolding empty_cache chain
chain-IsCoherent a page e = cc

delete_page-Unlinks_example :
    Unlinks fill fill-IsLoader 1024 512 0 chain (delete_page fill 1024 chain)
unfolding empty_cache chain zeros bytes_of word_at disk
delete_page-Unlinks_example =
    delete_page-Unlinks fill fill-IsLoader 1024 chain chain-IsCoherent (refl, omega arith)
      (λ h. (refl, omega arith)) (λ h. (refl, omega arith))
