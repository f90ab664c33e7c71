-- ===== src/PageManager/Unlinked.antt =====
-- src/persistence_layer/file_io/page_manager.rs: `delete_page` on the pages themselves, wherever they are.
use elektro_em_eukal.Base.{
  ℕ, ◌≤◌, ◌≡◌, ◌≢◌, refl, sym, ap, subst, ◌∙◌, true, Option, none, some, is_some, List, arith,
  length, if◌then◌else◌, ◌==◌, Bool-cases, inl, inr, contains,
}
use elektro_em_eukal.FileIo.{IoTask}
use elektro_em_eukal.EvictablePage.{
  EvictablePage, set_dirty, word_at, prev_page_address, next_page_address, set_prev_page_address,
  set_next_page_address,
}
use elektro_em_eukal.PageManager.{PageManager, put_page, add_free_page}
use elektro_em_eukal.PageManager.Chain.{
  send, await_page, write_page, relink, clear_links, unlink, delete_page,
}
use elektro_em_eukal.PageManager.Disk.{disk, InFile}
use elektro_em_eukal.PageManager.Cached.{IsCoherent, view, page_at, Kept, different}
use elektro_em_eukal.PageManager.Writes.{
  Writes, Wrote, put-Changes, with_prev, with_next, without_links, prev-Writes, next-Writes,
  clear-Writes,
}

-- What the thread for file operations promises to one who waits for a page.
abbrev pub IsLoader : (ℕ → PageManager → PageManager) → Type 0
IsLoader load =
    (a : ℕ)
    → (m : PageManager) → IsCoherent m
    → InFile a m.db.content
    → Kept m (load a m) × (is_some ((load a m).page_cache a) ≡ true)

module _ (load : ℕ → PageManager → PageManager) (lawful : IsLoader load) where
  -- The page is there in the end, and nothing has changed.
  Awaited : ℕ → PageManager → PageManager × Option EvictablePage → Type 0
  Awaited a m r =
      Kept m r.0 × ((page : EvictablePage) × (r.1 ≡ some page) × (r.0.page_cache a ≡ some page))

  await_page-Awaited :
      (a : ℕ) (m : PageManager)
      → IsCoherent m
      → InFile a m.db.content
      → Awaited a m (await_page load a m)
  unfolding await_page Awaited
  await_page-Awaited a m c f = elim (Bool-cases (is_some (m.page_cache a))) [
    | inl t ↦ rw t ((c, omega arith, λ b i. refl), found (m.page_cache a) t)
    | inr n ↦
        let (k, t) = lawful a (send (IoTask.fill_cache a) m) c f in
        rw n (k, found ((load a (send (IoTask.fill_cache a) m)).page_cache a) t)
  ]
    where
      found :
          (o : Option EvictablePage)
          → is_some o ≡ true
          → (page : EvictablePage) × (o ≡ some page) × (o ≡ some page)
      found none t = cc
      found (some page) t = (page, refl, refl)

  write_page-Wrote :
      (a : ℕ) (m : PageManager) (writer : EvictablePage → EvictablePage) (f : List ℕ → List ℕ)
      → IsCoherent m
      → InFile a m.db.content
      → Writes writer f
      → Wrote a f m (write_page load a writer m)
  unfolding write_page Awaited
  write_page-Wrote a m writer f c i w =
      let ((c', l, s), (page, e, e')) = await_page-Awaited a m c i in
      let (d, l', t) = put-Changes (await_page load a m).0 a page writer f c' e' w in
      subst
        (λ o. Wrote a f m (elim o as (λ x. Option PageManager) [
          | none ↦ none
          | some found ↦ some (put_page a (writer found) (await_page load a m).0)
        ]))
        (sym e)
        (
          put_page a (writer page) (await_page load a m).0,
          refl,
          (
            d,
            omega (arith, l, l'),
            λ b j. t b (j.0, omega (arith, j.1, l)) ∙ ap (λ x. if b == a then f x else x) (s b j),
          ),
        )

  -- What a new link makes of a page; the address 0 is no page.
  abbrev pub relinked : ℕ → (List ℕ → List ℕ) → ℕ → List ℕ → List ℕ
  relinked n f b bytes = if n == 0 then bytes else if b == n then f bytes else bytes

  Relinked : ℕ → (List ℕ → List ℕ) → PageManager → Option PageManager → Type 0
  Relinked n f m r =
      (m' : PageManager) × (r ≡ some m')
      × IsCoherent m'
      × (length m.db.content ≤ length m'.db.content)
      × ((b : ℕ) → InFile b m.db.content → page_at b m' ≡ relinked n f b (page_at b m))

  relink-Relinked :
      (n : ℕ) (change : EvictablePage → EvictablePage) (f : List ℕ → List ℕ) (m : PageManager)
      → IsCoherent m
      → (n ≢ 0 → InFile n m.db.content)
      → Writes (λ page. set_dirty (change page)) f
      → Relinked n f m (relink load n change m)
  unfolding relink Relinked
  relink-Relinked n change f m c i w = elim (Bool-cases (n == 0)) [
    | inl t ↦ rw t (m, refl, c, omega arith, λ b j. refl)
    | inr g ↦
        let (m', e, (c', l, s)) =
          write_page-Wrote n m (λ page. set_dirty (change page)) f c (i (different n 0 g)) w in
        rw (g, e) (send (IoTask.write_back n) m', refl, c', l, s)
  ]

  -- The page at `b` after the one at `a` has been taken out from between two others.
  abbrev pub unlinked : ℕ → ℕ → ℕ → ℕ → List ℕ → List ℕ
  unlinked a prev next b bytes =
      let apart = relinked next (with_prev prev) b (relinked prev (with_next next) b bytes) in
      if b == a then without_links apart else apart

  -- The call ends with a coherent cache, the page at `a` among the free ones, and every page of the file
  -- changed as told.
  abbrev pub Unlinks : ℕ → ℕ → ℕ → PageManager → Option PageManager → Type 0
  Unlinks a prev next m r =
      (m' : PageManager) × (r ≡ some m')
      × IsCoherent m'
      × (contains a m'.free_pages ≡ true)
      × ((b : ℕ) → InFile b m.db.content → page_at b m' ≡ unlinked a prev next b (page_at b m))

  unlink-Unlinks :
      (a prev next : ℕ) (m : PageManager)
      → IsCoherent m
      → InFile a m.db.content
      → (prev ≢ 0 → InFile prev m.db.content)
      → (next ≢ 0 → InFile next m.db.content)
      → Unlinks a prev next m (unlink load a prev next m)
  unfolding unlink add_free_page Relinked
  unlink-Unlinks a prev next m c i ip ix =
      let (m1, e1, c1, l1, s1) =
        relink-Relinked prev (set_next_page_address next) (with_next next) m c ip
          (next-Writes next) in
      let grown : (b : ℕ) → InFile b m.db.content → InFile b m1.db.content =
        λ b j. (j.0, omega (arith, j.1, l1)) in
      let (m2, e2, c2, l2, s2) =
        relink-Relinked next (set_prev_page_address prev) (with_prev prev) m1 c1
          (λ h. grown next (ix h)) (prev-Writes prev) in
      let grown_again : (b : ℕ) → InFile b m.db.content → InFile b m2.db.content =
        λ b j. (j.0, omega (arith, j.1, l1, l2)) in
      let (m3, e3, (c3, l3, s3)) =
        write_page-Wrote a m2 clear_links without_links c2 (grown_again a i) clear-Writes in
      rw (unlink, e1, e2, e3)
        (
          add_free_page a m3,
          refl,
          c3,
          ground arith,
          λ b j.
              s3 b (grown_again b j)
              ∙ ap (λ x. if b == a then without_links x else x)
                  (s2 b (grown b j) ∙ ap (relinked next (with_prev prev) b) (s1 b j)),
        )

  -- `delete_page` ends and does to the pages of the file what it does to a chain that is all in memory,
  -- whatever is loaded and given up on the way: the predecessor gets the successor as its next page, the
  -- successor gets the predecessor as its previous one, the page itself has no links and is free, and
  -- every other byte of every page is what it was.
  pub delete_page-Unlinks :
      (a : ℕ) (m : PageManager)
      → IsCoherent m
      → InFile a m.db.content
      → (word_at 0 (page_at a m) ≢ 0 → InFile (word_at 0 (page_at a m)) m.db.content)
      → (word_at 8 (page_at a m) ≢ 0 → InFile (word_at 8 (page_at a m)) m.db.content)
      → Unlinks a (word_at 0 (page_at a m)) (word_at 8 (page_at a m)) m (delete_page load a m)
  unfolding delete_page prev_page_address next_page_address Awaited
  delete_page-Unlinks a m c i ip ix =
      let ((c', l, s), (page, e, e')) = await_page-Awaited a m c i in
      let m1 = (await_page load a m).0 in
      let same : page.page_buffer ≡ page_at a m =
        sym (ap (λ o. view o (disk a m1.db.content)) e') ∙ s a i in
      let grown : (b : ℕ) → InFile b m.db.content → InFile b m1.db.content =
        λ b j. (j.0, omega (arith, j.1, l)) in
      let (m2, e2, c2, k, t) =
        unlink-Unlinks a (word_at 0 (page_at a m)) (word_at 8 (page_at a m)) m1 c' (grown a i)
          (λ h. grown _ (ip h)) (λ h. grown _ (ix h)) in
      subst
        (λ o.
          Unlinks a (word_at 0 (page_at a m)) (word_at 8 (page_at a m)) m
            (elim o as (λ x. Option PageManager) [
              | none ↦ none
              | some found ↦
                  unlink load a (word_at 0 found.page_buffer) (word_at 8 found.page_buffer) m1
            ]))
        (sym e)
        (
          m2,
          ap (λ x. unlink load a (word_at 0 x) (word_at 8 x) m1) same ∙ e2,
          c2,
          k,
          λ b j.
              t b (grown b j)
              ∙ ap (unlinked a (word_at 0 (page_at a m)) (word_at 8 (page_at a m)) b) (s b j),
        )
