-- ===== src/PageManager/Cached.antt =====
-- src/persistence_layer/file_io/page_manager.rs: the cache of pages against the pages that it stands for.
use elektro_em_eukal.Base.{
  ℕ, ◌≤◌, ◌≡◌, ◌≢◌, refl, sym, ap, subst, ◌∙◌, false, Option, none, some, List, [], ◌∷◌, arith,
  length, ◌==◌, Bool-cases, inl, inr, update,
}
use elektro_em_eukal.RandomAccessFile.{RandomAccessFile, Fault, write, write_at, write_until}
use elektro_em_eukal.RandomAccessFile.Append.{write_until-write}
use elektro_em_eukal.FileIo.Linked.{update_self, update_other}
use elektro_em_eukal.EvictablePage.{EvictablePage, address, is_dirty, write_back}
use elektro_em_eukal.PageManager.{PageManager, write_back_until}
use elektro_em_eukal.PageManager.Disk.{disk, InFile}

-- A page in the cache that may stand for the one at `a` of a file.
abbrev pub StandsFor : List ℕ → ℕ → EvictablePage → Type 0
StandsFor content a page =
    InFile a content
    × (address page ≡ a)
    × (length page.page_buffer ≡ 512)
    × (is_dirty page ≡ false → page.page_buffer ≡ disk a content)

-- Clean pages in the cache are as in the file.
abbrev pub IsCoherent : PageManager → Type 0
IsCoherent m =
    (a : ℕ) → (page : EvictablePage) → m.page_cache a ≡ some page → StandsFor m.db.content a page

abbrev pub view : Option EvictablePage → List ℕ → List ℕ
view none bytes = bytes
view (some page) bytes = page.page_buffer

-- The page at an address, wherever it is.
abbrev pub page_at : ℕ → PageManager → List ℕ
page_at a m = view (m.page_cache a) (disk a m.db.content)

-- The cache stays coherent, and every page of the file is what it was.
abbrev pub Kept : PageManager → PageManager → Type 0
Kept m m' =
    IsCoherent m'
    × (length m.db.content ≤ length m'.db.content)
    × ((b : ℕ) → InFile b m.db.content → page_at b m' ≡ page_at b m)

pub Kept-trans : (m m' m'' : PageManager) → Kept m m' → Kept m' m'' → Kept m m''
Kept-trans m m' m'' (c, l, s) (c', l', s') =
    (c', omega (arith, l, l'), λ b f. s' b (f.0, omega (arith, f.1, l)) ∙ s b f)

pub different : (a b : ℕ) → (a == b) ≡ false → a ≢ b
different a b f e = ground (arith, f, e)

-- One entry is replaced by one that stands for the same page, and no other page of the file changes.
pub replaced-Kept :
    (m : PageManager) (v : ℕ) (o : Option EvictablePage) (db : RandomAccessFile)
    → IsCoherent m
    → ((page : EvictablePage) → o ≡ some page → StandsFor db.content v page)
    → view o (disk v db.content) ≡ page_at v m
    → length m.db.content ≤ length db.content
    → ((b : ℕ) → InFile b m.db.content → v ≢ b → disk b db.content ≡ disk b m.db.content)
    → Kept m (record m { db = db; page_cache = update m.page_cache v o })
replaced-Kept m v o db c h s l others = (
  λ a page e. elim (Bool-cases (a == v)) [
    | inl t ↦
        let same : a ≡ v = ground (arith, t) in
        let found : o ≡ some page =
          sym (update_self m.page_cache v o) ∙ ap (update m.page_cache v o) (sym same) ∙ e in
        subst (λ x. StandsFor db.content x page) (sym same) (h page found)
    | inr f ↦
        let other = different a v f in
        let (i, ad, n, clean) = c a page (sym (update_other m.page_cache v o a other) ∙ e) in
        ((i.0, omega (arith, i.1, l)), ad, n, λ d. clean d ∙ sym (others a i (λ x. other (sym x))))
  ],
  l,
  λ b f. elim (Bool-cases (b == v)) [
    | inl t ↦
        let same : b ≡ v = ground (arith, t) in
        subst (λ x. view (update m.page_cache v o x) (disk x db.content) ≡ page_at x m) (sym same)
          (ap (λ x. view x (disk v db.content)) (update_self m.page_cache v o) ∙ s)
    | inr n ↦
        let other = different b v n in
        ap (λ x. view x (disk b db.content)) (update_other m.page_cache v o b other)
        ∙ ap (view (m.page_cache b)) (others b f (λ x. other (sym x)))
  ],
)

pub write_back_until-write :
    (faults : List Fault) (page : EvictablePage) (db : RandomAccessFile)
    → write_back_until faults page db ≡ (
      record page { address_and_dirty_flag = address page },
      write_until db page.page_buffer (address page) faults,
    )
unfolding write_back_until write_back write write_until
write_back_until-write [] page db = refl
write_back_until-write (f ∷ faults) page db = write_back_until-write faults page _

-- The bytes of the file behind a page that was written back.
pub written_content :
    (faults : List Fault) (page : EvictablePage) (db : RandomAccessFile)
    → (write_back_until faults page db).1.content
      ≡ write_at db.content (address page) page.page_buffer
written_content faults page db =
    ap (λ (x : EvictablePage × RandomAccessFile). x.1.content)
      (write_back_until-write faults page db)
    ∙ ap (λ (x : RandomAccessFile). x.content)
        (write_until-write db page.page_buffer (address page) faults)
