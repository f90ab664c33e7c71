-- ===== src/Playback/Submits.antt =====
-- src/transaction.rs: the order of the submitted journals of `Playback`.
use elektro_em_eukal.Base.{
  ℕ, ◌≤◌, ◌<◌, ◌≡◌, ◌≢◌, refl, sym, subst, Bool, true, false, Option, none, some, List, [], ◌∷◌,
  arith, All, if◌then◌else◌, ◌==◌, update,
}
use elektro_em_eukal.Anchors.{Store, set_submit_instant, submit}
use elektro_em_eukal.Transaction.Strand.{submit_journals}
use elektro_em_eukal.Playback.{
  Submission, Playback, find_anchor, remove_anchor, insert_submission, submit_anchor,
  submit_journal_anchor,
}
use elektro_em_eukal.Playback.Rewinds.{Descending, IsOrdered}

-- An open journal is at one place of the map.
abbrev pub Distinct : List (ℕ × ℕ) → Type 0
Distinct [] = Unit {0}
Distinct ((id, j) ∷ rest) = All (λ m. m.1 ≢ j) rest × Distinct rest

-- No open journal is among the submitted ones, and those are in order.
abbrev pub IsPlayback : Store → Playback → Type 0
IsPlayback st p =
    IsOrdered st p.submitted_journal_anchors
    × Distinct p.journal_anchor_map
    × All (λ m. All (λ s. s.journal ≢ m.1) p.submitted_journal_anchors) p.journal_anchor_map

insert_submission-All :
    (P : Submission → Type 0) (s : Submission) (l : List Submission)
    → P s
    → All P l
    → All P (insert_submission s l)
unfolding insert_submission
insert_submission-All P s [] h a = (h, tt)
insert_submission-All P s (s' ∷ rest) h (h', a) =
    let further = insert_submission-All P s rest h a in ground (arith, further)

All-below :
    (i i' : ℕ) (l : List Submission)
    → i ≤ i'
    → All (λ x. x.instant < i) l
    → All (λ x. x.instant < i') l
All-below i i' [] h a = tt
All-below i i' (x ∷ rest) h (b, a) = (omega (arith, b, h), All-below i i' rest h a)

insert_submission-Descending :
    (s : Submission) (l : List Submission) → Descending l → Descending (insert_submission s l)
unfolding insert_submission
insert_submission-Descending s [] d = (tt, tt)
insert_submission-Descending s (s' ∷ rest) (b, d) =
    let further = insert_submission-Descending s rest d in
    let inserted : s.instant < s'.instant
        → All (λ x. x.instant < s'.instant) (insert_submission s rest) =
      λ h. insert_submission-All (λ x. x.instant < s'.instant) s rest h b in
    let below : s'.instant ≤ s.instant → All (λ x. x.instant < s.instant) rest =
      λ h. All-below s'.instant s.instant rest h b in
    ground (arith, further, inserted, below)

submitted_anchor :
    (st : Store) (j i k : ℕ)
    → (submit j (set_submit_instant j i st)).journals k
      ≡ update st.journals j (record (st.journals j) { submitted = true; submit_instant = i }) k
unfolding set_submit_instant
submitted_anchor st j i k = ground (arith, submit_journals (set_submit_instant j i st) j k)

instants_kept :
    (st : Store) (j i : ℕ) (l : List Submission)
    → All (λ s. s.journal ≢ j) l
    → All (λ s. (st.journals s.journal).submit_instant ≡ s.instant) l
    → All
        (λ s.
          ((submit j (set_submit_instant j i st)).journals s.journal).submit_instant ≡ s.instant)
        l
instants_kept st j i [] n a = tt
instants_kept st j i (s ∷ rest) (n, ns) (h, a) =
    (ground (arith, submitted_anchor st j i s.journal), instants_kept st j i rest ns a)

found_head :
    (P : ℕ → Type 0) (b : Bool) (j j' : ℕ) (r : Option ℕ)
    → (if b then some j' else r) ≡ some j
    → P j'
    → (r ≡ some j → P j)
    → P j
found_head P true j j' r f h k = let same : j' ≡ j = cc in subst P same h
found_head P false j j' r f h k = k f

-- What holds of every anchor of the map holds of the one that is found.
found_anchor :
    (P : ℕ → Type 0) (id j : ℕ) (m : List (ℕ × ℕ))
    → find_anchor id m ≡ some j
    → All (λ e. P e.1) m
    → P j
found_anchor P id j [] f a = cc
found_anchor P id j ((id', j') ∷ rest) f (h, a) =
    found_head P (id == id') j j' _ f h (λ g. found_anchor P id j rest g a)

remove_anchor-All :
    (P : ℕ × ℕ → Type 0) (id : ℕ) (m : List (ℕ × ℕ)) → All P m → All P (remove_anchor id m)
remove_anchor-All P id [] a = tt
remove_anchor-All P id ((id', j') ∷ rest) (h, a) =
    let others = remove_anchor-All P id rest a in ground (arith, others)

remove_anchor-Distinct : (id : ℕ) (m : List (ℕ × ℕ)) → Distinct m → Distinct (remove_anchor id m)
remove_anchor-Distinct id [] d = tt
remove_anchor-Distinct id ((id', j') ∷ rest) (n, d) =
    let others = remove_anchor-Distinct id rest d in
    let apart = remove_anchor-All (λ e. e.1 ≢ j') id rest n in ground (arith, others, apart)

removed_head :
    (b : Bool) (id' j j' : ℕ) (rest others : List (ℕ × ℕ)) (r : Option ℕ)
    → (if b then some j' else r) ≡ some j
    → All (λ e. e.1 ≢ j') rest
    → (r ≡ some j → j ≢ j')
    → (r ≡ some j → All (λ e. e.1 ≢ j) others)
    → All (λ e. e.1 ≢ j) (if b then rest else (id', j') ∷ others)
removed_head true id' j j' rest others r f n h k =
    let same : j' ≡ j = cc in subst (λ x. All (λ e. e.1 ≢ x) rest) same n
removed_head false id' j j' rest others r f n h k = ((λ e. h f (sym e)), k f)

-- The anchor that is found is not in the rest of the map.
removed_anchor :
    (id j : ℕ) (m : List (ℕ × ℕ))
    → find_anchor id m ≡ some j
    → Distinct m
    → All (λ e. e.1 ≢ j) (remove_anchor id m)
removed_anchor id j [] f d = tt
removed_anchor id j ((id', j') ∷ rest) f (n, d) =
    removed_head (id == id') id' j j' rest (remove_anchor id rest) _ f n
      (λ g. found_anchor (λ x. x ≢ j') id j rest g n) (λ g. removed_anchor id j rest g d)

apart_after :
    (s : Submission) (l : List Submission) (m : List (ℕ × ℕ))
    → All (λ e. e.1 ≢ s.journal) m
    → All (λ e. All (λ x. x.journal ≢ e.1) l) m
    → All (λ e. All (λ x. x.journal ≢ e.1) (insert_submission s l)) m
apart_after s l [] n a = tt
apart_after s l ((id, j) ∷ rest) (n, ns) (h, a) =
    (insert_submission-All (λ x. x.journal ≢ j) s l (λ e. n (sym e)) h, apart_after s l rest ns a)

entered-IsPlayback :
    (b : Bool) (p p' : Playback) (st : Store)
    → IsPlayback st p
    → IsPlayback st p'
    → IsPlayback st (if b then p else p')
entered-IsPlayback true p p' st h h' = h
entered-IsPlayback false p p' st h h' = h'

found-IsPlayback :
    (id instant : ℕ) (v : Option ℕ) (p : Playback) (st : Store)
    → find_anchor id p.journal_anchor_map ≡ v
    → IsPlayback st p
    → let (p', st') = submit_anchor id instant v p st in IsPlayback st' p'
unfolding submit_anchor
found-IsPlayback id instant none p st f h = h
found-IsPlayback id instant (some j) p st f ((a, d), distinct, apart) =
    let l = p.submitted_journal_anchors in
    let s : Submission = record { instant = instant; journal = j } in
    let others = remove_anchor-Distinct id p.journal_anchor_map distinct in
    let free = found_anchor (λ k. All (λ x. x.journal ≢ k) l) id j p.journal_anchor_map f apart in
    let rest =
      remove_anchor-All (λ e. All (λ x. x.journal ≢ e.1) l) id p.journal_anchor_map apart in
    let kept = instants_kept st j instant l free a in
    let new : ((submit j (set_submit_instant j instant st)).journals j).submit_instant ≡ instant =
      ground (arith, submitted_anchor st j instant j) in
    entered-IsPlayback _ _ _ (submit j (set_submit_instant j instant st)) ((kept, d), others, rest)
      (
        (
          insert_submission-All
              (λ s.
                ((submit j (set_submit_instant j instant st)).journals s.journal).submit_instant
                ≡ s.instant)
              s l new kept,
          insert_submission-Descending s l d,
        ),
        others,
        apart_after s l _ (removed_anchor id j p.journal_anchor_map f distinct) rest,
      )

-- A submission leaves the submitted journals in the order of their submit instants, and the journals
-- that are still open apart from them.
pub submit_journal_anchor-IsPlayback :
    (id instant : ℕ) (p : Playback) (st : Store)
    → IsPlayback st p
    → let (p', st') = submit_journal_anchor id instant p st in IsPlayback st' p'
unfolding submit_journal_anchor
submit_journal_anchor-IsPlayback id instant p st h = found-IsPlayback id instant _ p st refl h
