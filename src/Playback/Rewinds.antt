-- ===== src/Playback/Rewinds.antt =====
-- src/transaction.rs: which journals a rewind of `Playback` rolls back.
use elektro_em_eukal.Base.{
  contains, nonzero, zero, suc, ℕ, ◌-◌, ◌^◌, ◌≤◌, ◌<◌, ◌≡◌, refl, ap, subst, ◌∙◌, Bool, true, false,
  ◌||◌, Option, List, [], ◌∷◌, ◌++◌, arith, All, if◌then◌else◌, ◌==◌, value_or_zero,
}
use elektro_em_eukal.Anchors.{Store, JournalAnchor, submit_instant, rollback}
use elektro_em_eukal.Transaction.Strand.{rollback_journals}
use elektro_em_eukal.Playback.{
  Submission, Playback, rollback_unbounded, rewind_submitted, rewind_playback,
}

-- Later entries stand first.
abbrev pub Descending : List Submission → Type 0
Descending [] = Unit {0}
Descending (s ∷ rest) = All (λ x. x.instant < s.instant) rest × Descending rest

-- The entries are ordered by the submit instants of their anchors.
abbrev pub IsOrdered : Store → List Submission → Type 0
IsOrdered st l = All (λ s. (st.journals s.journal).submit_instant ≡ s.instant) l × Descending l

-- The anchor at `k` once the journals `js` have been rolled back, and they alone.
abbrev pub discarded : List ℕ → Store → ℕ → JournalAnchor
discarded js st k =
    if contains k js then record (st.journals k) { rolled_back = true } else st.journals k

abbrev pub journals_of : List Submission → List ℕ
journals_of [] = []
journals_of (s ∷ rest) = s.journal ∷ journals_of rest

discarded_first :
    (st : Store) (j k : ℕ) (js : List ℕ) → discarded js (rollback j st) k ≡ discarded (j ∷ js) st k
discarded_first st j k js = ground (arith, rollback_journals st j k)

rollback_unbounded-journals :
    (js : List ℕ) (st : Store) (k : ℕ) → (rollback_unbounded js st).journals k ≡ discarded js st k
unfolding rollback_unbounded
rollback_unbounded-journals [] st k = refl
rollback_unbounded-journals (j ∷ js) st k =
    rollback_unbounded-journals js (rollback j st) k ∙ discarded_first st j k js

-- A journal that is rolled back keeps its submit instant.
rollback-instant :
    (st : Store) (j k : ℕ)
    → ((rollback j st).journals k).submit_instant ≡ (st.journals k).submit_instant
rollback-instant st j k = ground (arith, rollback_journals st j k)

unbounded-instant :
    (js : List ℕ) (st : Store) (k : ℕ)
    → ((rollback_unbounded js st).journals k).submit_instant ≡ (st.journals k).submit_instant
unbounded-instant js st k = ground (arith, rollback_unbounded-journals js st k)

-- What a rewind of the entries `l` leaves.
abbrev pub Drops : ℕ → List Submission → Store → List Submission × Store → Type 0
Drops to l st (left, st') =
    (dropped : List Submission) × (l ≡ dropped ++ left)
    × All (λ s. to < s.instant) dropped
    × All (λ s. s.instant ≤ to) left
    × ((k : ℕ) → st'.journals k ≡ discarded (journals_of dropped) st k)

instants_after :
    (st st' : Store) (l : List Submission)
    → ((k : ℕ) → (st'.journals k).submit_instant ≡ (st.journals k).submit_instant)
    → All (λ s. (st.journals s.journal).submit_instant ≡ s.instant) l
    → All (λ s. (st'.journals s.journal).submit_instant ≡ s.instant) l
instants_after st st' [] e a = tt
instants_after st st' (s ∷ rest) e (h, a) = (e s.journal ∙ h, instants_after st st' rest e a)

kept_of_earlier :
    (to i : ℕ) (l : List Submission)
    → i ≤ to
    → All (λ x. x.instant < i) l
    → All (λ s. s.instant ≤ to) l
kept_of_earlier to i [] h a = tt
kept_of_earlier to i (s ∷ rest) h (b, a) = (omega (arith, b, h), kept_of_earlier to i rest h a)

keep_or_drop :
    (to : ℕ) (s : Submission) (rest : List Submission) (st : Store) (b : Bool)
    (r : List Submission × Store)
    → (b ≡ true → s.instant ≤ to)
    → (b ≡ false → to < s.instant)
    → All (λ x. x.instant < s.instant) rest
    → Drops to rest (rollback s.journal st) r
    → Drops to (s ∷ rest) st (if b then (s ∷ rest, st) else r)
keep_or_drop to s rest st true r h h' b d =
    ([], refl, tt, (h refl, kept_of_earlier to s.instant rest (h refl) b), (λ k. refl))
keep_or_drop to s rest st false r h h' b (dropped, split, after, kept, same) = (
  s ∷ dropped,
  ap (λ l. s ∷ l) split,
  (h' refl, after),
  kept,
  (λ k. same k ∙ discarded_first st s.journal k (journals_of dropped)),
)

value_of_nonzero : (n : ℕ) → value_or_zero (nonzero n) ≡ n
value_of_nonzero zero = refl
value_of_nonzero (suc n) = refl

rewind_submitted-Drops :
    (to : ℕ) (l : List Submission) (st : Store)
    → IsOrdered st l
    → Drops to l st (rewind_submitted to l st)
unfolding rewind_submitted submit_instant
rewind_submitted-Drops to [] st o = ([], refl, tt, tt, (λ k. refl))
rewind_submitted-Drops to (s ∷ rest) st ((e, a), (b, d)) =
    let value : value_or_zero (submit_instant st s.journal) ≡ s.instant =
      value_of_nonzero (st.journals s.journal).submit_instant ∙ e in
    keep_or_drop to s rest st _ _ (λ t. ground (arith, value)) (λ f. ground (arith, value)) b
      (rewind_submitted-Drops to rest (rollback s.journal st)
        (instants_after st (rollback s.journal st) rest (rollback-instant st s.journal) a, d))

All-in_front : (P : Submission → Type 0) (xs ys : List Submission) → All P (xs ++ ys) → All P ys
All-in_front P [] ys a = a
All-in_front P (x ∷ xs) ys (_, a) = All-in_front P xs ys a

Descending-in_front : (xs ys : List Submission) → Descending (xs ++ ys) → Descending ys
Descending-in_front [] ys d = d
Descending-in_front (x ∷ xs) ys (_, d) = Descending-in_front xs ys d

contains_in_two : (k : ℕ) (xs ys : List ℕ) → contains k (xs ++ ys) ≡ contains k xs || contains k ys
contains_in_two k [] ys = refl
contains_in_two k (x ∷ xs) ys = let rest = contains_in_two k xs ys in ground (arith, rest)

discarded_in_two :
    (st st' : Store) (k : ℕ) (xs ys : List ℕ)
    → st'.journals k ≡ discarded xs st k
    → discarded ys st' k ≡ discarded (xs ++ ys) st k
discarded_in_two st st' k xs ys h = let both = contains_in_two k xs ys in ground (arith, both)

-- What a rewind to `to` leaves of a playback.
abbrev pub Rewinds : ℕ → Playback → Store → Playback × Store → Type 0
Rewinds to p st (p', st') =
    (dropped : List Submission) × (p.submitted_journal_anchors
      ≡ dropped ++ p'.submitted_journal_anchors)
    × All (λ s. to < s.instant) dropped
    × All (λ s. s.instant ≤ to) p'.submitted_journal_anchors
    × (p'.submitted_unbounded_journal_anchors ≡ [])
    × IsOrdered st' p'.submitted_journal_anchors
    × ((k : ℕ)
        → st'.journals k
          ≡ discarded (p.submitted_unbounded_journal_anchors ++ journals_of dropped) st k)

discarded-instant :
    (js : List ℕ) (st : Store) (k : ℕ)
    → (discarded js st k).submit_instant ≡ (st.journals k).submit_instant
discarded-instant js st k = ground arith

IsOrdered-rest :
    (st st' : Store) (js : List ℕ) (dropped left : List Submission)
    → ((k : ℕ) → st'.journals k ≡ discarded js st k)
    → IsOrdered st (dropped ++ left)
    → IsOrdered st' left
IsOrdered-rest st st' js dropped left h (a, d) = (
  instants_after st st' left (λ k. ap (λ j. j.submit_instant) (h k) ∙ discarded-instant js st k)
      (All-in_front _ dropped left a),
  Descending-in_front dropped left d,
)

-- A rewind to an instant below the last one rolls back the unbounded journals and those that were
-- submitted after the instant, and no other; the entries of the others stay, in order.
pub rewind_playback-Rewinds :
    (instant : Option ℕ) (p : Playback) (st : Store)
    → value_or_zero instant < 2 ^ 32 - 1
    → IsOrdered st p.submitted_journal_anchors
    → Rewinds (value_or_zero instant) p st (rewind_playback instant p st)
unfolding rewind_playback
rewind_playback-Rewinds instant p st h (a, d) =
    let u = p.submitted_unbounded_journal_anchors in
    let l = p.submitted_journal_anchors in
    let st₁ = rollback_unbounded u st in
    let to = value_or_zero instant in
    let below : (to == 2 ^ 32 - 1) ≡ false = ground (arith, h) in
    let (dropped, split, after, kept, same) =
      rewind_submitted-Drops to l st₁ (instants_after st st₁ l (unbounded-instant u st) a, d) in
    let all : (k : ℕ)
        → (rewind_submitted to l st₁).1.journals k ≡ discarded (u ++ journals_of dropped) st k =
      λ k. same k ∙ discarded_in_two st st₁ k u _ (rollback_unbounded-journals u st k) in
    rw (below) (
      dropped,
      split,
      after,
      kept,
      refl,
      IsOrdered-rest st (rewind_submitted to l st₁).1 (u ++ journals_of dropped) dropped _ all
          (subst (IsOrdered st) split (a, d)),
      all,
    )
