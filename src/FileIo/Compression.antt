-- ===== src/FileIo/Compression.antt =====
-- src/persistence_layer/file_io/mod.rs: the records that `create` and `delete` make of a list of
-- identifiers.
use elektro_em_eukal.Base.{
  ℕ, zero, suc, ◌+◌, ◌-◌, ◌*◌, ◌^◌, ◌≤◌, ◌<◌, ◌≡◌, refl, sym, ap, ◌∙◌, Option, none, some, List, [],
  ◌∷◌, ◌++◌, arith, All, append_assoc, ltb, ◌==◌, ◌&&◌, not, inl, inr, Bool-cases, ltb→lt,
}
use elektro_em_eukal.LogRecord.{LogRecord}
use elektro_em_eukal.FileIo.Objects.{pair, extend, next_created, next_deleted}

-- The identifiers `start + i * interval` for the numbers `i` below a bound.
unfoldable pub range_ids : ℕ → ℕ → ℕ → List ℕ
range_ids start interval zero = []
range_ids start interval (suc n) = range_ids start interval n ++ ((start + n * interval) ∷ [])

-- The objects that a record names.
unfoldable pub objects_of : LogRecord → List ℕ
unfolding range_ids
objects_of (LogRecord.journal_created_object_single t j object) = object ∷ []
objects_of (LogRecord.journal_created_object_range t j start interval n) =
    range_ids start interval n
objects_of (LogRecord.journal_deleted_object_single t j object) = object ∷ []
objects_of (LogRecord.journal_deleted_object_range t j start interval n) =
    range_ids start interval n
objects_of r = []

abbrev pub all_objects : List LogRecord → List ℕ
all_objects [] = []
all_objects (r ∷ rs) = objects_of r ++ all_objects rs

abbrev pub IsCreated : ℕ → ℕ → LogRecord → Type 0
IsCreated t j (LogRecord.journal_created_object_single t' j' object) =
    (t' ≡ t) × (j' ≡ j) × (object < 2 ^ 64)
IsCreated t j (LogRecord.journal_created_object_range t' j' start interval n) =
    (t' ≡ t) × (j' ≡ j) × (start < 2 ^ 64) × (interval < 2 ^ 32) × (n < 2 ^ 32)
IsCreated t j r = ⊥

abbrev pub IsDeleted : ℕ → ℕ → LogRecord → Type 0
IsDeleted t j (LogRecord.journal_deleted_object_single t' j' object) =
    (t' ≡ t) × (j' ≡ j) × (object < 2 ^ 64)
IsDeleted t j (LogRecord.journal_deleted_object_range t' j' start interval n) =
    (t' ≡ t) × (j' ≡ j) × (start < 2 ^ 64) × (interval < 2 ^ 32) × (n < 2 ^ 32)
IsDeleted t j r = ⊥

-- The records that the loop makes, in order.
module _ (single : ℕ → LogRecord) (next : LogRecord → ℕ → Option LogRecord) where
  unfoldable pub records_of : List ℕ → Option LogRecord → List LogRecord
  records_of [] none = []
  records_of [] (some r) = r ∷ []
  records_of (id ∷ ids) none = records_of ids (some (single id))
  records_of (id ∷ ids) (some r) = elim (next r id) [
    | some r' ↦ records_of ids (some r')
    | none ↦ r ∷ records_of ids (some (single id))
  ]

-- What `next` makes of a record and an identifier.
abbrev pub Extends : (LogRecord → Type 0) → LogRecord → ℕ → Option LogRecord → Type 0
Extends P r id none = Unit {0}
Extends P r id (some r') = P r' × (objects_of r' ≡ objects_of r ++ (id ∷ []))

range_ids-pair : (prev id : ℕ) → prev ≤ id → range_ids prev (id - prev) 2 ≡ prev ∷ (id ∷ [])
unfolding range_ids
range_ids-pair prev id h = ground arith

range_ids-extend :
    (start interval n id : ℕ)
    → start ≤ id
    → id - start ≡ interval * n
    → range_ids start interval (n + 1) ≡ range_ids start interval n ++ (id ∷ [])
unfolding range_ids
range_ids-extend start interval n id h e =
    let last : start + n * interval ≡ id = grind arith in
    let step : n + 1 ≡ suc n = omega arith in
    rw step (ap (λ x. range_ids start interval n ++ (x ∷ [])) last)

module _ (range : ℕ → ℕ → ℕ → LogRecord) (P : LogRecord → Type 0)
    (named : (s i n : ℕ) → objects_of (range s i n) ≡ range_ids s i n)
    (valid : (s i n : ℕ) → s < 2 ^ 64 → i < 2 ^ 32 → n < 2 ^ 32 → P (range s i n)) where
  pair-Extends :
      (r : LogRecord) (prev id : ℕ)
      → prev < 2 ^ 64
      → objects_of r ≡ prev ∷ []
      → Extends P r id (pair range prev id)
  unfolding pair
  pair-Extends r prev id l e = elim (Bool-cases (ltb id prev)) [
    | inl t ↦ rw t tt
    | inr f ↦ elim (Bool-cases (ltb (id - prev) (2 ^ 32))) [
      | inl t ↦
          rw (f, t)
            (
              valid prev (id - prev) 2 l (ltb→lt _ _ t) (omega arith),
              named prev (id - prev) 2
                  ∙ range_ids-pair prev id (ground arith)
                  ∙ ap (λ x. x ++ (id ∷ [])) (sym e),
            )
      | inr g ↦ rw (f, g) tt
    ]
  ]

  extend-Extends :
      (r : LogRecord) (start interval n id : ℕ)
      → start < 2 ^ 64
      → interval < 2 ^ 32
      → n < 2 ^ 32
      → objects_of r ≡ range_ids start interval n
      → Extends P r id (extend range start interval n id)
  unfolding extend
  extend-Extends r start interval n id l l' l'' e = elim (Bool-cases (ltb id start)) [
    | inl t ↦ rw t tt
    | inr f ↦ elim (Bool-cases (not (n == 2 ^ 32 - 1) && (id - start == interval * n))) [
      | inl t ↦
          rw (f, t)
            (
              valid start interval (n + 1) l l' (ground arith),
              named start interval (n + 1)
                  ∙ range_ids-extend start interval n id (ground arith) (ground arith)
                  ∙ ap (λ x. x ++ (id ∷ [])) (sym e),
            )
      | inr g ↦ rw (f, g) tt
    ]
  ]

module _ (t j id : ℕ) where
  pub next_created-Extends :
      (r : LogRecord) → IsCreated t j r → Extends (IsCreated t j) r id (next_created t j r id)
  unfolding next_created objects_of
  next_created-Extends (LogRecord.journal_created_object_single t' j' prev) (e, e', v) =
      pair-Extends (LogRecord.journal_created_object_range t j) (IsCreated t j) (λ s i n. refl)
        (λ s i n h h' h''. (refl, refl, h, h', h''))
        (LogRecord.journal_created_object_single t' j' prev) prev id v refl
  next_created-Extends (LogRecord.journal_created_object_range t' j' start interval n)
        (e, e', v, w, x) =
      extend-Extends (LogRecord.journal_created_object_range t j) (IsCreated t j) (λ s i n. refl)
        (λ s i n h h' h''. (refl, refl, h, h', h''))
        (LogRecord.journal_created_object_range t' j' start interval n) start interval n id v w x
        refl
  next_created-Extends r h = tt

  pub next_deleted-Extends :
      (r : LogRecord) → IsDeleted t j r → Extends (IsDeleted t j) r id (next_deleted t j r id)
  unfolding next_deleted objects_of
  next_deleted-Extends (LogRecord.journal_deleted_object_single t' j' prev) (e, e', v) =
      pair-Extends (LogRecord.journal_deleted_object_range t j) (IsDeleted t j) (λ s i n. refl)
        (λ s i n h h' h''. (refl, refl, h, h', h''))
        (LogRecord.journal_deleted_object_single t' j' prev) prev id v refl
  next_deleted-Extends (LogRecord.journal_deleted_object_range t' j' start interval n)
        (e, e', v, w, x) =
      extend-Extends (LogRecord.journal_deleted_object_range t j) (IsDeleted t j) (λ s i n. refl)
        (λ s i n h h' h''. (refl, refl, h, h', h''))
        (LogRecord.journal_deleted_object_range t' j' start interval n) start interval n id v w x
        refl
  next_deleted-Extends r h = tt

-- What is asked of the two functions' records.
module _ (single : ℕ → LogRecord) (next : LogRecord → ℕ → Option LogRecord) (P : LogRecord → Type 0)
    (named : (id : ℕ) → objects_of (single id) ≡ id ∷ [])
    (valid : (id : ℕ) → id < 2 ^ 64 → P (single id))
    (extends : (id : ℕ) (r : LogRecord) → P r → Extends P r id (next r id)) where
  -- The records name the identifiers, in order.
  abbrev pub Names : List ℕ → List LogRecord → Type 0
  Names ids rs = All P rs × (all_objects rs ≡ ids)

  extended-Names :
      (r : LogRecord) (id : ℕ) (ids : List ℕ) (o : Option LogRecord)
      → P r
      → id < 2 ^ 64
      → Extends P r id o
      → ((r' : LogRecord)
          → P r'
          → Names (objects_of r' ++ ids) (records_of single next ids (some r')))
      → Names (objects_of r ++ (id ∷ ids)) (elim o [
        | some r' ↦ records_of single next ids (some r')
        | none ↦ r ∷ records_of single next ids (some (single id))
      ])
  extended-Names r id ids none p l x ih =
      let (a, e) = ih (single id) (valid id l) in
      ((p, a), ap (λ l. objects_of r ++ l) (e ∙ ap (λ l. l ++ ids) (named id)))
  extended-Names r id ids (some r') p l (p', x) ih =
      let (a, e) = ih r' p' in
      (a, e ∙ ap (λ l. l ++ ids) x ∙ append_assoc (objects_of r) (id ∷ []) ids)

  records_of-Names :
      (ids : List ℕ) (r : LogRecord)
      → All (λ id. id < 2 ^ 64) ids
      → P r
      → Names (objects_of r ++ ids) (records_of single next ids (some r))
  unfolding records_of
  records_of-Names [] r a p = ((p, tt), refl)
  records_of-Names (id ∷ ids) r (l, a) p =
      extended-Names r id ids (next r id) p l (extends id r p)
        (λ r' p'. records_of-Names ids r' a p')

  pub log_records-Names :
      (ids : List ℕ) → All (λ id. id < 2 ^ 64) ids → Names ids (records_of single next ids none)
  unfolding records_of
  log_records-Names [] a = (tt, refl)
  log_records-Names (id ∷ ids) (l, a) =
      let (q, e) = records_of-Names ids (single id) a (valid id l) in
      (q, e ∙ ap (λ l. l ++ ids) (named id))
