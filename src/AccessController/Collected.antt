-- ===== src/AccessController/Collected.antt =====
-- src/access_controller.rs: what the garbage collection of access data removes.
use elektro_em_eukal.Base.{
  ℕ, zero, suc, ◌<◌, ◌≡◌, refl, subst, ◌∙◌, Bool, true, false, ◌⊎◌, inl, inr, Option, none, some,
  List, [], ◌∷◌, arith, All, Bool-cases, if◌then◌else◌, ◌==◌,
}
use elektro_em_eukal.Anchors.{Store, eot_instant, is_terminated}
use elektro_em_eukal.AccessController.Object.{Ownership, ObjectState, owned, queue_of}
use elektro_em_eukal.AccessController.Prepare.{prepare_ownership_transfer}
use elektro_em_eukal.AccessController.Collect.{
  Collected, collect_created, collect_deleted, collect_prepared, collect,
}
use elektro_em_eukal.AccessController.Owners.{HasLetGo, owners_of}
use elektro_em_eukal.AccessController.Shape.{IsSound}
use elektro_em_eukal.AccessController.Sound.{KeptObject, prepare-Kept}
use elektro_em_eukal.AccessController.Freed.{Freed, prepare-Freed}

terminated_of_eot : (st : Store) (o i : ℕ) → eot_instant st o ≡ some i → is_terminated st o ≡ true
unfolding eot_instant is_terminated
terminated_of_eot st o i e = ground arith

not_zero : (k : ℕ) → (suc k == 0) ≡ false
not_zero k = ground arith

module _ (st : Store) (condition : ℕ → Bool) (n : ℕ) where
  -- Why the data of an object may be removed once it is cleaned up, and what the notifier is told.
  abbrev pub RemovedFor : ObjectState → List ℕ → Type 0
  RemovedFor (owned (Ownership.created o)) notified =
      ((eot_instant st o ≡ some 0) × (notified ≡ 0 ∷ []))
      ⊎ ((i : ℕ) × (eot_instant st o ≡ some i) × (0 < i) × (condition i ≡ true) × (notified ≡ []))
  RemovedFor (owned (Ownership.protected o)) notified =
      (is_terminated st o ≡ true) × (notified ≡ [])
  RemovedFor (owned (Ownership.locked o)) notified = (is_terminated st o ≡ true) × (notified ≡ [])
  RemovedFor (owned (Ownership.deleted o)) notified =
      ((eot_instant st o ≡ some 0) × (notified ≡ []))
      ⊎ ((i : ℕ) × (eot_instant st o ≡ some i)
          × (0 < i)
          × (condition i ≡ true)
          × (notified ≡ i ∷ []))
  RemovedFor (owned (Ownership.created_awaitable e)) notified = ⊥
  RemovedFor (owned (Ownership.protected_awaitable s)) notified = ⊥
  RemovedFor (owned (Ownership.locked_awaitable e)) notified = ⊥
  RemovedFor (owned (Ownership.deleted_awaitable e)) notified = ⊥
  RemovedFor (ObjectState.created i) notified = (condition i ≡ true) × (notified ≡ [])
  RemovedFor (ObjectState.deleted i) notified = (condition i ≡ true) × (notified ≡ i ∷ [])

  -- The object, cleaned up, stays as it is.
  abbrev pub Stays : ObjectState → Type 0
  Stays (owned (Ownership.created o)) = eot_instant st o ≡ none
  Stays (owned (Ownership.protected o)) = is_terminated st o ≡ false
  Stays (owned (Ownership.locked o)) = is_terminated st o ≡ false
  Stays (owned (Ownership.deleted o)) = eot_instant st o ≡ none
  Stays (owned (Ownership.created_awaitable e)) = Unit {0}
  Stays (owned (Ownership.protected_awaitable s)) = Unit {0}
  Stays (owned (Ownership.locked_awaitable e)) = Unit {0}
  Stays (owned (Ownership.deleted_awaitable e)) = Unit {0}
  Stays (ObjectState.created i) = condition i ≡ false
  Stays (ObjectState.deleted i) = condition i ≡ false

  -- The object, cleaned up, was created or deleted by a transaction that has ended at `i`, too late.
  abbrev pub EndedAt : ObjectState → ℕ → ObjectState → Type 0
  EndedAt p i left =
      (0 < i)
      × (condition i ≡ false)
      × ((o : ℕ) × (eot_instant st o ≡ some i)
          × (((p ≡ owned (Ownership.created o)) × (left ≡ ObjectState.created i))
              ⊎ ((p ≡ owned (Ownership.deleted o)) × (left ≡ ObjectState.deleted i))))

  -- The decision on an object that is cleaned up.
  abbrev pub Decides : ObjectState → Collected → Type 0
  Decides p (none, notified) = RemovedFor p notified
  Decides p (some left, notified) =
      (notified ≡ []) × (((left ≡ p) × Stays p) ⊎ ((i : ℕ) × EndedAt p i left))

  created-Decides :
      (o : ℕ) (v : Option ℕ)
      → eot_instant st o ≡ v
      → Decides (owned (Ownership.created o)) (collect_created condition o v)
  unfolding collect_created
  created-Decides o none e = (refl, inl (refl, e))
  created-Decides o (some zero) e = inl (e, refl)
  created-Decides o (some (suc k)) e = elim (Bool-cases (condition (suc k))) [
    | inl t ↦ rw (not_zero k, t) (inr (suc k, e, omega arith, t, refl))
    | inr f ↦ rw (not_zero k, f) (refl, inr (suc k, (omega arith, f, (o, e, inl (refl, refl)))))
  ]

  deleted-Decides :
      (o : ℕ) (v : Option ℕ)
      → eot_instant st o ≡ v
      → Decides (owned (Ownership.deleted o)) (collect_deleted condition o v)
  unfolding collect_deleted
  deleted-Decides o none e = (refl, inl (refl, e))
  deleted-Decides o (some zero) e = inl (e, refl)
  deleted-Decides o (some (suc k)) e = elim (Bool-cases (condition (suc k))) [
    | inl t ↦ rw (not_zero k, t) (inr (suc k, e, omega arith, t, refl))
    | inr f ↦ rw (not_zero k, f) (refl, inr (suc k, (omega arith, f, (o, e, inr (refl, refl)))))
  ]

  tested-Decides :
      (p : ObjectState) (test : Bool) (notified : List ℕ)
      → (test ≡ true → RemovedFor p notified)
      → (test ≡ false → Stays p)
      → Decides p (if test then (none, notified) else (some p, []))
  tested-Decides p true notified h k = h refl
  tested-Decides p false notified h k = (refl, inl (refl, k refl))

  prepared-Decides : (p : ObjectState) → Decides p (collect_prepared st condition p)
  unfolding collect_prepared
  prepared-Decides (owned (Ownership.created o)) = created-Decides o _ refl
  prepared-Decides (owned (Ownership.protected o)) =
      tested-Decides (owned (Ownership.protected o)) _ [] (λ t. (t, refl)) (λ f. f)
  prepared-Decides (owned (Ownership.locked o)) =
      tested-Decides (owned (Ownership.locked o)) _ [] (λ t. (t, refl)) (λ f. f)
  prepared-Decides (owned (Ownership.deleted o)) = deleted-Decides o _ refl
  prepared-Decides (owned (Ownership.created_awaitable e)) = (refl, inl (refl, tt))
  prepared-Decides (owned (Ownership.protected_awaitable s)) = (refl, inl (refl, tt))
  prepared-Decides (owned (Ownership.locked_awaitable e)) = (refl, inl (refl, tt))
  prepared-Decides (owned (Ownership.deleted_awaitable e)) = (refl, inl (refl, tt))
  prepared-Decides (ObjectState.created i) =
      tested-Decides (ObjectState.created i) _ [] (λ t. (t, refl)) (λ f. f)
  prepared-Decides (ObjectState.deleted i) =
      tested-Decides (ObjectState.deleted i) _ (i ∷ []) (λ t. (t, refl)) (λ f. f)

  -- The owners and the requests of an object that is collected.
  abbrev pub Frees : ObjectState → Collected → Type 0
  Frees object (none, notified) = All (HasLetGo st n) (owners_of object) × (queue_of object ≡ [])
  Frees object (some left, notified) =
      IsSound left × Freed st n object left × (queue_of left ≡ queue_of object)

  -- What the collection makes of an object.
  abbrev pub Collects : ObjectState → Collected → Type 0
  Collects object r =
      Frees object r
      × ((p : ObjectState) × (prepare_ownership_transfer st object ≡ some p) × Decides p r)

  created-Frees :
      (o : ℕ) (v : Option ℕ)
      → eot_instant st o ≡ v
      → Frees (owned (Ownership.created o)) (collect_created condition o v)
  unfolding collect_created
  created-Frees o none e = ground arith
  created-Frees o (some i) e = ground (arith, terminated_of_eot st o i e)

  deleted-Frees :
      (o : ℕ) (v : Option ℕ)
      → eot_instant st o ≡ v
      → Frees (owned (Ownership.deleted o)) (collect_deleted condition o v)
  unfolding collect_deleted
  deleted-Frees o none e = ground arith
  deleted-Frees o (some i) e = ground (arith, terminated_of_eot st o i e)

  prepared-Frees : (p : ObjectState) → IsSound p → Frees p (collect_prepared st condition p)
  unfolding collect_prepared
  prepared-Frees (owned (Ownership.created o)) s = created-Frees o _ refl
  prepared-Frees (owned (Ownership.protected o)) s = ground arith
  prepared-Frees (owned (Ownership.locked o)) s = ground arith
  prepared-Frees (owned (Ownership.deleted o)) s = deleted-Frees o _ refl
  prepared-Frees (owned (Ownership.created_awaitable e)) s = (s, ((λ a. a), (λ a. a)), refl)
  prepared-Frees (owned (Ownership.protected_awaitable e)) s = (s, ((λ a. a), (λ a. a)), refl)
  prepared-Frees (owned (Ownership.locked_awaitable e)) s = (s, ((λ a. a), (λ a. a)), refl)
  prepared-Frees (owned (Ownership.deleted_awaitable e)) s = (s, ((λ a. a), (λ a. a)), refl)
  prepared-Frees (ObjectState.created i) s = ground arith
  prepared-Frees (ObjectState.deleted i) s = ground arith

  -- What holds of the object after the clean-up holds of the object before.
  cleaned-Frees :
      (object p : ObjectState) (r : Collected)
      → Freed st n object p
      → queue_of p ≡ queue_of object
      → Frees p r
      → Frees object r
  cleaned-Frees object p (none, l) f q (a, e) = (f.0 a, cc)
  cleaned-Frees object p (some left, l) f q (s, g, e) =
      (s, ((λ a. f.0 (g.0 a)), (λ a. f.1 (g.1 a))), e ∙ q)

  collected-Collects :
      (object : ObjectState) (p : Option ObjectState) (r : Collected)
      → prepare_ownership_transfer st object ≡ p
      → KeptObject object p
      → elim p [ none ↦ none | some p ↦ some (collect_prepared st condition p) ] ≡ some r
      → Collects object r
  collected-Collects object none r e k h = cc
  collected-Collects object (some p) r e (s, q, d) h =
      let same : collect_prepared st condition p ≡ r = cc in
      subst (Collects object) same (
        cleaned-Frees object p (collect_prepared st condition p) (prepare-Freed st n object p e) q
            (prepared-Frees p s),
        (p, e, prepared-Decides p),
      )

  -- On an object of a sound shape, the collection cleans the object up first. If that does not
  -- panic, it removes the data of an object only if no request waits for it and its owners are no
  -- obstacle to the journal `n`, whichever journal that is, and only for these reasons: a lock or a
  -- protection has ended, a creation or a deletion was undone (its instant is 0), or its instant,
  -- which is not 0, satisfies the condition. The notifier is told the instant 0 of a creation that
  -- was undone, and the instant of a deletion that was not, and nothing else. An object that is
  -- left keeps its shape, its waiting requests and every owner that has not let go; once its
  -- creation or deletion has ended at an instant that is not 0 and does not satisfy the condition,
  -- it holds that instant, and otherwise it stays as it is.
  pub collect-Collects :
      (object : ObjectState) (r : Collected)
      → IsSound object
      → collect st condition object ≡ some r
      → Collects object r
  unfolding collect
  collect-Collects object r s h = collected-Collects object _ r refl (prepare-Kept st object s) h
