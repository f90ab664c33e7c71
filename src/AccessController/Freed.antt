-- ===== src/AccessController/Freed.antt =====
-- src/access_controller.rs: the clean-up before an access takes an owner away only if that owner has
-- ended, so owners that have let go afterwards had let go before.
use elektro_em_eukal.Base.{
  ℕ, ◌≡◌, refl, subst, true, false, Option, none, some, List, [], ◌∷◌, arith, All, inl, inr,
  Bool-cases,
}
use elektro_em_eukal.Anchors.{Store, is_terminated, is_rolled_back}
use elektro_em_eukal.AccessController.Object.{
  Request, Ownership, exclusive, PriorOwnership, no_prior, prior, ObjectState, owned,
}
use elektro_em_eukal.AccessController.Prepare.{revoke_promoted, settle, prepare_ownership_transfer}
use elektro_em_eukal.AccessController.Owners.{HasLetGo, owners_of, exclusive_owners_of}

pub revoke_promoted-same :
    (st : Store) (current : Ownership) (o : ℕ) (p : PriorOwnership) (q : List Request)
    → is_rolled_back st o ≡ false
    → revoke_promoted st current o p q ≡ some current
unfolding revoke_promoted
revoke_promoted-same st current o no_prior q h = refl
revoke_promoted-same st current o (prior (Ownership.created p)) q h = ground arith
revoke_promoted-same st current o (prior (Ownership.created_awaitable p)) q h = ground arith
revoke_promoted-same st current o (prior (Ownership.protected p)) q h = ground arith
revoke_promoted-same st current o (prior (Ownership.protected_awaitable p)) q h = ground arith
revoke_promoted-same st current o (prior (Ownership.locked p)) q h = ground arith
revoke_promoted-same st current o (prior (Ownership.locked_awaitable (exclusive i p pr q'))) q h =
    ground arith
revoke_promoted-same st current o (prior (Ownership.deleted p)) q h = ground arith
revoke_promoted-same st current o (prior (Ownership.deleted_awaitable p)) q h = ground arith

terminated_of_rolled_back :
    (st : Store) (o : ℕ) → is_rolled_back st o ≡ true → is_terminated st o ≡ true
unfolding is_terminated
terminated_of_rolled_back st o h = ground arith

module _ (st : Store) (n : ℕ) where
  abbrev pub Freed : ObjectState → ObjectState → Type 0
  Freed object p =
      (All (HasLetGo st n) (owners_of p) → All (HasLetGo st n) (owners_of object))
      × (All (HasLetGo st n) (exclusive_owners_of p)
          → All (HasLetGo st n) (exclusive_owners_of object))

  settle-Freed : (w : Ownership) → Freed (owned w) (settle st w)
  unfolding settle is_terminated
  settle-Freed (Ownership.created o) = ground arith
  settle-Freed (Ownership.created_awaitable (exclusive i o p q)) = ground arith
  settle-Freed (Ownership.protected o) = ground arith
  settle-Freed (Ownership.protected_awaitable s) = ground arith
  settle-Freed (Ownership.locked o) = ground arith
  settle-Freed (Ownership.locked_awaitable (exclusive i o p q)) = ground arith
  settle-Freed (Ownership.deleted o) = ground arith
  settle-Freed (Ownership.deleted_awaitable (exclusive i o p q)) = ground arith

  settled-Freed :
      (w : Ownership) (v : Option Ownership) (p : ObjectState)
      → v ≡ some w
      → elim v [ none ↦ none | some w ↦ some (settle st w) ] ≡ some p
      → Freed (owned w) p
  settled-Freed w none p h e = cc
  settled-Freed w (some v) p h e =
      let same : settle st w ≡ p = cc in subst (Freed (owned w)) same (settle-Freed w)

  -- A promoted owner is rolled back, or the revocation changes nothing.
  promoted-Freed :
      (w : Ownership) (o : ℕ) (pr : PriorOwnership) (q : List Request) (p : ObjectState)
      → owners_of (owned w) ≡ o ∷ []
      → exclusive_owners_of (owned w) ≡ o ∷ []
      → elim (revoke_promoted st w o pr q) [ none ↦ none | some w ↦ some (settle st w) ] ≡ some p
      → Freed (owned w) p
  promoted-Freed w o pr q p e e' h = elim (Bool-cases (is_rolled_back st o)) [
    | inl t ↦
        let gone : All (HasLetGo st n) (o ∷ []) = (inl (terminated_of_rolled_back st o t), tt) in
        ((λ _. rw e gone), (λ _. rw e' gone))
    | inr f ↦ settled-Freed w _ p (revoke_promoted-same st w o pr q f) h
  ]

  -- The clean-up keeps every owner that has not let go of the object.
  pub prepare-Freed :
      (object p : ObjectState) → prepare_ownership_transfer st object ≡ some p → Freed object p
  unfolding prepare_ownership_transfer
  prepare-Freed (owned (Ownership.created o)) p e = settled-Freed (Ownership.created o) _ p refl e
  prepare-Freed (owned (Ownership.created_awaitable x)) p e =
      settled-Freed (Ownership.created_awaitable x) _ p refl e
  prepare-Freed (owned (Ownership.protected o)) p e =
      settled-Freed (Ownership.protected o) _ p refl e
  prepare-Freed (owned (Ownership.protected_awaitable s)) p e =
      settled-Freed (Ownership.protected_awaitable s) _ p refl e
  prepare-Freed (owned (Ownership.locked o)) p e = settled-Freed (Ownership.locked o) _ p refl e
  prepare-Freed (owned (Ownership.locked_awaitable (exclusive i o pr q))) p e =
      promoted-Freed (Ownership.locked_awaitable (exclusive i o pr q)) o pr q p refl refl e
  prepare-Freed (owned (Ownership.deleted o)) p e = settled-Freed (Ownership.deleted o) _ p refl e
  prepare-Freed (owned (Ownership.deleted_awaitable (exclusive i o pr q))) p e =
      promoted-Freed (Ownership.deleted_awaitable (exclusive i o pr q)) o pr q p refl refl e
  prepare-Freed (ObjectState.created i) p e =
      let same : ObjectState.created i ≡ p = cc in
      subst (Freed (ObjectState.created i)) same ((λ a. a), (λ a. a))
  prepare-Freed (ObjectState.deleted i) p e =
      let same : ObjectState.deleted i ≡ p = cc in
      subst (Freed (ObjectState.deleted i)) same ((λ a. a), (λ a. a))
