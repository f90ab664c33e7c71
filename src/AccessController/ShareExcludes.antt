-- ===== src/AccessController/ShareExcludes.antt =====
-- src/access_controller.rs: shared ownership is granted only when every exclusive owner has let go
-- of the object.
use elektro_em_eukal.Base.{
  Outcome, done, out_of_rounds, panicked, ℕ, zero, suc, ◌≡◌, refl, ◌⊎◌, inl, true, false, Option,
  none, some, List, [], ◌∷◌, arith, All,
}
use elektro_em_eukal.Anchors.{Store, ok, err}
use elektro_em_eukal.AccessController.Object.{
  Ownership, exclusive, ObjectState, owned, insert_owner,
}
use elektro_em_eukal.AccessController.Prepare.{prepare_ownership_transfer}
use elektro_em_eukal.AccessController.Exclusive.{Attempt}
use elektro_em_eukal.AccessController.Share.{share_prepared, try_share}
use elektro_em_eukal.AccessController.Owners.{HasLetGo, exclusive_owners_of, terminated_of_ended}
use elektro_em_eukal.AccessController.Freed.{prepare-Freed}

-- An owner set holds `n`.
abbrev pub IsAmong : ℕ → List ℕ → Type 0
IsAmong n [] = ⊥
IsAmong n (o ∷ os) = (o ≡ n) ⊎ IsAmong n os

insert_owner-IsAmong : (n : ℕ) (os : List ℕ) → IsAmong n (insert_owner n os)
unfolding insert_owner
insert_owner-IsAmong n [] = inl refl
insert_owner-IsAmong n (o ∷ os) = ground (arith, insert_owner-IsAmong n os)

-- The object is protected, among others, by `n`.
abbrev pub IsSharedBy : ℕ → ObjectState → Type 0
IsSharedBy n (owned (Ownership.created o)) = ⊥
IsSharedBy n (owned (Ownership.created_awaitable (exclusive i o p q))) = ⊥
IsSharedBy n (owned (Ownership.protected o)) = o ≡ n
IsSharedBy n (owned (Ownership.protected_awaitable s)) = IsAmong n s.owner_set
IsSharedBy n (owned (Ownership.locked o)) = ⊥
IsSharedBy n (owned (Ownership.locked_awaitable (exclusive i o p q))) = ⊥
IsSharedBy n (owned (Ownership.deleted o)) = ⊥
IsSharedBy n (owned (Ownership.deleted_awaitable (exclusive i o p q))) = ⊥
IsSharedBy n (ObjectState.created i) = ⊥
IsSharedBy n (ObjectState.deleted i) = ⊥

-- What the owners `os` have done when `n` is granted shared ownership.
abbrev pub ShareExcludes : Store → ℕ → List ℕ → Outcome Attempt → Type 0
ShareExcludes st n os (done (object, ok (some true))) = IsSharedBy n object × All (HasLetGo st n) os
ShareExcludes st n os (done (object, ok (some false))) = Unit {0}
ShareExcludes st n os (done (object, ok none)) = Unit {0}
ShareExcludes st n os (done (object, err e)) = Unit {0}
ShareExcludes st n os panicked = Unit {0}
ShareExcludes st n os out_of_rounds = Unit {0}

ShareExcludes-mono :
    (st : Store) (n : ℕ) (os os' : List ℕ) (r : Outcome Attempt)
    → (All (HasLetGo st n) os → All (HasLetGo st n) os')
    → ShareExcludes st n os r
    → ShareExcludes st n os' r
ShareExcludes-mono st n os os' (done (object, ok (some true))) m (h, a) = (h, m a)
ShareExcludes-mono st n os os' (done (object, ok (some false))) m h = tt
ShareExcludes-mono st n os os' (done (object, ok none)) m h = tt
ShareExcludes-mono st n os os' (done (object, err e)) m h = tt
ShareExcludes-mono st n os os' panicked m h = tt
ShareExcludes-mono st n os os' out_of_rounds m h = tt

share_prepared-ShareExcludes :
    (retry : ObjectState → Outcome Attempt) (st : Store) (object : ObjectState) (n : ℕ)
    (deadline : Option ℕ)
    → ShareExcludes st n (exclusive_owners_of object) (retry object)
    → ShareExcludes st n (exclusive_owners_of object) (share_prepared retry st object n deadline)
unfolding share_prepared
share_prepared-ShareExcludes retry st (owned (Ownership.created o)) n deadline h =
    ground (arith, terminated_of_ended st o n)
share_prepared-ShareExcludes retry st (owned (Ownership.created_awaitable (exclusive i o p q))) n
      deadline h =
    ground (arith, terminated_of_ended st o n)
share_prepared-ShareExcludes retry st (owned (Ownership.protected o)) n deadline h =
    ground (arith, insert_owner-IsAmong n (o ∷ []))
share_prepared-ShareExcludes retry st (owned (Ownership.protected_awaitable s)) n deadline h =
    ground (arith, insert_owner-IsAmong n s.owner_set)
share_prepared-ShareExcludes retry st (owned (Ownership.locked o)) n deadline h =
    ground (arith, terminated_of_ended st o n)
share_prepared-ShareExcludes retry st (owned (Ownership.locked_awaitable (exclusive i o p q))) n
      deadline h =
    ground (arith, terminated_of_ended st o n)
share_prepared-ShareExcludes retry st (owned (Ownership.deleted o)) n deadline h =
    ground (arith, terminated_of_ended st o n)
share_prepared-ShareExcludes retry st (owned (Ownership.deleted_awaitable (exclusive i o p q))) n
      deadline h =
    ground (arith, terminated_of_ended st o n)
share_prepared-ShareExcludes retry st (ObjectState.created i) n deadline h = ground arith
share_prepared-ShareExcludes retry st (ObjectState.deleted i) n deadline h = ground arith

prepared-ShareExcludes :
    (st : Store) (n : ℕ) (os : List ℕ) (F : ObjectState → Outcome Attempt) (v : Option ObjectState)
    → ((p : ObjectState) → v ≡ some p → ShareExcludes st n os (F p))
    → ShareExcludes st n os (elim v [ none ↦ panicked | some p ↦ F p ])
prepared-ShareExcludes st n os F none h = tt
prepared-ShareExcludes st n os F (some p) h = h p refl

-- When shared ownership is granted, the journal is among the owners that protect the object, and
-- an exclusive owner before it had ended or is an earlier, submitted journal of the same
-- transaction or the journal itself.
pub try_share-ShareExcludes :
    (rounds : ℕ) (st : Store) (object : ObjectState) (n : ℕ) (deadline : Option ℕ)
    → ShareExcludes st n (exclusive_owners_of object) (try_share rounds st object n deadline)
unfolding try_share
try_share-ShareExcludes zero st object n deadline = tt
try_share-ShareExcludes (suc k) st object n deadline =
    prepared-ShareExcludes st n (exclusive_owners_of object) _
      (prepare_ownership_transfer st object)
      λ p e.
        ShareExcludes-mono st n (exclusive_owners_of p) (exclusive_owners_of object) _
          (prepare-Freed st n object p e).1
          (share_prepared-ShareExcludes (λ again. try_share k st again n deadline) st p n deadline
            (try_share-ShareExcludes k st p n deadline))
