-- ===== src/AccessController/DeleteExcludes.antt =====
-- src/access_controller.rs: a deletion is granted only when every owner has let go of the object.
use elektro_em_eukal.Base.{
  Outcome, done, out_of_rounds, panicked, ℕ, zero, suc, ◌≡◌, refl, true, false, Option, none, some,
  List, arith, All,
}
use elektro_em_eukal.Anchors.{Store, ok, err}
use elektro_em_eukal.Access.{grant_write_access}
use elektro_em_eukal.AccessController.Object.{
  Ownership, exclusive, ObjectState, owned, retain_active,
}
use elektro_em_eukal.AccessController.Prepare.{prepare_ownership_transfer}
use elektro_em_eukal.AccessController.Exclusive.{Attempt}
use elektro_em_eukal.AccessController.Delete.{delete_prepared, try_delete}
use elektro_em_eukal.AccessController.Owners.{
  HasLetGo, owners_of, terminated_of_ended, linearizable_of_test, retain_active-HasLetGo,
  compatible-HasLetGo,
}
use elektro_em_eukal.AccessController.Freed.{prepare-Freed}

-- The object is being deleted by `n`.
abbrev pub IsDeletedBy : ℕ → ObjectState → Type 0
IsDeletedBy n (owned (Ownership.created o)) = ⊥
IsDeletedBy n (owned (Ownership.created_awaitable (exclusive i o p q))) = ⊥
IsDeletedBy n (owned (Ownership.protected o)) = ⊥
IsDeletedBy n (owned (Ownership.protected_awaitable s)) = ⊥
IsDeletedBy n (owned (Ownership.locked o)) = ⊥
IsDeletedBy n (owned (Ownership.locked_awaitable (exclusive i o p q))) = ⊥
IsDeletedBy n (owned (Ownership.deleted o)) = o ≡ n
IsDeletedBy n (owned (Ownership.deleted_awaitable (exclusive i o p q))) = o ≡ n
IsDeletedBy n (ObjectState.created i) = ⊥
IsDeletedBy n (ObjectState.deleted i) = ⊥

-- What the owners `os` have done when `n` is granted the deletion.
abbrev pub DeleteExcludes : Store → ℕ → List ℕ → Outcome Attempt → Type 0
DeleteExcludes st n os (done (object, ok (some true))) =
    IsDeletedBy n object × All (HasLetGo st n) os
DeleteExcludes st n os (done (object, ok (some false))) = Unit {0}
DeleteExcludes st n os (done (object, ok none)) = Unit {0}
DeleteExcludes st n os (done (object, err e)) = Unit {0}
DeleteExcludes st n os panicked = Unit {0}
DeleteExcludes st n os out_of_rounds = Unit {0}

DeleteExcludes-mono :
    (st : Store) (n : ℕ) (os os' : List ℕ) (r : Outcome Attempt)
    → (All (HasLetGo st n) os → All (HasLetGo st n) os')
    → DeleteExcludes st n os r
    → DeleteExcludes st n os' r
DeleteExcludes-mono st n os os' (done (object, ok (some true))) m (h, a) = (h, m a)
DeleteExcludes-mono st n os os' (done (object, ok (some false))) m h = tt
DeleteExcludes-mono st n os os' (done (object, ok none)) m h = tt
DeleteExcludes-mono st n os os' (done (object, err e)) m h = tt
DeleteExcludes-mono st n os os' panicked m h = tt
DeleteExcludes-mono st n os os' out_of_rounds m h = tt

delete_prepared-DeleteExcludes :
    (retry : ObjectState → Outcome Attempt) (st : Store) (object : ObjectState) (n : ℕ)
    (deadline : Option ℕ)
    → DeleteExcludes st n (owners_of object) (retry object)
    → DeleteExcludes st n (owners_of object) (delete_prepared retry st object n deadline)
unfolding delete_prepared
delete_prepared-DeleteExcludes retry st (owned (Ownership.created o)) n deadline h =
    ground (arith, terminated_of_ended st o n)
delete_prepared-DeleteExcludes retry st (owned (Ownership.created_awaitable (exclusive i o p q))) n
      deadline h =
    ground (arith, terminated_of_ended st o n)
delete_prepared-DeleteExcludes retry st (owned (Ownership.protected o)) n deadline h =
    ground (arith, linearizable_of_test (grant_write_access st o n), terminated_of_ended st o n)
delete_prepared-DeleteExcludes retry st (owned (Ownership.protected_awaitable s)) n deadline h =
    ground (
      arith,
      retain_active-HasLetGo st n s.owner_set,
      compatible-HasLetGo st n (retain_active st s.owner_set),
    )
delete_prepared-DeleteExcludes retry st (owned (Ownership.locked o)) n deadline h =
    ground (arith, terminated_of_ended st o n)
delete_prepared-DeleteExcludes retry st (owned (Ownership.locked_awaitable (exclusive i o p q))) n
      deadline h =
    ground (arith, terminated_of_ended st o n)
delete_prepared-DeleteExcludes retry st (owned (Ownership.deleted o)) n deadline h =
    ground (arith, terminated_of_ended st o n)
delete_prepared-DeleteExcludes retry st (owned (Ownership.deleted_awaitable (exclusive i o p q))) n
      deadline h =
    ground (arith, terminated_of_ended st o n)
delete_prepared-DeleteExcludes retry st (ObjectState.created i) n deadline h = ground arith
delete_prepared-DeleteExcludes retry st (ObjectState.deleted i) n deadline h = ground arith

prepared-DeleteExcludes :
    (st : Store) (n : ℕ) (os : List ℕ) (F : ObjectState → Outcome Attempt) (v : Option ObjectState)
    → ((p : ObjectState) → v ≡ some p → DeleteExcludes st n os (F p))
    → DeleteExcludes st n os (elim v [ none ↦ panicked | some p ↦ F p ])
prepared-DeleteExcludes st n os F none h = tt
prepared-DeleteExcludes st n os F (some p) h = h p refl

-- When a deletion is granted, the journal owns the object to delete it, and each owner before it
-- had ended or is an earlier, submitted journal of the same transaction or the journal itself.
pub try_delete-DeleteExcludes :
    (rounds : ℕ) (st : Store) (object : ObjectState) (n : ℕ) (deadline : Option ℕ)
    → DeleteExcludes st n (owners_of object) (try_delete rounds st object n deadline)
unfolding try_delete
try_delete-DeleteExcludes zero st object n deadline = tt
try_delete-DeleteExcludes (suc k) st object n deadline =
    prepared-DeleteExcludes st n (owners_of object) _ (prepare_ownership_transfer st object) λ p e.
      DeleteExcludes-mono st n (owners_of p) (owners_of object) _ (prepare-Freed st n object p e).0
        (delete_prepared-DeleteExcludes (λ again. try_delete k st again n deadline) st p n deadline
          (try_delete-DeleteExcludes k st p n deadline))
