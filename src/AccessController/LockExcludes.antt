-- ===== src/AccessController/LockExcludes.antt =====
-- src/access_controller.rs: a lock is granted only when every owner has let go of the object.
use elektro_em_eukal.Base.{
  Outcome, done, out_of_rounds, panicked, ℕ, zero, suc, ◌≡◌, refl, true, false, Option, none, some,
  List, arith, All,
}
use elektro_em_eukal.Anchors.{Store, ok, err}
use elektro_em_eukal.Access.{grant_write_access}
use elektro_em_eukal.AccessController.Object.{
  Ownership, exclusive, ObjectState, owned, retain_active,
}
use elektro_em_eukal.AccessController.Prepare.{prepare_ownership_transfer}
use elektro_em_eukal.AccessController.Exclusive.{Attempt}
use elektro_em_eukal.AccessController.Lock.{lock_prepared, try_lock}
use elektro_em_eukal.AccessController.Owners.{
  HasLetGo, owners_of, terminated_of_ended, linearizable_of_test, retain_active-HasLetGo,
  compatible-HasLetGo,
}
use elektro_em_eukal.AccessController.Freed.{prepare-Freed}

-- The object is locked by `n`.
abbrev pub IsLockedBy : ℕ → ObjectState → Type 0
IsLockedBy n (owned (Ownership.created o)) = ⊥
IsLockedBy n (owned (Ownership.created_awaitable (exclusive i o p q))) = ⊥
IsLockedBy n (owned (Ownership.protected o)) = ⊥
IsLockedBy n (owned (Ownership.protected_awaitable s)) = ⊥
IsLockedBy n (owned (Ownership.locked o)) = o ≡ n
IsLockedBy n (owned (Ownership.locked_awaitable (exclusive i o p q))) = o ≡ n
IsLockedBy n (owned (Ownership.deleted o)) = ⊥
IsLockedBy n (owned (Ownership.deleted_awaitable (exclusive i o p q))) = ⊥
IsLockedBy n (ObjectState.created i) = ⊥
IsLockedBy n (ObjectState.deleted i) = ⊥

-- What the owners `os` have done when `n` is granted the lock.
abbrev pub LockExcludes : Store → ℕ → List ℕ → Outcome Attempt → Type 0
LockExcludes st n os (done (object, ok (some true))) = IsLockedBy n object × All (HasLetGo st n) os
LockExcludes st n os (done (object, ok (some false))) = Unit {0}
LockExcludes st n os (done (object, ok none)) = Unit {0}
LockExcludes st n os (done (object, err e)) = Unit {0}
LockExcludes st n os panicked = Unit {0}
LockExcludes st n os out_of_rounds = Unit {0}

LockExcludes-mono :
    (st : Store) (n : ℕ) (os os' : List ℕ) (r : Outcome Attempt)
    → (All (HasLetGo st n) os → All (HasLetGo st n) os')
    → LockExcludes st n os r
    → LockExcludes st n os' r
LockExcludes-mono st n os os' (done (object, ok (some true))) m (h, a) = (h, m a)
LockExcludes-mono st n os os' (done (object, ok (some false))) m h = tt
LockExcludes-mono st n os os' (done (object, ok none)) m h = tt
LockExcludes-mono st n os os' (done (object, err e)) m h = tt
LockExcludes-mono st n os os' panicked m h = tt
LockExcludes-mono st n os os' out_of_rounds m h = tt

lock_prepared-LockExcludes :
    (retry : ObjectState → Outcome Attempt) (st : Store) (object : ObjectState) (n : ℕ)
    (deadline : Option ℕ)
    → LockExcludes st n (owners_of object) (retry object)
    → LockExcludes st n (owners_of object) (lock_prepared retry st object n deadline)
unfolding lock_prepared
lock_prepared-LockExcludes retry st (owned (Ownership.created o)) n deadline h =
    ground (arith, terminated_of_ended st o n)
lock_prepared-LockExcludes retry st (owned (Ownership.created_awaitable (exclusive i o p q))) n
      deadline h =
    ground (arith, terminated_of_ended st o n)
lock_prepared-LockExcludes retry st (owned (Ownership.protected o)) n deadline h =
    ground (arith, linearizable_of_test (grant_write_access st o n), terminated_of_ended st o n)
lock_prepared-LockExcludes retry st (owned (Ownership.protected_awaitable s)) n deadline h =
    ground (
      arith,
      retain_active-HasLetGo st n s.owner_set,
      compatible-HasLetGo st n (retain_active st s.owner_set),
    )
lock_prepared-LockExcludes retry st (owned (Ownership.locked o)) n deadline h =
    ground (arith, terminated_of_ended st o n)
lock_prepared-LockExcludes retry st (owned (Ownership.locked_awaitable (exclusive i o p q))) n
      deadline h =
    ground (arith, terminated_of_ended st o n)
lock_prepared-LockExcludes retry st (owned (Ownership.deleted o)) n deadline h =
    ground (arith, terminated_of_ended st o n)
lock_prepared-LockExcludes retry st (owned (Ownership.deleted_awaitable (exclusive i o p q))) n
      deadline h =
    ground (arith, terminated_of_ended st o n)
lock_prepared-LockExcludes retry st (ObjectState.created i) n deadline h = ground arith
lock_prepared-LockExcludes retry st (ObjectState.deleted i) n deadline h = ground arith

prepared-LockExcludes :
    (st : Store) (n : ℕ) (os : List ℕ) (F : ObjectState → Outcome Attempt) (v : Option ObjectState)
    → ((p : ObjectState) → v ≡ some p → LockExcludes st n os (F p))
    → LockExcludes st n os (elim v [ none ↦ panicked | some p ↦ F p ])
prepared-LockExcludes st n os F none h = tt
prepared-LockExcludes st n os F (some p) h = h p refl

-- When a lock is granted, the journal owns the object as its lock, and each owner before it had
-- ended or is an earlier, submitted journal of the same transaction or the journal itself.
pub try_lock-LockExcludes :
    (rounds : ℕ) (st : Store) (object : ObjectState) (n : ℕ) (deadline : Option ℕ)
    → LockExcludes st n (owners_of object) (try_lock rounds st object n deadline)
unfolding try_lock
try_lock-LockExcludes zero st object n deadline = tt
try_lock-LockExcludes (suc k) st object n deadline =
    prepared-LockExcludes st n (owners_of object) _ (prepare_ownership_transfer st object) λ p e.
      LockExcludes-mono st n (owners_of p) (owners_of object) _ (prepare-Freed st n object p e).0 (
        lock_prepared-LockExcludes (λ again. try_lock k st again n deadline) st p n deadline
          (try_lock-LockExcludes k st p n deadline))
