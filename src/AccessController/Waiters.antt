-- ===== src/AccessController/Waiters.antt =====
-- src/access_controller.rs: `try_share`, `try_lock` and `try_delete` keep the shape of an object
-- and every request that waits for it.
use elektro_em_eukal.Base.{
  Outcome, done, out_of_rounds, panicked, ℕ, zero, suc, ◌≡◌, refl, subst, Bool, Option, none, some,
  List, arith,
}
use elektro_em_eukal.Anchors.{Store, Result, ok, err}
use elektro_em_eukal.AccessController.Object.{
  Request, Ownership, exclusive, ObjectState, owned, queue_of,
}
use elektro_em_eukal.AccessController.Prepare.{prepare_ownership_transfer}
use elektro_em_eukal.AccessController.Exclusive.{Attempt}
use elektro_em_eukal.AccessController.Share.{share_prepared, try_share}
use elektro_em_eukal.AccessController.Lock.{lock_prepared, try_lock}
use elektro_em_eukal.AccessController.Delete.{delete_prepared, try_delete}
use elektro_em_eukal.AccessController.Shape.{IsSound}
use elektro_em_eukal.AccessController.Sound.{KeptObject, prepare-Kept}

-- A request waits only for an object that has an owner.
abbrev pub IsOwned : ObjectState → Type 0
IsOwned (owned w) = Unit {0}
IsOwned (ObjectState.created i) = ⊥
IsOwned (ObjectState.deleted i) = ⊥

abbrev pub OwnedIfWaiting : ObjectState → Result (Option Bool) → Type 0
OwnedIfWaiting object (ok none) = IsOwned object
OwnedIfWaiting object (ok (some b)) = Unit {0}
OwnedIfWaiting object (err e) = Unit {0}

-- The outcome of an access leaves a sound object with the queue `q`.
abbrev pub Serves : List Request → Outcome Attempt → Type 0
Serves q (done (object, r)) = IsSound object × (queue_of object ≡ q) × OwnedIfWaiting object r
Serves q panicked = Unit {0}
Serves q out_of_rounds = Unit {0}

module _ (retry : ObjectState → Outcome Attempt) (st : Store) where
  share_prepared-Serves :
      (object : ObjectState) (n : ℕ) (deadline : Option ℕ)
      → IsSound object
      → Serves (queue_of object) (retry object)
      → Serves (queue_of object) (share_prepared retry st object n deadline)
  unfolding share_prepared
  share_prepared-Serves (owned (Ownership.created o)) n deadline h again = ground arith
  share_prepared-Serves (owned (Ownership.created_awaitable (exclusive i o p q))) n deadline h
        again =
      ground arith
  share_prepared-Serves (owned (Ownership.protected o)) n deadline h again = ground arith
  share_prepared-Serves (owned (Ownership.protected_awaitable s)) n deadline h again = ground arith
  share_prepared-Serves (owned (Ownership.locked o)) n deadline h again = ground arith
  share_prepared-Serves (owned (Ownership.locked_awaitable (exclusive i o p q))) n deadline h
        again =
      ground arith
  share_prepared-Serves (owned (Ownership.deleted o)) n deadline h again = ground arith
  share_prepared-Serves (owned (Ownership.deleted_awaitable (exclusive i o p q))) n deadline h
        again =
      ground arith
  share_prepared-Serves (ObjectState.created i) n deadline h again = ground arith
  share_prepared-Serves (ObjectState.deleted i) n deadline h again = ground arith

  lock_prepared-Serves :
      (object : ObjectState) (n : ℕ) (deadline : Option ℕ)
      → IsSound object
      → Serves (queue_of object) (retry object)
      → Serves (queue_of object) (lock_prepared retry st object n deadline)
  unfolding lock_prepared
  lock_prepared-Serves (owned (Ownership.created o)) n deadline h again = ground arith
  lock_prepared-Serves (owned (Ownership.created_awaitable (exclusive i o p q))) n deadline h
        again =
      ground arith
  lock_prepared-Serves (owned (Ownership.protected o)) n deadline h again = ground arith
  lock_prepared-Serves (owned (Ownership.protected_awaitable s)) n deadline h again = ground arith
  lock_prepared-Serves (owned (Ownership.locked o)) n deadline h again = ground arith
  lock_prepared-Serves (owned (Ownership.locked_awaitable (exclusive i o p q))) n deadline h again =
      ground arith
  lock_prepared-Serves (owned (Ownership.deleted o)) n deadline h again = ground arith
  lock_prepared-Serves (owned (Ownership.deleted_awaitable (exclusive i o p q))) n deadline h
        again =
      ground arith
  lock_prepared-Serves (ObjectState.created i) n deadline h again = ground arith
  lock_prepared-Serves (ObjectState.deleted i) n deadline h again = ground arith

  delete_prepared-Serves :
      (object : ObjectState) (n : ℕ) (deadline : Option ℕ)
      → IsSound object
      → Serves (queue_of object) (retry object)
      → Serves (queue_of object) (delete_prepared retry st object n deadline)
  unfolding delete_prepared
  delete_prepared-Serves (owned (Ownership.created o)) n deadline h again = ground arith
  delete_prepared-Serves (owned (Ownership.created_awaitable (exclusive i o p q))) n deadline h
        again =
      ground arith
  delete_prepared-Serves (owned (Ownership.protected o)) n deadline h again = ground arith
  delete_prepared-Serves (owned (Ownership.protected_awaitable s)) n deadline h again = ground arith
  delete_prepared-Serves (owned (Ownership.locked o)) n deadline h again = ground arith
  delete_prepared-Serves (owned (Ownership.locked_awaitable (exclusive i o p q))) n deadline h
        again =
      ground arith
  delete_prepared-Serves (owned (Ownership.deleted o)) n deadline h again = ground arith
  delete_prepared-Serves (owned (Ownership.deleted_awaitable (exclusive i o p q))) n deadline h
        again =
      ground arith
  delete_prepared-Serves (ObjectState.created i) n deadline h again = ground arith
  delete_prepared-Serves (ObjectState.deleted i) n deadline h again = ground arith

-- The clean-up before the access loses no request either.
prepared-Serves :
    (F : ObjectState → Outcome Attempt) (q : List Request) (v : Option ObjectState)
    → ((p : ObjectState) → v ≡ some p → Serves q (F p))
    → Serves q (elim v [ none ↦ panicked | some p ↦ F p ])
prepared-Serves F q none h = tt
prepared-Serves F q (some p) h = h p refl

Serves-moved : (q q' : List Request) (r : Outcome Attempt) → q ≡ q' → Serves q r → Serves q' r
Serves-moved q q' r e s = subst (λ x. Serves x r) e s

module _ (st : Store) (object p : ObjectState) (h : IsSound object) where
  pub prepared-IsSound : prepare_ownership_transfer st object ≡ some p → IsSound p
  prepared-IsSound e = (subst (KeptObject object) e (prepare-Kept st object h)).0

  pub queue_of-prepared :
      prepare_ownership_transfer st object ≡ some p → queue_of p ≡ queue_of object
  queue_of-prepared e = (subst (KeptObject object) e (prepare-Kept st object h)).1

-- An attempt at shared ownership that ends keeps the shape of the object and every waiting request, in
-- order, and it tells the journal to wait only for an object that has an owner.
pub try_share-Serves :
    (rounds : ℕ) (st : Store) (object : ObjectState) (n : ℕ) (deadline : Option ℕ)
    → IsSound object
    → Serves (queue_of object) (try_share rounds st object n deadline)
unfolding try_share
try_share-Serves zero st object n deadline h = tt
try_share-Serves (suc k) st object n deadline h =
    prepared-Serves _ _ (prepare_ownership_transfer st object) λ p e.
      let sound = prepared-IsSound st object p h e in
      Serves-moved _ _ _ (queue_of-prepared st object p h e) (
        share_prepared-Serves (λ again. try_share k st again n deadline) st p n deadline sound
          (try_share-Serves k st p n deadline sound))

-- An attempt at a lock that ends keeps the shape of the object and every waiting request, in
-- order, and it tells the journal to wait only for an object that has an owner.
pub try_lock-Serves :
    (rounds : ℕ) (st : Store) (object : ObjectState) (n : ℕ) (deadline : Option ℕ)
    → IsSound object
    → Serves (queue_of object) (try_lock rounds st object n deadline)
unfolding try_lock
try_lock-Serves zero st object n deadline h = tt
try_lock-Serves (suc k) st object n deadline h =
    prepared-Serves _ _ (prepare_ownership_transfer st object) λ p e.
      let sound = prepared-IsSound st object p h e in
      Serves-moved _ _ _ (queue_of-prepared st object p h e) (
        lock_prepared-Serves (λ again. try_lock k st again n deadline) st p n deadline sound
          (try_lock-Serves k st p n deadline sound))

-- An attempt at a deletion that ends keeps the shape of the object and every waiting request, in
-- order, and it tells the journal to wait only for an object that has an owner.
pub try_delete-Serves :
    (rounds : ℕ) (st : Store) (object : ObjectState) (n : ℕ) (deadline : Option ℕ)
    → IsSound object
    → Serves (queue_of object) (try_delete rounds st object n deadline)
unfolding try_delete
try_delete-Serves zero st object n deadline h = tt
try_delete-Serves (suc k) st object n deadline h =
    prepared-Serves _ _ (prepare_ownership_transfer st object) λ p e.
      let sound = prepared-IsSound st object p h e in
      Serves-moved _ _ _ (queue_of-prepared st object p h e) (
        delete_prepared-Serves (λ again. try_delete k st again n deadline) st p n deadline sound
          (try_delete-Serves k st p n deadline sound))

-- An attempt at shared ownership, a lock or a deletion that ends keeps the shape of the object and
-- every waiting request, in order, and it tells the journal to wait only for an object that has an
-- owner.
pub try_access-Serves :
    (rounds : ℕ) (st : Store) (object : ObjectState) (n : ℕ) (deadline : Option ℕ)
    → IsSound object
    → Serves (queue_of object) (try_share rounds st object n deadline)
      × Serves (queue_of object) (try_lock rounds st object n deadline)
      × Serves (queue_of object) (try_delete rounds st object n deadline)
try_access-Serves rounds st object n deadline h = (
  try_share-Serves rounds st object n deadline h,
  try_lock-Serves rounds st object n deadline h,
  try_delete-Serves rounds st object n deadline h,
)
