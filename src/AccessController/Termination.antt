-- ===== src/AccessController/Termination.antt =====
-- src/access_controller.rs: the retry loops of `try_share`, `try_lock` and `try_delete` end within
-- the rounds that they are given, one more than the promotions that can be revoked.
use elektro_em_eukal.Base.{
  Outcome, done, out_of_rounds, panicked, ℕ, zero, suc, ◌≤◌, ◌≡◌, refl, Bool, true, false, Option,
  none, some, arith, is_some, not,
}
use elektro_em_eukal.Anchors.{Store}
use elektro_em_eukal.AccessController.Object.{Ownership, exclusive, ObjectState, owned}
use elektro_em_eukal.AccessController.Prepare.{prepare_ownership_transfer}
use elektro_em_eukal.AccessController.Exclusive.{Attempt}
use elektro_em_eukal.AccessController.Share.{share_prepared, try_share}
use elektro_em_eukal.AccessController.Lock.{lock_prepared, try_lock}
use elektro_em_eukal.AccessController.Delete.{delete_prepared, try_delete}
use elektro_em_eukal.AccessController.Requests.{rounds_for}
use elektro_em_eukal.AccessController.Shape.{IsSound}
use elektro_em_eukal.AccessController.Waiters.{prepared-IsSound}
use elektro_em_eukal.AccessController.Progress.{
  RollsJournalsBack, rolled_back_of, needs_retry, prepared-Progress, rounds_for-pos,
}
use elektro_em_eukal.AccessController.Panic.{is_stuck, prepare-some_iff, prepared-unstuck}

-- A run that ends by a result.
abbrev pub IsDone : {A : Type 0} → Outcome A → Type 0
IsDone (done a) = Unit {0}
IsDone panicked = ⊥
IsDone out_of_rounds = ⊥

-- A run on an object that ends: by a panic if the object is stuck, and by a result otherwise.
abbrev pub Ends : {A : Type 0} → Bool → Outcome A → Type 0
Ends true r = r ≡ panicked
Ends false r = IsDone r

prepared-Ends :
    (F : ObjectState → Outcome Attempt) (v : Option ObjectState) (stuck : Bool)
    → is_some v ≡ not stuck
    → ((p : ObjectState) → v ≡ some p → IsDone (F p))
    → Ends stuck (elim v [ none ↦ panicked | some p ↦ F p ])
prepared-Ends F none true e h = refl
prepared-Ends F none false e h = absurd cc
prepared-Ends F (some p) true e h = absurd cc
prepared-Ends F (some p) false e h = h p refl

pub unstuck-Ends : (stuck : Bool) (r : Outcome Attempt) → stuck ≡ false → Ends stuck r → IsDone r
unstuck-Ends true r e h = absurd cc
unstuck-Ends false r e h = h

module _ (retry : ObjectState → Outcome Attempt) (st : Store) (r : RollsJournalsBack st) where
  share_prepared-IsDone :
      (object : ObjectState) (n : ℕ) (deadline : Option ℕ)
      → IsSound object
      → (needs_retry st object ≡ true → IsDone (retry object))
      → IsDone (share_prepared retry st object n deadline)
  unfolding share_prepared
  share_prepared-IsDone (owned (Ownership.created o)) n deadline s h = ground arith
  share_prepared-IsDone (owned (Ownership.created_awaitable (exclusive i o p q))) n deadline s h =
      ground (arith, rolled_back_of st o n)
  share_prepared-IsDone (owned (Ownership.protected o)) n deadline s h = ground arith
  share_prepared-IsDone (owned (Ownership.protected_awaitable a)) n deadline s h = ground arith
  share_prepared-IsDone (owned (Ownership.locked o)) n deadline s h = ground arith
  share_prepared-IsDone (owned (Ownership.locked_awaitable (exclusive i o p q))) n deadline s h =
      ground (arith, rolled_back_of st o n)
  share_prepared-IsDone (owned (Ownership.deleted o)) n deadline s h = ground arith
  share_prepared-IsDone (owned (Ownership.deleted_awaitable (exclusive i o p q))) n deadline s h =
      ground (arith, rolled_back_of st o n)
  share_prepared-IsDone (ObjectState.created i) n deadline s h = ground arith
  share_prepared-IsDone (ObjectState.deleted i) n deadline s h = ground arith

  lock_prepared-IsDone :
      (object : ObjectState) (n : ℕ) (deadline : Option ℕ)
      → IsSound object
      → (needs_retry st object ≡ true → IsDone (retry object))
      → IsDone (lock_prepared retry st object n deadline)
  unfolding lock_prepared
  lock_prepared-IsDone (owned (Ownership.created o)) n deadline s h = ground arith
  lock_prepared-IsDone (owned (Ownership.created_awaitable (exclusive i o p q))) n deadline s h =
      ground (arith, rolled_back_of st o n)
  lock_prepared-IsDone (owned (Ownership.protected o)) n deadline s h = ground arith
  lock_prepared-IsDone (owned (Ownership.protected_awaitable a)) n deadline s h = ground arith
  lock_prepared-IsDone (owned (Ownership.locked o)) n deadline s h = ground arith
  lock_prepared-IsDone (owned (Ownership.locked_awaitable (exclusive i o p q))) n deadline s h =
      ground (arith, rolled_back_of st o n)
  lock_prepared-IsDone (owned (Ownership.deleted o)) n deadline s h = ground arith
  lock_prepared-IsDone (owned (Ownership.deleted_awaitable (exclusive i o p q))) n deadline s h =
      ground (arith, rolled_back_of st o n)
  lock_prepared-IsDone (ObjectState.created i) n deadline s h = ground arith
  lock_prepared-IsDone (ObjectState.deleted i) n deadline s h = ground arith

  delete_prepared-IsDone :
      (object : ObjectState) (n : ℕ) (deadline : Option ℕ)
      → IsSound object
      → (needs_retry st object ≡ true → IsDone (retry object))
      → IsDone (delete_prepared retry st object n deadline)
  unfolding delete_prepared
  delete_prepared-IsDone (owned (Ownership.created o)) n deadline s h = ground arith
  delete_prepared-IsDone (owned (Ownership.created_awaitable (exclusive i o p q))) n deadline s h =
      ground (arith, rolled_back_of st o n)
  delete_prepared-IsDone (owned (Ownership.protected o)) n deadline s h = ground arith
  delete_prepared-IsDone (owned (Ownership.protected_awaitable a)) n deadline s h = ground arith
  delete_prepared-IsDone (owned (Ownership.locked o)) n deadline s h = ground arith
  delete_prepared-IsDone (owned (Ownership.locked_awaitable (exclusive i o p q))) n deadline s h =
      ground (arith, rolled_back_of st o n)
  delete_prepared-IsDone (owned (Ownership.deleted o)) n deadline s h = ground arith
  delete_prepared-IsDone (owned (Ownership.deleted_awaitable (exclusive i o p q))) n deadline s h =
      ground (arith, rolled_back_of st o n)
  delete_prepared-IsDone (ObjectState.created i) n deadline s h = ground arith
  delete_prepared-IsDone (ObjectState.deleted i) n deadline s h = ground arith

-- With one round more than the promotions that can be revoked, the retry loop of `try_share` ends,
-- by the panic of the clean-up if the object is stuck and by a result otherwise, on a store where a
-- transaction that was rolled back has rolled its journals back.
pub try_share-Ends :
    (k : ℕ) (st : Store) (object : ObjectState) (n : ℕ) (deadline : Option ℕ)
    → RollsJournalsBack st
    → IsSound object
    → rounds_for object ≤ k
    → Ends (is_stuck st object) (try_share k st object n deadline)
unfolding try_share
try_share-Ends zero st object n deadline r s h = absurd (omega (arith, rounds_for-pos object))
try_share-Ends (suc k) st object n deadline r s h =
    prepared-Ends _ (prepare_ownership_transfer st object) (is_stuck st object)
      (prepare-some_iff st object s)
      λ p e.
        let sound = prepared-IsSound st object p s e in
        share_prepared-IsDone (λ again. try_share k st again n deadline) st r p n deadline sound
          λ x. unstuck-Ends (is_stuck st p) _ (prepared-unstuck st object p s e) (
            try_share-Ends k st p n deadline r sound
              (omega (arith, prepared-Progress st object p s e x)))

-- With one round more than the promotions that can be revoked, the retry loop of `try_lock` ends,
-- by the panic of the clean-up if the object is stuck and by a result otherwise, on a store where a
-- transaction that was rolled back has rolled its journals back.
pub try_lock-Ends :
    (k : ℕ) (st : Store) (object : ObjectState) (n : ℕ) (deadline : Option ℕ)
    → RollsJournalsBack st
    → IsSound object
    → rounds_for object ≤ k
    → Ends (is_stuck st object) (try_lock k st object n deadline)
unfolding try_lock
try_lock-Ends zero st object n deadline r s h = absurd (omega (arith, rounds_for-pos object))
try_lock-Ends (suc k) st object n deadline r s h =
    prepared-Ends _ (prepare_ownership_transfer st object) (is_stuck st object)
      (prepare-some_iff st object s)
      λ p e.
        let sound = prepared-IsSound st object p s e in
        lock_prepared-IsDone (λ again. try_lock k st again n deadline) st r p n deadline sound
          λ x. unstuck-Ends (is_stuck st p) _ (prepared-unstuck st object p s e) (
            try_lock-Ends k st p n deadline r sound
              (omega (arith, prepared-Progress st object p s e x)))

-- With one round more than the promotions that can be revoked, the retry loop of `try_delete` ends,
-- by the panic of the clean-up if the object is stuck and by a result otherwise, on a store where a
-- transaction that was rolled back has rolled its journals back.
pub try_delete-Ends :
    (k : ℕ) (st : Store) (object : ObjectState) (n : ℕ) (deadline : Option ℕ)
    → RollsJournalsBack st
    → IsSound object
    → rounds_for object ≤ k
    → Ends (is_stuck st object) (try_delete k st object n deadline)
unfolding try_delete
try_delete-Ends zero st object n deadline r s h = absurd (omega (arith, rounds_for-pos object))
try_delete-Ends (suc k) st object n deadline r s h =
    prepared-Ends _ (prepare_ownership_transfer st object) (is_stuck st object)
      (prepare-some_iff st object s)
      λ p e.
        let sound = prepared-IsSound st object p s e in
        delete_prepared-IsDone (λ again. try_delete k st again n deadline) st r p n deadline sound
          λ x. unstuck-Ends (is_stuck st p) _ (prepared-unstuck st object p s e) (
            try_delete-Ends k st p n deadline r sound
              (omega (arith, prepared-Progress st object p s e x)))

-- With one round more than the promotions that can be revoked, the retry loops of `try_share`,
-- `try_lock` and `try_delete` end, by the panic of the clean-up if the object is stuck and by a result
-- otherwise, on a store where a transaction that was rolled back has rolled its journals back.
pub try_access-Ends :
    (k : ℕ) (st : Store) (object : ObjectState) (n : ℕ) (deadline : Option ℕ)
    → RollsJournalsBack st
    → IsSound object
    → rounds_for object ≤ k
    → Ends (is_stuck st object) (try_share k st object n deadline)
      × Ends (is_stuck st object) (try_lock k st object n deadline)
      × Ends (is_stuck st object) (try_delete k st object n deadline)
try_access-Ends k st object n deadline r s h = (
  try_share-Ends k st object n deadline r s h,
  try_lock-Ends k st object n deadline r s h,
  try_delete-Ends k st object n deadline r s h,
)
