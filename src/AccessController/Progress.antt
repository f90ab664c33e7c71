-- ===== src/AccessController/Progress.antt =====
-- src/access_controller.rs: each retry of `try_share`, `try_lock` and `try_delete` follows the
-- revocation of a promotion.
use elektro_em_eukal.Base.{
  ℕ, suc, ◌≤◌, ◌<◌, ◌≡◌, sym, subst, Bool, true, false, ◌&&◌, Option, none, some, List, [], ◌∷◌,
  arith,
}
use elektro_em_eukal.Anchors.{Store, eot_instant, is_rolled_back}
use elektro_em_eukal.Access.{Relationship, grant_write_access}
use elektro_em_eukal.AccessController.Object.{
  Request, Ownership, exclusive, PriorOwnership, no_prior, prior, ObjectState, owned, has_prior,
  depth, prior_depth,
}
use elektro_em_eukal.AccessController.Prepare.{
  revoke_promoted, revoke, settle, prepare_ownership_transfer,
}
use elektro_em_eukal.AccessController.Requests.{rounds_for}
use elektro_em_eukal.AccessController.Shape.{IsSound, IsSoundOwnership, IsLockPrior, IsDeletePrior}
use elektro_em_eukal.AccessController.Sound.{settle-Kept}

-- A transaction that was rolled back has rolled its journals back.
abbrev pub RollsJournalsBack : Store → Type 0
RollsJournalsBack st = (j : ℕ) → eot_instant st j ≡ some 0 → is_rolled_back st j ≡ true

pub rolled_back_of :
    (st : Store) (o n : ℕ)
    → RollsJournalsBack st
    → grant_write_access st o n ≡ Relationship.rolled_back
    → is_rolled_back st o ≡ true
unfolding grant_write_access
rolled_back_of st o n h e = ground (arith, h o)

-- The awaitables over which a round ends in a retry.
abbrev pub needs_retry : Store → ObjectState → Bool
needs_retry st (owned (Ownership.created o)) = false
needs_retry st (owned (Ownership.created_awaitable (exclusive i o p q))) =
    has_prior p && is_rolled_back st o
needs_retry st (owned (Ownership.protected o)) = false
needs_retry st (owned (Ownership.protected_awaitable s)) = false
needs_retry st (owned (Ownership.locked o)) = false
needs_retry st (owned (Ownership.locked_awaitable (exclusive i o p q))) =
    has_prior p && is_rolled_back st o
needs_retry st (owned (Ownership.deleted o)) = false
needs_retry st (owned (Ownership.deleted_awaitable (exclusive i o p q))) =
    has_prior p && is_rolled_back st o
needs_retry st (ObjectState.created i) = false
needs_retry st (ObjectState.deleted i) = false

-- What the clean-up leaves to be retried has fewer promotions than there were.
abbrev Progress : Store → ℕ → Option Ownership → Type 0
Progress st n none = Unit {0}
Progress st n (some w) = needs_retry st (owned w) ≡ true → depth w < n

revoke_lock-Progress :
    (st : Store) (i o : ℕ) (p : PriorOwnership) (q : List Request)
    → IsLockPrior p
    → Progress st
        (prior_depth p)
        (revoke_promoted st (Ownership.locked_awaitable (exclusive i o p q)) o p q)
unfolding revoke_promoted depth
revoke_lock-Progress st i o no_prior q h = ground arith
revoke_lock-Progress st i o (prior (Ownership.protected p)) [] h = ground arith
revoke_lock-Progress st i o (prior (Ownership.protected p)) (r ∷ q) h = ground arith
revoke_lock-Progress st i o (prior (Ownership.protected_awaitable s)) [] h = ground arith
revoke_lock-Progress st i o (prior (Ownership.protected_awaitable s)) (r ∷ q) h = ground arith
revoke_lock-Progress st i o (prior (Ownership.created p)) q h = absurd h
revoke_lock-Progress st i o (prior (Ownership.created_awaitable p)) q h = absurd h
revoke_lock-Progress st i o (prior (Ownership.locked p)) q h = absurd h
revoke_lock-Progress st i o (prior (Ownership.locked_awaitable p)) q h = absurd h
revoke_lock-Progress st i o (prior (Ownership.deleted p)) q h = absurd h
revoke_lock-Progress st i o (prior (Ownership.deleted_awaitable p)) q h = absurd h

Progress-weaken :
    (st : Store) (m n : ℕ) (v : Option Ownership) → m ≤ n → Progress st m v → Progress st n v
Progress-weaken st m n none h p = tt
Progress-weaken st m n (some w) h p = λ e. omega (arith, p e)

revoke_delete-Progress :
    (st : Store) (i o : ℕ) (p : PriorOwnership) (q : List Request)
    → IsDeletePrior p
    → Progress st
        (prior_depth p)
        (revoke_promoted st (Ownership.deleted_awaitable (exclusive i o p q)) o p q)
unfolding revoke_promoted depth
revoke_delete-Progress st i o no_prior q h = ground arith
revoke_delete-Progress st i o (prior (Ownership.created p)) [] h = ground arith
revoke_delete-Progress st i o (prior (Ownership.created p)) (r ∷ q) h = ground arith
revoke_delete-Progress st i o (prior (Ownership.created_awaitable (exclusive j p pr q'))) [] h =
    ground arith
revoke_delete-Progress st i o (prior (Ownership.created_awaitable (exclusive j p pr q'))) (r ∷ q)
      h =
    ground arith
revoke_delete-Progress st i o (prior (Ownership.protected p)) [] h = ground arith
revoke_delete-Progress st i o (prior (Ownership.protected p)) (r ∷ q) h = ground arith
revoke_delete-Progress st i o (prior (Ownership.protected_awaitable s)) [] h = ground arith
revoke_delete-Progress st i o (prior (Ownership.protected_awaitable s)) (r ∷ q) h = ground arith
revoke_delete-Progress st i o (prior (Ownership.locked p)) [] h = ground arith
revoke_delete-Progress st i o (prior (Ownership.locked p)) (r ∷ q) h = ground arith
revoke_delete-Progress st i o (prior (Ownership.locked_awaitable (exclusive j p pr q'))) [] h =
    ground arith
revoke_delete-Progress st i o (prior (Ownership.locked_awaitable (exclusive j p pr q'))) (r ∷ q) h =
    ground (
      arith,
      Progress-weaken st _ (suc (prior_depth pr)) _ (omega arith)
          (revoke_lock-Progress st j p pr (r ∷ q) h.0),
    )
revoke_delete-Progress st i o (prior (Ownership.deleted p)) q h = absurd h
revoke_delete-Progress st i o (prior (Ownership.deleted_awaitable p)) q h = absurd h

revoke-Progress :
    (st : Store) (w : Ownership) → IsSoundOwnership w → Progress st (depth w) (revoke st w)
unfolding revoke depth
revoke-Progress st (Ownership.created o) h = ground arith
revoke-Progress st (Ownership.created_awaitable (exclusive i o p q)) h = ground arith
revoke-Progress st (Ownership.protected o) h = ground arith
revoke-Progress st (Ownership.protected_awaitable s) h = ground arith
revoke-Progress st (Ownership.locked o) h = ground arith
revoke-Progress st (Ownership.locked_awaitable (exclusive i o p q)) h =
    revoke_lock-Progress st i o p q h
revoke-Progress st (Ownership.deleted o) h = ground arith
revoke-Progress st (Ownership.deleted_awaitable (exclusive i o p q)) h =
    revoke_delete-Progress st i o p q h

needs_retry-settle :
    (st : Store) (w : Ownership)
    → needs_retry st (settle st w) ≡ true
    → needs_retry st (owned w) ≡ true
unfolding settle
needs_retry-settle st (Ownership.created o) = ground arith
needs_retry-settle st (Ownership.created_awaitable (exclusive i o p q)) = ground arith
needs_retry-settle st (Ownership.protected o) = ground arith
needs_retry-settle st (Ownership.protected_awaitable s) = ground arith
needs_retry-settle st (Ownership.locked o) = ground arith
needs_retry-settle st (Ownership.locked_awaitable (exclusive i o p q)) = ground arith
needs_retry-settle st (Ownership.deleted o) = ground arith
needs_retry-settle st (Ownership.deleted_awaitable (exclusive i o p q)) = ground arith

settled-Progress :
    (st : Store) (n : ℕ) (v : Option Ownership) (p : ObjectState)
    → Progress st n v
    → elim v [ none ↦ none | some w ↦ some (settle st w) ] ≡ some p
    → needs_retry st p ≡ true
    → rounds_for p < suc n
settled-Progress st n none p h e x = cc
settled-Progress st n (some w) p h e x =
    let same : settle st w ≡ p = cc in
    rw (← same) (
      omega (
        arith,
        (settle-Kept st w).1,
        h (needs_retry-settle st w (subst (λ y. needs_retry st y ≡ true) (sym same) x)),
      ))

pub prepared-Progress :
    (st : Store) (object p : ObjectState)
    → IsSound object
    → prepare_ownership_transfer st object ≡ some p
    → needs_retry st p ≡ true
    → rounds_for p < rounds_for object
unfolding prepare_ownership_transfer rounds_for
prepared-Progress st (owned w) p s e x =
    settled-Progress st (depth w) (revoke st w) p (revoke-Progress st w s) e x
prepared-Progress st (ObjectState.created i) p s e x =
    let same : p ≡ ObjectState.created i = cc in cc (subst (λ y. needs_retry st y ≡ true) same x)
prepared-Progress st (ObjectState.deleted i) p s e x =
    let same : p ≡ ObjectState.deleted i = cc in cc (subst (λ y. needs_retry st y ≡ true) same x)

pub rounds_for-pos : (object : ObjectState) → 0 < rounds_for object
unfolding rounds_for
rounds_for-pos (owned w) = omega arith
rounds_for-pos (ObjectState.created i) = omega arith
rounds_for-pos (ObjectState.deleted i) = omega arith
