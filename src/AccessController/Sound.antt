-- ===== src/AccessController/Sound.antt =====
-- src/access_controller.rs: the clean-up before an access keeps the shape of an object and its
-- waiting requests.
use elektro_em_eukal.Base.{ℕ, suc, ◌≤◌, ◌≡◌, refl, Option, none, some, List, [], ◌∷◌, arith, ◌∙◌}
use elektro_em_eukal.Anchors.{Store}
use elektro_em_eukal.AccessController.Object.{
  Request, Ownership, exclusive, PriorOwnership, no_prior, prior, ObjectState, owned, queue_of,
  depth, prior_depth,
}
use elektro_em_eukal.AccessController.Requests.{rounds_for}
use elektro_em_eukal.AccessController.Shape.{IsLockPrior, IsDeletePrior, IsSoundOwnership, IsSound}
use elektro_em_eukal.AccessController.Prepare.{
  revoke_promoted, revoke, settle, prepare_ownership_transfer,
}

-- `settle` gives up awaitables only when they are unused.
settle-IsSound : (st : Store) (w : Ownership) → IsSoundOwnership w → IsSound (settle st w)
unfolding settle
settle-IsSound st (Ownership.created o) h = ground arith
settle-IsSound st (Ownership.created_awaitable (exclusive i o p q)) h = ground arith
settle-IsSound st (Ownership.protected o) h = tt
settle-IsSound st (Ownership.protected_awaitable s) h = tt
settle-IsSound st (Ownership.locked o) h = tt
settle-IsSound st (Ownership.locked_awaitable (exclusive i o p q)) h = ground arith
settle-IsSound st (Ownership.deleted o) h = ground arith
settle-IsSound st (Ownership.deleted_awaitable (exclusive i o p q)) h = ground arith

abbrev pub ownership_queue : Ownership → List Request
ownership_queue w = queue_of (owned w)

-- What one run of the revocation loop keeps, from an awaitable with the wait queue `q`.
abbrev Kept : List Request → ℕ → Option Ownership → Type 0
Kept q n none = Unit {0}
Kept q n (some w) = IsSoundOwnership w × (ownership_queue w ≡ q) × (depth w ≤ n)

revoke_lock-Kept :
    (st : Store) (i o n : ℕ) (p : PriorOwnership) (q : List Request)
    → IsLockPrior p
    → prior_depth p ≤ n
    → Kept q n (revoke_promoted st (Ownership.locked_awaitable (exclusive i o p q)) o p q)
unfolding revoke_promoted depth
revoke_lock-Kept st i o n no_prior q h d = (tt, refl, d)
revoke_lock-Kept st i o n (prior (Ownership.protected p)) [] h d = ground arith
revoke_lock-Kept st i o n (prior (Ownership.protected p)) (r ∷ q) h d = ground arith
revoke_lock-Kept st i o n (prior (Ownership.protected_awaitable s)) [] h d = ground arith
revoke_lock-Kept st i o n (prior (Ownership.protected_awaitable s)) (r ∷ q) h d = ground arith
revoke_lock-Kept st i o n (prior (Ownership.created p)) q h d = absurd h
revoke_lock-Kept st i o n (prior (Ownership.created_awaitable p)) q h d = absurd h
revoke_lock-Kept st i o n (prior (Ownership.locked p)) q h d = absurd h
revoke_lock-Kept st i o n (prior (Ownership.locked_awaitable p)) q h d = absurd h
revoke_lock-Kept st i o n (prior (Ownership.deleted p)) q h d = absurd h
revoke_lock-Kept st i o n (prior (Ownership.deleted_awaitable p)) q h d = absurd h

revoke_delete-Kept :
    (st : Store) (i o n : ℕ) (p : PriorOwnership) (q : List Request)
    → IsDeletePrior p
    → prior_depth p ≤ n
    → Kept q n (revoke_promoted st (Ownership.deleted_awaitable (exclusive i o p q)) o p q)
unfolding revoke_promoted depth
revoke_delete-Kept st i o n no_prior q h d = (tt, refl, d)
revoke_delete-Kept st i o n (prior (Ownership.created p)) [] h d = ground arith
revoke_delete-Kept st i o n (prior (Ownership.created p)) (r ∷ q) h d = ground arith
revoke_delete-Kept st i o n (prior (Ownership.created_awaitable (exclusive j p pr q'))) [] h d =
    ground arith
revoke_delete-Kept st i o n (prior (Ownership.created_awaitable (exclusive j p pr q'))) (r ∷ q) h
      d =
    ground arith
revoke_delete-Kept st i o n (prior (Ownership.protected p)) [] h d = ground arith
revoke_delete-Kept st i o n (prior (Ownership.protected p)) (r ∷ q) h d = ground arith
revoke_delete-Kept st i o n (prior (Ownership.protected_awaitable s)) [] h d = ground arith
revoke_delete-Kept st i o n (prior (Ownership.protected_awaitable s)) (r ∷ q) h d = ground arith
revoke_delete-Kept st i o n (prior (Ownership.locked p)) [] h d = ground arith
revoke_delete-Kept st i o n (prior (Ownership.locked p)) (r ∷ q) h d = ground arith
revoke_delete-Kept st i o n (prior (Ownership.locked_awaitable (exclusive j p pr q'))) [] h d =
    ground arith
revoke_delete-Kept st i o n (prior (Ownership.locked_awaitable (exclusive j p pr q'))) (r ∷ q) h d =
    ground (arith, revoke_lock-Kept st j p n pr (r ∷ q) h.0)
revoke_delete-Kept st i o n (prior (Ownership.deleted p)) q h d = absurd h
revoke_delete-Kept st i o n (prior (Ownership.deleted_awaitable p)) q h d = absurd h

revoke-Kept :
    (st : Store) (w : Ownership)
    → IsSoundOwnership w
    → Kept (ownership_queue w) (depth w) (revoke st w)
unfolding revoke depth
revoke-Kept st (Ownership.created o) h = (tt, refl, omega arith)
revoke-Kept st (Ownership.created_awaitable (exclusive i o p q)) h = (h, refl, omega arith)
revoke-Kept st (Ownership.protected o) h = (tt, refl, omega arith)
revoke-Kept st (Ownership.protected_awaitable s) h = (tt, refl, omega arith)
revoke-Kept st (Ownership.locked o) h = (tt, refl, omega arith)
revoke-Kept st (Ownership.locked_awaitable (exclusive i o p q)) h =
    revoke_lock-Kept st i o _ p q h (omega arith)
revoke-Kept st (Ownership.deleted o) h = (tt, refl, omega arith)
revoke-Kept st (Ownership.deleted_awaitable (exclusive i o p q)) h =
    revoke_delete-Kept st i o _ p q h (omega arith)

-- What the clean-up keeps of an object: its shape, its waiting requests, and at most the rounds
-- that its retry loops may need.
abbrev pub KeptObject : ObjectState → Option ObjectState → Type 0
KeptObject object none = Unit {0}
KeptObject object (some object') =
    IsSound object'
    × (queue_of object' ≡ queue_of object)
    × (rounds_for object' ≤ rounds_for object)

pub settle-Kept :
    (st : Store) (w : Ownership)
    → (queue_of (settle st w) ≡ ownership_queue w) × (rounds_for (settle st w) ≤ suc (depth w))
unfolding settle rounds_for
settle-Kept st (Ownership.created o) = ground arith
settle-Kept st (Ownership.created_awaitable (exclusive i o no_prior [])) = ground arith
settle-Kept st (Ownership.created_awaitable (exclusive i o no_prior (r ∷ q))) = ground arith
settle-Kept st (Ownership.created_awaitable (exclusive i o (prior p) q)) = ground arith
settle-Kept st (Ownership.protected o) = ground arith
settle-Kept st (Ownership.protected_awaitable s) = ground arith
settle-Kept st (Ownership.locked o) = ground arith
settle-Kept st (Ownership.locked_awaitable (exclusive i o no_prior [])) = ground arith
settle-Kept st (Ownership.locked_awaitable (exclusive i o no_prior (r ∷ q))) = ground arith
settle-Kept st (Ownership.locked_awaitable (exclusive i o (prior p) q)) = ground arith
settle-Kept st (Ownership.deleted o) = ground arith
settle-Kept st (Ownership.deleted_awaitable (exclusive i o no_prior [])) = ground arith
settle-Kept st (Ownership.deleted_awaitable (exclusive i o no_prior (r ∷ q))) = ground arith
settle-Kept st (Ownership.deleted_awaitable (exclusive i o (prior p) q)) = ground arith

settle_revoked-Kept :
    (st : Store) (w : Ownership) (v : Option Ownership)
    → Kept (ownership_queue w) (depth w) v
    → KeptObject (owned w) (elim v [ none ↦ none | some w' ↦ some (settle st w') ])
unfolding rounds_for
settle_revoked-Kept st w none k = tt
settle_revoked-Kept st w (some w') (s, q, d) =
    (settle-IsSound st w' s, (settle-Kept st w').0 ∙ q, omega (arith, (settle-Kept st w').1))

-- The clean-up before an access keeps the shape of an object and every waiting request, and leaves
-- no more promotions than there were.
pub prepare-Kept :
    (st : Store) (object : ObjectState)
    → IsSound object
    → KeptObject object (prepare_ownership_transfer st object)
unfolding prepare_ownership_transfer
prepare-Kept st (owned w) h = settle_revoked-Kept st w (revoke st w) (revoke-Kept st w h)
prepare-Kept st (ObjectState.created i) h = (tt, refl, omega arith)
prepare-Kept st (ObjectState.deleted i) h = (tt, refl, omega arith)
