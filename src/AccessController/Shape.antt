-- ===== src/AccessController/Shape.antt =====
-- The shape of the object states that src/access_controller.rs builds: which ownership may stand
-- behind a promoted one, and that a prior ownership has no queue.
use elektro_em_eukal.Base.{◌≡◌, []}
use elektro_em_eukal.AccessController.Object.{
  Ownership, exclusive, PriorOwnership, no_prior, prior, ObjectState, owned,
}

-- A lock is promoted from shared ownership.
abbrev pub IsLockPrior : PriorOwnership → Type 0
IsLockPrior no_prior = Unit {0}
IsLockPrior (prior (Ownership.created o)) = ⊥
IsLockPrior (prior (Ownership.created_awaitable e)) = ⊥
IsLockPrior (prior (Ownership.protected o)) = Unit {0}
IsLockPrior (prior (Ownership.protected_awaitable s)) = s.wait_queue ≡ []
IsLockPrior (prior (Ownership.locked o)) = ⊥
IsLockPrior (prior (Ownership.locked_awaitable e)) = ⊥
IsLockPrior (prior (Ownership.deleted o)) = ⊥
IsLockPrior (prior (Ownership.deleted_awaitable e)) = ⊥

-- A deletion is promoted from shared ownership, from a lock or from a creation.
abbrev pub IsDeletePrior : PriorOwnership → Type 0
IsDeletePrior no_prior = Unit {0}
IsDeletePrior (prior (Ownership.created o)) = Unit {0}
IsDeletePrior (prior (Ownership.created_awaitable (exclusive i o p q))) = (p ≡ no_prior) × (q ≡ [])
IsDeletePrior (prior (Ownership.protected o)) = Unit {0}
IsDeletePrior (prior (Ownership.protected_awaitable s)) = s.wait_queue ≡ []
IsDeletePrior (prior (Ownership.locked o)) = Unit {0}
IsDeletePrior (prior (Ownership.locked_awaitable (exclusive i o p q))) = IsLockPrior p × (q ≡ [])
IsDeletePrior (prior (Ownership.deleted o)) = ⊥
IsDeletePrior (prior (Ownership.deleted_awaitable e)) = ⊥

abbrev pub IsSoundOwnership : Ownership → Type 0
IsSoundOwnership (Ownership.created o) = Unit {0}
IsSoundOwnership (Ownership.created_awaitable (exclusive i o p q)) = p ≡ no_prior
IsSoundOwnership (Ownership.protected o) = Unit {0}
IsSoundOwnership (Ownership.protected_awaitable s) = Unit {0}
IsSoundOwnership (Ownership.locked o) = Unit {0}
IsSoundOwnership (Ownership.locked_awaitable (exclusive i o p q)) = IsLockPrior p
IsSoundOwnership (Ownership.deleted o) = Unit {0}
IsSoundOwnership (Ownership.deleted_awaitable (exclusive i o p q)) = IsDeletePrior p

abbrev pub IsSound : ObjectState → Type 0
IsSound (owned w) = IsSoundOwnership w
IsSound (ObjectState.created i) = Unit {0}
IsSound (ObjectState.deleted i) = Unit {0}
