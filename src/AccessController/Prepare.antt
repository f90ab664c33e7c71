-- ===== src/AccessController/Prepare.antt =====
-- src/access_controller.rs: `ObjectState::prepare_ownership_transfer`, the clean-up that every
-- access begins with. `none` is the panic of its `unreachable!()`.
use elektro_em_eukal.Base.{ℕ, ◌&&◌, Option, none, some, List, [], ◌∷◌, if◌then◌else◌, ◌==◌}
use elektro_em_eukal.Anchors.{Store, is_rolled_back, is_terminated, eot_instant}
use elektro_em_eukal.AccessController.Object.{
  Request, Ownership, exclusive, PriorOwnership, no_prior, prior, ObjectState, owned, is_unused,
  shared_with_owner_and_wait_queue, exclusive_with_owner_and_wait_queue,
}

-- The prior ownership takes the wait queue over; `deeper` is the rest of the loop over a lock.
restore : Ownership → List Request → Option Ownership → Option Ownership
restore p [] deeper = some p
restore (Ownership.locked o) (r ∷ rs) deeper =
    some (Ownership.locked_awaitable (exclusive_with_owner_and_wait_queue o (r ∷ rs)))
restore (Ownership.locked_awaitable e) (r ∷ rs) deeper = deeper
restore (Ownership.protected o) (r ∷ rs) deeper =
    some (Ownership.protected_awaitable (shared_with_owner_and_wait_queue o (r ∷ rs)))
restore (Ownership.protected_awaitable s) (r ∷ rs) deeper =
    some (Ownership.protected_awaitable (record s { wait_queue = r ∷ rs }))
restore (Ownership.created o) (r ∷ rs) deeper = none
restore (Ownership.created_awaitable e) (r ∷ rs) deeper = none
restore (Ownership.deleted o) (r ∷ rs) deeper = none
restore (Ownership.deleted_awaitable e) (r ∷ rs) deeper = none

-- The loop that revokes promoted privileges: `current` is the ownership as it stands, held by
-- `owner` over `pr`, with the wait queue `queue`.
unfoldable pub revoke_promoted :
    Store → Ownership → ℕ → PriorOwnership → List Request → Option Ownership
unfolding restore
revoke_promoted st current owner no_prior queue = some current
revoke_promoted st current owner (prior (Ownership.locked_awaitable (exclusive i o pr q))) queue =
    let deeper =
      revoke_promoted st (Ownership.locked_awaitable (exclusive i o pr queue)) o pr queue in
    if is_rolled_back st owner
    then restore (Ownership.locked_awaitable (exclusive i o pr q)) queue deeper
    else some current
revoke_promoted st current owner (prior p) queue =
    if is_rolled_back st owner then restore p queue none else some current

unfoldable pub revoke : Store → Ownership → Option Ownership
unfolding revoke_promoted
revoke st (Ownership.locked_awaitable (exclusive i o p q)) =
    revoke_promoted st (Ownership.locked_awaitable (exclusive i o p q)) o p q
revoke st (Ownership.deleted_awaitable (exclusive i o p q)) =
    revoke_promoted st (Ownership.deleted_awaitable (exclusive i o p q)) o p q
revoke st (Ownership.created o) = some (Ownership.created o)
revoke st (Ownership.created_awaitable e) = some (Ownership.created_awaitable e)
revoke st (Ownership.protected o) = some (Ownership.protected o)
revoke st (Ownership.protected_awaitable s) = some (Ownership.protected_awaitable s)
revoke st (Ownership.locked o) = some (Ownership.locked o)
revoke st (Ownership.deleted o) = some (Ownership.deleted o)

-- A commit instant other than the default one replaces the ownership.
if_committed : Option ℕ → ObjectState → (ℕ → ObjectState) → ObjectState → ObjectState
if_committed none unended committed rolled_back = unended
if_committed (some instant) unended committed rolled_back =
    if instant == 0 then rolled_back else committed instant

-- Ownership that has ended becomes the instant of creation or deletion.
unfoldable pub settle : Store → Ownership → ObjectState
unfolding if_committed
settle st (Ownership.created o) =
    if_committed (eot_instant st o) (owned (Ownership.created o)) ObjectState.created
      (owned (Ownership.created o))
settle st (Ownership.created_awaitable (exclusive i o p q)) =
    let w = owned (Ownership.created_awaitable (exclusive i o p q)) in
    if is_unused p q
    then if_committed (eot_instant st o) w ObjectState.created (owned (Ownership.created o))
    else w
settle st (Ownership.protected o) = owned (Ownership.protected o)
settle st (Ownership.protected_awaitable s) = owned (Ownership.protected_awaitable s)
settle st (Ownership.locked o) = owned (Ownership.locked o)
settle st (Ownership.locked_awaitable (exclusive i o p q)) =
    if is_unused p q && is_terminated st o
    then (if i == 0 then owned (Ownership.locked o) else ObjectState.created i)
    else owned (Ownership.locked_awaitable (exclusive i o p q))
settle st (Ownership.deleted o) =
    if_committed (eot_instant st o) (owned (Ownership.deleted o)) ObjectState.deleted
      (owned (Ownership.deleted o))
settle st (Ownership.deleted_awaitable (exclusive i o p q)) =
    let w = owned (Ownership.deleted_awaitable (exclusive i o p q)) in
    if is_unused p q
    then if_committed (eot_instant st o) w ObjectState.deleted (owned (Ownership.deleted o))
    else w

unfoldable pub prepare_ownership_transfer : Store → ObjectState → Option ObjectState
unfolding revoke settle
prepare_ownership_transfer st (owned w) = elim (revoke st w) [
  | none ↦ none
  | some w' ↦ some (settle st w')
]
prepare_ownership_transfer st (ObjectState.created i) = some (ObjectState.created i)
prepare_ownership_transfer st (ObjectState.deleted i) = some (ObjectState.deleted i)
