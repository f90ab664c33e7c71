-- ===== src/AccessController/Object.antt =====
-- src/access_controller.rs: the states of a database object and its wait queue. An owner is the
-- address of a journal anchor.
use elektro_em_eukal.Base.{
  ℕ, suc, Bool, true, false, ◌&&◌, ◌||◌, not, Option, none, some, List, [], ◌∷◌, ◌++◌,
  if◌then◌else◌, ◌==◌, ltb, is_empty, update,
}
use elektro_em_eukal.Anchors.{
  Store, Error, Result, err, AccessRequestResult, is_terminated, set_wake_up_others,
}
use elektro_em_eukal.Access.{Relationship, grant_write_access}

-- The wall-clock instant of the request, the owner to be, and the address of the placeholder that
-- receives the result.
pub data Request : Type 0 where
  create protect lock delete : ℕ → ℕ → ℕ → Request

pub record SharedAwaitable : Type 0 where
  pub creation_instant : ℕ
  pub owner_set : List ℕ
  pub wait_queue : List Request

mutual
  pub data Ownership : Type 0 where
    created : ℕ → Ownership
    created_awaitable : ExclusiveAwaitable → Ownership
    protected : ℕ → Ownership
    protected_awaitable : SharedAwaitable → Ownership
    locked : ℕ → Ownership
    locked_awaitable : ExclusiveAwaitable → Ownership
    deleted : ℕ → Ownership
    deleted_awaitable : ExclusiveAwaitable → Ownership

  -- The creation instant, the owner, the ownership before the current owner took the object, and
  -- the wait queue, oldest request first.
  pub data ExclusiveAwaitable : Type 0 where
    exclusive : ℕ → ℕ → PriorOwnership → List Request → ExclusiveAwaitable

  pub data PriorOwnership : Type 0 where
    no_prior : PriorOwnership
    prior : Ownership → PriorOwnership

pub data ObjectState : Type 0 where
  owned : Ownership → ObjectState
  created : ℕ → ObjectState
  deleted : ℕ → ObjectState

unfoldable pub placeholder_of : Request → ℕ
placeholder_of (Request.create at owner result) = result
placeholder_of (Request.protect at owner result) = result
placeholder_of (Request.lock at owner result) = result
placeholder_of (Request.delete at owner result) = result

unfoldable pub owner_of : Request → ℕ
owner_of (Request.create at owner result) = owner
owner_of (Request.protect at owner result) = owner
owner_of (Request.lock at owner result) = owner
owner_of (Request.delete at owner result) = owner

-- `BTreeSet<Owner>`: addresses in rising order, each once.
unfoldable pub insert_owner : ℕ → List ℕ → List ℕ
insert_owner o [] = o ∷ []
insert_owner o (p ∷ ps) =
    if o == p then p ∷ ps else if ltb o p then o ∷ (p ∷ ps) else p ∷ insert_owner o ps

unfoldable pub retain_active : Store → List ℕ → List ℕ
retain_active st [] = []
retain_active st (o ∷ os) =
    if is_terminated st o then retain_active st os else o ∷ retain_active st os

-- The constructors of the two awaitables.
abbrev pub shared_with_owner : ℕ → SharedAwaitable
shared_with_owner owner = record { creation_instant = 0; owner_set = owner ∷ []; wait_queue = [] }

abbrev pub shared_with_owner_and_wait_queue : ℕ → List Request → SharedAwaitable
shared_with_owner_and_wait_queue owner queue = record {
  creation_instant = 0;
  owner_set = owner ∷ [];
  wait_queue = queue;
}

abbrev pub shared_with_instant_and_owner : ℕ → ℕ → SharedAwaitable
shared_with_instant_and_owner instant owner = record {
  creation_instant = instant;
  owner_set = owner ∷ [];
  wait_queue = [];
}

abbrev pub exclusive_with_owner : ℕ → ExclusiveAwaitable
exclusive_with_owner owner = exclusive 0 owner no_prior []

abbrev pub exclusive_with_owner_and_wait_queue : ℕ → List Request → ExclusiveAwaitable
exclusive_with_owner_and_wait_queue owner queue = exclusive 0 owner no_prior queue

abbrev pub exclusive_with_instant_and_owner : ℕ → ℕ → ExclusiveAwaitable
exclusive_with_instant_and_owner instant owner = exclusive instant owner no_prior []

-- `ExclusiveAwaitable::is_empty`.
abbrev pub is_unused : PriorOwnership → List Request → Bool
is_unused no_prior queue = is_empty queue
is_unused (prior p) queue = false

abbrev pub has_prior : PriorOwnership → Bool
has_prior no_prior = false
has_prior (prior p) = true

abbrev pub is_linearizable : Relationship → Bool
is_linearizable (Relationship.committed instant) = false
is_linearizable Relationship.rolled_back = false
is_linearizable Relationship.linearizable = true
is_linearizable Relationship.concurrent = false
is_linearizable Relationship.unknown = false

-- `owner_set.iter().any(|o| matches!(.., Linearizable))` and the same of `!matches!`.
unfoldable pub any_linearizable : Store → List ℕ → ℕ → Bool
any_linearizable st [] n = false
any_linearizable st (o ∷ os) n =
    is_linearizable (grant_write_access st o n) || any_linearizable st os n

unfoldable pub any_incompatible : Store → List ℕ → ℕ → Bool
any_incompatible st [] n = false
any_incompatible st (o ∷ os) n =
    not (is_linearizable (grant_write_access st o n)) || any_incompatible st os n

-- `try_promote_to_exclusive`: the queue moves to the new awaitable, and the shared one, without
-- its queue, becomes the prior ownership.
unfoldable pub try_promote_to_exclusive : Store → SharedAwaitable → ℕ → Option ExclusiveAwaitable
unfolding any_incompatible
try_promote_to_exclusive st s n =
    if any_incompatible st s.owner_set n || is_empty s.owner_set
    then none
    else some (
        exclusive 0 n (prior (Ownership.protected_awaitable (record s { wait_queue = [] })))
          s.wait_queue)

-- `cleanup_inactive_owners`: the awaitable left, and whether it is totally empty.
unfoldable pub cleanup_inactive_owners : Store → SharedAwaitable → SharedAwaitable × Bool
unfolding retain_active
cleanup_inactive_owners st s =
    let kept = retain_active st s.owner_set in
    (record s { owner_set = kept }, is_empty kept && is_empty s.wait_queue)

unfoldable pub wake_up_all : List ℕ → Store → Store
unfolding set_wake_up_others
wake_up_all [] st = st
wake_up_all (o ∷ os) st = wake_up_all os (set_wake_up_others o st)

-- `push_request` of the two awaitables.
unfoldable pub push_request_shared : Request → SharedAwaitable → Store → SharedAwaitable × Store
unfolding wake_up_all
push_request_shared r s st =
    (record s { wait_queue = s.wait_queue ++ (r ∷ []) }, wake_up_all s.owner_set st)

unfoldable pub push_request_exclusive :
    Request → ExclusiveAwaitable → Store → ExclusiveAwaitable × Store
unfolding set_wake_up_others
push_request_exclusive r (exclusive instant owner pr queue) st =
    (exclusive instant owner pr (queue ++ (r ∷ [])), set_wake_up_others owner st)

abbrev wake_of : Option ℕ → List ℕ → List ℕ
wake_of none woken = woken
wake_of (some w) woken = woken ++ (w ∷ [])

abbrev result_or : Option (Result Bool) → Error → Option (Result Bool)
result_or none e = some (err e)
result_or (some r) e = some r

unfoldable pub drop_request : ℕ → AccessRequestResult → Store → Store
drop_request result p st = if p.poisoned then st else record st {
  results =
      update st.results result
        (record p { result = result_or p.result Error.out_of_memory; waker = none });
  woken = wake_of p.waker st.woken;
}

-- `Drop for WaitQueue`: requests that are dropped with their queue fail.
unfoldable pub drop_queue : List Request → Store → Store
unfolding drop_request placeholder_of
drop_queue [] st = st
drop_queue (r ∷ rs) st =
    drop_queue rs (drop_request (placeholder_of r) (st.results (placeholder_of r)) st)

-- The requests that wait for an object.
abbrev pub queue_of : ObjectState → List Request
queue_of (owned (Ownership.created o)) = []
queue_of (owned (Ownership.created_awaitable (exclusive i o p q))) = q
queue_of (owned (Ownership.protected o)) = []
queue_of (owned (Ownership.protected_awaitable s)) = s.wait_queue
queue_of (owned (Ownership.locked o)) = []
queue_of (owned (Ownership.locked_awaitable (exclusive i o p q))) = q
queue_of (owned (Ownership.deleted o)) = []
queue_of (owned (Ownership.deleted_awaitable (exclusive i o p q))) = q
queue_of (ObjectState.created i) = []
queue_of (ObjectState.deleted i) = []

-- How many promotions an ownership stands on.
unfoldable mutual
  pub depth : Ownership → ℕ
  depth (Ownership.created o) = 0
  depth (Ownership.created_awaitable e) = exclusive_depth e
  depth (Ownership.protected o) = 0
  depth (Ownership.protected_awaitable s) = 0
  depth (Ownership.locked o) = 0
  depth (Ownership.locked_awaitable e) = exclusive_depth e
  depth (Ownership.deleted o) = 0
  depth (Ownership.deleted_awaitable e) = exclusive_depth e

  pub exclusive_depth : ExclusiveAwaitable → ℕ
  exclusive_depth (exclusive i o p q) = prior_depth p

  pub prior_depth : PriorOwnership → ℕ
  prior_depth no_prior = 0
  prior_depth (prior p) = suc (depth p)
