-- ===== src/AccessController/Create.antt =====
-- src/access_controller.rs: `try_create`. It is the one access that can drop a wait queue, whose
-- requests then fail, so it returns the store too.
use elektro_em_eukal.Base.{
  Outcome, done, panicked, ℕ, Bool, true, false, Option, none, some, List, [],
}
use elektro_em_eukal.Anchors.{Store, Error, Result, ok, err}
use elektro_em_eukal.Access.{Relationship, grant_write_access}
use elektro_em_eukal.AccessController.Object.{
  Request, Ownership, exclusive, ObjectState, owned, drop_queue, exclusive_with_owner,
}
use elektro_em_eukal.AccessController.Prepare.{prepare_ownership_transfer}

abbrev pub Created : Type 0
Created = Store × ObjectState × Result (Option Bool)

unfoldable pub awaitable_again : Bool → Ownership → ℕ → Ownership
awaitable_again true current owner = current
awaitable_again false current owner = Ownership.created_awaitable (exclusive_with_owner owner)

unfoldable pub create_related :
    Relationship → Store → Ownership → ℕ → Bool → List Request → ℕ → Option ℕ → Created
unfolding awaitable_again
create_related (Relationship.committed i) st current owner awaitable queue n deadline =
    (st, owned current, err Error.serialization_failure)
create_related Relationship.rolled_back st current owner awaitable queue n deadline =
    (drop_queue queue st, owned (Ownership.created n), ok (some true))
create_related Relationship.linearizable st current owner awaitable queue n deadline =
    (st, owned current, ok (some false))
create_related Relationship.concurrent st current owner awaitable queue n deadline =
    (st, owned current, err Error.deadlock)
create_related Relationship.unknown st current owner awaitable queue n none =
    (st, owned current, err Error.serialization_failure)
create_related Relationship.unknown st current owner awaitable queue n (some d) =
    (st, owned (awaitable_again awaitable current owner), ok none)

unfoldable pub create_prepared : Store → ObjectState → ℕ → Option ℕ → Created
unfolding create_related
create_prepared st (owned (Ownership.created o)) n deadline =
    create_related (grant_write_access st o n) st (Ownership.created o) o false [] n deadline
create_prepared st (owned (Ownership.created_awaitable (exclusive i o p q))) n deadline =
    create_related (grant_write_access st o n) st (Ownership.created_awaitable (exclusive i o p q))
      o true q n deadline
create_prepared st other n deadline = (st, other, err Error.serialization_failure)

unfoldable pub try_create : Store → ObjectState → ℕ → Option ℕ → Outcome Created
unfolding create_prepared
try_create st object n deadline = elim (prepare_ownership_transfer st object) [
  | none ↦ panicked
  | some prepared ↦ done (create_prepared st prepared n deadline)
]
