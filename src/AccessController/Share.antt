-- ===== src/AccessController/Share.antt =====
-- src/access_controller.rs: `try_share` and its two helpers.
use elektro_em_eukal.Base.{
  Outcome, done, out_of_rounds, panicked, ℕ, zero, suc, Bool, true, false, Option, none, some,
  if◌then◌else◌, is_empty,
}
use elektro_em_eukal.Anchors.{Store, Error, Result, ok, err}
use elektro_em_eukal.Access.{Relationship, grant_write_access}
use elektro_em_eukal.AccessController.Object.{
  SharedAwaitable, Ownership, ExclusiveAwaitable, exclusive, ObjectState, owned, insert_owner,
  any_linearizable, shared_with_owner, shared_with_instant_and_owner, has_prior, is_linearizable,
}
use elektro_em_eukal.AccessController.Prepare.{prepare_ownership_transfer}
use elektro_em_eukal.AccessController.Exclusive.{
  Attempt, exclusively_owned_details, exclusive_awaitable_access_details, augment_wait_queue,
  wait_or_fail, end_round,
}

share_owned_related :
    Relationship → Ownership → ℕ → Bool → Bool → ℕ → Option ℕ → Ownership × Result (Option Bool)
share_owned_related (Relationship.committed i) w o is_created true n deadline =
    (w, err Error.serialization_failure)
share_owned_related (Relationship.committed i) w o true false n deadline =
    (Ownership.protected_awaitable (shared_with_instant_and_owner i n), ok (some true))
share_owned_related (Relationship.committed i) w o false false n deadline =
    (Ownership.protected n, ok (some true))
share_owned_related Relationship.rolled_back w o is_created is_deleted n deadline =
    (Ownership.protected n, ok (some true))
share_owned_related Relationship.linearizable w o is_created is_deleted n deadline =
    (w, ok (some false))
share_owned_related Relationship.concurrent w o is_created is_deleted n deadline =
    (w, err Error.deadlock)
share_owned_related Relationship.unknown w o is_created is_deleted n none =
    (w, err Error.serialization_failure)
share_owned_related Relationship.unknown w o is_created is_deleted n (some d) =
    (augment_wait_queue is_created is_deleted o, ok none)

unfoldable pub try_share_exclusively_owned :
    Store → Ownership → ℕ → Option ℕ → Ownership × Result (Option Bool)
unfolding share_owned_related exclusively_owned_details augment_wait_queue
try_share_exclusively_owned st w n deadline = elim (exclusively_owned_details w) [
  | err e ↦ (w, err e)
  | ok (o, is_created, is_deleted) ↦
      share_owned_related (grant_write_access st o n) w o is_created is_deleted n deadline
]

share_awaitable_related :
    Relationship
    → Ownership
    → ExclusiveAwaitable
    → Bool
    → Bool
    → ℕ
    → Option ℕ
    → Ownership × Result (Bool × Bool)
share_awaitable_related (Relationship.committed i) w e is_created true n deadline =
    (w, err Error.serialization_failure)
share_awaitable_related (Relationship.committed i) w (exclusive j o p q) is_created false n d =
    if is_empty q
    then (
      Ownership.protected_awaitable (shared_with_instant_and_owner (if is_created then i else j) n),
      ok (true, true),
    )
    else (w, wait_or_fail d)
share_awaitable_related Relationship.rolled_back w (exclusive j o p q) is_created is_deleted n d =
    if has_prior p
    then (w, ok (false, false))
    else if is_empty q
    then (Ownership.protected n, ok (true, true))
    else (w, wait_or_fail d)
share_awaitable_related Relationship.linearizable w e is_created is_deleted n deadline =
    (w, ok (true, false))
share_awaitable_related Relationship.concurrent w e is_created is_deleted n deadline =
    (w, err Error.deadlock)
share_awaitable_related Relationship.unknown w e is_created is_deleted n deadline =
    (w, wait_or_fail deadline)

owner_of_exclusive : ExclusiveAwaitable → ℕ
owner_of_exclusive (exclusive i o p q) = o

unfoldable pub try_share_exclusive_awaitable :
    Store → Ownership → ℕ → Option ℕ → Ownership × Result (Bool × Bool)
unfolding share_awaitable_related exclusive_awaitable_access_details owner_of_exclusive
try_share_exclusive_awaitable st w n deadline = elim (exclusive_awaitable_access_details w) [
  | err e ↦ (w, err e)
  | ok (e, is_created, is_deleted) ↦
      share_awaitable_related (grant_write_access st (owner_of_exclusive e) n) w e is_created
        is_deleted n deadline
]

share_protected : Store → ℕ → ℕ → Attempt
share_protected st o n =
    if is_linearizable (grant_write_access st o n)
    then (owned (Ownership.protected o), ok (some false))
    else let s = shared_with_owner o in
      (
        owned (Ownership.protected_awaitable (record s { owner_set = insert_owner n s.owner_set })),
        ok (some true),
      )

share_protected_awaitable : Store → SharedAwaitable → ℕ → Option ℕ → Attempt
share_protected_awaitable st s n deadline =
    if any_linearizable st s.owner_set n
    then (owned (Ownership.protected_awaitable s), ok (some false))
    else if is_empty s.wait_queue
    then (
      owned (Ownership.protected_awaitable (record s { owner_set = insert_owner n s.owner_set })),
      ok (some true),
    )
    else elim deadline [
      | some d ↦ (owned (Ownership.protected_awaitable s), ok none)
      | none ↦ (owned (Ownership.protected_awaitable s), err Error.serialization_failure)
    ]

share_outright : Ownership × Result (Option Bool) → Outcome Attempt
share_outright (w, r) = done (owned w, r)

unfoldable pub share_prepared :
    (ObjectState → Outcome Attempt) → Store → ObjectState → ℕ → Option ℕ → Outcome Attempt
unfolding share_outright share_protected share_protected_awaitable end_round insert_owner
    any_linearizable try_share_exclusively_owned try_share_exclusive_awaitable
share_prepared retry st (owned (Ownership.created o)) n deadline =
    share_outright (try_share_exclusively_owned st (Ownership.created o) n deadline)
share_prepared retry st (owned (Ownership.locked o)) n deadline =
    share_outright (try_share_exclusively_owned st (Ownership.locked o) n deadline)
share_prepared retry st (owned (Ownership.deleted o)) n deadline =
    share_outright (try_share_exclusively_owned st (Ownership.deleted o) n deadline)
share_prepared retry st (owned (Ownership.created_awaitable e)) n deadline =
    end_round retry (try_share_exclusive_awaitable st (Ownership.created_awaitable e) n deadline)
share_prepared retry st (owned (Ownership.locked_awaitable e)) n deadline =
    end_round retry (try_share_exclusive_awaitable st (Ownership.locked_awaitable e) n deadline)
share_prepared retry st (owned (Ownership.deleted_awaitable e)) n deadline =
    end_round retry (try_share_exclusive_awaitable st (Ownership.deleted_awaitable e) n deadline)
share_prepared retry st (owned (Ownership.protected o)) n deadline = done (share_protected st o n)
share_prepared retry st (owned (Ownership.protected_awaitable s)) n deadline =
    done (share_protected_awaitable st s n deadline)
share_prepared retry st (ObjectState.created i) n deadline =
    done (owned (Ownership.protected_awaitable (shared_with_instant_and_owner i n)), ok (some true))
share_prepared retry st (ObjectState.deleted i) n deadline =
    done (ObjectState.deleted i, err Error.serialization_failure)

unfoldable pub try_share : ℕ → Store → ObjectState → ℕ → Option ℕ → Outcome Attempt
unfolding share_prepared
try_share zero st object n deadline = out_of_rounds
try_share (suc rounds) st object n deadline = elim (prepare_ownership_transfer st object) [
  | none ↦ panicked
  | some prepared ↦
      share_prepared (λ again. try_share rounds st again n deadline) st prepared n deadline
]
