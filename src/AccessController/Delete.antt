-- ===== src/AccessController/Delete.antt =====
-- src/access_controller.rs: `try_delete` and its two helpers.
use elektro_em_eukal.Base.{
  Outcome, done, out_of_rounds, panicked, ℕ, zero, suc, Bool, true, false, Option, none, some, [],
  if◌then◌else◌, ◌==◌, is_empty,
}
use elektro_em_eukal.Anchors.{Store, Error, Result, ok, err, is_terminated}
use elektro_em_eukal.Access.{Relationship, grant_write_access}
use elektro_em_eukal.AccessController.Object.{
  SharedAwaitable, Ownership, ExclusiveAwaitable, exclusive, prior, ObjectState, owned,
  shared_with_owner, exclusive_with_instant_and_owner, has_prior, is_linearizable,
  cleanup_inactive_owners, try_promote_to_exclusive,
}
use elektro_em_eukal.AccessController.Prepare.{prepare_ownership_transfer}
use elektro_em_eukal.AccessController.Exclusive.{
  Attempt, exclusively_owned_details, exclusive_awaitable_access_details, augment_wait_queue,
  wait_or_fail, end_round,
}

delete_owned_related :
    Relationship → Ownership → ℕ → Bool → Bool → ℕ → Option ℕ → Ownership × Result (Option Bool)
delete_owned_related (Relationship.committed i) w o is_created true n deadline =
    (w, err Error.serialization_failure)
delete_owned_related (Relationship.committed i) w o true false n deadline =
    (Ownership.deleted_awaitable (exclusive_with_instant_and_owner i n), ok (some true))
delete_owned_related (Relationship.committed i) w o false false n deadline =
    (Ownership.deleted n, ok (some true))
delete_owned_related Relationship.rolled_back w o is_created is_deleted n deadline =
    (Ownership.deleted n, ok (some true))
delete_owned_related Relationship.linearizable w o is_created true n deadline = (w, ok (some false))
delete_owned_related Relationship.linearizable w o true false n deadline =
    (Ownership.deleted_awaitable (exclusive 0 n (prior (Ownership.created o)) []), ok (some true))
delete_owned_related Relationship.linearizable w o false false n deadline =
    (Ownership.deleted_awaitable (exclusive 0 n (prior (Ownership.locked o)) []), ok (some true))
delete_owned_related Relationship.concurrent w o is_created is_deleted n deadline =
    (w, err Error.deadlock)
delete_owned_related Relationship.unknown w o is_created is_deleted n none =
    (w, err Error.serialization_failure)
delete_owned_related Relationship.unknown w o is_created is_deleted n (some d) =
    (augment_wait_queue is_created is_deleted o, ok none)

unfoldable pub try_delete_exclusively_owned :
    Store → Ownership → ℕ → Option ℕ → Ownership × Result (Option Bool)
unfolding delete_owned_related exclusively_owned_details augment_wait_queue
try_delete_exclusively_owned st w n deadline = elim (exclusively_owned_details w) [
  | err e ↦ (w, err e)
  | ok (o, is_created, is_deleted) ↦
      delete_owned_related (grant_write_access st o n) w o is_created is_deleted n deadline
]

-- The ownership that a promoted deletion falls back to; `take_other` moves it whole.
promoted_from : Bool → ExclusiveAwaitable → Ownership
promoted_from true e = Ownership.created_awaitable e
promoted_from false e = Ownership.locked_awaitable e

delete_awaitable_related :
    Relationship
    → Ownership
    → ExclusiveAwaitable
    → Bool
    → Bool
    → ℕ
    → Option ℕ
    → Ownership × Result (Bool × Bool)
delete_awaitable_related (Relationship.committed i) w e is_created true n deadline =
    (w, err Error.serialization_failure)
delete_awaitable_related (Relationship.committed i) w (exclusive j o p q) is_created false n d =
    if is_empty q
    then (
      Ownership.deleted_awaitable
          (exclusive_with_instant_and_owner (if is_created then i else j) n),
      ok (true, true),
    )
    else (w, wait_or_fail d)
delete_awaitable_related Relationship.rolled_back w (exclusive j o p q) is_created is_deleted n d =
    if has_prior p
    then (w, ok (false, false))
    else if is_empty q
    then (Ownership.deleted n, ok (true, true))
    else (w, wait_or_fail d)
delete_awaitable_related Relationship.linearizable w e is_created true n deadline =
    (w, ok (true, false))
delete_awaitable_related Relationship.linearizable w (exclusive j o p q) is_created false n d =
    if is_empty q
    then (
      Ownership.deleted_awaitable
          (exclusive j n (prior (promoted_from is_created (exclusive j o p q))) []),
      ok (true, true),
    )
    else (w, wait_or_fail d)
delete_awaitable_related Relationship.concurrent w e is_created is_deleted n deadline =
    (w, err Error.deadlock)
delete_awaitable_related Relationship.unknown w e is_created is_deleted n deadline =
    (w, wait_or_fail deadline)

owner_of_exclusive : ExclusiveAwaitable → ℕ
owner_of_exclusive (exclusive i o p q) = o

unfoldable pub try_delete_exclusive_awaitable :
    Store → Ownership → ℕ → Option ℕ → Ownership × Result (Bool × Bool)
unfolding delete_awaitable_related promoted_from exclusive_awaitable_access_details
    owner_of_exclusive
try_delete_exclusive_awaitable st w n deadline = elim (exclusive_awaitable_access_details w) [
  | err e ↦ (w, err e)
  | ok (e, is_created, is_deleted) ↦
      delete_awaitable_related (grant_write_access st (owner_of_exclusive e) n) w e is_created
        is_deleted n deadline
]

delete_protected : Store → ℕ → ℕ → Option ℕ → Attempt
delete_protected st o n deadline =
    if is_linearizable (grant_write_access st o n)
    then (
      owned (Ownership.deleted_awaitable (exclusive 0 n (prior (Ownership.protected o)) [])),
      ok (some true),
    )
    else if is_terminated st o
    then (owned (Ownership.deleted n), ok (some true))
    else elim deadline [
      | some d ↦ (owned (Ownership.protected_awaitable (shared_with_owner o)), ok none)
      | none ↦ (owned (Ownership.protected o), err Error.serialization_failure)
    ]

-- `s` is what the clean-up left of the awaitable.
delete_cleaned : Store → SharedAwaitable → Bool → ℕ → Option ℕ → Attempt
delete_cleaned st s true n deadline = (
  owned (
      if s.creation_instant == 0
      then Ownership.deleted n
      else Ownership.deleted_awaitable (exclusive_with_instant_and_owner s.creation_instant n)),
  ok (some true),
)
delete_cleaned st s false n deadline = elim (try_promote_to_exclusive st s n) [
  | some e ↦ (owned (Ownership.deleted_awaitable e), ok (some true))
  | none ↦ elim deadline [
    | some d ↦ (owned (Ownership.protected_awaitable s), ok none)
    | none ↦ (owned (Ownership.protected_awaitable s), err Error.serialization_failure)
  ]
]

delete_protected_awaitable : Store → SharedAwaitable → ℕ → Option ℕ → Attempt
unfolding delete_cleaned cleanup_inactive_owners try_promote_to_exclusive
delete_protected_awaitable st s n deadline =
    let (cleaned, empty) = cleanup_inactive_owners st s in
    delete_cleaned st cleaned empty n deadline

delete_outright : Ownership × Result (Option Bool) → Outcome Attempt
delete_outright (w, r) = done (owned w, r)

unfoldable pub delete_prepared :
    (ObjectState → Outcome Attempt) → Store → ObjectState → ℕ → Option ℕ → Outcome Attempt
unfolding delete_outright delete_protected delete_protected_awaitable end_round
    try_delete_exclusively_owned try_delete_exclusive_awaitable
delete_prepared retry st (owned (Ownership.created o)) n deadline =
    delete_outright (try_delete_exclusively_owned st (Ownership.created o) n deadline)
delete_prepared retry st (owned (Ownership.locked o)) n deadline =
    delete_outright (try_delete_exclusively_owned st (Ownership.locked o) n deadline)
delete_prepared retry st (owned (Ownership.deleted o)) n deadline =
    delete_outright (try_delete_exclusively_owned st (Ownership.deleted o) n deadline)
delete_prepared retry st (owned (Ownership.created_awaitable e)) n deadline =
    end_round retry (try_delete_exclusive_awaitable st (Ownership.created_awaitable e) n deadline)
delete_prepared retry st (owned (Ownership.locked_awaitable e)) n deadline =
    end_round retry (try_delete_exclusive_awaitable st (Ownership.locked_awaitable e) n deadline)
delete_prepared retry st (owned (Ownership.deleted_awaitable e)) n deadline =
    end_round retry (try_delete_exclusive_awaitable st (Ownership.deleted_awaitable e) n deadline)
delete_prepared retry st (owned (Ownership.protected o)) n deadline =
    done (delete_protected st o n deadline)
delete_prepared retry st (owned (Ownership.protected_awaitable s)) n deadline =
    done (delete_protected_awaitable st s n deadline)
delete_prepared retry st (ObjectState.created i) n deadline =
    done
      (owned (Ownership.deleted_awaitable (exclusive_with_instant_and_owner i n)), ok (some true))
delete_prepared retry st (ObjectState.deleted i) n deadline =
    done (ObjectState.deleted i, err Error.serialization_failure)

unfoldable pub try_delete : ℕ → Store → ObjectState → ℕ → Option ℕ → Outcome Attempt
unfolding delete_prepared
try_delete zero st object n deadline = out_of_rounds
try_delete (suc rounds) st object n deadline = elim (prepare_ownership_transfer st object) [
  | none ↦ panicked
  | some prepared ↦
      delete_prepared (λ again. try_delete rounds st again n deadline) st prepared n deadline
]
