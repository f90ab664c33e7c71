-- ===== src/AccessController/Exclusive.antt =====
-- src/access_controller.rs: what the accesses to an exclusively owned object share: the details of
-- the ownership, the wait queue that is added, and the end of a round of the retry loop.
use elektro_em_eukal.Base.{Outcome, done, ℕ, Bool, true, false, Option, none, some}
use elektro_em_eukal.Anchors.{Error, Result, ok, err}
use elektro_em_eukal.AccessController.Object.{
  Ownership, ExclusiveAwaitable, ObjectState, owned, exclusive_with_owner,
}

abbrev pub Attempt : Type 0
Attempt = ObjectState × Result (Option Bool)

-- The owner, and whether the object is being created or deleted.
unfoldable pub exclusively_owned_details : Ownership → Result (ℕ × Bool × Bool)
exclusively_owned_details (Ownership.created o) = ok (o, true, false)
exclusively_owned_details (Ownership.locked o) = ok (o, false, false)
exclusively_owned_details (Ownership.deleted o) = ok (o, false, true)
exclusively_owned_details other = err Error.wrong_parameter

-- `exclusive_awaitable_access_defails`.
unfoldable pub exclusive_awaitable_access_details :
    Ownership → Result (ExclusiveAwaitable × Bool × Bool)
exclusive_awaitable_access_details (Ownership.created_awaitable e) = ok (e, true, false)
exclusive_awaitable_access_details (Ownership.locked_awaitable e) = ok (e, false, false)
exclusive_awaitable_access_details (Ownership.deleted_awaitable e) = ok (e, false, true)
exclusive_awaitable_access_details other = err Error.wrong_parameter

unfoldable pub augment_wait_queue : Bool → Bool → ℕ → Ownership
augment_wait_queue true is_deleted owner = Ownership.created_awaitable (exclusive_with_owner owner)
augment_wait_queue false true owner = Ownership.deleted_awaitable (exclusive_with_owner owner)
augment_wait_queue false false owner = Ownership.locked_awaitable (exclusive_with_owner owner)

-- `if deadline.is_some() { Ok((false, true)) } else { Err(..) }`.
abbrev pub wait_or_fail : Option ℕ → Result (Bool × Bool)
wait_or_fail none = err Error.serialization_failure
wait_or_fail (some d) = ok (false, true)

-- A round over an awaitable is `(result_available, result_or_wait)`; `(false, false)` is a retry.
unfoldable pub end_round :
    (ObjectState → Outcome Attempt) → Ownership × Result (Bool × Bool) → Outcome Attempt
end_round retry (w, err e) = done (owned w, err e)
end_round retry (w, ok (true, result)) = done (owned w, ok (some result))
end_round retry (w, ok (false, true)) = done (owned w, ok none)
end_round retry (w, ok (false, false)) = retry (owned w)
