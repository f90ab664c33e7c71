-- ===== src/AccessController/Requests.antt =====
-- src/access_controller.rs: `process_wait_queue` and `post_process_object_state`, which hand an
-- object over to the requests that wait for it.
use elektro_em_eukal.Base.{
  Outcome, done, out_of_rounds, panicked, ℕ, suc, Bool, true, false, ◌||◌, Option, none, some, List,
  [], ◌∷◌, ◌++◌, if◌then◌else◌, ◌==◌, is_empty, is_some, update,
}
use elektro_em_eukal.Anchors.{Store, Result, ok, err, AccessRequestResult, set_wake_up_others}
use elektro_em_eukal.AccessController.Object.{
  Request, SharedAwaitable, Ownership, ExclusiveAwaitable, exclusive, ObjectState, owned,
  placeholder_of, owner_of, drop_queue, depth, exclusive_with_owner_and_wait_queue,
  shared_with_owner_and_wait_queue,
}
use elektro_em_eukal.AccessController.Create.{Created, try_create}
use elektro_em_eukal.AccessController.Exclusive.{Attempt}
use elektro_em_eukal.AccessController.Share.{try_share}
use elektro_em_eukal.AccessController.Lock.{try_lock}
use elektro_em_eukal.AccessController.Delete.{try_delete}

-- The rounds given to the retry loops: one more than the promotions that can be revoked.
unfoldable pub rounds_for : ObjectState → ℕ
unfolding depth
rounds_for (owned w) = suc (depth w)
rounds_for (ObjectState.created i) = 1
rounds_for (ObjectState.deleted i) = 1

unfoldable pub with_store : Store → Outcome Attempt → Outcome Created
with_store st (done (object, r)) = done (st, object, r)
with_store st panicked = panicked
with_store st out_of_rounds = out_of_rounds

-- The access that a request asks for, with the present as its deadline.
unfoldable pub attempt_request : Request → ℕ → Store → ObjectState → Outcome Created
unfolding with_store rounds_for
attempt_request (Request.create at n p) now st object = try_create st object n (some now)
attempt_request (Request.protect at n p) now st object =
    with_store st (try_share (rounds_for object) st object n (some now))
attempt_request (Request.lock at n p) now st object =
    with_store st (try_lock (rounds_for object) st object n (some now))
attempt_request (Request.delete at n p) now st object =
    with_store st (try_delete (rounds_for object) st object n (some now))

abbrev wake_of : Option ℕ → List ℕ → List ℕ
wake_of none woken = woken
wake_of (some w) woken = woken ++ (w ∷ [])

-- The result is put into the placeholder, and its waker is taken and woken.
unfoldable pub answer : ℕ → Result Bool → Store → Store
answer placeholder r st =
    let p = st.results placeholder in
    record st {
      results = update st.results placeholder (record p { result = some r; waker = none });
      woken = wake_of p.waker st.woken;
    }

-- A poisoned placeholder, or one that has its result already: the request has timed out.
abbrev pub is_settled : AccessRequestResult → Bool
is_settled p = p.poisoned || is_some p.result

abbrev pub Processing : Type 0
Processing = Store × ObjectState × Option (List Request)

-- The end of a round: an answered request leaves the queue and the loop goes on by `next`, and a
-- request that has to be retried later ends it.
unfoldable pub conclude_request :
    (Store → ObjectState → Outcome Processing)
    → Request
    → List Request
    → Outcome Created
    → Outcome Processing
unfolding answer set_wake_up_others placeholder_of owner_of
conclude_request next r rest (done (st, object, ok (some granted))) =
    next (answer (placeholder_of r) (ok granted) (set_wake_up_others (owner_of r) st)) object
conclude_request next r rest (done (st, object, ok none)) = done (st, object, some (r ∷ rest))
conclude_request next r rest (done (st, object, err e)) =
    next (answer (placeholder_of r) (err e) st) object
conclude_request next r rest panicked = panicked
conclude_request next r rest out_of_rounds = out_of_rounds

-- A request whose result is out stays at the front for one more round of the source's loop, which
-- finds the result and removes it; here it is removed at once.
unfoldable pub process_wait_queue : ℕ → Store → ObjectState → List Request → Outcome Processing
unfolding attempt_request conclude_request placeholder_of
process_wait_queue now st object [] = done (st, object, none)
process_wait_queue now st object (r ∷ rest) = elim (is_settled (st.results (placeholder_of r))) [
  | true ↦ process_wait_queue now st object rest
  | false ↦
      conclude_request (λ st' object'. process_wait_queue now st' object' rest) r rest
        (attempt_request r now st object)
]

-- What is left of the queue that was processed.
abbrev pub remaining : Option (List Request) → List Request
remaining none = []
remaining (some q) = q

-- An owner without a queue takes the remaining requests over, in an awaitable.
take_over : Ownership → Ownership → List Request → ObjectState × Bool
take_over plain awaitable q = if is_empty q then (owned plain, false) else (owned awaitable, true)

-- `inherit`, and the plain ownership that an awaitable without requests falls back to.
inherit_exclusive :
    (ExclusiveAwaitable → Ownership)
    → (ℕ → Ownership)
    → ExclusiveAwaitable
    → List Request
    → ObjectState × Bool
inherit_exclusive awaitable plain (exclusive i o p q) others =
    let merged = q ++ others in
    if is_empty merged
    then (owned (if i == 0 then plain o else awaitable (exclusive i o p merged)), false)
    else (owned (awaitable (exclusive i o p merged)), true)

only_owner : SharedAwaitable → List ℕ → Ownership
only_owner s [] = Ownership.protected_awaitable s
only_owner s (o ∷ []) =
    if s.creation_instant == 0 then Ownership.protected o else Ownership.protected_awaitable s
only_owner s (o ∷ (p ∷ ps)) = Ownership.protected_awaitable s

inherit_shared : SharedAwaitable → List Request → ObjectState × Bool
unfolding only_owner
inherit_shared s others =
    let merged = record s { wait_queue = s.wait_queue ++ others } in
    if is_empty (s.wait_queue ++ others)
    then (owned (only_owner merged merged.owner_set), false)
    else (owned (Ownership.protected_awaitable merged), true)

unfoldable pub post_process_ownership : Ownership → List Request → ObjectState × Bool
unfolding take_over inherit_exclusive inherit_shared
post_process_ownership (Ownership.created o) q =
    take_over (Ownership.created o)
      (Ownership.created_awaitable (exclusive_with_owner_and_wait_queue o q)) q
post_process_ownership (Ownership.created_awaitable e) q =
    inherit_exclusive Ownership.created_awaitable Ownership.created e q
post_process_ownership (Ownership.protected o) q =
    take_over (Ownership.protected o)
      (Ownership.protected_awaitable (shared_with_owner_and_wait_queue o q)) q
post_process_ownership (Ownership.protected_awaitable s) q = inherit_shared s q
post_process_ownership (Ownership.locked o) q =
    take_over (Ownership.locked o)
      (Ownership.locked_awaitable (exclusive_with_owner_and_wait_queue o q)) q
post_process_ownership (Ownership.locked_awaitable e) q =
    inherit_exclusive Ownership.locked_awaitable Ownership.locked e q
post_process_ownership (Ownership.deleted o) q =
    take_over (Ownership.deleted o)
      (Ownership.deleted_awaitable (exclusive_with_owner_and_wait_queue o q)) q
post_process_ownership (Ownership.deleted_awaitable e) q =
    inherit_exclusive Ownership.deleted_awaitable Ownership.deleted e q

-- Whether the object is still waited for. An unowned object drops the queue: its requests fail.
unfoldable pub post_process_object_state :
    Store → ObjectState → Option (List Request) → Store × ObjectState × Bool
unfolding post_process_ownership drop_queue
post_process_object_state st (ObjectState.created i) q =
    (drop_queue (remaining q) st, ObjectState.created i, false)
post_process_object_state st (ObjectState.deleted i) q =
    (drop_queue (remaining q) st, ObjectState.deleted i, false)
post_process_object_state st (owned w) q =
    let (object, awaited) = post_process_ownership w (remaining q) in (st, object, awaited)
