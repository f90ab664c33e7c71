-- ===== src/AccessController/Attempts.antt =====
-- src/access_controller.rs: the access that `transfer_ownership_sync` makes for a request that waits.
use elektro_em_eukal.Base.{
  Outcome, done, out_of_rounds, panicked, ℕ, ◌≡◌, refl, subst, ap, inl, inr, some, [],
}
use elektro_em_eukal.Anchors.{Store}
use elektro_em_eukal.AccessController.Object.{Request, ObjectState, queue_of, drop_queue}
use elektro_em_eukal.AccessController.Create.{Created, try_create}
use elektro_em_eukal.AccessController.Exclusive.{Attempt}
use elektro_em_eukal.AccessController.Share.{try_share}
use elektro_em_eukal.AccessController.Lock.{try_lock}
use elektro_em_eukal.AccessController.Delete.{try_delete}
use elektro_em_eukal.AccessController.Requests.{attempt_request, rounds_for, with_store}
use elektro_em_eukal.AccessController.Shape.{IsSound}
use elektro_em_eukal.AccessController.Waiters.{
  Serves, OwnedIfWaiting, try_share-Serves, try_lock-Serves, try_delete-Serves,
}
use elektro_em_eukal.AccessController.Served.{CreateServes, try_create-Serves}

-- An access for a request, on an object whose queue has been taken.
abbrev pub AttemptServes : Store → Outcome Created → Type 0
AttemptServes st (done (st', object, r)) =
    IsSound object × (queue_of object ≡ []) × OwnedIfWaiting object r × (st' ≡ st)
AttemptServes st panicked = Unit {0}
AttemptServes st out_of_rounds = Unit {0}

AttemptServes-share :
    (st : Store) (r : Outcome Attempt) → Serves [] r → AttemptServes st (with_store st r)
unfolding with_store
AttemptServes-share st (done (object, r)) (s, q, w) = (s, q, w, refl)
AttemptServes-share st panicked h = tt
AttemptServes-share st out_of_rounds h = tt

AttemptServes-create :
    (st : Store) (n : ℕ) (before : ObjectState) (r : Outcome Created)
    → CreateServes st n before [] r
    → AttemptServes st r
unfolding drop_queue
AttemptServes-create st n before (done (st', object, r)) (s, w, inl (q, e, _)) = (s, q, w, e)
AttemptServes-create st n before (done (st', object, r)) (s, w, inr (o, _, _, d)) =
    (s, ap queue_of o, w, d.0)
AttemptServes-create st n before panicked h = tt
AttemptServes-create st n before out_of_rounds h = tt

pub attempt_request-Serves :
    (r : Request) (now : ℕ) (st : Store) (object : ObjectState)
    → IsSound object
    → queue_of object ≡ []
    → AttemptServes st (attempt_request r now st object)
unfolding attempt_request
attempt_request-Serves (Request.create at n p) now st object h e =
    AttemptServes-create st n object _ (
      subst (λ q. CreateServes st n object q (try_create st object n (some now))) e
        (try_create-Serves st object n (some now) h))
attempt_request-Serves (Request.protect at n p) now st object h e = AttemptServes-share st _ (
    subst (λ q. Serves q (try_share (rounds_for object) st object n (some now))) e
      (try_share-Serves (rounds_for object) st object n (some now) h))
attempt_request-Serves (Request.lock at n p) now st object h e = AttemptServes-share st _ (
    subst (λ q. Serves q (try_lock (rounds_for object) st object n (some now))) e
      (try_lock-Serves (rounds_for object) st object n (some now) h))
attempt_request-Serves (Request.delete at n p) now st object h e = AttemptServes-share st _ (
    subst (λ q. Serves q (try_delete (rounds_for object) st object n (some now))) e
      (try_delete-Serves (rounds_for object) st object n (some now) h))
