-- ===== src/AccessController/Transferred.antt =====
-- src/access_controller.rs: what `transfer_ownership_sync` makes of a wait queue.
use elektro_em_eukal.Base.{
  Outcome, done, out_of_rounds, panicked, ℕ, ◌≡◌, refl, sym, subst, ◌∙◌, Bool, not, Option, none,
  some, List, [], ◌∷◌, arith, is_empty, ap,
}
use elektro_em_eukal.Anchors.{Store}
use elektro_em_eukal.AccessController.Object.{
  Request, Ownership, exclusive, ObjectState, owned, queue_of,
}
use elektro_em_eukal.AccessController.Prepare.{prepare_ownership_transfer}
use elektro_em_eukal.AccessController.Requests.{
  Processing, post_process_object_state, post_process_ownership, remaining,
}
use elektro_em_eukal.AccessController.Transfer.{take_wait_queue, serve, transfer_object}
use elektro_em_eukal.AccessController.Shape.{IsSound}
use elektro_em_eukal.AccessController.Waiters.{prepared-IsSound, queue_of-prepared}
use elektro_em_eukal.AccessController.Processed.{
  Answers, OwnedIfLeft, Processed, process_wait_queue-Processed,
}

-- The queue that is left goes back to the object, which tells whether it is still waited for.
abbrev PostProcessed : Store → List Request → Store × ObjectState × Bool → Type 0
PostProcessed st q (st', object, awaited) =
    (st' ≡ st) × IsSound object × (queue_of object ≡ q) × (awaited ≡ not (is_empty q))

post_process_ownership-Post :
    (st : Store) (w : Ownership) (q : List Request)
    → IsSound (owned w)
    → queue_of (owned w) ≡ []
    → let r = post_process_ownership w q in PostProcessed st q (st, r.0, r.1)
unfolding post_process_ownership
post_process_ownership-Post st (Ownership.created o) [] h e = ground arith
post_process_ownership-Post st (Ownership.created o) (r ∷ q) h e = ground arith
post_process_ownership-Post st (Ownership.created_awaitable (exclusive i o p q')) [] h e =
    ground arith
post_process_ownership-Post st (Ownership.created_awaitable (exclusive i o p q')) (r ∷ q) h e =
    ground arith
post_process_ownership-Post st (Ownership.protected o) [] h e = ground arith
post_process_ownership-Post st (Ownership.protected o) (r ∷ q) h e = ground arith
post_process_ownership-Post st (Ownership.protected_awaitable s) [] h e = ground arith
post_process_ownership-Post st (Ownership.protected_awaitable s) (r ∷ q) h e = ground arith
post_process_ownership-Post st (Ownership.locked o) [] h e = ground arith
post_process_ownership-Post st (Ownership.locked o) (r ∷ q) h e = ground arith
post_process_ownership-Post st (Ownership.locked_awaitable (exclusive i o p q')) [] h e =
    ground arith
post_process_ownership-Post st (Ownership.locked_awaitable (exclusive i o p q')) (r ∷ q) h e =
    ground arith
post_process_ownership-Post st (Ownership.deleted o) [] h e = ground arith
post_process_ownership-Post st (Ownership.deleted o) (r ∷ q) h e = ground arith
post_process_ownership-Post st (Ownership.deleted_awaitable (exclusive i o p q')) [] h e =
    ground arith
post_process_ownership-Post st (Ownership.deleted_awaitable (exclusive i o p q')) (r ∷ q) h e =
    ground arith

post_process-Post :
    (st : Store) (object : ObjectState) (left : Option (List Request))
    → IsSound object
    → queue_of object ≡ []
    → OwnedIfLeft object (remaining left)
    → PostProcessed st (remaining left) (post_process_object_state st object left)
unfolding post_process_object_state
post_process-Post st (owned w) left h e o = post_process_ownership-Post st w (remaining left) h e
post_process-Post st (ObjectState.created i) none h e o = (refl, tt, refl, refl)
post_process-Post st (ObjectState.created i) (some []) h e o = (refl, tt, refl, refl)
post_process-Post st (ObjectState.created i) (some (r ∷ q)) h e o = absurd o
post_process-Post st (ObjectState.deleted i) none h e o = (refl, tt, refl, refl)
post_process-Post st (ObjectState.deleted i) (some []) h e o = (refl, tt, refl, refl)
post_process-Post st (ObjectState.deleted i) (some (r ∷ q)) h e o = absurd o

-- The outcome of a transfer on an object with the queue `q`: the front of the queue has its
-- results, and the object keeps the rest and is awaited exactly when there is a rest.
abbrev pub Transferred : Store → List Request → Outcome (Store × ObjectState × Bool) → Type 0
Transferred st q (done (st', object, awaited)) =
    IsSound object
    × (awaited ≡ not (is_empty (queue_of object)))
    × Answers st q st' (queue_of object)
Transferred st q panicked = Unit {0}
Transferred st q out_of_rounds = Unit {0}

Transferred-Post :
    (st st1 : Store) (q left : List Request) (r : Store × ObjectState × Bool)
    → PostProcessed st1 left r
    → Answers st q st1 left
    → Transferred st q (done r)
Transferred-Post st st1 q left (st', object, awaited) (s, h, e, a) x = (
  h,
  a ∙ ap (λ l. not (is_empty l)) (sym e),
  subst (λ l. Answers st q st' l) (sym e) (subst (λ s. Answers st q s left) (sym s) x),
)

serve-Processed :
    (st : Store) (q : List Request) (o : Outcome Processing)
    → Processed st q o
    → Transferred st q (elim o [
      | done (st', object', q') ↦ done (post_process_object_state st' object' q')
      | panicked ↦ panicked
      | out_of_rounds ↦ out_of_rounds
    ])
serve-Processed st q (done (st', object, left)) (h, e, w, a) =
    Transferred-Post st st' q (remaining left) _ (post_process-Post st' object left h e w) a
serve-Processed st q panicked p = tt
serve-Processed st q out_of_rounds p = tt

module _ (now : ℕ) (st : Store) where
  serve_queue :
      (object : ObjectState) (q : List Request)
      → IsSound object
      → queue_of object ≡ []
      → Transferred st q (serve now st (object, some q))
  unfolding serve
  serve_queue object q h e =
      serve-Processed st q _ (process_wait_queue-Processed now q st object h e)

  serve-none :
      (object : ObjectState)
      → IsSound object
      → queue_of object ≡ []
      → Transferred st [] (serve now st (object, none))
  unfolding serve
  serve-none object h e =
      Transferred-Post st st [] [] _ (post_process-Post st object none h e tt)
        ((λ p x. (x, refl)), ([], refl, tt))

  serve-Transferred :
      (object : ObjectState)
      → IsSound object
      → Transferred st (queue_of object) (serve now st (take_wait_queue object))
  unfolding take_wait_queue
  serve-Transferred (owned (Ownership.created o)) h = serve-none _ h refl
  serve-Transferred (owned (Ownership.created_awaitable (exclusive i o p q))) h =
      serve_queue _ q h refl
  serve-Transferred (owned (Ownership.protected o)) h = serve-none _ h refl
  serve-Transferred (owned (Ownership.protected_awaitable s)) h = serve_queue _ s.wait_queue tt refl
  serve-Transferred (owned (Ownership.locked o)) h = serve-none _ h refl
  serve-Transferred (owned (Ownership.locked_awaitable (exclusive i o p q))) h =
      serve_queue _ q h refl
  serve-Transferred (owned (Ownership.deleted o)) h = serve-none _ h refl
  serve-Transferred (owned (Ownership.deleted_awaitable (exclusive i o p q))) h =
      serve_queue _ q h refl
  serve-Transferred (ObjectState.created i) h = serve-none _ h refl
  serve-Transferred (ObjectState.deleted i) h = serve-none _ h refl

  prepared-Transferred :
      (q : List Request) (v : Option ObjectState)
      → ((p : ObjectState) → v ≡ some p → IsSound p × (queue_of p ≡ q))
      → Transferred st q (elim v [ none ↦ panicked | some p ↦ serve now st (take_wait_queue p) ])
  prepared-Transferred q none h = tt
  prepared-Transferred q (some p) h =
      subst (λ x. Transferred st x (serve now st (take_wait_queue p))) (h p refl).1
        (serve-Transferred p (h p refl).0)

-- On an object of a sound shape, a transfer that ends serves the wait queue from its front: each
-- request of the front has its result, if its placeholder is not poisoned, every other request
-- still waits for the object, in order, and the object is reported as awaited exactly when a
-- request is left. A request that had its result before, or whose placeholder is poisoned, keeps it
-- as it was.
pub transfer_object-Transferred :
    (now : ℕ) (st : Store) (object : ObjectState)
    → IsSound object
    → Transferred st (queue_of object) (transfer_object now st object)
unfolding transfer_object
transfer_object-Transferred now st object h =
    prepared-Transferred now st (queue_of object) (prepare_ownership_transfer st object)
      λ p e. (prepared-IsSound st object p h e, queue_of-prepared st object p h e)
