-- ===== src/AccessController/Completion.antt =====
-- src/access_controller.rs: a transfer of ownership ends, by a panic exactly if the object is stuck.
use elektro_em_eukal.Base.{
  Outcome, done, out_of_rounds, panicked, ℕ, ◌≡◌, refl, sym, subst, ◌∙◌, ap, Bool, true, false,
  Option, none, some, List, [], ◌∷◌, arith, is_some, not, inl, inr, Bool-cases,
}
use elektro_em_eukal.Anchors.{
  Store, Result, ok, err, eot_instant, is_rolled_back, set_wake_up_others,
}
use elektro_em_eukal.AccessController.Object.{
  Request, Ownership, exclusive, no_prior, prior, ObjectState, owned, queue_of, placeholder_of,
  owner_of,
}
use elektro_em_eukal.AccessController.Prepare.{prepare_ownership_transfer}
use elektro_em_eukal.AccessController.Create.{Created, try_create}
use elektro_em_eukal.AccessController.Exclusive.{Attempt}
use elektro_em_eukal.AccessController.Requests.{
  rounds_for, with_store, attempt_request, answer, is_settled, Processing, conclude_request,
  process_wait_queue, post_process_object_state,
}
use elektro_em_eukal.AccessController.Transfer.{take_wait_queue, serve, transfer_object}
use elektro_em_eukal.AccessController.Shape.{IsSound}
use elektro_em_eukal.AccessController.Waiters.{prepared-IsSound}
use elektro_em_eukal.AccessController.Attempts.{AttemptServes, attempt_request-Serves}
use elektro_em_eukal.AccessController.Panic.{is_stuck, prepare-some_iff}
use elektro_em_eukal.AccessController.Progress.{RollsJournalsBack}
use elektro_em_eukal.AccessController.Termination.{
  IsDone, Ends, unstuck-Ends, try_share-Ends, try_lock-Ends, try_delete-Ends,
}

empty_prior :
    (st : Store) (i o : ℕ) (p : Ownership)
    → is_stuck st (owned (Ownership.deleted_awaitable (exclusive i o (prior p) []))) ≡ false
empty_prior st i o (Ownership.created p) = refl
empty_prior st i o (Ownership.created_awaitable e) = refl
empty_prior st i o (Ownership.protected p) = refl
empty_prior st i o (Ownership.protected_awaitable s) = refl
empty_prior st i o (Ownership.locked p) = refl
empty_prior st i o (Ownership.locked_awaitable e) = refl
empty_prior st i o (Ownership.deleted p) = refl
empty_prior st i o (Ownership.deleted_awaitable e) = refl

empty-unstuck :
    (st : Store) (object : ObjectState) → queue_of object ≡ [] → is_stuck st object ≡ false
empty-unstuck st (owned (Ownership.created o)) h = refl
empty-unstuck st (owned (Ownership.created_awaitable e)) h = refl
empty-unstuck st (owned (Ownership.protected o)) h = refl
empty-unstuck st (owned (Ownership.protected_awaitable s)) h = refl
empty-unstuck st (owned (Ownership.locked o)) h = refl
empty-unstuck st (owned (Ownership.locked_awaitable e)) h = refl
empty-unstuck st (owned (Ownership.deleted o)) h = refl
empty-unstuck st (owned (Ownership.deleted_awaitable (exclusive i o no_prior q))) h = refl
empty-unstuck st (owned (Ownership.deleted_awaitable (exclusive i o (prior p) []))) h =
    empty_prior st i o p
empty-unstuck st (owned (Ownership.deleted_awaitable (exclusive i o (prior p) (r ∷ q)))) h =
    absurd cc
empty-unstuck st (ObjectState.created i) h = refl
empty-unstuck st (ObjectState.deleted i) h = refl

-- An access for a request that ends by a result and leaves the store as it was.
abbrev IsAttempted : Store → Outcome Created → Type 0
IsAttempted st (done (st', object, r)) = st' ≡ st
IsAttempted st panicked = ⊥
IsAttempted st out_of_rounds = ⊥

with_store-IsAttempted :
    (st : Store) (r : Outcome Attempt) → IsDone r → IsAttempted st (with_store st r)
unfolding with_store
with_store-IsAttempted st (done (object, r)) h = refl
with_store-IsAttempted st panicked h = absurd h
with_store-IsAttempted st out_of_rounds h = absurd h

created-IsAttempted :
    (st : Store) (r : Outcome Created) → AttemptServes st r → IsDone r → IsAttempted st r
created-IsAttempted st (done (st', object, r)) (s, q, w, e) d = e
created-IsAttempted st panicked h d = absurd d
created-IsAttempted st out_of_rounds h d = absurd d

prepared-IsDone :
    (F : ObjectState → Created) (v : Option ObjectState)
    → is_some v ≡ true
    → IsDone (elim v [ none ↦ panicked | some p ↦ done (F p) ])
prepared-IsDone F none e = absurd cc
prepared-IsDone F (some p) e = tt

module _ (st : Store) (object : ObjectState) (s : IsSound object) (e : queue_of object ≡ []) where
  try_create-IsDone : (n : ℕ) (deadline : Option ℕ) → IsDone (try_create st object n deadline)
  unfolding try_create
  try_create-IsDone n deadline =
      prepared-IsDone _ (prepare_ownership_transfer st object)
        (prepare-some_iff st object s ∙ ap not (empty-unstuck st object e))

  attempt_request-IsAttempted :
      (r : Request) (now : ℕ)
      → RollsJournalsBack st
      → IsAttempted st (attempt_request r now st object)
  unfolding attempt_request
  attempt_request-IsAttempted (Request.create at n p) now b =
      created-IsAttempted st _ (attempt_request-Serves (Request.create at n p) now st object s e)
        (try_create-IsDone n (some now))
  attempt_request-IsAttempted (Request.protect at n p) now b = with_store-IsAttempted st _ (
      unstuck-Ends (is_stuck st object) _ (empty-unstuck st object e)
        (try_share-Ends (rounds_for object) st object n (some now) b s (omega arith)))
  attempt_request-IsAttempted (Request.lock at n p) now b = with_store-IsAttempted st _ (
      unstuck-Ends (is_stuck st object) _ (empty-unstuck st object e)
        (try_lock-Ends (rounds_for object) st object n (some now) b s (omega arith)))
  attempt_request-IsAttempted (Request.delete at n p) now b = with_store-IsAttempted st _ (
      unstuck-Ends (is_stuck st object) _ (empty-unstuck st object e)
        (try_delete-Ends (rounds_for object) st object n (some now) b s (omega arith)))

-- The stores of a transfer still roll the journals of a rolled back transaction back.
answered-RollsJournalsBack :
    (st : Store) (r : Result Bool) (p : ℕ)
    → RollsJournalsBack st
    → RollsJournalsBack (answer p r st)
unfolding answer eot_instant is_rolled_back
answered-RollsJournalsBack st r p b j e = b j e

woken-RollsJournalsBack :
    (st : Store) (o : ℕ) → RollsJournalsBack st → RollsJournalsBack (set_wake_up_others o st)
unfolding set_wake_up_others eot_instant is_rolled_back
woken-RollsJournalsBack st o b j e = ground (arith, b j)

-- The rest of a queue is processed, on any store and object that an access leaves.
abbrev Completes : (Store → ObjectState → Outcome Processing) → Type 0
Completes next =
    (st : Store) (object : ObjectState)
    → RollsJournalsBack st
    → IsSound object
    → queue_of object ≡ []
    → IsDone (next st object)

concluded-IsDone :
    (next : Store → ObjectState → Outcome Processing) (r : Request) (rest : List Request)
    (st : Store) (o : Outcome Created)
    → Completes next
    → RollsJournalsBack st
    → AttemptServes st o
    → IsAttempted st o
    → IsDone (conclude_request next r rest o)
unfolding conclude_request
concluded-IsDone next r rest st (done (st', object, ok (some granted))) c b a e =
    c (answer (placeholder_of r) (ok granted) (set_wake_up_others (owner_of r) st')) object
      (answered-RollsJournalsBack (set_wake_up_others (owner_of r) st') (ok granted)
        (placeholder_of r)
        (woken-RollsJournalsBack st' (owner_of r) (subst RollsJournalsBack (sym e) b)))
      a.0 a.1
concluded-IsDone next r rest st (done (st', object, ok none)) c b a e = tt
concluded-IsDone next r rest st (done (st', object, err x)) c b a e =
    c (answer (placeholder_of r) (err x) st') object
      (answered-RollsJournalsBack st' (err x) (placeholder_of r)
        (subst RollsJournalsBack (sym e) b))
      a.0 a.1
concluded-IsDone next r rest st panicked c b h e = absurd e
concluded-IsDone next r rest st out_of_rounds c b h e = absurd e

process_wait_queue-IsDone :
    (now : ℕ) (q : List Request) → Completes (λ st object. process_wait_queue now st object q)
unfolding process_wait_queue
process_wait_queue-IsDone now [] st object b s e = tt
process_wait_queue-IsDone now (r ∷ rest) st object b s e =
    let later = process_wait_queue-IsDone now rest in
    elim (Bool-cases (is_settled (st.results (placeholder_of r)))) [
      | inl t ↦ rw (process_wait_queue, t) (later st object b s e)
      | inr f ↦
          rw (process_wait_queue, f)
            (concluded-IsDone (λ st' object'. process_wait_queue now st' object' rest) r rest st
              (attempt_request r now st object) later b (attempt_request-Serves r now st object s e)
              (attempt_request-IsAttempted st object s e r now b))
    ]

served-IsDone :
    (o : Outcome Processing)
    → IsDone o
    → IsDone (elim o [
      | done (st', object', q') ↦ done (post_process_object_state st' object' q')
      | panicked ↦ panicked
      | out_of_rounds ↦ out_of_rounds
    ])
served-IsDone (done (st', object', q')) h = tt
served-IsDone panicked h = absurd h
served-IsDone out_of_rounds h = absurd h

module _ (now : ℕ) (st : Store) (b : RollsJournalsBack st) where
  serve_queue-IsDone :
      (object : ObjectState) (q : List Request)
      → IsSound object
      → queue_of object ≡ []
      → IsDone (serve now st (object, some q))
  unfolding serve
  serve_queue-IsDone object q h e =
      served-IsDone _ (process_wait_queue-IsDone now q st object b h e)

  serve-IsDone :
      (object : ObjectState) → IsSound object → IsDone (serve now st (take_wait_queue object))
  unfolding take_wait_queue serve
  serve-IsDone (owned (Ownership.created o)) h = tt
  serve-IsDone (owned (Ownership.created_awaitable (exclusive i o p q))) h =
      serve_queue-IsDone _ q h refl
  serve-IsDone (owned (Ownership.protected o)) h = tt
  serve-IsDone (owned (Ownership.protected_awaitable s)) h =
      serve_queue-IsDone _ s.wait_queue tt refl
  serve-IsDone (owned (Ownership.locked o)) h = tt
  serve-IsDone (owned (Ownership.locked_awaitable (exclusive i o p q))) h =
      serve_queue-IsDone _ q h refl
  serve-IsDone (owned (Ownership.deleted o)) h = tt
  serve-IsDone (owned (Ownership.deleted_awaitable (exclusive i o p q))) h =
      serve_queue-IsDone _ q h refl
  serve-IsDone (ObjectState.created i) h = tt
  serve-IsDone (ObjectState.deleted i) h = tt

  prepared-transfer :
      (v : Option ObjectState) (stuck : Bool)
      → is_some v ≡ not stuck
      → ((p : ObjectState) → v ≡ some p → IsSound p)
      → Ends stuck (elim v [ none ↦ panicked | some p ↦ serve now st (take_wait_queue p) ])
  prepared-transfer none true e h = refl
  prepared-transfer none false e h = absurd cc
  prepared-transfer (some p) true e h = absurd cc
  prepared-transfer (some p) false e h = serve-IsDone p (h p refl)

-- A transfer ends, by the panic of the clean-up if the object is stuck and by a result otherwise,
-- on a store where a transaction that was rolled back has rolled its journals back.
pub transfer_object-Ends :
    (now : ℕ) (st : Store) (object : ObjectState)
    → RollsJournalsBack st
    → IsSound object
    → Ends (is_stuck st object) (transfer_object now st object)
unfolding transfer_object
transfer_object-Ends now st object b s =
    prepared-transfer now st b (prepare_ownership_transfer st object) (is_stuck st object)
      (prepare-some_iff st object s) (λ p e. prepared-IsSound st object p s e)
