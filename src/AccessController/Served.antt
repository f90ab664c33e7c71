-- ===== src/AccessController/Served.antt =====
-- src/access_controller.rs: what `try_create` does to waiting requests.
use elektro_em_eukal.Base.{
  Outcome, done, out_of_rounds, panicked, ℕ, ◌≡◌, refl, subst, ◌⊎◌, inl, inr, Bool, true, false,
  Option, none, some, List, [], arith, All,
}
use elektro_em_eukal.Anchors.{Store, Result, ok, err, eot_instant, is_rolled_back}
use elektro_em_eukal.Access.{Relationship, grant_write_access}
use elektro_em_eukal.AccessController.Object.{
  Request, Ownership, PriorOwnership, exclusive, ObjectState, owned, queue_of, drop_queue,
}
use elektro_em_eukal.AccessController.Prepare.{prepare_ownership_transfer}
use elektro_em_eukal.AccessController.Create.{
  Created, awaitable_again, create_related, create_prepared, try_create,
}
use elektro_em_eukal.AccessController.Shape.{IsSound}
use elektro_em_eukal.AccessController.Waiters.{OwnedIfWaiting, prepared-IsSound, queue_of-prepared}
use elektro_em_eukal.AccessController.Settled.{
  Settles, Fails, KeepsResults, drop_queue-Settles, drop_queue-Fails, drop_queue-KeepsResults,
}

-- The journal or its transaction was rolled back.
abbrev pub WasUndone : Store → ℕ → Type 0
WasUndone st o = (eot_instant st o ≡ some 0) ⊎ (is_rolled_back st o ≡ true)

undone_of_relationship :
    (st : Store) (o n : ℕ) → grant_write_access st o n ≡ Relationship.rolled_back → WasUndone st o
unfolding grant_write_access
undone_of_relationship st o n e = ground arith

-- The object is held by the creation of a journal that was rolled back.
abbrev pub HoldsUndone : Store → ObjectState → Type 0
HoldsUndone st (owned (Ownership.created o)) = WasUndone st o
HoldsUndone st (owned (Ownership.created_awaitable (exclusive i o p q))) = WasUndone st o
HoldsUndone st (owned (Ownership.protected o)) = ⊥
HoldsUndone st (owned (Ownership.protected_awaitable s)) = ⊥
HoldsUndone st (owned (Ownership.locked o)) = ⊥
HoldsUndone st (owned (Ownership.locked_awaitable e)) = ⊥
HoldsUndone st (owned (Ownership.deleted o)) = ⊥
HoldsUndone st (owned (Ownership.deleted_awaitable e)) = ⊥
HoldsUndone st (ObjectState.created i) = ⊥
HoldsUndone st (ObjectState.deleted i) = ⊥

abbrev pub is_granted : Result (Option Bool) → Bool
is_granted (ok none) = false
is_granted (ok (some b)) = b
is_granted (err e) = false

-- The requests of the queue `q` fail, and every result that was there before stays.
abbrev pub DropsQueue : Store → List Request → Store → Type 0
DropsQueue st q st' =
    (st' ≡ drop_queue q st) × All (Settles st') q × All (Fails st st') q × KeepsResults st st'

-- What the journal `n` makes of an object that is cleaned up.
abbrev PreparedServes : Store → ℕ → ObjectState → Created → Type 0
PreparedServes st n p (st', object, r) =
    IsSound object
    × OwnedIfWaiting object r
    × (((queue_of object ≡ queue_of p) × (st' ≡ st) × (is_granted r ≡ false))
        ⊎ ((object ≡ owned (Ownership.created n))
            × (r ≡ ok (some true))
            × HoldsUndone st p
            × DropsQueue st (queue_of p) st'))

-- What the journal `n` makes of the object, the queue of which is `q`.
abbrev pub CreateServes : Store → ℕ → ObjectState → List Request → Outcome Created → Type 0
CreateServes st n before q (done (st', object, r)) =
    IsSound object
    × OwnedIfWaiting object r
    × (((queue_of object ≡ q) × (st' ≡ st) × (is_granted r ≡ false))
        ⊎ ((object ≡ owned (Ownership.created n))
            × (r ≡ ok (some true))
            × ((p : ObjectState) × (prepare_ownership_transfer st before ≡ some p)
                × HoldsUndone st p)
            × DropsQueue st q st'))
CreateServes st n before q panicked = Unit {0}
CreateServes st n before q out_of_rounds = Unit {0}

drop_queue-DropsQueue : (st : Store) (q : List Request) → DropsQueue st q (drop_queue q st)
drop_queue-DropsQueue st q =
    (refl, drop_queue-Settles q st, drop_queue-Fails q st, drop_queue-KeepsResults q st)

created-Serves :
    (rel : Relationship) (st : Store) (o n : ℕ) (deadline : Option ℕ)
    → grant_write_access st o n ≡ rel
    → PreparedServes st n
        (owned (Ownership.created o))
        (create_related rel st (Ownership.created o) o false [] n deadline)
unfolding create_related awaitable_again
created-Serves (Relationship.committed i) st o n deadline e = (tt, tt, inl (refl, refl, refl))
created-Serves Relationship.rolled_back st o n deadline e =
    (tt, tt, inr (refl, refl, undone_of_relationship st o n e, drop_queue-DropsQueue st []))
created-Serves Relationship.linearizable st o n deadline e = (tt, tt, inl (refl, refl, refl))
created-Serves Relationship.concurrent st o n deadline e = (tt, tt, inl (refl, refl, refl))
created-Serves Relationship.unknown st o n none e = (tt, tt, inl (refl, refl, refl))
created-Serves Relationship.unknown st o n (some d) e = ground arith

created_awaitable-Serves :
    (rel : Relationship) (st : Store) (i o : ℕ) (v : PriorOwnership) (q : List Request) (n : ℕ)
    (deadline : Option ℕ)
    → IsSound (owned (Ownership.created_awaitable (exclusive i o v q)))
    → grant_write_access st o n ≡ rel
    → PreparedServes st n (owned (Ownership.created_awaitable (exclusive i o v q))) (
        create_related rel st (Ownership.created_awaitable (exclusive i o v q)) o true q n deadline)
unfolding create_related awaitable_again
created_awaitable-Serves (Relationship.committed j) st i o v q n deadline h e =
    (h, tt, inl (refl, refl, refl))
created_awaitable-Serves Relationship.rolled_back st i o v q n deadline h e =
    (tt, tt, inr (refl, refl, undone_of_relationship st o n e, drop_queue-DropsQueue st q))
created_awaitable-Serves Relationship.linearizable st i o v q n deadline h e =
    (h, tt, inl (refl, refl, refl))
created_awaitable-Serves Relationship.concurrent st i o v q n deadline h e =
    (h, tt, inl (refl, refl, refl))
created_awaitable-Serves Relationship.unknown st i o v q n none h e =
    (h, tt, inl (refl, refl, refl))
created_awaitable-Serves Relationship.unknown st i o v q n (some d) h e =
    (h, tt, inl (refl, refl, refl))

create_prepared-Serves :
    (st : Store) (p : ObjectState) (n : ℕ) (deadline : Option ℕ)
    → IsSound p
    → PreparedServes st n p (create_prepared st p n deadline)
unfolding create_prepared
create_prepared-Serves st (owned (Ownership.created o)) n deadline h =
    created-Serves (grant_write_access st o n) st o n deadline refl
create_prepared-Serves st (owned (Ownership.created_awaitable (exclusive i o p q))) n deadline h =
    created_awaitable-Serves (grant_write_access st o n) st i o p q n deadline h refl
create_prepared-Serves st (owned (Ownership.protected o)) n deadline h =
    (h, tt, inl (refl, refl, refl))
create_prepared-Serves st (owned (Ownership.protected_awaitable s)) n deadline h =
    (h, tt, inl (refl, refl, refl))
create_prepared-Serves st (owned (Ownership.locked o)) n deadline h =
    (h, tt, inl (refl, refl, refl))
create_prepared-Serves st (owned (Ownership.locked_awaitable e)) n deadline h =
    (h, tt, inl (refl, refl, refl))
create_prepared-Serves st (owned (Ownership.deleted o)) n deadline h =
    (h, tt, inl (refl, refl, refl))
create_prepared-Serves st (owned (Ownership.deleted_awaitable e)) n deadline h =
    (h, tt, inl (refl, refl, refl))
create_prepared-Serves st (ObjectState.created i) n deadline h = (h, tt, inl (refl, refl, refl))
create_prepared-Serves st (ObjectState.deleted i) n deadline h = (h, tt, inl (refl, refl, refl))

CreateServes-Prepared :
    (st : Store) (n : ℕ) (before p : ObjectState) (r : Created)
    → prepare_ownership_transfer st before ≡ some p
    → PreparedServes st n p r
    → CreateServes st n before (queue_of p) (done r)
CreateServes-Prepared st n before p (st', object, r) e (s, w, inl kept) = (s, w, inl kept)
CreateServes-Prepared st n before p (st', object, r) e (s, w, inr (o, g, u, d)) =
    (s, w, inr (o, g, (p, e, u), d))

prepared-CreateServes :
    (st : Store) (n : ℕ) (deadline : Option ℕ) (before : ObjectState) (q : List Request)
    (v : Option ObjectState)
    → prepare_ownership_transfer st before ≡ v
    → ((p : ObjectState) → v ≡ some p → IsSound p × (queue_of p ≡ q))
    → CreateServes st n before q
        (elim v [ none ↦ panicked | some p ↦ done (create_prepared st p n deadline) ])
prepared-CreateServes st n deadline before q none e h = tt
prepared-CreateServes st n deadline before q (some p) e h =
    subst (λ x. CreateServes st n before x (done (create_prepared st p n deadline))) (h p refl).1
      (CreateServes-Prepared st n before p _ e
        (create_prepared-Serves st p n deadline (h p refl).0))

-- On an object of a sound shape, an attempt at a creation that ends leaves the queue and the store
-- as they were and is not granted, or it is granted, and the journal owns the object as created. It
-- is granted only if the object, cleaned up, was held by the creation of a journal that was rolled
-- back, or whose transaction was: then every request that waited for the object has its result, if
-- its placeholder is not poisoned, which says that memory ran out if it had none before, and no
-- earlier result changes. The journal is told to wait only for an object with an owner.
pub try_create-Serves :
    (st : Store) (object : ObjectState) (n : ℕ) (deadline : Option ℕ)
    → IsSound object
    → CreateServes st n object (queue_of object) (try_create st object n deadline)
unfolding try_create
try_create-Serves st object n deadline h =
    prepared-CreateServes st n deadline object (queue_of object)
      (prepare_ownership_transfer st object) refl
      λ p e. (prepared-IsSound st object p h e, queue_of-prepared st object p h e)
