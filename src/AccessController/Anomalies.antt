-- ===== src/AccessController/Anomalies.antt =====
-- src/access_controller.rs: classes of objects and journals for which the code does not keep the
-- isolation that it promises. Each statement shows a reader or a writer that is served wrongly.
use elektro_em_eukal.Base.{done, ℕ, suc, ◌≡◌, true, false, Option, none, some, [], ◌∷◌, arith, ◌≤◌}
use elektro_em_eukal.Anchors.{
  Store, ok, eot_instant, is_rolled_back, is_terminated, transaction_id, prepare_instant,
}
use elektro_em_eukal.Snapshot.{Snapshot, sees, precedes}
use elektro_em_eukal.Access.{known, grant_read_access, Relationship, grant_write_access}
use elektro_em_eukal.AccessController.Object.{
  Request, Ownership, exclusive, no_prior, prior, ObjectState, owned, placeholder_of,
}
use elektro_em_eukal.AccessController.Prepare.{prepare_ownership_transfer}
use elektro_em_eukal.AccessController.Lock.{try_lock}
use elektro_em_eukal.AccessController.Delete.{try_delete}
use elektro_em_eukal.AccessController.Requests.{is_settled}
use elektro_em_eukal.AccessController.Transfer.{transfer_object}
use elektro_em_eukal.AccessController.Read.{read_object}
use elektro_em_eukal.AccessController.Visibility.{IsDatabaseSnapshot}

module _ (st : Store) (s : Snapshot) (deadline : Option ℕ) (d : IsDatabaseSnapshot s) where
  -- A journal that was rolled back in a transaction that commits has created nothing, and a snapshot
  -- of the database rightly does not see the object. The clean-up before the next access records the
  -- object as created at the commit instant, and snapshots from that instant on see it.
  pub discarded_creation_surfaces :
      (o c : ℕ)
      → eot_instant st o ≡ some (suc c)
      → is_rolled_back st o ≡ true
      → sees s (suc c) ≡ true
      → (prepare_ownership_transfer st (owned (Ownership.created o))
          ≡ some (ObjectState.created (suc c)))
        × (read_object st (owned (Ownership.created o)) s deadline ≡ known false)
        × (read_object st (ObjectState.created (suc c)) s deadline ≡ known true)
  unfolding prepare_ownership_transfer read_object grant_read_access
  discarded_creation_surfaces o c e r v = ground (arith, d.0, d.1)

  -- Likewise a discarded deletion takes effect when its transaction commits.
  pub discarded_deletion_takes_effect :
      (o c : ℕ)
      → eot_instant st o ≡ some (suc c)
      → is_rolled_back st o ≡ true
      → sees s (suc c) ≡ true
      → (prepare_ownership_transfer st (owned (Ownership.deleted o))
          ≡ some (ObjectState.deleted (suc c)))
        × (read_object st (owned (Ownership.deleted o)) s deadline ≡ known true)
        × (read_object st (ObjectState.deleted (suc c)) s deadline ≡ known false)
  unfolding prepare_ownership_transfer read_object grant_read_access sees precedes
  discarded_deletion_takes_effect o c e r v = ground (arith, d.0, d.1)

  -- When a transaction commits, the changes of a journal that was rolled back take effect at the commit
  -- instant: an object that it created becomes visible, and one that it deleted disappears.
  pub discarded_changes_take_effect :
      (o c : ℕ)
      → eot_instant st o ≡ some (suc c)
      → is_rolled_back st o ≡ true
      → sees s (suc c) ≡ true
      → ((prepare_ownership_transfer st (owned (Ownership.created o))
            ≡ some (ObjectState.created (suc c)))
          × (read_object st (owned (Ownership.created o)) s deadline ≡ known false)
          × (read_object st (ObjectState.created (suc c)) s deadline ≡ known true))
        × ((prepare_ownership_transfer st (owned (Ownership.deleted o))
              ≡ some (ObjectState.deleted (suc c)))
            × (read_object st (owned (Ownership.deleted o)) s deadline ≡ known true)
            × (read_object st (ObjectState.deleted (suc c)) s deadline ≡ known false))
  discarded_changes_take_effect o c e r v =
      (discarded_creation_surfaces o c e r v, discarded_deletion_takes_effect o c e r v)

  -- A committed deletion forgets when the object was created: a snapshot that is older than the
  -- object does not see it before the clean-up, and sees it afterwards.
  pub deletion_forgets_creation :
      (i o c : ℕ)
      → eot_instant st o ≡ some (suc c)
      → sees s i ≡ false
      → i ≤ suc c
      → let object = owned (Ownership.deleted_awaitable (exclusive i o no_prior [])) in
        (prepare_ownership_transfer st object ≡ some (ObjectState.deleted (suc c)))
        × (read_object st object s deadline ≡ known false)
        × (read_object st (ObjectState.deleted (suc c)) s deadline ≡ known true)
  unfolding prepare_ownership_transfer read_object sees precedes
  deletion_forgets_creation i o c e v h = ground arith

  -- A protector that promotes its ownership to a lock makes the object visible to snapshots that are
  -- older than the object.
  pub promotion_forgets_creation :
      (k i n : ℕ)
      → sees s i ≡ false
      → is_terminated st n ≡ false
      → let object = owned (
          Ownership.protected_awaitable
            (record { creation_instant = i; owner_set = n ∷ []; wait_queue = [] })) in
        let locked = owned (
          Ownership.locked_awaitable (
            exclusive 0 n
              (prior (
                Ownership.protected_awaitable
                  (record { creation_instant = i; owner_set = n ∷ []; wait_queue = [] })))
              [])) in
        (try_lock (suc k) st object n deadline ≡ done (locked, ok (some true)))
        × (read_object st object s deadline ≡ known false)
        × (read_object st locked s deadline ≡ known true)
  unfolding try_lock prepare_ownership_transfer read_object sees grant_write_access
  promotion_forgets_creation k i n v t = ground arith

  -- An object that a transaction creates and then deletes, before it ends, is visible to every
  -- snapshot of the database in between, though it was never there for anyone else.
  pub deleted_creation_visible :
      (k o n : ℕ)
      → eot_instant st o ≡ none
      → eot_instant st n ≡ none
      → prepare_instant (st.transactions (transaction_id st o)) ≡ none
      → prepare_instant (st.transactions (transaction_id st n)) ≡ none
      → grant_write_access st o n ≡ Relationship.linearizable
      → let deleted =
          owned (Ownership.deleted_awaitable (exclusive 0 n (prior (Ownership.created o)) [])) in
        (try_delete (suc k) st (owned (Ownership.created o)) n deadline
          ≡ done (deleted, ok (some true)))
        × (read_object st (owned (Ownership.created o)) s deadline ≡ known false)
        × (read_object st deleted s deadline ≡ known true)
  unfolding try_delete prepare_ownership_transfer read_object sees grant_read_access
  deleted_creation_visible k o n e f p q g = ground (arith, d.0, d.1)

-- A lock that was promoted from shared ownership forgets that ownership once its last waiting
-- request has timed out. When the promoting journal is rolled back, another transaction gets the
-- lock, whether or not the protector has ended.
pub promotion_loses_protection :
    (now k : ℕ) (st st' : Store) (o j n : ℕ) (r : Request) (deadline : Option ℕ)
    → is_rolled_back st o ≡ false
    → eot_instant st o ≡ none
    → is_settled (st.results (placeholder_of r)) ≡ true
    → grant_write_access st' o n ≡ Relationship.rolled_back
    → (transfer_object now st (
          owned
            (Ownership.locked_awaitable (exclusive 0 o (prior (Ownership.protected j)) (r ∷ []))))
        ≡ done (st, owned (Ownership.locked o), false))
      × (try_lock (suc k) st' (owned (Ownership.locked o)) n deadline
          ≡ done (owned (Ownership.locked n), ok (some true)))
unfolding transfer_object prepare_ownership_transfer try_lock
promotion_loses_protection now k st st' o j n r deadline h e s g = ground arith
