-- ===== src/AccessController/Visibility.antt =====
-- src/access_controller.rs: what the clean-up before an access does to readers. It may not change
-- what a snapshot of the database sees; where it does, the statement says for which objects.
use elektro_em_eukal.Base.{
  ℕ, ◌≡◌, refl, ap, subst, true, false, not, ◌&&◌, Option, none, some, [], ◌∷◌, arith, All, leb,
}
use elektro_em_eukal.Anchors.{Store, eot_instant, is_rolled_back, is_terminated}
use elektro_em_eukal.Snapshot.{Snapshot, sees, precedes}
use elektro_em_eukal.Access.{known, grant_read_access}
use elektro_em_eukal.AccessController.Object.{Ownership, exclusive, ObjectState, owned}
use elektro_em_eukal.AccessController.Prepare.{settle, prepare_ownership_transfer}
use elektro_em_eukal.AccessController.Freed.{revoke_promoted-same}
use elektro_em_eukal.AccessController.Owners.{owners_of}
use elektro_em_eukal.AccessController.Read.{read_object}

-- A snapshot that belongs to no transaction and to no journal.
abbrev pub IsDatabaseSnapshot : Snapshot → Type 0
IsDatabaseSnapshot s = (s.transaction_snapshot ≡ none) × (s.journal_snapshot ≡ none)

-- The creation instant that an object still carries.
abbrev pub creation_of : ObjectState → ℕ
creation_of (owned (Ownership.created o)) = 0
creation_of (owned (Ownership.created_awaitable (exclusive i o p q))) = i
creation_of (owned (Ownership.protected o)) = 0
creation_of (owned (Ownership.protected_awaitable s)) = s.creation_instant
creation_of (owned (Ownership.locked o)) = 0
creation_of (owned (Ownership.locked_awaitable (exclusive i o p q))) = i
creation_of (owned (Ownership.deleted o)) = 0
creation_of (owned (Ownership.deleted_awaitable (exclusive i o p q))) = i
creation_of (ObjectState.created i) = i
creation_of (ObjectState.deleted i) = 0

module _ (st : Store) (s : Snapshot) (deadline : Option ℕ) (d : IsDatabaseSnapshot s) where
  -- A snapshot of the database reads an ended owner by its commit instant.
  read_committed :
      (o c : ℕ)
      → eot_instant st o ≡ some c
      → is_rolled_back st o ≡ false
      → grant_read_access st o s deadline ≡ known (not (leb c 0) && sees s c)
  unfolding grant_read_access sees
  read_committed o c e r = ground (arith, d.0, d.1)

  settle-read :
      (w : Ownership) (o : ℕ) (v : Option ℕ)
      → owners_of (owned w) ≡ o ∷ []
      → eot_instant st o ≡ v
      → is_rolled_back st o ≡ false
      → sees s (creation_of (owned w)) ≡ true
      → read_object st (settle st w) s deadline ≡ read_object st (owned w) s deadline
  unfolding settle read_object sees precedes is_terminated
  settle-read (Ownership.created o) o' none h e r v = ground arith
  settle-read (Ownership.created o) o' (some c) h e r v = ground (arith, read_committed o c)
  settle-read (Ownership.created_awaitable (exclusive i o p q)) o' none h e r v = ground arith
  settle-read (Ownership.created_awaitable (exclusive i o p q)) o' (some c) h e r v =
      ground (arith, read_committed o c)
  settle-read (Ownership.protected o) o' c h e r v = refl
  settle-read (Ownership.protected_awaitable x) o' c h e r v = refl
  settle-read (Ownership.locked o) o' c h e r v = refl
  settle-read (Ownership.locked_awaitable (exclusive i o p q)) o' none h e r v = ground arith
  settle-read (Ownership.locked_awaitable (exclusive i o p q)) o' (some c) h e r v = ground arith
  settle-read (Ownership.deleted o) o' none h e r v = ground arith
  settle-read (Ownership.deleted o) o' (some c) h e r v = ground (arith, read_committed o c)
  settle-read (Ownership.deleted_awaitable (exclusive i o p q)) o' none h e r v = ground arith
  settle-read (Ownership.deleted_awaitable (exclusive i o p q)) o' (some c) h e r v =
      ground (arith, read_committed o c)

  settled-read :
      (w : Ownership) (o : ℕ) (v : Option Ownership) (p : ObjectState)
      → v ≡ some w
      → elim v [ none ↦ none | some w ↦ some (settle st w) ] ≡ some p
      → owners_of (owned w) ≡ o ∷ []
      → is_rolled_back st o ≡ false
      → sees s (creation_of (owned w)) ≡ true
      → read_object st p s deadline ≡ read_object st (owned w) s deadline
  settled-read w o none p h e q r v = cc
  settled-read w o (some w') p h e q r v =
      let same : settle st w ≡ p = cc in
      subst (λ x. read_object st x s deadline ≡ read_object st (owned w) s deadline) same
        (settle-read w o (eot_instant st o) q refl r v)

  same-read :
      (object p : ObjectState)
      → some object ≡ some p
      → read_object st p s deadline ≡ read_object st object s deadline
  same-read object p e = let same : p ≡ object = cc in ap (λ x. read_object st x s deadline) same

  -- The clean-up does not change what a snapshot of the database sees of an object, if no owner of
  -- the object has been rolled back and the snapshot is not older than the object.
  pub prepare-read :
      (object p : ObjectState)
      → prepare_ownership_transfer st object ≡ some p
      → All (λ o. is_rolled_back st o ≡ false) (owners_of object)
      → sees s (creation_of object) ≡ true
      → read_object st p s deadline ≡ read_object st object s deadline
  unfolding prepare_ownership_transfer
  prepare-read (owned (Ownership.created o)) p e a v =
      settled-read (Ownership.created o) o _ p refl e refl a.0 v
  prepare-read (owned (Ownership.created_awaitable (exclusive i o pr q))) p e a v =
      settled-read (Ownership.created_awaitable (exclusive i o pr q)) o _ p refl e refl a.0 v
  prepare-read (owned (Ownership.protected o)) p e a v =
      settled-read (Ownership.protected o) o _ p refl e refl a.0 v
  prepare-read (owned (Ownership.protected_awaitable x)) p e a v =
      same-read (owned (Ownership.protected_awaitable x)) p e
  prepare-read (owned (Ownership.locked o)) p e a v =
      settled-read (Ownership.locked o) o _ p refl e refl a.0 v
  prepare-read (owned (Ownership.locked_awaitable (exclusive i o pr q))) p e a v =
      let w = Ownership.locked_awaitable (exclusive i o pr q) in
      settled-read w o _ p (revoke_promoted-same st w o pr q a.0) e refl a.0 v
  prepare-read (owned (Ownership.deleted o)) p e a v =
      settled-read (Ownership.deleted o) o _ p refl e refl a.0 v
  prepare-read (owned (Ownership.deleted_awaitable (exclusive i o pr q))) p e a v =
      let w = Ownership.deleted_awaitable (exclusive i o pr q) in
      settled-read w o _ p (revoke_promoted-same st w o pr q a.0) e refl a.0 v
  prepare-read (ObjectState.created i) p e a v = same-read (ObjectState.created i) p e
  prepare-read (ObjectState.deleted i) p e a v = same-read (ObjectState.deleted i) p e
