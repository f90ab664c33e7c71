-- ===== src/AccessController/Owners.antt =====
-- src/access_controller.rs: the owners of a database object, and when they have let go of it.
use elektro_em_eukal.Base.{ℕ, ◌≡◌, refl, ◌⊎◌, true, false, List, [], ◌∷◌, arith, All}
use elektro_em_eukal.Anchors.{Store, is_terminated}
use elektro_em_eukal.Access.{Relationship, grant_write_access}
use elektro_em_eukal.AccessController.Object.{
  Ownership, exclusive, ObjectState, owned, retain_active, any_incompatible, is_linearizable,
}

abbrev pub owners_of : ObjectState → List ℕ
owners_of (owned (Ownership.created o)) = o ∷ []
owners_of (owned (Ownership.created_awaitable (exclusive i o p q))) = o ∷ []
owners_of (owned (Ownership.protected o)) = o ∷ []
owners_of (owned (Ownership.protected_awaitable s)) = s.owner_set
owners_of (owned (Ownership.locked o)) = o ∷ []
owners_of (owned (Ownership.locked_awaitable (exclusive i o p q))) = o ∷ []
owners_of (owned (Ownership.deleted o)) = o ∷ []
owners_of (owned (Ownership.deleted_awaitable (exclusive i o p q))) = o ∷ []
owners_of (ObjectState.created i) = []
owners_of (ObjectState.deleted i) = []

-- The owners that keep every other transaction out.
abbrev pub exclusive_owners_of : ObjectState → List ℕ
exclusive_owners_of (owned (Ownership.created o)) = o ∷ []
exclusive_owners_of (owned (Ownership.created_awaitable (exclusive i o p q))) = o ∷ []
exclusive_owners_of (owned (Ownership.protected o)) = []
exclusive_owners_of (owned (Ownership.protected_awaitable s)) = []
exclusive_owners_of (owned (Ownership.locked o)) = o ∷ []
exclusive_owners_of (owned (Ownership.locked_awaitable (exclusive i o p q))) = o ∷ []
exclusive_owners_of (owned (Ownership.deleted o)) = o ∷ []
exclusive_owners_of (owned (Ownership.deleted_awaitable (exclusive i o p q))) = o ∷ []
exclusive_owners_of (ObjectState.created i) = []
exclusive_owners_of (ObjectState.deleted i) = []

-- The owner `o` is no obstacle to `n`: its journal or its transaction has ended, or the two are
-- journals of one transaction, in order.
abbrev pub HasLetGo : Store → ℕ → ℕ → Type 0
HasLetGo st n o =
    (is_terminated st o ≡ true) ⊎ (grant_write_access st o n ≡ Relationship.linearizable)

abbrev pub HasEnded : Relationship → Type 0
HasEnded (Relationship.committed i) = Unit {0}
HasEnded Relationship.rolled_back = Unit {0}
HasEnded Relationship.linearizable = ⊥
HasEnded Relationship.concurrent = ⊥
HasEnded Relationship.unknown = ⊥

-- A committed or rolled back owner is terminated.
pub terminated_of_ended :
    (st : Store) (o n : ℕ) → HasEnded (grant_write_access st o n) → is_terminated st o ≡ true
unfolding grant_write_access is_terminated
terminated_of_ended st o n h = ground arith

pub linearizable_of_test :
    (r : Relationship) → is_linearizable r ≡ true → r ≡ Relationship.linearizable
linearizable_of_test (Relationship.committed i) h = cc
linearizable_of_test Relationship.rolled_back h = cc
linearizable_of_test Relationship.linearizable h = refl
linearizable_of_test Relationship.concurrent h = cc
linearizable_of_test Relationship.unknown h = cc

module _ (st : Store) (n : ℕ) where
  pub retain_active-HasLetGo :
      (os : List ℕ) → All (HasLetGo st n) (retain_active st os) → All (HasLetGo st n) os
  unfolding retain_active
  retain_active-HasLetGo [] a = tt
  retain_active-HasLetGo (o ∷ os) a = ground (arith, retain_active-HasLetGo os)

  pub compatible-HasLetGo :
      (os : List ℕ) → any_incompatible st os n ≡ false → All (HasLetGo st n) os
  unfolding any_incompatible
  compatible-HasLetGo [] h = tt
  compatible-HasLetGo (o ∷ os) h =
      ground (arith, compatible-HasLetGo os, linearizable_of_test (grant_write_access st o n))
