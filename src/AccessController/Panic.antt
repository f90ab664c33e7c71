-- ===== src/AccessController/Panic.antt =====
-- src/access_controller.rs: where the clean-up before an access reaches its `unreachable!()`.
use elektro_em_eukal.Base.{
  ℕ, ◌≡◌, refl, Bool, true, false, Option, none, some, List, [], ◌∷◌, arith, is_some, not, subst,
  ◌∙◌,
}
use elektro_em_eukal.Anchors.{Store, is_rolled_back}
use elektro_em_eukal.AccessController.Object.{
  Request, Ownership, exclusive, PriorOwnership, no_prior, prior, ObjectState, owned,
}
use elektro_em_eukal.AccessController.Shape.{IsLockPrior, IsDeletePrior, IsSoundOwnership, IsSound}
use elektro_em_eukal.AccessController.Prepare.{
  revoke_promoted, revoke, settle, prepare_ownership_transfer,
}

-- A deletion that was promoted from a creation, waited for, and rolled back.
abbrev pub is_stuck : Store → ObjectState → Bool
is_stuck st (owned (Ownership.created o)) = false
is_stuck st (owned (Ownership.created_awaitable e)) = false
is_stuck st (owned (Ownership.protected o)) = false
is_stuck st (owned (Ownership.protected_awaitable s)) = false
is_stuck st (owned (Ownership.locked o)) = false
is_stuck st (owned (Ownership.locked_awaitable e)) = false
is_stuck st (owned (Ownership.deleted o)) = false
is_stuck st
      (owned (Ownership.deleted_awaitable (exclusive i o (prior (Ownership.created p)) (r ∷ q)))) =
    is_rolled_back st o
is_stuck st
      (owned (
        Ownership.deleted_awaitable
          (exclusive i o (prior (Ownership.created_awaitable e)) (r ∷ q)))) =
    is_rolled_back st o
is_stuck st (owned (Ownership.deleted_awaitable e)) = false
is_stuck st (ObjectState.created i) = false
is_stuck st (ObjectState.deleted i) = false

revoke_lock-some :
    (st : Store) (i o : ℕ) (p : PriorOwnership) (q : List Request)
    → IsLockPrior p
    → is_some (revoke_promoted st (Ownership.locked_awaitable (exclusive i o p q)) o p q) ≡ true
unfolding revoke_promoted
revoke_lock-some st i o no_prior q h = refl
revoke_lock-some st i o (prior (Ownership.protected p)) [] h = ground arith
revoke_lock-some st i o (prior (Ownership.protected p)) (r ∷ q) h = ground arith
revoke_lock-some st i o (prior (Ownership.protected_awaitable s)) [] h = ground arith
revoke_lock-some st i o (prior (Ownership.protected_awaitable s)) (r ∷ q) h = ground arith
revoke_lock-some st i o (prior (Ownership.created p)) q h = absurd h
revoke_lock-some st i o (prior (Ownership.created_awaitable p)) q h = absurd h
revoke_lock-some st i o (prior (Ownership.locked p)) q h = absurd h
revoke_lock-some st i o (prior (Ownership.locked_awaitable p)) q h = absurd h
revoke_lock-some st i o (prior (Ownership.deleted p)) q h = absurd h
revoke_lock-some st i o (prior (Ownership.deleted_awaitable p)) q h = absurd h

revoke_delete-some :
    (st : Store) (i o : ℕ) (p : PriorOwnership) (q : List Request)
    → IsDeletePrior p
    → is_some (revoke_promoted st (Ownership.deleted_awaitable (exclusive i o p q)) o p q)
      ≡ not (is_stuck st (owned (Ownership.deleted_awaitable (exclusive i o p q))))
unfolding revoke_promoted
revoke_delete-some st i o no_prior q h = refl
revoke_delete-some st i o (prior (Ownership.created p)) [] h = ground arith
revoke_delete-some st i o (prior (Ownership.created p)) (r ∷ q) h = ground arith
revoke_delete-some st i o (prior (Ownership.created_awaitable e)) [] h = ground arith
revoke_delete-some st i o (prior (Ownership.created_awaitable e)) (r ∷ q) h = ground arith
revoke_delete-some st i o (prior (Ownership.protected p)) [] h = ground arith
revoke_delete-some st i o (prior (Ownership.protected p)) (r ∷ q) h = ground arith
revoke_delete-some st i o (prior (Ownership.protected_awaitable s)) [] h = ground arith
revoke_delete-some st i o (prior (Ownership.protected_awaitable s)) (r ∷ q) h = ground arith
revoke_delete-some st i o (prior (Ownership.locked p)) [] h = ground arith
revoke_delete-some st i o (prior (Ownership.locked p)) (r ∷ q) h = ground arith
revoke_delete-some st i o (prior (Ownership.locked_awaitable (exclusive j p pr q'))) [] h =
    ground arith
revoke_delete-some st i o (prior (Ownership.locked_awaitable (exclusive j p pr q'))) (r ∷ q) h =
    ground (arith, revoke_lock-some st j p pr (r ∷ q) h.0)
revoke_delete-some st i o (prior (Ownership.deleted p)) q h = absurd h
revoke_delete-some st i o (prior (Ownership.deleted_awaitable p)) q h = absurd h

some-settle :
    (st : Store) (v : Option Ownership)
    → is_some {A = ObjectState} (elim v [ none ↦ none | some w ↦ some (settle st w) ]) ≡ is_some v
some-settle st none = refl
some-settle st (some w) = refl

-- The clean-up panics on a deletion that was promoted from a creation, is waited for, and was
-- rolled back, and on no other object.
pub prepare-some_iff :
    (st : Store) (object : ObjectState)
    → IsSound object
    → is_some (prepare_ownership_transfer st object) ≡ not (is_stuck st object)
unfolding prepare_ownership_transfer
prepare-some_iff st (owned (Ownership.created o)) h = refl
prepare-some_iff st (owned (Ownership.created_awaitable e)) h = refl
prepare-some_iff st (owned (Ownership.protected o)) h = refl
prepare-some_iff st (owned (Ownership.protected_awaitable s)) h = refl
prepare-some_iff st (owned (Ownership.locked o)) h = refl
prepare-some_iff st (owned (Ownership.locked_awaitable (exclusive i o p q))) h =
    some-settle st _ ∙ revoke_lock-some st i o p q h
prepare-some_iff st (owned (Ownership.deleted o)) h = refl
prepare-some_iff st (owned (Ownership.deleted_awaitable (exclusive i o p q))) h =
    some-settle st _ ∙ revoke_delete-some st i o p q h
prepare-some_iff st (ObjectState.created i) h = refl
prepare-some_iff st (ObjectState.deleted i) h = refl

-- What the clean-up has passed over is not stuck any more.
abbrev IsUnstuck : Store → Option Ownership → Type 0
IsUnstuck st none = Unit {0}
IsUnstuck st (some w) = is_stuck st (owned w) ≡ false

revoke_lock-IsUnstuck :
    (st : Store) (i o : ℕ) (p : PriorOwnership) (q : List Request)
    → IsLockPrior p
    → IsUnstuck st (revoke_promoted st (Ownership.locked_awaitable (exclusive i o p q)) o p q)
unfolding revoke_promoted
revoke_lock-IsUnstuck st i o no_prior q h = ground arith
revoke_lock-IsUnstuck st i o (prior (Ownership.protected p)) [] h = ground arith
revoke_lock-IsUnstuck st i o (prior (Ownership.protected p)) (r ∷ q) h = ground arith
revoke_lock-IsUnstuck st i o (prior (Ownership.protected_awaitable s)) [] h = ground arith
revoke_lock-IsUnstuck st i o (prior (Ownership.protected_awaitable s)) (r ∷ q) h = ground arith
revoke_lock-IsUnstuck st i o (prior (Ownership.created p)) q h = absurd h
revoke_lock-IsUnstuck st i o (prior (Ownership.created_awaitable p)) q h = absurd h
revoke_lock-IsUnstuck st i o (prior (Ownership.locked p)) q h = absurd h
revoke_lock-IsUnstuck st i o (prior (Ownership.locked_awaitable p)) q h = absurd h
revoke_lock-IsUnstuck st i o (prior (Ownership.deleted p)) q h = absurd h
revoke_lock-IsUnstuck st i o (prior (Ownership.deleted_awaitable p)) q h = absurd h

revoke_delete-IsUnstuck :
    (st : Store) (i o : ℕ) (p : PriorOwnership) (q : List Request)
    → IsDeletePrior p
    → IsUnstuck st (revoke_promoted st (Ownership.deleted_awaitable (exclusive i o p q)) o p q)
unfolding revoke_promoted
revoke_delete-IsUnstuck st i o no_prior q h = ground arith
revoke_delete-IsUnstuck st i o (prior (Ownership.created p)) [] h = ground arith
revoke_delete-IsUnstuck st i o (prior (Ownership.created p)) (r ∷ q) h = ground arith
revoke_delete-IsUnstuck st i o (prior (Ownership.created_awaitable e)) [] h = ground arith
revoke_delete-IsUnstuck st i o (prior (Ownership.created_awaitable e)) (r ∷ q) h = ground arith
revoke_delete-IsUnstuck st i o (prior (Ownership.protected p)) [] h = ground arith
revoke_delete-IsUnstuck st i o (prior (Ownership.protected p)) (r ∷ q) h = ground arith
revoke_delete-IsUnstuck st i o (prior (Ownership.protected_awaitable s)) [] h = ground arith
revoke_delete-IsUnstuck st i o (prior (Ownership.protected_awaitable s)) (r ∷ q) h = ground arith
revoke_delete-IsUnstuck st i o (prior (Ownership.locked p)) [] h = ground arith
revoke_delete-IsUnstuck st i o (prior (Ownership.locked p)) (r ∷ q) h = ground arith
revoke_delete-IsUnstuck st i o (prior (Ownership.locked_awaitable (exclusive j p pr q'))) [] h =
    ground arith
revoke_delete-IsUnstuck st i o (prior (Ownership.locked_awaitable (exclusive j p pr q'))) (r ∷ q)
      h =
    ground (arith, revoke_lock-IsUnstuck st j p pr (r ∷ q) h.0)
revoke_delete-IsUnstuck st i o (prior (Ownership.deleted p)) q h = absurd h
revoke_delete-IsUnstuck st i o (prior (Ownership.deleted_awaitable p)) q h = absurd h

revoke-IsUnstuck : (st : Store) (w : Ownership) → IsSoundOwnership w → IsUnstuck st (revoke st w)
unfolding revoke
revoke-IsUnstuck st (Ownership.created o) h = refl
revoke-IsUnstuck st (Ownership.created_awaitable e) h = refl
revoke-IsUnstuck st (Ownership.protected o) h = refl
revoke-IsUnstuck st (Ownership.protected_awaitable s) h = refl
revoke-IsUnstuck st (Ownership.locked o) h = refl
revoke-IsUnstuck st (Ownership.locked_awaitable (exclusive i o p q)) h =
    revoke_lock-IsUnstuck st i o p q h
revoke-IsUnstuck st (Ownership.deleted o) h = refl
revoke-IsUnstuck st (Ownership.deleted_awaitable (exclusive i o p q)) h =
    revoke_delete-IsUnstuck st i o p q h

settle-unstuck :
    (st : Store) (w : Ownership) → is_stuck st (owned w) ≡ false → is_stuck st (settle st w) ≡ false
unfolding settle
settle-unstuck st (Ownership.created o) h = ground arith
settle-unstuck st (Ownership.created_awaitable (exclusive i o p q)) h = ground arith
settle-unstuck st (Ownership.protected o) h = refl
settle-unstuck st (Ownership.protected_awaitable s) h = refl
settle-unstuck st (Ownership.locked o) h = refl
settle-unstuck st (Ownership.locked_awaitable (exclusive i o p q)) h = ground arith
settle-unstuck st (Ownership.deleted o) h = ground arith
settle-unstuck st (Ownership.deleted_awaitable (exclusive i o p q)) h = ground arith

settled-unstuck :
    (st : Store) (v : Option Ownership) (p : ObjectState)
    → IsUnstuck st v
    → elim v [ none ↦ none | some w ↦ some (settle st w) ] ≡ some p
    → is_stuck st p ≡ false
settled-unstuck st none p h e = cc
settled-unstuck st (some w) p h e =
    let same : settle st w ≡ p = cc in
    subst (λ x. is_stuck st x ≡ false) same (settle-unstuck st w h)

pub prepared-unstuck :
    (st : Store) (object p : ObjectState)
    → IsSound object
    → prepare_ownership_transfer st object ≡ some p
    → is_stuck st p ≡ false
unfolding prepare_ownership_transfer
prepared-unstuck st (owned w) p s e = settled-unstuck st (revoke st w) p (revoke-IsUnstuck st w s) e
prepared-unstuck st (ObjectState.created i) p s e =
    let same : ObjectState.created i ≡ p = cc in subst (λ x. is_stuck st x ≡ false) same refl
prepared-unstuck st (ObjectState.deleted i) p s e =
    let same : ObjectState.deleted i ≡ p = cc in subst (λ x. is_stuck st x ≡ false) same refl
