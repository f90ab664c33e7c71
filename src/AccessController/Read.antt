-- ===== src/AccessController/Read.antt =====
-- src/access_controller.rs: `AccessController::read`, whether a snapshot sees a database object.
use elektro_em_eukal.Base.{
  ℕ, Bool, true, false, not, Option, none, some, List, [], ◌∷◌, if◌then◌else◌,
}
use elektro_em_eukal.Anchors.{Store, Result, ok, err}
use elektro_em_eukal.Snapshot.{Snapshot, sees, precedes}
use elektro_em_eukal.Access.{ReadAccess, known, await_eot, grant_read_access}
use elektro_em_eukal.AccessController.Object.{Ownership, exclusive, ObjectState, owned}
use elektro_em_eukal.AccessController.Table.{Table}

-- `.map(|r| !r)`: seeing the deletion means not seeing the object.
abbrev pub negated : ReadAccess → ReadAccess
negated (known visible) = known (not visible)
negated (await_eot t d) = await_eot t d

-- One round of the loop, on one object.
unfoldable pub read_object : Store → ObjectState → Snapshot → Option ℕ → ReadAccess
read_object st (owned (Ownership.created o)) s deadline = grant_read_access st o s deadline
read_object st (owned (Ownership.created_awaitable (exclusive i o p q))) s deadline =
    grant_read_access st o s deadline
read_object st (owned (Ownership.protected o)) s deadline = known true
read_object st (owned (Ownership.locked o)) s deadline = known true
read_object st (owned (Ownership.protected_awaitable a)) s deadline =
    known (sees s a.creation_instant)
read_object st (owned (Ownership.locked_awaitable (exclusive i o p q))) s deadline =
    known (sees s i)
read_object st (owned (Ownership.deleted o)) s deadline =
    negated (grant_read_access st o s deadline)
read_object st (owned (Ownership.deleted_awaitable (exclusive i o p q))) s deadline =
    if sees s i then negated (grant_read_access st o s deadline) else known false
read_object st (ObjectState.created i) s deadline = known (sees s i)
read_object st (ObjectState.deleted i) s deadline = known (precedes s i)

abbrev pub read_entry : Store → Option ObjectState → Snapshot → Option ℕ → ReadAccess
read_entry st none s deadline = known true
read_entry st (some object) s deadline = read_object st object s deadline

-- How one wait of the reader ends: the result of its `AwaitEOT`, and the table and the store that
-- the next round finds.
pub record Wait : Type 0 where
  pub ended : Result (Unit {0})
  pub table : Table
  pub store : Store

-- The loop over the waits of a run; `none` while the reader still waits.
unfoldable pub read : ℕ → Snapshot → Option ℕ → List Wait → Table → Store → Option (Result Bool)
read id s deadline [] table st = elim (read_entry st (table id) s deadline) [
  | known visible ↦ some (ok visible)
  | await_eot t d ↦ none
]
read id s deadline (w ∷ ws) table st = elim (read_entry st (table id) s deadline) [
  | known visible ↦ some (ok visible)
  | await_eot t d ↦ elim w.ended [
    | ok u ↦ read id s deadline ws w.table w.store
    | err e ↦ some (err e)
  ]
]
