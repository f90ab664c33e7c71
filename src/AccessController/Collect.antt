-- ===== src/AccessController/Collect.antt =====
-- src/access_controller.rs: `try_remove_access_data_sync`, the garbage collection of access data.
use elektro_em_eukal.Base.{
  ℕ, Bool, true, false, Option, none, some, List, [], ◌∷◌, if◌then◌else◌, ◌==◌, update,
}
use elektro_em_eukal.Anchors.{Store, eot_instant, is_terminated}
use elektro_em_eukal.AccessController.Object.{Ownership, ObjectState, owned}
use elektro_em_eukal.AccessController.Prepare.{prepare_ownership_transfer}
use elektro_em_eukal.AccessController.Table.{Table}

-- What the garbage collector does with an object: the state that is left of it, `none` once it is
-- removed, and the instants that the deletion notifier is called with.
abbrev pub Collected : Type 0
Collected = Option ObjectState × List ℕ

unfoldable pub collect_created : (ℕ → Bool) → ℕ → Option ℕ → Collected
collect_created condition o none = (some (owned (Ownership.created o)), [])
collect_created condition o (some instant) =
    if instant == 0
    then (none, instant ∷ [])
    else if condition instant
    then (none, [])
    else (some (ObjectState.created instant), [])

unfoldable pub collect_deleted : (ℕ → Bool) → ℕ → Option ℕ → Collected
collect_deleted condition o none = (some (owned (Ownership.deleted o)), [])
collect_deleted condition o (some instant) =
    if instant == 0
    then (none, [])
    else if condition instant
    then (none, instant ∷ [])
    else (some (ObjectState.deleted instant), [])

unfoldable pub collect_prepared : Store → (ℕ → Bool) → ObjectState → Collected
unfolding collect_created collect_deleted
collect_prepared st condition (owned (Ownership.created o)) =
    collect_created condition o (eot_instant st o)
collect_prepared st condition (owned (Ownership.protected o)) =
    if is_terminated st o then (none, []) else (some (owned (Ownership.protected o)), [])
collect_prepared st condition (owned (Ownership.locked o)) =
    if is_terminated st o then (none, []) else (some (owned (Ownership.locked o)), [])
collect_prepared st condition (owned (Ownership.deleted o)) =
    collect_deleted condition o (eot_instant st o)
collect_prepared st condition (owned (Ownership.created_awaitable e)) =
    (some (owned (Ownership.created_awaitable e)), [])
collect_prepared st condition (owned (Ownership.protected_awaitable s)) =
    (some (owned (Ownership.protected_awaitable s)), [])
collect_prepared st condition (owned (Ownership.locked_awaitable e)) =
    (some (owned (Ownership.locked_awaitable e)), [])
collect_prepared st condition (owned (Ownership.deleted_awaitable e)) =
    (some (owned (Ownership.deleted_awaitable e)), [])
collect_prepared st condition (ObjectState.created i) =
    if condition i then (none, []) else (some (ObjectState.created i), [])
collect_prepared st condition (ObjectState.deleted i) =
    if condition i then (none, i ∷ []) else (some (ObjectState.deleted i), [])

-- `remove_if` on one object; `none` is a panic.
unfoldable pub collect : Store → (ℕ → Bool) → ObjectState → Option Collected
unfolding collect_prepared
collect st condition object = elim (prepare_ownership_transfer st object) [
  | none ↦ none
  | some prepared ↦ some (collect_prepared st condition prepared)
]

abbrev is_removed : Option ObjectState → Bool
is_removed none = true
is_removed (some object) = false

-- The table, the notified instants, and whether no access data is left.
unfoldable pub try_remove_access_data_sync :
    ℕ → (ℕ → Bool) → Table → Store → Option (Table × List ℕ × Bool)
unfolding collect
try_remove_access_data_sync id condition table st = elim (table id) [
  | none ↦ some (table, [], true)
  | some object ↦ elim (collect st condition object) [
    | none ↦ none
    | some (left, notified) ↦ some (update table id left, notified, is_removed left)
  ]
]
