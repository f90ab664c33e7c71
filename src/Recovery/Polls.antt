-- ===== src/Recovery/Polls.antt =====
-- src/persistence_layer/file_io/mod.rs and src/persistence_layer.rs: how a recovery is started, watched and
-- cancelled, and `AwaitRecovery`.
use elektro_em_eukal.Base.{
  ℕ, Bool, true, false, Option, none, some, List, [], ◌∷◌, ◌++◌, if◌then◌else◌, ltb,
}
use elektro_em_eukal.Anchors.{Error, Result, ok, err}
use elektro_em_eukal.Recovery.{Database, RecoveryData, new_recovery_data}

pub data RecoveryResult : Type 0 where
  unknown : RecoveryResult
  in_progress : RecoveryResult
  recovered : Database → RecoveryResult

-- `check_recovery`; `locked` tells that another thread holds the mutex.
unfoldable pub check_recovery :
    Bool → ℕ → Option RecoveryData → Option RecoveryData × Result RecoveryResult
check_recovery true waker shared = (shared, ok RecoveryResult.unknown)
check_recovery false waker none = (none, ok RecoveryResult.unknown)
check_recovery false waker (some r) = elim r.result [
  | some (ok database) ↦ (none, ok (RecoveryResult.recovered database))
  | some (err e) ↦ (none, err e)
  | none ↦ (some (record r { waker = some waker }), ok RecoveryResult.in_progress)
]

-- `cancel_recovery` behind the store of the flag; `none` is a panic.
unfoldable pub cancel_recovery : Bool → Option RecoveryData → Option (Option RecoveryData)
cancel_recovery true shared = some shared
cancel_recovery false none = none
cancel_recovery false (some r) = some (some (record r { result = some (err Error.timeout) }))

-- The recovery data behind the mutex, the flag that cancels the recovery, and the woken tasks.
pub record Watched : Type 0 where
  pub recovery_data : Option RecoveryData
  pub recovery_cancelled : Bool
  pub woken : List ℕ

-- `recover` but for the task, which is the first one in the channel.
unfoldable pub recover : Database → Option ℕ → Watched → Watched
unfolding new_recovery_data
recover database until s = record s { recovery_data = some (new_recovery_data database until) }

abbrev wake_if : Bool → ℕ → Watched → Watched
wake_if again waker s = record s { woken = if again then s.woken ++ (waker ∷ []) else s.woken }

-- The end of a poll that has no result: a recovery that is late is cancelled. `none` is a panic.
unfoldable pub poll_deadline :
    Bool → ℕ → Option ℕ → Watched → Option (Watched × Option (Result Database))
unfolding cancel_recovery
poll_deadline locked now deadline s =
    let cancelled : Option (Watched × Option (Result Database)) =
      elim (cancel_recovery locked s.recovery_data) [
        | none ↦ none
        | some shared ↦ some (
          record s { recovery_data = shared; recovery_cancelled = true },
          some (err Error.timeout),
        )
      ] in
    if elim deadline [ none ↦ false | some d ↦ ltb d now ] then cancelled else some (s, none)

-- `AwaitRecovery::poll`; the flags tell whether another thread holds the mutex at its two attempts.
unfoldable pub poll_recovery :
    Bool → Bool → ℕ → Option ℕ → ℕ → Watched → Option (Watched × Option (Result Database))
unfolding check_recovery poll_deadline
poll_recovery locked locked_again now deadline waker s =
    let (shared, result) = check_recovery locked waker s.recovery_data in
    let s' = record s { recovery_data = shared } in
    elim result [
      | ok RecoveryResult.unknown ↦ poll_deadline locked_again now deadline (wake_if true waker s')
      | ok RecoveryResult.in_progress ↦ poll_deadline locked_again now deadline s'
      | ok (RecoveryResult.recovered database) ↦ some (s', some (ok database))
      | err e ↦ some (s', some (err e))
    ]
