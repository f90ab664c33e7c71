-- ===== src/Transaction.antt =====
-- src/transaction.rs: `Transaction` and its two-phase commit. The strand of submitted journals is a
-- chain of journal anchors in the store, newest first. Calls of the persistence layer are recorded
-- in the order in which they are made.

pub mod Strand
pub mod Rewind
pub mod Rollback
pub mod PostCommit
pub mod Examples
use elektro_em_eukal.Base.{
  Outcome, done, out_of_rounds, panicked, ℕ, zero, suc, ◌+◌, ◌-◌, ◌^◌, Bool, true, false, ◌&&◌,
  ◌||◌, not, Option, none, some, List, [], ◌∷◌, ◌++◌, if◌then◌else◌, ◌==◌, ltb, leb, is_some,
  option_le, nonzero, min, max, update,
}
use elektro_em_eukal.Anchors.{
  Store, State, TransactionAnchor, JournalAnchor, Error, Result, ok, err, submit_instant, set_next,
  new_journal_anchor, submit, commit, rollback, wake_up_readers,
}

-- `MAX_TRANSACTION_INSTANT` is `u32::MAX - 1`.
abbrev pub max_transaction_instant : ℕ
max_transaction_instant = 2 ^ 32 - 2

-- The calls of the persistence layer.
pub data LogCall : Type 0 where
  submitted : ℕ → ℕ → LogCall
  rewound : Option ℕ → LogCall
  prepared : ℕ → LogCall
  committed : ℕ → LogCall

-- `anchor` is the address of the transaction's own anchor; `eot_log_buffer` tells whether the
-- buffer is still there.
pub record Transaction : Type 0 where
  pub anchor : ℕ
  pub durable_flush_epoch : ℕ
  pub eot_log_buffer : Bool
  pub journal_strand : Option ℕ
  pub xid : Option (List ℕ)
  pub calls : List LogCall

unfoldable pub new_transaction : ℕ → Transaction
new_transaction anchor = record {
  anchor = anchor;
  durable_flush_epoch = 0;
  eot_log_buffer = true;
  journal_strand = none;
  xid = none;
  calls = [];
}

abbrev pub bounded_instant : Option ℕ → Option ℕ
bounded_instant none = none
bounded_instant (some i) = some (min i max_transaction_instant)

abbrev pub head_instant : Store → Option ℕ → Option ℕ
head_instant st none = none
head_instant st (some j) = nonzero (st.journals j).submit_instant

-- `Transaction::now`.
unfoldable pub now : Store → Transaction → Option ℕ
now st t = bounded_instant (head_instant st t.journal_strand)

-- `Transaction::journal` creates a journal anchor at the present instant of the transaction.
unfoldable pub open_journal : ℕ → Transaction → Store → Store
unfolding now new_journal_anchor
open_journal j t st = record st {
  journals = update st.journals j (new_journal_anchor t.anchor (now st t));
}

-- The loop of `submit_journal`: each entry of `interference` is the head that a failed
-- compare-and-exchange finds in the strand, and then the exchange succeeds.
unfoldable pub link_journal : ℕ → Option ℕ → List (Option ℕ) → Store → Store × ℕ
unfolding set_next
link_journal j current [] st = let (st', old, instant) = set_next j current st in (st', instant)
link_journal j current (actual ∷ more) st = link_journal j actual more (set_next j current st).0

-- A log buffer is handed over, and two flush epochs more have to end before it is durable.
abbrev submit_log : Bool → ℕ → Option ℕ → ℕ → Transaction → Transaction
submit_log false j epoch instant t = t
submit_log true j epoch instant t = record t {
  durable_flush_epoch = max t.durable_flush_epoch (epoch_or_zero + 2);
  calls = t.calls ++ (submitted j instant ∷ []);
}
  where
    epoch_or_zero : ℕ
    epoch_or_zero = elim epoch [ none ↦ 0 | some e ↦ e ]

-- `submit_journal`, from the head of the strand that its first load finds.
unfoldable pub submit_journal :
    ℕ → Bool → Option ℕ → List (Option ℕ) → Transaction → Store → Transaction × Store × ℕ
unfolding link_journal submit
submit_journal j has_log_buffer epoch interference t st =
    let (st', instant) = link_journal j t.journal_strand interference st in
    let t' = submit_log has_log_buffer j epoch instant t in
    (record t' { journal_strand = some j }, submit j st', instant)

-- The loop of `rewind`, from the head of the strand; the strand that is left.
unfoldable pub rewind_strand : ℕ → Option ℕ → Option ℕ → Store → Outcome (Store × Option ℕ)
unfolding set_next rollback submit_instant
rewind_strand rounds instant none st = done (st, none)
rewind_strand zero instant (some j) st = out_of_rounds
rewind_strand (suc k) instant (some j) st =
    let st' = rollback j st in
    let (st'', older, i) = set_next j none st' in
    let rest = rewind_strand k instant older st'' in
    if option_le (submit_instant st j) instant then done (st, some j) else rest

-- The log of a rewound transaction; a partly rewound one gets a new buffer.
rewind_log : Bool → Option ℕ → Option ℕ → Transaction → Transaction
rewind_log had_buffer instant left t = record t {
  eot_log_buffer = is_some instant;
  calls = if had_buffer then t.calls ++ (rewound left ∷ []) else t.calls;
}

unfoldable pub conclude_rewind :
    Option ℕ → Transaction → Outcome (Store × Option ℕ) → Outcome (Transaction × Store × Option ℕ)
unfolding rewind_log
conclude_rewind instant t (done (st, left)) =
    let new_instant = head_instant st left in
    done (
      record (rewind_log t.eot_log_buffer instant new_instant t) { journal_strand = left },
      st,
      new_instant,
    )
conclude_rewind instant t panicked = panicked
conclude_rewind instant t out_of_rounds = out_of_rounds

unfoldable pub rewind :
    ℕ → Option ℕ → Transaction → Store → Outcome (Transaction × Store × Option ℕ)
unfolding rewind_strand conclude_rewind
rewind rounds instant t st =
    conclude_rewind instant t (rewind_strand rounds instant t.journal_strand st)

abbrev pub write_state : ℕ → State → Store → Store
write_state anchor s st = record st {
  transactions = update st.transactions anchor (record (st.transactions anchor) { state = s });
}

-- `prepare` up to its wait for the log: the prepare instant is the sequencer's present one.
unfoldable pub prepare : ℕ → Transaction → Store → Transaction × Store
prepare clock t st = (
  record t { calls = t.calls ++ (prepared clock ∷ []) },
  record st {
    transactions =
        update st.transactions t.anchor
          (record (st.transactions t.anchor) { state = State.committing; prepare_instant = clock });
  },
)

-- `determine_need_for_io_completion`.
unfoldable pub determine_need_for_io_completion : Bool → Bool → Option ℕ → Transaction → Bool
determine_need_for_io_completion commit_log_record wait_prepare_logging epoch t =
    (not commit_log_record && is_some t.xid)
    || (not (t.durable_flush_epoch == 0)
        && (commit_log_record
            || (wait_prepare_logging && not (option_le (some t.durable_flush_epoch) epoch))))

-- `generate_commit_log_record` advances the sequencer: the new clock is the commit instant.
unfoldable pub generate_commit_log_record : ℕ → Transaction → Result (ℕ × Transaction)
generate_commit_log_record clock t =
    if t.eot_log_buffer
    then ok (
      clock + 1,
      record t { eot_log_buffer = false; calls = t.calls ++ (committed (clock + 1) ∷ []) },
    )
    else err Error.unexpected_state

-- The loop of `post_commit` over the strand.
unfoldable pub commit_strand : ℕ → Option ℕ → Store → Outcome Store
unfolding set_next commit
commit_strand rounds none st = done st
commit_strand zero (some j) st = out_of_rounds
commit_strand (suc k) (some j) st =
    let (st', older, i) = set_next j none (commit j st) in commit_strand k older st'

unfoldable pub post_commit : ℕ → ℕ → Transaction → Store → Outcome (Transaction × Store)
unfolding wake_up_readers commit_strand
post_commit rounds instant t st =
    let ended = record st {
      transactions =
          update st.transactions t.anchor (record (st.transactions t.anchor) {
            state = State.committed;
            commit_instant = instant;
          });
    } in
    elim (commit_strand rounds t.journal_strand (wake_up_readers t.anchor ended)) [
      | done st' ↦ done (record t { journal_strand = none }, st')
      | panicked ↦ panicked
      | out_of_rounds ↦ out_of_rounds
    ]

-- The readers are woken up as soon as the transaction begins to roll back.
unfoldable pub begin_rollback : ℕ → Store → Store
unfolding wake_up_readers
begin_rollback anchor st = wake_up_readers anchor (write_state anchor State.rolling_back st)

unfoldable pub finish_rollback : ℕ → Transaction → Store → Outcome (Transaction × Store)
unfolding rewind
finish_rollback rounds t st = elim (rewind rounds none t st) [
  | done (t', st', left) ↦ done (t', write_state t.anchor State.rolled_back st')
  | panicked ↦ panicked
  | out_of_rounds ↦ out_of_rounds
]

unfoldable pub rollback_internal : ℕ → Transaction → Store → Outcome (Transaction × Store)
unfolding begin_rollback finish_rollback
rollback_internal rounds t st = finish_rollback rounds t (begin_rollback t.anchor st)

abbrev is_open : State → Bool
is_open State.active = true
is_open State.committing = true
is_open State.committed = false
is_open State.rolling_back = false
is_open State.rolled_back = false

-- `Drop for Transaction`.
unfoldable pub drop_transaction : ℕ → Transaction → Store → Outcome (Transaction × Store)
unfolding rollback_internal
drop_transaction rounds t st =
    if is_open (st.transactions t.anchor).state then rollback_internal rounds t st else done (t, st)

-- `Drop for Journal` without its log buffer: a journal that was not submitted is rolled back.
unfoldable pub drop_journal : ℕ → Store → Store
unfolding submit_instant rollback
drop_journal j st = if is_some (submit_instant st j) then st else rollback j st

-- What a poll of the commit log record's completion finds.
pub data Io : Type 0 where
  pending : Io
  completed : Io
  failed : Error → Io

pub record Committable : Type 0 where
  pub transaction : Option Transaction
  pub commit_log_io : Option ℕ

pub data Poll : Type 0 where
  ready : Result ℕ → Poll
  pending : Poll

-- A step of `Committable`: the clock of the sequencer, what is left of the future, the store, and
-- the poll's answer.
abbrev pub Polled : Type 0
Polled = ℕ × Committable × Store × Poll

abbrev spent : Committable
spent = record { transaction = none; commit_log_io = none }

-- The transaction is dropped with the future, which rolls it back if it is still open.
abandon : ℕ → ℕ → Error → Outcome (Transaction × Store) → Outcome Polled
abandon rounds clock e (done (t, st)) = done (clock, spent, st, ready (err e))
abandon rounds clock e panicked = panicked
abandon rounds clock e out_of_rounds = out_of_rounds

finish : ℕ → ℕ → Outcome (Transaction × Store) → Outcome Polled
finish clock instant (done (t, st)) = done (clock, spent, st, ready (ok instant))
finish clock instant panicked = panicked
finish clock instant out_of_rounds = out_of_rounds

poll_io : ℕ → Io → ℕ → Transaction → ℕ → Store → Outcome Polled
unfolding abandon finish drop_transaction post_commit
poll_io rounds Io.completed clock t instant st =
    finish clock instant (post_commit rounds instant t st)
poll_io rounds (failed e) clock t instant st = abandon rounds clock e (drop_transaction rounds t st)
poll_io rounds Io.pending clock t instant st =
    done (clock, record { transaction = some t; commit_log_io = some instant }, st, Poll.pending)

poll_generated : ℕ → ℕ → Transaction → Store → Result (ℕ × Transaction) → Outcome Polled
unfolding abandon finish drop_transaction post_commit determine_need_for_io_completion
poll_generated rounds clock t st (err e) = abandon rounds clock e (drop_transaction rounds t st)
poll_generated rounds clock t st (ok (instant, t')) =
    if determine_need_for_io_completion true false none t'
    then done
        (instant, record { transaction = some t'; commit_log_io = some instant }, st, Poll.pending)
    else finish instant instant (post_commit rounds instant t' st)

poll_transaction : ℕ → Io → ℕ → Transaction → Option ℕ → Store → Outcome Polled
unfolding poll_io poll_generated generate_commit_log_record
poll_transaction rounds io clock t (some instant) st = poll_io rounds io clock t instant st
poll_transaction rounds io clock t none st =
    poll_generated rounds clock t st (generate_commit_log_record clock t)

-- `Committable::poll`.
unfoldable pub poll_committable : ℕ → Io → ℕ → Committable → Store → Outcome Polled
unfolding poll_transaction
poll_committable rounds io clock c st = elim c.transaction [
  | some t ↦ poll_transaction rounds io clock t c.commit_log_io st
  | none ↦ done (clock, spent, st, ready (err Error.unexpected_state))
]
