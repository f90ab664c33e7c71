-- ===== src/Playback.antt =====
-- src/transaction.rs: `Playback`, the transaction that the recovery rebuilds from a log. The map of
-- open journals is an association list from identifiers to anchors; the ordered map of submitted
-- anchors is a list of its entries, the last one first, and so is the vector of the unbounded ones.
-- A function that updates the clock of the sequencer returns the instant of the update.

pub mod Rewinds
pub mod Submits
pub mod Examples
use elektro_em_eukal.Base.{
  ℕ, ◌+◌, ◌-◌, ◌^◌, ◌<◌, Option, none, some, List, [], ◌∷◌, ◌++◌, if◌then◌else◌, ◌==◌, ltb, leb,
  nonzero, value_or_zero, min, length, update,
}
use elektro_em_eukal.Anchors.{
  Store, State, new_journal_anchor, submit_instant, set_submit_instant, submit, commit, rollback,
  wake_up_readers,
}
use elektro_em_eukal.Transaction.{max_transaction_instant}

-- An entry of the map of submitted anchors.
pub record Submission : Type 0 where
  pub instant : ℕ
  pub journal : ℕ

pub record Playback : Type 0 where
  pub journal_anchor_map : List (ℕ × ℕ)
  pub submitted_journal_anchors : List Submission
  pub submitted_unbounded_journal_anchors : List ℕ
  pub xid : Option (List ℕ)
  pub anchor : ℕ

unfoldable pub new_playback : ℕ → Playback
new_playback anchor = record {
  journal_anchor_map = [];
  submitted_journal_anchors = [];
  submitted_unbounded_journal_anchors = [];
  xid = none;
  anchor = anchor;
}

abbrev pub find_anchor : ℕ → List (ℕ × ℕ) → Option ℕ
find_anchor id [] = none
find_anchor id ((id', j) ∷ rest) = if id == id' then some j else find_anchor id rest

abbrev pub remove_anchor : ℕ → List (ℕ × ℕ) → List (ℕ × ℕ)
remove_anchor id [] = []
remove_anchor id ((id', j) ∷ rest) =
    let others = remove_anchor id rest in if id == id' then rest else (id', j) ∷ others

-- The number of submitted journals, capped, is the creation instant of a new journal; it is none if
-- the number is 0 or has more than 32 bits.
unfoldable pub playback_now : Playback → Option ℕ
playback_now p = elim p.submitted_unbounded_journal_anchors [
  | [] ↦
      let n = length p.submitted_journal_anchors in
      if ltb n (2 ^ 32)
      then elim (nonzero n) [ none ↦ none | some i ↦ some (min i max_transaction_instant) ]
      else none
  | j ∷ js ↦ some max_transaction_instant
]

-- `fresh` is the address of the anchor that is made if there is none.
unfoldable pub get_or_create_journal_anchor : ℕ → ℕ → Playback → Store → Playback × Store × ℕ
unfolding playback_now new_journal_anchor
get_or_create_journal_anchor fresh id p st = elim (find_anchor id p.journal_anchor_map) [
  | some j ↦ (p, st, j)
  | none ↦ (
    record p { journal_anchor_map = (id, fresh) ∷ p.journal_anchor_map },
    record st {
      journals = update st.journals fresh (new_journal_anchor p.anchor (playback_now p));
    },
    fresh,
  )
]

unfoldable pub participate_playback : List ℕ → Playback → Playback
participate_playback xid p = record p { xid = some xid }

-- `BTreeMap::insert`: an entry with the same key is replaced.
unfoldable pub insert_submission : Submission → List Submission → List Submission
insert_submission s [] = s ∷ []
insert_submission s (s' ∷ rest) =
    let further = insert_submission s rest in
    if s.instant == s'.instant
    then s ∷ rest
    else if ltb s.instant s'.instant
    then s' ∷ further
    else s ∷ (s' ∷ rest)

abbrev pub enter_submission : ℕ → ℕ → Playback → Playback
unfolding insert_submission
enter_submission instant j p =
    if instant == 2 ^ 32 - 1
    then record p {
      submitted_unbounded_journal_anchors = j ∷ p.submitted_unbounded_journal_anchors;
    }
    else record p {
      submitted_journal_anchors =
          insert_submission (record { instant = instant; journal = j }) p.submitted_journal_anchors;
    }

unfoldable pub submit_anchor : ℕ → ℕ → Option ℕ → Playback → Store → Playback × Store
unfolding insert_submission set_submit_instant submit
submit_anchor id instant none p st = (p, st)
submit_anchor id instant (some j) p st = (
  enter_submission instant j
      (record p { journal_anchor_map = remove_anchor id p.journal_anchor_map }),
  submit j (set_submit_instant j instant st),
)

unfoldable pub submit_journal_anchor : ℕ → ℕ → Playback → Store → Playback × Store
unfolding submit_anchor
submit_journal_anchor id instant p st =
    submit_anchor id instant (find_anchor id p.journal_anchor_map) p st

unfoldable pub discard_journal_anchor : ℕ → Playback → Playback
discard_journal_anchor id p = record p {
  journal_anchor_map = remove_anchor id p.journal_anchor_map;
}

unfoldable pub rollback_unbounded : List ℕ → Store → Store
unfolding rollback
rollback_unbounded [] st = st
rollback_unbounded (j ∷ js) st = rollback_unbounded js (rollback j st)

-- The loop over the submitted journals; the entries that are left.
unfoldable pub rewind_submitted : ℕ → List Submission → Store → List Submission × Store
unfolding submit_instant rollback
rewind_submitted to [] st = ([], st)
rewind_submitted to (s ∷ rest) st =
    let further = rewind_submitted to rest (rollback s.journal st) in
    if leb (value_or_zero (submit_instant st s.journal)) to then (s ∷ rest, st) else further

unfoldable pub rewind_playback : Option ℕ → Playback → Store → Playback × Store
unfolding rollback_unbounded rewind_submitted
rewind_playback instant p st =
    let to = value_or_zero instant in
    if to == 2 ^ 32 - 1
    then (p, st)
    else let (left, st') =
        rewind_submitted to p.submitted_journal_anchors
          (rollback_unbounded p.submitted_unbounded_journal_anchors st) in
      (record p { submitted_journal_anchors = left; submitted_unbounded_journal_anchors = [] }, st')

unfoldable pub prepare_playback : ℕ → Playback → Store → ℕ × Store
prepare_playback instant p st = (
  instant,
  record st {
    transactions =
        update st.transactions p.anchor (record (st.transactions p.anchor) {
          prepare_instant = instant;
          state = State.committing;
        });
  },
)

-- Older journals are committed first.
unfoldable pub commit_submitted : List Submission → Store → Store
unfolding commit
commit_submitted [] st = st
commit_submitted (s ∷ older) st = commit s.journal (commit_submitted older st)

unfoldable pub commit_unbounded : List ℕ → Store → Store
unfolding commit
commit_unbounded [] st = st
commit_unbounded (j ∷ older) st = commit j (commit_unbounded older st)

-- `Playback::commit`; the update of the clock and the store.
unfoldable pub commit_playback : ℕ → Playback → Store → ℕ × Store
unfolding commit_submitted commit_unbounded wake_up_readers
commit_playback instant p st =
    let committed = record st {
      transactions =
          update st.transactions p.anchor (record (st.transactions p.anchor) {
            commit_instant = instant;
            state = State.committed;
          });
    } in
    (
      instant,
      commit_unbounded p.submitted_unbounded_journal_anchors
          (commit_submitted p.submitted_journal_anchors (wake_up_readers p.anchor committed)),
    )

abbrev write_playback_state : ℕ → State → Store → Store
write_playback_state anchor state st = record st {
  transactions = update st.transactions anchor (record (st.transactions anchor) { state = state });
}

unfoldable pub rollback_playback : Playback → Store → Store
unfolding rewind_playback wake_up_readers
rollback_playback p st =
    write_playback_state p.anchor State.rolled_back
      (rewind_playback none p
        (wake_up_readers p.anchor (write_playback_state p.anchor State.rolling_back st))).1
