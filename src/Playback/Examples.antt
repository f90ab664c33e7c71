-- ===== src/Playback/Examples.antt =====
-- A playback of src/transaction.rs on which the theorems about it are run.
use elektro_em_eukal.Base.{ℕ, ◌^◌, ◌-◌, refl, arith, true, false, none, some, [], ◌∷◌, update}
use elektro_em_eukal.Anchors.{Store, State, JournalAnchor}
use elektro_em_eukal.Playback.{Playback, rewind_playback, submit_journal_anchor}
use elektro_em_eukal.Playback.Rewinds.{Rewinds, rewind_playback-Rewinds}
use elektro_em_eukal.Playback.Submits.{IsPlayback, submit_journal_anchor-IsPlayback}

abbrev submitted_at : ℕ → JournalAnchor
submitted_at instant = record {
  transaction_anchor = 0;
  creation_instant = none;
  submit_instant = instant;
  submitted = true;
  rolled_back = false;
  wake_up_others = true;
  next = none;
}

-- Journal 1 was submitted at the instant 2, journal 2 at 5, and journal 3 without bound; journal 4
-- is open under the identifier 9.
abbrev recovered : Store
recovered = record {
  transactions = λ a. record {
    state = State.active;
    prepare_instant = 0;
    commit_instant = 0;
    waiting_readers = [];
  };
  journals =
      update (update (update (λ j. submitted_at 0) 1 (submitted_at 2)) 2 (submitted_at 5)) 3
        (submitted_at (2 ^ 32 - 1));
  results = λ p. record { poisoned = false; result = none; waker = none };
  tasks = [];
  channel_bound = 2;
  woken = [];
}

abbrev example_playback : Playback
example_playback = record {
  journal_anchor_map = (9, 4) ∷ [];
  submitted_journal_anchors =
      record { instant = 5; journal = 2 } ∷ (record { instant = 2; journal = 1 } ∷ []);
  submitted_unbounded_journal_anchors = 3 ∷ [];
  xid = none;
  anchor = 0;
}

abbrev example_playback-IsPlayback : IsPlayback recovered example_playback
example_playback-IsPlayback = (
  ((refl, (refl, tt)), ((omega arith, tt), (tt, tt))),
  (tt, tt),
  (((λ e. omega (arith, e)), ((λ e. omega (arith, e)), tt)), tt),
)

rewind_playback-Rewinds_example :
    Rewinds 2 example_playback recovered (rewind_playback (some 2) example_playback recovered)
rewind_playback-Rewinds_example =
    rewind_playback-Rewinds (some 2) example_playback recovered (omega arith)
      example_playback-IsPlayback.0

-- Journal 4 is submitted between the other two.
submit_journal_anchor-IsPlayback_example :
    let (p, st) = submit_journal_anchor 9 3 example_playback recovered in IsPlayback st p
submit_journal_anchor-IsPlayback_example =
    submit_journal_anchor-IsPlayback 9 3 example_playback recovered example_playback-IsPlayback
