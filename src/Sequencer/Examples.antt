-- ===== src/Sequencer/Examples.antt =====
-- Sequencers of src/sequencer/monotonic_u64.rs on which the theorems about them are run, with lists
-- for queues.
use elektro_em_eukal.Base.{
  out_of_rounds, ℕ, ◌<◌, ◌≡◌, refl, some, List, [], ◌∷◌, ◌++◌, arith, update,
}
use elektro_em_eukal.Sequencer.{
  first, last, rest_of, QueueOps, Sequencer, min_instant, track_round, update_clock,
}
use elektro_em_eukal.Sequencer.Order.{IsOrdered, IsFresh, Tracks, track_round-Tracks}
use elektro_em_eukal.Sequencer.Bound.{IsLeastOf, min_instant-IsLeastOf}
use elektro_em_eukal.Sequencer.Shortfalls.{min_overtakes_track, update_clock-runs}

abbrev list_queue : QueueOps
list_queue = record {
  Queue = List ℕ;
  contents = λ q. q;
  oldest = first;
  newest = last;
  push = λ a q. q ++ (a ∷ []);
  pop = rest_of;
  oldest-contents = λ q. refl;
  newest-contents = λ q. refl;
  contents-push = λ a q. refl;
  contents-pop = λ q. refl;
}

-- Every shard has an entry of the instant 2 that nobody counts, and one of the instant 5 that two
-- trackers hold.
abbrev two_entries : Sequencer list_queue
two_entries = record {
  clock = 7;
  entries =
      update (λ a. record { instant = 2; ref_cnt = 0 }) 1 (record { instant = 5; ref_cnt = 2 });
  num_shards = 2;
  sharded_entry_list = λ i. 0 ∷ (1 ∷ []);
}

two_entries-IsOrdered : IsOrdered list_queue two_entries
two_entries-IsOrdered i = (omega arith, (omega arith, omega arith))

three-IsFresh : IsFresh list_queue 3 two_entries
three-IsFresh i = ((λ e. omega (arith, e)), ((λ e. omega (arith, e)), tt))

track_round-Tracks_example :
    Tracks list_queue 7 two_entries (track_round list_queue 7 0 3 two_entries)
track_round-Tracks_example =
    track_round-Tracks list_queue 7 0 3 two_entries two_entries-IsOrdered three-IsFresh
      (omega arith)

min_instant-IsLeastOf_example :
    let r = min_instant list_queue two_entries in
    IsLeastOf list_queue two_entries.entries two_entries.sharded_entry_list 0 2 7
      (r.0.sharded_entry_list, r.1)
min_instant-IsLeastOf_example = min_instant-IsLeastOf list_queue two_entries two_entries-IsOrdered

min_of_two_entries : (min_instant list_queue two_entries).1 ≡ 5
unfolding min_instant
min_of_two_entries = refl

abbrev no_entries : Sequencer list_queue
no_entries = record two_entries { sharded_entry_list = λ i. [] }

min_overtakes_track_example :
    let (s', m) = min_instant list_queue no_entries in
    (m ≡ 7)
    × ((s'' : Sequencer list_queue) × (track_round list_queue 4 0 3 s' ≡ some (s'', 3))
        × ((s''.entries 3).instant < m))
min_overtakes_track_example =
    min_overtakes_track list_queue no_entries 4 0 3 (λ i. refl) (omega arith)

update_clock-runs_example : update_clock 3 9 (4 ∷ (5 ∷ [])) ≡ out_of_rounds
update_clock-runs_example =
    update_clock-runs 3 9 (4 ∷ (5 ∷ [])) (omega arith)
      ((λ e. omega (arith, e)), ((λ e. omega (arith, e)), tt))
