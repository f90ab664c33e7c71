-- ===== src/Sequencer/Shortfalls.antt =====
-- src/sequencer/monotonic_u64.rs: where the sequencer falls short of what src/sequencer.rs promises.
use elektro_em_eukal.Base.{
  out_of_rounds, ℕ, zero, suc, ◌<◌, ◌≡◌, ◌≢◌, refl, ◌∙◌, ap, none, some, List, [], ◌∷◌, length,
  update, arith, All, Bool-cases, inl, inr, ◌==◌,
}
use elektro_em_eukal.Sequencer.{
  Entry, first, last, QueueOps, Sequencer, pop_unused, peek_min, min_from, min_instant, track_round,
  decide, act, decide_newest, update_clock,
}

module _ (ops : QueueOps) where
  abbrev pub AreEmpty : (ℕ → ops.Queue) → Type 0
  AreEmpty shards = (k : ℕ) → ops.contents (shards k) ≡ []

  pop_unused-empty :
      (e : ℕ → Entry) (q : ops.Queue)
      → ops.contents q ≡ []
      → pop_unused ops (length (ops.contents q)) e q ≡ q
  unfolding pop_unused
  pop_unused-empty e q h = rw h refl

  peek_min-empty :
      (e : ℕ → Entry) (q : ops.Queue) (m : ℕ) → ops.contents q ≡ [] → peek_min ops e q m ≡ m
  unfolding peek_min
  peek_min-empty e q m h =
      let none_left : ops.oldest q ≡ none = ops.oldest-contents q ∙ ap first h in
      rw (peek_min, none_left) refl

  update-AreEmpty :
      (shards : ℕ → ops.Queue) (i : ℕ) (q : ops.Queue)
      → AreEmpty shards
      → ops.contents q ≡ []
      → AreEmpty (update shards i q)
  update-AreEmpty shards i q h z k = elim (Bool-cases (i == k)) [
    | inl t ↦ rw t z
    | inr n ↦ rw n (h k)
  ]

  min_from-empty :
      (left i m : ℕ) (e : ℕ → Entry) (shards : ℕ → ops.Queue)
      → AreEmpty shards
      → let r = min_from ops i left e shards m in (r.1 ≡ m) × AreEmpty r.0
  unfolding min_from
  min_from-empty zero i m e shards h = (refl, h)
  min_from-empty (suc left) i m e shards h =
      rw (min_from, pop_unused-empty e (shards i) (h i), peek_min-empty e (shards i) m (h i))
        (min_from-empty left (suc i) m e (update shards i (shards i))
          (update-AreEmpty shards i (shards i) h (h i)))

  track_round-empty :
      (c shard fresh : ℕ) (s : Sequencer ops)
      → ops.contents (s.sharded_entry_list shard) ≡ []
      → (s' : Sequencer ops) × (track_round ops c shard fresh s ≡ some (s', fresh))
        × ((s'.entries fresh).instant ≡ c)
  unfolding track_round decide act decide_newest
  track_round-empty c shard fresh s h =
      let none_there : ops.newest (s.sharded_entry_list shard) ≡ none =
        ops.newest-contents (s.sharded_entry_list shard) ∙ ap last h in
      (
        record s {
          entries = update s.entries fresh (record { instant = c; ref_cnt = 1 });
          sharded_entry_list =
              update s.sharded_entry_list shard (ops.push fresh (s.sharded_entry_list shard));
        },
        rw (track_round, decide, none_there) refl,
        ground arith,
      )

  -- A tracker can fall behind the minimum. On a sequencer whose queues are empty, `min` returns the
  -- clock; a `track` that has loaded an older value of the clock before takes that value afterwards,
  -- at once.
  pub min_overtakes_track :
      (s : Sequencer ops) (c shard fresh : ℕ)
      → AreEmpty s.sharded_entry_list
      → c < s.clock
      → let (s', m) = min_instant ops s in
        (m ≡ s.clock)
        × ((s'' : Sequencer ops) × (track_round ops c shard fresh s' ≡ some (s'', fresh))
            × ((s''.entries fresh).instant < m))
  unfolding min_instant
  min_overtakes_track s c shard fresh h l =
      let (e, z) = min_from-empty s.num_shards 0 s.clock s.entries s.sharded_entry_list h in
      let (s'', t, i) = track_round-empty c shard fresh (min_instant ops s).0 (z shard) in
      (e, (s'', t, omega (arith, e, i, l)))

-- The compare-and-exchange of `update` fails for good once the clock has moved away from the value
-- that was loaded before the loop: the loop does not load it again, and it does not end as long as
-- the clock does not come back to that value.
pub update_clock-runs :
    (current new_value : ℕ) (clocks : List ℕ)
    → current < new_value
    → All (λ k. k ≢ current) clocks
    → update_clock current new_value clocks ≡ out_of_rounds
unfolding update_clock
update_clock-runs current new_value [] h a = ground arith
update_clock-runs current new_value (k ∷ clocks) h (n, a) =
    ground (arith, update_clock-runs current new_value clocks h a)
