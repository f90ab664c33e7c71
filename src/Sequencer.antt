-- ===== src/Sequencer.antt =====
-- src/sequencer/monotonic_u64.rs: `MonotonicU64`, the clock of the database, and the trackers of the
-- instants that snapshots use. The queues are those of the scc library: a client of this model
-- brings them as a `QueueOps`. A queue holds the addresses of entries.

pub mod Order
pub mod Bound
pub mod Shortfalls
pub mod Examples
use elektro_em_eukal.Base.{
  Outcome, done, out_of_rounds, ℕ, zero, suc, ◌+◌, ◌-◌, ◌%◌, ◌^◌, ◌≡◌, Bool, true, false, Option,
  none, some, List, [], ◌∷◌, ◌++◌, if◌then◌else◌, ◌==◌, leb, length, min, update,
}

pub record Entry : Type 0 where
  pub instant : ℕ
  pub ref_cnt : ℕ

abbrev pub first : List ℕ → Option ℕ
first [] = none
first (a ∷ more) = some a

abbrev pub last : List ℕ → Option ℕ
last [] = none
last (a ∷ []) = some a
last (a ∷ (b ∷ more)) = last (b ∷ more)

abbrev pub rest_of : List ℕ → List ℕ
rest_of [] = []
rest_of (a ∷ more) = more

-- `scc::Queue`: `push_if` looks at the newest element, `pop_if` and `peek_with` at the oldest.
pub record QueueOps : Type 1 where
  pub Queue : Type 0
  pub contents : Queue → List ℕ
  pub oldest : Queue → Option ℕ
  pub newest : Queue → Option ℕ
  pub push : ℕ → Queue → Queue
  pub pop : Queue → Queue
  pub oldest-contents : (q : Queue) → oldest q ≡ first (contents q)
  pub newest-contents : (q : Queue) → newest q ≡ last (contents q)
  pub contents-push : (a : ℕ) (q : Queue) → contents (push a q) ≡ contents q ++ (a ∷ [])
  pub contents-pop : (q : Queue) → contents (pop q) ≡ rest_of (contents q)

-- The entries are reference-counted by their trackers, and outlive their place in a queue.
pub record Sequencer (ops : QueueOps) : Type 0 where
  pub clock : ℕ
  pub entries : ℕ → Entry
  pub num_shards : ℕ
  pub sharded_entry_list : ℕ → ops.Queue

-- What one round of `track` decides on the newest entry.
pub data Decision : Type 0 where
  push_new : Decision
  reuse : ℕ → Decision
  retry : Decision

unfoldable pub decide_on : ℕ → ℕ → Entry → Decision
decide_on candidate a e =
    if leb candidate e.instant
    then (if e.ref_cnt == 0 then (if e.instant == candidate then push_new else retry) else reuse a)
    else push_new

unfoldable pub decide_newest : ℕ → (ℕ → Entry) → Option ℕ → Decision
unfolding decide_on
decide_newest candidate entries none = push_new
decide_newest candidate entries (some a) = decide_on candidate a (entries a)

module _ (ops : QueueOps) where
  -- `while let Ok(Some(_)) = pop_if(..)`, with a round for each element.
  unfoldable pub pop_unused : ℕ → (ℕ → Entry) → ops.Queue → ops.Queue
  pop_unused zero entries q = q
  pop_unused (suc rounds) entries q =
      let rest = pop_unused rounds entries (ops.pop q) in
      elim (ops.oldest q) [ none ↦ q | some a ↦ if (entries a).ref_cnt == 0 then rest else q ]

  -- `peek_with(|e| e.map_or(min, |t| t.instant.min(min)))`.
  unfoldable pub peek_min : (ℕ → Entry) → ops.Queue → ℕ → ℕ
  peek_min entries q m = elim (ops.oldest q) [ none ↦ m | some a ↦ min (entries a).instant m ]

  -- The loop of `min` over `left` more shards, from the shard `i` on.
  unfoldable pub min_from : ℕ → ℕ → (ℕ → Entry) → (ℕ → ops.Queue) → ℕ → (ℕ → ops.Queue) × ℕ
  unfolding pop_unused peek_min
  min_from i zero entries shards m = (shards, m)
  min_from i (suc left) entries shards m =
      let q = pop_unused (length (ops.contents (shards i))) entries (shards i) in
      min_from (suc i) left entries (update shards i q) (peek_min entries q m)

  unfoldable pub min_instant : Sequencer ops → Sequencer ops × ℕ
  unfolding min_from
  min_instant s =
      let (shards, m) = min_from 0 s.num_shards s.entries s.sharded_entry_list s.clock in
      (record s { sharded_entry_list = shards }, m)

  unfoldable pub decide : ℕ → (ℕ → Entry) → ops.Queue → Decision
  unfolding decide_newest
  decide candidate entries q = decide_newest candidate entries (ops.newest q)

  unfoldable pub act : ℕ → ℕ → ℕ → Sequencer ops → Decision → Option (Sequencer ops × ℕ)
  act candidate shard fresh s push_new = some (
    record s {
      entries = update s.entries fresh (record { instant = candidate; ref_cnt = 1 });
      sharded_entry_list =
          update s.sharded_entry_list shard (ops.push fresh (s.sharded_entry_list shard));
    },
    fresh,
  )
  act candidate shard fresh s (reuse a) = some (
    record s {
      entries =
          update s.entries a
            (record (s.entries a) { ref_cnt = ((s.entries a).ref_cnt + 1) % 2 ^ 64 });
    },
    a,
  )
  act candidate shard fresh s retry = none

  -- A round of `track`, from the clock value `candidate` that it has loaded: the sequencer and the
  -- tracker, which is the address of its entry, or `none` if the loop goes on. The address `fresh`
  -- is that of the new entry.
  unfoldable pub track_round : ℕ → ℕ → ℕ → Sequencer ops → Option (Sequencer ops × ℕ)
  unfolding decide act
  track_round candidate shard fresh s =
      act candidate shard fresh s (decide candidate s.entries (s.sharded_entry_list shard))

  -- `Clone` and `Drop` of a tracker; a tracker that is dropped has counted itself.
  unfoldable pub clone_tracker : ℕ → Sequencer ops → Sequencer ops
  clone_tracker a s = record s {
    entries =
        update s.entries a
          (record (s.entries a) { ref_cnt = ((s.entries a).ref_cnt + 1) % 2 ^ 64 });
  }

  unfoldable pub drop_tracker : ℕ → Sequencer ops → Sequencer ops
  drop_tracker a s = record s {
    entries = update s.entries a (record (s.entries a) { ref_cnt = (s.entries a).ref_cnt - 1 });
  }

  unfoldable pub advance : Sequencer ops → Sequencer ops × ℕ
  advance s = (record s { clock = (s.clock + 1) % 2 ^ 64 }, s.clock + 1)

-- The loop of `update`, with the value that its only load has found: each entry of `clocks` is the
-- clock at one more compare-and-exchange, and `out_of_rounds` means that the loop still runs.
unfoldable pub update_clock : ℕ → ℕ → List ℕ → Outcome (Bool × ℕ)
update_clock current new_value [] =
    if leb new_value current then done (false, current) else out_of_rounds
update_clock current new_value (clock ∷ clocks) =
    let rest = update_clock current new_value clocks in
    if leb new_value current
    then done (false, current)
    else if clock == current
    then done (true, new_value)
    else rest
