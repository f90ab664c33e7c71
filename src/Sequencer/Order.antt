-- ===== src/Sequencer/Order.antt =====
-- src/sequencer/monotonic_u64.rs: the queues of tracked entries hold rising instants, none later than
-- the clock, and `track` keeps them so.
use elektro_em_eukal.Base.{
  ℕ, ◌≤◌, ◌<◌, ◌≡◌, ◌≢◌, refl, sym, subst, Option, none, some, List, [], ◌∷◌, ◌++◌, ◌==◌, leb,
  update, arith, All, inl, inr, Bool-cases,
}
use elektro_em_eukal.Sequencer.{
  Entry, last, QueueOps, Sequencer, push_new, reuse, decide, track_round, act, decide_newest,
  decide_on,
}

-- From `lo` up to `c` the instants of the entries `as` rise.
abbrev pub IsRising : (ℕ → Entry) → ℕ → ℕ → List ℕ → Type 0
IsRising e lo c [] = lo ≤ c
IsRising e lo c (a ∷ more) = (lo ≤ (e a).instant) × IsRising e (e a).instant c more

pub IsRising-frame :
    (e e' : ℕ → Entry) (lo c : ℕ) (more : List ℕ)
    → All (λ a. (e' a).instant ≡ (e a).instant) more
    → IsRising e lo c more
    → IsRising e' lo c more
IsRising-frame e e' lo c [] h r = r
IsRising-frame e e' lo c (a ∷ more) (h, k) (l, r) = (
  omega (arith, h, l),
  subst (λ x. IsRising e' x c more) (sym h) (IsRising-frame e e' _ c more k r),
)

last-IsRising :
    (e : ℕ → Entry) (lo c b : ℕ) (more : List ℕ)
    → IsRising e lo c (b ∷ more)
    → (z : ℕ) × (last (b ∷ more) ≡ some z) × (lo ≤ (e z).instant)
last-IsRising e lo c b [] (l, r) = (b, refl, l)
last-IsRising e lo c b (d ∷ more) (l, r) =
    let (z, h, k) = last-IsRising e (e b).instant c d more r in (z, h, omega (arith, l, k))

last_bound :
    (e : ℕ → Entry) (lo c b : ℕ) (more : List ℕ)
    → IsRising e lo c more
    → last more ≡ some b
    → (e b).instant ≤ c
last_bound e lo c b [] r h = absurd cc
last_bound e lo c b (a ∷ []) (l, r) h =
    let same : a ≡ b = cc in subst (λ x. (e x).instant ≤ c) same r
last_bound e lo c b (a ∷ (d ∷ more)) (l, r) h = last_bound e (e a).instant c b (d ∷ more) r h

-- An entry at the end that is no earlier than the last one.
pub IsRising-append :
    (e : ℕ → Entry) (lo c : ℕ) (more : List ℕ) (f : ℕ)
    → IsRising e lo c more
    → lo ≤ (e f).instant
    → (e f).instant ≤ c
    → ((b : ℕ) → last more ≡ some b → (e b).instant ≤ (e f).instant)
    → IsRising e lo c (more ++ (f ∷ []))
IsRising-append e lo c [] f r l u h = (l, u)
IsRising-append e lo c (a ∷ []) f (k, r) l u h = (k, (h a refl, u))
IsRising-append e lo c (a ∷ (b ∷ more)) f (k, r) l u h = (
  k,
  IsRising-append e (e a).instant c (b ∷ more) f r
      (let (z, e', k') = last-IsRising e (e a).instant c b more r in omega (arith, h z e', k')) u h,
)

fresh_frame :
    (e : ℕ → Entry) (f : ℕ) (v : Entry) (more : List ℕ)
    → All (λ a. a ≢ f) more
    → All (λ a. (update e f v a).instant ≡ (e a).instant) more
fresh_frame e f v [] h = tt
fresh_frame e f v (a ∷ more) (h, k) = (ground arith, fresh_frame e f v more k)

counted_frame :
    (e : ℕ → Entry) (f n : ℕ) (more : List ℕ)
    → All (λ a. (update e f (record (e f) { ref_cnt = n }) a).instant ≡ (e a).instant) more
counted_frame e f n [] = tt
counted_frame e f n (a ∷ more) = (ground arith, counted_frame e f n more)

last-IsAmong : (P : ℕ → Type 0) (more : List ℕ) (b : ℕ) → All P more → last more ≡ some b → P b
last-IsAmong P [] b h e = absurd cc
last-IsAmong P (a ∷ []) b (h, k) e = let same : a ≡ b = cc in subst P same h
last-IsAmong P (a ∷ (d ∷ more)) b (h, k) e = last-IsAmong P (d ∷ more) b k e

module _ (ops : QueueOps) where
  -- Every queue rises up to the clock.
  abbrev pub IsOrdered : Sequencer ops → Type 0
  IsOrdered s = (i : ℕ) → IsRising s.entries 0 s.clock (ops.contents (s.sharded_entry_list i))

  -- The address is in no queue.
  abbrev pub IsFresh : ℕ → Sequencer ops → Type 0
  IsFresh f s = (i : ℕ) → All (λ a. a ≢ f) (ops.contents (s.sharded_entry_list i))

  -- What a round of `track` from the clock value `candidate` leaves: a tracker of an instant between
  -- that value and the clock, or another round when the newest entry of the shard is later than
  -- `candidate` and no longer used.
  abbrev pub Tracks : ℕ → Sequencer ops → Option (Sequencer ops × ℕ) → Type 0
  Tracks candidate s none = candidate < s.clock
  Tracks candidate s (some (s', tracker)) =
      IsOrdered s'
      × (s'.clock ≡ s.clock)
      × (candidate ≤ (s'.entries tracker).instant)
      × ((s'.entries tracker).instant ≤ s.clock)

  push_new-IsRising :
      (candidate fresh c : ℕ) (e : ℕ → Entry) (q : ops.Queue)
      → IsRising e 0 c (ops.contents q)
      → All (λ a. a ≢ fresh) (ops.contents q)
      → candidate ≤ c
      → ((b : ℕ) → last (ops.contents q) ≡ some b → (e b).instant ≤ candidate)
      → IsRising
          (update e fresh (record { instant = candidate; ref_cnt = 1 }))
          0
          c
          (ops.contents (ops.push fresh q))
  push_new-IsRising candidate fresh c e q r f h l =
      let e' = update e fresh (record { instant = candidate; ref_cnt = 1 }) in
      subst (IsRising e' 0 c) (sym (ops.contents-push fresh q)) (
        IsRising-append e' 0 c (ops.contents q) fresh
          (IsRising-frame e e' 0 c _ (fresh_frame e fresh _ _ f) r) (omega arith) (ground arith)
          (λ b z.
            let other : b ≢ fresh = last-IsAmong (λ a. a ≢ fresh) _ b f z in ground (arith, l b z)))

  push_new-IsOrdered :
      (candidate shard fresh : ℕ) (s : Sequencer ops)
      → IsOrdered s
      → IsFresh fresh s
      → candidate ≤ s.clock
      → ((b : ℕ)
          → last (ops.contents (s.sharded_entry_list shard)) ≡ some b
          → (s.entries b).instant ≤ candidate)
      → IsOrdered (record s {
        entries = update s.entries fresh (record { instant = candidate; ref_cnt = 1 });
        sharded_entry_list =
            update s.sharded_entry_list shard (ops.push fresh (s.sharded_entry_list shard));
      })
  push_new-IsOrdered candidate shard fresh s o f c h i = elim (Bool-cases (shard == i)) [
    | inl t ↦ rw t (
        push_new-IsRising candidate fresh s.clock s.entries (s.sharded_entry_list shard) (o shard)
          (f shard) c h)
    | inr n ↦ rw n (
        IsRising-frame s.entries
          (update s.entries fresh (record { instant = candidate; ref_cnt = 1 })) 0 s.clock _
          (fresh_frame s.entries fresh _ _ (f i)) (o i))
  ]

  reuse-IsOrdered :
      (a n : ℕ) (s : Sequencer ops)
      → IsOrdered s
      → IsOrdered (record s { entries = update s.entries a (record (s.entries a) { ref_cnt = n }) })
  reuse-IsOrdered a n s o i =
      IsRising-frame s.entries (update s.entries a (record (s.entries a) { ref_cnt = n })) 0 s.clock
        _ (counted_frame s.entries a n _) (o i)

  pushed-Tracks :
      (candidate shard fresh : ℕ) (s : Sequencer ops)
      → IsOrdered s
      → IsFresh fresh s
      → candidate ≤ s.clock
      → ((b : ℕ)
          → last (ops.contents (s.sharded_entry_list shard)) ≡ some b
          → (s.entries b).instant ≤ candidate)
      → Tracks candidate s (act ops candidate shard fresh s push_new)
  unfolding act
  pushed-Tracks candidate shard fresh s o f c h =
      (push_new-IsOrdered candidate shard fresh s o f c h, refl, ground arith, ground arith)

  reused-Tracks :
      (candidate shard fresh a : ℕ) (s : Sequencer ops)
      → IsOrdered s
      → candidate ≤ (s.entries a).instant
      → (s.entries a).instant ≤ s.clock
      → Tracks candidate s (act ops candidate shard fresh s (reuse a))
  unfolding act
  reused-Tracks candidate shard fresh a s o c h =
      (reuse-IsOrdered a _ s o, refl, ground arith, ground arith)

  acted-Tracks :
      (candidate shard fresh : ℕ) (s : Sequencer ops) (newest : Option ℕ)
      → IsOrdered s
      → IsFresh fresh s
      → candidate ≤ s.clock
      → last (ops.contents (s.sharded_entry_list shard)) ≡ newest
      → Tracks candidate s
          (act ops candidate shard fresh s (decide_newest candidate s.entries newest))
  unfolding act decide_newest decide_on
  acted-Tracks candidate shard fresh s none o f c e =
      pushed-Tracks candidate shard fresh s o f c (λ b z. absurd cc)
  acted-Tracks candidate shard fresh s (some a) o f c e =
      let bound = last_bound s.entries 0 s.clock a _ (o shard) e in
      let pushed = λ (h : (s.entries a).instant ≤ candidate).
        pushed-Tracks candidate shard fresh s o f c
          (λ b z. let same : a ≡ b = cc in subst (λ x. (s.entries x).instant ≤ candidate) same h) in
      elim (Bool-cases (leb candidate (s.entries a).instant)) [
        | inl later ↦ elim (Bool-cases ((s.entries a).ref_cnt == 0)) [
          | inl unused ↦ elim (Bool-cases ((s.entries a).instant == candidate)) [
            | inl same ↦ rw (decide_on, later, unused, same) (pushed (ground arith))
            | inr other ↦ rw (decide_on, later, unused, other) (ground arith)
          ]
          | inr used ↦
              rw (decide_on, later, used)
                (reused-Tracks candidate shard fresh a s o (ground arith) bound)
        ]
        | inr earlier ↦ rw (decide_on, earlier) (pushed (ground arith))
      ]

  -- A round of `track` keeps the queues ordered, and its tracker is no earlier than the clock value
  -- that it has loaded, and no later than the clock. It goes on only with a value that the clock has
  -- left behind.
  pub track_round-Tracks :
      (candidate shard fresh : ℕ) (s : Sequencer ops)
      → IsOrdered s
      → IsFresh fresh s
      → candidate ≤ s.clock
      → Tracks candidate s (track_round ops candidate shard fresh s)
  unfolding track_round decide
  track_round-Tracks candidate shard fresh s o f c =
      rw (ops.newest-contents (s.sharded_entry_list shard))
        (acted-Tracks candidate shard fresh s _ o f c refl)
