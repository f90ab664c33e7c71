-- ===== src/Sequencer/Bound.antt =====
-- src/sequencer/monotonic_u64.rs: `min` returns the least instant that a tracker holds, and the cases
-- in which the sequencer falls short of what it promises.
use elektro_em_eukal.Base.{
  ℕ, zero, suc, ◌+◌, ◌≤◌, ◌<◌, ◌≡◌, ◌≢◌, ◌⊎◌, refl, sym, ◌∙◌, ap, subst, true, false, none, some,
  List, [], ◌∷◌, ◌++◌, ◌==◌, leb, length, min, update, arith, All, inl, inr, Bool-cases,
}
use elektro_em_eukal.Sequencer.{
  Entry, first, rest_of, QueueOps, Sequencer, pop_unused, peek_min, min_from, min_instant,
}
use elektro_em_eukal.Sequencer.Order.{IsRising, IsOrdered}

-- No entry that a tracker still counts is earlier than `m`.
abbrev pub IsBelow : (ℕ → Entry) → ℕ → List ℕ → Type 0
IsBelow e m more = All (λ a. 0 < (e a).ref_cnt → m ≤ (e a).instant) more

-- Entries that nobody counts any more have left the front of a queue, and a counted one, if any, is
-- in front now.
abbrev pub IsTrimmed : (ℕ → Entry) → List ℕ → List ℕ → Type 0
IsTrimmed e more left =
    (unused : List ℕ) × (more ≡ unused ++ left)
    × All (λ a. (e a).ref_cnt ≡ 0) unused
    × ((a : ℕ) → first left ≡ some a → 0 < (e a).ref_cnt)

IsBelow-weaken :
    (e : ℕ → Entry) (m m' : ℕ) (more : List ℕ) → m' ≤ m → IsBelow e m more → IsBelow e m' more
IsBelow-weaken e m m' [] h b = tt
IsBelow-weaken e m m' (a ∷ more) h (b, c) =
    (λ u. omega (arith, h, b u), IsBelow-weaken e m m' more h c)

rising-IsBelow :
    (e : ℕ → Entry) (lo c : ℕ) (more : List ℕ) → IsRising e lo c more → IsBelow e lo more
rising-IsBelow e lo c [] r = tt
rising-IsBelow e lo c (a ∷ more) (l, r) =
    (λ u. l, IsBelow-weaken e (e a).instant lo more l (rising-IsBelow e (e a).instant c more r))

-- The instant of the first entry, or the clock, is a bound for a rising queue from which unused
-- entries are gone.
trimmed-IsBelow :
    (e : ℕ → Entry) (lo c m : ℕ) (unused left : List ℕ)
    → IsRising e lo c (unused ++ left)
    → All (λ a. (e a).ref_cnt ≡ 0) unused
    → m ≤ c
    → ((a : ℕ) → first left ≡ some a → m ≤ (e a).instant)
    → IsBelow e m (unused ++ left)
trimmed-IsBelow e lo c m [] [] r u l h = tt
trimmed-IsBelow e lo c m [] (a ∷ left) (k, r) u l h =
    IsBelow-weaken e (e a).instant m (a ∷ left) (h a refl)
      (rising-IsBelow e (e a).instant c (a ∷ left) (omega arith, r))
trimmed-IsBelow e lo c m (a ∷ unused) left (k, r) (z, u) l h =
    ((λ y. absurd (omega (arith, y, z))), trimmed-IsBelow e (e a).instant c m unused left r u l h)

-- `m'` is the least of `m` and of the instants that are counted in a queue.
abbrev pub IsLeast : (ℕ → Entry) → List ℕ → ℕ → ℕ → Type 0
IsLeast e more m m' =
    (m' ≤ m)
    × IsBelow e m' more
    × ((m' ≡ m) ⊎ ((a : ℕ) × (0 < (e a).ref_cnt) × ((e a).instant ≡ m')))

first-IsLeast :
    (e : ℕ → Entry) (lo c m : ℕ) (unused left : List ℕ)
    → IsRising e lo c (unused ++ left)
    → m ≤ c
    → All (λ a. (e a).ref_cnt ≡ 0) unused
    → ((a : ℕ) → first left ≡ some a → 0 < (e a).ref_cnt)
    → IsLeast e (unused ++ left) m (elim (first left) [ none ↦ m | some a ↦ min (e a).instant m ])
first-IsLeast e lo c m unused [] r h u f =
    (omega arith, trimmed-IsBelow e lo c m unused [] r u h (λ a z. absurd cc), inl refl)
first-IsLeast e lo c m unused (a ∷ left) r h u f =
    let m' = min (e a).instant m in
    (
      omega arith,
      trimmed-IsBelow e lo c m' unused (a ∷ left) r u (omega (arith, h))
          (λ b z. let same : a ≡ b = cc in subst (λ x. m' ≤ (e x).instant) same (omega arith)),
      elim (Bool-cases (leb m (e a).instant)) [
        | inl t ↦ inl (ground arith)
        | inr n ↦ inr (a, f a refl, ground arith)
      ],
    )

suffix-IsRising :
    (e : ℕ → Entry) (lo lo' c : ℕ) (unused left : List ℕ)
    → IsRising e lo c (unused ++ left)
    → lo' ≤ lo
    → IsRising e lo' c left
suffix-IsRising e lo lo' c [] [] r h = omega (arith, r, h)
suffix-IsRising e lo lo' c [] (a ∷ left) (l, r) h = (omega (arith, l, h), r)
suffix-IsRising e lo lo' c (a ∷ unused) left (l, r) h =
    suffix-IsRising e (e a).instant lo' c unused left r (omega (arith, l, h))

update_same : {A : Type 0} (f : ℕ → A) (i : ℕ) (v : A) → update f i v i ≡ v
update_same f i v = let t : (i == i) ≡ true = ground arith in rw t refl

update_other : {A : Type 0} (f : ℕ → A) (i k : ℕ) (v : A) → i ≢ k → update f i v k ≡ f k
update_other f i k v h = let t : (i == k) ≡ false = ground arith in rw t refl

least_chain :
    (e : ℕ → Entry) (m m1 m2 : ℕ)
    → (m1 ≡ m) ⊎ ((a : ℕ) × (0 < (e a).ref_cnt) × ((e a).instant ≡ m1))
    → (m2 ≡ m1) ⊎ ((a : ℕ) × (0 < (e a).ref_cnt) × ((e a).instant ≡ m2))
    → (m2 ≡ m) ⊎ ((a : ℕ) × (0 < (e a).ref_cnt) × ((e a).instant ≡ m2))
least_chain e m m1 m2 h (inr k) = inr k
least_chain e m m1 m2 (inl h) (inl k) = inl (k ∙ h)
least_chain e m m1 m2 (inr (a, u, h)) (inl k) = inr (a, u, h ∙ sym k)

module _ (ops : QueueOps) where
  kept-IsTrimmed :
      (e : ℕ → Entry) (q : ops.Queue) (more : List ℕ)
      → ops.contents q ≡ more
      → ((a : ℕ) → first more ≡ some a → 0 < (e a).ref_cnt)
      → IsTrimmed e more (ops.contents q)
  kept-IsTrimmed e q more c h = ([], sym c, tt, λ a z. h a (subst (λ x. first x ≡ some a) c z))

  oldest_of : (q : ops.Queue) (more : List ℕ) → ops.contents q ≡ more → ops.oldest q ≡ first more
  oldest_of q more c = ops.oldest-contents q ∙ ap first c

  pop_unused-IsTrimmed :
      (rounds : ℕ) (e : ℕ → Entry) (q : ops.Queue) (more : List ℕ)
      → ops.contents q ≡ more
      → length more ≤ rounds
      → IsTrimmed e more (ops.contents (pop_unused ops rounds e q))
  unfolding pop_unused
  pop_unused-IsTrimmed zero e q [] c h = kept-IsTrimmed e q [] c (λ a z. absurd cc)
  pop_unused-IsTrimmed zero e q (a ∷ more) c h = absurd (omega (arith, h))
  pop_unused-IsTrimmed (suc k) e q [] c h =
      rw (pop_unused, oldest_of q [] c) (kept-IsTrimmed e q [] c (λ a z. absurd cc))
  pop_unused-IsTrimmed (suc k) e q (a ∷ more) c h =
      let popped : ops.contents (ops.pop q) ≡ more = ops.contents-pop q ∙ ap rest_of c in
      let (unused, z, u, f) = pop_unused-IsTrimmed k e (ops.pop q) more popped (omega (arith, h)) in
      elim (Bool-cases ((e a).ref_cnt == 0)) [
        | inl t ↦
            rw (pop_unused, oldest_of q (a ∷ more) c, t)
              (a ∷ unused, ap (λ x. a ∷ x) z, (ground arith, u), f)
        | inr n ↦
            rw (pop_unused, oldest_of q (a ∷ more) c, n)
              (kept-IsTrimmed e q (a ∷ more) c (λ b z.
                let same : a ≡ b = cc in subst (λ x. 0 < (e x).ref_cnt) same (ground arith)))
      ]

  peek_min-IsLeast :
      (e : ℕ → Entry) (lo c m : ℕ) (q : ops.Queue) (more : List ℕ)
      → IsRising e lo c more
      → m ≤ c
      → IsTrimmed e more (ops.contents q)
      → IsLeast e more m (peek_min ops e q m)
  unfolding peek_min
  peek_min-IsLeast e lo c m q more r h (unused, z, u, f) =
      rw (peek_min, ops.oldest-contents q)
        (subst
          (λ x.
            IsLeast e x m
              (elim (first (ops.contents q)) [ none ↦ m | some a ↦ min (e a).instant m ]))
          (sym z)
          (first-IsLeast e lo c m unused (ops.contents q) (subst (IsRising e lo c) z r) h u f))

  -- The loop of `min` on the shards from `i` up to `i + left`.
  abbrev pub IsLeastOf : (ℕ → Entry) → (ℕ → ops.Queue) → ℕ → ℕ → ℕ → (ℕ → ops.Queue) × ℕ → Type 0
  IsLeastOf e shards i left m (shards', m') =
      (m' ≤ m)
      × ((k : ℕ) → i ≤ k → k < i + left → IsBelow e m' (ops.contents (shards k)))
      × ((m' ≡ m) ⊎ ((a : ℕ) × (0 < (e a).ref_cnt) × ((e a).instant ≡ m')))
      × ((k : ℕ)
          → i ≤ k
          → k < i + left
          → IsTrimmed e (ops.contents (shards k)) (ops.contents (shards' k)))
      × ((k : ℕ) → k < i → shards' k ≡ shards k)

  trimmed-IsRising :
      (e : ℕ → Entry) (c : ℕ) (shards : ℕ → ops.Queue) (i : ℕ) {q : ops.Queue}
      → ((k : ℕ) → IsRising e 0 c (ops.contents (shards k)))
      → IsTrimmed e (ops.contents (shards i)) (ops.contents q)
      → (k : ℕ) → IsRising e 0 c (ops.contents (update shards i q k))
  trimmed-IsRising e c shards i {q} r (unused, z, u, f) k = elim (Bool-cases (i == k)) [
    | inl t ↦ rw t (suffix-IsRising e 0 0 c unused _ (subst (IsRising e 0 c) z (r i)) (omega arith))
    | inr n ↦ rw n (r k)
  ]

  module _ (e : ℕ → Entry) (c : ℕ) where
    min_from-IsLeastOf :
        (left i m : ℕ) (shards : ℕ → ops.Queue)
        → ((k : ℕ) → IsRising e 0 c (ops.contents (shards k)))
        → m ≤ c
        → IsLeastOf e shards i left m (min_from ops i left e shards m)
    unfolding min_from
    min_from-IsLeastOf zero i m shards r h = (
      omega arith,
      (λ k l u. absurd (omega (arith, l, u))),
      inl refl,
      (λ k l u. absurd (omega (arith, l, u))),
      (λ k l. refl),
    )
    min_from-IsLeastOf (suc left) i m shards r h =
        let q = pop_unused ops (length (ops.contents (shards i))) e (shards i) in
        let trimmed =
          pop_unused-IsTrimmed (length (ops.contents (shards i))) e (shards i)
            (ops.contents (shards i)) refl (omega arith) in
        let (l1, b1, a1) = peek_min-IsLeast e 0 c m q (ops.contents (shards i)) (r i) h trimmed in
        let rest = min_from ops (suc i) left e (update shards i q) (peek_min ops e q m) in
        let (l2, b2, a2, t2, f2) =
          min_from-IsLeastOf left (suc i) (peek_min ops e q m) (update shards i q)
            (trimmed-IsRising e c shards i r trimmed) (omega (arith, l1, h)) in
        (
          omega (arith, l1, l2),
          (λ k l u. elim (Bool-cases (i == k)) [
            | inl t ↦
                let same : i ≡ k = ground arith in
                subst (λ x. IsBelow e rest.1 (ops.contents (shards x))) same
                  (IsBelow-weaken e (peek_min ops e q m) rest.1 _ l2 b1)
            | inr n ↦
                let other : i ≢ k = λ z. ground arith in
                subst (λ x. IsBelow e rest.1 (ops.contents x)) (update_other shards i k q other)
                  (b2 k (ground arith) (omega (arith, u)))
          ]),
          least_chain e m (peek_min ops e q m) rest.1 a1 a2,
          (λ k l u. elim (Bool-cases (i == k)) [
            | inl t ↦
                let same : i ≡ k = ground arith in
                subst (λ x. IsTrimmed e (ops.contents (shards x)) (ops.contents (rest.0 x))) same
                  (subst (λ x. IsTrimmed e (ops.contents (shards i)) (ops.contents x))
                    (sym (f2 i (omega arith) ∙ update_same shards i q)) trimmed)
            | inr n ↦
                let other : i ≢ k = λ z. ground arith in
                subst (λ x. IsTrimmed e (ops.contents x) (ops.contents (rest.0 k)))
                  (update_other shards i k q other) (t2 k (ground arith) (omega (arith, u)))
          ]),
          (λ k l. f2 k (omega (arith, l)) ∙ update_other shards i k q (λ z. omega (arith, z, l))),
        )

  -- `min` returns the least of the clock and the instants that trackers count in a queue, on a
  -- sequencer whose queues are ordered. It removes nothing but entries that no tracker counts, from
  -- the front of each shard, until a counted entry is in front.
  pub min_instant-IsLeastOf :
      (s : Sequencer ops)
      → IsOrdered ops s
      → let r = min_instant ops s in
        IsLeastOf s.entries s.sharded_entry_list 0 s.num_shards s.clock
          (r.0.sharded_entry_list, r.1)
  unfolding min_instant
  min_instant-IsLeastOf s o =
      min_from-IsLeastOf s.entries s.clock s.num_shards 0 s.clock s.sharded_entry_list o
        (omega arith)
