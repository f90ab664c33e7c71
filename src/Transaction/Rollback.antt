-- ===== src/Transaction/Rollback.antt =====
-- src/transaction.rs: rolling a transaction back.
use elektro_em_eukal.Base.{
  Outcome, done, out_of_rounds, panicked, ℕ, ◌≤◌, ◌≡◌, ◌≢◌, refl, sym, subst, ◌∙◌, ap, Option, none,
  List, [], ◌∷◌, ◌++◌, arith, All, length,
}
use elektro_em_eukal.Anchors.{Store, State, wake_up_readers, wait_eot, transaction_eot_instant}
use elektro_em_eukal.Transaction.{
  Transaction, rewind, rewind_strand, conclude_rewind, write_state, begin_rollback, finish_rollback,
  rollback_internal,
}
use elektro_em_eukal.Transaction.Strand.{Chain, Chain-frame}
use elektro_em_eukal.Transaction.Rewind.{
  IsRolledBack, Undone, RewindsTo, rewind-RewindsTo, Agree-refl,
}

-- The outcome of rolling back the transaction `t` with the strand `js`.
abbrev pub RollsBack : Transaction → Store → List ℕ → Outcome (Transaction × Store) → Type 0
RollsBack t st js (done (t', st')) =
    ((st'.transactions t.anchor).state ≡ State.rolled_back)
    × All (IsRolledBack st') js
    × (t'.journal_strand ≡ none)
    × ((k : ℕ) → All (λ x. k ≢ x) js → st'.journals k ≡ st.journals k)
RollsBack t st js panicked = ⊥
RollsBack t st js out_of_rounds = ⊥

Undone-IsRolledBack :
    (st st' : Store) (js : List ℕ) → All (Undone st st') js → All (IsRolledBack st') js
Undone-IsRolledBack st st' [] u = tt
Undone-IsRolledBack st st' (j ∷ js) ((r, i, s, t), u) = (r, Undone-IsRolledBack st st' js u)

append_empty : (xs : List ℕ) (ys : List ℕ) → length ys ≡ 0 → xs ++ ys ≡ xs
append_empty [] [] h = refl
append_empty [] (y ∷ ys) h = absurd (omega (arith, h))
append_empty (x ∷ xs) ys h = ap (λ z. x ∷ z) (append_empty xs ys h)

empty-Chain :
    (st : Store) (head : Option ℕ) (js : List ℕ) → length js ≡ 0 → Chain st head js → head ≡ none
empty-Chain st head [] h c = c
empty-Chain st head (j ∷ js) h c = absurd (omega (arith, h))

rewound-RollsBack :
    (t : Transaction) (st : Store) (js : List ℕ) (o : Outcome (Transaction × Store × Option ℕ))
    → RewindsTo t st js none o
    → RollsBack t st js (elim o [
      | done (t', st', left) ↦ done (t', write_state t.anchor State.rolled_back st')
      | panicked ↦ panicked
      | out_of_rounds ↦ out_of_rounds
    ])
rewound-RollsBack t st js (done (t', st', left)) (n, a, b, (undone, kept, e, l, c, u, g, f)) =
    let nothing_kept : length kept ≡ 0 = omega (arith, l) in
    let all : js ≡ undone = e ∙ append_empty undone kept nothing_kept in
    (
      ground arith,
      subst (All (IsRolledBack st')) (sym all) (Undone-IsRolledBack st st' undone u),
      empty-Chain st' t'.journal_strand kept nothing_kept c,
      f,
    )
rewound-RollsBack t st js panicked r = r
rewound-RollsBack t st js out_of_rounds r = r

-- With a round for each journal of the strand, a rollback ends: the transaction is rolled back, and
-- so is every journal of its strand, which is empty then. No other journal is touched.
pub rollback_internal-RollsBack :
    (rounds : ℕ) (t : Transaction) (st : Store) (js : List ℕ)
    → Chain st t.journal_strand js
    → length js ≤ rounds
    → RollsBack t st js (rollback_internal rounds t st)
unfolding rollback_internal finish_rollback begin_rollback wake_up_readers
rollback_internal-RollsBack rounds t st js c h =
    let rolling = begin_rollback t.anchor st in
    rewound-RollsBack t rolling js _ (
      rewind-RewindsTo rounds none t rolling js
        (Chain-frame st rolling js t.journal_strand (Agree-refl st js) c) h)

rewind-empty :
    (rounds : ℕ) (t : Transaction) (st : Store)
    → t.journal_strand ≡ none
    → (t' : Transaction) × (rewind rounds none t st ≡ done (t', st, none))
unfolding rewind rewind_strand conclude_rewind
rewind-empty rounds t st e =
    let nothing : rewind_strand rounds none t.journal_strand st ≡ done (st, none) =
      rw (e, rewind_strand) refl in
    subst (λ o. (t' : Transaction) × (conclude_rewind none t o ≡ done (t', st, none))) (sym nothing)
      (_, refl)

-- In the rollback of a transaction with no submitted journal, its beginning wakes every reader that
-- waits for its end, and none waits then. A reader that polls next, before the rollback is finished,
-- sees no end and waits again; the rollback finishes, the transaction is rolled back, but that reader
-- still waits, and nobody was woken.
pub rollback_forgets_reader :
    (rounds waker : ℕ) (t : Transaction) (st : Store)
    → t.journal_strand ≡ none
    → let begun = begin_rollback t.anchor st in
      let (waiting, seen) = wait_eot t.anchor waker begun in
      (begun.woken ≡ st.woken ++ (st.transactions t.anchor).waiting_readers)
      × ((begun.transactions t.anchor).waiting_readers ≡ [])
      × (seen ≡ none)
      × ((t' : Transaction) × (st' : Store) × (finish_rollback rounds t waiting ≡ done (t', st'))
          × ((st'.transactions t.anchor).state ≡ State.rolled_back)
          × ((st'.transactions t.anchor).waiting_readers ≡ waker ∷ [])
          × (st'.woken ≡ begun.woken))
unfolding begin_rollback wait_eot wake_up_readers finish_rollback rewind rewind_strand
    conclude_rewind transaction_eot_instant
rollback_forgets_reader rounds waker t st e =
    let waiting = (wait_eot t.anchor waker (begin_rollback t.anchor st)).0 in
    let (t', r) = rewind-empty rounds t waiting e in
    (
      ground arith,
      ground arith,
      ground arith,
      (
        t',
        write_state t.anchor State.rolled_back waiting,
        rw (finish_rollback, r) refl,
        ground arith,
        ground arith,
        ground arith,
      ),
    )
