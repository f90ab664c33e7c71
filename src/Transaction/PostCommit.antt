-- ===== src/Transaction/PostCommit.antt =====
-- src/transaction.rs: what a transaction leaves when it has committed.
use elektro_em_eukal.Base.{
  Outcome, done, out_of_rounds, panicked, ℕ, zero, suc, ◌≤◌, ◌≡◌, ◌≢◌, refl, sym, subst, ◌∙◌, ap,
  Option, none, List, [], ◌∷◌, ◌++◌, arith, All, length, update,
}
use elektro_em_eukal.Anchors.{
  Store, State, TransactionAnchor, JournalAnchor, set_next, commit, wake_up_readers,
}
use elektro_em_eukal.Transaction.{Transaction, commit_strand, post_commit}
use elektro_em_eukal.Transaction.Strand.{Chain, Agree, Chain-frame}
use elektro_em_eukal.Transaction.Rewind.{Agree-refl}

-- A journal that has at most left the strand.
abbrev pub IsUnlinked : JournalAnchor → JournalAnchor → Type 0
IsUnlinked a a' =
    (a'.transaction_anchor ≡ a.transaction_anchor)
    × (a'.creation_instant ≡ a.creation_instant)
    × (a'.submitted ≡ a.submitted)
    × (a'.rolled_back ≡ a.rolled_back)
    × (a'.wake_up_others ≡ a.wake_up_others)

-- The journal has no next one, and its instant is that of the first journal of a strand.
abbrev pub IsAlone : JournalAnchor → Type 0
IsAlone a = (a.next ≡ none) × (a.submit_instant ≡ 1)

-- What the loop over the strand `js` leaves.
abbrev pub CommitsStrand : Store → List ℕ → Outcome Store → Type 0
CommitsStrand st js (done st') =
    ((a : ℕ) → st'.transactions a ≡ st.transactions a)
    × (st'.woken ≡ st.woken)
    × ((k : ℕ) → IsUnlinked (st.journals k) (st'.journals k))
    × All (λ k. IsAlone (st'.journals k)) js
    × ((k : ℕ) → All (λ x. k ≢ x) js → st'.journals k ≡ st.journals k)
CommitsStrand st js panicked = ⊥
CommitsStrand st js out_of_rounds = ⊥

abbrev unlink : ℕ → Store → Store
unlink j st = (set_next j none (commit j st)).0

module _ (st : Store) (j : ℕ) where
  unlink-next : (set_next j none (commit j st)).1 ≡ (st.journals j).next
  unfolding set_next commit
  unlink-next = ground arith

  unlink-IsAlone : IsAlone ((unlink j st).journals j)
  unfolding set_next commit
  unlink-IsAlone = ground arith

  unlink-other : (k : ℕ) → k ≢ j → (unlink j st).journals k ≡ st.journals k
  unfolding set_next commit
  unlink-other k h = ground arith

  unlink-IsUnlinked : (k : ℕ) → IsUnlinked (st.journals k) ((unlink j st).journals k)
  unfolding set_next commit
  unlink-IsUnlinked k = ground arith

  unlink-transactions :
      ((a : ℕ) → (unlink j st).transactions a ≡ st.transactions a)
      × ((unlink j st).woken ≡ st.woken)
  unfolding set_next commit
  unlink-transactions = ((λ a. ground arith), ground arith)

unlink-Agree : (st : Store) (j : ℕ) (js : List ℕ) → All (λ k. j ≢ k) js → Agree st (unlink j st) js
unlink-Agree st j [] d = tt
unlink-Agree st j (k ∷ js) (n, d) = (unlink-other st j k (λ e. n (sym e)), unlink-Agree st j js d)

IsUnlinked-trans : (a b c : JournalAnchor) → IsUnlinked a b → IsUnlinked b c → IsUnlinked a c
IsUnlinked-trans a b c (t, i, s, r, w) (t', i', s', r', w') =
    (t' ∙ t, i' ∙ i, s' ∙ s, r' ∙ r, w' ∙ w)

CommitsStrand-step :
    (st : Store) (j : ℕ) (js : List ℕ) (o : Outcome Store)
    → All (λ k. j ≢ k) js
    → CommitsStrand (unlink j st) js o
    → CommitsStrand st (j ∷ js) o
CommitsStrand-step st j js (done st') d (t, w, u, n, f) = (
  (λ a. t a ∙ (unlink-transactions st j).0 a),
  w ∙ (unlink-transactions st j).1,
  (λ k.
      IsUnlinked-trans (st.journals k) ((unlink j st).journals k) (st'.journals k)
        (unlink-IsUnlinked st j k) (u k)),
  (subst IsAlone (sym (f j d)) (unlink-IsAlone st j), n),
  (λ k h. f k h.1 ∙ unlink-other st j k h.0),
)
CommitsStrand-step st j js panicked d r = r
CommitsStrand-step st j js out_of_rounds d r = r

commit_strand-CommitsStrand :
    (js : List ℕ) (rounds : ℕ) (head : Option ℕ) (st : Store)
    → Chain st head js
    → length js ≤ rounds
    → CommitsStrand st js (commit_strand rounds head st)
unfolding commit_strand
commit_strand-CommitsStrand [] rounds head st c h =
    rw (c, commit_strand)
      ((λ a. refl), refl, (λ k. (refl, refl, refl, refl, refl)), tt, λ k x. refl)
commit_strand-CommitsStrand (j ∷ js) zero head st c h = absurd (omega arith)
commit_strand-CommitsStrand (j ∷ js) (suc k) head st (e, i, d, c) h =
    rw (e, commit_strand)
      (CommitsStrand-step st j js _ d (
        commit_strand-CommitsStrand js k _ (unlink j st)
          (Chain-frame st (unlink j st) js _ (unlink-Agree st j js d)
            (subst (λ x. Chain st x js) (sym (unlink-next st j)) c))
          (omega arith)))

-- The outcome of `post_commit` at `instant`, of the transaction `t` with the strand `js`.
abbrev pub IsCommitted : Transaction → ℕ → Store → List ℕ → Outcome (Transaction × Store) → Type 0
IsCommitted t instant st js (done (t', st')) =
    ((st'.transactions t.anchor).state ≡ State.committed)
    × ((st'.transactions t.anchor).commit_instant ≡ instant)
    × ((st'.transactions t.anchor).waiting_readers ≡ [])
    × (st'.woken ≡ st.woken ++ (st.transactions t.anchor).waiting_readers)
    × (t'.journal_strand ≡ none)
    × ((k : ℕ) → IsUnlinked (st.journals k) (st'.journals k))
    × All (λ k. IsAlone (st'.journals k)) js
    × ((k : ℕ) → All (λ x. k ≢ x) js → st'.journals k ≡ st.journals k)
IsCommitted t instant st js panicked = ⊥
IsCommitted t instant st js out_of_rounds = ⊥

committed-IsCommitted :
    (t : Transaction) (instant : ℕ) (st ended : Store) (js : List ℕ) (o : Outcome Store)
    → ((ended.transactions t.anchor).state ≡ State.committed)
    → ((ended.transactions t.anchor).commit_instant ≡ instant)
    → ((ended.transactions t.anchor).waiting_readers ≡ [])
    → (ended.woken ≡ st.woken ++ (st.transactions t.anchor).waiting_readers)
    → ((k : ℕ) → ended.journals k ≡ st.journals k)
    → CommitsStrand ended js o
    → IsCommitted t instant st js (elim o [
      | done st' ↦ done (record t { journal_strand = none }, st')
      | panicked ↦ panicked
      | out_of_rounds ↦ out_of_rounds
    ])
committed-IsCommitted t instant st ended js (done st') s i w r j (tr, wk, u, n, f) = (
  ap (λ (x : TransactionAnchor). x.state) (tr t.anchor) ∙ s,
  ap (λ (x : TransactionAnchor). x.commit_instant) (tr t.anchor) ∙ i,
  ap (λ (x : TransactionAnchor). x.waiting_readers) (tr t.anchor) ∙ w,
  wk ∙ r,
  refl,
  (λ k. subst (λ x. IsUnlinked x (st'.journals k)) (j k) (u k)),
  n,
  (λ k h. f k h ∙ j k),
)
committed-IsCommitted t instant st ended js panicked s i w r j h = h
committed-IsCommitted t instant st ended js out_of_rounds s i w r j h = h

-- With a round for each journal of the strand, `post_commit` ends: the transaction is committed at
-- the instant, every reader that waited for its end is woken, and the strand is taken apart: a
-- journal of it has no next journal then, its submit instant is 1, and it changes in nothing else, so
-- that one that was rolled back stays so. No other journal changes.
pub post_commit-IsCommitted :
    (rounds instant : ℕ) (t : Transaction) (st : Store) (js : List ℕ)
    → Chain st t.journal_strand js
    → length js ≤ rounds
    → IsCommitted t instant st js (post_commit rounds instant t st)
unfolding post_commit wake_up_readers
post_commit-IsCommitted rounds instant t st js c h =
    let ended = wake_up_readers t.anchor (record st {
      transactions =
          update st.transactions t.anchor (record (st.transactions t.anchor) {
            state = State.committed;
            commit_instant = instant;
          });
    }) in
    committed-IsCommitted t instant st ended js _ (ground arith) (ground arith) (ground arith)
      (ground arith) (λ k. refl)
      (commit_strand-CommitsStrand js rounds t.journal_strand ended
        (Chain-frame st ended js t.journal_strand (Agree-refl st js) c) h)
