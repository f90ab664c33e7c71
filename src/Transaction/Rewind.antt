-- ===== src/Transaction/Rewind.antt =====
-- src/transaction.rs: rewinding a transaction to an instant, and rolling it back.
use elektro_em_eukal.Base.{
  Outcome, done, out_of_rounds, panicked, ℕ, zero, suc, ◌≤◌, ◌≡◌, ◌≢◌, refl, sym, subst, ◌∙◌, ap,
  true, false, Option, none, some, List, [], ◌∷◌, ◌++◌, arith, All, length, value_or_zero,
  option_le, min, Bool-cases, inl, inr, is_some,
}
use elektro_em_eukal.Anchors.{
  Store, JournalAnchor, set_next, rollback, submit_instant, transaction_eot_instant, is_rolled_back,
  eot_instant, transaction_id,
}
use elektro_em_eukal.Access.{Relationship, grant_write_access}
use elektro_em_eukal.Transaction.{
  now, open_journal, Transaction, rewind_strand, conclude_rewind, rewind, head_instant,
}
use elektro_em_eukal.Transaction.Strand.{
  Chain, Agree, Chain-frame, Agree-update, Agree-trans, Agree-set_next, rollback_journals,
}

abbrev pub IsRolledBack : Store → ℕ → Type 0
IsRolledBack st k = (st.journals k).rolled_back ≡ true

-- A journal that was undone: it is rolled back, and stands alone with the submit instant 1.
abbrev pub Undone : Store → Store → ℕ → Type 0
Undone st st' k =
    ((st'.journals k).rolled_back ≡ true)
    × ((st'.journals k).submit_instant ≡ 1)
    × ((st'.journals k).submitted ≡ (st.journals k).submitted)
    × ((st'.journals k).transaction_anchor ≡ (st.journals k).transaction_anchor)

-- A strand `js` rewound to an instant: the newest journals `undone` are rolled back, and the rest is
-- the strand, untouched, of the length that the instant
-- says. No other journal is touched.
abbrev pub Rewound : Store → List ℕ → Option ℕ → Store × Option ℕ → Type 0
Rewound st js instant (st', left) =
    (undone : List ℕ) × (kept : List ℕ) × (js ≡ undone ++ kept)
    × (length kept ≡ min (value_or_zero instant) (length js))
    × Chain st' left kept
    × All (Undone st st') undone
    × Agree st st' kept
    × ((k : ℕ) → All (λ x. k ≢ x) js → st'.journals k ≡ st.journals k)

abbrev pub Rewinds : Store → List ℕ → Option ℕ → Outcome (Store × Option ℕ) → Type 0
Rewinds st js instant (done r) = Rewound st js instant r
Rewinds st js instant panicked = ⊥
Rewinds st js instant out_of_rounds = ⊥

pub Agree-refl : (st : Store) (js : List ℕ) → Agree st st js
Agree-refl st [] = tt
Agree-refl st (j ∷ js) = (refl, Agree-refl st js)

-- One round of the loop undoes the journal at the head.
abbrev undo : ℕ → Store → Store
undo j st = (set_next j none (rollback j st)).0

undo-Agree : (st : Store) (j : ℕ) (js : List ℕ) → All (λ k. j ≢ k) js → Agree st (undo j st) js
undo-Agree st j js d =
    Agree-trans st (rollback j st) (undo j st) js
      (Agree-update st (rollback j st) j _ js (rollback_journals st j) d)
      (Agree-set_next (rollback j st) j none js d)

undo-next : (st : Store) (j : ℕ) → (set_next j none (rollback j st)).1 ≡ (st.journals j).next
unfolding set_next
undo-next st j = ground (arith, rollback_journals st j j)

undo-Undone : (st : Store) (j : ℕ) → Undone st (undo j st) j
unfolding set_next
undo-Undone st j = ground (arith, rollback_journals st j j)

undo-other : (st : Store) (j k : ℕ) → k ≢ j → (undo j st).journals k ≡ st.journals k
unfolding set_next
undo-other st j k h = ground (arith, rollback_journals st j k)

Undone-kept :
    (st st1 st' : Store) (j : ℕ)
    → st'.journals j ≡ st1.journals j
    → Undone st st1 j
    → Undone st st' j
Undone-kept st st1 st' j e (r, i, s, t) =
    subst
      (λ (a : JournalAnchor).
        (a.rolled_back ≡ true)
        × (a.submit_instant ≡ 1)
        × (a.submitted ≡ (st.journals j).submitted)
        × (a.transaction_anchor ≡ (st.journals j).transaction_anchor))
      (sym e) (r, i, s, t)

Undone-moved :
    (st st1 st' : Store) (ks rest : List ℕ)
    → Agree st st1 (ks ++ rest)
    → All (Undone st1 st') ks
    → All (Undone st st') ks
Undone-moved st st1 st' [] rest a u = tt
Undone-moved st st1 st' (k ∷ ks) rest (e, a) ((r, i, s, t), u) = (
  (
    r,
    i,
    s ∙ ap (λ (x : JournalAnchor). x.submitted) e,
    t ∙ ap (λ (x : JournalAnchor). x.transaction_anchor) e,
  ),
  Undone-moved st st1 st' ks rest a u,
)

Agree-suffix : (st st' : Store) (xs ys : List ℕ) → Agree st st' (xs ++ ys) → Agree st st' ys
Agree-suffix st st' [] ys a = a
Agree-suffix st st' (x ∷ xs) ys a = Agree-suffix st st' xs ys a.1

module _ (st : Store) (j : ℕ) (js : List ℕ) (instant : Option ℕ)
    (i : (st.journals j).submit_instant ≡ suc (length js)) where
  reached :
      option_le (submit_instant st j) instant ≡ true
      → suc (length js) ≡ min (value_or_zero instant) (suc (length js))
  unfolding submit_instant
  reached t = ground arith

  beyond : option_le (submit_instant st j) instant ≡ false → value_or_zero instant ≤ length js
  unfolding submit_instant
  beyond f = ground arith

Rewinds-step :
    (st : Store) (j : ℕ) (js : List ℕ) (instant : Option ℕ) (o : Outcome (Store × Option ℕ))
    → value_or_zero instant ≤ length js
    → All (λ k. j ≢ k) js
    → Rewinds (undo j st) js instant o
    → Rewinds st (j ∷ js) instant o
Rewinds-step st j js instant (done (st', left)) h d (undone, kept, e, l, c, r, a, m) = (
  j ∷ undone,
  kept,
  ap (λ x. j ∷ x) e,
  omega (arith, l),
  c,
  (
    Undone-kept st (undo j st) st' j (m j d) (undo-Undone st j),
    Undone-moved st (undo j st) st' undone kept
        (subst (Agree st (undo j st)) e (undo-Agree st j js d)) r,
  ),
  Agree-trans st (undo j st) st' kept
      (Agree-suffix st (undo j st) undone kept
        (subst (Agree st (undo j st)) e (undo-Agree st j js d)))
      a,
  λ k x. m k x.1 ∙ undo-other st j k x.0,
)
Rewinds-step st j js instant panicked h d r = r
Rewinds-step st j js instant out_of_rounds h d r = r

rewind_strand-Rewinds :
    (js : List ℕ) (k : ℕ) (instant : Option ℕ) (head : Option ℕ) (st : Store)
    → Chain st head js
    → length js ≤ k
    → Rewinds st js instant (rewind_strand k instant head st)
unfolding rewind_strand
rewind_strand-Rewinds [] k instant head st c h =
    rw (c, rewind_strand) ([], [], refl, omega arith, refl, tt, tt, λ k x. refl)
rewind_strand-Rewinds (j ∷ js) zero instant head st c h = absurd (omega arith)
rewind_strand-Rewinds (j ∷ js) (suc k) instant head st (e, i, d, c) h =
    elim (Bool-cases (option_le (submit_instant st j) instant)) [
      | inl t ↦
          rw (e, rewind_strand, t)
            (
              [],
              j ∷ js,
              refl,
              reached st j js instant i t,
              (refl, i, d, c),
              tt,
              Agree-refl st (j ∷ js),
              λ k x. refl,
            )
      | inr f ↦
          rw (e, rewind_strand, f)
            (Rewinds-step st j js instant _ (beyond st j js instant i f) d (
              rewind_strand-Rewinds js k instant _ (undo j st)
                (Chain-frame st (undo j st) js _ (undo-Agree st j js d)
                  (subst (λ x. Chain st x js) (sym (undo-next st j)) c))
                (omega arith)))
    ]

abbrev pub instant_of_length : ℕ → Option ℕ
instant_of_length zero = none
instant_of_length (suc n) = some (suc n)

head_instant-Chain :
    (st : Store) (head : Option ℕ) (js : List ℕ)
    → Chain st head js
    → head_instant st head ≡ instant_of_length (length js)
head_instant-Chain st head [] c = rw c refl
head_instant-Chain st head (j ∷ js) (e, i, d, c) = rw (e, i) refl

-- The outcome of `rewind` for the transaction `t` with the strand `js`.
abbrev pub RewindsTo :
    Transaction → Store → List ℕ → Option ℕ → Outcome (Transaction × Store × Option ℕ) → Type 0
RewindsTo t st js instant (done (t', st', new_instant)) =
    (new_instant ≡ instant_of_length (min (value_or_zero instant) (length js)))
    × (t'.anchor ≡ t.anchor)
    × (t'.eot_log_buffer ≡ is_some instant)
    × Rewound st js instant (st', t'.journal_strand)
RewindsTo t st js instant panicked = ⊥
RewindsTo t st js instant out_of_rounds = ⊥

conclude_rewind-RewindsTo :
    (t : Transaction) (st : Store) (js : List ℕ) (instant : Option ℕ)
    (o : Outcome (Store × Option ℕ))
    → Rewinds st js instant o
    → RewindsTo t st js instant (conclude_rewind instant t o)
unfolding conclude_rewind
conclude_rewind-RewindsTo t st js instant (done (st', left)) (undone, kept, e, l, c, u, a, f) = (
  head_instant-Chain st' left kept c ∙ ap instant_of_length l,
  refl,
  refl,
  (undone, kept, e, l, c, u, a, f),
)
conclude_rewind-RewindsTo t st js instant panicked r = r
conclude_rewind-RewindsTo t st js instant out_of_rounds r = r

-- With a round for each journal of its strand, a rewind ends. It rolls back the newest journals and
-- keeps as many as the instant says, or all of them if there are fewer, and none without an instant;
-- the instant that it returns is the number of journals kept. Neither a kept journal nor one outside
-- the strand is touched, and the log buffer for the end of the transaction is there exactly if the
-- rewind has an instant.
pub rewind-RewindsTo :
    (rounds : ℕ) (instant : Option ℕ) (t : Transaction) (st : Store) (js : List ℕ)
    → Chain st t.journal_strand js
    → length js ≤ rounds
    → RewindsTo t st js instant (rewind rounds instant t st)
unfolding rewind
rewind-RewindsTo rounds instant t st js c h =
    conclude_rewind-RewindsTo t st js instant _
      (rewind_strand-Rewinds js rounds instant t.journal_strand st c h)

-- A journal that a rewind has undone still counts as an earlier journal of its transaction: the next
-- journal that the transaction opens, at any instant, is linearizable with it and passes for its
-- heir, though the undone journal holds nothing any more.
pub stale_instant_grants_access :
    (st st' : Store) (t : Transaction) (k n i : ℕ)
    → Undone st st' k
    → (st.journals k).submitted ≡ true
    → (st.journals k).transaction_anchor ≡ t.anchor
    → transaction_eot_instant (st'.transactions t.anchor) ≡ none
    → now st' t ≡ some (suc i)
    → k ≢ n
    → (is_rolled_back (open_journal n t st') k ≡ true)
      × (grant_write_access (open_journal n t st') k n ≡ Relationship.linearizable)
unfolding is_rolled_back open_journal grant_write_access eot_instant transaction_id submit_instant
stale_instant_grants_access st st' t k n i (r, s, u, a) h e o c d = ground arith
