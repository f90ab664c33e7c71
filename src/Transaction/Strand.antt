-- ===== src/Transaction/Strand.antt =====
-- src/transaction.rs: the strand of submitted journals is a chain of distinct anchors whose submit
-- instants count down to 1, and submitting a journal adds the next instant to it.
use elektro_em_eukal.Base.{
  ℕ, suc, ◌^◌, ◌<◌, ◌≡◌, ◌≢◌, refl, sym, subst, ◌∙◌, ap, Bool, true, Option, none, some, List, [],
  ◌∷◌, arith, All, length, update,
}
use elektro_em_eukal.Anchors.{Store, JournalAnchor, set_next, submit, rollback, commit}
use elektro_em_eukal.Transaction.{Transaction, submit_journal, link_journal}

abbrev pub Chain : Store → Option ℕ → List ℕ → Type 0
Chain st head [] = head ≡ none
Chain st head (j ∷ js) =
    (head ≡ some j)
    × ((st.journals j).submit_instant ≡ suc (length js))
    × All (λ k. j ≢ k) js
    × Chain st (st.journals j).next js

-- Two stores with the same anchors on a list of journals have the same chain there.
abbrev pub Agree : Store → Store → List ℕ → Type 0
Agree st st' js = All (λ k. st'.journals k ≡ st.journals k) js

pub Chain-frame :
    (st st' : Store) (js : List ℕ) (head : Option ℕ)
    → Agree st st' js
    → Chain st head js
    → Chain st' head js
Chain-frame st st' [] head a c = c
Chain-frame st st' (j ∷ js) head (e, a) (h, i, d, c) = (
  h,
  ap (λ (x : JournalAnchor). x.submit_instant) e ∙ i,
  d,
  Chain-frame st st' js _ a (subst (λ (x : JournalAnchor). Chain st x.next js) (sym e) c),
)

-- A write to another anchor leaves the chain alone.
pub Agree-update :
    (st st' : Store) (j : ℕ) (a : JournalAnchor) (js : List ℕ)
    → ((k : ℕ) → st'.journals k ≡ update st.journals j a k)
    → All (λ k. j ≢ k) js
    → Agree st st' js
Agree-update st st' j a [] h d = tt
Agree-update st st' j a (k ∷ js) h (n, d) = (ground (arith, h k), Agree-update st st' j a js h d)

module _ (st : Store) (j k : ℕ) where
  pub submit_journals :
      (submit j st).journals k
      ≡ update st.journals j (record (st.journals j) { submitted = true }) k
  unfolding submit
  submit_journals = ground arith

  pub rollback_journals :
      (rollback j st).journals k
      ≡ update st.journals j (record (st.journals j) { rolled_back = true }) k
  unfolding rollback
  rollback_journals = ground arith

  pub commit_journals : (commit j st).journals k ≡ st.journals k
  unfolding commit
  commit_journals = ground arith

module _ (st : Store) (j k : ℕ) (next : Option ℕ) where
  pub set_next_journals : j ≢ k → (set_next j next st).0.journals k ≡ st.journals k
  unfolding set_next
  set_next_journals h = ground arith

-- The head of the strand that the last compare-and-exchange expects.
abbrev pub last_seen : Option ℕ → List (Option ℕ) → Option ℕ
last_seen head [] = head
last_seen head (actual ∷ more) = last_seen actual more

abbrev Linked : ℕ → Option ℕ → List ℕ → Store → Store × ℕ → Type 0
Linked j head js st (st', instant) =
    Agree st st' js
    × ((st'.journals j).next ≡ head)
    × ((st'.journals j).submit_instant ≡ suc (length js))
    × (instant ≡ suc (length js))

pub Agree-set_next :
    (st : Store) (j : ℕ) (next : Option ℕ) (js : List ℕ)
    → All (λ k. j ≢ k) js
    → Agree st (set_next j next st).0 js
Agree-set_next st j next [] d = tt
Agree-set_next st j next (k ∷ js) (n, d) =
    (set_next_journals st j k next n, Agree-set_next st j next js d)

set_next-Linked :
    (st : Store) (j : ℕ) (head : Option ℕ) (js : List ℕ)
    → Chain st head js
    → All (λ k. j ≢ k) js
    → suc (length js) < 2 ^ 32
    → let r = set_next j head st in Linked j head js st (r.0, r.2)
unfolding set_next
set_next-Linked st j head [] c d l = (tt, ground arith, ground arith, ground arith)
set_next-Linked st j head (k ∷ js) c d l =
    (Agree-set_next st j head (k ∷ js) d, ground arith, ground arith, ground arith)

pub Agree-trans : (a b c : Store) (js : List ℕ) → Agree a b js → Agree b c js → Agree a c js
Agree-trans a b c [] h k = tt
Agree-trans a b c (j ∷ js) (e, h) (e', k) = (e' ∙ e, Agree-trans a b c js h k)

link_journal-Linked :
    (more : List (Option ℕ)) (st : Store) (j : ℕ) (head : Option ℕ) (js : List ℕ)
    → Chain st (last_seen head more) js
    → All (λ k. j ≢ k) js
    → suc (length js) < 2 ^ 32
    → Linked j (last_seen head more) js st (link_journal j head more st)
unfolding link_journal
link_journal-Linked [] st j head js c d l = set_next-Linked st j head js c d l
link_journal-Linked (actual ∷ more) st j head js c d l =
    let st1 = (set_next j head st).0 in
    let agree = Agree-set_next st j head js d in
    let (a, n, i, r) =
      link_journal-Linked more st1 j actual js (Chain-frame st st1 js _ agree c) d l in
    (Agree-trans st st1 (link_journal j actual more st1).0 js agree a, n, i, r)

-- Submitting a journal puts it on top of the strand that the last compare-and-exchange finds,
-- whatever other journals were submitted before that, gives it the next instant of the
-- transaction, and marks it submitted. It wants a journal that is not in the strand, and fewer
-- than 2^32 - 1 journals there.
pub submit_journal-Chain :
    (j : ℕ) (has_log_buffer : Bool) (epoch : Option ℕ) (interference : List (Option ℕ))
    (t : Transaction) (st : Store) (js : List ℕ)
    → Chain st (last_seen t.journal_strand interference) js
    → All (λ k. j ≢ k) js
    → suc (length js) < 2 ^ 32
    → let r = submit_journal j has_log_buffer epoch interference t st in
      (r.2 ≡ suc (length js))
      × Chain r.1 r.0.journal_strand (j ∷ js)
      × ((r.1.journals j).submitted ≡ true)
unfolding submit_journal
submit_journal-Chain j has_log_buffer epoch interference t st js c d l =
    let linked = link_journal j t.journal_strand interference st in
    let st1 = linked.0 in
    let (a, n, i, r) = link_journal-Linked interference st j t.journal_strand js c d l in
    let own = submit_journals st1 j j in
    let rest =
      Chain-frame st1 (submit j st1) js _
        (Agree-update st1 (submit j st1) j _ js (submit_journals st1 j) d)
        (Chain-frame st st1 js _ a c) in
    (
      r,
      (
        refl,
        ground (arith, own, i),
        d,
        subst (λ h. Chain (submit j st1) h js) (ground (arith, own, n)) rest,
      ),
      ground (arith, own),
    )
