-- ===== src/AccessController/Settled.antt =====
-- src/access_controller.rs: a request that has its result keeps it, and a dropped queue fails every
-- other request.
use elektro_em_eukal.Base.{
  ℕ, ◌≡◌, refl, ◌∙◌, ◌⊎◌, inl, inr, Bool, true, false, Option, some, List, [], ◌∷◌, arith, All,
}
use elektro_em_eukal.Anchors.{Store, Error, Result, err, set_wake_up_others}
use elektro_em_eukal.AccessController.Object.{Request, placeholder_of, drop_request, drop_queue}
use elektro_em_eukal.AccessController.Requests.{is_settled, answer}

abbrev pub IsSettled : Store → ℕ → Type 0
IsSettled st p = is_settled (st.results p) ≡ true

abbrev pub Settles : Store → Request → Type 0
Settles st r = IsSettled st (placeholder_of r)

abbrev pub has_result : Store → ℕ → Option (Result Bool)
has_result st p = (st.results p).result

-- From the store `st` to `st'` every placeholder that is settled stays so, with the same result.
abbrev pub KeepsResults : Store → Store → Type 0
KeepsResults st st' =
    (p : ℕ) → IsSettled st p → IsSettled st' p × (has_result st' p ≡ has_result st p)

pub KeepsResults-trans : (a b c : Store) → KeepsResults a b → KeepsResults b c → KeepsResults a c
KeepsResults-trans a b c h k p s = let (s', e) = h p s in let (s'', e') = k p s' in (s'', e' ∙ e)

-- An answer to a request that has none yet.
pub answer-KeepsResults :
    (r : Result Bool) (st : Store) (a : ℕ)
    → is_settled (st.results a) ≡ false
    → KeepsResults st (answer a r st)
unfolding answer
answer-KeepsResults r st a u p h = ground arith

pub answer-Settles : (r : Result Bool) (st : Store) (a : ℕ) → IsSettled (answer a r st) a
unfolding answer
answer-Settles r st a = ground arith

pub set_wake_up_others_results :
    (st : Store) (o p : ℕ) → (set_wake_up_others o st).results p ≡ st.results p
unfolding set_wake_up_others
set_wake_up_others_results st o p = refl

abbrev dropped : Store → ℕ → Store
dropped st a = drop_request a (st.results a) st

dropped-KeepsResults : (st : Store) (a : ℕ) → KeepsResults st (dropped st a)
unfolding drop_request
dropped-KeepsResults st a p h = ground arith

dropped-Settles : (st : Store) (a : ℕ) → IsSettled (dropped st a) a
unfolding drop_request
dropped-Settles st a = ground arith

-- A request that has no result is failed, or another one is.
dropped_fails :
    (st : Store) (a p : ℕ)
    → is_settled (st.results p) ≡ false
    → (is_settled ((dropped st a).results p) ≡ false)
      ⊎ (has_result (dropped st a) p ≡ some (err Error.out_of_memory))
unfolding drop_request
dropped_fails st a p h = ground arith

dropped_fails_own :
    (st : Store) (a : ℕ)
    → is_settled (st.results a) ≡ false
    → has_result (dropped st a) a ≡ some (err Error.out_of_memory)
unfolding drop_request
dropped_fails_own st a h = ground arith

pub drop_queue-KeepsResults : (q : List Request) (st : Store) → KeepsResults st (drop_queue q st)
unfolding drop_queue
drop_queue-KeepsResults [] st = λ p h. (h, refl)
drop_queue-KeepsResults (r ∷ q) st =
    let st1 = dropped st (placeholder_of r) in
    KeepsResults-trans st st1 (drop_queue q st1) (dropped-KeepsResults st (placeholder_of r))
      (drop_queue-KeepsResults q st1)

pub drop_queue-Settles : (q : List Request) (st : Store) → All (Settles (drop_queue q st)) q
unfolding drop_queue
drop_queue-Settles [] st = tt
drop_queue-Settles (r ∷ q) st = (
  (drop_queue-KeepsResults q _ (placeholder_of r) (dropped-Settles st (placeholder_of r))).0,
  drop_queue-Settles q _,
)

-- The request fails for want of memory, if it has no result yet.
abbrev pub Fails : Store → Store → Request → Type 0
Fails st st' r =
    is_settled (st.results (placeholder_of r)) ≡ false
    → has_result st' (placeholder_of r) ≡ some (err Error.out_of_memory)

failed_of_dropped :
    (st : Store) (a : ℕ) (r : Request) (q : List Request)
    → Fails (dropped st a) (drop_queue q (dropped st a)) r
    → Fails st (drop_queue q (dropped st a)) r
failed_of_dropped st a r q f u = elim (dropped_fails st a (placeholder_of r) u) [
  | inl u' ↦ f u'
  | inr e ↦
      let settled : IsSettled (dropped st a) (placeholder_of r) = ground (arith, e) in
      (drop_queue-KeepsResults q (dropped st a) (placeholder_of r) settled).1 ∙ e
]

All-Fails :
    (st : Store) (a : ℕ) (q rs : List Request)
    → All (Fails (dropped st a) (drop_queue q (dropped st a))) rs
    → All (Fails st (drop_queue q (dropped st a))) rs
All-Fails st a q [] h = tt
All-Fails st a q (r ∷ rs) (f, h) = (failed_of_dropped st a r q f, All-Fails st a q rs h)

pub drop_queue-Fails : (q : List Request) (st : Store) → All (Fails st (drop_queue q st)) q
unfolding drop_queue
drop_queue-Fails [] st = tt
drop_queue-Fails (r ∷ q) st =
    let a = placeholder_of r in
    let st1 = dropped st a in
    (
      λ u. (drop_queue-KeepsResults q st1 a (dropped-Settles st a)).1 ∙ dropped_fails_own st a u,
      All-Fails st a q q (drop_queue-Fails q st1),
    )
