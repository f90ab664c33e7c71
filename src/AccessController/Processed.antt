-- ===== src/AccessController/Processed.antt =====
-- src/access_controller.rs: `process_wait_queue`, which serves a wait queue from its front.
use elektro_em_eukal.Base.{
  Outcome, done, out_of_rounds, panicked, ℕ, ◌≡◌, refl, sym, subst, ◌∙◌, Bool, false, none, some,
  List, [], ◌∷◌, ◌++◌, All, Bool-cases, inl, inr, ap,
}
use elektro_em_eukal.Anchors.{Store, AccessRequestResult, Result, ok, err, set_wake_up_others}
use elektro_em_eukal.AccessController.Object.{
  Request, ObjectState, queue_of, placeholder_of, owner_of,
}
use elektro_em_eukal.AccessController.Create.{Created}
use elektro_em_eukal.AccessController.Requests.{
  answer, process_wait_queue, Processing, conclude_request, remaining, is_settled,
}
use elektro_em_eukal.AccessController.Shape.{IsSound}
use elektro_em_eukal.AccessController.Waiters.{IsOwned}
use elektro_em_eukal.AccessController.Settled.{
  Settles, KeepsResults, KeepsResults-trans, answer-KeepsResults, answer-Settles,
  set_wake_up_others_results,
}
use elektro_em_eukal.AccessController.Attempts.{AttemptServes, attempt_request-Serves}

-- From the store `st` to `st'` the front of the queue `q` got its results, and `left` is the rest.
abbrev pub Answers : Store → List Request → Store → List Request → Type 0
Answers st q st' left =
    KeepsResults st st' × ((front : List Request) × (q ≡ front ++ left) × All (Settles st') front)

abbrev pub OwnedIfLeft : ObjectState → List Request → Type 0
OwnedIfLeft object [] = Unit {0}
OwnedIfLeft object (r ∷ rs) = IsOwned object

abbrev pub Processed : Store → List Request → Outcome Processing → Type 0
Processed st q (done (st', object, left)) =
    IsSound object
    × (queue_of object ≡ [])
    × OwnedIfLeft object (remaining left)
    × Answers st q st' (remaining left)
Processed st q panicked = Unit {0}
Processed st q out_of_rounds = Unit {0}

Answers-step :
    (st st1 st' : Store) (r : Request) (q left : List Request)
    → KeepsResults st st1
    → Settles st1 r
    → Answers st1 q st' left
    → Answers st (r ∷ q) st' left
Answers-step st st1 st' r q left m s (m', (front, e, a)) = (
  KeepsResults-trans st st1 st' m m',
  (r ∷ front, ap (λ x. r ∷ x) e, ((m' (placeholder_of r) s).0, a)),
)

Processed-step :
    (st st1 : Store) (r : Request) (q : List Request) (o : Outcome Processing)
    → KeepsResults st st1
    → Settles st1 r
    → Processed st1 q o
    → Processed st (r ∷ q) o
Processed-step st st1 r q (done (st', object, left)) m s (h, e, w, a) =
    (h, e, w, Answers-step st st1 st' r q (remaining left) m s a)
Processed-step st st1 r q panicked m s h = tt
Processed-step st st1 r q out_of_rounds m s h = tt

-- The request whose answer is given has none yet, and nothing but its owner was touched.
answered-KeepsResults :
    (st st' woken : Store) (r : Request) (answered : Result Bool)
    → is_settled (st.results (placeholder_of r)) ≡ false
    → st' ≡ st
    → ((p : ℕ) → woken.results p ≡ st'.results p)
    → KeepsResults st (answer (placeholder_of r) answered woken)
answered-KeepsResults st st' woken r answered u e w =
    let same : (p : ℕ) → woken.results p ≡ st.results p =
      λ p. w p ∙ ap (λ (x : Store). x.results p) e in
    KeepsResults-trans st woken (answer (placeholder_of r) answered woken)
      (λ p h. (ap is_settled (same p) ∙ h, ap (λ (x : AccessRequestResult). x.result) (same p)))
      (answer-KeepsResults answered woken (placeholder_of r)
        (ap is_settled (same (placeholder_of r)) ∙ u))

conclude_request-Processed :
    (next : Store → ObjectState → Outcome Processing) (st : Store) (r : Request)
    (rest : List Request) (o : Outcome Created)
    → ((st1 : Store) (object : ObjectState)
        → IsSound object
        → queue_of object ≡ []
        → Processed st1 rest (next st1 object))
    → is_settled (st.results (placeholder_of r)) ≡ false
    → AttemptServes st o
    → Processed st (r ∷ rest) (conclude_request next r rest o)
unfolding conclude_request
conclude_request-Processed next st r rest (done (st', object, ok (some b))) ih u (h, e, w, m) =
    let woken = set_wake_up_others (owner_of r) st' in
    let st1 = answer (placeholder_of r) (ok b) woken in
    Processed-step st st1 r rest (next st1 object)
      (answered-KeepsResults st st' woken r (ok b) u m
        (set_wake_up_others_results st' (owner_of r)))
      (answer-Settles (ok b) woken (placeholder_of r)) (ih st1 object h e)
conclude_request-Processed next st r rest (done (st', object, ok none)) ih u (h, e, w, m) =
    let kept : KeepsResults st st' = subst (KeepsResults st) (sym m) (λ p x. (x, refl)) in
    (h, e, w, (kept, ([], refl, tt)))
conclude_request-Processed next st r rest (done (st', object, err x)) ih u (h, e, w, m) =
    let st1 = answer (placeholder_of r) (err x) st' in
    Processed-step st st1 r rest (next st1 object)
      (answered-KeepsResults st st' st' r (err x) u m (λ p. refl))
      (answer-Settles (err x) st' (placeholder_of r)) (ih st1 object h e)
conclude_request-Processed next st r rest panicked ih u h = tt
conclude_request-Processed next st r rest out_of_rounds ih u h = tt

pub process_wait_queue-Processed :
    (now : ℕ) (q : List Request) (st : Store) (object : ObjectState)
    → IsSound object
    → queue_of object ≡ []
    → Processed st q (process_wait_queue now st object q)
unfolding process_wait_queue
process_wait_queue-Processed now [] st object h e = (h, e, tt, ((λ p x. (x, refl)), ([], refl, tt)))
process_wait_queue-Processed now (r ∷ q) st object h e =
    let ih = process_wait_queue-Processed now q in
    elim (Bool-cases (is_settled (st.results (placeholder_of r)))) [
      | inl s ↦
          rw (s, process_wait_queue)
            (Processed-step st st r q (process_wait_queue now st object q) (λ p x. (x, refl)) s
              (ih st object h e))
      | inr s ↦
          rw (s, process_wait_queue)
            (conclude_request-Processed _ st r q _ ih s
              (attempt_request-Serves r now st object h e))
    ]
