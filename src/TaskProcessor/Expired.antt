-- ===== src/TaskProcessor/Expired.antt =====
-- src/task_processor.rs: the time critical tasks, against the wakers whose deadlines have passed.
use elektro_em_eukal.Base.{
  ℕ, ◌-◌, ◌≤◌, ◌<◌, ◌≡◌, refl, ap, true, false, List, [], ◌∷◌, ◌++◌, if◌then◌else◌, ltb, leb, All,
  arith, Bool-cases, inl, inr, Outcome, done, panicked, out_of_rounds,
}
use elektro_em_eukal.Anchors.{Store}
use elektro_em_eukal.AccessController.Table.{Table}
use elektro_em_eukal.TaskProcessor.{
  ThreadLocalData, wake_expired, wake_all, retain_monitored, process_time_critical_tasks,
  default_check_interval,
}
use elektro_em_eukal.TaskProcessor.Wakes.{Ascending}

-- The wakers with a deadline before `now`, and the other entries.
unfoldable pub due : ℕ → List (ℕ × ℕ) → List ℕ
due now [] = []
due now ((deadline, waker) ∷ rest) =
    let others = due now rest in if ltb deadline now then waker ∷ others else others

unfoldable pub pending : ℕ → List (ℕ × ℕ) → List (ℕ × ℕ)
pending now [] = []
pending now ((deadline, waker) ∷ rest) =
    let others = pending now rest in if ltb deadline now then others else (deadline, waker) ∷ others

-- Until the first deadline, or the default.
abbrev pub next_wait : ℕ → List (ℕ × ℕ) → ℕ
next_wait now [] = default_check_interval
next_wait now ((deadline, waker) ∷ rest) = deadline - now

none_due :
    (now i : ℕ) (q : List (ℕ × ℕ))
    → now ≤ i
    → All (λ e. i < e.0) q
    → (due now q ≡ []) × (pending now q ≡ q)
unfolding due pending
none_due now i [] h a = (refl, refl)
none_due now i ((j, w) ∷ rest) h (b, a) =
    let (e, e') = none_due now i rest h a in
    let later : ltb j now ≡ false = ground (arith, h, b) in
    (rw later e, rw later (ap (λ l. (j, w) ∷ l) e'))

wake_expired-due :
    (now : ℕ) (q : List (ℕ × ℕ))
    → Ascending q
    → wake_expired now q ≡ (due now q, pending now q, next_wait now (pending now q))
unfolding wake_expired due pending
wake_expired-due now [] a = refl
wake_expired-due now ((i, w) ∷ rest) (b, a) = elim (Bool-cases (leb now i)) [
  | inl t ↦
      let later : now ≤ i = ground arith in
      let not_yet : ltb i now ≡ false = ground (arith, later) in
      let (e, e') = none_due now i rest later b in rw (t, not_yet, e, e') refl
  | inr f ↦
      let earlier : i < now = ground arith in
      let expired : ltb i now ≡ true = ground (arith, earlier) in
      rw (f, expired, wake_expired-due now rest a) refl
]

-- The data behind the transfers, with the due wakers woken.
abbrev pub wakes_due :
    ℕ
    → ThreadLocalData
    → Outcome (List ℕ × Table × Store)
    → Outcome (ThreadLocalData × Table × Store)
wakes_due now d (done (retained, table, st)) = done (
  record d {
    waker_queue = pending now d.waker_queue;
    monitored_object_ids = retained;
    wait_duration = next_wait now (pending now d.waker_queue);
  },
  table,
  record st { woken = st.woken ++ due now d.waker_queue },
)
wakes_due now d panicked = panicked
wakes_due now d out_of_rounds = out_of_rounds

-- On a queue in order, the time critical tasks are the transfers followed by `wakes_due`.
pub process_time_critical_tasks-due :
    (transferred now : ℕ) (d : ThreadLocalData) (table : Table) (st : Store)
    → Ascending d.waker_queue
    → process_time_critical_tasks transferred now d table st
      ≡ wakes_due now d (retain_monitored transferred d.monitored_object_ids table st)
unfolding process_time_critical_tasks wake_all
process_time_critical_tasks-due transferred now d table st a =
    expired (retain_monitored transferred d.monitored_object_ids table st)
  where
    expired :
        (o : Outcome (List ℕ × Table × Store))
        → elim o as (λ x. Outcome (ThreadLocalData × Table × Store)) [
          | done retained ↦ done (wake_all now d retained)
          | panicked ↦ panicked
          | out_of_rounds ↦ out_of_rounds
        ]
          ≡ wakes_due now d o
    expired (done (retained, table', st')) =
        rw (wake_all, wake_expired-due now d.waker_queue a) refl
    expired panicked = refl
    expired out_of_rounds = refl
