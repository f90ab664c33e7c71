-- ===== src/TaskProcessor/Wakes.antt =====
-- src/task_processor.rs: which wakers the thread keeps, and which it wakes.
use elektro_em_eukal.Base.{
  ℕ, zero, suc, ◌+◌, ◌≤◌, ◌<◌, ◌≡◌, ◌≢◌, refl, sym, subst, Bool, true, false, ◌||◌, Option, none,
  some, List, [], ◌∷◌, ◌++◌, ◌==◌, ltb, All, arith, Bool-cases, ◌⊎◌, inl, inr,
}
use elektro_em_eukal.Anchors.{Store, Task}
use elektro_em_eukal.TaskProcessor.{ThreadLocalData, insert_waker, insert_waker_near, perform_task}

-- The deadlines rise.
abbrev pub Ascending : List (ℕ × ℕ) → Type 0
Ascending [] = Unit {0}
Ascending ((instant, waker) ∷ rest) = All (λ e. instant < e.0) rest × Ascending rest

abbrev pub holds : ℕ → List (ℕ × ℕ) → Bool
holds waker [] = false
holds waker ((instant, waker') ∷ rest) = (waker == waker') || holds waker rest

abbrev pub has_key : ℕ → List (ℕ × ℕ) → Bool
has_key k [] = false
has_key k ((instant, waker) ∷ rest) = (k == instant) || has_key k rest

insert_waker-All :
    (k instant waker : ℕ) (q : List (ℕ × ℕ))
    → k < instant
    → All (λ e. k < e.0) q
    → All (λ e. k < e.0) (insert_waker instant waker q).0
unfolding insert_waker
insert_waker-All k instant waker [] h a = (h, tt)
insert_waker-All k instant waker ((i, w) ∷ rest) h (b, a) =
    let further = insert_waker-All k instant waker rest h a in ground (arith, further)

All-above : (k k' : ℕ) (q : List (ℕ × ℕ)) → k < k' → All (λ e. k' < e.0) q → All (λ e. k < e.0) q
All-above k k' [] h a = tt
All-above k k' (e ∷ rest) h (b, a) = (omega (arith, b, h), All-above k k' rest h a)

insert_waker-Ascending :
    (instant waker : ℕ) (q : List (ℕ × ℕ))
    → Ascending q
    → Ascending (insert_waker instant waker q).0
unfolding insert_waker
insert_waker-Ascending instant waker [] a = (tt, tt)
insert_waker-Ascending instant waker ((i, w) ∷ rest) (b, a) =
    let further = insert_waker-Ascending instant waker rest a in
    let inserted : i < instant → All (λ e. i < e.0) (insert_waker instant waker rest).0 =
      λ h. insert_waker-All i instant waker rest h b in
    let above : instant < i → All (λ e. instant < e.0) rest = λ h. All-above instant i rest h b in
    let same : instant ≡ i → All (λ e. instant < e.0) rest =
      λ h. subst (λ x. All (λ e. x < e.0) rest) (sym h) b in
    ground (arith, further, inserted, above, same)

insert_waker_near-Ascending :
    (attempts instant waker : ℕ) (q : List (ℕ × ℕ))
    → Ascending q
    → Ascending (insert_waker_near attempts instant waker q)
unfolding insert_waker_near
insert_waker_near-Ascending zero instant waker q a = a
insert_waker_near-Ascending (suc k) instant waker q a =
    tried (insert_waker instant waker q) (insert_waker-Ascending instant waker q a)
      (λ w q' a'. insert_waker_near-Ascending k (instant + 1) w q' a')
  where
    tried :
        (r : List (ℕ × ℕ) × Option ℕ)
        → Ascending r.0
        → ((w : ℕ) (q' : List (ℕ × ℕ))
            → Ascending q'
            → Ascending (insert_waker_near k (instant + 1) w q'))
        → Ascending (elim r.1 [ none ↦ r.0 | some w ↦ insert_waker_near k (instant + 1) w r.0 ])
    tried (q', none) a' f = a'
    tried (q', some w) a' f = f w q' a'

-- The waker that is inserted, or one that is there.
abbrev Held : ℕ → ℕ → List (ℕ × ℕ) → Type 0
Held x waker q = (x ≡ waker) ⊎ (holds x q ≡ true)

-- The instants from `instant` on are taken.
abbrev pub AllTaken : ℕ → ℕ → List (ℕ × ℕ) → Type 0
AllTaken zero instant q = Unit {0}
AllTaken (suc n) instant q = (has_key instant q ≡ true) × AllTaken n (instant + 1) q

insert_waker-holds :
    (x instant waker : ℕ) (q : List (ℕ × ℕ))
    → Held x waker q
    → (holds x (insert_waker instant waker q).0 ≡ true)
      ⊎ ((insert_waker instant waker q).1 ≡ some x)
unfolding insert_waker
insert_waker-holds x instant waker [] h = ground arith
insert_waker-holds x instant waker ((i, w) ∷ rest) h =
    let further = insert_waker-holds x instant waker rest in ground (arith, further)

insert_waker-none :
    (instant waker : ℕ) (q : List (ℕ × ℕ))
    → has_key instant q ≡ false
    → (insert_waker instant waker q).1 ≡ none
unfolding insert_waker
insert_waker-none instant waker [] h = refl
insert_waker-none instant waker ((i, w) ∷ rest) h =
    let further = insert_waker-none instant waker rest in ground (arith, further)

insert_waker-has_key :
    (k instant waker : ℕ) (q : List (ℕ × ℕ))
    → k ≢ instant
    → has_key k (insert_waker instant waker q).0 ≡ true
    → has_key k q ≡ true
unfolding insert_waker
insert_waker-has_key k instant waker [] n h = ground arith
insert_waker-has_key k instant waker ((i, w) ∷ rest) n h =
    let further = insert_waker-has_key k instant waker rest n in ground (arith, further)

AllTaken-before :
    (n instant instant' waker : ℕ) (q : List (ℕ × ℕ))
    → instant < instant'
    → AllTaken n instant' (insert_waker instant waker q).0
    → AllTaken n instant' q
AllTaken-before zero instant instant' waker q h a = tt
AllTaken-before (suc n) instant instant' waker q h (k, a) = (
  insert_waker-has_key instant' instant waker q (λ e. omega (arith, e, h)) k,
  AllTaken-before n instant (instant' + 1) waker q (omega (arith, h)) a,
)

displaced_holds :
    (n instant x : ℕ) (q q' : List (ℕ × ℕ)) (o : Option ℕ)
    → (holds x q' ≡ true) ⊎ (o ≡ some x)
    → (o ≡ none) ⊎ (has_key instant q ≡ true)
    → (AllTaken n (instant + 1) q' → AllTaken n (instant + 1) q)
    → ((w : ℕ)
        → Held x w q'
        → (holds x (insert_waker_near n (instant + 1) w q') ≡ true) ⊎ AllTaken n (instant + 1) q')
    → (holds x (elim o [ none ↦ q' | some w ↦ insert_waker_near n (instant + 1) w q' ]) ≡ true)
      ⊎ AllTaken (suc n) instant q
displaced_holds n instant x q q' none (inl h) e back ih = inl h
displaced_holds n instant x q q' none (inr h) e back ih = cc
displaced_holds n instant x q q' (some w) h (inl e) back ih = cc
displaced_holds n instant x q q' (some w) h (inr k) back ih =
    let there : Held x w q' = elim h [ inl a ↦ inr a | inr a ↦ inl (cc) ] in
    elim (ih w there) [ inl a ↦ inl a | inr a ↦ inr (k, back a) ]

none_or_taken :
    (instant waker : ℕ) (q : List (ℕ × ℕ))
    → ((insert_waker instant waker q).1 ≡ none) ⊎ (has_key instant q ≡ true)
none_or_taken instant waker q = elim (Bool-cases (has_key instant q)) [
  | inl t ↦ inr t
  | inr f ↦ inl (insert_waker-none instant waker q f)
]

insert_waker_near-holds :
    (n instant waker x : ℕ) (q : List (ℕ × ℕ))
    → Held x waker q
    → (holds x (insert_waker_near n instant waker q) ≡ true) ⊎ AllTaken n instant q
unfolding insert_waker_near
insert_waker_near-holds zero instant waker x q h = inr tt
insert_waker_near-holds (suc n) instant waker x q h =
    displaced_holds n instant x q (insert_waker instant waker q).0 (insert_waker instant waker q).1
      (insert_waker-holds x instant waker q h) (none_or_taken instant waker q)
      (AllTaken-before n instant (instant + 1) waker q (omega arith))
      (λ w h'. insert_waker_near-holds n (instant + 1) w x (insert_waker instant waker q).0 h')

-- What becomes of a request, at the time `now`, for a call of `waker` at `deadline`.
abbrev pub Keeps : ℕ → ℕ → ℕ → ThreadLocalData → Store → ThreadLocalData × Store × Bool → Type 0
Keeps now deadline waker d st (d', st', going) =
    Ascending d'.waker_queue
    × (going ≡ true)
    × (((deadline < now)
          × (st'.woken ≡ st.woken ++ (waker ∷ []))
          × (d'.waker_queue ≡ d.waker_queue))
        ⊎ ((now ≤ deadline)
            × (st'.woken ≡ st.woken)
            × ((x : ℕ)
                → (x ≡ waker) ⊎ (holds x d.waker_queue ≡ true)
                → (holds x d'.waker_queue ≡ true) ⊎ AllTaken 4 deadline d.waker_queue)))

-- On a queue in order, a request for a call at a deadline that has passed is served at once, and
-- the queue stays as it is. Otherwise nobody is woken, and the waker is put in the queue, which
-- stays in order and loses no waker, unless the deadline and the three nanoseconds behind it are
-- all taken.
pub perform_task-Keeps :
    (now deadline waker : ℕ) (d : ThreadLocalData) (st : Store)
    → Ascending d.waker_queue
    → Keeps now deadline waker d st (perform_task now (Task.wake_up deadline waker) d st)
unfolding perform_task
perform_task-Keeps now deadline waker d st a = elim (Bool-cases (ltb deadline now)) [
  | inl t ↦ rw t (a, refl, inl (ground arith, refl, refl))
  | inr f ↦ rw f (
    insert_waker_near-Ascending 4 deadline waker d.waker_queue a,
    refl,
    inr (ground arith, refl, λ x h. insert_waker_near-holds 4 deadline waker x d.waker_queue h),
  )
]

-- Five requests for one deadline: the waker at the last of the four instants is dropped.
insert_waker_near-taken :
    (t w a b c e : ℕ) (rest : List (ℕ × ℕ))
    → insert_waker_near 4 t w
        ((t, a) ∷ ((t + 1, b) ∷ ((t + 1 + 1, c) ∷ ((t + 1 + 1 + 1, e) ∷ rest))))
      ≡ (t, w) ∷ ((t + 1, a) ∷ ((t + 1 + 1, b) ∷ ((t + 1 + 1 + 1, c) ∷ rest)))
unfolding insert_waker_near insert_waker
insert_waker_near-taken t w a b c e rest = ground arith
