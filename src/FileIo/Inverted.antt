-- ===== src/FileIo/Inverted.antt =====
-- src/persistence_layer/file_io/io_task_processor.rs: the links of the log buffers turned round.
use mathlib.Core.List.{reverse_aux}
use elektro_em_eukal.Base.{
  ℕ, zero, suc, ◌≤◌, ◌≡◌, ◌≢◌, refl, sym, ap, subst, ◌∙◌, false, List, [], ◌∷◌, arith, All, length,
  if◌then◌else◌, ◌==◌, update, Outcome, done,
}
use elektro_em_eukal.FileIo.{FileLogBuffer, FileIo}
use elektro_em_eukal.FileIo.Processor.{
  end_of_journal, take_next, set_durable_flush_epoch, invert, take_log_buffer_link,
}
use elektro_em_eukal.FileIo.Linked.{
  Memory, Linked, Linked-frame, Distinct, log_bytes, Agree, update_self, update_other,
}

-- The buffer behind `current` in the turned list.
abbrev turned : ℕ → ℕ → FileLogBuffer → FileLogBuffer
turned epoch current l = record l { durable_flush_epoch = epoch; next = current }

-- What one round of the loop does to the memory.
step-turned :
    (epoch current next : ℕ) (io : FileIo) (q : ℕ)
    → let io' = (take_next next (set_durable_flush_epoch epoch next io)).1 in
      update io'.buffers next (record (io'.buffers next) { next = current }) q
      ≡ update io.buffers next (turned epoch current (io.buffers next)) q
unfolding take_next set_durable_flush_epoch
step-turned epoch current next io q = ground arith

turned_bytes :
    (epoch current : ℕ) (l : FileLogBuffer) → log_bytes (turned epoch current l) ≡ log_bytes l
unfolding end_of_journal
turned_bytes epoch current l = refl

after_next :
    (epoch next : ℕ) (io : FileIo)
    → (take_next next (set_durable_flush_epoch epoch next io)).0 ≡ (io.buffers next).next
unfolding take_next set_durable_flush_epoch
after_next epoch next io = ground arith

-- Only the links and the flush epochs of the buffers `ps` change.
abbrev pub Epochs : ℕ → List ℕ → Memory → Memory → Type 0
Epochs epoch ps m m' =
    ((p : ℕ) → log_bytes (m' p) ≡ log_bytes (m p))
    × All (λ p. (m' p).durable_flush_epoch ≡ epoch) ps
    × ((p : ℕ) → All (λ q. p ≢ q) ps → m' p ≡ m p)

-- The buffers `cs` are turned already, and `rest` are to come.
abbrev pub Inverts : ℕ → FileIo → List ℕ → List ℕ → Outcome (ℕ × FileIo) → Type 0
Inverts epoch io cs rest o =
    (m' : Memory) × (head : ℕ) × (o ≡ done (head, record io { buffers = m' }))
    × Linked m' head (reverse_aux rest cs)
    × Epochs epoch rest io.buffers m'

abbrev pub Disjoint : List ℕ → List ℕ → Type 0
Disjoint cs rest = All (λ p. All (λ q. q ≢ p) cs) rest

Disjoint-step :
    (p : ℕ) (cs ps : List ℕ) → All (λ q. q ≢ p) ps → Disjoint cs ps → Disjoint (p ∷ cs) ps
Disjoint-step p cs [] d a = tt
Disjoint-step p cs (q ∷ ps) (h, d) (a, more) = (((λ e. h (sym e)), a), Disjoint-step p cs ps d more)

-- The round for the buffer `p`, and the others after it.
invert_step :
    (epoch current p : ℕ) (cs ps : List ℕ) (io : FileIo) (m : Memory) (o : Outcome (ℕ × FileIo))
    → ((q : ℕ) → m q ≡ update io.buffers p (turned epoch current (io.buffers p)) q)
    → All (λ q. q ≢ p) ps
    → Inverts epoch (record io { buffers = m }) (p ∷ cs) ps o
    → Inverts epoch io cs (p ∷ ps) o
invert_step epoch current p cs ps io m o same apart (m', head, e, l, (bytes, epochs, others)) =
    let here = same p ∙ update_self io.buffers p (turned epoch current (io.buffers p)) in
    (
      m',
      head,
      e,
      l,
      (
        (λ q. bytes q ∙ ap (λ (x : FileLogBuffer). log_bytes x) (same q) ∙ updated_bytes q),
        (
          ap (λ (x : FileLogBuffer). x.durable_flush_epoch) (others p (flip ps apart) ∙ here),
          epochs,
        ),
        (λ q (n, a). others q a ∙ same q ∙ update_other io.buffers p _ q n),
      ),
    )
  where
    flip : (qs : List ℕ) → All (λ q. q ≢ p) qs → All (λ q. p ≢ q) qs
    flip [] a = tt
    flip (q ∷ qs) (h, a) = ((λ e. h (sym e)), flip qs a)

    updated_bytes :
        (q : ℕ)
        → log_bytes (update io.buffers p (turned epoch current (io.buffers p)) q)
          ≡ log_bytes (io.buffers q)
    updated_bytes q = ground (arith, turned_bytes epoch current (io.buffers p))

Agree-turned :
    (m m' : Memory) (p : ℕ) (l : FileLogBuffer)
    → ((q : ℕ) → m' q ≡ update m p l q)
    → (qs : List ℕ) → All (λ q. q ≢ p) qs
    → Agree m m' qs
Agree-turned m m' p l same [] a = tt
Agree-turned m m' p l same (q ∷ qs) (n, a) =
    (same q ∙ update_other m p l q n, Agree-turned m m' p l same qs a)

invert-Inverts :
    (rounds epoch current next : ℕ) (cs rest : List ℕ) (io : FileIo)
    → Linked io.buffers current cs
    → Linked io.buffers next rest
    → Distinct rest
    → Disjoint cs rest
    → length rest ≤ rounds
    → Inverts epoch io cs rest (invert rounds epoch current next io)
unfolding invert take_next set_durable_flush_epoch
invert-Inverts zero epoch current next cs [] io lc e d a h =
    (io.buffers, current, rw e refl, lc, ((λ p. refl), tt, (λ p n. refl)))
invert-Inverts (suc rounds) epoch current next cs [] io lc e d a h =
    (io.buffers, current, rw e refl, lc, ((λ p. refl), tt, (λ p n. refl)))
invert-Inverts zero epoch current next cs (p ∷ ps) io lc l d a h = absurd (omega (arith, h))
invert-Inverts (suc rounds) epoch current next cs (p ∷ ps) io lc (e, z, l) (n, d) (a, more) h =
    let nonzero_head : (p == 0) ≡ false = ground arith in
    let io' = (take_next p (set_durable_flush_epoch epoch p io)).1 in
    let after = (take_next p (set_durable_flush_epoch epoch p io)).0 in
    let m = update io'.buffers p (record (io'.buffers p) { next = current }) in
    let same = step-turned epoch current p io in
    let rest = invert rounds epoch p after (record io { buffers = m }) in
    let here = same p ∙ update_self io.buffers p (turned epoch current (io.buffers p)) in
    let frame : (qs : List ℕ) → All (λ q. q ≢ p) qs → Agree io.buffers m qs =
      Agree-turned io.buffers m p (turned epoch current (io.buffers p)) same in
    let ih : Inverts epoch (record io { buffers = m }) (p ∷ cs) ps rest =
      invert-Inverts rounds epoch p after (p ∷ cs) ps (record io { buffers = m })
        (
          refl,
          z,
          subst (λ (x : FileLogBuffer). Linked m x.next cs) (sym here)
              (Linked-frame io.buffers m current cs (frame cs a) lc),
        )
        (subst (λ x. Linked m x ps) (sym (after_next epoch p io))
          (Linked-frame io.buffers m (io.buffers p).next ps (frame ps n) l))
        d (Disjoint-step p cs ps n more) (omega (arith, h)) in
    subst (λ x. Inverts epoch io cs (p ∷ ps) (invert (suc rounds) epoch current x io)) (sym e)
      (subst (λ b. Inverts epoch io cs (p ∷ ps) (if b then done (current, io) else rest))
        (sym nonzero_head) (invert_step epoch current p cs ps io m rest same n ih))

first-turned :
    (epoch c : ℕ) (io : FileIo) (q : ℕ)
    → (take_next c (set_durable_flush_epoch epoch c (record io { log_buffer_link = 0 }))).1.buffers
        q
      ≡ update io.buffers c (turned epoch 0 (io.buffers c)) q
unfolding take_next set_durable_flush_epoch
first-turned epoch c io q = ground arith

Disjoint-one : (c : ℕ) (ps : List ℕ) → All (λ q. q ≢ c) ps → Disjoint (c ∷ []) ps
Disjoint-one c [] a = tt
Disjoint-one c (p ∷ ps) (n, a) = (((λ e. n (sym e)), tt), Disjoint-one c ps a)

-- The list is taken as a whole, and handed over with the buffer that was pushed first at its front.
pub take_log_buffer_link-Inverts :
    (rounds epoch c : ℕ) (ps : List ℕ) (io : FileIo)
    → Linked io.buffers io.log_buffer_link (c ∷ ps)
    → Distinct (c ∷ ps)
    → length ps ≤ rounds
    → Inverts epoch
        (record io { log_buffer_link = 0 })
        []
        (c ∷ ps)
        (take_log_buffer_link rounds epoch io)
unfolding take_log_buffer_link take_next set_durable_flush_epoch
take_log_buffer_link-Inverts rounds epoch c ps io (e, z, l) (n, d) h =
    let nonzero_head : (c == 0) ≡ false = ground arith in
    let io₁ = record io { log_buffer_link = 0 } in
    let io' = (take_next c (set_durable_flush_epoch epoch c io₁)).1 in
    let next = (take_next c (set_durable_flush_epoch epoch c io₁)).0 in
    let m = io'.buffers in
    let same : (q : ℕ) → m q ≡ update io.buffers c (turned epoch 0 (io.buffers c)) q =
      first-turned epoch c io in
    let here = same c ∙ update_self io.buffers c (turned epoch 0 (io.buffers c)) in
    let rest = invert rounds epoch c next io' in
    let ih : Inverts epoch io' (c ∷ []) ps rest =
      invert-Inverts rounds epoch c next (c ∷ []) ps io'
        (refl, z, ap (λ (x : FileLogBuffer). x.next) here)
        (subst (λ x. Linked m x ps) (sym (after_next epoch c io₁))
          (Linked-frame io.buffers m (io.buffers c).next ps
            (Agree-turned io.buffers m c (turned epoch 0 (io.buffers c)) same ps n) l))
        d (Disjoint-one c ps n) h in
    subst
      (λ x. Inverts epoch io₁ [] (c ∷ ps) (
        let (next, io'') = take_next x (set_durable_flush_epoch epoch x io₁) in
        if x == 0 then done (0, io₁) else invert rounds epoch x next io''))
      (sym e)
      (subst (λ b. Inverts epoch io₁ [] (c ∷ ps) (if b then done (0, io₁) else rest))
        (sym nonzero_head) (invert_step epoch 0 c [] ps io₁ m rest same n ih))
