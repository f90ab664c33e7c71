-- ===== src/FileIo/Linked.antt =====
-- src/persistence_layer/file_io/mod.rs: the linked log buffers as a list of addresses, and the bytes
-- that they stand for.
use elektro_em_eukal.Base.{
  ℕ, ◌<◌, ◌≡◌, ◌≢◌, refl, sym, ap, subst, ◌∙◌, false, List, [], ◌∷◌, ◌++◌, arith, All, update,
}
use elektro_em_eukal.FileIo.{FileLogBuffer, FileIo, flush_buffer}
use elektro_em_eukal.FileIo.Processor.{payload, end_of_journal}
use elektro_em_eukal.FileIo.Written.{IsBuffer}

module _ {ℓ} {A : Type ℓ} (f : ℕ → A) (p : ℕ) (v : A) where
  pub update_self : update f p v p ≡ v
  update_self = ground arith

  pub update_other : (q : ℕ) → q ≢ p → update f p v q ≡ f q
  update_other q h = ground arith

abbrev pub Memory : Type 0
Memory = ℕ → FileLogBuffer

-- From the address `head` the links lead through the addresses of the list to 0.
abbrev pub Linked : Memory → ℕ → List ℕ → Type 0
Linked m head [] = head ≡ 0
Linked m head (p ∷ ps) = (head ≡ p) × (0 < p) × Linked m (m p).next ps

abbrev pub Distinct : List ℕ → Type 0
Distinct [] = Unit {0}
Distinct (p ∷ ps) = All (λ q. q ≢ p) ps × Distinct ps

-- What is written to the log for a buffer.
abbrev pub log_bytes : FileLogBuffer → List ℕ
log_bytes l = payload l ++ end_of_journal l

-- The buffers that were pushed first are written first.
abbrev pub log_of : Memory → List ℕ → List ℕ
log_of m [] = []
log_of m (p ∷ ps) = log_of m ps ++ log_bytes (m p)

abbrev pub Agree : Memory → Memory → List ℕ → Type 0
Agree m m' ps = All (λ p. m' p ≡ m p) ps

module _ (m m' : Memory) where
  pub Linked-frame : (head : ℕ) (ps : List ℕ) → Agree m m' ps → Linked m head ps → Linked m' head ps
  Linked-frame head [] a l = l
  Linked-frame head (p ∷ ps) (e, a) (h, z, l) = (
    h,
    z,
    subst (λ (x : FileLogBuffer). Linked m' x.next ps) (sym e) (Linked-frame (m p).next ps a l),
  )

  pub log_of-frame : (ps : List ℕ) → Agree m m' ps → log_of m' ps ≡ log_of m ps
  log_of-frame [] a = refl
  log_of-frame (p ∷ ps) (e, a) =
      ap (λ x. log_of m' ps ++ log_bytes x) e ∙ ap (λ l. l ++ log_bytes (m p)) (log_of-frame ps a)

pub Agree-update :
    (m : Memory) (b : ℕ) (l : FileLogBuffer) (ps : List ℕ)
    → All (λ p. p ≢ b) ps
    → Agree m (update m b l) ps
Agree-update m b l [] a = tt
Agree-update m b l (p ∷ ps) (h, a) = (update_other m b l p h, Agree-update m b l ps a)

pub Agree-trans :
    (m m' m'' : Memory) (ps : List ℕ) → Agree m m' ps → Agree m' m'' ps → Agree m m'' ps
Agree-trans m m' m'' [] a a' = tt
Agree-trans m m' m'' (p ∷ ps) (e, a) (e', a') = (e' ∙ e, Agree-trans m m' m'' ps a a')

-- The buffers `ps` wait to be written, the last one pushed first, and `b` is a buffer in use.
pub record IsLogging (io : FileIo) (ps : List ℕ) (b : ℕ) : Type 0 where
  pub linked : Linked io.buffers io.log_buffer_link ps
  pub distinct : Distinct ps
  pub apart : All (λ p. p ≢ b) ps
  pub used : All (λ p. p < io.next_address) ps
  pub in_use : (0 < b) × (b < io.next_address)
  pub valid : IsBuffer (io.buffers b)
  pub unended : (io.buffers b).eoj_logging ≡ false

-- After a flush the buffer is the first of the linked ones.
pub flush_buffer-Linked :
    (io : FileIo) (ps : List ℕ) (b : ℕ)
    → 0 < b
    → All (λ p. p ≢ b) ps
    → Linked io.buffers io.log_buffer_link ps
    → let io' = flush_buffer b io in
      Linked io'.buffers io'.log_buffer_link (b ∷ ps)
      × (log_of io'.buffers (b ∷ ps) ≡ log_of io.buffers ps ++ log_bytes (io.buffers b))
      × (io'.next_address ≡ io.next_address)
      × (io'.log ≡ io.log)
      × (io'.flush_epoch ≡ io.flush_epoch)
unfolding flush_buffer end_of_journal
flush_buffer-Linked io ps b z a l =
    let l' : FileLogBuffer = record (io.buffers b) { next = io.log_buffer_link } in
    let here : update io.buffers b l' b ≡ l' = update_self io.buffers b l' in
    let same = Agree-update io.buffers b l' ps a in
    (
      (
        refl,
        z,
        subst (λ (x : FileLogBuffer). Linked (update io.buffers b l') x.next ps) (sym here)
            (Linked-frame io.buffers (update io.buffers b l') io.log_buffer_link ps same l),
      ),
      ap (λ x. log_of (update io.buffers b l') ps ++ log_bytes x) here
          ∙ ap (λ x. x ++ log_bytes (io.buffers b)) (log_of-frame io.buffers _ ps same),
      refl,
      refl,
      refl,
    )
