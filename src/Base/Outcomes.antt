-- ===== src/Base/Outcomes.antt =====
-- What the code ends in.

-- What a run of the code ends in: a value, a panic, or no end within the rounds given to a loop.
pub data Outcome {ℓ} (A : Type ℓ) : Type ℓ where
  done : A → Outcome A
  panicked : Outcome A
  out_of_rounds : Outcome A
