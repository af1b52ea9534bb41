-- ===== src/Base/Run.antt =====
-- How fallible code ends.

-- A Go function that returns an error: the value, or the error.
pub data Result {ℓ} (E : Type 0) (A : Type ℓ) : Type ℓ where
  ok : A → Result E A
  err : E → Result E A

-- A call that can panic: a returned value, a run-time panic, or the model's fuel running out.
pub data Run {ℓ} (A : Type ℓ) : Type ℓ where
  done : A → Run A
  panic out_of_fuel : Run A
