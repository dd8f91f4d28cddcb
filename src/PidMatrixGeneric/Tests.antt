-- ===== src/PidMatrixGeneric/Tests.antt =====
-- Runs and witnesses for the matrix, with numbers as its values.
use alto.Prelude.{ℕ, false, [], ◌∷◌}
use alto.Pid.{Pid}
use alto.PidMatrixGeneric.{Matrix}

abbrev pid : ℕ → Pid
pid n = record { isp = []; num = n; external = false }

abbrev one : Matrix ℕ
one = (pid 1, (pid 2, 12) ∷ []) ∷ []
