-- ===== src/Pid/Tests.antt =====
-- Runs and witnesses for PIDs.
use alto.Prelude.{◌≡◌, refl, true, false, [], ◌∷◌}
use alto.Pid.{Pid, less, invalid}

abbrev inner : Pid
inner = record { isp = b'a' ∷ []; num = 3; external = false }

inner_first : less inner invalid ≡ true
unfolding less
inner_first = refl
