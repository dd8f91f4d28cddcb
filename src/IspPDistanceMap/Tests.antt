-- ===== src/IspPDistanceMap/Tests.antt =====
-- A run and a witness for the distance map.
use alto.Prelude.{ℕ, ◌≡◌, refl, false, List, [], ◌∷◌, inr}
use alto.Prelude.Int.{pos}
use alto.Pid.{Pid}
use alto.DataSource.{World, PortalReply, FileReply, retrieve}
use alto.PidMatrixGeneric.{Matrix}
use alto.IspPDistanceMap.{
  IspPDistanceMap, new, set_data_source_file, get_pdistance, get_pdistances, load_p4p_info,
  default_ttl,
}
use alto.IspPDistanceMap.Distances.{Answer, RowAnswer, get_pdistance-load}

abbrev pid : ℕ → Pid
pid n = record { isp = []; num = n; external = false }

abbrev pids : List Pid
pids = pid 1 ∷ pid 2 ∷ []

abbrev dists : Matrix ℕ
dists = (pid 1, (pid 2, 12) ∷ []) ∷ []

abbrev world : World (Matrix ℕ)
world = record {
  portal = λ server. PortalReply.connection_error;
  file = λ name. FileReply.contents dists;
  now = 1000;
}

abbrev before : IspPDistanceMap
before = set_data_source_file new (1 ∷ [])

reads_file :
    retrieve default_ttl world before.source ≡ inr (dists, record { ttl = 7200; version = [] })
unfolding retrieve
reads_file = refl

get_pdistance-load_example :
    Answer dists pids
      (pos 0)
      (pos 1)
      (get_pdistance (load_p4p_info world pids before).0 (pos 0) (pos 1))
    × RowAnswer dists pids (pos 0) (get_pdistances (load_p4p_info world pids before).0 (pos 0))
get_pdistance-load_example =
    get_pdistance-load world pids before dists (record { ttl = 7200; version = [] }) (pos 0) (pos 1)
      reads_file
