-- ===== src/IspPDistanceMap.antt =====
-- common/cpp/src/include/p4p/isp_pdistancemap.h and lib/isp_pdistancemap.cpp: the distances between
-- the PIDs of an ISP, by the indexes that the ISP's PID map gives them.
pub mod Distances
mod Tests
use alto.Prelude.{
  ℕ, zero, suc, ◌-◌, ◌^◌, Bool, List, [], ◌∷◌, map, Option, none, some, inl, inr, ltb, leb, length,
  get_elem?, if◌then◌else◌, ◌||◌,
}
use alto.Prelude.Int.{ℤ, pos, negsuc, pos_part, ltb_ℤ}
use alto.Prelude.Words.{to_i32}
use alto.Pid.{Pid}
use alto.SwarmState.{err_unknown_pid}
use alto.DataSource.{Source, World, retrieve, set_server, set_file}
use alto.PidMatrixGeneric.{Matrix, get}

-- 2 * 60 * 60
abbrev pub default_ttl : ℕ
default_ttl = 7200

abbrev pub int_max : ℤ
int_max = pos (2 ^ 31 - 1)

pub record IspPDistanceMap : Type 0 where
  pub source : Source
  pub pdists : List (List ℤ)
  pub last_update : ℕ
  pub ttl : ℕ
  pub version : List ℕ

-- The constructor without a data source.
abbrev pub new : IspPDistanceMap
new = record {
  source = record { proto = none; filename = [] };
  pdists = [];
  last_update = 0;
  ttl = default_ttl;
  version = [];
}

abbrev pub set_data_source_server : IspPDistanceMap → List ℕ → ℕ → IspPDistanceMap
set_data_source_server s addr port = record s { source = set_server s.source addr port }

abbrev pub set_data_source_file : IspPDistanceMap → List ℕ → IspPDistanceMap
set_data_source_file s filename = record s { source = set_file s.source filename }

-- `v[i]` behind the test `i < 0 || v.size() <= (unsigned int)i`
abbrev pub checked {ℓ} : {A : Type ℓ} → List A → ℤ → Option A
checked v i =
    if ltb_ℤ i (pos 0) || leb (length v) (pos_part i) then none else get_elem? v (pos_part i)

unfoldable pub get_pdistance : IspPDistanceMap → ℤ → ℤ → ℤ
get_pdistance s src_pid dst_pid = elim (checked s.pdists src_pid) [
  | none ↦ err_unknown_pid
  | some row ↦ elim (checked row dst_pid) [ none ↦ err_unknown_pid | some d ↦ d ]
]

-- The return code, and the distances that `out_pdists` is set to.
unfoldable pub get_pdistances : IspPDistanceMap → ℤ → ℤ × Option (List ℤ)
get_pdistances s src_pid = elim (checked s.pdists src_pid) [
  | none ↦ (err_unknown_pid, none)
  | some row ↦ (pos 0, some row)
]

-- One entry: the `unsigned int` of the answer as an `int`, or INT_MAX for a range_error.
unfoldable pub entry : Matrix ℕ → Pid → Pid → ℤ
entry dists i j = elim (get dists i j) [ none ↦ int_max | some d ↦ to_i32 d ]

unfoldable pub row : Matrix ℕ → List Pid → Pid → List ℤ
row dists [] i = []
row dists (j ∷ pids) i = entry dists i j ∷ row dists pids i

-- The two loops over the indexes; `targets` are all PIDs, `pids` those that are left.
unfoldable pub fill : Matrix ℕ → List Pid → List Pid → List (List ℤ)
fill dists targets [] = []
fill dists targets (i ∷ pids) = row dists targets i ∷ fill dists targets pids

-- `index_to_pid` is what the ISP's listPIDs answers.
unfoldable pub load_p4p_info : World (Matrix ℕ) → List Pid → IspPDistanceMap → IspPDistanceMap × ℤ
load_p4p_info world index_to_pid s = elim (retrieve default_ttl world s.source) [
  | inl error ↦ (s, error)
  | inr (dists, meta) ↦ (
    record {
      source = s.source;
      pdists = fill dists index_to_pid index_to_pid;
      last_update = world.now;
      ttl = meta.ttl;
      version = meta.version;
    },
    pos 0,
  )
]
