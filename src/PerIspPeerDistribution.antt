-- ===== src/PerIspPeerDistribution.antt =====
-- common/cpp/src/include/p4p/app/detail/perisp_peer_distribution.h and
-- lib/perisp_peer_distribution.cpp: the peers of one ISP by PID. A peer is the number of its
-- object. The caller's ISP answers getNumPIDs; each method holds the lock throughout.
pub mod Placement
pub mod Members
pub mod Removal
pub mod Queries
pub mod Refresh
mod Tests
use alto.Prelude.{
  ℕ, zero, suc, ◌+◌, ◌-◌, ◌%◌, ◌^◌, ◌==◌, Bool, true, false, List, [], ◌∷◌, ◌++◌, Option, none,
  some, ltb, leb, ◌&&◌, not, length, get_elem?, set, replicate, if◌then◌else◌,
}
use alto.Prelude.Int.{ℤ, pos, negsuc, pos_part, ltb_ℤ}
use alto.Prelude.Words.{Floats, to_u32, to_i32, add_u32, size_pred}
use alto.Prelude.Run.{Run, ok, fault, ◌>>=◌, or_fault}
use alto.Prelude.Dict
use alto.RandomAccessSet
use alto.RandomAccessSet.{RandomAccessSet}
use alto.SwarmState
use alto.SwarmState.{SwarmState, err_unknown_pid}

-- PeerStats, as the manager keeps it.
pub record PeerStats (F : Type 0) : Type 0 where
  pub is_seed : Bool
  pub upload_cap : F
  pub download_cap : F
  pub upload_rate : F
  pub download_rate : F
  pub num_active_peers : ℤ

-- `pid = size - 1` for a negative PID: the bin of the peers without one, behind the PIDs' own bins.
abbrev pub bin_of : ℕ → ℤ → ℤ
bin_of size (pos n) = pos n
bin_of size (negsuc n) = to_i32 (size_pred size % 2 ^ 32)

-- `v[i]` with an int: a negative index is far out of bounds.
abbrev pub at_int {ℓ} : {A : Type ℓ} → List A → ℤ → Option A
at_int v (pos n) = get_elem? v n
at_int v (negsuc n) = none

-- A PID that is not in range becomes the unknown PID.
abbrev pub known_pid : ℕ → ℤ → ℤ
known_pid size pid =
    if not (ltb_ℤ pid (pos 0)) && leb (size_pred size) (pos_part pid) then err_unknown_pid else pid

-- `m_pid_peers[pid]`, or `m_pid_peers.back()` for a negative PID.
abbrev pub bin_index : ℕ → ℤ → ℕ
bin_index size (pos n) = n
bin_index size (negsuc n) = size_pred size

pub record PerIspPeerDistribution (F : Type 0) : Type 0 where
  pub peer_to_pid : List (ℕ × ℤ)
  pub pid_peers : List (RandomAccessSet ℕ)
  pub swarm_state : SwarmState F

module _ {F : Type 0} where
  pub get_swarm_state : PerIspPeerDistribution F → SwarmState F
  get_swarm_state s = s.swarm_state

  -- The bin that a PID index names after `if (pid < 0) pid = size - 1`, if it is in range.
  abbrev pub bin_at : PerIspPeerDistribution F → ℤ → Option (RandomAccessSet ℕ)
  bin_at s pid = get_elem? s.pid_peers (to_u32 (bin_of (length s.pid_peers) pid))

  -- What is appended to `out_peers`, and the result; for fewer than 2^32 peers in `out_peers`.
  unfoldable pub list_pid_peers : PerIspPeerDistribution F → ℤ → List ℕ → List ℕ × Bool
  list_pid_peers s pid out_peers = elim (bin_at s pid) [
    | none ↦ (out_peers, false)
    | some bin ↦ (out_peers ++ bin.vec, true)
  ]

  -- The loops of listIntraISPPeers and listExternalPeers: `n` indexes from `i` on.
  unfoldable pub list_range : PerIspPeerDistribution F → ℕ → ℕ → List ℕ → List ℕ
  list_range s i zero out_peers = out_peers
  list_range s i (suc n) out_peers =
      list_range s (suc i) n (list_pid_peers s (to_i32 i) out_peers).0

  unfoldable pub list_intra_isp_peers : PerIspPeerDistribution F → ℕ × ℕ → List ℕ → List ℕ
  list_intra_isp_peers s (intraisp, total) out_peers = list_range s 0 intraisp out_peers

  unfoldable pub list_external_peers : PerIspPeerDistribution F → ℕ × ℕ → List ℕ → List ℕ
  list_external_peers s (intraisp, total) out_peers =
      list_range s intraisp (total - intraisp) out_peers

  -- `rand` is what rand() returns; NULL is `none`.
  unfoldable pub get_random_peer : PerIspPeerDistribution F → ℤ → ℕ → Option ℕ
  get_random_peer s pid rand = elim (bin_at s pid) [
    | none ↦ none
    | some bin ↦
        if RandomAccessSet.empty bin then none else get_elem? bin.vec (rand % length bin.vec)
  ]

  -- The overload for several PIDs, with both values of rand().
  unfoldable pub get_random_peer_of : PerIspPeerDistribution F → List ℤ → ℕ → ℕ → Option ℕ
  get_random_peer_of s pids rand rand' =
      if length pids == 0 then none else elim (get_elem? pids (rand % length pids)) [
        | none ↦ none
        | some pid ↦ get_random_peer s pid rand'
      ]

  unfoldable pub get_num_peers : PerIspPeerDistribution F → ℤ → ℤ
  get_num_peers s pid = elim (bin_at s pid) [ none ↦ negsuc 0 | some bin ↦ to_i32 (length bin.vec) ]

  abbrev pub no_peers : PerIspPeerDistribution F
  no_peers = record { peer_to_pid = []; pid_peers = []; swarm_state = record { pids = [] } }

  -- Taking the peer out of its bin; afterwards, an empty view frees its structures.
  abbrev pub take_out : PerIspPeerDistribution F → ℕ → ℤ → Run (PerIspPeerDistribution F)
  take_out s peer idx = do
    bin ← or_fault (at_int s.pid_peers idx)
    (bin', _) ← RandomAccessSet.erase ltb bin peer
    let peer_to_pid = Dict.erase ◌==◌ peer s.peer_to_pid
    ok (
        if length peer_to_pid == 0 then no_peers else record s {
          peer_to_pid = peer_to_pid;
          pid_peers = set s.pid_peers (pos_part idx) bin';
        })

  unfoldable pub remove_peer : PerIspPeerDistribution F → ℕ → Run (PerIspPeerDistribution F × Bool)
  remove_peer s peer = elim (Dict.lookup ◌==◌ peer s.peer_to_pid) [
    | none ↦ ok (s, false)
    | some pid ↦ (do s' ← take_out s peer (bin_of (length s.pid_peers) pid); ok (s', true))
  ]

module _ (floats : Floats {0}) where
  open floats use {F, zero_f}

  -- The structures that the first peer allocates: one bin more than there are PIDs.
  abbrev pub allocate : ℕ → PerIspPeerDistribution F → PerIspPeerDistribution F
  allocate num_total_pids s =
      if length s.peer_to_pid == 0
      then record s {
        pid_peers = replicate (add_u32 num_total_pids (pos 1)) RandomAccessSet.init;
        swarm_state = SwarmState.new floats num_total_pids;
      }
      else s

  -- A peer of a PID is counted in the swarm's statistics.
  unfoldable pub count_in : SwarmState F → ℤ → PeerStats F → SwarmState F
  count_in swarm pid stats =
      if ltb_ℤ pid (pos 0)
      then swarm
      else if stats.is_seed
      then (SwarmState.update floats swarm pid (pos 1) (pos 0) stats.upload_cap stats.download_cap
          stats.upload_rate stats.download_rate stats.num_active_peers).0
      else (SwarmState.update floats swarm pid (pos 0) (pos 1) stats.upload_cap stats.download_cap
          stats.upload_rate stats.download_rate stats.num_active_peers).0

  -- addPeerInternal once the structures are there and the PID is in range.
  unfoldable pub insert_peer :
      PerIspPeerDistribution F → ℕ → ℤ → PeerStats F → Run (PerIspPeerDistribution F × Bool)
  insert_peer s peer pid stats = elim (Dict.lookup ◌==◌ peer s.peer_to_pid) [
    | some _ ↦ ok (s, false)
    | none ↦ do
      bin ← or_fault (get_elem? s.pid_peers (bin_index (length s.pid_peers) pid))
      ok (
        record {
          peer_to_pid = Dict.assign ◌==◌ peer pid s.peer_to_pid;
          pid_peers =
              set s.pid_peers (bin_index (length s.pid_peers) pid)
                (RandomAccessSet.push_back ltb bin peer).0;
          swarm_state = count_in s.swarm_state pid stats;
        },
        true,
      )
  ]

  unfoldable pub add_peer_internal :
      ℕ → PerIspPeerDistribution F → ℕ → ℤ → PeerStats F → Run (PerIspPeerDistribution F × Bool)
  add_peer_internal num_total_pids s peer pid stats =
      let s' = allocate num_total_pids s in
      insert_peer s' peer (known_pid (length s'.pid_peers) pid) stats

  -- The initial statistics are the peer's state as a seeder and its capacities.
  unfoldable pub add_peer :
      ℕ → PerIspPeerDistribution F → ℕ → ℤ → Bool → F → F → Run (PerIspPeerDistribution F × Bool)
  add_peer num_total_pids s peer pid is_seeder upload_capacity download_capacity =
      add_peer_internal num_total_pids s peer pid (record {
        is_seed = is_seeder;
        upload_cap = upload_capacity;
        download_cap = download_capacity;
        upload_rate = zero_f;
        download_rate = zero_f;
        num_active_peers = pos 0;
      })

  unfoldable pub update_peer_stats :
      PerIspPeerDistribution F → ℕ → Bool → F → F → F → F → ℤ → PerIspPeerDistribution F × Bool
  update_peer_stats s peer is_seed_changed uploadcap downloadcap uploadrate downloadrate active =
      elim (Dict.lookup ◌==◌ peer s.peer_to_pid) [
        | none ↦ (s, false)
        | some pid ↦
            let change : ℤ × ℤ = if is_seed_changed then (pos 1, negsuc 0) else (pos 0, pos 0) in
            (
              record s {
                swarm_state =
                    (SwarmState.update floats s.swarm_state pid change.0 change.1 uploadcap
                      downloadcap uploadrate downloadrate active).0;
              },
              true,
            )
      ]
