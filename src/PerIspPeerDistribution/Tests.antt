-- ===== src/PerIspPeerDistribution/Tests.antt =====
-- Runs and witnesses for one ISP's view, with whole numbers for the floats.
use mathlib.Core.Path.{subst}
use alto.Prelude.{
  ℕ, ◌≡◌, refl, sym, ◌∙◌, ◌==◌, ◌⊎◌, not, ◌&&◌, Bool, true, false, [], ◌∷◌, none, some, length,
  if◌then◌else◌, arith,
}
use alto.Prelude.Int.{ℤ, pos, ◌+ℤ◌}
use alto.Prelude.Words.{Floats, add_u32, size_pred}
use alto.Prelude.Run.{ok}
use alto.Prelude.Order.{equiv}
use alto.Prelude.Dict
use alto.RandomAccessSet
use alto.SwarmState
use alto.SwarmState.{SwarmState}
use alto.PerIspPeerDistribution.{
  PerIspPeerDistribution, PeerStats, no_peers, add_peer_internal, insert_peer, count_in,
  remove_peer,
}
use alto.PerIspPeerDistribution.Placement.{IsPlaced, pid_of, no_peers-IsPlaced}
use alto.PerIspPeerDistribution.Members.{FiledUnder, is_known, add_peer_internal_lem}
use alto.PerIspPeerDistribution.Removal.{remove_peer_lem}
use alto.PerIspPeerDistribution.Refresh.{Homes, add_peers_from_manager, add_peers_from_manager_lem}

abbrev whole : Floats {0}
whole = record { F = ℤ; zero_f = pos 0; add_f = ◌+ℤ◌; of_int = λ z. z }

abbrev stats : PeerStats ℤ
stats = record {
  is_seed = false;
  upload_cap = pos 5;
  download_cap = pos 6;
  upload_rate = pos 0;
  download_rate = pos 0;
  num_active_peers = pos 0;
}

-- Peer 7 under the only PID.
abbrev one_peer : PerIspPeerDistribution ℤ
one_peer = record {
  peer_to_pid = (7, pos 0) ∷ [];
  pid_peers =
      record { vec_index = (7, 0) ∷ []; vec = 7 ∷ [] } ∷ record { vec_index = []; vec = [] } ∷ [];
  swarm_state = record {
    pids =
        record {
          num_seeds = 0;
          num_leechers = 1;
          upload_cap = pos 5;
          download_cap = pos 6;
          upload_rate = pos 0;
          download_rate = pos 0;
          num_active_peers = 0;
        }
        ∷ [];
  };
}

add_run : add_peer_internal whole 1 no_peers 7 (pos 0) stats ≡ ok (one_peer, true)
unfolding add_peer_internal insert_peer count_in add_u32 size_pred ◌+ℤ◌ Dict.lookup Dict.assign
    equiv RandomAccessSet.push_back RandomAccessSet.find SwarmState.update SwarmState.write
    SwarmState.entry
add_run = refl

remove_run : remove_peer one_peer 7 ≡ ok (no_peers, true)
unfolding remove_peer Dict.lookup Dict.erase Dict.assign equiv RandomAccessSet.erase
    RandomAccessSet.find RandomAccessSet.swap RandomAccessSet.pop_back
remove_run = refl

same_state : (r r' : PerIspPeerDistribution ℤ × Bool) → ok r ≡ ok r' → r.0 ≡ r'.0
same_state r r' e = ground (arith, e)

one_peer-IsPlaced : IsPlaced one_peer
one_peer-IsPlaced =
    let (s', _, adds, v, _, _, _) =
      add_peer_internal_lem whole 1 no_peers 7 (pos 0) stats (omega arith) no_peers-IsPlaced in
    subst IsPlaced (same_state (s', _) (one_peer, true) (sym adds ∙ add_run)) v

known_7 : pid_of one_peer 7 ≡ some (pos 0)
unfolding Dict.lookup
known_7 = refl

add_peer_internal_lem_example :
    (s' : PerIspPeerDistribution ℤ) × (p : ℤ) × (add_peer_internal whole 1 one_peer 8 (pos 4) stats
      ≡ ok (s', not (is_known (pid_of one_peer 8))))
    × IsPlaced s'
    × (length s'.pid_peers ≡ 2)
    × FiledUnder (length s'.pid_peers) (pos 4) p
    × ((q : ℕ)
        → pid_of s' q
          ≡ (if not (is_known (pid_of one_peer 8)) && (8 == q) then some p else pid_of one_peer q))
add_peer_internal_lem_example =
    add_peer_internal_lem whole 1 one_peer 8 (pos 4) stats (omega arith) one_peer-IsPlaced

remove_peer_lem_example :
    (s' : PerIspPeerDistribution ℤ) × (remove_peer one_peer 7
      ≡ ok (s', is_known (pid_of one_peer 7)))
    × IsPlaced s'
    × ((q : ℕ) → pid_of s' q ≡ (if 7 == q then none else pid_of one_peer q))
    × (((pid_of one_peer 7 ≡ none) × (s' ≡ one_peer))
        ⊎ ((pid other : ℤ) × (q : ℕ) × (pid_of one_peer 7 ≡ some pid)
            × (pid_of s' q ≡ some other)
            × (length s'.pid_peers ≡ 2)
            × (s'.swarm_state ≡ one_peer.swarm_state))
        ⊎ ((pid : ℤ) × (pid_of one_peer 7 ≡ some pid)
            × ((q : ℕ) → pid_of s' q ≡ none)
            × (s'.peer_to_pid ≡ [])
            × (s'.pid_peers ≡ [])
            × (s'.swarm_state.pids ≡ [])))
remove_peer_lem_example = remove_peer_lem one_peer 7 one_peer-IsPlaced

-- Peer 7 has ISP 3 as its home, and peer 8 has ISP 4.
abbrev homes : Homes
homes = (7, (3, pos 0)) ∷ (8, (4, pos 1)) ∷ []

add_peers_from_manager_lem_example :
    (s' : PerIspPeerDistribution ℤ) × (homes' : Homes) × (add_peers_from_manager whole 1 3
        (λ peer. pos 0)
        ((7, stats) ∷ [])
        homes
      ≡ ok (s', homes'))
    × IsPlaced s'
    × ((q : ℕ)
        → is_known (pid_of s' q)
          ≡ elim (Dict.lookup ◌==◌ q ((7, stats) ∷ [])) [ none ↦ false | some _ ↦ true ])
    × ((q h : ℕ) (p : ℤ)
        → (h == 3) ≡ false
        → Dict.lookup ◌==◌ q homes ≡ some (h, p)
        → Dict.lookup ◌==◌ q homes' ≡ some (h, p))
add_peers_from_manager_lem_example =
    add_peers_from_manager_lem whole 1 3 (λ peer. pos 0) (omega arith) ((7, stats) ∷ []) homes
