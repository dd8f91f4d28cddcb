-- ===== src/PeerDistributionManager.antt =====
-- common/cpp/src/include/p4p/app/peer_distribution_manager.h and lib/peer_distribution_manager.cpp:
-- one view of the peers for each ISP, and each peer's home. ISPs and peers are the numbers of their
-- objects; what an ISP answers about a peer's address and its PIDs is a parameter.
pub mod Home
pub mod Views
pub mod Updates
mod Tests
use alto.Prelude.{
  ℕ, ◌==◌, Bool, true, false, List, [], ◌∷◌, Option, none, some, ltb, not, if◌then◌else◌,
}
use alto.Prelude.Int.{◌-ℤ◌, ℤ, pos, negsuc, ltb_ℤ}
use alto.Prelude.Words.{Floats, to_i32}
use alto.Prelude.Run.{Run, ok, ◌>>=◌}
use alto.Prelude.Dict
use alto.Pid.{bool_ne}
use alto.PerIspPeerDistribution.Refresh.{add_peers_from_manager}
use alto.SwarmState.{SwarmState, err_unknown_pid}
use alto.PerIspPeerDistribution
use alto.PerIspPeerDistribution.{PerIspPeerDistribution, PeerStats, no_peers}

abbrev pub err_invalid_isp : ℤ
err_invalid_isp = negsuc 101

-- What the manager asks of the ISPs.
pub record Isps : Type 0 where
  -- For an ISP and a peer, the PID of the peer's address and the length of the matching prefix.
  pub lookup_pid : ℕ → ℕ → ℤ × ℕ
  -- For an ISP, the numbers of internal and of all PIDs.
  pub num_pids : ℕ → ℕ × ℕ

pub record PeerDistributionManager (F : Type 0) : Type 0 where
  pub views : List (ℕ × PerIspPeerDistribution F)
  pub peers : List (ℕ × PeerStats F)
  -- The home ISP and PID in the peers' own objects.
  pub homes : List (ℕ × (ℕ × ℤ))

-- The locals of addPeer: the home found so far and the length of its prefix.
pub record Choice : Type 0 where
  pub home_isp : Option ℕ
  pub home_pid : ℤ
  pub longest_prefix_length : ℕ

abbrev pub no_choice : Choice
no_choice = record { home_isp = none; home_pid = err_unknown_pid; longest_prefix_length = 0 }

module _ (isps : Isps) where
  -- One step of the choice: an ISP is passed over if the PID is an error or not internal, or if its
  -- prefix is shorter than the longest so far.
  abbrev pub choose : ℕ → ℕ → Choice → Choice
  choose peer isp c =
      let (pid, len) = isps.lookup_pid isp peer in
      if ltb_ℤ pid (pos 0)
      then c
      else if not (ltb_ℤ pid (to_i32 (isps.num_pids isp).0))
      then c
      else if ltb len c.longest_prefix_length
      then c
      else record { home_isp = some isp; home_pid = pid; longest_prefix_length = len }

  module _ (floats : Floats {0}) where
    open floats use {F, zero_f}

    -- PeerStats with the rates and the active peers left at zero.
    abbrev pub new_stats : Bool → F → F → PeerStats F
    new_stats is_seeder up down = record {
      is_seed = is_seeder;
      upload_cap = up;
      download_cap = down;
      upload_rate = zero_f;
      download_rate = zero_f;
      num_active_peers = pos 0;
    }

    -- The loop of addPeer over the views.
    unfoldable pub add_to_views :
        ℕ
        → Bool
        → F
        → F
        → List (ℕ × PerIspPeerDistribution F)
        → Choice
        → Run (List (ℕ × PerIspPeerDistribution F) × Choice)
    add_to_views peer is_seeder up down [] c = ok ([], c)
    add_to_views peer is_seeder up down ((isp, view) ∷ views) c = do
      let pid = (isps.lookup_pid isp peer).0
      let known = if ltb_ℤ pid (pos 0) then err_unknown_pid else pid
      (view', _) ←
          PerIspPeerDistribution.add_peer floats (isps.num_pids isp).1 view peer known is_seeder up
            down
      (views', c') ← add_to_views peer is_seeder up down views (choose peer isp c)
      ok ((isp, view') ∷ views', c')

    -- peer->setHome(home_isp, home_pid) if a home was found.
    abbrev pub set_home : ℕ → Choice → List (ℕ × (ℕ × ℤ)) → List (ℕ × (ℕ × ℤ))
    set_home peer c homes = elim c.home_isp [
      | none ↦ homes
      | some isp ↦ Dict.assign ◌==◌ peer (isp, c.home_pid) homes
    ]

    unfoldable pub add_peer :
        PeerDistributionManager F → ℕ → Bool → F → F → Run (PeerDistributionManager F × Bool)
    add_peer s peer is_seeder up down = elim (Dict.lookup ◌==◌ peer s.peers) [
      | some _ ↦ ok (s, false)
      | none ↦ do
        (views, c) ← add_to_views peer is_seeder up down s.views no_choice
        ok (
          record {
            views = views;
            peers = Dict.assign ◌==◌ peer (new_stats is_seeder up down) s.peers;
            homes = set_home peer c s.homes;
          },
          true,
        )
    ]

    -- update of every view's statistics of the peer
    unfoldable pub update_views :
        ℕ
        → Bool
        → F
        → F
        → F
        → F
        → ℤ
        → List (ℕ × PerIspPeerDistribution F)
        → List (ℕ × PerIspPeerDistribution F)
    update_views peer seed_changed up down up_rate down_rate active [] = []
    update_views peer seed_changed up down up_rate down_rate active ((isp, view) ∷ views) =
        (
          isp,
          (PerIspPeerDistribution.update_peer_stats floats view peer seed_changed up down up_rate
              down_rate active).0,
        )
        ∷ update_views peer seed_changed up down up_rate down_rate active views

    -- `sub_f` is the subtraction of floats.
    unfoldable pub update_peer_stats :
        (F → F → F)
        → PeerDistributionManager F
        → ℕ
        → Bool
        → F
        → F
        → PeerDistributionManager F × Bool
    update_peer_stats sub_f s peer is_seeder up down = elim (Dict.lookup ◌==◌ peer s.peers) [
      | none ↦ (s, false)
      | some prev ↦
          let next = new_stats is_seeder up down in
          (
            record s {
              views =
                  update_views peer (bool_ne next.is_seed prev.is_seed)
                    (sub_f next.upload_cap prev.upload_cap)
                    (sub_f next.download_cap prev.download_cap)
                    (sub_f next.upload_rate prev.upload_rate)
                    (sub_f next.download_rate prev.download_rate)
                    (next.num_active_peers -ℤ prev.num_active_peers) s.views;
              peers = Dict.assign ◌==◌ peer next s.peers;
            },
            true,
          )
    ]

    -- The state and the return code.
    unfoldable pub update_peer_distribution :
        PeerDistributionManager F → ℕ → Run (PeerDistributionManager F × ℤ)
    update_peer_distribution s isp = elim (Dict.lookup ◌==◌ isp s.views) [
      | none ↦ ok (s, err_invalid_isp)
      | some _ ↦ do
        (view, homes) ←
            add_peers_from_manager floats (isps.num_pids isp).1 isp
              (λ peer. (isps.lookup_pid isp peer).0) s.peers s.homes
        ok (record s { views = Dict.assign ◌==◌ isp view s.views; homes = homes }, pos 0)
    ]

module _ {F : Type 0} where
  unfoldable pub remove_from_views :
      ℕ → List (ℕ × PerIspPeerDistribution F) → Run (List (ℕ × PerIspPeerDistribution F))
  remove_from_views peer [] = ok []
  remove_from_views peer ((isp, view) ∷ views) = do
    (view', _) ← PerIspPeerDistribution.remove_peer view peer
    views' ← remove_from_views peer views
    ok ((isp, view') ∷ views')

  unfoldable pub remove_peer :
      PeerDistributionManager F → ℕ → Run (PeerDistributionManager F × Bool)
  remove_peer s peer = do
    views ← remove_from_views peer s.views
    ok (
      record s { views = views; peers = Dict.erase ◌==◌ peer s.peers },
      elim (Dict.lookup ◌==◌ peer s.peers) [ none ↦ false | some _ ↦ true ],
    )

  -- `m_views.insert(...)` of an ISP that has no view: the map is in the order of the ISPs' addresses,
  -- which their numbers stand for.
  unfoldable pub insert_view :
      ℕ
      → PerIspPeerDistribution F
      → List (ℕ × PerIspPeerDistribution F)
      → List (ℕ × PerIspPeerDistribution F)
  insert_view isp view [] = (isp, view) ∷ []
  insert_view isp view ((other, v) ∷ views) =
      if ltb isp other
      then (isp, view) ∷ (other, v) ∷ views
      else (other, v) ∷ insert_view isp view views

  unfoldable pub add_isp : PeerDistributionManager F → ℕ → PeerDistributionManager F × Bool
  add_isp s isp = elim (Dict.lookup ◌==◌ isp s.views) [
    | some _ ↦ (s, false)
    | none ↦ (record s { views = insert_view isp no_peers s.views }, true)
  ]

  abbrev pub remove_isp : PeerDistributionManager F → ℕ → PeerDistributionManager F
  remove_isp s isp = record s { views = Dict.erase ◌==◌ isp s.views }

  pub get_swarm_state : PeerDistributionManager F → ℕ → SwarmState F
  get_swarm_state s isp = elim (Dict.lookup ◌==◌ isp s.views) [
    | none ↦ record { pids = [] }
    | some view ↦ view.swarm_state
  ]

  pub list_pid_peers : PeerDistributionManager F → ℕ → ℤ → List ℕ → List ℕ × Bool
  list_pid_peers s isp pid out_peers = elim (Dict.lookup ◌==◌ isp s.views) [
    | none ↦ (out_peers, false)
    | some view ↦ PerIspPeerDistribution.list_pid_peers view pid out_peers
  ]

  pub get_random_peer : PeerDistributionManager F → ℕ → ℤ → ℕ → Option ℕ
  get_random_peer s isp pid rand = elim (Dict.lookup ◌==◌ isp s.views) [
    | none ↦ none
    | some view ↦ PerIspPeerDistribution.get_random_peer view pid rand
  ]

  pub get_num_peers : PeerDistributionManager F → ℕ → ℤ → ℤ
  get_num_peers s isp pid = elim (Dict.lookup ◌==◌ isp s.views) [
    | none ↦ negsuc 0
    | some view ↦ PerIspPeerDistribution.get_num_peers view pid
  ]
