-- ===== src/PeerDistributionManager/Tests.antt =====
-- Runs and witnesses for the manager, with whole numbers for the floats.
use alto.Prelude.{
  ◌⊎◌, ℕ, ◌*◌, ◌≡◌, refl, ◌==◌, Bool, true, false, List, [], ◌∷◌, none, some, if◌then◌else◌,
}
use alto.Prelude.Int.{ℤ, pos, ◌+ℤ◌}
use alto.Prelude.Words.{Floats, add_u32, size_pred}
use alto.Prelude.Run.{Run, ok}
use alto.Prelude.Order.{equiv}
use alto.Prelude.Dict
use alto.RandomAccessSet
use alto.SwarmState
use alto.PerIspPeerDistribution
use alto.PerIspPeerDistribution.{PerIspPeerDistribution, no_peers}
use alto.PerIspPeerDistribution.Placement.{IsPlaced, pid_of, no_peers-IsPlaced}
use alto.PeerDistributionManager.{
  Isps, PeerDistributionManager, add_to_views, update_peer_distribution, err_invalid_isp, add_peer,
  remove_peer,
}
use alto.PerIspPeerDistribution.Members.{is_known}
use alto.PeerDistributionManager.Views.{AllViews, EachView, Leaves, remove_peer-AllViews}

abbrev whole : Floats {0}
whole = record { F = ℤ; zero_f = pos 0; add_f = ◌+ℤ◌; of_int = λ z. z }

-- ISP 1 matches every peer by 8 bits and ISP 2 by 16, both in their only PID.
abbrev two_isps : Isps
two_isps = record { lookup_pid = λ isp peer. (pos 0, 8 * isp); num_pids = λ isp. (1, 1) }

abbrev manager : PeerDistributionManager ℤ
manager = record { views = (1, no_peers) ∷ (2, no_peers) ∷ []; peers = []; homes = [] }

-- The ISP with the longer prefix becomes the peer's home.
abbrev homes_of : Run (PeerDistributionManager ℤ × Bool) → List (ℕ × (ℕ × ℤ))
homes_of (ok (s, b)) = s.homes
homes_of _ = []

home_run : homes_of (add_peer two_isps whole manager 7 true (pos 5) (pos 6)) ≡ (7, (2, pos 0)) ∷ []
unfolding add_peer add_to_views add_u32 size_pred ◌+ℤ◌ Dict.lookup Dict.assign equiv
    PerIspPeerDistribution.add_peer PerIspPeerDistribution.add_peer_internal
    PerIspPeerDistribution.insert_peer PerIspPeerDistribution.count_in RandomAccessSet.push_back
    RandomAccessSet.find SwarmState.update SwarmState.write SwarmState.entry
home_run = refl

remove_peer-AllViews_example :
    (s' : PeerDistributionManager ℤ) × (remove_peer manager 7
      ≡ ok (s', elim (Dict.lookup ◌==◌ 7 manager.peers) [ none ↦ false | some _ ↦ true ]))
    × EachView (Leaves 7) manager.views s'.views
    × ((q : ℕ)
        → Dict.lookup ◌==◌ q s'.peers ≡ (if 7 == q then none else Dict.lookup ◌==◌ q manager.peers))
remove_peer-AllViews_example =
    remove_peer-AllViews 7 manager
      (AllViews.cons no_peers-IsPlaced (AllViews.cons no_peers-IsPlaced AllViews.nil))

abbrev Updates : PeerDistributionManager ℤ → ℕ → Type 0
Updates s isp =
    ((Dict.lookup ◌==◌ isp s.views ≡ none)
      × (update_peer_distribution two_isps whole s isp ≡ ok (s, err_invalid_isp)))
    ⊎ ((s' : PeerDistributionManager ℤ) × (view : PerIspPeerDistribution ℤ)
        × (update_peer_distribution two_isps whole s isp ≡ ok (s', pos 0))
        × IsPlaced view
        × ((q : ℕ)
            → is_known (pid_of view q)
              ≡ elim (Dict.lookup ◌==◌ q s.peers) [ none ↦ false | some _ ↦ true ])
        × ((other : ℕ)
            → Dict.lookup ◌==◌ other s'.views
              ≡ (if isp == other then some view else Dict.lookup ◌==◌ other s.views))
        × (s'.peers ≡ s.peers))
