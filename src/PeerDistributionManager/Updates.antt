-- ===== src/PeerDistributionManager/Updates.antt =====
-- Rebuilding one view after its ISP's PIDs changed, and passing on a peer's new statistics.
use alto.Prelude.{
  ℕ, ◌<◌, ◌^◌, ◌≡◌, refl, ◌⊎◌, ◌==◌, true, false, none, some, inl, inr, if◌then◌else◌, Option-cases,
}
use alto.Prelude.Int.{pos}
use alto.Prelude.Words.{Floats}
use alto.Prelude.Run.{ok}
use alto.Prelude.Order.{==-IsEquivalence}
use alto.Prelude.Dict
use alto.PerIspPeerDistribution.{PerIspPeerDistribution}
use alto.PerIspPeerDistribution.Placement.{IsPlaced, pid_of}
use alto.PerIspPeerDistribution.Members.{is_known}
use alto.PerIspPeerDistribution.Refresh.{add_peers_from_manager_lem}
use alto.PeerDistributionManager.{
  Isps, PeerDistributionManager, update_peer_distribution, err_invalid_isp,
}

module _ (isps : Isps) (floats : Floats {0}) where
  open floats use {F}

  -- For an ISP of fewer than 2^31 PIDs, updating is refused and changes nothing if the ISP has no
  -- view; else it succeeds without undefined behaviour, its view is then well placed and knows
  -- exactly the manager's peers, and no other view and no peer of the manager changes.
  pub update_peer_distribution_lem :
      (s : PeerDistributionManager F) (isp : ℕ)
      → (isps.num_pids isp).1 < 2 ^ 31
      → ((Dict.lookup ◌==◌ isp s.views ≡ none)
          × (update_peer_distribution isps floats s isp ≡ ok (s, err_invalid_isp)))
        ⊎ ((s' : PeerDistributionManager F) × (view : PerIspPeerDistribution F)
            × (update_peer_distribution isps floats s isp ≡ ok (s', pos 0))
            × IsPlaced view
            × ((q : ℕ)
                → is_known (pid_of view q)
                  ≡ elim (Dict.lookup ◌==◌ q s.peers) [ none ↦ false | some _ ↦ true ])
            × ((other : ℕ)
                → Dict.lookup ◌==◌ other s'.views
                  ≡ (if isp == other then some view else Dict.lookup ◌==◌ other s.views))
            × (s'.peers ≡ s.peers))
  unfolding update_peer_distribution
  update_peer_distribution_lem s isp small = elim (Option-cases (Dict.lookup ◌==◌ isp s.views)) [
    | inl gone ↦ inl (gone, rw (gone, update_peer_distribution) refl)
    | inr (old, present) ↦
        let (view, homes, builds, v, knows, _) =
          add_peers_from_manager_lem floats (isps.num_pids isp).1 isp
            (λ peer. (isps.lookup_pid isp peer).0) small s.peers s.homes in
        inr (
          record s { views = Dict.assign ◌==◌ isp view s.views; homes = homes },
          view,
          rw (present, builds, update_peer_distribution) refl,
          v,
          knows,
          λ other. Dict.lookup-assign ◌==◌ ==-IsEquivalence isp other view s.views,
          refl,
        )
  ]
