-- ===== src/PerIspPeerDistribution/Refresh.antt =====
-- addPeersFromManager of common/cpp/src/lib/perisp_peer_distribution.cpp: the view is built anew from
-- the manager's peers, under the PIDs that the ISP now answers for them.
use alto.Prelude.{
  ℕ, ◌<◌, ◌^◌, ◌≡◌, refl, ◌∙◌, ◌==◌, Bool, true, false, ◌||◌, List, [], ◌∷◌, none, some,
  if◌then◌else◌, arith,
}
use alto.Prelude.Int.{ℤ, pos, ltb_ℤ}
use alto.Prelude.Words.{Floats}
use alto.Prelude.Run.{Run, ok, ◌>>=◌}
use alto.Prelude.Order.{==-IsEquivalence}
use alto.Prelude.Dict
use alto.SwarmState.{err_unknown_pid}
use alto.PerIspPeerDistribution.{PerIspPeerDistribution, PeerStats, no_peers, add_peer_internal}
use alto.PerIspPeerDistribution.Placement.{IsPlaced, pid_of, no_peers-IsPlaced}
use alto.PerIspPeerDistribution.Members.{is_known, add_peer_internal_lem}

-- The home ISP and PID of each peer, in the peers' own objects.
abbrev pub Homes : Type 0
Homes = List (ℕ × (ℕ × ℤ))

-- A peer whose home is this ISP gets its new PID there.
unfoldable pub move_home : ℕ → ℕ → ℤ → Homes → Homes
move_home isp peer pid homes = elim (Dict.lookup ◌==◌ peer homes) [
  | none ↦ homes
  | some (home, _) ↦ if home == isp then Dict.assign ◌==◌ peer (isp, pid) homes else homes
]

module _ (floats : Floats {0}) (num_total_pids isp : ℕ) (lookup_pid : ℕ → ℤ) where
  open floats use {F}

  -- An erroneous lookup is an unknown PID.
  abbrev pub looked_up : ℕ → ℤ
  looked_up peer = if ltb_ℤ (lookup_pid peer) (pos 0) then err_unknown_pid else lookup_pid peer

  -- The loop over the manager's peers.
  unfoldable pub add_all :
      List (ℕ × PeerStats F)
      → PerIspPeerDistribution F
      → Homes
      → Run (PerIspPeerDistribution F × Homes)
  add_all [] s homes = ok (s, homes)
  add_all ((peer, stats) ∷ peers) s homes = do
    (s', _) ← add_peer_internal floats num_total_pids s peer (looked_up peer) stats
    add_all peers s' (move_home isp peer (looked_up peer) homes)

  -- The view's three fields are cleared before the loop.
  unfoldable pub add_peers_from_manager :
      List (ℕ × PeerStats F) → Homes → Run (PerIspPeerDistribution F × Homes)
  add_peers_from_manager peers homes = add_all peers no_peers homes

  is_key : ℕ → List (ℕ × PeerStats F) → Bool
  is_key q peers = elim (Dict.lookup ◌==◌ q peers) [ none ↦ false | some _ ↦ true ]

  move_home_other :
      (peer q : ℕ) (pid : ℤ) (homes : Homes) (h : ℕ) (p : ℤ)
      → (h == isp) ≡ false
      → Dict.lookup ◌==◌ q homes ≡ some (h, p)
      → Dict.lookup ◌==◌ q (move_home isp peer pid homes) ≡ some (h, p)
  unfolding move_home
  move_home_other peer q pid homes h p other at_q = ground (
    arith,
    at_q,
    other,
    Dict.lookup_same ◌==◌ ==-IsEquivalence peer q homes,
    Dict.lookup-assign ◌==◌ ==-IsEquivalence peer q (isp, pid) homes,
  )

  module _ (small : num_total_pids < 2 ^ 31) where
    add_all_lem :
        (peers : List (ℕ × PeerStats F)) (s : PerIspPeerDistribution F) (homes : Homes)
        → IsPlaced s
        → (s' : PerIspPeerDistribution F) × (homes' : Homes) × (add_all peers s homes
            ≡ ok (s', homes'))
          × IsPlaced s'
          × ((q : ℕ) → is_known (pid_of s' q) ≡ (is_known (pid_of s q) || is_key q peers))
          × ((q h : ℕ) (p : ℤ)
              → (h == isp) ≡ false
              → Dict.lookup ◌==◌ q homes ≡ some (h, p)
              → Dict.lookup ◌==◌ q homes' ≡ some (h, p))
    unfolding add_all is_key is_known Dict.lookup
    add_all_lem [] s homes v = (s, homes, refl, v, λ q. ground arith, λ q h p other e. e)
    add_all_lem ((peer, stats) ∷ peers) s homes v =
        let (s1, _, adds, v1, _, _, looks_up) =
          add_peer_internal_lem floats num_total_pids s peer (looked_up peer) stats small v in
        let (s2, homes2, rest, v2, knows, kept) =
          add_all_lem peers s1 (move_home isp peer (looked_up peer) homes) v1 in
        (
          s2,
          homes2,
          rw (adds, add_all) rest,
          v2,
          λ q. knows q ∙ ground (arith, looks_up q),
          λ q h p other e.
              kept q h p other (move_home_other peer q (looked_up peer) homes h p other e),
        )

    -- For an ISP of fewer than 2^31 PIDs, building the view anew succeeds without undefined
    -- behaviour; the view is then well placed and knows exactly the manager's peers, and a peer
    -- whose home is another ISP keeps its home.
    pub add_peers_from_manager_lem :
        (peers : List (ℕ × PeerStats F)) (homes : Homes)
        → (s' : PerIspPeerDistribution F) × (homes' : Homes) × (add_peers_from_manager peers homes
            ≡ ok (s', homes'))
          × IsPlaced s'
          × ((q : ℕ)
              → is_known (pid_of s' q)
                ≡ elim (Dict.lookup ◌==◌ q peers) [ none ↦ false | some _ ↦ true ])
          × ((q h : ℕ) (p : ℤ)
              → (h == isp) ≡ false
              → Dict.lookup ◌==◌ q homes ≡ some (h, p)
              → Dict.lookup ◌==◌ q homes' ≡ some (h, p))
    unfolding add_peers_from_manager is_key is_known Dict.lookup
    add_peers_from_manager_lem peers homes = add_all_lem peers no_peers homes no_peers-IsPlaced
