-- ===== src/PeerDistributionManager/Views.antt =====
-- Adding and removing a peer in all views at once.
use alto.Prelude.{
  ℕ, ◌+◌, ◌<◌, ◌≤◌, ◌≡◌, ◌⊎◌, refl, ◌==◌, not, ◌&&◌, true, false, List, [], ◌∷◌, none, some, length,
  if◌then◌else◌,
}
use alto.Prelude.Int.{ℤ, pos, negsuc}
use alto.Prelude.Run.{ok}
use alto.Prelude.Dict
use alto.Prelude.Order.{==-IsEquivalence}
use alto.SwarmState.{err_unknown_pid}
use alto.PerIspPeerDistribution
use alto.PerIspPeerDistribution.{PerIspPeerDistribution}
use alto.PerIspPeerDistribution.Placement.{IsPlaced, pid_of}
use alto.PerIspPeerDistribution.Members.{is_known}
use alto.PerIspPeerDistribution.Removal.{remove_peer_lem}
use alto.PeerDistributionManager.{Isps, PeerDistributionManager, remove_from_views, remove_peer}

-- Every view satisfies `P`.
pub data AllViews {F : Type 0} (P : PerIspPeerDistribution F → Type 0)
    : List (ℕ × PerIspPeerDistribution F) → Type 0 where
  nil : AllViews P []
  cons :
      {isp : ℕ} {view : PerIspPeerDistribution F} {views : List (ℕ × PerIspPeerDistribution F)}
      → P view
      → AllViews P views
      → AllViews P ((isp, view) ∷ views)

-- The views of the same ISPs in the same order, each related to the one that it has become.
pub data EachView {F : Type 0}
    (R : ℕ → PerIspPeerDistribution F → PerIspPeerDistribution F → Type 0)
    : List (ℕ × PerIspPeerDistribution F) → List (ℕ × PerIspPeerDistribution F) → Type 0 where
  nil : EachView R [] []
  cons :
      {isp : ℕ} {view view' : PerIspPeerDistribution F}
      {views views' : List (ℕ × PerIspPeerDistribution F)}
      → R isp view view'
      → EachView R views views'
      → EachView R ((isp, view) ∷ views) ((isp, view') ∷ views')

-- The view of an ISP, after the peer left: every other peer keeps its PID.
pub record Leaves {F : Type 0} (peer isp : ℕ) (view view' : PerIspPeerDistribution F) : Type 0 where
  pub well_placed : IsPlaced view'
  pub looks_up : (q : ℕ) → pid_of view' q ≡ (if peer == q then none else pid_of view q)

-- The PID for a peer whose address has been looked up: the answer, if that is a PID with a bin of
-- its own, and the unknown one for any other answer.
abbrev pub FiledAs : ℕ → ℤ → ℤ → Type 0
FiledAs size (negsuc n) p = p ≡ err_unknown_pid
FiledAs size (pos n) p = ((n + 1 < size) × (p ≡ pos n)) ⊎ ((size ≤ n + 1) × (p ≡ err_unknown_pid))

-- The view of an ISP, after the peer joined: a new peer is filed by what the ISP answers for its
-- address, a known peer and every other keep their PIDs.
pub record Joins {F : Type 0} (isps : Isps) (peer isp : ℕ) (view view' : PerIspPeerDistribution F)
    : Type 0 where
  pub well_placed : IsPlaced view'
  pub sized :
      length view'.pid_peers
      ≡ (if length view.peer_to_pid == 0 then (isps.num_pids isp).1 + 1 else length view.pid_peers)
  pub pid : ℤ
  pub filed : FiledAs (length view'.pid_peers) (isps.lookup_pid isp peer).0 pid
  pub looks_up :
      (q : ℕ)
      → pid_of view' q
        ≡ (if not (is_known (pid_of view peer)) && (peer == q) then some pid else pid_of view q)

module _ {F : Type 0} (peer : ℕ) where
  -- Removing a peer succeeds in every well placed view.
  remove_from_views_lem :
      (views : List (ℕ × PerIspPeerDistribution F))
      → AllViews IsPlaced views
      → (views' : List (ℕ × PerIspPeerDistribution F)) × (remove_from_views peer views ≡ ok views')
        × EachView (Leaves peer) views views'
  unfolding remove_from_views
  remove_from_views_lem [] AllViews.nil = ([], refl, EachView.nil)
  remove_from_views_lem ((isp, view) ∷ views) (AllViews.cons v vs) =
      let (view', removes, v', looks_up, _) = remove_peer_lem view peer v in
      let (views', rest, vs') = remove_from_views_lem views vs in
      (
        (isp, view') ∷ views',
        rw (removes, rest, remove_from_views) refl,
        EachView.cons (record { well_placed = v'; looks_up = looks_up }) vs',
      )

  -- Removing a peer while every view is well placed succeeds without undefined behaviour and reports
  -- whether the manager knew it. The manager then has the views of the same ISPs, each well placed
  -- and knowing the peers it knew, under the same PIDs, but not the removed one; and the manager
  -- itself forgets the peer and keeps the others.
  pub remove_peer-AllViews :
      (s : PeerDistributionManager F)
      → AllViews IsPlaced s.views
      → (s' : PeerDistributionManager F) × (remove_peer s peer
          ≡ ok (s', elim (Dict.lookup ◌==◌ peer s.peers) [ none ↦ false | some _ ↦ true ]))
        × EachView (Leaves peer) s.views s'.views
        × ((q : ℕ)
            → Dict.lookup ◌==◌ q s'.peers
              ≡ (if peer == q then none else Dict.lookup ◌==◌ q s.peers))
  unfolding remove_peer
  remove_peer-AllViews s vs =
      let (views', removes, vs') = remove_from_views_lem s.views vs in
      (
        record s { views = views'; peers = Dict.erase ◌==◌ peer s.peers },
        rw (removes, remove_peer) refl,
        vs',
        λ q. Dict.lookup-erase ◌==◌ ==-IsEquivalence peer q s.peers,
      )
