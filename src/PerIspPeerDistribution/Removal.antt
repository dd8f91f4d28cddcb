-- ===== src/PerIspPeerDistribution/Removal.antt =====
-- Removing peers, and what the view lists afterwards.
use alto.Prelude.{
  ◌⊎◌, ℕ, ◌≡◌, refl, ◌∙◌, sym, ap, ◌==◌, false, List, [], ◌∷◌, none, some, inl, inr, ltb, length,
  get_elem?, if◌then◌else◌, arith, Bool-cases, Option-cases, get_elem?_lt, length-set,
}
use alto.Prelude.Int.{ℤ, pos}
use alto.Prelude.Run.{ok}
use alto.Prelude.Order.{ltb-IsStrictWeak, ==-IsEquivalence}
use alto.Prelude.Dict
use alto.RandomAccessSet.{RandomAccessSet}
use alto.RandomAccessSet.Erase.{has-erase}
use alto.PerIspPeerDistribution.{PerIspPeerDistribution, bin_index, bin_of, no_peers, remove_peer}
use alto.PerIspPeerDistribution.Placement.{
  IsPlaced, pid_of, no_peers-IsPlaced, equiv-ltb, nil_lookup,
}
use alto.PerIspPeerDistribution.Members.{
  replaced, replaced-IsPlaced, bin_of_lem, bin_index_lt, is_known,
}

lookup_nonempty :
    (m : List (ℕ × ℤ)) (k : ℕ) (p : ℤ) → Dict.lookup ◌==◌ k m ≡ some p → (length m == 0) ≡ false
unfolding Dict.lookup
lookup_nonempty [] k p h = cc
lookup_nonempty (x ∷ m) k p h = ground arith

-- A map that is not empty knows some peer.
some_known :
    (m : List (ℕ × ℤ))
    → (length m == 0) ≡ false
    → (k : ℕ) × (p : ℤ) × (Dict.lookup ◌==◌ k m ≡ some p)
unfolding Dict.lookup
some_known [] h = absurd (ground (arith, h))
some_known ((k, p) ∷ m) h = (k, p, ground arith)

module _ {F : Type 0} where
  -- A PID that the map holds is in range of the bins.
  pub bin_exists :
      (s : PerIspPeerDistribution F) (peer : ℕ) (pid : ℤ)
      → IsPlaced s
      → pid_of s peer ≡ some pid
      → (bin : RandomAccessSet ℕ) × (get_elem? s.pid_peers (bin_index (length s.pid_peers) pid)
          ≡ some bin)
        × (bin_of (length s.pid_peers) pid ≡ pos (bin_index (length s.pid_peers) pid))
  bin_exists s peer pid v known =
      let nonempty = v.allocated (lookup_nonempty s.peer_to_pid peer pid known) in
      let range =
        bin_index_lt (length s.pid_peers) pid nonempty
          (λ n e. v.in_range peer n (known ∙ ap some e)) in
      let (bin, at_idx) = get_elem?_lt s.pid_peers (bin_index (length s.pid_peers) pid) range in
      (bin, at_idx, bin_of_lem (length s.pid_peers) pid nonempty v.small)

  -- Removing a peer from a well placed view succeeds without undefined behaviour, reports whether
  -- the peer was known, and keeps the view well placed, without that peer and with every other
  -- under the PID it had. Of three cases that exclude one another, one holds: the peer was unknown
  -- and nothing changes; or it was known, another peer is left, and the bins are as many and the
  -- swarm's statistics the same as before, the removed peer counted in; or it was known, no peer is
  -- left, and the map, the bins and the statistics are all empty.
  pub remove_peer_lem :
      (s : PerIspPeerDistribution F) (peer : ℕ)
      → IsPlaced s
      → (s' : PerIspPeerDistribution F) × (remove_peer s peer ≡ ok (s', is_known (pid_of s peer)))
        × IsPlaced s'
        × ((q : ℕ) → pid_of s' q ≡ (if peer == q then none else pid_of s q))
        × (((pid_of s peer ≡ none) × (s' ≡ s))
            ⊎ ((pid other : ℤ) × (q : ℕ) × (pid_of s peer ≡ some pid)
                × (pid_of s' q ≡ some other)
                × (length s'.pid_peers ≡ length s.pid_peers)
                × (s'.swarm_state ≡ s.swarm_state))
            ⊎ ((pid : ℤ) × (pid_of s peer ≡ some pid)
                × ((q : ℕ) → pid_of s' q ≡ none)
                × (s'.peer_to_pid ≡ [])
                × (s'.pid_peers ≡ [])
                × (s'.swarm_state.pids ≡ [])))
  unfolding remove_peer is_known Dict.lookup
  remove_peer_lem s peer v = elim (Option-cases (pid_of s peer)) [
    | inl unknown ↦ (
      s,
      rw (unknown, remove_peer, is_known) refl,
      v,
      λ q. ground (arith, unknown),
      inl (unknown, refl),
    )
    | inr (pid, known) ↦
        let idx = bin_index (length s.pid_peers) pid in
        let (bin, at_idx, is_idx) = bin_exists s peer pid v known in
        let (bin', erases, v', changes) =
          has-erase ltb ltb-IsStrictWeak bin peer (v.indexed idx bin at_idx) in
        let m = Dict.erase ◌==◌ peer s.peer_to_pid in
        let looks_up = λ (q : ℕ). Dict.lookup-erase ◌==◌ ==-IsEquivalence peer q s.peer_to_pid in
        let placed =
          replaced-IsPlaced s v peer idx bin bin' m none at_idx v'
            (λ q. changes q ∙ ground (arith, equiv-ltb peer q)) looks_up
            (λ i other. (refl, rw (known) other)) (λ n e. cc) s.swarm_state in
        elim (Bool-cases (length m == 0)) [
          | inl last ↦ (
            no_peers,
            rw (known, is_idx, at_idx, erases, last, remove_peer, is_known) refl,
            no_peers-IsPlaced,
            λ q. sym (nil_lookup m q last) ∙ looks_up q,
            inr (inr (pid, known, λ q. refl, refl, refl, refl)),
          )
          | inr left ↦
              let (q, other, at_q) = some_known m left in
              (
                replaced s idx bin' m s.swarm_state,
                rw (known, is_idx, at_idx, erases, left, remove_peer, is_known) refl,
                placed,
                looks_up,
                inr (inl (pid, other, q, known, at_q, length-set s.pid_peers idx bin', refl)),
              )
        ]
  ]
