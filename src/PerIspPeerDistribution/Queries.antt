-- ===== src/PerIspPeerDistribution/Queries.antt =====
-- What the view lists and draws for a PID: the peers that the map puts there, and no other.
use alto.Prelude.{
  ◌++◌, ℕ, ◌%◌, ◌≡◌, refl, true, List, some, inl, inr, ltb, length, get_elem?, arith, Option-cases,
  lt_of_get_elem?, get_elem?_lt,
}
use alto.Prelude.Int.{ℤ}
use alto.Prelude.Words.{to_i32}
use alto.Prelude.Order.{ltb-IsStrictWeak}
use alto.RandomAccessSet.{RandomAccessSet, find}
use alto.RandomAccessSet.Index.{index_unique, has}
use alto.PerIspPeerDistribution.{
  PerIspPeerDistribution, bin_index, list_pid_peers, get_num_peers, get_random_peer, bin_at,
}
use alto.PerIspPeerDistribution.Placement.{IsPlaced, pid_of, equiv-ltb}
use alto.PerIspPeerDistribution.Removal.{bin_exists}

module _ {F : Type 0} where
  -- The PID that a peer is under has the same bin as `pid`.
  pub IsBeside : PerIspPeerDistribution F → ℤ → ℕ → Type 0
  IsBeside s pid peer =
      (p : ℤ) × (pid_of s peer ≡ some p)
      × (bin_index (length s.pid_peers) p ≡ bin_index (length s.pid_peers) pid)

  module _ (s : PerIspPeerDistribution F) (known : ℕ) (pid : ℤ) (v : IsPlaced s)
      (at_pid : pid_of s known ≡ some pid) where
    abbrev pub bin : RandomAccessSet ℕ
    bin = (bin_exists s known pid v at_pid).0

    at_bin : get_elem? s.pid_peers (bin_index (length s.pid_peers) pid) ≡ some bin
    at_bin = (bin_exists s known pid v at_pid).1

    pub finds_bin : bin_at s pid ≡ some bin
    finds_bin =
        let below = lt_of_get_elem? s.pid_peers (bin_index (length s.pid_peers) pid) bin at_bin in
        rw ((bin_exists s known pid v at_pid).2) (ground (arith, v.small, below, at_bin))

    member-IsBeside : (i peer : ℕ) → get_elem? bin.vec i ≡ some peer → IsBeside s pid peer
    unfolding IsBeside has find
    member-IsBeside i peer e =
        let idx = bin_index (length s.pid_peers) pid in
        let held : has ltb bin peer ≡ true =
          ground (arith, (v.indexed idx bin at_bin).indexed i peer e) in
        elim (Option-cases (pid_of s peer)) [
          | inl gone ↦ absurd (ground (arith, v.placed idx bin peer at_bin, held, gone))
          | inr (p, e') ↦ (p, e', ground (arith, v.placed idx bin peer at_bin, held, e'))
        ]

    beside_member : (peer : ℕ) → IsBeside s pid peer → (i : ℕ) × (get_elem? bin.vec i ≡ some peer)
    unfolding IsBeside has find
    beside_member peer (p, e, same) =
        let idx = bin_index (length s.pid_peers) pid in
        elim (Option-cases (find ltb bin peer)) [
          | inl gone ↦ absurd (ground (arith, v.placed idx bin peer at_bin, gone, e, same))
          | inr (i, found) ↦
              let (y, at_i, same_y) = (v.indexed idx bin at_bin).placed peer i found in
              (i, ground (arith, at_i, same_y, equiv-ltb y peer))
        ]

    -- In a well placed view, for a PID that some peer is under, listPIDPeers succeeds and appends
    -- exactly the peers that are in its bin: each one of them once, and no other. getNumPeers
    -- answers their number as an int.
    pub list_pid_peers_lem :
        (out_peers : List ℕ)
        → (listed : List ℕ) × (list_pid_peers s pid out_peers ≡ (out_peers ++ listed, true))
          × (get_num_peers s pid ≡ to_i32 (length listed))
          × ((i peer : ℕ) → get_elem? listed i ≡ some peer → IsBeside s pid peer)
          × ((peer : ℕ) → IsBeside s pid peer → (i : ℕ) × (get_elem? listed i ≡ some peer))
          × ((i j peer : ℕ)
              → get_elem? listed i ≡ some peer
              → get_elem? listed j ≡ some peer
              → i ≡ j)
    unfolding list_pid_peers get_num_peers
    list_pid_peers_lem out_peers = (
      bin.vec,
      rw (finds_bin, list_pid_peers) refl,
      rw (finds_bin, get_num_peers) refl,
      member-IsBeside,
      beside_member,
      λ i j peer at_i at_j.
          index_unique ltb ltb-IsStrictWeak i j peer peer
            (v.indexed (bin_index (length s.pid_peers) pid) bin at_bin) at_i at_j
            (ground (arith, equiv-ltb peer peer)),
    )

    -- In a well placed view, for a PID that some peer is under, getRandomPeer returns a peer,
    -- whatever number rand() gives, and that peer is in the bin of the PID.
    pub get_random_peer_lem :
        (rand : ℕ) → (peer : ℕ) × (get_random_peer s pid rand ≡ some peer) × IsBeside s pid peer
    unfolding get_random_peer IsBeside
    get_random_peer_lem rand =
        let (i, at_known) = beside_member known (pid, at_pid, refl) in
        let some_peer = lt_of_get_elem? bin.vec i known at_known in
        let (peer, drawn) = get_elem?_lt bin.vec (rand % length bin.vec) (ground arith) in
        (
          peer,
          rw (finds_bin, get_random_peer) (ground (arith, drawn, some_peer)),
          member-IsBeside (rand % length bin.vec) peer drawn,
        )
