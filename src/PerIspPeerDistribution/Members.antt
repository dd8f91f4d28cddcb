-- ===== src/PerIspPeerDistribution/Members.antt =====
-- Adding and removing peers keeps every peer in the bin of its PID, and never reads out of bounds.
use mathlib.Core.Path.{subst}
use alto.Prelude.{
  ℕ, zero, suc, ◌+◌, ◌-◌, ◌<◌, ◌≤◌, ◌^◌, ◌≡◌, ◌∙◌, ◌⊎◌, refl, ◌==◌, Bool, true, false, not, ◌&&◌,
  List, Option, none, some, inl, inr, ltb, length, get_elem?, set, if◌then◌else◌, arith, Bool-cases,
  Option-cases, get_elem?-set, length-set, lt_of_get_elem?, get_elem?_lt,
}
use alto.Prelude.Int.{ℤ, pos, negsuc}
use alto.Prelude.Words.{Floats, size_pred}
use alto.Prelude.Run.{ok}
use alto.Prelude.Order.{ltb-IsStrictWeak, ==-IsEquivalence}
use alto.Prelude.Dict
use alto.RandomAccessSet
use alto.RandomAccessSet.{RandomAccessSet, find}
use alto.RandomAccessSet.Index.{IsIndexed, has}
use alto.RandomAccessSet.Contents.{has-push_back, push_back-IsIndexed}
use alto.SwarmState.{SwarmState, err_unknown_pid}
use alto.PerIspPeerDistribution.{
  PerIspPeerDistribution, PeerStats, bin_index, bin_of, known_pid, allocate, insert_peer, count_in,
  add_peer_internal,
}
use alto.PerIspPeerDistribution.Placement.{IsPlaced, pid_of, belongs, allocate_lem, equiv-ltb}

module _ {F : Type 0} where
  abbrev pub replaced :
      PerIspPeerDistribution F
      → ℕ
      → RandomAccessSet ℕ
      → List (ℕ × ℤ)
      → SwarmState F
      → PerIspPeerDistribution F
  replaced s idx bin' m swarm = record {
    peer_to_pid = m;
    pid_peers = set s.pid_peers idx bin';
    swarm_state = swarm;
  }

  -- Replacing the bin of one peer and its entry in the map keeps the view well placed, if the new
  -- bin differs from the old one in that peer only.
  module _ (s : PerIspPeerDistribution F) (v : IsPlaced s) (peer idx : ℕ)
      (bin bin' : RandomAccessSet ℕ) (m : List (ℕ × ℤ)) (entry : Option ℤ)
      (at_idx : get_elem? s.pid_peers idx ≡ some bin) (v' : IsIndexed ltb bin')
      (changes : (q : ℕ)
        → has ltb bin' q
          ≡ (if peer == q then belongs (length s.pid_peers) idx entry else has ltb bin q))
      (looks_up : (q : ℕ) → Dict.lookup ◌==◌ q m ≡ (if peer == q then entry else pid_of s q))
      (elsewhere : (i : ℕ)
        → (idx == i) ≡ false
        → (belongs (length s.pid_peers) i entry ≡ false)
          × (belongs (length s.pid_peers) i (pid_of s peer) ≡ false))
      (in_range : (n : ℕ) → entry ≡ some (pos n) → n + 1 < length s.pid_peers)
      (swarm : SwarmState F) where
    pub replaced-IsPlaced : IsPlaced (replaced s idx bin' m swarm)
    replaced-IsPlaced =
        let below = lt_of_get_elem? s.pid_peers idx bin at_idx in
        let reads = λ (i : ℕ). get_elem?-set s.pid_peers idx i bin' below in
        let same_size = length-set s.pid_peers idx bin' in
        record {
          indexed = λ i b e. elim (Bool-cases (idx == i)) [
            | inl here ↦
                let is_new : bin' ≡ b = ground (arith, reads i, here, e) in
                subst (IsIndexed ltb) is_new v'
            | inr other ↦ v.indexed i b (ground (arith, reads i, other, e))
          ];
          placed = λ i b q e.
              rw (same_size, looks_up q)
                (elim (Bool-cases (idx == i)) [
                  | inl here ↦
                      let is_new : bin' ≡ b = ground (arith, reads i, here, e) in
                      rw (← is_new, changes q) (ground (arith, here, v.placed idx bin q at_idx))
                  | inr other ↦ ground (arith, reads i, other, e, elsewhere i other, v.placed i b q)
                ]);
          in_range =
              λ q n e. rw (same_size) (ground (arith, looks_up q, e, in_range n, v.in_range q n));
          allocated = λ _. rw (same_size) (omega (arith, below));
          small = rw (same_size) v.small;
        }

size_pred_lem : (n : ℕ) → 0 < n → size_pred n ≡ n - 1
unfolding size_pred
size_pred_lem zero h = absurd (omega arith)
size_pred_lem (suc n) h = omega arith

-- In a view with bins, a negative PID stands for the last one.
pub bin_of_lem :
    (size : ℕ) (pid : ℤ) → 0 < size → size ≤ 2 ^ 31 → bin_of size pid ≡ pos (bin_index size pid)
bin_of_lem size (pos n) h m = refl
bin_of_lem size (negsuc n) h m = rw (size_pred_lem size h) (ground arith)

pub bin_index_lt :
    (size : ℕ) (pid : ℤ)
    → 0 < size
    → ((n : ℕ) → pid ≡ pos n → n + 1 < size)
    → bin_index size pid < size
bin_index_lt size (pos n) h r = omega (arith, r n refl)
bin_index_lt size (negsuc n) h r = omega (arith, size_pred_lem size h)

-- A PID that passes the range check has a bin other than the last.
known_pid_lt : (size : ℕ) (pid : ℤ) (n : ℕ) → 0 < size → known_pid size pid ≡ pos n → n + 1 < size
known_pid_lt size (pos k) n h e = ground (arith, size_pred_lem size h)
known_pid_lt size (negsuc k) n h e = ground (arith, size_pred_lem size h)

-- The PID that a peer ends up under: the one asked for if it has a bin of its own, a negative one as
-- it is, and the unknown one for any other.
abbrev pub FiledUnder : ℕ → ℤ → ℤ → Type 0
FiledUnder size (negsuc n) p = p ≡ negsuc n
FiledUnder size (pos n) p =
    ((n + 1 < size) × (p ≡ pos n)) ⊎ ((size ≤ n + 1) × (p ≡ err_unknown_pid))

known_pid-FiledUnder : (size : ℕ) (pid : ℤ) → 0 < size → FiledUnder size pid (known_pid size pid)
known_pid-FiledUnder size (negsuc n) h = ground arith
known_pid-FiledUnder size (pos n) h = elim (Bool-cases (ltb (n + 1) size)) [
  | inl own ↦ inl (ground (arith, own), ground (arith, own, size_pred_lem size h))
  | inr out ↦ inr (ground (arith, out), ground (arith, out, size_pred_lem size h))
]

unfoldable pub is_known : Option ℤ → Bool
is_known none = false
is_known (some _) = true

module _ (floats : Floats {0}) where
  open floats use {F}

  insert_fresh :
      (s : PerIspPeerDistribution F) (peer : ℕ) (pid : ℤ) (stats : PeerStats F)
      → IsPlaced s
      → 0 < length s.pid_peers
      → ((n : ℕ) → pid ≡ pos n → n + 1 < length s.pid_peers)
      → pid_of s peer ≡ none
      → (s' : PerIspPeerDistribution F) × (insert_peer floats s peer pid stats ≡ ok (s', true))
        × IsPlaced s'
        × ((q : ℕ) → pid_of s' q ≡ (if peer == q then some pid else pid_of s q))
        × (length s'.pid_peers ≡ length s.pid_peers)
  unfolding insert_peer
  insert_fresh s peer pid stats v nonempty range fresh =
      let size = length s.pid_peers in
      let idx = bin_index size pid in
      let (bin, at_idx) = get_elem?_lt s.pid_peers idx (bin_index_lt size pid nonempty range) in
      let bin' = (RandomAccessSet.push_back ltb bin peer).0 in
      let looks_up = λ (q : ℕ). Dict.lookup-assign ◌==◌ ==-IsEquivalence peer q pid s.peer_to_pid in
      (
        replaced s idx bin' (Dict.assign ◌==◌ peer pid s.peer_to_pid)
            (count_in floats s.swarm_state pid stats),
        rw (fresh, at_idx, insert_peer) refl,
        replaced-IsPlaced s v peer idx bin bin' (Dict.assign ◌==◌ peer pid s.peer_to_pid) (some pid)
            at_idx (push_back-IsIndexed ltb ltb-IsStrictWeak bin peer (v.indexed idx bin at_idx))
            (λ q.
              ground (arith, (has-push_back ltb ltb-IsStrictWeak bin peer q).0, equiv-ltb peer q))
            looks_up (λ i other. (other, rw (fresh) refl)) (λ n e. range n (ground (arith, e)))
            (count_in floats s.swarm_state pid stats),
        looks_up,
        length-set s.pid_peers idx bin',
      )

  -- Adding a peer to a well placed view succeeds without undefined behaviour, reports whether the
  -- peer was new, and keeps the view well placed. A view without peers then has a bin for each PID
  -- and one more, any other as many as before. A new peer is put under its PID if that is negative
  -- or has a bin other than the last, and under the unknown one else; a known peer keeps its PID,
  -- and so does every other.
  pub add_peer_internal_lem :
      (num_total_pids : ℕ) (s : PerIspPeerDistribution F) (peer : ℕ) (pid : ℤ) (stats : PeerStats F)
      → num_total_pids < 2 ^ 31
      → IsPlaced s
      → (s' : PerIspPeerDistribution F) × (p : ℤ) × (add_peer_internal floats num_total_pids s peer
            pid stats
          ≡ ok (s', not (is_known (pid_of s peer))))
        × IsPlaced s'
        × (length s'.pid_peers
            ≡ (if length s.peer_to_pid == 0 then num_total_pids + 1 else length s.pid_peers))
        × FiledUnder (length s'.pid_peers) pid p
        × ((q : ℕ)
            → pid_of s' q
              ≡ (if not (is_known (pid_of s peer)) && (peer == q) then some p else pid_of s q))
  unfolding add_peer_internal insert_peer is_known
  add_peer_internal_lem num_total_pids s peer pid stats small v =
      let (v1, nonempty, same_map, sized) = allocate_lem floats num_total_pids s small v in
      let s1 = allocate floats num_total_pids s in
      let p = known_pid (length s1.pid_peers) pid in
      let filed = known_pid-FiledUnder (length s1.pid_peers) pid nonempty in
      elim (Option-cases (pid_of s peer)) [
        | inr (old, known) ↦ (
          s1,
          p,
          rw (same_map, known, insert_peer, add_peer_internal, is_known) refl,
          v1,
          sized,
          filed,
          λ q. rw (same_map, known, is_known) refl,
        )
        | inl fresh ↦
            let (s2, inserts, v2, looks_up, same_size) =
              insert_fresh s1 peer p stats v1 nonempty
                (λ n e. known_pid_lt (length s1.pid_peers) pid n nonempty e)
                (rw (same_map) fresh) in
            (
              s2,
              p,
              rw (fresh, is_known) inserts,
              v2,
              same_size ∙ sized,
              rw (same_size) filed,
              λ q. rw (looks_up q, same_map, fresh, is_known) refl,
            )
      ]
