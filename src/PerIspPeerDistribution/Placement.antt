-- ===== src/PerIspPeerDistribution/Placement.antt =====
-- The invariant of the view: the bins hold exactly the known peers, each in the bin of its PID.
use alto.Prelude.{
  ℕ, zero, suc, ◌+◌, ◌<◌, ◌≤◌, ◌^◌, ◌≡◌, refl, ◌∙◌, ◌==◌, Bool, true, false, List, [], ◌∷◌, Option,
  none, some, inl, inr, ltb, length, get_elem?, replicate, if◌then◌else◌, arith, Bool-cases,
  length-replicate,
}
use alto.Prelude.Int.{ℤ, pos}
use alto.Prelude.Words.{Floats, add_u32, add_u32-pos}
use alto.Prelude.Order.{equiv, ltb-IsStrictWeak}
use alto.Prelude.Dict
use alto.RandomAccessSet
use alto.RandomAccessSet.{RandomAccessSet, find}
use alto.RandomAccessSet.Index.{IsIndexed, has, init-IsIndexed}
use alto.PerIspPeerDistribution.{PerIspPeerDistribution, bin_index, allocate, no_peers}

abbrev pub pid_of : {F : Type 0} → PerIspPeerDistribution F → ℕ → Option ℤ
pid_of s peer = Dict.lookup ◌==◌ peer s.peer_to_pid

-- Whether a peer with that PID, if it has one, belongs to bin `i` of `size`.
abbrev pub belongs : ℕ → ℕ → Option ℤ → Bool
belongs size i none = false
belongs size i (some pid) = bin_index size pid == i

module _ {F : Type 0} where
  pub record IsPlaced (s : PerIspPeerDistribution F) : Type 0 where
    pub indexed :
        (i : ℕ) (bin : RandomAccessSet ℕ) → get_elem? s.pid_peers i ≡ some bin → IsIndexed ltb bin
    -- A bin holds exactly the peers that the map sends to it.
    pub placed :
        (i : ℕ) (bin : RandomAccessSet ℕ) (peer : ℕ)
        → get_elem? s.pid_peers i ≡ some bin
        → has ltb bin peer ≡ belongs (length s.pid_peers) i (pid_of s peer)
    -- A PID of its own has a bin other than the last one.
    pub in_range : (peer n : ℕ) → pid_of s peer ≡ some (pos n) → n + 1 < length s.pid_peers
    pub allocated : (length s.peer_to_pid == 0) ≡ false → 0 < length s.pid_peers
    pub small : length s.pid_peers ≤ 2 ^ 31

  -- A view without peers is well placed.
  pub no_peers-IsPlaced : IsPlaced no_peers
  unfolding Dict.lookup
  no_peers-IsPlaced = record {
    indexed = λ i bin h. cc;
    placed = λ i bin peer h. cc;
    in_range = λ peer n h. cc;
    allocated = λ h. cc;
    small = omega arith;
  }

get_elem?-replicate {ℓ} :
    {A : Type ℓ} (n : ℕ) (a b : A) (i : ℕ) → get_elem? (replicate n a) i ≡ some b → a ≡ b
get_elem?-replicate zero a b i h = cc
get_elem?-replicate (suc n) a b zero h = ground (arith, h)
get_elem?-replicate (suc n) a b (suc i) h = get_elem?-replicate n a b i h

pub nil_lookup {ℓ} :
    {V : Type ℓ} (m : List (ℕ × V)) (k : ℕ) → (length m == 0) ≡ true → Dict.lookup ◌==◌ k m ≡ none
unfolding Dict.lookup
nil_lookup [] k h = refl
nil_lookup (x ∷ m) k h = absurd (ground (arith, h))

-- `ltb` identifies equal numbers only.
pub equiv-ltb : (a b : ℕ) → equiv ltb a b ≡ (a == b)
unfolding equiv
equiv-ltb a b = ground arith

has-init : (peer : ℕ) → has ltb RandomAccessSet.init peer ≡ false
unfolding has find Dict.lookup
has-init peer = refl

module _ (floats : Floats {0}) where
  open floats use {F}

  -- Allocating keeps the view well placed, gives it its bins, and forgets no peer.
  pub allocate_lem :
      (num_total_pids : ℕ) (s : PerIspPeerDistribution F)
      → num_total_pids < 2 ^ 31
      → IsPlaced s
      → IsPlaced (allocate floats num_total_pids s)
        × (0 < length (allocate floats num_total_pids s).pid_peers)
        × ((allocate floats num_total_pids s).peer_to_pid ≡ s.peer_to_pid)
        × (length (allocate floats num_total_pids s).pid_peers
            ≡ (if length s.peer_to_pid == 0 then num_total_pids + 1 else length s.pid_peers))
  allocate_lem n s h v = elim (Bool-cases (length s.peer_to_pid == 0)) [
    | inr some_peer ↦ rw (some_peer) (v, v.allocated some_peer, refl, refl)
    | inl no_peer ↦
        let size = add_u32-pos n 1 (omega arith) in
        let bins : List (RandomAccessSet ℕ) = replicate (add_u32 n (pos 1)) RandomAccessSet.init in
        let len : length bins ≡ n + 1 = length-replicate _ _ ∙ size in
        rw (no_peer) (
          record {
            indexed = λ i bin e.
                rw (← get_elem?-replicate _ _ bin i e) (init-IsIndexed ltb ltb-IsStrictWeak);
            placed = λ i bin peer e.
                rw
                  (
                    ← get_elem?-replicate _ _ bin i e,
                    has-init peer,
                    nil_lookup s.peer_to_pid peer no_peer,
                  )
                  refl;
            in_range =
                λ peer k e. absurd (ground (arith, nil_lookup s.peer_to_pid peer no_peer, e));
            allocated = λ e. absurd (ground (arith, no_peer, e));
            small = omega (arith, len);
          },
          omega (arith, len),
          refl,
          len,
        )
  ]
