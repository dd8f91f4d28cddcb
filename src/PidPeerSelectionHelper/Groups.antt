-- ===== src/PidPeerSelectionHelper/Groups.antt =====
-- selectPeer for several PIDs.
use alto.Prelude.{
  ℕ, zero, suc, ◌+◌, ◌-◌, ◌%◌, ◌^◌, ◌<◌, ◌≡◌, ◌∙◌, ◌⊎◌, refl, ap, List, [], ◌∷◌, none, some, inl,
  inr, ltb, get_elem?, arith, Bool-cases, Option-cases,
}
use alto.Prelude.Int.{ℤ, pos, ◌+ℤ◌, ◌-ℤ◌}
use alto.Prelude.Words.{as_i32, is_i32, as_i32-pos, as_i32-sub}
use alto.Prelude.Run.{ok, fault}
use alto.SwarmState.{err_unknown_pid}
use alto.PerIspPeerDistribution.{at_int}
use alto.PidPeerSelectionHelper.{
  PidPeerSelectionHelper, PidInfo, sum_peers, pick_pid, select_peer, select_peer_of,
}

-- The peers left in all of some PIDs.
unfoldable pub all_left : (ℤ → ℕ) → List ℤ → ℕ
all_left left [] = 0
all_left left (pid ∷ pids) = left pid + all_left left pids

-- Each of the PIDs has an entry, with so many peers left.
pub record AreCounted (entries : List PidInfo) (left : ℤ → ℕ) (pids : List ℤ) : Type 0 where
  pub entry :
      (i : ℕ) (pid : ℤ)
      → get_elem? pids i ≡ some pid
      → (info : PidInfo) × (at_int entries pid ≡ some info) × (info.num_peers ≡ pos (left pid))

module _ (entries : List PidInfo) (left : ℤ → ℕ) where
  tail-AreCounted :
      (pid : ℤ) (pids : List ℤ)
      → AreCounted entries left (pid ∷ pids)
      → AreCounted entries left pids
  tail-AreCounted pid pids h = record { entry = λ i p e. h.entry (suc i) p e }

  sum_peers_lem :
      (sum : ℕ) (pids : List ℤ)
      → AreCounted entries left pids
      → sum + all_left left pids < 2 ^ 31
      → sum_peers entries (pos sum) pids ≡ ok (pos (sum + all_left left pids))
  unfolding sum_peers all_left ◌+ℤ◌
  sum_peers_lem sum [] h b = ap (λ (n : ℕ). ok (pos n)) (omega arith)
  sum_peers_lem sum (pid ∷ pids) h b =
      let (info, at, n) = h.entry 0 pid refl in
      let adds : pos sum +ℤ info.num_peers ≡ pos (sum + left pid) = rw (n) (ground arith) in
      rw (at, sum_peers, adds, as_i32-pos (sum + left pid) (omega (arith, b)))
        (sum_peers_lem (sum + left pid) pids (tail-AreCounted pid pids h) (omega (arith, b))
          ∙ ap (λ (k : ℕ). ok (pos k)) (omega arith))

  pick_pid_lem :
      (pid : ℤ) (pids : List ℤ) (coin : ℕ)
      → AreCounted entries left (pid ∷ pids)
      → coin < all_left left (pid ∷ pids)
      → all_left left (pid ∷ pids) < 2 ^ 31
      → (i : ℕ) × (picked : ℤ) × (pick_pid entries pid pids (pos coin) ≡ ok picked)
        × (get_elem? (pid ∷ pids) i ≡ some picked)
        × (0 < left picked)
  unfolding pick_pid all_left ◌-ℤ◌
  pick_pid_lem pid [] coin h c b = (0, pid, refl, refl, omega arith)
  pick_pid_lem pid (next ∷ pids) coin h c b =
      let (info, at, n) = h.entry 0 pid refl in
      let left_over = as_i32-sub coin (left pid) (omega (arith, c, b)) (omega (arith, b)) in
      elim (Bool-cases (ltb coin (left pid))) [
        | inl here ↦ (
          0,
          pid,
          rw (at, pick_pid, n, left_over) (ground (arith, here)),
          refl,
          ground (arith, here),
        )
        | inr further ↦
            let (i, picked, picks, e, some_left) =
              pick_pid_lem next pids (coin - left pid) (tail-AreCounted pid (next ∷ pids) h)
                (ground (arith, further, c)) (omega (arith, b)) in
            (
              suc i,
              picked,
              rw (at, pick_pid, n, left_over) (ground (arith, further, picks)),
              e,
              some_left,
            )
      ]

-- The unknown PID has no entry.
sum_peers_faults :
    (entries : List PidInfo) (sum : ℤ) (pids : List ℤ) (i : ℕ)
    → get_elem? pids i ≡ some err_unknown_pid
    → sum_peers entries sum pids ≡ fault
unfolding sum_peers as_i32
sum_peers_faults entries sum [] i e = absurd (ground (arith, e))
sum_peers_faults entries sum (pid ∷ pids) zero e = ground (arith, e)
sum_peers_faults entries sum (pid ∷ pids) (suc i) e = elim (Option-cases (at_int entries pid)) [
  | inl gone ↦ rw (gone, sum_peers) refl
  | inr (info, at) ↦ elim (Bool-cases (is_i32 (sum +ℤ info.num_peers))) [
    | inl fits ↦
        rw (at, sum_peers, as_i32, fits, sum_peers_faults entries (sum +ℤ info.num_peers) pids i e)
          refl
    | inr overflow ↦ rw (at, sum_peers, as_i32, overflow) refl
  ]
]

module _ {F : Type 0} (s : PidPeerSelectionHelper F) where
  -- Where each of the PIDs has an entry and a count that is not negative, and the counts add up to
  -- less than 2^31, selectPeer for several PIDs returns NULL if no peer is left in any of them;
  -- otherwise, whatever the coin, it selects from one of the PIDs, and from one that has a peer
  -- left.
  pub select_peer_of_lem :
      (pids : List ℤ) (left : ℤ → ℕ) (coin rand : ℕ) (rands : List ℕ)
      → AreCounted s.pidinfo left pids
      → all_left left pids < 2 ^ 31
      → ((all_left left pids ≡ 0) × (select_peer_of s pids coin rand rands ≡ ok (s, none)))
        ⊎ ((i : ℕ) × (picked : ℤ) × (get_elem? pids i ≡ some picked)
            × (0 < left picked)
            × (select_peer_of s pids coin rand rands ≡ select_peer s picked rand rands))
  unfolding select_peer_of
  select_peer_of_lem [] left coin rand rands h b = inl (unfold all_left in refl, refl)
  select_peer_of_lem (pid ∷ pids) left coin rand rands h b =
      let sum = all_left left (pid ∷ pids) in
      let sums : sum_peers s.pidinfo (pos 0) (pid ∷ pids) ≡ ok (pos sum) =
        sum_peers_lem s.pidinfo left 0 (pid ∷ pids) h (omega (arith, b))
        ∙ ap (λ (n : ℕ). ok (pos n)) (omega arith) in
      elim (Bool-cases (ltb 0 sum)) [
        | inr nothing ↦
            inl (ground (arith, nothing), rw (sums, select_peer_of) (ground (arith, nothing)))
        | inl more ↦
            let positive : 0 < sum = ground (arith, more) in
            let (i, picked, picks, e, some_left) =
              pick_pid_lem s.pidinfo left pid pids (coin % sum) h (grind (arith, positive)) b in
            inr (i, picked, e, some_left, rw (sums, select_peer_of) (ground (arith, more, picks)))
      ]

  -- With ERR_UNKNOWN_PID among the PIDs the call is undefined behaviour.
  pub unknown_pid_faults :
      (pids : List ℤ) (i coin rand : ℕ) (rands : List ℕ)
      → get_elem? pids i ≡ some err_unknown_pid
      → select_peer_of s pids coin rand rands ≡ fault
  unfolding select_peer_of
  unknown_pid_faults [] i coin rand rands e = absurd (ground (arith, e))
  unknown_pid_faults (pid ∷ pids) i coin rand rands e =
      rw (sum_peers_faults s.pidinfo (pos 0) (pid ∷ pids) i e, select_peer_of) refl
