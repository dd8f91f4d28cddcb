-- ===== src/PidPeerSelectionHelper/Tests.antt =====
-- Runs and witnesses for the selection: a view of two PIDs with three and with five peers.
use alto.Prelude.{
  ℕ, zero, suc, ◌+◌, ◌<◌, ◌≡◌, ◌⊎◌, refl, true, List, [], ◌∷◌, ◌++◌, Option, none, some, get_elem?,
  arith,
}
use mathlib.Core.Path.{subst}
use alto.Prelude.Int.{ℤ, pos, negsuc, ◌-ℤ◌}
use alto.Prelude.Run.{Run, ok, fault, ◌>>=◌}
use alto.RandomAccessSet.{RandomAccessSet}
use alto.SwarmState.{err_unknown_pid}
use alto.PerIspPeerDistribution.{
  PerIspPeerDistribution, list_pid_peers, get_num_peers, get_random_peer, at_int,
}
use alto.PidPeerSelectionHelper.{
  PidPeerSelectionHelper, PidInfo, new, new_info, infos, is_selected, choose_strategy, select_copy,
  select_nocopy, draw, select_in, select_peer, select_peer_of,
}
use alto.PidPeerSelectionHelper.Fresh.{IsDistinct}
use alto.PidPeerSelectionHelper.Copying.{IsDrained}
use alto.PidPeerSelectionHelper.Entry.{select_each}
use alto.PidPeerSelectionHelper.Selections.{copy_drains, nocopy_ends, starts-IsDrawing, IsDrawing}
use alto.PidPeerSelectionHelper.Groups.{
  AreCounted, all_left, select_peer_of_lem, unknown_pid_faults,
}

abbrev bin_of_three : RandomAccessSet ℕ
bin_of_three = record { vec_index = []; vec = 11 ∷ 12 ∷ 13 ∷ [] }

abbrev bin_of_five : RandomAccessSet ℕ
bin_of_five = record { vec_index = []; vec = 21 ∷ 22 ∷ 23 ∷ 24 ∷ 25 ∷ [] }

abbrev view : PerIspPeerDistribution ℕ
view = record {
  peer_to_pid = [];
  pid_peers = bin_of_three ∷ bin_of_five ∷ record { vec_index = []; vec = [] } ∷ [];
  swarm_state = record { pids = [] };
}

abbrev helper : PidPeerSelectionHelper ℕ
helper = new view 2 1

lists :
    (list_pid_peers view (pos 0) [] ≡ (bin_of_three.vec, true))
    × (list_pid_peers view (pos 1) [] ≡ (bin_of_five.vec, true))
unfolding list_pid_peers
lists = (refl, refl)

abbrev four_calls : List (ℕ × List ℕ)
four_calls = (4, []) ∷ (0, []) ∷ (7, []) ∷ (1, []) ∷ []

-- The peers that some calls return.
abbrev returned_by : Run (PidPeerSelectionHelper ℕ × List (Option ℕ)) → Run (List (Option ℕ))
returned_by r = r >>= (λ p. ok p.1)

copy_run :
    returned_by (select_each helper (pos 0) four_calls)
    ≡ ok (some 12 ∷ some 11 ∷ some 13 ∷ none ∷ [])
unfolding select_each select_peer select_in choose_strategy select_copy infos get_num_peers
    list_pid_peers ◌-ℤ◌
copy_run = refl

-- With five peers and one to select, a value of rand() that gives a selected peer is passed over.
nocopy_run :
    returned_by (select_each helper (pos 1) ((0, 3 ∷ []) ∷ (0, 3 ∷ 8 ∷ 4 ∷ []) ∷ []))
    ≡ ok (some 24 ∷ some 25 ∷ [])
unfolding select_each select_peer select_in choose_strategy select_nocopy draw is_selected infos
    get_num_peers get_random_peer ◌-ℤ◌
nocopy_run = refl

copy_drains_example :
    (s' : PidPeerSelectionHelper ℕ) × (returned : List (Option ℕ)) × (select_each helper
        (pos 0)
        four_calls
      ≡ ok (s', returned))
    × IsDrained returned (11 ∷ 12 ∷ 13 ∷ []) 4
copy_drains_example =
    copy_drains view 0 2 1 (11 ∷ 12 ∷ 13 ∷ []) lists.0 (omega arith) (omega arith) (omega arith)
      (omega arith) (omega arith) four_calls

five-IsDistinct : IsDistinct bin_of_five.vec
five-IsDistinct i j x a b = apart i j x a b
  where
    -- An index is known from its peer.
    place : (i x : ℕ) → get_elem? bin_of_five.vec i ≡ some x → i + 21 ≡ x
    place zero x a = ground (arith, a)
    place (suc zero) x a = ground (arith, a)
    place (suc (suc zero)) x a = ground (arith, a)
    place (suc (suc (suc zero))) x a = ground (arith, a)
    place (suc (suc (suc (suc zero)))) x a = ground (arith, a)
    place (suc (suc (suc (suc (suc i))))) x a = absurd (ground (arith, a))

    apart :
        (i j x : ℕ)
        → get_elem? bin_of_five.vec i ≡ some x
        → get_elem? bin_of_five.vec j ≡ some x
        → i ≡ j
    apart i j x a b = omega (arith, place i x a, place j x b)

drawing : IsDrawing helper (pos 1) bin_of_five.vec []
drawing =
    starts-IsDrawing view 1 2 1 bin_of_five.vec lists.1 (omega arith) (omega arith) (omega arith)
      (omega arith)

nocopy_ends_example :
    (rand : ℕ) × ((first : ℕ) (before after : List ℕ)
      → (peer : ℕ) × (s' : PidPeerSelectionHelper ℕ) × (select_peer helper
            (pos 1)
            first
            (before ++ (rand ∷ after))
          ≡ ok (s', some peer))
        × IsDrawing s' (pos 1) bin_of_five.vec (peer ∷ []))
nocopy_ends_example =
    nocopy_ends helper (pos 1) bin_of_five.vec [] five-IsDistinct drawing (omega arith)

abbrev left : ℤ → ℕ
left (pos zero) = 3
left (pos (suc n)) = 5
left (negsuc n) = 0

both-AreCounted : AreCounted helper.pidinfo left (pos 0 ∷ pos 1 ∷ [])
unfolding infos get_num_peers
both-AreCounted = record { entry = at }
  where
    at :
        (i : ℕ) (pid : ℤ)
        → get_elem? (pos 0 ∷ pos 1 ∷ []) i ≡ some pid
        → (info : PidInfo) × (at_int helper.pidinfo pid ≡ some info)
          × (info.num_peers ≡ pos (left pid))
    at zero pid e =
        let same : pos 0 ≡ pid = ground (arith, e) in
        subst
          (λ (p : ℤ).
            (info : PidInfo) × (at_int helper.pidinfo p ≡ some info)
            × (info.num_peers ≡ pos (left p)))
          same (new_info (pos 3), refl, refl)
    at (suc zero) pid e =
        let same : pos 1 ≡ pid = ground (arith, e) in
        subst
          (λ (p : ℤ).
            (info : PidInfo) × (at_int helper.pidinfo p ≡ some info)
            × (info.num_peers ≡ pos (left p)))
          same (new_info (pos 5), refl, refl)
    at (suc (suc i)) pid e = absurd (ground (arith, e))

select_peer_of_lem_example :
    ((all_left left (pos 0 ∷ pos 1 ∷ []) ≡ 0)
      × (select_peer_of helper (pos 0 ∷ pos 1 ∷ []) 4 0 [] ≡ ok (helper, none)))
    ⊎ ((i : ℕ) × (picked : ℤ) × (get_elem? (pos 0 ∷ pos 1 ∷ []) i ≡ some picked)
        × (0 < left picked)
        × (select_peer_of helper (pos 0 ∷ pos 1 ∷ []) 4 0 [] ≡ select_peer helper picked 0 []))
select_peer_of_lem_example =
    select_peer_of_lem helper (pos 0 ∷ pos 1 ∷ []) left 4 0 [] both-AreCounted
      (unfold all_left in omega arith)

unknown_pid_faults_example : select_peer_of helper (pos 0 ∷ err_unknown_pid ∷ []) 4 0 [] ≡ fault
unknown_pid_faults_example = unknown_pid_faults helper (pos 0 ∷ err_unknown_pid ∷ []) 1 4 0 [] refl
