-- ===== src/ClientPeerSelectionLocation/Tests.antt =====
-- Runs and a witness for the choice by location: a client in PID 0 of an ISP with two internal PIDs,
-- with the shares of 70 and 90 percent.
use alto.Prelude.{ℕ, ◌+◌, ◌-◌, ◌*◌, ◌/◌, ◌≡◌, refl, List, [], ◌∷◌, some, if◌then◌else◌, ltb, arith}
use alto.Prelude.Int.{ℤ, pos}
use alto.ClientPeerSelectionLocation.{
  Location, Shares, group, add_to_group, take_from, take_all, select_peers,
}
use alto.ClientPeerSelectionLocation.Choice.{IsChoice, select_peers_lem}

abbrev shares : Shares
shares = record {
  intra_pid = λ n. (n * 7 + 5) / 10;
  intra_isp = λ n prefilled size. (n * 9 + prefilled * 10 + 5 - size * 10) / 10;
}

-- Peers below 40 are in PID 0, those below 50 in PID 1, the others outside.
abbrev lookup : ℕ → ℤ
lookup peer = if ltb peer 40 then pos 0 else if ltb peer 50 then pos 1 else pos 5

abbrev here : Location
here = record { self_pid = pos 0; pidmap = some lookup; intra_isp_pids = 2; shares = shares }

abbrev candidates : List ℕ
candidates = 31 ∷ 41 ∷ 32 ∷ 51 ∷ 33 ∷ 34 ∷ []

-- Always the first of a group.
abbrev rand : ℕ → ℕ
rand k = 0

choice_run : select_peers here rand candidates 4 (99 ∷ []) ≡ (99 ∷ 31 ∷ 34 ∷ 33 ∷ 41 ∷ [], pos 0)
unfolding select_peers take_all take_from group add_to_group
choice_run = refl

-- Three candidates where four are asked for: peer 31 is returned twice.
too_few_run : select_peers here rand (31 ∷ 41 ∷ 51 ∷ []) 4 [] ≡ (31 ∷ 41 ∷ 51 ∷ 31 ∷ [], pos 0)
unfolding select_peers take_all take_from group add_to_group
too_few_run = refl

select_peers_lem_example :
    (result : List ℕ) × (select_peers here rand candidates 4 (99 ∷ []) ≡ (result, pos 0))
    × IsChoice lookup here candidates 4 (99 ∷ []) result
select_peers_lem_example =
    select_peers_lem here lookup rand candidates 4 (99 ∷ []) refl refl refl (omega arith)
      (omega arith) (omega arith) (omega arith) (omega arith) (λ size. omega arith)
