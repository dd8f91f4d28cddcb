-- ===== src/PidPeerSelectionHelper.antt =====
-- common/cpp/src/include/p4p/app/detail/pid_peer_selection_helper.h and
-- lib/pid_peer_selection_helper.cpp: the drawing of peers of a PID, none of them twice. The view is
-- locked for reading and does not change; rand() is an argument, and the list of its values is the fuel
-- of the loop that draws again.
pub mod Fresh
pub mod Draws
pub mod Entry
pub mod Copying
pub mod Selections
pub mod Groups
mod Tests
use alto.Prelude.{
  ℕ, zero, suc, ◌+◌, ◌-◌, ◌*◌, ◌%◌, ◌^◌, ◌==◌, Bool, true, false, not, List, [], ◌∷◌, ◌++◌, Option,
  none, some, ltb, length, get_elem?, set, drop_last, if◌then◌else◌,
}
use alto.Prelude.Int.{ℤ, pos, negsuc, pos_part, ltb_ℤ, eq_ℤ, ◌+ℤ◌, ◌-ℤ◌}
use alto.Prelude.Words.{to_u32, to_i32, as_i32}
use alto.Prelude.Run.{Run, ok, fault, out_of_fuel, ◌>>=◌, or_fault}
use alto.SwarmState.{err_unknown_pid}
use alto.PerIspPeerDistribution
use alto.PerIspPeerDistribution.{PerIspPeerDistribution, at_int}

pub data Strategy : Type 0 where
  unknown : Strategy
  copy : Strategy
  nocopy : Strategy

-- A selected peer is `none` where NULL was inserted.
pub record PidInfo : Type 0 where
  pub num_peers : ℤ
  pub strategy : Strategy
  pub candidates : List ℕ
  pub selected : List (Option ℕ)

pub record PidPeerSelectionHelper (F : Type 0) : Type 0 where
  pub isp_peers : PerIspPeerDistribution F
  pub total_peers : ℕ
  pub pidinfo : List PidInfo

abbrev pub same_peer : Option ℕ → Option ℕ → Bool
same_peer none none = true
same_peer (some a) (some b) = a == b
same_peer _ _ = false

-- `selected.find(peer) != selected.end()`
unfoldable pub is_selected : Option ℕ → List (Option ℕ) → Bool
is_selected peer [] = false
is_selected peer (p ∷ selected) = if same_peer p peer then true else is_selected peer selected

abbrev pub new_info : ℤ → PidInfo
new_info n = record { num_peers = n; strategy = unknown; candidates = []; selected = [] }

-- The copy strategy: the drawn candidate gives its place to the last one.
unfoldable pub select_copy : PidInfo → ℕ → Run (PidInfo × Option ℕ)
select_copy info rand = if length info.candidates == 0 then ok (info, none) else do
  let idx = rand % length info.candidates
  peer ← or_fault (get_elem? info.candidates idx)
  back ← or_fault (get_elem? info.candidates (length info.candidates - 1))
  ok (
    record info {
      candidates = drop_last (set info.candidates idx back);
      num_peers = info.num_peers -ℤ pos 1;
    },
    some peer,
  )

-- The loop that adds up the counts of the PIDs, which are used as they are, in an `int`.
unfoldable pub sum_peers : List PidInfo → ℤ → List ℤ → Run ℤ
sum_peers entries sum [] = ok sum
sum_peers entries sum (pid ∷ pids) = do
  info ← or_fault (at_int entries pid)
  sum' ← as_i32 (sum +ℤ info.num_peers)
  sum_peers entries sum' pids

-- The loop that picks a PID by the coin; the last PID is taken without a test.
unfoldable pub pick_pid : List PidInfo → ℤ → List ℤ → ℤ → Run ℤ
pick_pid entries pid [] coin = ok pid
pick_pid entries pid (next ∷ pids) coin = do
  info ← or_fault (at_int entries pid)
  coin' ← as_i32 (coin -ℤ info.num_peers)
  if ltb_ℤ coin' (pos 0) then ok pid else pick_pid entries next pids coin'

module _ {F : Type 0} where
  -- The entries of `n` PIDs from `i` on, and the one for peers without a PID.
  unfoldable pub infos : PerIspPeerDistribution F → ℕ → ℕ → List PidInfo
  infos view i zero = new_info (PerIspPeerDistribution.get_num_peers view err_unknown_pid) ∷ []
  infos view i (suc n) =
      new_info (PerIspPeerDistribution.get_num_peers view (to_i32 i)) ∷ infos view (suc i) n

  -- The constructor, for fewer than 2^32 - 1 PIDs.
  abbrev pub new : PerIspPeerDistribution F → ℕ → ℕ → PidPeerSelectionHelper F
  new view num_pids num_total_peers = record {
    isp_peers = view;
    total_peers = num_total_peers;
    pidinfo = infos view 0 num_pids;
  }

  -- The choice of a strategy; with false where selectPeer then returns NULL.
  unfoldable pub choose_strategy : PerIspPeerDistribution F → ℕ → ℤ → PidInfo → PidInfo × Bool
  choose_strategy view total pid info = elim info.strategy [
    | unknown ↦
        if ltb_ℤ info.num_peers (pos 0)
        then (info, false)
        else if ltb (4 * total % 2 ^ 32) (to_u32 info.num_peers)
        then (record info { strategy = nocopy }, true)
        else let (listed, found) = PerIspPeerDistribution.list_pid_peers view pid info.candidates in
          (record info { strategy = copy; candidates = listed }, found)
    | copy ↦ (info, true)
    | nocopy ↦ (info, true)
  ]

  -- The loop of the nocopy strategy.
  unfoldable pub draw : PerIspPeerDistribution F → ℤ → List (Option ℕ) → List ℕ → Run (Option ℕ)
  draw view pid selected [] = out_of_fuel
  draw view pid selected (rand ∷ rands) =
      let again = draw view pid selected rands in
      let peer = PerIspPeerDistribution.get_random_peer view pid rand in
      if is_selected peer selected then again else ok peer

  unfoldable pub select_nocopy :
      PerIspPeerDistribution F → ℤ → PidInfo → List ℕ → Run (PidInfo × Option ℕ)
  select_nocopy view pid info rands = do
    peer ← draw view pid info.selected rands
    ok (record info { selected = peer ∷ info.selected; num_peers = info.num_peers -ℤ pos 1 }, peer)

  -- What selectPeer does to the entry of the PID, with the peer or NULL.
  unfoldable pub select_in :
      PerIspPeerDistribution F → ℕ → ℤ → PidInfo → ℕ → List ℕ → Run (PidInfo × Option ℕ)
  select_in view total pid info rand rands =
      let (chosen, usable) = choose_strategy view total pid info in
      if usable
      then elim chosen.strategy [
        | copy ↦ select_copy chosen rand
        | unknown ↦ select_nocopy view pid chosen rands
        | nocopy ↦ select_nocopy view pid chosen rands
      ]
      else ok (chosen, none)

  abbrev pub pid_idx : PidPeerSelectionHelper F → ℤ → ℤ
  pid_idx s pid = if eq_ℤ pid err_unknown_pid then pos (length s.pidinfo - 1) else pid

  unfoldable pub select_peer :
      PidPeerSelectionHelper F → ℤ → ℕ → List ℕ → Run (PidPeerSelectionHelper F × Option ℕ)
  select_peer s pid rand rands = do
    info ← or_fault (at_int s.pidinfo (pid_idx s pid))
    (info', peer) ← select_in s.isp_peers s.total_peers pid info rand rands
    ok (record s { pidinfo = set s.pidinfo (pos_part (pid_idx s pid)) info' }, peer)

  -- The overload for several PIDs; `coin` is the first value of rand().
  unfoldable pub select_peer_of :
      PidPeerSelectionHelper F → List ℤ → ℕ → ℕ → List ℕ → Run (PidPeerSelectionHelper F × Option ℕ)
  select_peer_of s [] coin rand rands = ok (s, none)
  select_peer_of s (pid ∷ pids) coin rand rands = do
    sum ← sum_peers s.pidinfo (pos 0) (pid ∷ pids)
    if not (ltb_ℤ (pos 0) sum) then ok (s, none) else (do
      picked ← pick_pid s.pidinfo pid pids (pos (coin % pos_part sum))
      select_peer s picked rand rands)
