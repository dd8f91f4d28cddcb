-- ===== src/ClientPeerSelectionLocation.antt =====
-- common/cpp/src/lib/client_peer_selection_location.cpp: the choice of peers by where they are. The PID
-- map is its lookup of a peer's address; rand() is the sequence of its values. The numbers that come
-- from percentages, in floating point, are parameters.
pub mod Taking
pub mod Groups
pub mod Choice
mod Tests
use alto.Prelude.{
  ℕ, zero, suc, ◌+◌, ◌-◌, ◌*◌, ◌%◌, ◌^◌, ◌==◌, Bool, true, false, not, ◌&&◌, ◌||◌, List, [], ◌∷◌,
  ◌++◌, Option, none, some, ltb, length, get_elem?, set, drop_last, if◌then◌else◌,
}
use alto.Prelude.Int.{ℤ, pos, negsuc, ltb_ℤ, eq_ℤ}
use alto.Prelude.Words.{to_i32}

-- `(unsigned)(num_to_select * m_intra_pid_pct + 0.5)`, and the same for the ISP from num_to_select,
-- num_prefilled and the size of out_peers.
pub record Shares : Type 0 where
  pub intra_pid : ℕ → ℕ
  pub intra_isp : ℕ → ℕ → ℕ → ℕ

pub record Location : Type 0 where
  pub self_pid : ℤ
  -- lookup of a peer's address; `none` is a null m_pidmap
  pub pidmap : Option (ℕ → ℤ)
  pub intra_isp_pids : ℕ
  pub shares : Shares

abbrev pub err_guidance_unavailable : ℤ
err_guidance_unavailable = negsuc 100

-- The three groups.
pub record PeerGroups : Type 0 where
  pub intra_pid_peers : List ℕ
  pub intra_isp_peers : List ℕ
  pub external_peers : List ℕ

-- The peer goes to the front of its group: the loop over the rest comes after.
unfoldable pub add_to_group : ℤ → ℕ → ℤ → ℕ → PeerGroups → PeerGroups
add_to_group self_pid intra_isp_pids pid peer g =
    if eq_ℤ pid self_pid
    then record g { intra_pid_peers = peer ∷ g.intra_pid_peers }
    else if not (ltb_ℤ pid (pos 0)) && ltb_ℤ pid (to_i32 intra_isp_pids)
    then record g { intra_isp_peers = peer ∷ g.intra_isp_peers }
    else record g { external_peers = peer ∷ g.external_peers }

unfoldable pub group : (ℕ → ℤ) → ℤ → ℕ → List ℕ → PeerGroups
group lookup self_pid intra_isp_pids [] = record {
  intra_pid_peers = [];
  intra_isp_peers = [];
  external_peers = [];
}
group lookup self_pid intra_isp_pids (peer ∷ candidates) =
    add_to_group self_pid intra_isp_pids (lookup peer) peer
      (group lookup self_pid intra_isp_pids candidates)

-- One of the three loops: at most `num` times a random peer of the group moves to out_peers. `used` is
-- how many values of rand() were used.
unfoldable pub take_from : ℕ → (ℕ → ℕ) → ℕ → List ℕ → List ℕ → List ℕ × ℕ
take_from zero rand used group out_peers = (out_peers, used)
take_from (suc num) rand used group out_peers = elim (get_elem? group (rand used % length group)) [
  | none ↦ (out_peers, used)
  | some peer ↦ elim (get_elem? group (length group - 1)) [
    | none ↦ (out_peers, used)
    | some back ↦
        take_from num rand (suc used) (drop_last (set group (rand used % length group) back))
          (out_peers ++ peer ∷ [])
  ]
]

-- `(unsigned)(num_to_select + num_prefilled - out_peers.size())`
abbrev pub num_external : ℕ → ℕ → ℕ → ℕ
num_external num_to_select num_prefilled size =
    (num_to_select + num_prefilled + 2 ^ 64 - size) % 2 ^ 64 % 2 ^ 32

-- The three loops in order.
unfoldable pub take_all : Shares → (ℕ → ℕ) → PeerGroups → ℕ → ℕ → List ℕ → List ℕ
take_all shares rand g num_to_select num_prefilled out_peers =
    let (out1, used1) =
      take_from (shares.intra_pid num_to_select) rand 0 g.intra_pid_peers out_peers in
    let (out2, used2) =
      take_from (shares.intra_isp num_to_select num_prefilled (length out1)) rand used1
        g.intra_isp_peers out1 in
    (take_from (num_external num_to_select num_prefilled (length out2)) rand used2 g.external_peers
      out2).0

-- What is in out_peers afterwards, and the result. The copy of the candidates where they are too few
-- does not end the call.
unfoldable pub select_peers : Location → (ℕ → ℕ) → List ℕ → ℕ → List ℕ → List ℕ × ℤ
select_peers l rand candidates num_to_select out_peers = elim l.pidmap [
  | none ↦ (out_peers, err_guidance_unavailable)
  | some lookup ↦
      if ltb_ℤ l.self_pid (pos 0)
        || (not (ltb_ℤ l.self_pid (to_i32 l.intra_isp_pids)) || length candidates == 0)
      then (out_peers, err_guidance_unavailable)
      else let filled =
          if ltb (length candidates) num_to_select then out_peers ++ candidates else out_peers in
        (
          take_all l.shares rand (group lookup l.self_pid l.intra_isp_pids candidates) num_to_select
              (length out_peers) filled,
          pos 0,
        )
]
