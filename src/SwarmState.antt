-- ===== src/SwarmState.antt =====
-- common/cpp/src/include/p4p/app/swarm_state.h and lib/swarm_state.cpp: the statistics of a swarm,
-- one record per PID. The `float` statistics are values of the interface Floats.
pub mod Access
pub mod Update
mod Tests
use alto.Prelude.{
  ℕ, ◌+◌, Bool, true, false, ◌&&◌, List, Option, none, some, ltb, length, get_elem?, set, replicate,
  if◌then◌else◌,
}
use alto.Prelude.Int.{ℤ, pos, negsuc, pos_part, ltb_ℤ}
use alto.Prelude.Words.{Floats, to_u32, to_i32, add_u32}
use mathlib.Core.Bool.{not}

abbrev pub err_unknown_pid : ℤ
err_unknown_pid = negsuc 0

pub record PidState (F : Type 0) : Type 0 where
  pub num_seeds : ℕ
  pub num_leechers : ℕ
  pub upload_cap : F
  pub download_cap : F
  pub upload_rate : F
  pub download_rate : F
  pub num_active_peers : ℕ

pub record SwarmState (F : Type 0) : Type 0 where
  pub pids : List (PidState F)

module _ {F : Type 0} where
  abbrev pub get_num_pids : SwarmState F → ℕ
  get_num_pids s = length s.pids

  abbrev pub is_valid : SwarmState F → ℤ → Bool
  is_valid s pid = not (ltb_ℤ pid (pos 0)) && ltb (pos_part pid) (length s.pids)

  -- `m_pids[pid]` behind the test `isValid(pid)`
  unfoldable pub entry : SwarmState F → ℤ → Option (PidState F)
  entry s pid = if is_valid s pid then get_elem? s.pids (pos_part pid) else none

  -- A getter: the field at a valid PID, or the error value.
  unfoldable pub read {ℓ} : {A : Type ℓ} → SwarmState F → ℤ → A → (PidState F → A) → A
  read s pid error field = elim (entry s pid) [ none ↦ error | some p ↦ field p ]

  -- A setter: the new state and the return code.
  unfoldable pub write : SwarmState F → ℤ → (PidState F → PidState F) → SwarmState F × ℤ
  write s pid change = elim (entry s pid) [
    | none ↦ (s, err_unknown_pid)
    | some p ↦ (record { pids = set s.pids (pos_part pid) (change p) }, pos 0)
  ]

  pub get_num_seeds : SwarmState F → ℤ → ℤ
  get_num_seeds s pid = read s pid err_unknown_pid λ p. to_i32 p.num_seeds

  pub set_num_seeds : SwarmState F → ℤ → ℤ → SwarmState F × ℤ
  set_num_seeds s pid value = write s pid λ p. record p { num_seeds = to_u32 value }

  pub get_num_leechers : SwarmState F → ℤ → ℤ
  get_num_leechers s pid = read s pid err_unknown_pid λ p. to_i32 p.num_leechers

  pub set_num_leechers : SwarmState F → ℤ → ℤ → SwarmState F × ℤ
  set_num_leechers s pid value = write s pid λ p. record p { num_leechers = to_u32 value }

  pub set_upload_capacity : SwarmState F → ℤ → F → SwarmState F × ℤ
  set_upload_capacity s pid value = write s pid λ p. record p { upload_cap = value }

  pub set_download_capacity : SwarmState F → ℤ → F → SwarmState F × ℤ
  set_download_capacity s pid value = write s pid λ p. record p { download_cap = value }

  pub set_upload_rate : SwarmState F → ℤ → F → SwarmState F × ℤ
  set_upload_rate s pid value = write s pid λ p. record p { upload_rate = value }

  pub set_download_rate : SwarmState F → ℤ → F → SwarmState F × ℤ
  set_download_rate s pid value = write s pid λ p. record p { download_rate = value }

  pub get_num_active_peers : SwarmState F → ℤ → ℤ
  get_num_active_peers s pid = read s pid err_unknown_pid λ p. to_i32 p.num_active_peers

  pub set_num_active_peers : SwarmState F → ℤ → ℤ → SwarmState F × ℤ
  set_num_active_peers s pid value = write s pid λ p. record p { num_active_peers = to_u32 value }

module _ (floats : Floats) where
  open floats use {F, zero_f, add_f, of_int}

  abbrev pub new_pid_state : PidState F
  new_pid_state = record {
    num_seeds = 0;
    num_leechers = 0;
    upload_cap = zero_f;
    download_cap = zero_f;
    upload_rate = zero_f;
    download_rate = zero_f;
    num_active_peers = 0;
  }

  -- The constructor; SwarmState() is this at no PIDs.
  abbrev pub new : ℕ → SwarmState F
  new num_pids = record { pids = replicate num_pids new_pid_state }

  pub get_upload_capacity : SwarmState F → ℤ → F
  get_upload_capacity s pid = read s pid (of_int err_unknown_pid) λ p. p.upload_cap

  pub get_download_capacity : SwarmState F → ℤ → F
  get_download_capacity s pid = read s pid (of_int err_unknown_pid) λ p. p.download_cap

  pub get_upload_rate : SwarmState F → ℤ → F
  get_upload_rate s pid = read s pid (of_int err_unknown_pid) λ p. p.upload_rate

  pub get_download_rate : SwarmState F → ℤ → F
  get_download_rate s pid = read s pid (of_int err_unknown_pid) λ p. p.download_cap

  -- The change that `update` makes to one PID's record.
  apply_changes : ℤ → ℤ → F → F → F → F → ℤ → PidState F → PidState F
  apply_changes seeds leechers uploadcap downloadcap uploadrate downloadrate active p = record p {
    num_leechers = add_u32 p.num_leechers leechers;
    upload_cap = add_f (add_f p.upload_cap (of_int seeds)) uploadcap;
    download_cap = add_f p.download_cap downloadcap;
    upload_rate = add_f p.upload_rate uploadrate;
    download_rate = add_f p.download_rate downloadrate;
    num_active_peers = add_u32 p.num_active_peers active;
  }

  unfoldable pub update : SwarmState F → ℤ → ℤ → ℤ → F → F → F → F → ℤ → SwarmState F × ℤ
  unfolding apply_changes
  update s pid seeds leechers uploadcap downloadcap uploadrate downloadrate active =
      write s pid
        (apply_changes seeds leechers uploadcap downloadcap uploadrate downloadrate active)
