-- ===== src/SwarmState/Tests.antt =====
-- Runs and witnesses for the swarm's statistics, with whole numbers for the floats.
use alto.Prelude.{◌≡◌, refl, [], ◌∷◌, some, arith}
use alto.Prelude.Int.{ℤ, pos, ◌+ℤ◌}
use alto.Prelude.Words.{Floats, add_u32}
use alto.SwarmState.{
  SwarmState, PidState, entry, write, update, get_num_seeds, set_num_seeds, get_num_leechers,
  set_num_leechers, get_num_active_peers, set_num_active_peers, get_upload_capacity,
  set_upload_capacity, get_download_capacity, set_download_capacity, get_upload_rate,
  set_upload_rate, get_download_rate, set_download_rate,
}
use alto.SwarmState.Access.{get-set}

abbrev whole : Floats {0}
whole = record { F = ℤ; zero_f = pos 0; add_f = ◌+ℤ◌; of_int = λ z. z }

abbrev first_pid : PidState ℤ
first_pid = record {
  num_seeds = 2;
  num_leechers = 3;
  upload_cap = pos 10;
  download_cap = pos 20;
  upload_rate = pos 1;
  download_rate = pos 2;
  num_active_peers = 4;
}

abbrev two_pids : SwarmState ℤ
two_pids = record { pids = first_pid ∷ first_pid ∷ [] }

second_entry : entry two_pids (pos 1) ≡ some first_pid
unfolding entry
second_entry = refl

-- One seeder joins: its capacity is one too large, and it is not counted.
update_run :
    update whole two_pids (pos 0) (pos 1) (pos 0) (pos 5) (pos 0) (pos 0) (pos 0) (pos 0)
    ≡ (record { pids = record first_pid { upload_cap = pos 16 } ∷ first_pid ∷ [] }, pos 0)
unfolding update write entry add_u32 ◌+ℤ◌
update_run = refl

get-set_example :
    ((set_num_seeds two_pids (pos 1) (pos 7)).1 ≡ pos 0)
    × (get_num_seeds (set_num_seeds two_pids (pos 1) (pos 7)).0 (pos 1) ≡ pos 7)
    × (get_num_leechers (set_num_leechers two_pids (pos 1) (pos 7)).0 (pos 1) ≡ pos 7)
    × (get_num_active_peers (set_num_active_peers two_pids (pos 1) (pos 7)).0 (pos 1) ≡ pos 7)
    × (get_upload_capacity whole (set_upload_capacity two_pids (pos 1) (pos 8)).0 (pos 1) ≡ pos 8)
    × (get_download_capacity whole (set_download_capacity two_pids (pos 1) (pos 8)).0 (pos 1)
        ≡ pos 8)
    × (get_upload_rate whole (set_upload_rate two_pids (pos 1) (pos 8)).0 (pos 1) ≡ pos 8)
    × (get_download_rate whole (set_download_rate two_pids (pos 1) (pos 8)).0 (pos 1)
        ≡ get_download_capacity whole two_pids (pos 1))
get-set_example = get-set whole two_pids (pos 1) first_pid 7 (pos 8) second_entry (omega arith)

abbrev grown : SwarmState ℤ
grown = (update whole two_pids (pos 1) (pos 0) (pos 2) (pos 5) (pos 6) (pos 7) (pos 8) (pos 3)).0
