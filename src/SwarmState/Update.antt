-- ===== src/SwarmState/Update.antt =====
-- update, the one operation that changes several statistics of a PID at once.
use alto.Prelude.{
  ◌∙◌, ℕ, ◌+◌, ◌^◌, ◌<◌, ◌≡◌, refl, false, some, inl, inr, arith, Bool-cases, Option-cases,
}
use alto.Prelude.Int.{ℤ, pos, eq_ℤ}
use alto.Prelude.Words.{Floats, to_i32, add_u32, add_u32-pos}
use alto.SwarmState.{
  SwarmState, PidState, entry, read, get_num_seeds, get_num_leechers, get_num_active_peers,
  get_upload_capacity, get_download_capacity, get_upload_rate, update,
}
use alto.SwarmState.Access.{entry-write, read-write_self}

module _ (floats : Floats {0}) where
  open floats use {F, add_f, of_int}

  module _ (s : SwarmState F) (pid : ℤ) (seeds leechers : ℤ) (u d ur dr : F) (active : ℤ) where
    abbrev updated : SwarmState F
    updated = (update floats s pid seeds leechers u d ur dr active).0

    -- No update changes the number of seeds of any PID, whatever change it is given.
    pub update_loses_seeds : (q : ℤ) → get_num_seeds updated q ≡ get_num_seeds s q
    unfolding update get_num_seeds read
    update_loses_seeds q = elim (Option-cases (entry s q)) [
      | inl gone ↦ elim (Bool-cases (eq_ℤ pid q)) [
        | inl same ↦ rw (entry-write s pid q _, same, gone, read) refl
        | inr other ↦ rw (entry-write s pid q _, other, gone, read) refl
      ]
      | inr (p, e) ↦ elim (Bool-cases (eq_ℤ pid q)) [
        | inl same ↦ rw (entry-write s pid q _, same, e, read) refl
        | inr other ↦ rw (entry-write s pid q _, other, e, read) refl
      ]
    ]

    -- No update touches the record of another PID.
    pub update_elsewhere : (q : ℤ) → eq_ℤ pid q ≡ false → entry updated q ≡ entry s q
    unfolding update
    update_elsewhere q other = rw (entry-write s pid q _, other) refl

  -- At a valid PID, for increases that do not overflow the counters, leechers and active peers grow
  -- by their changes, the upload rate and the download capacity by theirs, and the upload capacity
  -- by the change in seeds and then by its own.
  pub update_effects :
      (s : SwarmState F) (pid seeds : ℤ) (leechers active : ℕ) (u d ur dr : F) (p : PidState F)
      → entry s pid ≡ some p
      → p.num_leechers + leechers < 2 ^ 31
      → p.num_active_peers + active < 2 ^ 31
      → let s' = (update floats s pid seeds (pos leechers) u d ur dr (pos active)).0 in
        (get_num_leechers s' pid ≡ pos (p.num_leechers + leechers))
        × (get_num_active_peers s' pid ≡ pos (p.num_active_peers + active))
        × (get_upload_capacity floats s' pid ≡ add_f (add_f p.upload_cap (of_int seeds)) u)
        × (get_download_capacity floats s' pid ≡ add_f p.download_cap d)
        × (get_upload_rate floats s' pid ≡ add_f p.upload_rate ur)
  unfolding update get_num_leechers get_num_active_peers get_upload_capacity get_download_capacity
      get_upload_rate
  update_effects s pid seeds leechers active u d ur dr p e hl ha = (
    read-write_self s pid _ _ _ p e ∙ no_wrap p.num_leechers leechers hl,
    read-write_self s pid _ _ _ p e ∙ no_wrap p.num_active_peers active ha,
    read-write_self s pid _ _ _ p e,
    read-write_self s pid _ _ _ p e,
    read-write_self s pid _ _ _ p e,
  )
    where
      no_wrap : (n k : ℕ) → n + k < 2 ^ 31 → to_i32 (add_u32 n (pos k)) ≡ pos (n + k)
      no_wrap n k h = rw (add_u32-pos n k (omega arith)) (ground arith)
