-- ===== src/SwarmState/Access.antt =====
-- Getters and setters.
use mathlib.Core.Option
use alto.Prelude.{
  ◌∙◌, ℕ, ◌^◌, ◌<◌, ◌≡◌, refl, false, none, some, inl, inr, get_elem?, if◌then◌else◌, arith,
  Bool-cases, Option-cases, get_elem?-set, get_elem?_ge, lt_of_get_elem?,
}
use alto.Prelude.Int.{ℤ, pos, negsuc, eq_ℤ, eq_ℤ_refl}
use alto.Prelude.Words.{Floats, to_i32-to_u32}
use alto.SwarmState.{
  SwarmState, PidState, entry, is_valid, read, write, err_unknown_pid, get_num_seeds, set_num_seeds,
  get_num_leechers, set_num_leechers, set_upload_capacity, set_download_capacity, set_upload_rate,
  set_download_rate, get_num_active_peers, set_num_active_peers, get_upload_capacity,
  get_download_capacity, get_upload_rate, get_download_rate, update,
}

module _ {F : Type 0} where
  pub entry-pos : (s : SwarmState F) (n : ℕ) → entry s (pos n) ≡ get_elem? s.pids n
  unfolding entry
  entry-pos s n = ground (arith, get_elem?_ge s.pids n)

  pub entry-negsuc : (s : SwarmState F) (n : ℕ) → entry s (negsuc n) ≡ none
  unfolding entry
  entry-negsuc s n = ground arith

  -- Writing a PID's record changes what is read at that PID, and at no other.
  pub entry-write :
      (s : SwarmState F) (pid q : ℤ) (change : PidState F → PidState F)
      → entry (write s pid change).0 q
        ≡ (if eq_ℤ pid q then Option.map change (entry s q) else entry s q)
  unfolding write
  entry-write s (negsuc n) (pos m) change = rw (entry-negsuc s n, write) refl
  entry-write s (negsuc n) (negsuc m) change =
      rw (entry-negsuc s n, entry-negsuc s m, write) (ground arith)
  entry-write s (pos n) (negsuc m) change = rw (entry-negsuc s m, entry-negsuc _ m) refl
  entry-write s (pos n) (pos m) change = elim (Option-cases (get_elem? s.pids n)) [
    | inl gone ↦ rw (entry-pos s n, gone, entry-pos s m, write) (ground arith)
    | inr (p, e) ↦
        rw
          (
            entry-pos s n,
            e,
            entry-pos s m,
            entry-pos _ m,
            get_elem?-set s.pids n m (change p) (lt_of_get_elem? s.pids n p e),
            write,
          )
          (ground arith)
  ]

  write_returns :
      (s : SwarmState F) (pid : ℤ) (change : PidState F → PidState F) (p : PidState F)
      → entry s pid ≡ some p
      → (write s pid change).1 ≡ pos 0
  unfolding write
  write_returns s pid change p e = rw (e, write) refl

  write_refused :
      (s : SwarmState F) (pid : ℤ) (change : PidState F → PidState F)
      → is_valid s pid ≡ false
      → write s pid change ≡ (s, err_unknown_pid)
  unfolding write entry
  write_refused s pid change e = rw (e, write, entry) refl

  -- What every write does to what a read sees, at its own PID and elsewhere.
  pub read-write {ℓ} :
      {A : Type ℓ} (s : SwarmState F) (pid q : ℤ) (error : A) (field : PidState F → A)
      (change : PidState F → PidState F) (p : PidState F)
      → entry s q ≡ some p
      → read (write s pid change).0 q error field ≡ field (if eq_ℤ pid q then change p else p)
  unfolding read
  read-write s pid q error field change p e = elim (Bool-cases (eq_ℤ pid q)) [
    | inl same ↦ rw (entry-write s pid q change, same, e, read) refl
    | inr other ↦ rw (entry-write s pid q change, other, e, read) refl
  ]

  pub read-write_self {ℓ} :
      {A : Type ℓ} (s : SwarmState F) (pid : ℤ) (error : A) (field : PidState F → A)
      (change : PidState F → PidState F) (p : PidState F)
      → entry s pid ≡ some p
      → read (write s pid change).0 pid error field ≡ field (change p)
  read-write_self s pid error field change p e =
      read-write s pid pid error field change p e ∙ rw (eq_ℤ_refl pid) refl

module _ (floats : Floats {0}) where
  open floats use {F}

  -- At a valid PID setNumSeeds returns 0, and what each setter stores is what its getter returns
  -- afterwards, for counts that an int holds and for any float, but for the download rate: after it
  -- is set, its getter still returns the download capacity.
  pub get-set :
      (s : SwarmState F) (pid : ℤ) (p : PidState F) (count : ℕ) (value : F)
      → entry s pid ≡ some p
      → count < 2 ^ 31
      → ((set_num_seeds s pid (pos count)).1 ≡ pos 0)
        × (get_num_seeds (set_num_seeds s pid (pos count)).0 pid ≡ pos count)
        × (get_num_leechers (set_num_leechers s pid (pos count)).0 pid ≡ pos count)
        × (get_num_active_peers (set_num_active_peers s pid (pos count)).0 pid ≡ pos count)
        × (get_upload_capacity floats (set_upload_capacity s pid value).0 pid ≡ value)
        × (get_download_capacity floats (set_download_capacity s pid value).0 pid ≡ value)
        × (get_upload_rate floats (set_upload_rate s pid value).0 pid ≡ value)
        × (get_download_rate floats (set_download_rate s pid value).0 pid
            ≡ get_download_capacity floats s pid)
  unfolding get_num_seeds set_num_seeds get_num_leechers set_num_leechers get_num_active_peers
      set_num_active_peers set_upload_capacity set_download_capacity set_upload_rate
      set_download_rate get_upload_capacity get_download_capacity get_upload_rate get_download_rate
  get-set s pid p count value e h =
      let kept = to_i32-to_u32 count h in
      (
        write_returns s pid _ p e,
        read-write_self s pid _ _ _ p e ∙ kept,
        read-write_self s pid _ _ _ p e ∙ kept,
        read-write_self s pid _ _ _ p e ∙ kept,
        read-write_self s pid _ _ _ p e,
        read-write_self s pid _ _ _ p e,
        read-write_self s pid _ _ _ p e,
        read-write_self s pid _ _ _ p e ∙ unfold read in rw (e, read) refl,
      )

  -- At an invalid PID no setter and no update changes the state, and each returns the error.
  pub invalid_refused :
      (s : SwarmState F) (pid count c d : ℤ) (x y z value : F)
      → is_valid s pid ≡ false
      → (set_num_seeds s pid count ≡ (s, err_unknown_pid))
        × (set_num_leechers s pid count ≡ (s, err_unknown_pid))
        × (set_num_active_peers s pid count ≡ (s, err_unknown_pid))
        × (set_upload_capacity s pid value ≡ (s, err_unknown_pid))
        × (set_download_capacity s pid value ≡ (s, err_unknown_pid))
        × (set_upload_rate s pid value ≡ (s, err_unknown_pid))
        × (set_download_rate s pid value ≡ (s, err_unknown_pid))
        × (update floats s pid count c x y z value d ≡ (s, err_unknown_pid))
  unfolding set_num_seeds set_num_leechers set_num_active_peers set_upload_capacity
      set_download_capacity set_upload_rate set_download_rate update
  invalid_refused s pid count c d x y z value e =
      let refused = λ (change : PidState F → PidState F). write_refused s pid change e in
      (refused _, refused _, refused _, refused _, refused _, refused _, refused _, refused _)
