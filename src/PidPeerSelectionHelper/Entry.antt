-- ===== src/PidPeerSelectionHelper/Entry.antt =====
-- The entry of a PID, on which its calls work.
use alto.Prelude.{
  ℕ, ◌-◌, ◌≡◌, ◌∙◌, ap, refl, List, [], ◌∷◌, Option, some, set, if◌then◌else◌, arith,
  lt_of_get_elem?, get_elem?-set, length-set,
}
use alto.Prelude.Int.{ℤ, pos, negsuc, pos_part, eq_ℤ}
use alto.Prelude.Run.{Run, ok, ◌>>=◌}
use alto.PerIspPeerDistribution.{at_int}
use alto.PidPeerSelectionHelper.{PidPeerSelectionHelper, PidInfo, select_in, select_peer, pid_idx}

at_int-set :
    (entries : List PidInfo) (i : ℤ) (info info' : PidInfo)
    → at_int entries i ≡ some info
    → at_int (set entries (pos_part i) info') i ≡ some info'
at_int-set entries (pos n) info info' e =
    get_elem?-set entries n n info' (lt_of_get_elem? entries n info e) ∙ ground arith
at_int-set entries (negsuc n) info info' e = absurd (ground (arith, e))

module _ {F : Type 0} where
  -- Successive calls of selectPeer for one PID, each with the values of rand() that it sees.
  unfoldable pub select_each :
      PidPeerSelectionHelper F
      → ℤ
      → List (ℕ × List ℕ)
      → Run (PidPeerSelectionHelper F × List (Option ℕ))
  select_each s pid [] = ok (s, [])
  select_each s pid ((rand, rands) ∷ calls) = do
    (s', peer) ← select_peer s pid rand rands
    (s'', peers) ← select_each s' pid calls
    ok (s'', peer ∷ peers)

  -- The entry that selectPeer works on.
  abbrev pub entry_of : PidPeerSelectionHelper F → ℤ → Option PidInfo
  entry_of s pid = at_int s.pidinfo (pid_idx s pid)

  -- The entry is replaced, and nothing else.
  pub entry-set :
      (s : PidPeerSelectionHelper F) (pid : ℤ) (info info' : PidInfo)
      → entry_of s pid ≡ some info
      → entry_of (record s { pidinfo = set s.pidinfo (pos_part (pid_idx s pid)) info' }) pid
        ≡ some info'
  entry-set s pid info info' e =
      let kept = length-set s.pidinfo (pos_part (pid_idx s pid)) info' in
      let same : pid_idx (record s { pidinfo = set s.pidinfo (pos_part (pid_idx s pid)) info' }) pid
          ≡ pid_idx s pid =
        ap (λ (n : ℕ). if eq_ℤ pid (negsuc 0) then pos (n - 1) else pid) kept in
      ap (at_int (set s.pidinfo (pos_part (pid_idx s pid)) info')) same
      ∙ at_int-set s.pidinfo (pid_idx s pid) info info' e

  pub select_peer-in :
      (s : PidPeerSelectionHelper F) (pid : ℤ) (rand : ℕ) (rands : List ℕ) (info info' : PidInfo)
      (peer : Option ℕ)
      → entry_of s pid ≡ some info
      → select_in s.isp_peers s.total_peers pid info rand rands ≡ ok (info', peer)
      → select_peer s pid rand rands
        ≡ ok (record s { pidinfo = set s.pidinfo (pos_part (pid_idx s pid)) info' }, peer)
  unfolding select_peer
  select_peer-in s pid rand rands info info' peer e r = rw (e, r, select_peer) refl
