-- ===== src/ClientPeerSelectionLocation/Groups.antt =====
-- The three groups share the candidates out.
use mathlib.Core.List.Perm
use mathlib.Core.List.{perm_middle}
use alto.Prelude.{
  ℕ, zero, suc, ◌≡◌, Bool, true, not, ◌&&◌, List, [], ◌∷◌, ◌++◌, some, inl, inr, get_elem?, arith,
  Perm, Bool-cases,
}
use alto.Prelude.Int.{ℤ, pos, ltb_ℤ, eq_ℤ}
use alto.Prelude.Words.{to_i32}
use alto.ClientPeerSelectionLocation.{PeerGroups, group, add_to_group}

-- Each peer of a list passes a test of its PID.
abbrev pub AllAt : (ℕ → ℤ) → (ℤ → Bool) → List ℕ → Type 0
AllAt lookup test peers = (i peer : ℕ) → get_elem? peers i ≡ some peer → test (lookup peer) ≡ true

abbrev pub is_own : ℤ → ℤ → Bool
is_own self_pid pid = eq_ℤ pid self_pid

abbrev pub is_inside : ℤ → ℕ → ℤ → Bool
is_inside self_pid intra pid =
    not (eq_ℤ pid self_pid) && (not (ltb_ℤ pid (pos 0)) && ltb_ℤ pid (to_i32 intra))

abbrev pub is_outside : ℤ → ℕ → ℤ → Bool
is_outside self_pid intra pid =
    not (eq_ℤ pid self_pid) && not (not (ltb_ℤ pid (pos 0)) && ltb_ℤ pid (to_i32 intra))

AllAt-cons :
    (lookup : ℕ → ℤ) (test : ℤ → Bool) (peer : ℕ) (peers : List ℕ)
    → test (lookup peer) ≡ true
    → AllAt lookup test peers
    → AllAt lookup test (peer ∷ peers)
AllAt-cons lookup test peer peers h rest zero p e = ground (arith, h, e)
AllAt-cons lookup test peer peers h rest (suc i) p e = rest i p e

-- The groups hold each candidate once, by its PID.
pub record AreGroups (lookup : ℕ → ℤ) (self_pid : ℤ) (intra : ℕ) (candidates : List ℕ)
    (g : PeerGroups) : Type 0 where
  pub all : Perm (g.intra_pid_peers ++ (g.intra_isp_peers ++ g.external_peers)) candidates
  pub own : AllAt lookup (is_own self_pid) g.intra_pid_peers
  pub inside : AllAt lookup (is_inside self_pid intra) g.intra_isp_peers
  pub outside : AllAt lookup (is_outside self_pid intra) g.external_peers

second_perm :
    (a b c : List ℕ) (x : ℕ) (all : List ℕ)
    → Perm (a ++ (b ++ c)) all
    → Perm (a ++ (x ∷ (b ++ c))) (x ∷ all)
second_perm a b c x all p = Perm.trans (perm_middle {a = x} a (b ++ c)) (Perm.cons x p)

third_perm :
    (a b c : List ℕ) (x : ℕ) (all : List ℕ)
    → Perm (a ++ (b ++ c)) all
    → Perm (a ++ (b ++ (x ∷ c))) (x ∷ all)
third_perm a b c x all p =
    Perm.trans (Perm.append_left a (perm_middle {a = x} b c)) (second_perm a b c x all p)

pub group_lem :
    (lookup : ℕ → ℤ) (self_pid : ℤ) (intra : ℕ) (candidates : List ℕ)
    → AreGroups lookup self_pid intra candidates (group lookup self_pid intra candidates)
unfolding group add_to_group
group_lem lookup self_pid intra [] = record {
  all = Perm.rfl;
  own = λ i p e. absurd (ground (arith, e));
  inside = λ i p e. absurd (ground (arith, e));
  outside = λ i p e. absurd (ground (arith, e));
}
group_lem lookup self_pid intra (x ∷ candidates) =
    let rest = group_lem lookup self_pid intra candidates in
    let g = group lookup self_pid intra candidates in
    elim (Bool-cases (eq_ℤ (lookup x) self_pid)) [
      | inl own ↦
          rw (own, add_to_group)
            (record {
              all = Perm.cons x rest.all;
              own = AllAt-cons lookup (is_own self_pid) x g.intra_pid_peers own rest.own;
              inside = rest.inside;
              outside = rest.outside;
            })
      | inr other ↦
          elim (Bool-cases (not (ltb_ℤ (lookup x) (pos 0)) && ltb_ℤ (lookup x) (to_i32 intra))) [
            | inl inside ↦
                rw (other, inside, add_to_group)
                  (record {
                    all =
                        second_perm g.intra_pid_peers g.intra_isp_peers g.external_peers x
                          candidates rest.all;
                    own = rest.own;
                    inside =
                        AllAt-cons lookup (is_inside self_pid intra) x g.intra_isp_peers
                          (ground (arith, other, inside)) rest.inside;
                    outside = rest.outside;
                  })
            | inr outside ↦
                rw (other, outside, add_to_group)
                  (record {
                    all =
                        third_perm g.intra_pid_peers g.intra_isp_peers g.external_peers x candidates
                          rest.all;
                    own = rest.own;
                    inside = rest.inside;
                    outside =
                        AllAt-cons lookup (is_outside self_pid intra) x g.external_peers
                          (ground (arith, other, outside)) rest.outside;
                  })
          ]
    ]
