-- ===== src/ClientPeerSelectionLocation/Taking.antt =====
-- What one of the loops takes from its group.
use Prim.Native.Nat.{min}
use mathlib.Core.List.Perm
use mathlib.Core.List.{append-nil, append_assoc}
use alto.Prelude.{
  ℕ, zero, suc, ◌-◌, ◌%◌, ◌≡◌, ◌∙◌, sym, ◌==◌, List, [], ◌∷◌, ◌++◌, inl, inr, length, get_elem?_lt,
  get_elem?_ge, set, drop_last, length-set, length-drop_last, take_out-perm, arith, Perm,
  Bool-cases,
}
use alto.ClientPeerSelectionLocation.{take_from}

-- Some of a group, in the order in which they were drawn, and the others.
pub record IsTaken (num : ℕ) (group out_peers out' : List ℕ) : Type 0 where
  pub taken : List ℕ
  pub left : List ℕ
  pub appended : out' ≡ out_peers ++ taken
  pub parts : Perm (taken ++ left) group
  pub many : length taken ≡ min num (length group)

pub take_from_lem :
    (num : ℕ) (rand : ℕ → ℕ) (used : ℕ) (group out_peers : List ℕ)
    → IsTaken num group out_peers (take_from num rand used group out_peers).0
unfolding take_from
take_from_lem zero rand used group out_peers = record {
  taken = [];
  left = group;
  appended = sym (append-nil out_peers);
  parts = Perm.rfl;
  many = omega arith;
}
take_from_lem (suc num) rand used group out_peers = elim (Bool-cases (length group == 0)) [
  | inl empty ↦
      let gone = get_elem?_ge group (rand used % length group) (ground (arith, empty)) in
      rw (gone, take_from)
        (record {
          taken = [];
          left = group;
          appended = sym (append-nil out_peers);
          parts = Perm.rfl;
          many = ground (arith, empty);
        })
  | inr filled ↦
      let idx = rand used % length group in
      let (peer, e) = get_elem?_lt group idx (grind (arith, filled)) in
      let (back, l) = get_elem?_lt group (length group - 1) (ground (arith, filled)) in
      let rest =
        take_from_lem num rand (suc used) (drop_last (set group idx back))
          (out_peers ++ peer ∷ []) in
      rw (e, l, take_from)
        (record {
          taken = peer ∷ rest.taken;
          left = rest.left;
          appended = rest.appended ∙ append_assoc out_peers (peer ∷ []) rest.taken;
          parts = Perm.trans (Perm.cons peer rest.parts) (take_out-perm group idx peer back e l);
          many = ground (
            arith,
            filled,
            rest.many,
            length-drop_last (set group idx back),
            length-set group idx back,
          );
        })
]
