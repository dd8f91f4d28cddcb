-- ===== src/PidAggregation/Names.antt =====
-- Names as keys, and what the sets of vertex names contain.
use alto.Prelude.{◌≡◌, refl, Bool, true, false, not, ◌&&◌, ◌||◌, [], ◌∷◌, arith}
use alto.Prelude.Order.{equiv}
use alto.Prelude.Keyed.{IsKeyTest}
use alto.Pid.{bytes_less}
use alto.Pid.Order.{bytes_irrefl, bytes_equiv}
use alto.PidAggregation.{
  Name, NameSet, same_name, insert_name, erase_name, insert_names, erase_names,
}

pub same_name_iff : IsKeyTest same_name
unfolding same_name equiv
same_name_iff a b =
    (λ h. ground (arith, bytes_equiv a b), λ h. ground (arith, bytes_irrefl a, bytes_irrefl b))

unfoldable pub has_vertex : NameSet → Name → Bool
has_vertex [] v = false
has_vertex (w ∷ ws) v = same_name w v || has_vertex ws v

same_of_neither :
    (a b : Name) → bytes_less a b ≡ false → bytes_less b a ≡ false → same_name a b ≡ true
unfolding same_name equiv
same_of_neither a b h k = ground arith

has-insert_name :
    (v w : Name) (s : NameSet) → has_vertex (insert_name v s) w ≡ (same_name v w || has_vertex s w)
unfolding has_vertex insert_name
has-insert_name v w [] = refl
has-insert_name v w (x ∷ xs) =
    ground (arith, has-insert_name v w xs, same_of_neither v x, (same_name_iff v x).0)

pub has-insert_names :
    (vs s : NameSet) (w : Name)
    → has_vertex (insert_names vs s) w ≡ (has_vertex vs w || has_vertex s w)
unfolding has_vertex insert_names
has-insert_names [] s w = refl
has-insert_names (v ∷ vs) s w =
    ground (arith, has-insert_names vs (insert_name v s) w, has-insert_name v w s)

has-erase_name :
    (v w : Name) (s : NameSet)
    → has_vertex (erase_name v s) w ≡ (not (same_name v w) && has_vertex s w)
unfolding has_vertex erase_name
has-erase_name v w [] = ground arith
has-erase_name v w (x ∷ xs) = ground (
  arith,
  has-erase_name v w xs,
  (same_name_iff x v).0,
  (same_name_iff x w).0,
  (same_name_iff v w).0,
  (same_name_iff x v).1,
  (same_name_iff v w).1,
)

pub has-erase_names :
    (vs s : NameSet) (w : Name)
    → has_vertex (erase_names vs s) w ≡ (not (has_vertex vs w) && has_vertex s w)
unfolding has_vertex erase_names
has-erase_names [] s w = ground arith
has-erase_names (v ∷ vs) s w =
    ground (arith, has-erase_names vs (erase_name v s) w, has-erase_name v w s)
