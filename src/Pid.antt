-- ===== src/Pid.antt =====
-- common/cpp/src/include/p4p/pid.h: a PID and its order. An ISP identifier is its string's bytes.
pub mod Order
pub mod SetLaws
pub mod Sets
mod Tests
use alto.Prelude.{
  ℕ, zero, suc, ◌==◌, Bool, true, false, ◌&&◌, ◌||◌, List, [], ◌∷◌, ltb, if◌then◌else◌,
}
use mathlib.Core.Bool.{not}

pub record Pid : Type 0 where
  pub isp : List ℕ
  pub num : ℕ
  pub external : Bool

-- std::string's operator<
unfoldable pub bytes_less : List ℕ → List ℕ → Bool
bytes_less [] [] = false
bytes_less [] (y ∷ ys) = true
bytes_less (x ∷ xs) [] = false
bytes_less (x ∷ xs) (y ∷ ys) = if x == y then bytes_less xs ys else ltb x y

-- std::string's operator==
unfoldable pub bytes_eq : List ℕ → List ℕ → Bool
bytes_eq [] [] = true
bytes_eq [] (y ∷ ys) = false
bytes_eq (x ∷ xs) [] = false
bytes_eq (x ∷ xs) (y ∷ ys) = x == y && bytes_eq xs ys

-- `a != b` on bool
abbrev pub bool_ne : Bool → Bool → Bool
bool_ne true b = not b
bool_ne false b = b

-- `a < b` on bool
unfoldable pub bool_less : Bool → Bool → Bool
bool_less a b = not a && b

-- operator<
unfoldable pub less : Pid → Pid → Bool
unfolding bool_less
less a b =
    if bool_ne a.external b.external
    then bool_less a.external b.external
    else ltb a.num b.num || (a.num == b.num && bytes_less a.isp b.isp)

-- operator==
unfoldable pub eq : Pid → Pid → Bool
eq a b = not (bool_ne a.external b.external) && a.num == b.num && bytes_eq a.isp b.isp

-- "invalid.p4p", 0, external
abbrev pub invalid : Pid
invalid = record {
  isp = b'i' ∷ b'n' ∷ b'v' ∷ b'a' ∷ b'l' ∷ b'i' ∷ b'd' ∷ b'.' ∷ b'p' ∷ b'4' ∷ b'p' ∷ [];
  num = 0;
  external = true;
}
