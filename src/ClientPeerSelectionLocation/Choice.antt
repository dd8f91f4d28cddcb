-- ===== src/ClientPeerSelectionLocation/Choice.antt =====
-- What selectPeers chooses, where the candidates are enough.
use Prim.Native.Nat.{min}
use mathlib.Core.List.Perm
use alto.Prelude.{
  ℕ, zero, suc, ◌+◌, ◌-◌, ◌^◌, ◌<◌, ◌≤◌, ◌≡◌, ◌∙◌, sym, ap, refl, ◌==◌, Bool, true, false, not,
  List, [], ◌∷◌, ◌++◌, some, inl, inr, ltb, length, length-append, arith, Perm, Bool-cases,
}
use alto.Prelude.Int.{ℤ, pos, ltb_ℤ}
use alto.Prelude.Words.{to_i32}
use alto.Prelude.Count.{count_if, count_if-nil, count_if-cons, count_if-perm, count_if-at}
use alto.ClientPeerSelectionLocation.{
  Location, PeerGroups, group, take_from, take_all, num_external, select_peers,
}
use alto.ClientPeerSelectionLocation.Taking.{IsTaken, take_from_lem}
use alto.ClientPeerSelectionLocation.Groups.{AllAt, is_own, is_inside, is_outside, group_lem}

none_fails :
    (lookup : ℕ → ℤ) (test : ℤ → Bool) (peers : List ℕ)
    → AllAt lookup test peers
    → count_if (λ p. not (test (lookup p))) peers ≡ 0
none_fails lookup test [] h = count_if-nil (λ p. not (test (lookup p)))
none_fails lookup test (x ∷ peers) h = ground (
  arith,
  count_if-cons (λ p. not (test (lookup p))) x peers,
  h zero x refl,
  none_fails lookup test peers (λ i p e. h (suc i) p e),
)

-- The PIDs of a group are those of its parts.
parts-AllAt :
    (lookup : ℕ → ℤ) (test : ℤ → Bool) (parts peers : List ℕ)
    → Perm parts peers
    → AllAt lookup test peers
    → AllAt lookup test parts
parts-AllAt lookup test parts peers p h i peer e =
    let fails = λ (x : ℕ). not (test (lookup x)) in
    elim (Bool-cases (test (lookup peer))) [
      | inl passes ↦ passes
      | inr failed ↦ absurd (
          omega (
            arith,
            count_if-at fails parts i peer e (ground (arith, failed)),
            count_if-perm fails p,
            none_fails lookup test peers h,
          ))
    ]

length-count : (xs : List ℕ) → length xs ≡ count_if (λ x. true) xs
length-count [] = sym (count_if-nil {A = ℕ} (λ x. true))
length-count (x ∷ xs) = omega (arith, length-count xs, count_if-cons (λ (y : ℕ). true) x xs)

length-perm : (xs ys : List ℕ) → Perm xs ys → length xs ≡ length ys
length-perm xs ys p = length-count xs ∙ count_if-perm (λ (x : ℕ). true) p ∙ sym (length-count ys)

-- The peers that were chosen from each group and those that were not.
pub record IsChoice (lookup : ℕ → ℤ) (l : Location) (candidates : List ℕ) (n : ℕ)
    (out_peers result : List ℕ) : Type 0 where
  pub own : List ℕ
  pub inside : List ℕ
  pub outside : List ℕ
  pub own_left : List ℕ
  pub inside_left : List ℕ
  pub outside_left : List ℕ
  pub appended : result ≡ ((out_peers ++ own) ++ inside) ++ outside
  -- Every candidate was chosen once or was left.
  pub parts :
      Perm ((own ++ own_left) ++ ((inside ++ inside_left) ++ (outside ++ outside_left))) candidates
  pub own_pid : AllAt lookup (is_own l.self_pid) (own ++ own_left)
  pub inside_pid : AllAt lookup (is_inside l.self_pid l.intra_isp_pids) (inside ++ inside_left)
  pub outside_pid : AllAt lookup (is_outside l.self_pid l.intra_isp_pids) (outside ++ outside_left)
  pub own_many : length own ≡ min (l.shares.intra_pid n) (length (own ++ own_left))
  pub inside_many :
      length inside
      ≡ min
          (l.shares.intra_isp n (length out_peers) (length out_peers + length own))
          (length (inside ++ inside_left))
  pub outside_many :
      length outside ≡ min (n - (length own + length inside)) (length (outside ++ outside_left))
  pub at_most : length own + length inside + length outside ≤ n

module _ (l : Location) (lookup : ℕ → ℤ) (rand : ℕ → ℕ) (candidates : List ℕ) (n : ℕ)
    (out_peers : List ℕ) where
  abbrev g : PeerGroups
  g = group lookup l.self_pid l.intra_isp_pids candidates

  module _ (num1 num2 num3 : ℕ) (o1 o2 o3 : List ℕ)
      (t1 : IsTaken num1 g.intra_pid_peers out_peers o1) (t2 : IsTaken num2 g.intra_isp_peers o1 o2)
      (t3 : IsTaken num3 g.external_peers o2 o3) (e1 : num1 ≡ l.shares.intra_pid n)
      (e2 : num2 ≡ l.shares.intra_isp n (length out_peers) (length o1))
      (e3 : num3 ≡ num_external n (length out_peers) (length o2)) (small : n < 2 ^ 32)
      (few : length out_peers < 2 ^ 32) (pid_share : l.shares.intra_pid n ≤ n)
      (isp_share : (size : ℕ)
        → l.shares.intra_isp n (length out_peers) size ≤ n + length out_peers - size) where
    size1 : length o1 ≡ length out_peers + length t1.taken
    size1 = ap (λ (xs : List ℕ). length xs) t1.appended ∙ length-append out_peers t1.taken

    size2 : length o2 ≡ length out_peers + length t1.taken + length t2.taken
    size2 =
        ap (λ (xs : List ℕ). length xs) t2.appended
        ∙ length-append o1 t2.taken
        ∙ ap (λ (k : ℕ). k + length t2.taken) size1

    within : length t1.taken + length t2.taken ≤ n
    within = omega (arith, t1.many, t2.many, size1, e1, e2, pid_share, isp_share (length o1))

    remaining : num3 ≡ n - (length t1.taken + length t2.taken)
    remaining = omega (arith, e3, size2, within, small, few)

    choice : IsChoice lookup l candidates n out_peers o3
    choice =
        let groups = group_lem lookup l.self_pid l.intra_isp_pids candidates in
        record {
          own = t1.taken;
          inside = t2.taken;
          outside = t3.taken;
          own_left = t1.left;
          inside_left = t2.left;
          outside_left = t3.left;
          appended =
              t3.appended
              ∙ ap (λ (xs : List ℕ). xs ++ t3.taken)
                  (t2.appended ∙ ap (λ (xs : List ℕ). xs ++ t2.taken) t1.appended);
          parts = Perm.trans (Perm.append t1.parts (Perm.append t2.parts t3.parts)) groups.all;
          own_pid =
              parts-AllAt lookup (is_own l.self_pid) (t1.taken ++ t1.left) g.intra_pid_peers
                t1.parts groups.own;
          inside_pid =
              parts-AllAt lookup (is_inside l.self_pid l.intra_isp_pids) (t2.taken ++ t2.left)
                g.intra_isp_peers t2.parts groups.inside;
          outside_pid =
              parts-AllAt lookup (is_outside l.self_pid l.intra_isp_pids) (t3.taken ++ t3.left)
                g.external_peers t3.parts groups.outside;
          own_many =
              omega
                (arith, t1.many, e1, length-perm (t1.taken ++ t1.left) g.intra_pid_peers t1.parts);
          inside_many = omega (
            arith,
            t2.many,
            e2 ∙ ap (l.shares.intra_isp n (length out_peers)) size1,
            length-perm (t2.taken ++ t2.left) g.intra_isp_peers t2.parts,
          );
          outside_many = omega (
            arith,
            t3.many,
            remaining,
            length-perm (t3.taken ++ t3.left) g.external_peers t3.parts,
          );
          at_most = omega (arith, t3.many, remaining, within);
        }

  -- Where there is a PID map, the client's own PID is internal, and the candidates are at least as many
  -- as are to be selected (fewer than 2^32, as are the peers in out_peers), and where no share exceeds
  -- what is to be selected: selectPeers succeeds and appends peers of its own PID, then of the ISP's
  -- other internal PIDs, then others. No candidate is chosen twice, each part has as many as its share
  -- and its group allow, and all together are at most as many as asked for.
  pub select_peers_lem :
      l.pidmap ≡ some lookup
      → ltb_ℤ l.self_pid (pos 0) ≡ false
      → ltb_ℤ l.self_pid (to_i32 l.intra_isp_pids) ≡ true
      → 0 < length candidates
      → n ≤ length candidates
      → n < 2 ^ 32
      → length out_peers < 2 ^ 32
      → l.shares.intra_pid n ≤ n
      → ((size : ℕ) → l.shares.intra_isp n (length out_peers) size ≤ n + length out_peers - size)
      → (result : List ℕ) × (select_peers l rand candidates n out_peers ≡ (result, pos 0))
        × IsChoice lookup l candidates n out_peers result
  unfolding select_peers take_all
  select_peers_lem map known internal some_left enough small few pid_share isp_share =
      let num1 = l.shares.intra_pid n in
      let r1 = take_from num1 rand 0 g.intra_pid_peers out_peers in
      let num2 = l.shares.intra_isp n (length out_peers) (length r1.0) in
      let r2 = take_from num2 rand r1.1 g.intra_isp_peers r1.0 in
      let num3 = num_external n (length out_peers) (length r2.0) in
      let r3 = take_from num3 rand r2.1 g.external_peers r2.0 in
      let filled : length candidates == 0 ≡ false = ground (arith, some_left) in
      let not_few : ltb (length candidates) n ≡ false = ground (arith, enough) in
      (
        r3.0,
        rw (map, known, internal, filled, not_few, select_peers, take_all) refl,
        choice num1 num2 num3 r1.0 r2.0 r3.0 (take_from_lem num1 rand 0 g.intra_pid_peers out_peers)
            (take_from_lem num2 rand r1.1 g.intra_isp_peers r1.0)
            (take_from_lem num3 rand r2.1 g.external_peers r2.0) refl refl refl small few pid_share
            isp_share,
      )
