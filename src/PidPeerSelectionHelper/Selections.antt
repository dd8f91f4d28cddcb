-- ===== src/PidPeerSelectionHelper/Selections.antt =====
-- selectPeer from the constructor on, by either strategy.
use mathlib.Core.Path.{subst}
use alto.Prelude.{
  ℕ, zero, suc, ◌+◌, ◌*◌, ◌^◌, ◌<◌, ◌≤◌, ◌≡◌, ◌∙◌, sym, ap, refl, true, false, List, [], ◌∷◌, ◌++◌,
  Option, some, inl, inr, length, get_elem?, map, set, arith, Option-cases,
}
use alto.Prelude.Int.{ℤ, pos, pos_part, ◌-ℤ◌}
use alto.Prelude.Words.{to_i32}
use alto.Prelude.Run.{ok}
use alto.RandomAccessSet.{RandomAccessSet}
use alto.PerIspPeerDistribution.{PerIspPeerDistribution, bin_at, list_pid_peers, get_num_peers}
use alto.PidPeerSelectionHelper.{
  PidPeerSelectionHelper, PidInfo, copy, nocopy, is_selected, choose_strategy, select_nocopy, draw,
  select_in, select_peer, pid_idx, new, new_info, infos,
}
use alto.PidPeerSelectionHelper.Fresh.{IsDistinct}
use alto.PidPeerSelectionHelper.Draws.{draw_ends}
use alto.PidPeerSelectionHelper.Copying.{IsCopying, IsDrained, drains}
use alto.PidPeerSelectionHelper.Entry.{select_each, entry_of, entry-set, select_peer-in}

module _ {F : Type 0} (view : PerIspPeerDistribution F) where
  infos_at :
      (i n k : ℕ)
      → k < n
      → get_elem? (infos view i n) k ≡ some (new_info (get_num_peers view (to_i32 (i + k))))
  unfolding infos
  infos_at i zero k h = absurd (omega arith)
  infos_at i (suc n) zero h =
      ap (λ (j : ℕ). some (new_info (get_num_peers view (to_i32 j))))
        (let e : i ≡ i + 0 = omega arith in e)
  infos_at i (suc n) (suc k) h =
      infos_at (suc i) n k (omega arith)
      ∙ ap (λ (j : ℕ). some (new_info (get_num_peers view (to_i32 j))))
          (let e : suc i + k ≡ i + suc k = omega arith in e)

  listed_bin :
      (pid : ℤ) (listed : List ℕ)
      → list_pid_peers view pid [] ≡ (listed, true)
      → (bin : RandomAccessSet ℕ) × (bin_at view pid ≡ some bin) × (bin.vec ≡ listed)
  unfolding list_pid_peers
  listed_bin pid listed e = elim (Option-cases (bin_at view pid)) [
    | inl gone ↦ absurd (ground (arith, e, gone))
    | inr (bin, at) ↦ (bin, at, ground (arith, e, at))
  ]

  module _ (k num_pids total : ℕ) (listed : List ℕ)
      (lists : list_pid_peers view (pos k) [] ≡ (listed, true)) (in_range : k < num_pids)
      (few_pids : num_pids < 2 ^ 31) (few : length listed < 2 ^ 31) where
    counted : get_num_peers view (to_i32 (0 + k)) ≡ pos (length listed)
    unfolding get_num_peers
    counted =
        let (bin, at, same) = listed_bin (pos k) listed lists in
        let small : to_i32 (0 + k) ≡ pos k = ground (arith, in_range, few_pids) in
        ap (get_num_peers view) small ∙ ground (arith, at, same, few)

    first_entry : entry_of (new view num_pids total) (pos k) ≡ some (new_info (pos (length listed)))
    first_entry = infos_at 0 num_pids k in_range ∙ ap (λ (n : ℤ). some (new_info n)) counted

    starts-IsCopying :
        length listed ≤ 4 * total
        → 4 * total < 2 ^ 32
        → IsCopying (new view num_pids total) (pos k) listed
    unfolding choose_strategy
    starts-IsCopying small fits = record {
      info = new_info (pos (length listed));
      chosen = record (new_info (pos (length listed))) { strategy = copy; candidates = listed };
      at = first_entry;
      chooses = ground (arith, lists, small, fits, few);
      by_copy = refl;
      from = refl;
    }

    -- For a PID index below the number of PIDs (fewer than 2^31), for which the view lists fewer than
    -- 2^31 peers, and at most four times as many as are to be selected (four times that number being
    -- below 2^32): any number of calls of selectPeer for it, whatever rand() gives, return. They give
    -- the listed peers, each at most once, as many as there are calls and peers, and NULL from then on.
    pub copy_drains :
        length listed ≤ 4 * total
        → 4 * total < 2 ^ 32
        → (calls : List (ℕ × List ℕ))
        → (s' : PidPeerSelectionHelper F) × (returned : List (Option ℕ)) × (select_each
              (new view num_pids total)
              (pos k)
              calls
            ≡ ok (s', returned))
          × IsDrained returned listed (length calls)
    copy_drains small fits calls =
        drains calls (new view num_pids total) (pos k) listed (starts-IsCopying small fits)

-- The peers that were selected, with the last one first, as the set has them.
abbrev pub marks : List ℕ → List (Option ℕ)
marks given = map some given

length-marks : (given : List ℕ) → length (marks given) ≡ length given
length-marks [] = refl
length-marks (x ∷ given) = ap suc (length-marks given)

is_selected-marks :
    (given : List ℕ) (i x : ℕ)
    → get_elem? given i ≡ some x
    → is_selected (some x) (marks given) ≡ true
unfolding is_selected
is_selected-marks [] i x e = absurd (ground (arith, e))
is_selected-marks (y ∷ given) zero x e = ground (arith, e)
is_selected-marks (y ∷ given) (suc i) x e = ground (arith, is_selected-marks given i x e)

IsDistinct-cons :
    (given : List ℕ) (x : ℕ)
    → IsDistinct given
    → is_selected (some x) (marks given) ≡ false
    → IsDistinct (x ∷ given)
IsDistinct-cons given x d fresh zero zero y a b = refl
IsDistinct-cons given x d fresh zero (suc j) y a b =
    absurd (ground (arith, a, b, is_selected-marks given j y b, fresh))
IsDistinct-cons given x d fresh (suc i) zero y a b =
    absurd (ground (arith, a, b, is_selected-marks given i y a, fresh))
IsDistinct-cons given x d fresh (suc i) (suc j) y a b = ap suc (d i j y a b)

module _ {F : Type 0} where
  -- selectPeer for the PID follows the nocopy strategy; `given` was selected, all different and all
  -- listed.
  pub record IsDrawing (s : PidPeerSelectionHelper F) (pid : ℤ) (listed given : List ℕ)
      : Type 0 where
    pub info : PidInfo
    pub chosen : PidInfo
    pub at : entry_of s pid ≡ some info
    pub chooses : choose_strategy s.isp_peers s.total_peers pid info ≡ (chosen, true)
    pub by_draw : chosen.strategy ≡ nocopy
    pub marked : chosen.selected ≡ marks given
    pub different : IsDistinct given
    pub inside : (i x : ℕ) → get_elem? given i ≡ some x → (j : ℕ) × (get_elem? listed j ≡ some x)
    pub lists : list_pid_peers s.isp_peers pid [] ≡ (listed, true)

  choose-nocopy :
      (s : PidPeerSelectionHelper F) (pid : ℤ) (info : PidInfo)
      → info.strategy ≡ nocopy
      → choose_strategy s.isp_peers s.total_peers pid info ≡ (info, true)
  unfolding choose_strategy
  choose-nocopy s pid info e = ground (arith, e)

  select_in-nocopy :
      (s : PidPeerSelectionHelper F) (pid : ℤ) (info chosen : PidInfo) (rand peer : ℕ)
      (rands : List ℕ)
      → choose_strategy s.isp_peers s.total_peers pid info ≡ (chosen, true)
      → chosen.strategy ≡ nocopy
      → draw s.isp_peers pid chosen.selected rands ≡ ok (some peer)
      → select_in s.isp_peers s.total_peers pid info rand rands
        ≡ ok (
          record chosen {
            selected = some peer ∷ chosen.selected;
            num_peers = chosen.num_peers -ℤ pos 1;
          },
          some peer,
        )
  unfolding select_in select_nocopy
  select_in-nocopy s pid info chosen rand peer rands c e d = ground (arith, c, e, d)

  -- For a PID whose listed peers are different, and that follows the nocopy strategy after some of
  -- them, but not all, were selected, all different: there is a value of rand() such that selectPeer
  -- ends whenever that value comes, whatever comes before it. The call then returns a listed peer, and
  -- the peers selected so far are still all different and listed.
  pub nocopy_ends :
      (s : PidPeerSelectionHelper F) (pid : ℤ) (listed given : List ℕ)
      → IsDistinct listed
      → IsDrawing s pid listed given
      → length given < length listed
      → (rand : ℕ) × ((first : ℕ) (before after : List ℕ)
          → (peer : ℕ) × (s' : PidPeerSelectionHelper F) × (select_peer s pid first
                (before ++ (rand ∷ after))
              ≡ ok (s', some peer))
            × IsDrawing s' pid listed (peer ∷ given))
  nocopy_ends s pid listed given d h some_left =
      let (bin, at_bin, same) = listed_bin s.isp_peers pid listed h.lists in
      let few : length h.chosen.selected < length bin.vec = omega (
        arith,
        some_left,
        length-marks given,
        ap (λ (xs : List (Option ℕ)). length xs) h.marked,
        ap (λ (xs : List ℕ). length xs) same,
      ) in
      let (rand, ends) =
        draw_ends s.isp_peers pid bin at_bin h.chosen.selected (subst IsDistinct (sym same) d)
          few in
      (
        rand,
        λ (first : ℕ) (before : List ℕ) (after : List ℕ).
            let (peer, i, runs, fresh, at) = ends before after in
            let info' = record h.chosen {
              selected = some peer ∷ h.chosen.selected;
              num_peers = h.chosen.num_peers -ℤ pos 1;
            } in
            let new_one : is_selected (some peer) (marks given) ≡ false =
              ap (is_selected (some peer)) (sym h.marked) ∙ fresh in
            (
              peer,
              record s { pidinfo = set s.pidinfo (pos_part (pid_idx s pid)) info' },
              select_peer-in s pid first (before ++ (rand ∷ after)) h.info info' (some peer) h.at (
                  select_in-nocopy s pid h.info h.chosen first peer (before ++ (rand ∷ after))
                    h.chooses h.by_draw runs),
              record {
                info = info';
                chosen = info';
                at = entry-set s pid h.info info' h.at;
                chooses = choose-nocopy s pid info' h.by_draw;
                by_draw = h.by_draw;
                marked = ap (λ (ps : List (Option ℕ)). some peer ∷ ps) h.marked;
                different = IsDistinct-cons given peer h.different new_one;
                inside = still_inside peer i (ap (λ (xs : List ℕ). get_elem? xs i) (sym same) ∙ at);
                lists = h.lists;
              },
            ),
      )
    where
      still_inside :
          (peer i : ℕ)
          → get_elem? listed i ≡ some peer
          → (j x : ℕ) → get_elem? (peer ∷ given) j ≡ some x
          → (k : ℕ) × (get_elem? listed k ≡ some x)
      still_inside peer i e zero x a = (i, e ∙ a)
      still_inside peer i e (suc j) x a = h.inside j x a

  -- The first call for a PID that lists more than four times as many peers as are to be selected takes
  -- the nocopy strategy.
  pub starts-IsDrawing :
      (view : PerIspPeerDistribution F) (k num_pids total : ℕ) (listed : List ℕ)
      → list_pid_peers view (pos k) [] ≡ (listed, true)
      → k < num_pids
      → num_pids < 2 ^ 31
      → length listed < 2 ^ 31
      → 4 * total < length listed
      → IsDrawing (new view num_pids total) (pos k) listed []
  unfolding choose_strategy
  starts-IsDrawing view k num_pids total listed lists in_range few_pids few many = record {
    info = new_info (pos (length listed));
    chosen = record (new_info (pos (length listed))) { strategy = nocopy };
    at = first_entry view k num_pids total listed lists in_range few_pids few;
    chooses = ground (arith, many, few);
    by_draw = refl;
    marked = refl;
    different = λ i j x a b. absurd (ground (arith, a));
    inside = λ i x a. absurd (ground (arith, a));
    lists = lists;
  }
