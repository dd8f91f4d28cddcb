-- ===== src/PidPeerSelectionHelper/Copying.antt =====
-- The copy strategy gives each candidate once.
use mathlib.Core.List.Perm
use Prim.Native.Nat.{min}
use mathlib.Core.Path.{subst}
use alto.Prelude.{
  take_out-perm, ℕ, suc, ◌+◌, ◌-◌, ◌%◌, ◌≡◌, ◌∙◌, ◌⊎◌, sym, ap, refl, ◌==◌, true, false, List, [],
  ◌∷◌, ◌++◌, Option, none, some, inl, inr, length, set, map, drop_last, replicate, arith, Perm,
  Bool-cases, get_elem?_lt, length-set, length-drop_last, nil_of_length,
}
use alto.Prelude.Int.{ℤ, pos, pos_part, ◌-ℤ◌}
use alto.Prelude.Run.{ok}
use alto.PidPeerSelectionHelper.{
  PidPeerSelectionHelper, PidInfo, copy, choose_strategy, select_copy, select_in, select_peer,
  pid_idx,
}
use alto.PidPeerSelectionHelper.Entry.{select_each, entry_of, entry-set, select_peer-in}

-- A draw from some candidates takes exactly one of them out.
select_copy_lem :
    (info : PidInfo) (rand : ℕ)
    → (length info.candidates == 0) ≡ false
    → (peer : ℕ) × (info' : PidInfo) × (select_copy info rand ≡ ok (info', some peer))
      × (info'.strategy ≡ info.strategy)
      × (info'.num_peers ≡ info.num_peers -ℤ pos 1)
      × Perm (peer ∷ info'.candidates) info.candidates
      × (length info'.candidates + 1 ≡ length info.candidates)
unfolding select_copy
select_copy_lem info rand some_left =
    let n = length info.candidates in
    let (peer, e) = get_elem?_lt info.candidates (rand % n) (grind (arith, some_left)) in
    let (back, l) = get_elem?_lt info.candidates (n - 1) (ground (arith, some_left)) in
    (
      peer,
      record info {
        candidates = drop_last (set info.candidates (rand % n) back);
        num_peers = info.num_peers -ℤ pos 1;
      },
      rw (some_left, e, l, select_copy) refl,
      refl,
      refl,
      take_out-perm info.candidates (rand % n) peer back e l,
      ground (
        arith,
        some_left,
        length-drop_last (set info.candidates (rand % n) back),
        length-set info.candidates (rand % n) back,
      ),
    )

select_copy-nil :
    (info : PidInfo) (rand : ℕ)
    → (length info.candidates == 0) ≡ true
    → select_copy info rand ≡ ok (info, none)
unfolding select_copy
select_copy-nil info rand e = rw (e, select_copy) refl

-- What some calls return: each of the candidates once, in some order, and then NULL.
pub record IsDrained (returned : List (Option ℕ)) (c : List ℕ) (calls : ℕ) : Type 0 where
  pub given : List ℕ
  pub left : List ℕ
  pub gives : returned ≡ map some given ++ replicate (calls - length given) none
  pub parts : Perm (given ++ left) c
  pub many : length given ≡ min calls (length c)

module _ {F : Type 0} where
  -- selectPeer for the PID follows the copy strategy, with these candidates.
  pub record IsCopying (s : PidPeerSelectionHelper F) (pid : ℤ) (c : List ℕ) : Type 0 where
    pub info : PidInfo
    pub chosen : PidInfo
    pub at : entry_of s pid ≡ some info
    pub chooses : choose_strategy s.isp_peers s.total_peers pid info ≡ (chosen, true)
    pub by_copy : chosen.strategy ≡ copy
    pub from : chosen.candidates ≡ c

  choose-copy :
      (s : PidPeerSelectionHelper F) (pid : ℤ) (info : PidInfo)
      → info.strategy ≡ copy
      → choose_strategy s.isp_peers s.total_peers pid info ≡ (info, true)
  unfolding choose_strategy
  choose-copy s pid info e = ground (arith, e)

  keeps_IsCopying :
      (s : PidPeerSelectionHelper F) (pid : ℤ) (info info' : PidInfo)
      → entry_of s pid ≡ some info
      → info'.strategy ≡ copy
      → IsCopying
          (record s { pidinfo = set s.pidinfo (pos_part (pid_idx s pid)) info' })
          pid
          info'.candidates
  keeps_IsCopying s pid info info' e h = record {
    info = info';
    chosen = info';
    at = entry-set s pid info info' e;
    chooses = choose-copy s pid info' h;
    by_copy = h;
    from = refl;
  }

  select_in-copy :
      (s : PidPeerSelectionHelper F) (pid : ℤ) (info chosen : PidInfo) (rand : ℕ) (rands : List ℕ)
      → choose_strategy s.isp_peers s.total_peers pid info ≡ (chosen, true)
      → chosen.strategy ≡ copy
      → select_in s.isp_peers s.total_peers pid info rand rands ≡ select_copy chosen rand
  unfolding select_in
  select_in-copy s pid info chosen rand rands c e = ground (arith, c, e)

  -- One call: nothing from no candidates, or one candidate, which is taken out.
  copy_step :
      (s : PidPeerSelectionHelper F) (pid : ℤ) (c : List ℕ) (rand : ℕ) (rands : List ℕ)
      → IsCopying s pid c
      → ((c ≡ [])
          × ((s' : PidPeerSelectionHelper F) × (select_peer s pid rand rands ≡ ok (s', none))
              × IsCopying s' pid []))
        ⊎ ((peer : ℕ) × (c' : List ℕ) × (s' : PidPeerSelectionHelper F) × (select_peer s pid rand
                rands
              ≡ ok (s', some peer))
            × IsCopying s' pid c'
            × Perm (peer ∷ c') c
            × (length c' + 1 ≡ length c))
  copy_step s pid c rand rands h = elim (Bool-cases (length h.chosen.candidates == 0)) [
    | inl spent ↦
        let gone = nil_of_length h.chosen.candidates (ground (arith, spent)) in
        inl (
          sym h.from ∙ gone,
          (
            record s { pidinfo = set s.pidinfo (pos_part (pid_idx s pid)) h.chosen },
            select_peer-in s pid rand rands h.info h.chosen none h.at (
                select_in-copy s pid h.info h.chosen rand rands h.chooses h.by_copy
                ∙ select_copy-nil h.chosen rand spent),
            subst
                (IsCopying
                  (record s { pidinfo = set s.pidinfo (pos_part (pid_idx s pid)) h.chosen }) pid)
                gone (keeps_IsCopying s pid h.info h.chosen h.at h.by_copy),
          ),
        )
    | inr some_left ↦
        let (peer, info', selects, kept, _, p, l) = select_copy_lem h.chosen rand some_left in
        inr (
          peer,
          info'.candidates,
          record s { pidinfo = set s.pidinfo (pos_part (pid_idx s pid)) info' },
          select_peer-in s pid rand rands h.info info' (some peer) h.at
              (select_in-copy s pid h.info h.chosen rand rands h.chooses h.by_copy ∙ selects),
          keeps_IsCopying s pid h.info info' h.at (kept ∙ h.by_copy),
          subst (Perm (peer ∷ info'.candidates)) h.from p,
          l ∙ ap (λ (xs : List ℕ). length xs) h.from,
        )
  ]

  pub drains :
      (calls : List (ℕ × List ℕ)) (s : PidPeerSelectionHelper F) (pid : ℤ) (c : List ℕ)
      → IsCopying s pid c
      → (s' : PidPeerSelectionHelper F) × (returned : List (Option ℕ)) × (select_each s pid calls
          ≡ ok (s', returned))
        × IsDrained returned c (length calls)
  unfolding select_each
  drains [] s pid c h = (
    s,
    [],
    refl,
    record { given = []; left = c; gives = refl; parts = Perm.rfl; many = ground arith },
  )
  drains ((rand, rands) ∷ calls) s pid c h = elim (copy_step s pid c rand rands h) [
    | inl (spent, (s', selects, h')) ↦
        let (s'', returned, runs, d) = drains calls s' pid [] h' in
        let none_given = nil_of_length d.given (omega (arith, d.many)) in
        (
          s'',
          none ∷ returned,
          rw (selects, runs, select_each) refl,
          record {
            given = [];
            left = [];
            gives =
                ap (λ (r : List (Option ℕ)). none ∷ r)
                  (d.gives
                    ∙ ap (λ (g : List ℕ). map some g ++ replicate (length calls - length g) none)
                        none_given)
                ∙ ap (λ (k : ℕ). replicate {A = Option ℕ} k none)
                    (let e : suc (length calls - 0) ≡ suc (length calls) - 0 = omega arith in e);
            parts = rw spent Perm.rfl;
            many = ground (arith, spent);
          },
        )
    | inr (peer, c', s', selects, h', p, l) ↦
        let (s'', returned, runs, d) = drains calls s' pid c' h' in
        (
          s'',
          some peer ∷ returned,
          rw (selects, runs, select_each) refl,
          record {
            given = peer ∷ d.given;
            left = d.left;
            gives =
                ap (λ (r : List (Option ℕ)). some peer ∷ r) d.gives
                ∙ ap (λ (k : ℕ). some peer ∷ (map some d.given ++ replicate k none))
                    (let e : length calls - length d.given
                          ≡ suc (length calls) - suc (length d.given) =
                        omega arith in
                      e);
            parts = Perm.trans (Perm.cons peer d.parts) p;
            many = ground (arith, d.many, l);
          },
        )
  ]
