-- ===== src/IspPidMap/Tests.antt =====
-- Runs and witnesses for the PID map, over a trie of exact addresses.
use mathlib.Core.Path.{subst}
use alto.Prelude.{
  ℕ, ◌==◌, ◌≤◌, ◌^◌, ◌≡◌, refl, ◌⊎◌, inl, inr, List, [], ◌∷◌, map, Option, none, some, length,
  if◌then◌else◌, arith, Bool-cases,
}
use alto.Prelude.Int.{ℤ, pos}
use alto.Prelude.Count.{count_if}
use alto.Pid.{Pid}
use alto.DataSource.{World, Meta, PortalReply, FileReply, retrieve}
use alto.DataSource.Outcomes.{Supplies, Fails}
use alto.IspPidMap.{
  Tries, AnswersAdded, PidPrefixes, IspPidMap, new, set_data_source_server, list_pids, get_num_pids,
  load_p4p_info, default_ttl, build, add_prefixes,
}
use alto.IspPidMap.Loads.{is_internal, LooksUp, load_p4p_info_lem}
use alto.IspPidMap.Lookups.{PointsInside, load-PointsInside}

-- A trie whose prefixes are single addresses.
abbrev find_exact : List (ℕ × ℤ) → ℕ → Option (ℕ × ℤ)
find_exact [] a = none
find_exact ((p, v) ∷ t) a = if p == a then some (p, v) else find_exact t a

abbrev exact : Tries
exact = record {
  Addr = ℕ;
  Prefix = ℕ;
  Trie = List (ℕ × ℤ);
  new_trie = [];
  add = λ t p v. (p, v) ∷ t;
  lookup_trie = find_exact;
}

exact-AnswersAdded : AnswersAdded exact
exact-AnswersAdded = record {
  covers = λ p a. p == a;
  lookup_new = λ a. refl;
  lookup_add = λ t p v a r e. elim (Bool-cases (p == a)) [
    | inl here ↦ inl (ground arith, here)
    | inr other ↦ inr (ground arith)
  ];
  lookup_kept = λ t p v a r e. elim (Bool-cases (p == a)) [
    | inl here ↦ ((p, v), ground (arith, here))
    | inr other ↦ (r, ground (arith, other, e))
  ];
  lookup_covered = λ t p v a c. ((p, v), ground (arith, c));
}

abbrev pid : ℕ → Pid
pid n = record { isp = []; num = n; external = n == 9 }

abbrev entries : List (PidPrefixes exact)
entries =
    record { pid = pid 5; prefixes = 100 ∷ 101 ∷ [] }
    ∷ record { pid = pid 9; prefixes = 200 ∷ [] }
    ∷ []

abbrev world : World (List (PidPrefixes exact))
world = record {
  portal = λ server. PortalReply.answered entries (record { ttl = 60; version = [] });
  file = λ name. FileReply.not_opened;
  now = 1000;
}

abbrev before : IspPidMap exact
before = set_data_source_server exact (new exact 77) (1 ∷ []) 80

abbrev after : IspPidMap exact
after = record {
  source = record { proto = some (1 ∷ [], 80); filename = [] };
  trie = (200, pos 1) ∷ (101, pos 0) ∷ (100, pos 0) ∷ [];
  pids = pid 5 ∷ pid 9 ∷ [];
  intraisp_pids = 1;
  last_update = 1000;
  ttl = 60;
  version = [];
}

load_run : load_p4p_info exact world before ≡ (after, pos 0)
unfolding load_p4p_info retrieve build add_prefixes
load_run = refl

before-PointsInside : PointsInside exact before
before-PointsInside = record { inside = λ a r e. cc }

retrieved :
    (es : List (PidPrefixes exact)) (meta : Meta)
    → retrieve default_ttl world before.source ≡ inr (es, meta)
    → length es ≤ 2 ^ 31
unfolding retrieve
retrieved es meta e = let same : entries ≡ es = ground (arith, e) in rw (← same) (omega arith)

after-PointsInside : PointsInside exact after
after-PointsInside =
    subst (λ (r : IspPidMap exact × ℤ). PointsInside exact r.0) load_run
      (load-PointsInside exact exact-AnswersAdded world before retrieved before-PointsInside)

supplied :
    (es : List (PidPrefixes exact)) (meta : Meta)
    → Supplies 172800 world before.source es meta
    → length es ≤ 2 ^ 31
supplied es meta (inl (server, e, f)) =
    let same : entries ≡ es = ground (arith, f) in rw (← same) (omega arith)
supplied es meta (inr (e, _, _)) = absurd (ground (arith, e))

abbrev Outcome : IspPidMap exact × ℤ → Type 0
Outcome (s', rc) =
    (Fails world before.source rc × (s' ≡ before))
    ⊎ ((entries : List (PidPrefixes exact)) × (meta : Meta) × Supplies 172800 world before.source
          entries meta
        × (rc ≡ pos 0)
        × (list_pids exact s' ≡ map (λ e. e.pid) entries)
        × (get_num_pids exact s' ≡ (count_if (is_internal exact) entries, length entries))
        × ((a : ℕ) → LooksUp exact exact-AnswersAdded entries s' a)
        × (s'.ttl ≡ meta.ttl)
        × (s'.version ≡ meta.version)
        × (s'.last_update ≡ world.now)
        × (s'.source ≡ before.source))

load_p4p_info_lem_example : Outcome (load_p4p_info exact world before)
load_p4p_info_lem_example = load_p4p_info_lem exact exact-AnswersAdded world before supplied
