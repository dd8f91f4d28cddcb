-- ===== src/IspPidMap.antt =====
-- common/cpp/src/include/p4p/isp_pidmap.h and lib/isp_pidmap.cpp: the PIDs of an ISP and the
-- prefixes that belong to each. The Patricia trie is the vendored MRT one: an interface here.
pub mod Contents
pub mod Loads
pub mod Lookups
mod Tests
use alto.Prelude.{
  ℕ, zero, suc, ◌+◌, Bool, true, List, [], ◌∷◌, map, Option, none, some, inl, inr, ltb, leb, length,
  get_elem?, if◌then◌else◌, ◌||◌, ◌≡◌, ◌⊎◌,
}
use alto.Prelude.Int.{ℤ, pos, negsuc, pos_part, ltb_ℤ}
use alto.Prelude.Words.{to_i32}
use alto.Pid
use alto.Pid.{Pid, invalid}
use alto.SwarmState.{err_unknown_pid}
use alto.DataSource.{Source, World, retrieve, set_server, set_file}

-- The operations of `PatriciaTrie<int>` that the map calls.
pub record Tries : Type 1 where
  pub Addr : Type 0
  pub Prefix : Type 0
  pub Trie : Type 0
  pub new_trie : Trie
  pub add : Trie → Prefix → ℤ → Trie
  pub lookup_trie : Trie → Addr → Option (Prefix × ℤ)

-- 2 * 24 * 60 * 60
abbrev pub default_ttl : ℕ
default_ttl = 172800

-- The loop of getPIDIndex from index `i` on.
pub index_from : ℕ → List Pid → Pid → ℤ
index_from i [] pid = err_unknown_pid
index_from i (p ∷ ps) pid = if Pid.eq p pid then to_i32 i else index_from (suc i) ps pid

module _ (tries : Tries) where
  open tries use {Addr, Prefix, Trie, new_trie, add, lookup_trie}

  -- What the map relies on: a trie answers for an address a prefix that covers it, with the value
  -- that the prefix was added with, and answers for every address that an added prefix covers.
  pub record AnswersAdded : Type 0 where
    pub covers : Prefix → Addr → Bool
    pub lookup_new : (a : Addr) → lookup_trie new_trie a ≡ none
    pub lookup_add :
        (t : Trie) (p : Prefix) (v : ℤ) (a : Addr) (r : Prefix × ℤ)
        → lookup_trie (add t p v) a ≡ some r
        → ((r ≡ (p, v)) × (covers p a ≡ true)) ⊎ (lookup_trie t a ≡ some r)
    pub lookup_kept :
        (t : Trie) (p : Prefix) (v : ℤ) (a : Addr) (r : Prefix × ℤ)
        → lookup_trie t a ≡ some r
        → (r' : Prefix × ℤ) × (lookup_trie (add t p v) a ≡ some r')
    pub lookup_covered :
        (t : Trie) (p : Prefix) (v : ℤ) (a : Addr)
        → covers p a ≡ true
        → (r : Prefix × ℤ) × (lookup_trie (add t p v) a ≡ some r)

  pub record PidPrefixes : Type 0 where
    pub pid : Pid
    pub prefixes : List Prefix

  pub record IspPidMap : Type 0 where
    pub source : Source
    pub trie : Trie
    pub pids : List Pid
    pub intraisp_pids : ℕ
    pub last_update : ℕ
    pub ttl : ℕ
    pub version : List ℕ

  -- The constructor without a data source; it leaves the count of internal PIDs uninitialised.
  abbrev pub new : ℕ → IspPidMap
  new uninitialised = record {
    source = record { proto = none; filename = [] };
    trie = new_trie;
    pids = [];
    intraisp_pids = uninitialised;
    last_update = 0;
    ttl = default_ttl;
    version = [];
  }

  abbrev pub set_data_source_server : IspPidMap → List ℕ → ℕ → IspPidMap
  set_data_source_server s addr port = record s { source = set_server s.source addr port }

  abbrev pub set_data_source_file : IspPidMap → List ℕ → IspPidMap
  set_data_source_file s filename = record s { source = set_file s.source filename }

  -- The PID, and the prefix that `matching_prefix` is set to.
  unfoldable pub lookup : IspPidMap → Addr → ℤ × Option Prefix
  lookup s addr = elim (lookup_trie s.trie addr) [
    | none ↦ (err_unknown_pid, none)
    | some (prefix, pid) ↦ (pid, some prefix)
  ]

  unfoldable pub get_pid_info : IspPidMap → ℤ → Pid
  get_pid_info s pid =
      if ltb_ℤ pid (pos 0) || leb (length s.pids) (pos_part pid)
      then invalid
      else elim (get_elem? s.pids (pos_part pid)) [ none ↦ invalid | some p ↦ p ]

  unfoldable pub get_pid_index : IspPidMap → Pid → ℤ
  get_pid_index s pid = index_from 0 s.pids pid

  abbrev pub list_pids : IspPidMap → List Pid
  list_pids s = s.pids

  -- The numbers of internal and of all PIDs.
  abbrev pub get_num_pids : IspPidMap → ℕ × ℕ
  get_num_pids s = (s.intraisp_pids, length s.pids)

  -- The prefixes of the PID at index `i`, added one by one.
  pub add_prefixes : Trie → ℕ → List Prefix → Trie
  add_prefixes trie i [] = trie
  add_prefixes trie i (p ∷ ps) = add_prefixes (add trie p (to_i32 i)) i ps

  -- The loop of loadP4PInfo from index `i` on: the PIDs, the count of internal ones, the trie.
  pub build : Trie → ℕ → List PidPrefixes → List Pid × ℕ × Trie
  build trie i [] = ([], 0, trie)
  build trie i (entry ∷ entries) =
      let (pids, internal, trie') = build (add_prefixes trie i entry.prefixes) (suc i) entries in
      (entry.pid ∷ pids, (if entry.pid.external then internal else suc internal), trie')

  unfoldable pub load_p4p_info : World (List PidPrefixes) → IspPidMap → IspPidMap × ℤ
  load_p4p_info world s = elim (retrieve default_ttl world s.source) [
    | inl error ↦ (s, error)
    | inr (prefixes, meta) ↦
        let (pids, internal, trie) = build new_trie 0 prefixes in
        (
          record {
            source = s.source;
            trie = trie;
            pids = pids;
            intraisp_pids = internal;
            last_update = world.now;
            ttl = meta.ttl;
            version = meta.version;
          },
          pos 0,
        )
  ]
