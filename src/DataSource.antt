-- ===== src/DataSource.antt =====
-- Where common/cpp/src/lib/isp_pidmap.cpp and isp_pdistancemap.cpp load their data from: a portal
-- server or a local file, whose answers are parameters, and the error code of each failure.
pub mod Outcomes
use alto.Prelude.{ℕ, List, [], Option, none, some, ◌⊎◌, inl, inr}
use alto.Prelude.Int.{ℤ, negsuc}

abbrev pub err_connection_failure : ℤ
err_connection_failure = negsuc 2

abbrev pub err_protocol_failure : ℤ
err_protocol_failure = negsuc 3

abbrev pub err_file_open_failed : ℤ
err_file_open_failed = negsuc 4

abbrev pub err_file_read_failed : ℤ
err_file_read_failed = negsuc 5

pub record Meta : Type 0 where
  pub ttl : ℕ
  pub version : List ℕ

-- A request to a portal server: its answer, or the exception it ends with.
pub data PortalReply (A : Type 0) : Type 0 where
  answered : A → Meta → PortalReply A
  connection_error : PortalReply A
  protocol_error : PortalReply A

-- A file read through a response reader: what it holds, or where it failed.
pub data FileReply (A : Type 0) : Type 0 where
  contents : A → FileReply A
  not_opened : FileReply A
  not_parsed : FileReply A

-- The two data sources, one of which is in use: `proto` if it is set, else the file.
pub record Source : Type 0 where
  pub proto : Option (List ℕ × ℕ)
  pub filename : List ℕ

-- What stands outside the program: servers by address and port, files by name, and the clock.
pub record World (A : Type 0) : Type 0 where
  pub portal : List ℕ × ℕ → PortalReply A
  pub file : List ℕ → FileReply A
  pub now : ℕ

abbrev pub set_server : Source → List ℕ → ℕ → Source
set_server source addr port = record { proto = some (addr, port); filename = [] }

abbrev pub set_file : Source → List ℕ → Source
set_file source filename = record { proto = none; filename = filename }

abbrev pub portal_addr : Source → List ℕ
portal_addr source = elim source.proto [ none ↦ [] | some server ↦ server.0 ]

abbrev pub portal_port : Source → ℕ
portal_port source = elim source.proto [ none ↦ 0 | some server ↦ server.1 ]

module _ {A : Type 0} where
  abbrev from_portal : PortalReply A → ℤ ⊎ (A × Meta)
  from_portal (answered a meta) = inr (a, meta)
  from_portal connection_error = inl err_connection_failure
  from_portal protocol_error = inl err_protocol_failure

  -- A file defines neither a time to live nor a version.
  abbrev from_file : ℕ → FileReply A → ℤ ⊎ (A × Meta)
  from_file default_ttl (contents a) = inr (a, record { ttl = default_ttl; version = [] })
  from_file default_ttl not_opened = inl err_file_open_failed
  from_file default_ttl not_parsed = inl err_file_read_failed

  unfoldable pub retrieve : ℕ → World A → Source → ℤ ⊎ (A × Meta)
  retrieve default_ttl world source = elim source.proto [
    | some server ↦ from_portal (world.portal server)
    | none ↦ from_file default_ttl (world.file source.filename)
  ]
