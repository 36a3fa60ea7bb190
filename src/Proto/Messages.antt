-- ===== src/Proto/Messages.antt =====
-- The messages of the pipe protocol: crates/yspot-proto/src/lib.rs. An `f32` stands as its bits; the
-- payload of an event (`rmpv::Value`) is a parameter.
use yspot.Prelude.{ℕ, Bool, List, Option, Bytes}

abbrev pub proto_version : ℕ
proto_version = 1

-- The application error codes that the service sends.
abbrev pub unsupported_version : ℕ
unsupported_version = 100

abbrev pub unknown_message : ℕ
unknown_message = 105

abbrev pub scope_unsupported : ℕ
scope_unsupported = 107

pub record ResultId : Type 0 where
  pub volume_idx : ℕ
  pub frn : ℕ

pub record Filters : Type 0 where
  pub ext : List Bytes
  pub kind : Option Bytes
  pub path_substr : Option Bytes

pub record ResultItem : Type 0 where
  pub id : ResultId
  pub path : Bytes
  pub name : Bytes
  pub score : ℕ
  pub size : Option ℕ
  pub mtime : Option ℕ
  pub match_ranges : List (ℕ × ℕ)
  pub snippet : Option Bytes

pub data SessionActivity : Type 0 where
  active idle : SessionActivity

pub data VolumeState : Type 0 where
  enumerating tailing rebuilding paused unsupported offline : VolumeState

pub record RamBytes : Type 0 where
  pub filename : ℕ
  pub content : ℕ
  pub caches : ℕ

pub record VolumeStatus : Type 0 where
  pub volume : Bytes
  pub mounts : List Bytes
  pub fs : Bytes
  pub state : VolumeState
  pub files_indexed : ℕ
  pub usn_lag_ms : ℕ
  pub content_docs : ℕ
  pub ram_bytes : RamBytes

-- The fields in the source's order.
pub data Message (Value : Type 0) : Type 0 where
  hello : ℕ → ℕ → Bytes → ℕ → Message Value
  hello_ack : ℕ → Bytes → ℕ → Message Value
  search_query : ℕ → ℕ → Bytes → List Bytes → Filters → ℕ → Message Value
  content_search_query : ℕ → ℕ → Bytes → List Bytes → ℕ → Bool → Message Value
  search_results : ℕ → ℕ → Bool → List ResultItem → Message Value
  cancel : ℕ → Message Value
  index_status_req : ℕ → Message Value
  index_status : ℕ → List VolumeStatus → Message Value
  session_state : SessionActivity → Message Value
  pause_indexing : ℕ → Message Value
  resume_indexing : ℕ → Message Value
  ack : ℕ → Message Value
  subscribe : ℕ → List Bytes → Message Value
  event : Bytes → Value → Message Value
  error : Option ℕ → Option ℕ → ℕ → Bytes → Bool → Message Value
