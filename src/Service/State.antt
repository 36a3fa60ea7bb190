-- ===== src/Service/State.antt =====
-- The state that the service shares: crates/yspot-indexd/src/state.rs. The atomics are fields; the index
-- behind its lock is not a field of this record.
pub mod Laws
use Prim.Native.Nat.{◌-◌}
use yspot.Prelude.{
  ℕ, ◌+◌, Bool, true, false, Option, none, some, Bytes, [], ◌∷◌, ltb, ◌==◌, if◌then◌else◌,
}
use yspot.Proto.Messages.{
  VolumeState, enumerating, tailing, rebuilding, paused, VolumeStatus, RamBytes, SessionActivity,
}

abbrev pub vs_enumerating : ℕ
vs_enumerating = 0

abbrev pub vs_tailing : ℕ
vs_tailing = 1

abbrev pub vs_rebuilding : ℕ
vs_rebuilding = 2

unfoldable pub vol_state_from_u8 : ℕ → VolumeState
vol_state_from_u8 v =
    if v == vs_enumerating then enumerating else if v == vs_rebuilding then rebuilding else tailing

pub data Mode : Type 0 where
  walk mft : Mode

pub record ServiceState : Type 0 where
  pub vol_state : ℕ
  pub is_paused : Bool
  pub index_epoch : ℕ
  pub root_path : Bytes
  pub active_sessions : ℕ
  pub rebuilds : ℕ
  pub mode : Mode

unfoldable pub new_state : Bytes → Mode → ServiceState
new_state root_path mode = record {
  vol_state = vs_enumerating;
  is_paused = false;
  index_epoch = 1;
  root_path = root_path;
  active_sessions = 0;
  rebuilds = 0;
  mode = mode;
}

unfoldable pub machine_idle : ServiceState → Bool
machine_idle s = s.active_sessions == 0

unfoldable pub set_session_active : Bool → Bool → ServiceState → ServiceState
set_session_active false true s = record s { active_sessions = s.active_sessions + 1 }
set_session_active true false s = record s { active_sessions = s.active_sessions - 1 }
set_session_active false false s = s
set_session_active true true s = s

-- `rebuilding`, and the drop of the guard that it returns.
unfoldable pub begin_rebuild : ServiceState → ServiceState
begin_rebuild s = record s { rebuilds = s.rebuilds + 1 }

unfoldable pub end_rebuild : ServiceState → ServiceState
end_rebuild s = record s { rebuilds = s.rebuilds - 1 }

unfoldable pub set_vol_state : ℕ → ServiceState → ServiceState
set_vol_state v s = record s { vol_state = v }

unfoldable pub volume_state : ServiceState → VolumeState
unfolding vol_state_from_u8
volume_state s =
    if s.is_paused
    then paused
    else if ltb 0 s.rebuilds
    then rebuilding
    else vol_state_from_u8 s.vol_state

-- `files` and `ram` are what the index reports of itself.
unfoldable pub volume_status : ServiceState → ℕ → ℕ → VolumeStatus
unfolding volume_state
volume_status s files ram = record {
  volume = s.root_path;
  mounts = s.root_path ∷ [];
  fs = elim s.mode [ mft ↦ b'N' ∷ b'T' ∷ b'F' ∷ b'S' ∷ [] | walk ↦ b'W' ∷ b'A' ∷ b'L' ∷ b'K' ∷ [] ];
  state = volume_state s;
  files_indexed = files;
  usn_lag_ms = 0;
  content_docs = 0;
  ram_bytes = record { filename = ram; content = 0; caches = 0 };
}
