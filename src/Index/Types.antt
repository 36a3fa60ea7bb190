-- ===== src/Index/Types.antt =====
-- The data of the index: crates/yspot-index/src/index.rs (`Entry`, `ArenaRec`), and
-- crates/yspot-index/src/lib.rs (`UsnEvent`).
use yspot.Index.Flags.{dead, has_flag}
use yspot.Prelude.{ℕ, Bool, Bytes}

pub record Entry : Type 0 where
  pub frn : ℕ
  pub parent_frn : ℕ
  pub name_off : ℕ
  pub folded_off : ℕ
  pub name_len : ℕ
  pub folded_len : ℕ
  pub flags : ℕ

abbrev pub is_dead : Entry → Bool
is_dead e = has_flag dead e.flags

-- Where a folded record starts, and the slot that appended it.
pub record ArenaRec : Type 0 where
  pub off : ℕ
  pub slot : ℕ

-- A change decoded from the journal.
pub data UsnEvent : Type 0 where
  create : ℕ → ℕ → Bytes → ℕ → UsnEvent
  delete : ℕ → UsnEvent
  rename : ℕ → ℕ → Bytes → UsnEvent
  security_change : ℕ → UsnEvent
