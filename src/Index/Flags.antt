-- ===== src/Index/Flags.antt =====
-- `flags` of crates/yspot-index/src/lib.rs. A `u16` of flags is a number; `&`, `|` and `& !` with one
-- bit are written out by arithmetic.
use Prim.Native.Nat.{◌-◌}
use yspot.Prelude.{ℕ, ◌+◌, ◌/◌, ◌%◌, ◌≡◌, Bool, true, false, ◌==◌, if◌then◌else◌, arith}

abbrev pub dir : ℕ
dir = 1

abbrev pub hidden : ℕ
hidden = 2

abbrev pub system : ℕ
system = 4

abbrev pub dead : ℕ
dead = 8

-- `flags & bit != 0`
abbrev pub has_flag : ℕ → ℕ → Bool
has_flag bit flags = flags / bit % 2 == 1

-- `flags | bit`
abbrev pub with_flag : ℕ → ℕ → ℕ
with_flag bit flags = if has_flag bit flags then flags else flags + bit

-- `flags & !bit`
abbrev pub without_flag : ℕ → ℕ → ℕ
without_flag bit flags = if has_flag bit flags then flags - bit else flags

pub has_flag-without_flag : (f : ℕ) → has_flag dead (without_flag dead f) ≡ false
has_flag-without_flag f = ground arith

pub has_flag-with_flag : (f : ℕ) → has_flag dead (with_flag dead f) ≡ true
has_flag-with_flag f = ground arith

pub without_flag_of_not : (f : ℕ) → has_flag dead f ≡ false → without_flag dead f ≡ f
without_flag_of_not f h = ground arith
