-- ===== src/Matching/Tier.antt =====
-- The tiers of a hit: crates/yspot-index/src/matching.rs (`Tier`, `classify`, `is_sep_byte`).
pub mod Laws
use yspot.Prelude.{ℕ, Bool, ◌||◌, ◌==◌, if◌then◌else◌}
use yspot.Index.Columns.{folded_delim}

pub data Tier : Type 0 where
  exact prefix word_boundary initials substring fuzzy : Tier

abbrev pub is_sep_byte : ℕ → Bool
is_sep_byte b = b == b'-' || b == b'_' || b == b'.' || b == b' '

-- From the bytes before and behind the hit.
unfoldable pub classify : ℕ → ℕ → Tier
classify before after =
    if before == folded_delim
    then (if after == folded_delim then exact else prefix)
    else if is_sep_byte before
    then word_boundary
    else substring
