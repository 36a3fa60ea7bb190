-- ===== src/Matching/Score.antt =====
-- Scores: crates/yspot-index/src/matching.rs (`tier_base`, `tier_upper_bound`, `Scored`) and
-- crates/yspot-index/src/index.rs (`DEPTH_PEN`). Every score is an `f32` that is not negative and stands as
-- its bits, whose order is `total_cmp`. The arithmetic of `f32` is a parameter.
use yspot.Prelude.{ℕ, ◌/◌, ◌%◌, Bool, ◌&&◌, ◌||◌, ltb, ◌==◌, if◌then◌else◌}
use yspot.Matching.Tier.{Tier, exact, prefix, word_boundary, initials, substring, fuzzy}

pub record F32 : Type 0 where
  pub times : ℕ → ℕ → ℕ
  pub plus : ℕ → ℕ → ℕ
  pub over : ℕ → ℕ → ℕ
  pub from_usize : ℕ → ℕ

-- The literals of the source, rounded to an `f32`.
abbrev pub one : ℕ
one = 0x3f800000

abbrev pub tier_base : Tier → ℕ
tier_base exact = one
tier_base prefix = 0x3f666666
tier_base word_boundary = 0x3f4ccccd
tier_base initials = 0x3f333333
tier_base substring = 0x3f0ccccd
tier_base fuzzy = 0x3e99999a

abbrev pub tier_upper_bound : Tier → ℕ
tier_upper_bound exact = one
tier_upper_bound prefix = 0x3f666666
tier_upper_bound word_boundary = 0x3f4ccccd
tier_upper_bound initials = 0x3f333333
tier_upper_bound substring = 0x3f0ccccd
tier_upper_bound fuzzy = 0x3f000000

-- `DEPTH_PEN[k]`
unfoldable pub depth_pen : F32 → ℕ → ℕ
depth_pen f k =
    let p = f.over one (f.plus one (f.times 0x3ca3d70a (f.from_usize (k % 128)))) in
    if k / 128 % 2 == 1 then f.times p 0x3f59999a else p

-- `0.3 + 0.2 * density`
unfoldable pub fuzzy_base : F32 → ℕ → ℕ
fuzzy_base f density = f.plus 0x3e99999a (f.times 0x3e4ccccd density)

pub record Scored : Type 0 where
  pub score : ℕ
  pub eidx : ℕ
  pub tier : Tier

-- `a.cmp(b) == Ordering::Greater`: a higher score, or the same one in a lower slot.
abbrev pub better : Scored → Scored → Bool
better a b = ltb b.score a.score || (a.score == b.score && ltb a.eidx b.eidx)
