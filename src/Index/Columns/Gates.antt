-- ===== src/Index/Columns/Gates.antt =====
-- The gates in front of the matcher's passes: `arena_may_contain` and `initials_may_contain` of
-- crates/yspot-index/src/index.rs.
pub mod Sets
pub mod Laws
use yspot.Prelude.{
  ℕ, zero, suc, ◌+◌, ◌*◌, ◌≡◌, ◌≢◌, refl, ap, Bool, true, false, Bool-cases, ◌&&◌, ◌||◌, ◌⊎◌, inl,
  inr, List, [], ◌∷◌, Option, none, some, Bytes, take, drop, ◌==◌, ==_refl, arith,
}
use yspot.Prelude.Slices.{slice}
use yspot.Index.Columns.{
  BitSet, bit_set, note_uni, note_bi, note_tri, Presence, note_folded, note_initials_lane,
}

-- Each byte, each window of two and of three is in the set.
unfoldable pub all_uni : BitSet → Bytes → Bool
all_uni s [] = true
all_uni s (a ∷ q) = s a && all_uni s q

unfoldable pub all_bi : BitSet → Bytes → Bool
all_bi s (a ∷ b ∷ q) = s (a * 256 + b) && all_bi s (b ∷ q)
all_bi s _ = true

unfoldable pub all_tri : BitSet → Bytes → Bool
all_tri s (a ∷ b ∷ c ∷ q) = s (a * 65536 + b * 256 + c) && all_tri s (b ∷ c ∷ q)
all_tri s _ = true

abbrev pub tri_gate : Option BitSet → Bytes → Bool
tri_gate none q = true
tri_gate (some s) q = all_tri s q

unfoldable pub arena_may_contain : Presence → Bytes → Bool
unfolding all_uni all_bi all_tri
arena_may_contain p q = all_uni p.uni q && (all_bi p.bi q && tri_gate p.tri q)

unfoldable pub initials_may_contain : Presence → Bytes → Bool
unfolding all_uni all_bi
initials_may_contain p q = all_uni p.initials_uni q && all_bi p.initials_bi q
