-- ===== src/Index/Columns/Gates/Laws.antt =====
-- A gate lets through every part of a name that was noted.
use yspot.Prelude.{ℕ, ◌≡◌, refl, true, Option, none, some, Bytes, drop}
use yspot.Prelude.Slices.{slice}
use yspot.Index.Columns.{BitSet, note_tri, map_tri, Presence, note_folded, note_initials_lane}
use yspot.Index.Columns.Gates.{all_uni, all_bi, tri_gate, arena_may_contain}
use yspot.Index.Columns.Gates.Sets.{
  and_intro, and_left, and_right, note_uni-Grows, note_bi-Grows, note_tri-Grows, all_uni-note,
  all_bi-note, all_tri-note, all_uni-Grows, all_bi-Grows, all_tri-Grows, all_uni-drop, all_uni-take,
  all_bi-drop, all_bi-take, all_tri-drop, all_tri-take,
}

tri_gate-noted : (o : Option BitSet) (fb : Bytes) → tri_gate (map_tri fb o) fb ≡ true
tri_gate-noted none fb = refl
tri_gate-noted (some s) fb = all_tri-note fb s

tri_gate-map_tri :
    (o : Option BitSet) (fb q : Bytes) → tri_gate o q ≡ true → tri_gate (map_tri fb o) q ≡ true
tri_gate-map_tri none fb q h = refl
tri_gate-map_tri (some s) fb q h = all_tri-Grows s (note_tri fb s) q (note_tri-Grows fb s) h

tri_gate-slice :
    (o : Option BitSet) (i n : ℕ) (q : Bytes)
    → tri_gate o q ≡ true
    → tri_gate o (slice q i n) ≡ true
tri_gate-slice none i n q h = refl
tri_gate-slice (some s) i n q h = all_tri-take s n (drop i q) (all_tri-drop s i q h)

pub arena_may_contain-noted :
    (p : Presence) (fb : Bytes) → arena_may_contain (note_folded fb p) fb ≡ true
unfolding arena_may_contain note_folded
arena_may_contain-noted p fb =
    and_intro (all_uni-note fb p.uni) (and_intro (all_bi-note fb p.bi) (tri_gate-noted p.tri fb))

-- Noting another name keeps what the gate lets through.
pub arena_may_contain-note_folded :
    (p : Presence) (fb q : Bytes)
    → arena_may_contain p q ≡ true
    → arena_may_contain (note_folded fb p) q ≡ true
unfolding arena_may_contain note_folded
arena_may_contain-note_folded p fb q h =
    let r = and_right (all_uni p.uni q) _ h in
    and_intro (all_uni-Grows p.uni _ q (note_uni-Grows fb p.uni) (and_left _ _ h)) (
      and_intro (all_bi-Grows p.bi _ q (note_bi-Grows fb p.bi) (and_left _ _ r))
        (tri_gate-map_tri p.tri fb q (and_right (all_bi p.bi q) _ r)))

-- The lanes of initials have sets of their own.
pub arena_may_contain-lane :
    (p : Presence) (lane q : Bytes)
    → arena_may_contain (note_initials_lane lane p) q ≡ arena_may_contain p q
unfolding arena_may_contain note_initials_lane
arena_may_contain-lane p lane q = refl

pub arena_may_contain-slice :
    (p : Presence) (i n : ℕ) (q : Bytes)
    → arena_may_contain p q ≡ true
    → arena_may_contain p (slice q i n) ≡ true
unfolding arena_may_contain
arena_may_contain-slice p i n q h =
    let r = and_right (all_uni p.uni q) _ h in
    and_intro (all_uni-take p.uni n (drop i q) (all_uni-drop p.uni i q (and_left _ _ h))) (
      and_intro (all_bi-take p.bi n (drop i q) (all_bi-drop p.bi i q (and_left _ _ r)))
        (tri_gate-slice p.tri i n q (and_right (all_bi p.bi q) _ r)))
