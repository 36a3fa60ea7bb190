-- ===== src/Index/Compact/Moves/Lanes.antt =====
-- The moves of columns that hold several bytes for a slot, and all columns together.
use yspot.Prelude.{
  ℕ, zero, suc, ◌+◌, ◌*◌, ◌≤◌, ◌<◌, ◌≡◌, refl, sym, ap, ◌∙◌, List, [], ◌∷◌, ◌++◌, Option, none,
  some, Bytes, length, get_elem?, set, take, drop, length-set, get_elem?_of_lt, arith,
}
use mathlib.Core.Path.{subst}
use mathlib.Core.Option.{some-injective}
use yspot.Prelude.Slices.{slice}
use yspot.Index.Types.{Entry}
use yspot.Index.Table.Valid.{All}
use yspot.Index.Volume.{copy_over}
use yspot.Index.Compact.{
  remap_from, count_kept, move_elem, move_slot, move_slots, compact_slots, copy_within, Slots,
}
use yspot.Index.Compact.Moves.{
  Numbers, live_of, move_elems, moved-live, move_slots-entries, move_slots-rank_key,
  remap_from-Numbers, length-remap_from,
}

-- The column of the lanes, in their order.
abbrev pub flat : List Bytes → Bytes
flat [] = []
flat (c ∷ cs) = c ++ flat cs

copy_over-skip :
    (d zs : Bytes) (off : ℕ) (bs : Bytes)
    → copy_over (d ++ zs) (length d + off) bs ≡ d ++ copy_over zs off bs
unfolding copy_over
copy_over-skip [] zs off bs = let z : 0 + off ≡ off = omega arith in rw z refl
copy_over-skip (b ∷ d) zs off bs =
    let z : length (b ∷ d) + off ≡ suc (length d + off) = omega arith in
    rw z (ap (λ (l : Bytes). b ∷ l) (copy_over-skip d zs off bs))

copy_over-front : (d zs bs : Bytes) → length d ≡ length bs → copy_over (d ++ zs) 0 bs ≡ bs ++ zs
unfolding copy_over
copy_over-front [] [] [] e = refl
copy_over-front [] (z ∷ zs) [] e = refl
copy_over-front [] zs (b ∷ bs) e = absurd (omega arith)
copy_over-front (x ∷ d) zs [] e = absurd (omega arith)
copy_over-front (x ∷ d) zs (b ∷ bs) e =
    ap (λ (l : Bytes). b ∷ l) (copy_over-front d zs bs (omega arith))

take_front : (c zs : Bytes) → take (length c) (c ++ zs) ≡ c
take_front [] zs = refl
take_front (b ∷ c) zs = ap (λ (l : Bytes). b ∷ l) (take_front c zs)

drop_front : (c zs : Bytes) (n : ℕ) → drop (length c + n) (c ++ zs) ≡ drop n zs
drop_front [] zs n = let z : 0 + n ≡ n = omega arith in rw z refl
drop_front (b ∷ c) zs n =
    let z : length (b ∷ c) + n ≡ suc (length c + n) = omega arith in rw z (drop_front c zs n)

take_more : (c zs : Bytes) (n : ℕ) → take (length c + n) (c ++ zs) ≡ c ++ take n zs
take_more [] zs n = let z : 0 + n ≡ n = omega arith in rw z refl
take_more (b ∷ c) zs n =
    let z : length (b ∷ c) + n ≡ suc (length c + n) = omega arith in
    rw z (ap (λ (l : Bytes). b ∷ l) (take_more c zs n))

take_nil : (n : ℕ) → ◌≡◌ {A = Bytes} (take n []) []
take_nil zero = refl
take_nil (suc n) = refl

module _ (k : ℕ) where
  abbrev pub Lanes : List Bytes → Type 0
  Lanes cs = All (λ (c : Bytes). length c ≡ k) cs

  times_suc : (i : ℕ) → suc i * k ≡ k + i * k
  times_suc i = omega arith

  slice-flat :
      (cs : List Bytes) (i : ℕ) (c : Bytes)
      → Lanes cs
      → get_elem? cs i ≡ some c
      → (slice (flat cs) (i * k) k ≡ c) × (length c ≡ k)
  slice-flat [] i c l g = ground arith
  slice-flat (d ∷ cs) zero c l g =
      let q : d ≡ c = some-injective _ _ g in
      let z : 0 * k ≡ 0 = omega arith in
      let front = subst (λ (n : ℕ). take n (d ++ flat cs) ≡ d) l.0 (take_front d (flat cs)) in
      subst (λ (x : Bytes). (slice (d ++ flat cs) (0 * k) k ≡ x) × (length x ≡ k)) q
        (rw z front, l.0)
  slice-flat (d ∷ cs) (suc i) c l g =
      let e = l.0 in
      let z : suc i * k ≡ length d + i * k = omega (arith, times_suc i) in
      let (h, size) = slice-flat cs i c l.1 g in
      (rw z (ap (λ (bs : Bytes). take k bs) (drop_front d (flat cs) (i * k)) ∙ h), size)

  copy_over-flat :
      (cs : List Bytes) (i : ℕ) (c : Bytes)
      → Lanes cs
      → length c ≡ k
      → i < length cs
      → copy_over (flat cs) (i * k) c ≡ flat (set cs i c)
  copy_over-flat [] i c l e h = absurd (omega arith)
  copy_over-flat (d ∷ cs) zero c l e h =
      let z : 0 * k ≡ 0 = omega arith in rw z (copy_over-front d (flat cs) c (l.0 ∙ sym e))
  copy_over-flat (d ∷ cs) (suc i) c l e h =
      let size = l.0 in
      let z : suc i * k ≡ length d + i * k = omega (arith, times_suc i) in
      rw z (
        copy_over-skip d (flat cs) (i * k) c
        ∙ ap (λ (bs : Bytes). d ++ bs) (copy_over-flat cs i c l.1 e (omega arith)))

  set-Lanes : (cs : List Bytes) (i : ℕ) (c : Bytes) → Lanes cs → length c ≡ k → Lanes (set cs i c)
  set-Lanes [] i c l e = l
  set-Lanes (d ∷ cs) zero c l e = (e, l.1)
  set-Lanes (d ∷ cs) (suc i) c l e = (l.0, set-Lanes cs i c l.1 e)

  take-flat : (cs : List Bytes) (n : ℕ) → Lanes cs → take (n * k) (flat cs) ≡ flat (take n cs)
  take-flat cs zero l = let z : 0 * k ≡ 0 = omega arith in rw z refl
  take-flat [] (suc n) l = take_nil (suc n * k)
  take-flat (d ∷ cs) (suc n) l =
      let size = l.0 in
      let z : suc n * k ≡ length d + n * k = omega (arith, times_suc n) in
      rw z (take_more d (flat cs) (n * k) ∙ ap (λ (bs : Bytes). d ++ bs) (take-flat cs n l.1))

  abbrev pub move_lanes : List (Option ℕ) → ℕ → Bytes → Bytes
  move_lanes [] old bs = bs
  move_lanes (none ∷ ms) old bs = move_lanes ms (old + 1) bs
  move_lanes (some n ∷ ms) old bs = move_lanes ms (old + 1) (copy_within (old * k) k (n * k) bs)

  pub copy_within-flat :
      (cs : List Bytes) (old n : ℕ)
      → Lanes cs
      → old < length cs
      → n < length cs
      → (copy_within (old * k) k (n * k) (flat cs) ≡ flat (move_elem old n cs))
        × Lanes (move_elem old n cs)
        × (length (move_elem old n cs) ≡ length cs)
  unfolding copy_within move_elem
  copy_within-flat cs old n l a b =
      let (c, g) = get_elem?_of_lt cs old a in
      let (whole, size) = slice-flat cs old c l g in
      rw (move_elem, g, whole)
        (copy_over-flat cs n c l size b, set-Lanes cs n c l size, length-set cs n c)

  move_lanes-flat :
      (m : List (Option ℕ)) (kept old : ℕ) (cs : List Bytes)
      → Lanes cs
      → Numbers kept m
      → kept ≤ old
      → old + length m ≤ length cs
      → (move_lanes m old (flat cs) ≡ flat (move_elems m old cs)) × Lanes (move_elems m old cs)
  move_lanes-flat [] kept old cs l n a b = (refl, l)
  move_lanes-flat (none ∷ ms) kept old cs l n a b =
      move_lanes-flat ms kept (old + 1) cs l n (omega arith) (omega arith)
  move_lanes-flat (some x ∷ ms) kept old cs l n a b =
      let same = n.0 in
      let (moved, l', size) = copy_within-flat cs old x l (omega arith) (omega arith) in
      let (ih, l2) =
        move_lanes-flat ms (suc kept) (old + 1) (move_elem old x cs) l' n.1 (omega arith)
          (omega arith) in
      (rw moved ih, l2)

  -- The moved lanes, cut to those that are kept.
  Lanes-live :
      (es : List Entry) (cs : List Bytes)
      → Lanes cs
      → length cs ≡ length es
      → take (count_kept (remap_from 0 es) * k) (move_lanes (remap_from 0 es) 0 (flat cs))
        ≡ flat (live_of es cs)
  Lanes-live es cs l e =
      let size = length-remap_from 0 es in
      let (moved, l') =
        move_lanes-flat (remap_from 0 es) 0 0 cs l (remap_from-Numbers 0 es) (omega arith)
          (omega arith) in
      rw moved (
        take-flat (move_elems (remap_from 0 es) 0 cs) (count_kept (remap_from 0 es)) l'
        ∙ ap flat (moved-live es cs e))

move_slots-initials :
    (m : List (Option ℕ)) (old : ℕ) (s : Slots)
    → (move_slots m old s).initials ≡ move_lanes 8 m old s.initials
unfolding move_slots move_slot
move_slots-initials [] old s = refl
move_slots-initials (none ∷ ms) old s = move_slots-initials ms (old + 1) s
move_slots-initials (some n ∷ ms) old s = move_slots-initials ms (old + 1) (move_slot old n s)

move_slots-head :
    (m : List (Option ℕ)) (old : ℕ) (s : Slots)
    → (move_slots m old s).head ≡ move_lanes 2 m old s.head
unfolding move_slots move_slot
move_slots-head [] old s = refl
move_slots-head (none ∷ ms) old s = move_slots-head ms (old + 1) s
move_slots-head (some n ∷ ms) old s = move_slots-head ms (old + 1) (move_slot old n s)

-- Where there are a key, a lane of eight initials and a head of two bytes for each slot: the moves in place leave the
-- entries that are live, and their keys, lanes and heads, each in their old order and nothing else.
pub compact_slots-live :
    (es : List Entry) (keys : List ℕ) (lanes heads : List Bytes)
    → length keys ≡ length es
    → Lanes 8 lanes
    → length lanes ≡ length es
    → Lanes 2 heads
    → length heads ≡ length es
    → compact_slots
        (remap_from 0 es)
        (record { entries = es; rank_key = keys; initials = flat lanes; head = flat heads })
      ≡ record {
        entries = live_of es es;
        rank_key = live_of es keys;
        initials = flat (live_of es lanes);
        head = flat (live_of es heads);
      }
unfolding compact_slots
compact_slots-live es keys lanes heads k l i h j =
    let s : Slots = record {
      entries = es;
      rank_key = keys;
      initials = flat lanes;
      head = flat heads;
    } in
    let m = remap_from 0 es in
    rw
      (
        move_slots-entries m 0 s,
        move_slots-rank_key m 0 s,
        move_slots-initials m 0 s,
        move_slots-head m 0 s,
      )
      (rw
        (
          moved-live es es refl,
          moved-live es keys k,
          Lanes-live 8 es lanes l i,
          Lanes-live 2 es heads h j,
        )
        refl)
