-- ===== src/Index/Columns/Bits.antt =====
-- The class slices: growing them keeps every bit, and writing a slot's mask writes that slot's bits only.
use Prim.Native.Nat.{◌-◌}
use yspot.Prelude.{
  ℕ, zero, suc, ◌+◌, ◌*◌, ◌/◌, ◌%◌, ◌≤◌, ◌<◌, ◌≡◌, refl, ◌∙◌, ap, ◌⊎◌, inl, inr, Bool, true, false,
  Bool-cases, ◌&&◌, ltb, leb, ◌==◌, ==_iff, ==_refl, if◌then◌else◌, arith,
}
use yspot.Index.Columns.{
  Columns, BitSet, bsi_classes, bsi_chunk_words, write_bit, bsi_apply_below, bsi_apply, div_ceil,
  restride_class, restride_down, grow_bsi,
}

-- The bit of a slot in the slice of a class, which is `wps` words long.
abbrev pub bit_at : ℕ → (ℕ → ℕ → Bool) → ℕ → ℕ → Bool
bit_at wps words class slot = words (class * wps + slot / 64) (slot % 64)

mul_le : (c a b : ℕ) → a ≤ b → c * a ≤ c * b
mul_le c a b h = grind arith

mul_lt : (k c a : ℕ) → k < c → k * a + a ≤ c * a
mul_lt k c a h = grind arith

module _ (old new : ℕ) (le : old ≤ new) where
  -- A round leaves the words in front of its slice's new place, and those behind it.
  restride_class-outside :
      (c w b : ℕ) (words : ℕ → ℕ → Bool)
      → (w < c * new) ⊎ (suc c * new ≤ w)
      → restride_class old new c words w b ≡ words w b
  unfolding restride_class
  restride_class-outside c w b words (inl h) =
      let p : leb (c * new) w && ltb w (c * new + old) ≡ false = ground arith in
      let q : leb (c * new + old) w && ltb w ((c + 1) * new) ≡ false = ground arith in
      rw (p, q) refl
  restride_class-outside c w b words (inr h) =
      let m = mul_lt c (suc c) new (omega arith) in
      let e : (c + 1) * new ≡ suc c * new = ap (λ x. x * new) (omega arith) in
      let p : leb (c * new) w && ltb w (c * new + old) ≡ false = ground arith in
      let q : leb (c * new + old) w && ltb w ((c + 1) * new) ≡ false = rw e (ground arith) in
      rw (p, q) refl

  restride_class-inside :
      (c o b : ℕ) (words : ℕ → ℕ → Bool)
      → o < new
      → restride_class old new c words (c * new + o) b
        ≡ (if ltb o old then words (c * old + o) b else false)
  unfolding restride_class
  restride_class-inside c o b words l =
      let d : c * new + o - c * new ≡ o = omega arith in
      let m = mul_lt c (suc c) new (omega arith) in
      let e : (c + 1) * new ≡ c * new + new = grind arith in
      elim (Bool-cases (ltb o old)) [
        | inl y ↦
            let p : leb (c * new) (c * new + o) && ltb (c * new + o) (c * new + old) ≡ true =
              ground arith in
            rw (p, y, d) refl
        | inr n ↦
            let p : leb (c * new) (c * new + o) && ltb (c * new + o) (c * new + old) ≡ false =
              ground arith in
            let q : leb (c * new + old) (c * new + o) && ltb (c * new + o) ((c + 1) * new) ≡ true =
              rw e (ground arith) in
            rw (p, q, n) refl
      ]

  restride_down_above :
      (n w b : ℕ) (words : ℕ → ℕ → Bool)
      → n * new ≤ w
      → restride_down old new n words w b ≡ words w b
  unfolding restride_down
  restride_down_above zero w b words h = refl
  restride_down_above (suc c) w b words h =
      let m = mul_lt c (suc c) new (omega arith) in
      restride_down_above c w b (restride_class old new c words) (omega arith)
      ∙ restride_class-outside c w b words (inr h)

  restride_down_slice :
      (n k o b : ℕ) (words : ℕ → ℕ → Bool)
      → k < n
      → o < new
      → restride_down old new n words (k * new + o) b
        ≡ (if ltb o old then words (k * old + o) b else false)
  unfolding restride_down
  restride_down_slice zero k o b words h l = elim h [ ]
  restride_down_slice (suc c) k o b words h l = elim (Bool-cases (k == c)) [
    | inl y ↦
        let e : k ≡ c = (==_iff k c).0 y in
        rw e (
          restride_down_above c (c * new + o) b (restride_class old new c words) (omega arith)
          ∙ restride_class-inside c o b words l)
    | inr n ↦
        let lt : k < c = ground arith in
        let ih = restride_down_slice c k o b (restride_class old new c words) lt l in
        elim (Bool-cases (ltb o old)) [
          | inr z ↦ ih ∙ rw z refl
          | inl z ↦
              let a = mul_lt k c old lt in
              let d = mul_le c old new le in
              let below : k * old + o < c * new = ground arith in
              ih ∙ rw z (restride_class-outside c (k * old + o) b words (inl below))
        ]
  ]

div_ltb : (slot old : ℕ) → ltb (slot / 64) old ≡ ltb slot (old * 64)
div_ltb slot old = ground arith

-- For every class, and every slot within the grown slices, growing them keeps the bit, or clears it
-- where the slot was not within the slices before.
pub grow_bsi-keeps :
    (slots : ℕ) (c : Columns) (class slot : ℕ)
    → class < bsi_classes
    → slot < (grow_bsi slots c).bsi_words * 64
    → bit_at (grow_bsi slots c).bsi_words (grow_bsi slots c).charclass_bsi class slot ≡ (
        if ltb slot (c.bsi_words * 64)
        then bit_at c.bsi_words c.charclass_bsi class slot
        else false)
unfolding grow_bsi
grow_bsi-keeps slots c class slot h l =
    let old = c.bsi_words in
    let new = div_ceil (div_ceil slots 64) bsi_chunk_words * bsi_chunk_words in
    elim (Bool-cases (leb slots (old * 64))) [
      | inl y ↦
          let l' : slot < old * 64 = rw y at l in
          let z : ltb slot (old * 64) ≡ true = ground arith in rw (y, z) refl
      | inr n ↦
          let l' : slot < new * 64 = rw n at l in
          let more : old * 64 < slots = ground arith in
          let room : slots ≤ new * 64 = omega arith in
          let s =
            restride_down_slice old new (omega arith) bsi_classes class (slot / 64) (slot % 64)
              c.charclass_bsi h (omega arith) in
          let same : ltb (slot / 64) old ≡ ltb slot (old * 64) = div_ltb slot old in
          rw n (s ∙ rw same refl)
    ]

-- ---- writing a mask

-- Two words of slices of `wps` words are one only if the classes and the places are.
one_word :
    (wps k n a b : ℕ) → a < wps → b < wps → ((k * wps + a) == (n * wps + b)) ≡ (k == n) && (a == b)
one_word wps k n a b l m = elim (Bool-cases (k == n)) [
  | inl y ↦ let e = (==_iff k n).0 y in rw (e, ==_refl n) (ground arith)
  | inr z ↦ elim (Bool-cases (ltb k n)) [
    | inl y ↦ let h = mul_lt k n wps (ground arith) in rw z (ground arith)
    | inr y ↦ let h = mul_lt n k wps (ground arith) in rw z (ground arith)
  ]
]

one_slot : (s t : ℕ) → ((s / 64) == (t / 64)) && ((s % 64) == (t % 64)) ≡ (s == t)
one_slot s t = ground arith

and_assoc : (a b c : Bool) → (a && b) && c ≡ a && (b && c)
and_assoc true b c = refl
and_assoc false b c = refl

module _ (wps slot other : ℕ) (mask : BitSet) (v : Bool) (words : ℕ → ℕ → Bool)
    (l : slot < wps * 64) (m : other < wps * 64) where
  abbrev written_below : ℕ → ℕ → Bool
  written_below n k = ltb k n && (mask k && (other == slot))

  hit :
      (n k : ℕ)
      → ((k * wps + other / 64) == (n * wps + slot / 64)) && ((other % 64) == (slot % 64))
        ≡ (k == n) && (other == slot)
  hit n k =
      rw (one_word wps k n (other / 64) (slot / 64) (omega arith) (omega arith))
        (and_assoc (k == n) _ _ ∙ rw (one_slot other slot) refl)

  bsi_apply_below-bit :
      (n k : ℕ)
      → bit_at wps (bsi_apply_below wps slot mask v n words) k other
        ≡ (if written_below n k then v else bit_at wps words k other)
  unfolding bsi_apply_below write_bit
  bsi_apply_below-bit zero k = let e : ltb k 0 ≡ false = ground arith in rw e refl
  bsi_apply_below-bit (suc n) k =
      let ih = bsi_apply_below-bit n k in
      elim (Bool-cases (k == n)) [
        | inl q ↦
            let e = (==_iff k n).0 q in
            let no : ltb k n ≡ false = ground arith in
            let yes : ltb k (suc n) ≡ true = ground arith in
            let before : bit_at wps (bsi_apply_below wps slot mask v n words) k other
                ≡ bit_at wps words k other =
              rw no at ih in
            elim (Bool-cases (mask n)) [
              | inl y ↦
                  let y' : mask k ≡ true = rw e y in
                  rw (y, hit n k, q, yes, y') (ap (λ x. if other == slot then v else x) before)
              | inr z ↦ let z' : mask k ≡ false = rw e z in rw (z, yes, z') before
            ]
        | inr q ↦
            let same : ltb k (suc n) ≡ ltb k n = ground arith in
            elim (Bool-cases (mask n)) [
              | inl y ↦ rw (y, hit n k, q, same) ih
              | inr z ↦ rw (z, same) ih
            ]
      ]

-- For every class and slots within the slices, writing a slot's mask writes `v` to the slot's bit of
-- each class of the mask, and changes no other bit.
pub bsi_apply-writes :
    (slot other class : ℕ) (mask : BitSet) (v : Bool) (c : Columns)
    → class < bsi_classes
    → slot < c.bsi_words * 64
    → other < c.bsi_words * 64
    → bit_at (bsi_apply slot mask v c).bsi_words (bsi_apply slot mask v c).charclass_bsi class other
      ≡ (if mask class && (other == slot)
          then v
          else bit_at c.bsi_words c.charclass_bsi class other)
unfolding bsi_apply
bsi_apply-writes slot other class mask v c h l m =
    let e : ltb class bsi_classes ≡ true = ground arith in
    bsi_apply_below-bit c.bsi_words slot other mask v c.charclass_bsi l m bsi_classes class
    ∙ rw e refl
