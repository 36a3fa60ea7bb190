-- ===== src/Index/Columns/Gates/Sets.antt =====
-- Sets of n-grams: what is noted is found, and stays found as a set grows.
use yspot.Prelude.{
  ℕ, zero, suc, ◌+◌, ◌*◌, ◌≡◌, refl, Bool, true, false, ◌&&◌, [], ◌∷◌, Bytes, take, drop, ==_refl,
  arith,
}
use yspot.Index.Columns.{BitSet, bit_set, note_uni, note_bi, note_tri}
use yspot.Index.Columns.Gates.{all_uni, all_bi, all_tri}

abbrev pub Grows : BitSet → BitSet → Type 0
Grows s t = (v : ℕ) → s v ≡ true → t v ≡ true

bit_set-Grows : (v : ℕ) (s : BitSet) → Grows s (bit_set v s)
unfolding bit_set
bit_set-Grows v s w h = ground arith

bit_set_self : (v : ℕ) (s : BitSet) → bit_set v s v ≡ true
unfolding bit_set
bit_set_self v s = rw (==_refl v) refl

pub note_uni-Grows : (q : Bytes) (s : BitSet) → Grows s (note_uni q s)
unfolding note_uni
note_uni-Grows [] s v h = h
note_uni-Grows (a ∷ q) s v h = note_uni-Grows q (bit_set a s) v (bit_set-Grows a s v h)

pub note_bi-Grows : (q : Bytes) (s : BitSet) → Grows s (note_bi q s)
unfolding note_bi
note_bi-Grows [] s v h = h
note_bi-Grows (a ∷ []) s v h = h
note_bi-Grows (a ∷ b ∷ q) s v h =
    note_bi-Grows (b ∷ q) (bit_set (a * 256 + b) s) v (bit_set-Grows (a * 256 + b) s v h)

pub note_tri-Grows : (q : Bytes) (s : BitSet) → Grows s (note_tri q s)
unfolding note_tri
note_tri-Grows [] s v h = h
note_tri-Grows (a ∷ []) s v h = h
note_tri-Grows (a ∷ b ∷ []) s v h = h
note_tri-Grows (a ∷ b ∷ c ∷ q) s v h =
    let n = a * 65536 + b * 256 + c in
    note_tri-Grows (b ∷ c ∷ q) (bit_set n s) v (bit_set-Grows n s v h)

pub and_intro : {a b : Bool} → a ≡ true → b ≡ true → a && b ≡ true
and_intro h k = rw (h, k) refl

pub and_left : (a b : Bool) → a && b ≡ true → a ≡ true
and_left true b h = refl
and_left false b h = h

pub and_right : (a b : Bool) → a && b ≡ true → b ≡ true
and_right true b h = h
and_right false b h = ground arith

-- What is noted is found.
pub all_uni-note : (q : Bytes) (s : BitSet) → all_uni (note_uni q s) q ≡ true
unfolding all_uni note_uni
all_uni-note [] s = refl
all_uni-note (a ∷ q) s =
    and_intro (note_uni-Grows q (bit_set a s) a (bit_set_self a s)) (all_uni-note q (bit_set a s))

pub all_bi-note : (q : Bytes) (s : BitSet) → all_bi (note_bi q s) q ≡ true
unfolding all_bi note_bi
all_bi-note [] s = refl
all_bi-note (a ∷ []) s = refl
all_bi-note (a ∷ b ∷ q) s =
    let n = a * 256 + b in
    and_intro (note_bi-Grows (b ∷ q) (bit_set n s) n (bit_set_self n s))
      (all_bi-note (b ∷ q) (bit_set n s))

pub all_tri-note : (q : Bytes) (s : BitSet) → all_tri (note_tri q s) q ≡ true
unfolding all_tri note_tri
all_tri-note [] s = refl
all_tri-note (a ∷ []) s = refl
all_tri-note (a ∷ b ∷ []) s = refl
all_tri-note (a ∷ b ∷ c ∷ q) s =
    let n = a * 65536 + b * 256 + c in
    and_intro (note_tri-Grows (b ∷ c ∷ q) (bit_set n s) n (bit_set_self n s))
      (all_tri-note (b ∷ c ∷ q) (bit_set n s))

pub all_uni-Grows : (s t : BitSet) (q : Bytes) → Grows s t → all_uni s q ≡ true → all_uni t q ≡ true
unfolding all_uni
all_uni-Grows s t [] g h = refl
all_uni-Grows s t (a ∷ q) g h =
    and_intro (g a (and_left _ _ h)) (all_uni-Grows s t q g (and_right (s a) _ h))

pub all_bi-Grows : (s t : BitSet) (q : Bytes) → Grows s t → all_bi s q ≡ true → all_bi t q ≡ true
unfolding all_bi
all_bi-Grows s t [] g h = refl
all_bi-Grows s t (a ∷ []) g h = refl
all_bi-Grows s t (a ∷ b ∷ q) g h =
    and_intro (g (a * 256 + b) (and_left _ _ h))
      (all_bi-Grows s t (b ∷ q) g (and_right (s (a * 256 + b)) _ h))

pub all_tri-Grows : (s t : BitSet) (q : Bytes) → Grows s t → all_tri s q ≡ true → all_tri t q ≡ true
unfolding all_tri
all_tri-Grows s t [] g h = refl
all_tri-Grows s t (a ∷ []) g h = refl
all_tri-Grows s t (a ∷ b ∷ []) g h = refl
all_tri-Grows s t (a ∷ b ∷ c ∷ q) g h =
    let n = a * 65536 + b * 256 + c in
    and_intro (g n (and_left _ _ h)) (all_tri-Grows s t (b ∷ c ∷ q) g (and_right (s n) _ h))

-- A part of what is found is found.
pub all_uni-drop :
    (s : BitSet) (n : ℕ) (q : Bytes) → all_uni s q ≡ true → all_uni s (drop n q) ≡ true
unfolding all_uni
all_uni-drop s zero q h = h
all_uni-drop s (suc n) [] h = h
all_uni-drop s (suc n) (a ∷ q) h = all_uni-drop s n q (and_right (s a) _ h)

pub all_uni-take :
    (s : BitSet) (n : ℕ) (q : Bytes) → all_uni s q ≡ true → all_uni s (take n q) ≡ true
unfolding all_uni
all_uni-take s zero q h = refl
all_uni-take s (suc n) [] h = refl
all_uni-take s (suc n) (a ∷ q) h =
    and_intro (and_left _ _ h) (all_uni-take s n q (and_right (s a) _ h))

pub all_bi-drop : (s : BitSet) (n : ℕ) (q : Bytes) → all_bi s q ≡ true → all_bi s (drop n q) ≡ true
unfolding all_bi
all_bi-drop s zero q h = h
all_bi-drop s (suc n) [] h = h
all_bi-drop s (suc zero) (a ∷ []) h = refl
all_bi-drop s (suc (suc n)) (a ∷ []) h = refl
all_bi-drop s (suc n) (a ∷ b ∷ q) h = all_bi-drop s n (b ∷ q) (and_right (s (a * 256 + b)) _ h)

pub all_bi-take : (s : BitSet) (n : ℕ) (q : Bytes) → all_bi s q ≡ true → all_bi s (take n q) ≡ true
unfolding all_bi
all_bi-take s zero q h = refl
all_bi-take s (suc n) [] h = refl
all_bi-take s (suc zero) (a ∷ q) h = refl
all_bi-take s (suc (suc n)) (a ∷ []) h = refl
all_bi-take s (suc (suc n)) (a ∷ b ∷ q) h =
    and_intro (and_left _ _ h) (all_bi-take s (suc n) (b ∷ q) (and_right (s (a * 256 + b)) _ h))

pub all_tri-drop :
    (s : BitSet) (n : ℕ) (q : Bytes) → all_tri s q ≡ true → all_tri s (drop n q) ≡ true
unfolding all_tri
all_tri-drop s zero q h = h
all_tri-drop s (suc n) [] h = h
all_tri-drop s (suc zero) (a ∷ []) h = refl
all_tri-drop s (suc (suc n)) (a ∷ []) h = refl
all_tri-drop s (suc n) (a ∷ b ∷ []) h = all_tri-drop s n (b ∷ []) refl
all_tri-drop s (suc n) (a ∷ b ∷ c ∷ q) h =
    all_tri-drop s n (b ∷ c ∷ q) (and_right (s (a * 65536 + b * 256 + c)) _ h)

pub all_tri-take :
    (s : BitSet) (n : ℕ) (q : Bytes) → all_tri s q ≡ true → all_tri s (take n q) ≡ true
unfolding all_tri
all_tri-take s zero q h = refl
all_tri-take s (suc n) [] h = refl
all_tri-take s (suc zero) (a ∷ q) h = refl
all_tri-take s (suc (suc n)) (a ∷ []) h = refl
all_tri-take s (suc (suc zero)) (a ∷ b ∷ q) h = refl
all_tri-take s (suc (suc (suc n))) (a ∷ b ∷ []) h = refl
all_tri-take s (suc (suc (suc n))) (a ∷ b ∷ c ∷ q) h =
    and_intro (and_left _ _ h)
      (all_tri-take s (suc (suc n)) (b ∷ c ∷ q) (and_right (s (a * 65536 + b * 256 + c)) _ h))
