-- ===== src/Index/Columns.antt =====
-- The accelerating columns of the index: crates/yspot-index/src/index.rs (`rank_key`, `initials`,
-- `head`, `charclass_bsi`, the presence sets, `arena_recs` and `owner`), and
-- crates/yspot-index/src/matching.rs (`for_each_segment_start`, `initials_lane`).
-- A bit array of fixed size is its characteristic function. `charclass_bsi` maps a word and a bit of
-- it; its slices lie end to end, as in the source. Reserved capacity is not modelled.
pub mod Bits
pub mod Gates
use Prim.Native.Nat.{◌-◌}
use yspot.Prelude.{
  ℕ, zero, suc, ◌+◌, ◌*◌, ◌/◌, ◌%◌, Bool, false, ◌&&◌, ◌||◌, List, [], ◌∷◌, ◌++◌, Bytes, ltb, leb,
  ◌==◌, if◌then◌else◌, length, drop, replicate, Option, none, some,
}
use yspot.Text.{Unicode, char_indices, chars, encode}
use yspot.Index.Types.{ArenaRec}

abbrev pub rank_depth_max : ℕ
rank_depth_max = 127

abbrev pub rank_penalized : ℕ
rank_penalized = 0x80

abbrev pub head_stride : ℕ
head_stride = 2

abbrev pub initials_stride : ℕ
initials_stride = 8

abbrev pub folded_delim : ℕ
folded_delim = 0

abbrev pub bsi_classes : ℕ
bsi_classes = 64

abbrev pub bsi_chunk_words : ℕ
bsi_chunk_words = 512

abbrev pub owner_block : ℕ
owner_block = 64

-- The class of a byte of a folded name.
unfoldable pub class_of : ℕ → ℕ
class_of b =
    if leb b'a' b && leb b b'z'
    then b - b'a'
    else if leb b'0' b && leb b b'9'
    then 26 + (b - b'0')
    else if b == b'-'
    then 36
    else if b == b'_'
    then 37
    else if b == b'.'
    then 38
    else if b == b' '
    then 39
    else if leb b 0x7f
    then 40 + b % 8
    else 48 + b % 16

abbrev pub BitSet : Type 0
BitSet = ℕ → Bool

abbrev pub empty_set : BitSet
empty_set _ = false

unfoldable pub bit_set : ℕ → BitSet → BitSet
bit_set v s w = w == v || s w

unfoldable pub class_mask_from : BitSet → Bytes → BitSet
unfolding bit_set class_of
class_mask_from m [] = m
class_mask_from m (b ∷ bs) = class_mask_from (bit_set (class_of b) m) bs

unfoldable pub class_mask : Bytes → BitSet
unfolding class_mask_from
class_mask folded = class_mask_from empty_set folded

-- One for each byte, for each window of two bytes and of three.
unfoldable pub note_uni : Bytes → BitSet → BitSet
unfolding bit_set
note_uni [] s = s
note_uni (b ∷ bs) s = note_uni bs (bit_set b s)

unfoldable pub note_bi : Bytes → BitSet → BitSet
unfolding bit_set
note_bi (a ∷ b ∷ bs) s = note_bi (b ∷ bs) (bit_set (a * 256 + b) s)
note_bi _ s = s

unfoldable pub note_tri : Bytes → BitSet → BitSet
unfolding bit_set
note_tri (a ∷ b ∷ c ∷ bs) s = note_tri (b ∷ c ∷ bs) (bit_set (a * 65536 + b * 256 + c) s)
note_tri _ s = s

pub record Presence : Type 0 where
  pub uni : BitSet
  pub bi : BitSet
  -- `none` is the empty box of a small arena
  pub tri : Option BitSet
  pub initials_uni : BitSet
  pub initials_bi : BitSet

abbrev pub map_tri : Bytes → Option BitSet → Option BitSet
map_tri fb none = none
map_tri fb (some s) = some (note_tri fb s)

unfoldable pub note_folded : Bytes → Presence → Presence
unfolding note_uni note_bi note_tri
note_folded fb p = record p {
  uni = note_uni fb p.uni;
  bi = note_bi fb p.bi;
  tri = map_tri fb p.tri;
}

unfoldable pub note_initials_lane : Bytes → Presence → Presence
unfolding note_uni note_bi
note_initials_lane lane p = record p {
  initials_uni = note_uni lane p.initials_uni;
  initials_bi = note_bi lane p.initials_bi;
}

-- ---- segments and initials

abbrev is_sep_char : ℕ → Bool
is_sep_char c = c == b'-' || c == b'_' || c == b'.' || c == b' '

module _ (u : Unicode) where
  abbrev is_camel : Option ℕ → ℕ → Bool
  is_camel none c = false
  is_camel (some p) c = u.is_lowercase p && u.is_uppercase c

  -- The spans that `f` is called with, in order. `start` is the open segment, `prev` the character
  -- before.
  unfoldable pub segments_from : Option ℕ → Option ℕ → ℕ → List (ℕ × ℕ) → List (ℕ × ℕ)
  segments_from none prev end [] = []
  segments_from (some s) prev end [] = (s, end) ∷ []
  segments_from none prev end ((i, c) ∷ cs) =
      segments_from (if is_sep_char c then none else some i) (some c) end cs
  segments_from (some s) prev end ((i, c) ∷ cs) =
      let sep = is_sep_char c in
      let camel = is_camel prev c in
      let start : Option ℕ = if sep then none else if camel then some i else some s in
      let rest = segments_from start (some c) end cs in if sep || camel then (s, i) ∷ rest else rest

  unfoldable pub segment_spans : Bytes → List (ℕ × ℕ)
  unfolding segments_from char_indices
  segment_spans name = segments_from none none (length name) (char_indices 0 name)

  abbrev first_char : List ℕ → Option ℕ
  first_char [] = none
  first_char (c ∷ _) = some c

  -- The folded initials that fit into `room` bytes. One that does not fit stops the walk; so does
  -- one whose lower case is longer than its buffer of twelve bytes.
  unfoldable pub pack_initials : Bytes → ℕ → List (ℕ × ℕ) → Bytes
  unfolding chars encode
  pack_initials name room [] = []
  pack_initials name room ((start, _) ∷ spans) = elim (first_char (chars (drop start name))) [
    | none ↦ pack_initials name room spans
    | some c ↦
        let buf = encode (u.to_lowercase c) in
        let rest = buf ++ pack_initials name (room - length buf) spans in
        if ltb 12 (length buf) || ltb room (length buf) then [] else rest
  ]

  -- The lane of one slot, padded with NUL.
  unfoldable pub initials_lane : Bytes → Bytes
  unfolding pack_initials segment_spans
  initials_lane name =
      let packed = pack_initials name initials_stride (segment_spans name) in
      packed ++ replicate (initials_stride - length packed) folded_delim

-- ---- the columns together

pub record Columns : Type 0 where
  pub rank_key : List ℕ
  pub initials : Bytes
  pub head : Bytes
  pub charclass_bsi : ℕ → ℕ → Bool
  pub bsi_words : ℕ
  pub presence : Presence
  pub arena_recs : List ArenaRec
  pub owner : List ℕ

-- One word of the slices, with the bit of a slot set or cleared.
unfoldable pub write_bit : (ℕ → ℕ → Bool) → ℕ → ℕ → Bool → ℕ → ℕ → Bool
write_bit words word bit v w b = if w == word && b == bit then v else words w b

-- The classes below `n` that `mask` names, each with its slice's bit of the slot written.
unfoldable pub bsi_apply_below : ℕ → ℕ → BitSet → Bool → ℕ → (ℕ → ℕ → Bool) → ℕ → ℕ → Bool
unfolding write_bit
bsi_apply_below wps slot mask v zero words = words
bsi_apply_below wps slot mask v (suc n) words =
    let below = bsi_apply_below wps slot mask v n words in
    if mask n then write_bit below (n * wps + slot / 64) (slot % 64) v else below

unfoldable pub bsi_apply : ℕ → BitSet → Bool → Columns → Columns
unfolding bsi_apply_below
bsi_apply slot mask v c = record c {
  charclass_bsi = bsi_apply_below c.bsi_words slot mask v bsi_classes c.charclass_bsi;
}

-- `div_ceil`
abbrev pub div_ceil : ℕ → ℕ → ℕ
div_ceil a b = (a + (b - 1)) / b

-- Every slice moves up to its new base, and the words behind it are zeroed: `copy_within` and `fill`
-- for the classes from the top down to 1, then the tail of slice 0.
unfoldable pub restride_class : ℕ → ℕ → ℕ → (ℕ → ℕ → Bool) → ℕ → ℕ → Bool
restride_class old new c words w b =
    if leb (c * new) w && ltb w (c * new + old)
    then words (c * old + (w - c * new)) b
    else if leb (c * new + old) w && ltb w ((c + 1) * new)
    then false
    else words w b

unfoldable pub restride_down : ℕ → ℕ → ℕ → (ℕ → ℕ → Bool) → ℕ → ℕ → Bool
unfolding restride_class
restride_down old new zero words = words
restride_down old new (suc c) words = restride_down old new c (restride_class old new c words)

unfoldable pub grow_bsi : ℕ → Columns → Columns
unfolding restride_down
grow_bsi slots c =
    let new = div_ceil (div_ceil slots 64) bsi_chunk_words * bsi_chunk_words in
    if leb slots (c.bsi_words * 64) then c else record c {
      charclass_bsi = restride_down c.bsi_words new bsi_classes c.charclass_bsi;
      bsi_words = new;
    }

-- `while owner.len() * OWNER_BLOCK < folded_arena.len() { owner.push(ri) }`, for at most `fuel` rounds.
unfoldable pub extend_owner : ℕ → ℕ → ℕ → List ℕ → List ℕ
extend_owner zero ri arena_len owner = owner
extend_owner (suc fuel) ri arena_len owner =
    let rest = extend_owner fuel ri arena_len (owner ++ ri ∷ []) in
    if ltb (length owner * owner_block) arena_len then rest else owner

-- A round covers a block, so the length of the arena is fuel enough.
unfoldable pub push_arena_rec : ℕ → ℕ → ℕ → Columns → Columns
unfolding extend_owner
push_arena_rec off slot arena_len c =
    let recs = c.arena_recs ++ (record { off = off; slot = slot }) ∷ [] in
    record c {
      arena_recs = recs;
      owner = extend_owner arena_len (length recs - 1) arena_len c.owner;
    }
