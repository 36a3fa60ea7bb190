-- ===== src/Index/Table/Fenced.antt =====
-- The layout of the folded arena, `0x00 rec 0x00 rec 0x00`: every live record stands between two fences
-- and holds no byte that the arena reserves, and a byte that is not a delimiter belongs to a live record.
pub mod Append
pub mod Hits
use yspot.Prelude.{
  ℕ, zero, suc, ◌+◌, ◌≤◌, ◌<◌, ◌≡◌, ◌≢◌, refl, sym, ap, ◌∙◌, ◌⊎◌, inl, inr, List, [], ◌∷◌, ◌++◌,
  Bytes, length, arith, Option, none, some, get_elem?, ◌==◌, Bool-cases, false, true, ltb, leb, any,
  Bool, ◌||◌, get_elem?-append_left, get_elem?-append_right, length-append, lt_of_get_elem?,
  get_elem?_of_lt, ==_iff, length-set,
}
use yspot.Prelude.Slices.{
  slice, fill, get_elem?-fill_in, get_elem?-fill_before, get_elem?-fill_after, length-fill,
}
use yspot.Text.{has_control_byte}
use yspot.Index.Types.{Entry, is_dead}
use yspot.Index.Columns.{folded_delim}
use yspot.Index.Arena.{Arenas, Interned, fenced}
use yspot.Index.Arena.Laws.{Appended, length-fenced}
use yspot.Index.Table.{Table, bind, vacate}
use yspot.Index.Table.Valid.{LiveAt, IsValid, IsVacant, InArenas, Apart}
use yspot.Index.Table.Bind.{LiveAt-bind, LiveAt-bind_self, LiveAt-bind_ne}
use yspot.Index.Table.Vacate.{LiveAt-vacate, LiveAt-vacate_ne}
use yspot.Index.Table.Extend.{with_arenas, Placed}
use yspot.Index.Table.Files.{file_of-vacate, File, file_of}

-- The byte at `h` lies in the record of a live entry.
pub record Owned (t : Table) (h : ℕ) : Type 0 where
  pub slot : ℕ
  pub entry : Entry
  pub live : LiveAt t slot entry
  pub from : entry.folded_off ≤ h
  pub below : h < entry.folded_off + entry.folded_len

-- A record with a fence on each side, and no reserved byte in it.
pub record HasFences (bs : Bytes) (e : Entry) : Type 0 where
  pub before : (k : ℕ) → suc k ≡ e.folded_off → get_elem? bs k ≡ some folded_delim
  pub after : get_elem? bs (e.folded_off + e.folded_len) ≡ some folded_delim
  pub plain : has_control_byte (slice bs e.folded_off e.folded_len) ≡ false

-- The bytes from `lo` up to `hi` are of a record that no entry claims yet. The last byte is a fence.
pub record IsFenced (t : Table) (lo hi : ℕ) : Type 0 where
  pub fences : (s : ℕ) (e : Entry) → LiveAt t s e → HasFences t.arenas.folded e
  pub cover :
      (h b : ℕ)
      → get_elem? t.arenas.folded h ≡ some b
      → b ≢ folded_delim
      → Owned t h ⊎ ((lo ≤ h) × (h < hi))
  pub ends :
      (k : ℕ) → suc k ≡ length t.arenas.folded → get_elem? t.arenas.folded k ≡ some folded_delim

pub IsFenced-with_free :
    (t : Table) (l : List ℕ) (lo hi : ℕ)
    → IsFenced t lo hi
    → IsFenced (record t { free_slots = l }) lo hi
IsFenced-with_free t l lo hi f = record {
  fences = f.fences;
  cover = λ h b g n. elim (f.cover h b g n) [
    | inl o ↦
        inl
          (record { slot = o.slot; entry = o.entry; live = o.live; from = o.from; below = o.below })
    | inr r ↦ inr r
  ];
  ends = f.ends;
}

-- ---- erasing a record

get_elem?-fill_delim :
    (bs : Bytes) (off len h : ℕ)
    → get_elem? bs h ≡ some folded_delim
    → get_elem? (fill bs off len folded_delim) h ≡ some folded_delim
get_elem?-fill_delim bs off len h g = elim (Bool-cases (ltb h off)) [
  | inl y ↦ get_elem?-fill_before bs off len h folded_delim (ground arith) ∙ g
  | inr n ↦ elim (Bool-cases (ltb h (off + len))) [
    | inl y ↦
        get_elem?-fill_in bs off len h folded_delim (ground arith) (ground arith)
          (lt_of_get_elem? bs h g)
    | inr m ↦ get_elem?-fill_after bs off len h folded_delim (ground arith) ∙ g
  ]
]

-- A byte that is no delimiter after the erasure was there before, outside the range.
get_elem?-fill_back :
    (bs : Bytes) (off len h b : ℕ)
    → get_elem? (fill bs off len folded_delim) h ≡ some b
    → b ≢ folded_delim
    → (get_elem? bs h ≡ some b) × ((h < off) ⊎ (off + len ≤ h))
get_elem?-fill_back bs off len h b g n = elim (Bool-cases (ltb h off)) [
  | inl y ↦
      (sym (get_elem?-fill_before bs off len h folded_delim (ground arith)) ∙ g, inl (ground arith))
  | inr y ↦ elim (Bool-cases (ltb h (off + len))) [
    | inl z ↦
        let l = lt_of_get_elem? (fill bs off len folded_delim) h g in
        let e =
          get_elem?-fill_in bs off len h folded_delim (ground arith) (ground arith)
            (omega (arith, l, length-fill bs off len folded_delim)) in
        absurd (ground arith)
    | inr z ↦ (
      sym (get_elem?-fill_after bs off len h folded_delim (ground arith)) ∙ g,
      inr (ground arith),
    )
  ]
]

module _ (t : Table) (slot : ℕ) (e : Entry) (v : IsValid t) (l : LiveAt t slot e) (lo hi : ℕ) where
  pub HasFences-vacate :
      (x : Entry)
      → Apart x e
      → HasFences t.arenas.folded x
      → HasFences (vacate slot e t).arenas.folded x
  HasFences-vacate x ap f = record {
    before = λ k p.
        unfold vacate in
        get_elem?-fill_delim t.arenas.folded e.folded_off e.folded_len k (f.before k p);
    after =
        unfold vacate in
        get_elem?-fill_delim t.arenas.folded e.folded_off e.folded_len (x.folded_off + x.folded_len)
          f.after;
    plain =
        let same : slice (vacate slot e t).arenas.folded x.folded_off x.folded_len
            ≡ slice t.arenas.folded x.folded_off x.folded_len =
          λ i. (file_of-vacate t slot e x ap i).folded in
        rw same f.plain;
  }

  -- The erasure leaves a well-formed arena.
  pub vacate-IsFenced : IsFenced t lo hi → IsFenced (vacate slot e t) lo hi
  vacate-IsFenced f = record {
    fences = λ s x lx.
        let (n, lx') = LiveAt-vacate t slot e v l s x lx in
        HasFences-vacate x (v.apart s slot x e lx' l n) (f.fences s x lx');
    cover = λ h b g n.
        let back =
          get_elem?-fill_back t.arenas.folded e.folded_off e.folded_len h b (unfold vacate in g)
            n in
        owned h back.1 (f.cover h b back.0 n);
    ends = λ k p.
        unfold vacate in
        get_elem?-fill_delim t.arenas.folded e.folded_off e.folded_len k (
          f.ends k (
            unfold vacate in
            (p ∙ length-fill t.arenas.folded e.folded_off e.folded_len folded_delim)));
  }
    where
      owned :
          (h : ℕ)
          → (h < e.folded_off) ⊎ (e.folded_off + e.folded_len ≤ h)
          → Owned t h ⊎ ((lo ≤ h) × (h < hi))
          → Owned (vacate slot e t) h ⊎ ((lo ≤ h) × (h < hi))
      owned h out (inr r) = inr r
      owned h out (inl o) = elim (Bool-cases (o.slot == slot)) [
        | inl same ↦
            let w : some o.entry ≡ some e =
              sym o.live.0 ∙ ap (get_elem? t.entries) ((==_iff o.slot slot).0 same) ∙ l.0 in
            let from = o.from in let below = o.below in absurd (ground arith)
        | inr other ↦ inl (record {
          slot = o.slot;
          entry = o.entry;
          live = LiveAt-vacate_ne t slot e v l o.slot o.entry (ground arith) o.live;
          from = o.from;
          below = o.below;
        })
      ]
