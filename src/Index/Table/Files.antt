-- ===== src/Index/Table/Files.antt =====
-- The files that a table holds: the view of it that forgets slots and offsets.
use yspot.Prelude.{
  ℕ, ◌+◌, ◌<◌, ◌≡◌, ◌≢◌, refl, sym, ap, ◌∙◌, inl, inr, [], ◌∷◌, ◌++◌, Bytes, length, arith, Option,
  none, some, get_elem?, ◌==◌, if◌then◌else◌, ==_iff, Bool-cases, Option-cases, false,
}
use yspot.Prelude.Slices.{
  slice, fill, slice-fill_before, slice-fill_after, slice-append_left, slice-append_at,
  slice-append_end,
}
use yspot.Index.Types.{Entry, is_dead}
use yspot.Index.Columns.{folded_delim}
use yspot.Index.Arena.{Arenas, Interned, fenced}
use yspot.Index.Arena.Laws.{Appended}
use yspot.Index.Table.{Table, bind, vacate}
use yspot.Index.Table.Valid.{LiveAt, IsValid, IsVacant, Apart}
use yspot.Index.Table.Bind.{LiveAt-bind_self, LiveAt-bind_ne}
use yspot.Index.Table.Vacate.{LiveAt-vacate_ne}
use yspot.Index.Table.Extend.{with_arenas, Placed}

-- What the index knows of one file.
pub record File : Type 0 where
  pub parent_frn : ℕ
  pub name : Bytes
  pub folded : Bytes
  pub flags : ℕ

abbrev pub file_of : Arenas → Entry → File
file_of a e = record {
  parent_frn = e.parent_frn;
  name = slice a.names e.name_off e.name_len;
  folded = slice a.folded e.folded_off e.folded_len;
  flags = e.flags;
}

abbrev file_at : Arenas → Option Entry → Option File
file_at a none = none
file_at a (some e) = some (file_of a e)

abbrev slot_file : Table → Option ℕ → Option File
slot_file t none = none
slot_file t (some s) = file_at t.arenas (get_elem? t.entries s)

unfoldable pub lookup_file : Table → ℕ → Option File
lookup_file t f = slot_file t (t.frn_map f)

pub lookup_file-LiveAt :
    (t : Table) (v : IsValid t) (s : ℕ) (e : Entry)
    → LiveAt t s e
    → lookup_file t e.frn ≡ some (file_of t.arenas e)
unfolding lookup_file
lookup_file-LiveAt t v s e l = rw (v.mapped s e l, l.0)

pub lookup_file-none : (t : Table) (f : ℕ) → t.frn_map f ≡ none → lookup_file t f ≡ none
unfolding lookup_file
lookup_file-none t f h = rw h

-- Two tables that hold the same file under `f`, whatever the slot.
same_file :
    (t t' : Table) (f : ℕ)
    → IsValid t
    → t'.frn_map f ≡ t.frn_map f
    → ((s : ℕ) (e : Entry)
        → LiveAt t s e
        → e.frn ≡ f
        → (get_elem? t'.entries s ≡ some e) × (file_of t'.arenas e ≡ file_of t.arenas e))
    → lookup_file t' f ≡ lookup_file t f
unfolding lookup_file
same_file t t' f v m keep = elim (Option-cases (t.frn_map f)) [
  | inl e ↦ rw (m, e)
  | inr (s, e) ↦
      let (x, l, q) = v.held f s e in
      let (g, same) = keep s x l q in rw (m, e, g, l.0) (ap some same)
]

-- Binding a slot adds its file and changes no other.
pub lookup_file-bind :
    (t : Table) (slot : ℕ) (e : Entry)
    → IsValid t
    → IsVacant t slot
    → IsValid (bind slot e t)
    → is_dead e ≡ false
    → (f : ℕ)
    → lookup_file (bind slot e t) f
      ≡ (if f == e.frn then some (file_of t.arenas e) else lookup_file t f)
lookup_file-bind t slot e v vacant v' live f = elim (Bool-cases (f == e.frn)) [
  | inl same ↦
      rw (same, (==_iff f e.frn).0 same)
        (unfold bind in
          lookup_file-LiveAt (bind slot e t) v' slot e (LiveAt-bind_self t slot e vacant live))
  | inr other ↦ rw other (
      same_file t (bind slot e t) f v (unfold bind in ground arith)
        λ s x l q. ((LiveAt-bind_ne t slot e vacant s x l).0, unfold bind in refl))
]

slice-Apart :
    (bs : Bytes) (x e : Entry)
    → Apart x e
    → slice (fill bs e.folded_off e.folded_len folded_delim) x.folded_off x.folded_len
      ≡ slice bs x.folded_off x.folded_len
slice-Apart bs x e (inl h) =
    slice-fill_before bs e.folded_off e.folded_len x.folded_off x.folded_len folded_delim
      (omega arith)
slice-Apart bs x e (inr h) =
    slice-fill_after bs e.folded_off e.folded_len x.folded_off x.folded_len folded_delim
      (omega arith)

-- The record of another live entry is not touched by the erasure.
pub file_of-vacate :
    (t : Table) (slot : ℕ) (e x : Entry)
    → Apart x e
    → file_of (vacate slot e t).arenas x ≡ file_of t.arenas x
unfolding vacate
file_of-vacate t slot e x h = rw (slice-Apart t.arenas.folded x e h)

-- Vacating a slot removes its file and changes no other.
pub lookup_file-vacate :
    (t : Table) (slot : ℕ) (e : Entry)
    → IsValid t
    → LiveAt t slot e
    → (f : ℕ) → lookup_file (vacate slot e t) f ≡ (if f == e.frn then none else lookup_file t f)
lookup_file-vacate t slot e v l f = elim (Bool-cases (f == e.frn)) [
  | inl same ↦ rw same (lookup_file-none (vacate slot e t) f (unfold vacate in ground arith))
  | inr other ↦ rw other (
      same_file t (vacate slot e t) f v (unfold vacate in ground arith) λ s x lx q.
        let ne : s ≢ slot = λ p. other_slot s x lx q p other in
        ((LiveAt-vacate_ne t slot e v l s x ne lx).0, keeps s x lx ne))
]
  where
    other_slot :
        (s : ℕ) (x : Entry) → LiveAt t s x → x.frn ≡ f → s ≡ slot → (f == e.frn) ≡ false → ⊥
    other_slot s x lx q p other =
        let w : some x ≡ some e = sym lx.0 ∙ ap (get_elem? t.entries) p ∙ l.0 in ground arith

    keeps :
        (s : ℕ) (x : Entry)
        → LiveAt t s x
        → s ≢ slot
        → file_of (vacate slot e t).arenas x ≡ file_of t.arenas x
    keeps s x lx ne = file_of-vacate t slot e x (v.apart s slot x e lx l ne)

slice-fenced :
    (bs zs : Bytes) (o l : ℕ) → o + l < length bs → slice (fenced bs ++ zs) o l ≡ slice bs o l
slice-fenced [] zs o l h = elim h [ ]
slice-fenced (b ∷ bs) zs o l h = slice-append_left (b ∷ bs) zs o l (omega arith)

module _ (t : Table) (nfc folded : Bytes) (i : Interned) (a : Arenas)
    (app : Appended t.arenas nfc folded i a) where
  -- Appending a name changes no file.
  pub lookup_file-with_arenas :
      (f : ℕ) → IsValid t → lookup_file (with_arenas t a) f ≡ lookup_file t f
  lookup_file-with_arenas f v = same_file t (with_arenas t a) f v refl λ s x l q. (l.0, keeps s x l)
    where
      keeps : (s : ℕ) (x : Entry) → LiveAt t s x → file_of a x ≡ file_of t.arenas x
      keeps s x l =
          let o = v.in_arenas s x l in
          rw (
            app.names_eq,
            app.folded_eq,
            slice-append_left t.arenas.names nfc x.name_off x.name_len o.name_in,
            slice-fenced t.arenas.folded (folded ++ folded_delim ∷ []) x.folded_off x.folded_len
                o.folded_in,
          )

  -- The entry placed there has the name.
  pub file_of-Placed :
      (e : Entry)
      → Placed e i
      → file_of a e
        ≡ record { parent_frn = e.parent_frn; name = nfc; folded = folded; flags = e.flags }
  file_of-Placed e p =
      rw
        (
          p.0, p.1, p.2, p.3, app.name_off_eq, app.name_len_eq, app.folded_off_eq,
          app.folded_len_eq, app.names_eq, app.folded_eq,
        )
        (rw (
          slice-append_end t.arenas.names nfc,
          slice-append_at (fenced t.arenas.folded) folded (folded_delim ∷ []),
        ))
