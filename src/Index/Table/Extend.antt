-- ===== src/Index/Table/Extend.antt =====
-- A name appended to the arenas: the invariant is kept, and an entry for the name fits behind all others.
use yspot.Prelude.{ℕ, ◌+◌, ◌<◌, ◌≡◌, inl, [], ◌∷◌, ◌++◌, Bytes, length, arith, length-append}
use yspot.Index.Types.{Entry}
use yspot.Index.Columns.{folded_delim}
use yspot.Index.Arena.{Arenas, Interned, fenced}
use yspot.Index.Arena.Laws.{Appended, length-fenced}
use yspot.Index.Table.{Table}
use yspot.Index.Table.Valid.{LiveAt, IsValid, InArenas, Apart}

abbrev pub with_arenas : Table → Arenas → Table
with_arenas t a = record t { arenas = a }

-- The entry stands where the name was appended.
abbrev pub Placed : Entry → Interned → Type 0
Placed e i =
    (e.name_off ≡ i.name_off)
    × (e.name_len ≡ i.name_len)
    × (e.folded_off ≡ i.folded_off)
    × (e.folded_len ≡ i.folded_len)

module _ (t : Table) (nfc folded : Bytes) (i : Interned) (a : Arenas)
    (app : Appended t.arenas nfc folded i a) where
  length_names : length a.names ≡ length t.arenas.names + length nfc
  length_names = rw app.names_eq (length-append t.arenas.names nfc)

  length_folded : length a.folded ≡ length (fenced t.arenas.folded) + (length folded + 1)
  length_folded = rw app.folded_eq (
      omega (
        arith,
        length-append (fenced t.arenas.folded) (folded ++ folded_delim ∷ []),
        length-append folded (folded_delim ∷ []),
      ))

  pub with_arenas-IsValid : IsValid t → IsValid (with_arenas t a)
  with_arenas-IsValid v = record {
    mapped = v.mapped;
    held = v.held;
    counted = v.counted;
    in_arenas = λ s e l.
        let o = v.in_arenas s e l in
        record {
          name_in = omega (arith, length_names, o.name_in);
          folded_in = omega (arith, length_folded, o.folded_in, (length-fenced t.arenas.folded).0);
          fence_before = o.fence_before;
          not_empty = o.not_empty;
        };
    apart = v.apart;
    free_dead = v.free_dead;
    free_distinct = v.free_distinct;
  }

  pub Placed-InArenas : (e : Entry) → Placed e i → 0 < length folded → InArenas a e
  Placed-InArenas e p ne = record {
    name_in = omega (arith, length_names, app.name_off_eq, app.name_len_eq, p);
    folded_in = omega (arith, length_folded, app.folded_off_eq, app.folded_len_eq, p);
    fence_before = omega (arith, app.folded_off_eq, (length-fenced t.arenas.folded).1, p);
    not_empty = omega (arith, app.folded_len_eq, p);
  }

  pub Placed-Apart :
      (e : Entry) → Placed e i → IsValid t → (s : ℕ) (b : Entry) → LiveAt t s b → Apart b e
  Placed-Apart e p v s b l =
      let o = v.in_arenas s b l in
      inl (omega (arith, o.folded_in, app.folded_off_eq, (length-fenced t.arenas.folded).0, p))
