-- ===== src/Index/Paths/Laws.antt =====
-- A path is the path of the parent with the name behind it, where the chain of parents ends within the cap.
use yspot.Prelude.{
  append_assoc, ℕ, zero, suc, ◌≤◌, ◌<◌, ◌≡◌, ◌≢◌, refl, sym, ap, ◌∙◌, false, List, [], ◌∷◌, ◌++◌,
  some, inl, inr, Bytes, get_elem?, arith, Option-cases, ◌==◌,
}
use mathlib.Core.Option.{some-injective}
use yspot.Prelude.Slices.{slice}
use yspot.Index.Types.{Entry}
use yspot.Index.Table.{Table}
use yspot.Index.Table.Valid.{LiveAt, IsValid}
use yspot.Index.Volume.{VolumeIndex}
use yspot.Index.Paths.{
  path_depth_cap, parent_slot, part_of, above_or, parts_from, backslash, join_reversed, root_prefix,
  path_of, depth_from, depth_of,
}

module _ (t : Table) where
  -- A chain that ends within the rounds gives the same parts with one more.
  parts_from-enough :
      (fuel idx : ℕ)
      → depth_from t fuel idx < fuel
      → parts_from t (suc fuel) idx ≡ parts_from t fuel idx
  unfolding parts_from depth_from
  parts_from-enough zero idx h = elim h [ ]
  parts_from-enough (suc fuel) idx h =
      let e = get_elem? t.entries idx in
      elim (Option-cases (parent_slot t idx e)) [
        | inl n ↦ rw n refl
        | inr (p, s) ↦
            let h' : suc (depth_from t fuel p) < suc fuel = rw s at h in
            rw s (ap (part_of e ++◌) (parts_from-enough fuel p (omega arith)))
      ]

  pub depth_from-le : (fuel idx : ℕ) → depth_from t fuel idx ≤ fuel
  unfolding depth_from
  depth_from-le zero idx = omega arith
  depth_from-le (suc fuel) idx = elim (Option-cases (parent_slot t idx (get_elem? t.entries idx))) [
    | inl n ↦ rw n (omega arith)
    | inr (p, s) ↦ rw s (let ih = depth_from-le fuel p in omega arith)
  ]

-- The name of a part behind the parts above it.
join_reversed-cons :
    (names : Bytes) (off len : ℕ) (y : ℕ × ℕ) (ps : List (ℕ × ℕ))
    → join_reversed names ((off, len) ∷ y ∷ ps)
      ≡ join_reversed names (y ∷ ps) ++ backslash ∷ slice names off len
unfolding join_reversed
join_reversed-cons names off len y ps = refl

module _ (t : Table) (v : IsValid t) (s p : ℕ) (e : Entry) (l : LiveAt t s e)
    (not_root : e.parent_frn ≢ e.frn) (held : t.frn_map e.parent_frn ≡ some p) where
  other : p ≢ s
  other same =
      let (pe, pl, q) = v.held e.parent_frn p held in
      let g : get_elem? t.entries s ≡ some pe = rw (← same) pl.0 in
      let one = some-injective _ _ (sym g ∙ l.0) in not_root (sym q ∙ ap (λ (x : Entry). x.frn) one)

  parent_slot-held : parent_slot t s (some e) ≡ some p
  parent_slot-held =
      let a : (e.parent_frn == e.frn) ≡ false = ground arith in
      let o = other in let b : (p == s) ≡ false = ground arith in rw (a, held, b) refl

  join-parts_from :
      (n : ℕ) (names : Bytes)
      → depth_from t (suc (suc n)) s < suc (suc n)
      → join_reversed names (parts_from t (suc (suc n)) s)
        ≡ join_reversed names (parts_from t (suc (suc n)) p)
          ++ backslash ∷ slice names e.name_off e.name_len
  join-parts_from n names h =
      let (pe, pl, q) = v.held e.parent_frn p held in
      let d : suc (depth_from t (suc n) p) < suc (suc n) =
        unfold depth_from in (rw (l.0, parent_slot-held) at h) in
      let more = parts_from-enough t (suc n) p (omega arith) in
      rw more (
        unfold parts_from in
        (rw (l.0, parent_slot-held, pl.0)
          (join_reversed-cons names e.name_off e.name_len (pe.name_off, pe.name_len)
            (above_or (parent_slot t p (some pe)) [] (λ r. parts_from t n r)))))

-- In a valid table, a live file that is not its own parent and whose parent is held has the path of its
-- parent, a backslash and its name, where fewer than `path_depth_cap` parents are above it.
pub path_of-child :
    (ix : VolumeIndex) (v : IsValid ix.table) (s p : ℕ) (e : Entry)
    → LiveAt ix.table s e
    → e.parent_frn ≢ e.frn
    → ix.table.frn_map e.parent_frn ≡ some p
    → depth_of ix.table s < path_depth_cap
    → (above : Bytes) × (path_of ix e.parent_frn ≡ some above)
      × (path_of ix e.frn
          ≡ some (above ++ backslash ∷ slice ix.table.arenas.names e.name_off e.name_len))
unfolding path_of depth_of
path_of-child ix v s p e l not_root held h =
    let names = ix.table.arenas.names in
    let front = root_prefix ix.root_path in
    let m = v.mapped s e l in
    let j = join-parts_from ix.table v s p e l not_root held 510 names h in
    (
      front ++ join_reversed names (parts_from ix.table path_depth_cap p),
      rw held refl,
      rw (m, j)
          (ap some (
            sym (
              append_assoc front (join_reversed names (parts_from ix.table path_depth_cap p))
                (backslash ∷ slice names e.name_off e.name_len)))),
    )
