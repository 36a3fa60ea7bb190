-- ===== src/Index/Volume/Steps.antt =====
-- What one mutation of the index does to its table, in terms of `bind` and `vacate`.
use yspot.Prelude.{
  ℕ, ◌+◌, ◌<◌, ◌≡◌, ◌≢◌, refl, ap, ◌∙◌, inl, inr, List, [], ◌∷◌, Bytes, length, arith, Option, none,
  some, get_elem?, ◌==◌, if◌then◌else◌, Bool-cases, false,
}
use yspot.Text.{Unicode}
use yspot.Index.Flags.{dead, without_flag, has_flag-without_flag}
use yspot.Index.Types.{Entry}
use yspot.Index.Arena.{Arenas, Interned}
use yspot.Index.Arena.Laws.{Appended}
use yspot.Index.Table.{Table, bind, vacate}
use yspot.Prelude.Slices.{length-fill}
use yspot.Index.Table.Valid.{All, Distinct, LiveAt, DeadAt, IsValid, IsVacant, InArenas, Apart}
use yspot.Index.Table.Bind.{bind-IsValid}
use yspot.Index.Table.Vacate.{vacate-IsValid, vacate-IsVacant, vacate-unmapped, LiveAt-vacate}
use yspot.Index.Table.Extend.{with_arenas, Placed, Placed-InArenas, Placed-Apart}
use yspot.Index.Table.Files.{
  lookup_file, lookup_file-bind, lookup_file-vacate, lookup_file-with_arenas, file_of,
  file_of-Placed, file_of-vacate,
}
use yspot.Text.{has_control_byte}
use yspot.Index.Table.Fenced.{
  IsFenced, HasFences, vacate-IsFenced, HasFences-vacate, IsFenced-with_free,
}
use yspot.Index.Table.Fenced.Append.{with_arenas-IsFenced, Placed-HasFences, bind-IsFenced}
use yspot.Index.Volume.{
  VolumeIndex, register_slot, unregister_entry, unregister_slot, note_reparent, arm_for_removal,
}

pub note_reparent-table :
    (now : ℕ) (ix : VolumeIndex) (o : Option Entry) (p : ℕ)
    → (note_reparent now ix o p).table ≡ ix.table
note_reparent-table now ix none p = refl
note_reparent-table now ix (some e) p = ground arith

pub arm_for_removal-table :
    (now : ℕ) (ix : VolumeIndex) (o : Option Entry) → (arm_for_removal now ix o).table ≡ ix.table
arm_for_removal-table now ix none = refl
arm_for_removal-table now ix (some e) = ground arith

pub unregister_slot-table :
    (ix : VolumeIndex) (s : ℕ) (e : Entry)
    → get_elem? ix.table.entries s ≡ some e
    → (unregister_slot ix s).table ≡ vacate s e ix.table
unfolding unregister_slot unregister_entry
unregister_slot-table ix s e h = rw h

-- The entry that `register_slot` writes.
abbrev pub new_entry : ℕ → ℕ → Interned → ℕ → Entry
new_entry frn parent_frn i flags = record {
  frn = frn;
  parent_frn = parent_frn;
  name_off = i.name_off;
  folded_off = i.folded_off;
  name_len = i.name_len;
  folded_len = i.folded_len;
  flags = without_flag dead flags;
}

pub register_slot-table :
    (u : Unicode) (ix : VolumeIndex) (slot frn parent_frn : ℕ) (i : Interned) (flags : ℕ)
    → (register_slot u ix slot frn parent_frn i flags).table
      ≡ bind slot (new_entry frn parent_frn i flags) ix.table
unfolding register_slot
register_slot-table u ix slot frn parent_frn i flags = refl

-- A table ready to have `frn` bound at `slot`: made from `t`, which holds the appended name, by taking
-- the old file of `frn` out.
pub record IsReady (t : Table) (frn slot : ℕ) (t' : Table) : Type 0 where
  pub valid : IsValid t'
  pub vacant : IsVacant t' slot
  pub unmapped : t'.frn_map frn ≡ none
  pub names_same : t'.arenas.names ≡ t.arenas.names
  pub folded_same : length t'.arenas.folded ≡ length t.arenas.folded
  pub fewer : (s : ℕ) (e : Entry) → LiveAt t' s e → LiveAt t s e
  pub others : (f : ℕ) → f ≢ frn → lookup_file t' f ≡ lookup_file t f
  pub kept :
      (x : Entry)
      → ((s : ℕ) (b : Entry) → LiveAt t s b → Apart x b)
      → file_of t'.arenas x ≡ file_of t.arenas x
  pub fenced : (lo hi : ℕ) → IsFenced t lo hi → IsFenced t' lo hi
  pub fences :
      (x : Entry)
      → ((s : ℕ) (b : Entry) → LiveAt t s b → Apart x b)
      → HasFences t.arenas.folded x
      → HasFences t'.arenas.folded x

pub IsReady-vacate :
    (t : Table) (s : ℕ) (e : Entry) (frn : ℕ)
    → IsValid t
    → LiveAt t s e
    → e.frn ≡ frn
    → IsReady t frn s (vacate s e t)
IsReady-vacate t s e frn v l q = record {
  valid = vacate-IsValid t s e v l;
  vacant = vacate-IsVacant t s e v l;
  unmapped = rw (← q) (vacate-unmapped t s e v l);
  names_same = unfold vacate in refl;
  folded_same = unfold vacate in length-fill t.arenas.folded e.folded_off e.folded_len 0;
  fewer = λ r x lx. (LiveAt-vacate t s e v l r x lx).1;
  others = λ f n. lookup_file-vacate t s e v l f ∙ other f (λ p. n (p ∙ q));
  kept = λ x ap. file_of-vacate t s e x (ap s e l);
  fenced = λ lo hi. vacate-IsFenced t s e v l lo hi;
  fences = λ x ap. HasFences-vacate t s e v l 0 0 x (ap s e l);
}
  where
    other : (f : ℕ) → f ≢ e.frn → (if f == e.frn then none else lookup_file t f) ≡ lookup_file t f
    other f n = ground arith

pub IsReady-next :
    (t : Table) (frn : ℕ)
    → IsValid t
    → t.frn_map frn ≡ none
    → t.free_slots ≡ []
    → IsReady t frn (length t.entries) t
IsReady-next t frn v m none_free = record {
  valid = v;
  vacant = record { next_or_dead = inl refl; not_free = rw none_free tt };
  unmapped = m;
  names_same = refl;
  folded_same = refl;
  fewer = λ s e l. l;
  others = λ f n. refl;
  kept = λ x ap. refl;
  fenced = λ lo hi f. f;
  fences = λ x ap f. f;
}

pub IsReady-pop :
    (t : Table) (frn slot : ℕ) (rest : List ℕ)
    → IsValid t
    → t.frn_map frn ≡ none
    → t.free_slots ≡ slot ∷ rest
    → IsReady t frn slot (record t { free_slots = rest })
IsReady-pop t frn slot rest v m e =
    let dead : All (DeadAt t) (slot ∷ rest) = rw e at v.free_dead in
    let distinct : Distinct (slot ∷ rest) = rw e at v.free_distinct in
    record {
      valid = record {
        mapped = v.mapped;
        held = v.held;
        counted = v.counted;
        in_arenas = v.in_arenas;
        apart = v.apart;
        free_dead = dead.1;
        free_distinct = distinct.1;
      };
      vacant = record { next_or_dead = inr dead.0; not_free = distinct.0 };
      unmapped = m;
      names_same = refl;
      folded_same = refl;
      fewer = λ s x l. l;
      others = λ f n. unfold lookup_file in refl;
      kept = λ x ap. refl;
      fenced = λ lo hi. IsFenced-with_free t rest lo hi;
      fences = λ x ap f. f;
    }

-- Binding the new entry in a table that is ready for it.
module _ (t0 : Table) (nfc folded : Bytes) (i : Interned) (a : Arenas)
    (app : Appended t0.arenas nfc folded i a) (v0 : IsValid t0) (not_empty : 0 < length folded)
    (frn parent_frn flags slot : ℕ) (t' : Table)
    (ready : IsReady (with_arenas t0 a) frn slot t') where
  abbrev e' : Entry
  e' = new_entry frn parent_frn i flags

  placed : Placed e' i
  placed = (refl, refl, refl, refl)

  Apart-all : (s : ℕ) (b : Entry) → LiveAt (with_arenas t0 a) s b → Apart b e'
  Apart-all s b l = Placed-Apart t0 nfc folded i a app e' placed v0 s b l

  swap : (x y : Entry) → Apart x y → Apart y x
  swap x y (inl h) = inr h
  swap x y (inr h) = inl h

  in_arenas' : InArenas t'.arenas e'
  in_arenas' =
      let o = Placed-InArenas t0 nfc folded i a app e' placed not_empty in
      record {
        name_in = rw ready.names_same o.name_in;
        folded_in = rw ready.folded_same o.folded_in;
        fence_before = o.fence_before;
        not_empty = o.not_empty;
      }

  pub bind_ready-IsValid : IsValid (bind slot e' t')
  bind_ready-IsValid =
      bind-IsValid t' slot e' ready.valid ready.vacant ready.unmapped (has_flag-without_flag flags)
        in_arenas' (λ s b l. Apart-all s b (ready.fewer s b l))

  pub file_new : file_of t'.arenas e' ≡ record {
    parent_frn = parent_frn;
    name = nfc;
    folded = folded;
    flags = without_flag dead flags;
  }
  file_new =
      ready.kept e' (λ s b l. swap b e' (Apart-all s b l))
      ∙ file_of-Placed t0 nfc folded i a app e' placed

  pub lookup_file-bind_ready :
      (f : ℕ)
      → lookup_file (bind slot e' t') f ≡ (
          if f == frn
          then some (record {
            parent_frn = parent_frn;
            name = nfc;
            folded = folded;
            flags = without_flag dead flags;
          })
          else lookup_file t0 f)
  lookup_file-bind_ready f =
      lookup_file-bind t' slot e' ready.valid ready.vacant bind_ready-IsValid
        (has_flag-without_flag flags) f
      ∙ (elim (Bool-cases (f == frn)) [
        | inl same ↦ rw same (ap some file_new)
        | inr other ↦
            rw other
              (ready.others f (ground arith) ∙ lookup_file-with_arenas t0 nfc folded i a app f v0)
      ])

  -- The arena stays well formed.
  pub bind_ready-IsFenced :
      IsFenced t0 0 0 → has_control_byte folded ≡ false → IsFenced (bind slot e' t') 0 0
  bind_ready-IsFenced f plain =
      bind-IsFenced t' slot e' ready.vacant (has_flag-without_flag flags)
        (ready.fences e' (λ s b l. swap b e' (Apart-all s b l))
          (Placed-HasFences t0 nfc folded i a app v0 f e' placed plain))
        (ready.fenced i.folded_off (i.folded_off + i.folded_len)
          (with_arenas-IsFenced t0 nfc folded i a app v0 f))
