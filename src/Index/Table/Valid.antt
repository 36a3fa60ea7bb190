-- ===== src/Index/Table/Valid.antt =====
-- The invariant of the entry table.
use yspot.Prelude.{
  ℕ, ◌+◌, ◌≤◌, ◌<◌, ◌≡◌, ◌≢◌, ◌⊎◌, true, false, List, [], ◌∷◌, some, if◌then◌else◌, length,
  get_elem?,
}
use yspot.Index.Types.{Entry, is_dead}
use yspot.Index.Arena.{Arenas}
use yspot.Index.Table.{Table}

-- The slot holds the entry of a live file.
abbrev pub LiveAt : Table → ℕ → Entry → Type 0
LiveAt t s e = (get_elem? t.entries s ≡ some e) × (is_dead e ≡ false)

abbrev pub DeadAt : Table → ℕ → Type 0
DeadAt t s = (e : Entry) × (get_elem? t.entries s ≡ some e) × (is_dead e ≡ true)

abbrev pub All {ℓ κ} : {A : Type ℓ} → (A → Type κ) → List A → Type κ
All P [] = Unit
All P (x ∷ xs) = P x × All P xs

abbrev pub Distinct : List ℕ → Type 0
Distinct [] = Unit
Distinct (x ∷ xs) = All (λ y. y ≢ x) xs × Distinct xs

abbrev pub count_live : List Entry → ℕ
count_live [] = 0
count_live (e ∷ es) = (if is_dead e then 0 else 1) + count_live es

-- The ranges of an entry lie in the arenas, the folded one between two fences.
pub record InArenas (a : Arenas) (e : Entry) : Type 0 where
  pub name_in : e.name_off + e.name_len ≤ length a.names
  pub folded_in : e.folded_off + e.folded_len < length a.folded
  pub fence_before : 0 < e.folded_off
  pub not_empty : 0 < e.folded_len

-- One record ends, with a fence behind it, before the other starts.
abbrev pub Apart : Entry → Entry → Type 0
Apart a b =
    (a.folded_off + a.folded_len < b.folded_off) ⊎ (b.folded_off + b.folded_len < a.folded_off)

pub record IsValid (t : Table) : Type 0 where
  pub mapped : (s : ℕ) (e : Entry) → LiveAt t s e → t.frn_map e.frn ≡ some s
  pub held : (f s : ℕ) → t.frn_map f ≡ some s → (e : Entry) × LiveAt t s e × (e.frn ≡ f)
  pub counted : t.live_count ≡ count_live t.entries
  pub in_arenas : (s : ℕ) (e : Entry) → LiveAt t s e → InArenas t.arenas e
  pub apart : (r s : ℕ) (a b : Entry) → LiveAt t r a → LiveAt t s b → r ≢ s → Apart a b
  pub free_dead : All (DeadAt t) t.free_slots
  pub free_distinct : Distinct t.free_slots

-- The slot can take a new entry: it is the next one, or a tombstone that is not on offer.
pub record IsVacant (t : Table) (slot : ℕ) : Type 0 where
  pub next_or_dead : (slot ≡ length t.entries) ⊎ DeadAt t slot
  pub not_free : All (λ s. s ≢ slot) t.free_slots
