-- ===== src/Index/Table/Writes.antt =====
-- What a write to one slot does to the list of entries.
use yspot.Prelude.{
  ℕ, zero, suc, ◌+◌, ◌≤◌, ◌<◌, ◌≡◌, refl, ◌⊎◌, inl, inr, true, false, List, [], ◌∷◌, some, ◌==◌,
  if◌then◌else◌, length, set, get_elem?, arith,
}
use yspot.Index.Types.{Entry, is_dead}
use yspot.Index.Table.{put_entry}
use yspot.Index.Table.Valid.{count_live}

pub get_elem?-put_entry :
    (es : List Entry) (slot : ℕ) (e : Entry) (s : ℕ)
    → slot ≤ length es
    → get_elem? (put_entry slot e es) s ≡ (if s == slot then some e else get_elem? es s)
get_elem?-put_entry [] zero e zero h = refl
get_elem?-put_entry [] zero e (suc s) h = ground arith
get_elem?-put_entry [] (suc slot) e s h = absurd (omega arith)
get_elem?-put_entry (x ∷ es) zero e zero h = ground arith
get_elem?-put_entry (x ∷ es) zero e (suc s) h = ground arith
get_elem?-put_entry (x ∷ es) (suc slot) e zero h = ground arith
get_elem?-put_entry (x ∷ es) (suc slot) e (suc s) h =
    ground (arith, get_elem?-put_entry es slot e s)

pub get_elem?-set :
    (es : List Entry) (slot : ℕ) (e : Entry) (s : ℕ)
    → slot < length es
    → get_elem? (set es slot e) s ≡ (if s == slot then some e else get_elem? es s)
get_elem?-set [] slot e s h = elim h [ ]
get_elem?-set (x ∷ es) zero e zero h = refl
get_elem?-set (x ∷ es) zero e (suc s) h = ground arith
get_elem?-set (x ∷ es) (suc slot) e zero h = ground arith
get_elem?-set (x ∷ es) (suc slot) e (suc s) h = ground (arith, get_elem?-set es slot e s)

pub count_live-put_entry :
    (es : List Entry) (slot : ℕ) (e : Entry)
    → (slot ≡ length es) ⊎ ((x : Entry) × (get_elem? es slot ≡ some x) × (is_dead x ≡ true))
    → is_dead e ≡ false
    → count_live (put_entry slot e es) ≡ count_live es + 1
count_live-put_entry [] zero e v h = ground arith
count_live-put_entry [] (suc slot) e (inl v) h = absurd (omega arith)
count_live-put_entry [] (suc slot) e (inr (x, v, d)) h = ground arith
count_live-put_entry (y ∷ es) zero e (inl v) h = absurd (omega arith)
count_live-put_entry (y ∷ es) zero e (inr (x, v, d)) h = ground arith
count_live-put_entry (y ∷ es) (suc slot) e (inl v) h =
    ground (arith, count_live-put_entry es slot e (inl (omega arith)) h)
count_live-put_entry (y ∷ es) (suc slot) e (inr (x, v, d)) h =
    ground (arith, count_live-put_entry es slot e (inr (x, v, d)) h)

pub count_live-set_dead :
    (es : List Entry) (slot : ℕ) (x e : Entry)
    → get_elem? es slot ≡ some x
    → is_dead x ≡ false
    → is_dead e ≡ true
    → count_live (set es slot e) + 1 ≡ count_live es
count_live-set_dead [] slot x e g l d = ground arith
count_live-set_dead (y ∷ es) zero x e g l d = ground arith
count_live-set_dead (y ∷ es) (suc slot) x e g l d =
    ground (arith, count_live-set_dead es slot x e g l d)
