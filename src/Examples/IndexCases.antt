-- ===== src/Examples/IndexCases.antt =====
-- An index with two files, and the theorems about it.
use yspot.Prelude.{ℕ, ◌+◌, ◌≡◌, refl, List, [], ◌∷◌, Bytes, leb, ◌&&◌, if◌then◌else◌, arith}
use yspot.Text.{Unicode, has_control_byte}
use yspot.Index.Types.{Entry, UsnEvent, create, delete, rename}
use yspot.Index.Table.Files.{lookup_file}
use yspot.Index.Table.Fenced.{HasFences}
use yspot.Index.Volume.{VolumeIndex, new_index, apply, apply_all}
use yspot.Index.Volume.Events.{spec_apply}
use yspot.Index.Volume.Refines.{HasRoom}
use yspot.Index.Volume.Sound.{IsSound, new_index-IsSound, events-IsSound, apply-refines}
use yspot.Matching.Tier.{classify}
use yspot.Matching.Tier.Laws.{Describes, classify-Describes}

-- Unicode cut down to ASCII.
abbrev pub ascii : Unicode
ascii = record {
  nfc = λ s. s;
  to_lowercase = λ c. (if leb 65 c && leb c 90 then c + 32 else c) ∷ [];
  is_lowercase = λ c. leb 97 c && leb c 122;
  is_uppercase = λ c. leb 65 c && leb c 90;
}

abbrev pub root : Bytes
root = b'C' ∷ b':' ∷ b'\\' ∷ []

-- A folder, a file in it that is renamed, and one that is deleted.
abbrev history : List (ℕ × UsnEvent)
history =
    (1, create 20 5 (b'A' ∷ b'b' ∷ []) 1)
    ∷ (2, create 21 20 (b'c' ∷ []) 0)
    ∷ (3, create 22 20 (b'd' ∷ []) 0)
    ∷ (4, rename 21 20 (b'E' ∷ b'-' ∷ b'f' ∷ []))
    ∷ (5, delete 22)
    ∷ []

events-IsSound_example : IsSound (apply_all ascii (new_index root) history)
events-IsSound_example = events-IsSound ascii root history

abbrev pub first : VolumeIndex
first = new_index root

pub room : HasRoom first
unfolding new_index
room = record { names = ground arith; folded = ground arith; slots = ground arith }

abbrev pub made : UsnEvent
made = create 20 5 (b'A' ∷ b'b' ∷ []) 1

apply-refines_example :
    IsSound (apply ascii 1 first made)
    × ((f : ℕ)
        → lookup_file (apply ascii 1 first made).table f
          ≡ spec_apply ascii made (lookup_file first.table) f)
apply-refines_example = apply-refines ascii 1 first made (new_index-IsSound root) room

-- One record, `ab`, between its fences.
abbrev arena : Bytes
arena = 0 ∷ b'a' ∷ b'b' ∷ 0 ∷ []

abbrev entry : Entry
entry = record {
  frn = 20;
  parent_frn = 5;
  name_off = 0;
  folded_off = 1;
  name_len = 2;
  folded_len = 2;
  flags = 0;
}

fences : HasFences arena entry
unfolding has_control_byte
fences = record {
  before = λ k p. (let e : k ≡ 0 = omega arith in rw e refl);
  after = refl;
  plain = refl;
}

classify-Describes_example : Describes (classify 0 0) entry 1 2 0
classify-Describes_example =
    classify-Describes arena entry fences 2 0 0 0 (omega arith, omega arith) (omega arith) refl refl
