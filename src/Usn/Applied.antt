-- ===== src/Usn/Applied.antt =====
-- What a journal record does to the files of the index, by way of its event.
use yspot.Prelude.{ℕ, ◌≡◌, ◌≢◌, Bool, true, false, Option, none, some, Bytes}
use yspot.Text.{Unicode}
use yspot.Index.Flags.{dir, hidden, system, dead, has_flag, without_flag}
use yspot.Index.Types.{UsnEvent}
use yspot.Index.Arena.{usable_name}
use yspot.Index.Table.Files.{File}
use yspot.Index.Volume.{VolumeIndex, apply}
use yspot.Index.Volume.Events.{Files, spec_apply}
use yspot.Usn.{
  UsnRecord, has_bit, usn_reason_file_create, usn_reason_file_delete, usn_reason_security_change,
  usn_reason_rename_new_name, file_attribute_hidden, file_attribute_system,
  file_attribute_directory,
}

abbrev pub is_deleted : UsnRecord → Bool
is_deleted rec = has_bit rec.reason usn_reason_file_delete

abbrev pub is_created : UsnRecord → Bool
is_created rec = has_bit rec.reason usn_reason_file_create

abbrev pub is_renamed : UsnRecord → Bool
is_renamed rec = has_bit rec.reason usn_reason_rename_new_name

abbrev pub is_secured : UsnRecord → Bool
is_secured rec = has_bit rec.reason usn_reason_security_change

abbrev pub is_event : Option UsnEvent → Bool
is_event none = false
is_event (some ev) = true

-- The file is a directory, hidden and a system file as the attributes say.
pub record HasAttributes (attrs : ℕ) (x : File) : Type 0 where
  pub directory : has_flag dir x.flags ≡ has_bit attrs file_attribute_directory
  pub hides : has_flag hidden x.flags ≡ has_bit attrs file_attribute_hidden
  pub systemic : has_flag system x.flags ≡ has_bit attrs file_attribute_system

-- What a record does to the files.
pub record Recorded (u : Unicode) (rec : UsnRecord) (before after : Files) : Type 0 where
  pub others : (f : ℕ) → f ≢ rec.frn → after f ≡ before f
  pub deleted : is_deleted rec ≡ true → after rec.frn ≡ none
  pub created :
      (nfc folded : Bytes)
      → is_deleted rec ≡ false
      → is_created rec ≡ true
      → usable_name u rec.name ≡ some (nfc, folded)
      → (x : File) × (after rec.frn ≡ some x)
        × (x.parent_frn ≡ rec.parent_frn)
        × (x.name ≡ nfc)
        × (x.folded ≡ folded)
        × HasAttributes rec.file_attributes x
  pub renamed :
      (x : File) (nfc folded : Bytes)
      → is_deleted rec ≡ false
      → is_created rec ≡ false
      → is_renamed rec ≡ true
      → usable_name u rec.name ≡ some (nfc, folded)
      → before rec.frn ≡ some x
      → after rec.frn
        ≡ some (record {
          parent_frn = rec.parent_frn;
          name = nfc;
          folded = folded;
          flags = without_flag dead x.flags;
        })
  pub quiet :
      is_deleted rec ≡ false
      → is_created rec ≡ false
      → is_renamed rec ≡ false
      → after rec.frn ≡ before rec.frn

abbrev pub after_event : Unicode → ℕ → VolumeIndex → Option UsnEvent → VolumeIndex
after_event u now ix none = ix
after_event u now ix (some ev) = apply u now ix ev

abbrev meant : Unicode → Option UsnEvent → Files → Files
meant u none files = files
meant u (some ev) files = spec_apply u ev files
