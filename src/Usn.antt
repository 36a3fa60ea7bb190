-- ===== src/Usn.antt =====
-- The journal records of NTFS: crates/yspot-index/src/mft.rs (`for_each_record`, `parse_v2_record`,
-- `attrs_to_flags`, the reads of little-endian fields, the loop of `enumerate`) and
-- crates/yspot-index/src/usn.rs (`map_record`, `read_batch`). The two control calls of the kernel are
-- answered by arguments; `String::from_utf16_lossy` is a parameter.
pub mod Laws
pub mod Applied
use Prim.Native.Nat.{◌-◌}
use yspot.Prelude.{
  ℕ, zero, suc, ◌+◌, ◌*◌, ◌/◌, ◌%◌, ◌^◌, Bool, true, false, not, ◌||◌, List, [], ◌∷◌, ◌++◌, Option,
  none, some, Bytes, ltb, leb, ◌==◌, length, get_or, drop, if◌then◌else◌,
}
use yspot.Prelude.Slices.{slice}
use yspot.Index.Flags.{dir, hidden, system}
use yspot.Index.Types.{UsnEvent, create, delete, rename, security_change}

-- The smallest record, up to its name.
abbrev pub usn_record_v2_header : ℕ
usn_record_v2_header = 60

abbrev pub byte_at : Bytes → ℕ → ℕ
byte_at buf off = get_or buf off 0

-- Each read stands behind a check of its bounds.
unfoldable pub read_u16 : Bytes → ℕ → ℕ
read_u16 buf off = byte_at buf off + byte_at buf (off + 1) * 256

unfoldable pub read_u32 : Bytes → ℕ → ℕ
unfolding read_u16
read_u32 buf off = read_u16 buf off + read_u16 buf (off + 2) * 65536

unfoldable pub read_u64 : Bytes → ℕ → ℕ
unfolding read_u32
read_u64 buf off = read_u32 buf off + read_u32 buf (off + 4) * 4294967296

pub record UsnRecord : Type 0 where
  pub frn : ℕ
  pub parent_frn : ℕ
  pub reason : ℕ
  pub file_attributes : ℕ
  pub name : Bytes

-- `word & bit != 0`, for a bit that is a power of two
abbrev pub has_bit : ℕ → ℕ → Bool
has_bit word bit = word / bit % 2 == 1

abbrev pub file_attribute_hidden : ℕ
file_attribute_hidden = 0x2

abbrev pub file_attribute_system : ℕ
file_attribute_system = 0x4

abbrev pub file_attribute_directory : ℕ
file_attribute_directory = 0x10

unfoldable pub attrs_to_flags : ℕ → ℕ
attrs_to_flags attrs =
    (if has_bit attrs file_attribute_directory then dir else 0)
    + (if has_bit attrs file_attribute_hidden then hidden else 0)
    + (if has_bit attrs file_attribute_system then system else 0)

-- `as_chunks::<2>().0`, each pair read as a UTF-16 unit
unfoldable pub utf16_units : Bytes → List ℕ
utf16_units (a ∷ b ∷ bs) = (a + b * 256) ∷ utf16_units bs
utf16_units _ = []

module _ (from_utf16_lossy : List ℕ → Bytes) where
  -- The record at `off`, which spans `rec_len` bytes of `buf`.
  unfoldable pub parse_v2_record : Bytes → ℕ → ℕ → Option UsnRecord
  unfolding read_u16 read_u32 read_u64 utf16_units
  parse_v2_record buf off rec_len =
      let name_len = read_u16 buf (off + 56) in
      let name_off = read_u16 buf (off + 58) in
      if ltb name_off usn_record_v2_header
        || not (name_len % 2 == 0)
        || ltb rec_len (name_off + name_len)
      then none
      else some (record {
        frn = read_u64 buf (off + 8);
        parent_frn = read_u64 buf (off + 16);
        reason = read_u32 buf (off + 40);
        file_attributes = read_u32 buf (off + 52);
        name = from_utf16_lossy (utf16_units (slice buf (off + name_off) name_len));
      })

  abbrev pub with_record : Option UsnRecord → Option (List UsnRecord) → Option (List UsnRecord)
  with_record none rest = rest
  with_record (some rec) none = none
  with_record (some rec) (some rest) = some (rec ∷ rest)

  -- `(off + 7) & !7`
  abbrev pub round_up_8 : ℕ → ℕ
  round_up_8 off = (off + 7) / 8 * 8

  -- The records that `f` is called with, in order; none where the rounds do not come to their end.
  unfoldable pub records_from : ℕ → Bytes → ℕ → Option (List UsnRecord)
  unfolding read_u16 read_u32 parse_v2_record
  records_from zero buf off = none
  records_from (suc fuel) buf off =
      let rec_len = read_u32 buf off in
      let rest = records_from fuel buf (round_up_8 (off + rec_len)) in
      let here : Option UsnRecord =
        if read_u16 buf (off + 4) == 2 then parse_v2_record buf off rec_len else none in
      if not (leb (off + usn_record_v2_header) (length buf))
      then some []
      else if rec_len == 0
      then some []
      else if ltb rec_len usn_record_v2_header || ltb (length buf - off) rec_len
      then some []
      else with_record here rest

  -- A round moves on by a record at least, so the length of the buffer, and one, is fuel enough.
  unfoldable pub for_each_record : Bytes → Option (List UsnRecord)
  unfolding records_from
  for_each_record buf = records_from (length buf + 1) buf 0

-- The reasons that an event is made of.
abbrev pub usn_reason_file_create : ℕ
usn_reason_file_create = 0x100

abbrev pub usn_reason_file_delete : ℕ
usn_reason_file_delete = 0x200

abbrev pub usn_reason_security_change : ℕ
usn_reason_security_change = 0x800

abbrev pub usn_reason_rename_new_name : ℕ
usn_reason_rename_new_name = 0x2000

unfoldable pub map_record : UsnRecord → Option UsnEvent
unfolding attrs_to_flags
map_record rec =
    if has_bit rec.reason usn_reason_file_delete
    then some (delete rec.frn)
    else if has_bit rec.reason usn_reason_file_create
    then some (create rec.frn rec.parent_frn rec.name (attrs_to_flags rec.file_attributes))
    else if has_bit rec.reason usn_reason_rename_new_name
    then some (rename rec.frn rec.parent_frn rec.name)
    else if has_bit rec.reason usn_reason_security_change
    then some (security_change rec.frn)
    else none

abbrev keep_event : Option UsnEvent → List UsnEvent → List UsnEvent
keep_event none evs = evs
keep_event (some ev) evs = ev ∷ evs

unfoldable pub events_of : List UsnRecord → List UsnEvent
unfolding map_record
events_of [] = []
events_of (rec ∷ recs) = keep_event (map_record rec) (events_of recs)

abbrev pub events_within : Option (List UsnRecord) → List UsnEvent
events_within none = []
events_within (some recs) = events_of recs

-- Where the tail of a journal stands.
pub record UsnCursor : Type 0 where
  pub journal_id : ℕ
  pub next_usn : ℕ

-- The reasons for a rebuild.
pub data Stale : Type 0 where
  entry_deleted delete_in_progress not_active : Stale

pub data TailOutcome : Type 0 where
  events : List UsnEvent → TailOutcome
  needs_rebuild : Stale → TailOutcome
  bailed : ℕ → TailOutcome

abbrev pub error_handle_eof : ℕ
error_handle_eof = 38

abbrev pub error_journal_delete_in_progress : ℕ
error_journal_delete_in_progress = 1178

abbrev pub error_journal_not_active : ℕ
error_journal_not_active = 1179

abbrev pub error_journal_entry_deleted : ℕ
error_journal_entry_deleted = 1181

-- What a control call gives: the bytes it filled, or an error code.
pub data Filled : Type 0 where
  filled : Bytes → Filled
  refused : ℕ → Filled

module _ (from_utf16_lossy : List ℕ → Bytes) where
  -- One read of the journal; the cursor moves with the events only. An `i64` stands as its bits.
  unfoldable pub read_batch : UsnCursor → Filled → TailOutcome × UsnCursor
  unfolding read_u64 for_each_record events_of
  read_batch cursor (refused err) = (
    (if err == error_journal_entry_deleted
        then needs_rebuild entry_deleted
        else if err == error_journal_delete_in_progress
        then needs_rebuild delete_in_progress
        else if err == error_journal_not_active
        then needs_rebuild not_active
        else bailed err),
    cursor,
  )
  read_batch cursor (filled out) = if ltb (length out) 8 then (events [], cursor) else (
    events (events_within (for_each_record from_utf16_lossy (drop 8 out))),
    record cursor { next_usn = read_u64 out 0 },
  )
