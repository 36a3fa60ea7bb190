-- ===== src/Index/Volume/Owned/Hits.antt =====
-- A hit of a scan is a hit in a file's name.
use yspot.Prelude.{ℕ, ◌<◌, ◌≡◌, List, Bytes, length, some, arith}
use yspot.Text.{Unicode}
use yspot.Index.Types.{Entry, UsnEvent}
use yspot.Index.Table.Valid.{LiveAt}
use yspot.Index.Table.Fenced.Hits.{OccursAt, IsPlain, Within, hit_in_record}
use yspot.Index.Volume.{apply_all, new_index}
use yspot.Index.Volume.Sound.{events-IsSound}
use yspot.Index.Volume.Owned.Events.{slot_at-apply_all}
use yspot.Matching.Scan.{slot_at}

-- After any sequence of timed events from an empty index: where a nonempty text without delimiters occurs in the
-- folded arena, the whole occurrence lies in the folded name of a live entry, and its start is mapped to the slot of
-- that entry.
pub slot_at-Within :
    (u : Unicode) (root : Bytes) (events : List (ℕ × UsnEvent)) (q : Bytes) (h : ℕ)
    → IsPlain q
    → 0 < length q
    → OccursAt (apply_all u (new_index root) events).table.arenas.folded h q
    → (s : ℕ) × (e : Entry) × LiveAt (apply_all u (new_index root) events).table s e
      × Within e h (length q)
      × (slot_at
            (apply_all u (new_index root) events).columns.owner
            (apply_all u (new_index root) events).columns.arena_recs
            (apply_all u (new_index root) events).table.entries
            h
          ≡ some s)
slot_at-Within u root events q h plain ne hit =
    let ix = apply_all u (new_index root) events in
    let sound = events-IsSound u root events in
    let (s, e, l, w) = hit_in_record ix.table sound.valid sound.fenced q h plain hit ne in
    let lo = w.0 in
    let hi = w.1 in (s, e, l, w, slot_at-apply_all u root events s h e l lo (omega arith))
