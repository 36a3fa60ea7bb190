-- ===== src/Examples/PipeCases.antt =====
-- Frames, journal records and a session on small inputs.
use yspot.Prelude.{
  ◌*◌, some, ℕ, ◌+◌, ◌≤◌, ◌≡◌, refl, ◌↔◌, Bool, true, false, List, [], ◌∷◌, ◌++◌, none, some, Bytes,
  any, length, replicate, take, ltb, if◌then◌else◌, arith,
}
use yspot.Proto.{
  Codec, Input, Output, IoError, unexpected_eof, io, message, clean_eof, failed, read_msg,
  write_msg, to_le_bytes, read_exact,
}
use yspot.Proto.Messages.{Message, cancel, search_query, rebuilding}
use yspot.Proto.Laws.{write_msg-read_msg, read_msg-truncated, read_msg-bounded}
use yspot.Usn.{UsnRecord, records_from, for_each_record}
use yspot.Usn.Laws.{for_each_record-ends}
use yspot.Service.State.{
  ServiceState, mft, new_state, machine_idle, volume_state, vol_state_from_u8,
}
use yspot.Service.State.Laws.{
  report_all, machine_idle-votes, begin, finish, publish, work_all, all_done, made, dropped,
  published, volume_state-Guards,
}
use yspot.Service.Session.{
  Connection, connected, on_message, worker_step, Steps, done, step, works, reads, waiting, serving,
}
use yspot.Service.Session.Order.{IsOrdered}
use yspot.Service.Session.Order.Reached.{connected-IsOrdered}
use yspot.Service.Session.Pages.{Hit, parent_of, assemble}
use yspot.Service.Session.Pages.Laws.{parent_of-append, assemble-le}
use yspot.Service.Session.Laws.{Extends, Steps-Extends}

-- A codec that knows the cancellation of small generations.
abbrev cancels : Codec (Message Unit)
cancels = record {
  to_vec_named = λ m. elim m [ cancel gen ↦ some (gen ∷ []) | _ ↦ none ];
  from_slice = λ bs. elim bs [ [] ↦ none | b ∷ _ ↦ some (cancel b) ];
}

abbrev nothing_written : Output
nothing_written = record { written = []; broken = none }

write_msg-read_msg_example :
    (frame : Bytes) × (write_msg cancels (cancel 7) nothing_written
      ≡ (none, record nothing_written { written = [] ++ frame }))
    × ((rest : Bytes) (e : IoError)
        → read_msg cancels 16 (record { bytes = frame ++ rest; end = e })
          ≡ message (cancel 7) (record { bytes = rest; end = e }))
write_msg-read_msg_example =
    write_msg-read_msg cancels 16 (cancel 7) (7 ∷ []) nothing_written refl refl (omega arith)
      (omega arith) refl

read_msg-truncated_example :
    read_msg cancels 16
      (record { bytes = take 3 (to_le_bytes 2 ++ 7 ∷ 8 ∷ []); end = unexpected_eof })
    ≡ (if ltb 3 4 then clean_eof else failed (io unexpected_eof))
read_msg-truncated_example =
    read_msg-truncated cancels 16 (7 ∷ 8 ∷ []) 3 (omega arith) (omega arith) (omega arith)

abbrev two_frames : Input
two_frames = record { bytes = 1 ∷ 0 ∷ 0 ∷ 0 ∷ 7 ∷ 1 ∷ 0 ∷ []; end = unexpected_eof }

abbrev one_frame_on : Input
one_frame_on = record { bytes = 1 ∷ 0 ∷ []; end = unexpected_eof }

first_read : read_msg cancels 16 two_frames ≡ message (cancel 7) one_frame_on
unfolding read_msg read_exact
first_read = refl

read_msg-bounded_example : (4 + 2 ≤ 7) × (7 ≤ 4 + 16 + 2) × (one_frame_on.end ≡ two_frames.end)
read_msg-bounded_example = read_msg-bounded cancels 16 two_frames one_frame_on (cancel 7) first_read

-- A record of 64 bytes that names nothing, and its terminator.
abbrev one_record_bytes : Bytes
one_record_bytes = 64 ∷ 0 ∷ 0 ∷ 0 ∷ 2 ∷ (replicate 51 0 ++ (2 ∷ 0 ∷ 60 ∷ 0 ∷ 120 ∷ replicate 67 0))

for_each_record-ends_example :
    (recs : List UsnRecord) × (records_from (λ us. us) 1000 one_record_bytes 0 ≡ some recs)
    × (for_each_record (λ us. us) one_record_bytes ≡ some recs)
    × (60 * length recs ≤ length one_record_bytes)
for_each_record-ends_example = for_each_record-ends (λ us. us) one_record_bytes 1000 (omega arith)

abbrev created : UsnRecord
created = record {
  frn = 20;
  parent_frn = 5;
  reason = 0x80000100;
  file_attributes = 0x12;
  name = b'a' ∷ [];
}

abbrev fresh : ServiceState
fresh = new_state (b'C' ∷ []) mft

-- Two sessions; the second is active and then drops.
abbrev reports : List (ℕ × Bool)
reports = (1, true) ∷ (0, false) ∷ (1, true) ∷ (1, false) ∷ []

machine_idle-votes_example :
    (machine_idle (report_all reports (false ∷ false ∷ [], fresh)).1 ≡ true)
    ↔ (any (λ v. v) (report_all reports (false ∷ false ∷ [], fresh)).0 ≡ false)
machine_idle-votes_example =
    machine_idle-votes reports (false ∷ false ∷ []) fresh (unfold new_state in refl)

volume_state-Guards_example :
    volume_state (work_all (begin ∷ begin ∷ publish 1 ∷ finish ∷ []) fresh) ≡ (
      if ltb 0 1
      then rebuilding
      else vol_state_from_u8 (work_all (begin ∷ begin ∷ publish 1 ∷ finish ∷ []) fresh).vol_state)
volume_state-Guards_example =
    volume_state-Guards (begin ∷ begin ∷ publish 1 ∷ finish ∷ []) 1 fresh
      (made (made (published (dropped all_done)))) (unfold new_state in refl)
      (unfold new_state in refl)

-- A query of generation 3 is read, then its cancellation; the worker moves once.
abbrev asked : Message Unit
asked = search_query 1 3 (b'a' ∷ []) [] (record { ext = []; kind = none; path_substr = none }) 10

abbrev superseded : Connection Unit
superseded = record {
  latest_gen = 4;
  pending = none;
  closed = false;
  worker = waiting;
  reader = serving;
  voted = false;
  service = fresh;
  broken = false;
  sent = [];
}

Steps-Extends_example : Extends 3 superseded (worker_step [] superseded)
Steps-Extends_example =
    Steps-Extends 3 superseded (worker_step [] superseded)
      (record { raised = omega arith; bounded = ground arith; checked = tt }) (step (works []) done)

parent_of-append_example :
    parent_of ((b'C' ∷ b':' ∷ b'\\' ∷ []) ++ b'a' ∷ b'b' ∷ []) (b'a' ∷ b'b' ∷ [])
    ≡ b'C' ∷ b':' ∷ b'\\' ∷ []
parent_of-append_example =
    parent_of-append (b'C' ∷ b':' ∷ b'\\' ∷ []) (b'a' ∷ b'b' ∷ []) (omega arith) (omega arith)

abbrev hits : List Hit
hits =
    record { frn = 20; score = 2; match_ranges = [] }
    ∷ record { frn = 21; score = 1; match_ranges = [] }
    ∷ record { frn = 22; score = 1; match_ranges = [] }
    ∷ []

assemble-le_example :
    length
      (assemble (λ s. s) (λ f. some (f ∷ [])) (λ f. some (67 ∷ f ∷ [])) (some (67 ∷ [])) 2 hits)
    ≤ 2
assemble-le_example =
    assemble-le (λ s. s) (λ f. some (f ∷ [])) (λ f. some (67 ∷ f ∷ [])) (some (67 ∷ [])) 2 hits

abbrev start : Connection Unit
start = connected fresh

abbrev searched : Connection Unit
searched = worker_step [] (on_message 0 0 asked start)

two-Steps : Steps start searched
unfolding connected
two-Steps = step (reads 0 0 asked refl (omega arith)) (step (works []) done)

connected-IsOrdered_example : IsOrdered searched
connected-IsOrdered_example = connected-IsOrdered fresh searched two-Steps
