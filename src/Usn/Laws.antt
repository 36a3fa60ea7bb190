-- ===== src/Usn/Laws.antt =====
-- The walk over the packed records ends, whatever the bytes are.
use Prim.Native.Nat.{◌-◌}
use yspot.Prelude.{
  ◌*◌, ◌||◌, ltb, [], ◌∷◌, Option, if◌then◌else◌, ℕ, zero, suc, ◌+◌, ◌≤◌, ◌<◌, ◌≡◌, refl, inl, inr,
  Bool-cases, List, none, some, Bytes, leb, ◌==◌, length, arith,
}
use yspot.Usn.{
  UsnRecord, read_u32, round_up_8, with_record, read_u16, parse_v2_record, records_from,
  for_each_record, usn_record_v2_header,
}

module _ (from_utf16_lossy : List ℕ → Bytes) (buf : Bytes) where
  -- Both runs end, with the same records, of which each takes as many bytes as its header.
  abbrev Ended : ℕ → Option (List UsnRecord) → Option (List UsnRecord) → Type 0
  Ended room a b =
      (recs : List UsnRecord) × (a ≡ some recs)
      × (b ≡ some recs)
      × (usn_record_v2_header * length recs ≤ room)

  nothing_more : (room : ℕ) → Ended room (some []) (some [])
  nothing_more room = ([], refl, refl, omega arith)

  with_record-Ended :
      (o : Option UsnRecord) (room rest : ℕ) (a b : Option (List UsnRecord))
      → Ended rest a b
      → rest + usn_record_v2_header ≤ room
      → Ended room (with_record from_utf16_lossy o a) (with_record from_utf16_lossy o b)
  with_record-Ended none room rest a b (recs, p, q, l) h = (recs, p, q, omega arith)
  with_record-Ended (some rec) room rest a b (recs, p, q, l) h =
      (rec ∷ recs, rw p refl, rw q refl, omega arith)

  -- A round that has records left to read moves on.
  records_from-Ended :
      (fuel more off : ℕ)
      → 0 < fuel
      → 0 < more
      → length buf < off + fuel
      → length buf < off + more
      → Ended
          (length buf - off)
          (records_from from_utf16_lossy fuel buf off)
          (records_from from_utf16_lossy more buf off)
  unfolding records_from
  records_from-Ended zero more off a b h k = absurd (omega arith)
  records_from-Ended (suc fuel) zero off a b h k = absurd (omega arith)
  records_from-Ended (suc fuel) (suc more) off a b h k =
      let n = read_u32 buf off in
      let next = round_up_8 from_utf16_lossy (off + n) in
      elim (Bool-cases (leb (off + usn_record_v2_header) (length buf))) [
        | inr full ↦ rw full (nothing_more (length buf - off))
        | inl room ↦ elim (Bool-cases (n == 0)) [
          | inl z ↦ rw (room, z) (nothing_more (length buf - off))
          | inr z ↦ elim (Bool-cases (ltb n usn_record_v2_header || ltb (length buf - off) n)) [
            | inl bad ↦ rw (room, z, bad) (nothing_more (length buf - off))
            | inr fits ↦
                let there : off + usn_record_v2_header ≤ length buf = ground arith in
                let long : usn_record_v2_header ≤ n = ground arith in
                let ih =
                  records_from-Ended fuel more next (omega arith) (omega arith) (omega arith)
                    (omega arith) in
                rw (room, z, fits)
                  (with_record-Ended
                    (if read_u16 buf (off + 4) == 2
                      then parse_v2_record from_utf16_lossy buf off n
                      else none)
                    (length buf - off) (length buf - next)
                    (records_from from_utf16_lossy fuel buf next)
                    (records_from from_utf16_lossy more buf next) ih (omega arith))
          ]
        ]
      ]

  -- Whatever the bytes are: the walk over the records of a buffer comes to its end, with the same records on more
  -- rounds than the buffer has bytes, and each record takes at least 60 bytes.
  pub for_each_record-ends :
      (more : ℕ)
      → length buf < more
      → (recs : List UsnRecord) × (records_from from_utf16_lossy more buf 0 ≡ some recs)
        × (for_each_record from_utf16_lossy buf ≡ some recs)
        × (usn_record_v2_header * length recs ≤ length buf)
  unfolding for_each_record
  for_each_record-ends more h =
      let z : length buf - 0 ≡ length buf = omega arith in
      rw z at (
        records_from-Ended more (length buf + 1) 0 (omega arith) (omega arith) (omega arith)
          (omega arith))
