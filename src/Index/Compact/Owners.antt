-- ===== src/Index/Compact/Owners.antt =====
-- The owners that compaction builds anew.
use Prim.Native.Nat.{◌-◌}
use yspot.Prelude.{
  append_assoc, ℕ, ◌+◌, ◌≤◌, ◌<◌, ◌≡◌, refl, inl, inr, List, [], ◌∷◌, ◌++◌, some, length, get_elem?,
  length-append, arith, false,
}
use yspot.Index.Types.{Entry, is_dead, ArenaRec}
use yspot.Index.Table.Valid.{All}
use yspot.Index.Columns.{extend_owner}
use yspot.Index.Compact.{owners_from, rebuild_owner}
use yspot.Matching.Scan.{slot_at}
use yspot.Matching.Scan.Owner.{Ascends, IsOwned, IsHeld, slot_at-held}
use yspot.Matching.Scan.Owner.Push.{extend_owner-covers, extend_owner-elem, IsOwned-push}

IsOwned-none : (n : ℕ) → IsOwned n [] (extend_owner n 0 n [])
IsOwned-none n = record {
  ascends = tt;
  below = tt;
  covered = extend_owner-covers n 0 n [] (omega arith);
  reaches = λ b ri h. elim (extend_owner-elem n 0 n [] b ri h) [
    | inl g ↦ ground arith
    | inr (l, e) ↦ (omega arith, λ t i. absurd i)
  ];
}

-- The record `x` stands behind those of `done`, whose blocks reach up to it.
owners_from-IsOwned :
    (arena_len : ℕ) (rest done : List ArenaRec) (x : ArenaRec) (owner : List ℕ)
    → IsOwned x.off done owner
    → Ascends (x ∷ rest)
    → All (λ (r : ArenaRec). r.off < arena_len) (x ∷ rest)
    → IsOwned arena_len (done ++ x ∷ rest) (
        extend_owner arena_len
          (length (done ++ x ∷ rest) - 1)
          arena_len
          (owners_from (length done + 1) rest owner))
unfolding owners_from
owners_from-IsOwned arena_len [] done x owner o a l =
    let size = length-append done (x ∷ []) in
    let last : length (done ++ x ∷ []) - 1 ≡ length done = omega arith in
    rw last (
      IsOwned-push x.off arena_len x.off x.slot arena_len done owner o (omega arith) (λ p. refl) l.0
        (omega arith))
owners_from-IsOwned arena_len (y ∷ ys) done x owner o a l =
    let size = length-append done (x ∷ []) in
    let before : length done + 1 - 1 ≡ length done = omega arith in
    let more : length (done ++ x ∷ []) ≡ length done + 1 = omega arith in
    let next =
      IsOwned-push x.off y.off x.off x.slot y.off done owner o (omega arith) (λ p. refl) a.0.0
        (omega arith) in
    let ih =
      owners_from-IsOwned arena_len ys (done ++ x ∷ []) y
        (extend_owner y.off (length done) y.off owner) next a.1 l.1 in
    rw before (rw (append_assoc done (x ∷ []) (y ∷ ys), more) at ih)

pub rebuild_owner-IsOwned :
    (recs : List ArenaRec) (arena_len : ℕ)
    → Ascends recs
    → All (λ (r : ArenaRec). r.off < arena_len) recs
    → IsOwned arena_len recs (rebuild_owner recs arena_len)
unfolding rebuild_owner owners_from
rebuild_owner-IsOwned [] arena_len a l = IsOwned-none arena_len
rebuild_owner-IsOwned (x ∷ rest) arena_len a l =
    owners_from-IsOwned arena_len rest [] x (extend_owner x.off 0 x.off []) (IsOwned-none x.off) a l

-- Over records that rise below the end of the arena, with the owners that compaction builds: a byte of a live entry's
-- folded name, whose record is among them and ends before the next one starts, is mapped to the slot of that entry,
-- also where the name lies across the start of a block.
pub slot_at-rebuild_owner :
    (recs : List ArenaRec) (arena_len : ℕ) (entries : List Entry) (e : Entry) (s hit : ℕ)
    → Ascends recs
    → All (λ (r : ArenaRec). r.off < arena_len) recs
    → get_elem? entries s ≡ some e
    → is_dead e ≡ false
    → IsHeld recs (record { off = e.folded_off; slot = s }) e.folded_len
    → e.folded_off ≤ hit
    → hit < e.folded_off + e.folded_len
    → hit < arena_len
    → slot_at (rebuild_owner recs arena_len) recs entries hit ≡ some s
slot_at-rebuild_owner recs arena_len entries e s hit a l =
    slot_at-held arena_len recs (rebuild_owner recs arena_len) entries e s hit
      (rebuild_owner-IsOwned recs arena_len a l)
