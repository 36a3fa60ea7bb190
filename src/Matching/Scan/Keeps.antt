-- ===== src/Matching/Scan/Keeps.antt =====
-- A property of the state that each visit and each poll keeps is kept by the loops.
use Prim.Native.Nat.{◌-◌}
use yspot.Prelude.{
  ℕ, zero, suc, ◌+◌, inl, inr, Bool, Bool-cases, List, [], ◌∷◌, Option, Option-cases, Bytes, leb,
  length,
}
use yspot.Prelude.Slices.{slice}
use yspot.Matching.Fuzzy.{visit}
use yspot.Matching.Scan.{head_loop, scan_window, window_end, resume_at, scan_from, scan_arena}

module _ {S : Type 0} (P : S → Type 0) where
  pub head_loop-keeps :
      (f : ℕ → ℕ → ℕ → S → S × Bool) (keep : (slot a b : ℕ) (s : S) → P s → P (f slot a b s).0)
      (slot : ℕ) (head : Bytes) (s : S)
      → P s
      → P (head_loop f slot head s)
  unfolding head_loop
  head_loop-keeps f keep slot [] s h = h
  head_loop-keeps f keep slot (a ∷ []) s h = h
  head_loop-keeps f keep slot (a ∷ b ∷ head) s h =
      let k = keep slot a b s h in
      elim (Bool-cases (f slot a b s).1) [
        | inl e ↦ rw e k
        | inr e ↦ rw e (head_loop-keeps f keep (slot + 1) head (f slot a b s).0 k)
      ]

  pub visit-keeps :
      (f : ℕ → S → S × Bool) (keep : (slot : ℕ) (s : S) → P s → P (f slot s).0) (slots : List ℕ)
      (s : S)
      → P s
      → P (visit f slots s)
  unfolding visit
  visit-keeps f keep [] s h = h
  visit-keeps f keep (slot ∷ slots) s h =
      let k = keep slot s h in
      elim (Bool-cases (f slot s).1) [
        | inl e ↦ rw e (visit-keeps f keep slots (f slot s).0 k)
        | inr e ↦ rw e k
      ]

  module _ (find : Bytes → Bytes → Option ℕ) (fq arena : Bytes) (f : ℕ → S → S × Bool)
      (poll : S → S × Bool) (keep : (hit : ℕ) (s : S) → P s → P (f hit s).0)
      (keep_poll : (s : S) → P s → P (poll s).0) where
    scan_window-keeps :
        (fuel end cursor : ℕ) (s : S)
        → P s
        → P (scan_window find fq arena f poll fuel end cursor s).state
    unfolding scan_window
    scan_window-keeps zero end cursor s h = h
    scan_window-keeps (suc fuel) end cursor s h =
        elim (Option-cases (find fq (slice arena cursor (end - cursor)))) [
          | inl e ↦ rw (e, scan_window) h
          | inr (rel, e) ↦
              let k = keep (cursor + rel) s h in
              let rest =
                scan_window-keeps fuel end (cursor + rel + length fq) (f (cursor + rel) s).0 k in
              elim (Bool-cases (f (cursor + rel) s).1) [
                | inl b ↦ rw (e, scan_window, b) k
                | inr b ↦ rw (e, scan_window, b) rest
              ]
        ]

    scan_from-keeps : (fuel pos : ℕ) (s : S) → P s → P (scan_from find fq arena f poll fuel pos s)
    unfolding scan_from
    scan_from-keeps zero pos s h = h
    scan_from-keeps (suc fuel) pos s h =
        let polled = keep_poll s h in
        let end = window_end find fq arena f poll pos in
        let window = scan_window find fq arena f poll (length arena) end pos (poll s).0 in
        let k = scan_window-keeps (length arena) end pos (poll s).0 polled in
        let rest =
          scan_from-keeps fuel (resume_at find fq arena f poll end window.at) window.state k in
        elim (Bool-cases (leb (pos + length fq) (length arena))) [
          | inr a ↦ rw a h
          | inl a ↦ elim (Bool-cases (poll s).1) [
            | inl b ↦ rw (a, b) polled
            | inr b ↦ elim (Bool-cases window.stopped) [
              | inl c ↦ rw (a, b, c) k
              | inr c ↦ rw (a, b, c) rest
            ]
          ]
        ]

    pub scan_arena-keeps : (s : S) → P s → P (scan_arena find fq arena f poll s)
    unfolding scan_arena
    scan_arena-keeps s h = scan_from-keeps (length arena + 1) 0 s h
