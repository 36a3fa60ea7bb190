-- ===== src/Service/State/Laws.antt =====
-- The counts of the shared state: sessions that vote active, and rebuilds in flight.
use Prim.Native.Nat.{◌-◌}
use yspot.Prelude.{
  ℕ, zero, suc, ◌+◌, ◌≡◌, refl, ◌↔◌, Bool, true, false, List, [], ◌∷◌, set, get_or, any, ltb, ◌==◌,
  arith, ◌∙◌, if◌then◌else◌,
}
use yspot.Proto.Messages.{rebuilding}
use yspot.Service.State.{
  ServiceState, machine_idle, set_session_active, begin_rebuild, end_rebuild, set_vol_state,
  volume_state, vol_state_from_u8,
}

-- Of each session what it reported last.
abbrev pub count_active : List Bool → ℕ
count_active [] = 0
count_active (true ∷ votes) = suc (count_active votes)
count_active (false ∷ votes) = count_active votes

-- Reports in order, each of a session and its new activity. A session passes what it reported before; one
-- that ends reports idle.
abbrev pub report_all : List (ℕ × Bool) → List Bool × ServiceState → List Bool × ServiceState
report_all [] w = w
report_all ((i, now) ∷ reports) (votes, s) =
    report_all reports (set votes i now, set_session_active (get_or votes i now) now s)

count_active-set :
    (votes : List Bool) (i : ℕ) (now : Bool) (s : ServiceState)
    → (n : ℕ) → s.active_sessions ≡ n + count_active votes
    → (set_session_active (get_or votes i now) now s).active_sessions
      ≡ n + count_active (set votes i now)
unfolding set_session_active
count_active-set [] i true s n h = h
count_active-set [] i false s n h = h
count_active-set (true ∷ votes) zero true s n h = h
count_active-set (true ∷ votes) zero false s n h = omega arith
count_active-set (false ∷ votes) zero true s n h = omega arith
count_active-set (false ∷ votes) zero false s n h = h
count_active-set (true ∷ votes) (suc i) now s n h =
    let ih = count_active-set votes i now s (suc n) (omega arith) in omega arith
count_active-set (false ∷ votes) (suc i) now s n h = count_active-set votes i now s n h

counted :
    (reports : List (ℕ × Bool)) (votes : List Bool) (s : ServiceState)
    → s.active_sessions ≡ count_active votes
    → (report_all reports (votes, s)).1.active_sessions
      ≡ count_active (report_all reports (votes, s)).0
counted [] votes s h = h
counted ((i, now) ∷ reports) votes s h =
    let e = count_active-set votes i now s 0 (omega arith) in
    counted reports (set votes i now) (set_session_active (get_or votes i now) now s) (omega arith)

none_active :
    (votes : List Bool) → ((count_active votes == 0) ≡ true) ↔ (any (λ v. v) votes ≡ false)
none_active [] = (λ _. refl, λ _. refl)
none_active (true ∷ votes) = (λ h. ground arith, λ h. ground arith)
none_active (false ∷ votes) = none_active votes

-- From a state that counts the sessions' votes, after any reports the machine is idle exactly when no
-- session's last report is active.
pub machine_idle-votes :
    (reports : List (ℕ × Bool)) (votes : List Bool) (s : ServiceState)
    → s.active_sessions ≡ count_active votes
    → (machine_idle (report_all reports (votes, s)).1 ≡ true)
      ↔ (any (λ v. v) (report_all reports (votes, s)).0 ≡ false)
unfolding machine_idle
machine_idle-votes reports votes s h =
    rw (counted reports votes s h) (none_active (report_all reports (votes, s)).0)

-- What overlapping rebuilds and their lifecycle do, in order.
pub data Work : Type 0 where
  begin finish : Work
  publish : ℕ → Work

abbrev pub work_all : List Work → ServiceState → ServiceState
work_all [] s = s
work_all (begin ∷ ws) s = work_all ws (begin_rebuild s)
work_all (finish ∷ ws) s = work_all ws (end_rebuild s)
work_all (publish v ∷ ws) s = work_all ws (set_vol_state v s)

-- Guards are dropped after they are made: `n` are held at first, `m` at the end.
pub data Guards : ℕ → List Work → ℕ → Type 0 where
  all_done : {n : ℕ} → Guards n [] n
  made : {n m : ℕ} {ws : List Work} → Guards (suc n) ws m → Guards n (begin ∷ ws) m
  dropped : {n m : ℕ} {ws : List Work} → Guards n ws m → Guards (suc n) (finish ∷ ws) m
  published : {n m v : ℕ} {ws : List Work} → Guards n ws m → Guards n (publish v ∷ ws) m

rebuilds-Guards :
    (n m : ℕ) (ws : List Work) (s : ServiceState)
    → Guards n ws m
    → s.rebuilds ≡ n
    → ((work_all ws s).rebuilds ≡ m) × ((work_all ws s).is_paused ≡ s.is_paused)
unfolding begin_rebuild end_rebuild set_vol_state
rebuilds-Guards n m ws s all_done h = (h, refl)
rebuilds-Guards n m ws s (made {ws = ws'} g) h =
    rebuilds-Guards (suc n) m ws' (record s { rebuilds = s.rebuilds + 1 }) g (omega arith)
rebuilds-Guards n m ws s (dropped {n = k} {ws = ws'} g) h =
    rebuilds-Guards k m ws' (record s { rebuilds = s.rebuilds - 1 }) g (omega arith)
rebuilds-Guards n m ws s (published {v = v} {ws = ws'} g) h =
    rebuilds-Guards n m ws' (record s { vol_state = v }) g h

-- From a volume that is not paused and has no rebuild in flight, whatever the rebuilds do in
-- between, it reports rebuilding while a guard is held, and its lifecycle state when none is.
pub volume_state-Guards :
    (ws : List Work) (m : ℕ) (s : ServiceState)
    → Guards 0 ws m
    → s.rebuilds ≡ 0
    → s.is_paused ≡ false
    → volume_state (work_all ws s)
      ≡ (if ltb 0 m then rebuilding else vol_state_from_u8 (work_all ws s).vol_state)
unfolding volume_state
volume_state-Guards ws m s g h p = let (r, q) = rebuilds-Guards 0 m ws s g h in rw (q ∙ p, r) refl
