-- ===== src/Index/Depth/Repair.antt =====
-- The whole sweep, and the repair by slices, give every live slot its true depth.
use Prim.Native.Nat.{◌-◌, min}
use yspot.Prelude.{
  append_nil, ℕ, zero, suc, ◌/◌, ◌%◌, ◌≤◌, ◌<◌, ◌≡◌, refl, ap, ◌∙◌, inl, false, List, ◌++◌, length,
  get_or, replicate, lt_of_get_elem?, arith,
}
use yspot.Index.Types.{Entry}
use yspot.Index.Table.{Table}
use yspot.Index.Table.Valid.{IsValid, LiveAt}
use yspot.Index.Volume.{VolumeIndex}
use yspot.Index.Paths.{depth_of}
use yspot.Index.Depth.{resized, depth_sweep, sweep_all_depths, dead_at}
use yspot.Index.Depth.Sweep.{Swept, Onward, sweep_from-Onward}

pub length-replicate : (n a : ℕ) → length (replicate n a) ≡ n
length-replicate zero a = refl
length-replicate (suc n) a = ap suc (length-replicate n a)

get_or-replicate : (n i : ℕ) → ◌≡◌ {A = ℕ} (get_or (replicate n 0) i 0) 0
get_or-replicate zero i = refl
get_or-replicate (suc n) zero = refl
get_or-replicate (suc n) (suc i) = get_or-replicate n i

pub resized_same : (n : ℕ) (xs : List ℕ) → length xs ≡ n → resized n xs ≡ xs
resized_same n xs h =
    let z : n - length xs ≡ 0 = omega arith in ap (λ (k : ℕ). xs ++ replicate k 0) z ∙ append_nil xs

-- Every live slot's key has its depth, cut at the greatest that it holds, and the penalty bit that it had.
abbrev pub HasDepths : Table → List ℕ → List ℕ → Type 0
HasDepths t before after =
    (s : ℕ) (e : Entry)
    → LiveAt t s e
    → (get_or after s 0 % 128 ≡ min (depth_of t s) 127)
      × (get_or after s 0 / 128 ≡ get_or before s 0 / 128)

pub live_not_dead : (t : Table) (s : ℕ) (e : Entry) → LiveAt t s e → dead_at t s ≡ false
live_not_dead t s e (g, d) = rw (g, dead_at) d

module _ (t : Table) (v : IsValid t) where
  pub fresh-Swept :
      (key : List ℕ)
      → length key ≡ length t.entries
      → Swept t v (key, replicate (length t.entries) 0)
  fresh-Swept key h = record {
    key_all = h;
    state_all = length-replicate (length t.entries) 0;
    good = λ x k. let z = get_or-replicate (length t.entries) x in absurd (omega arith);
    clean = λ x. inl (get_or-replicate (length t.entries) x);
  }

  -- A sweep of the slots from `a` up to `b`, with marks for all.
  pub depth_sweep-Onward :
      (a b : ℕ) (key state : List ℕ)
      → Swept t v (key, state)
      → a ≤ b
      → b ≤ length t.entries
      → Onward t v (key, state) (depth_sweep t a b (key, state))
        × ((x : ℕ)
            → a ≤ x
            → x < b
            → dead_at t x ≡ false
            → get_or (depth_sweep t a b (key, state)).1 x 0 ≡ 2)
  unfolding depth_sweep
  depth_sweep-Onward a b key state k l m =
      let same = resized_same (length t.entries) state k.state_all in
      let count : min b (length t.entries) - a ≡ b - a = omega arith in
      let r = sweep_from-Onward t v (b - a) a (key, state) k (omega arith) in
      rw (same, count) (r.0, λ x p q d. r.1 x p (omega arith) d)

  pub full-HasDepths :
      (before : List ℕ) (ks : List ℕ × List ℕ)
      → Swept t v ks
      → ((s : ℕ) → s < length t.entries → dead_at t s ≡ false → get_or ks.1 s 0 ≡ 2)
      → ((s : ℕ) → get_or ks.0 s 0 / 128 ≡ get_or before s 0 / 128)
      → HasDepths t before ks.0
  full-HasDepths before ks k done pen s e l =
      let lt = lt_of_get_elem? t.entries s l.0 in
      (k.good s (done s lt (live_not_dead t s e l)), pen s)

-- In a valid index whose keys are as many as its slots, the memoized sweep gives every live slot the depth that a walk
-- of its own gives, cut at 127, also on a way that closes on itself, and keeps the penalty bit of its key.
pub sweep_all_depths-HasDepths :
    (ix : VolumeIndex)
    → IsValid ix.table
    → length ix.columns.rank_key ≡ length ix.table.entries
    → HasDepths ix.table ix.columns.rank_key (sweep_all_depths ix).columns.rank_key
unfolding sweep_all_depths
sweep_all_depths-HasDepths ix v h =
    let t = ix.table in
    let key = ix.columns.rank_key in
    let n = length t.entries in
    let r =
      depth_sweep-Onward t v 0 n key (replicate n 0) (fresh-Swept t v key h) (omega arith)
        (omega arith) in
    full-HasDepths t v key (depth_sweep t 0 n (key, replicate n 0)) r.0.swept
      (λ s l d. r.1 s (omega arith) l d) r.0.same_penalty
