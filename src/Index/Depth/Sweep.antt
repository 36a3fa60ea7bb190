-- ===== src/Index/Depth/Sweep.antt =====
-- What a sweep leaves behind: the slots that are marked done have their true depths.
use Prim.Native.Nat.{min}
use yspot.Prelude.{
  ℕ, zero, suc, ◌+◌, ◌*◌, ◌/◌, ◌%◌, ◌≤◌, ◌<◌, ◌≡◌, ◌≢◌, refl, sym, ap, ◌∙◌, ◌⊎◌, inl, inr, false,
  Bool-cases, List, [], ◌∷◌, ◌==◌, length, get_or, set, length-set, arith,
}
use mathlib.Core.Path.{subst}
use yspot.Index.Table.{Table}
use yspot.Index.Table.Valid.{IsValid}
use yspot.Matching.Selector.Sorted.{In}
use yspot.Index.Depth.{
  Walked, walk, unwind, settle_cycle, set_rank_depth, assign, sweep_slot, sweep_from, dead_at,
}
use yspot.Index.Depth.Spec.{true_depth}
use yspot.Index.Depth.Walk.{
  get_or-set_self, get_or-set_ne, unmarked-le, Deepens, OnWay, Outcome, walk-Outcome,
}

module _ (t : Table) (v : IsValid t) where
  -- Each slot of a list gets its true depth, and its mark.
  abbrev mark_true : List ℕ → List ℕ × List ℕ → List ℕ × List ℕ
  mark_true [] ks = ks
  mark_true (x ∷ xs) (key, state) =
      mark_true xs (set_rank_depth key x (true_depth t x), set state x 2)

  unwind_true :
      (stack : List ℕ) (d : ℕ) (key state : List ℕ)
      → Deepens t v stack d
      → unwind stack d (key, state) ≡ mark_true stack (key, state)
  unfolding unwind
  unwind_true [] d key state h = refl
  unwind_true (x ∷ xs) d key state h =
      let e = h.0 in
      subst
        (λ (k : ℕ).
          unwind xs (min (d + 1) 127) (set_rank_depth key x k, set state x 2)
          ≡ mark_true (x ∷ xs) (key, state))
        e
        (unwind_true xs (min (d + 1) 127) (set_rank_depth key x (true_depth t x)) (set state x 2)
          h.1)

  cycle_true :
      (stack key state : List ℕ)
      → ((x : ℕ) → In x stack → true_depth t x ≡ 127)
      → settle_cycle stack (key, state) ≡ mark_true stack (key, state)
  unfolding settle_cycle
  cycle_true [] key state h = refl
  cycle_true (x ∷ xs) key state h =
      let e = h x (inl refl) in
      subst
        (λ (k : ℕ).
          settle_cycle xs (set_rank_depth key x k, set state x 2) ≡ mark_true (x ∷ xs) (key, state))
        e
        (cycle_true xs (set_rank_depth key x (true_depth t x)) (set state x 2) (λ y k. h y (inr k)))

  -- The slot is marked, and its key has its true depth.
  abbrev IsTrue : List ℕ × List ℕ → ℕ → Type 0
  IsTrue (key, state) x = (get_or state x 0 ≡ 2) × (get_or key x 0 % 128 ≡ true_depth t x)

  -- What `after` is of `before`, where the slots of the list were settled.
  record Settled (slots : List ℕ) (before after : List ℕ × List ℕ) : Type 0 where
    key_size : length after.0 ≡ length before.0
    state_size : length after.1 ≡ length before.1
    settled : (x : ℕ) → In x slots → IsTrue after x
    kept : (x : ℕ) → IsTrue before x → IsTrue after x
    others : (x : ℕ) → (get_or after.1 x 0 ≡ get_or before.1 x 0) ⊎ In x slots
    penalty : (x : ℕ) → get_or after.0 x 0 / 128 ≡ get_or before.0 x 0 / 128

  one_true :
      (x : ℕ) (key state : List ℕ)
      → x < length key
      → x < length state
      → Settled (x ∷ []) (key, state) (set_rank_depth key x (true_depth t x), set state x 2)
  unfolding set_rank_depth
  one_true x key state a b = record {
    key_size = length-set key x _;
    state_size = length-set state x 2;
    settled = λ y h. elim h [ inl e ↦ here y e | inr k ↦ absurd k ];
    kept = λ y h. elim (Bool-cases (y == x)) [
      | inl e ↦ here y (ground arith)
      | inr e ↦
          let n : x ≢ y = λ q. ground arith in
          (
            get_or-set_ne state x y 2 0 n ∙ h.0,
            ap (λ (k : ℕ). k % 128) (get_or-set_ne key x y _ 0 n) ∙ h.1,
          )
    ];
    others = λ y. elim (Bool-cases (y == x)) [
      | inl e ↦ inr (inl (ground arith))
      | inr e ↦ inl (get_or-set_ne state x y 2 0 (λ q. ground arith))
    ];
    penalty = λ y. elim (Bool-cases (y == x)) [
      | inl e ↦
          let same : y ≡ x = ground arith in
          let w = get_or-set_self key x new 0 a in rw same (ap (λ (k : ℕ). k / 128) w ∙ omega arith)
      | inr e ↦ ap (λ (k : ℕ). k / 128) (get_or-set_ne key x y _ 0 (λ q. ground arith))
    ];
  }
    where
      new : ℕ
      new = get_or key x 0 / 128 * 128 + min (true_depth t x) 127

      here : (y : ℕ) → y ≡ x → IsTrue (set key x new, set state x 2) y
      here y e =
          let w = get_or-set_self key x new 0 a in
          subst (λ (k : ℕ). IsTrue (set key x new, set state x 2) k) (sym e)
            (get_or-set_self state x 2 0 b, ap (λ (k : ℕ). k % 128) w ∙ omega arith)

  all_true :
      (slots : List ℕ) (key state : List ℕ)
      → length key ≡ length state
      → ((x : ℕ) → In x slots → x < length state)
      → Settled slots (key, state) (mark_true slots (key, state))
  all_true [] key state e r = record {
    key_size = refl;
    state_size = refl;
    settled = λ x h. absurd h;
    kept = λ x h. h;
    others = λ x. inl refl;
    penalty = λ x. refl;
  }
  all_true (x ∷ xs) key state e r =
      let a = r x (inl refl) in
      let one = one_true x key state (omega arith) a in
      let key' = set_rank_depth key x (true_depth t x) in
      let state' = set state x 2 in
      let same : length key' ≡ length state' = one.key_size ∙ (e ∙ sym one.state_size) in
      let rest =
        all_true xs key' state' same
          (λ y h. let l = one.state_size in omega (arith, r y (inr h))) in
      record {
        key_size = rest.key_size ∙ one.key_size;
        state_size = rest.state_size ∙ one.state_size;
        settled = λ y h. elim h [
          | inl q ↦ rest.kept y (one.settled y (inl q))
          | inr k ↦ rest.settled y k
        ];
        kept = λ y h. rest.kept y (one.kept y h);
        others = λ y. elim (rest.others y) [
          | inr k ↦ inr (inr k)
          | inl q ↦ elim (one.others y) [
            | inl p ↦ inl (q ∙ p)
            | inr k ↦ elim k [ inl p ↦ inr (inl p) | inr n ↦ absurd n ]
          ]
        ];
        penalty = λ y. rest.penalty y ∙ one.penalty y;
      }

  -- Between two slots of a sweep: what is marked is done, and true.
  pub record Swept (ks : List ℕ × List ℕ) : Type 0 where
    pub key_all : length ks.0 ≡ length t.entries
    pub state_all : length ks.1 ≡ length t.entries
    pub good : (x : ℕ) → get_or ks.1 x 0 ≡ 2 → get_or ks.0 x 0 % 128 ≡ true_depth t x
    pub clean : (x : ℕ) → (get_or ks.1 x 0 ≡ 0) ⊎ (get_or ks.1 x 0 ≡ 2)

  -- How a sweep goes on: it stays so, keeps what is done, and the bit of the penalty.
  pub record Onward (ks ks' : List ℕ × List ℕ) : Type 0 where
    pub swept : Swept ks'
    pub done : (x : ℕ) → get_or ks.1 x 0 ≡ 2 → get_or ks'.1 x 0 ≡ 2
    pub same_penalty : (x : ℕ) → get_or ks'.0 x 0 / 128 ≡ get_or ks.0 x 0 / 128

  assign-mark_true :
      (key state : List ℕ) (s : ℕ) (w : Walked)
      → Outcome t v state [] s w
      → assign key w ≡ mark_true w.stack (key, w.state)
  assign-mark_true key state s w o = elim (Bool-cases w.cycle) [
    | inl c ↦ rw c (cycle_true w.stack key w.state (o.closed c))
    | inr c ↦ rw c (unwind_true w.stack w.first key w.state (o.right c))
  ]

  assign-Onward :
      (key state : List ℕ) (s : ℕ)
      → Swept (key, state)
      → s < length t.entries
      → (w : Walked) → Outcome t v state [] s w
      → Onward (key, state) (mark_true w.stack (key, w.state))
        × (get_or state s 0 ≡ 0 → get_or (mark_true w.stack (key, w.state)).1 s 0 ≡ 2)
  assign-Onward key state s k l w o =
      let sizes : length key ≡ length w.state = k.key_all ∙ sym (o.size ∙ k.state_all) in
      let a =
        all_true w.stack key w.state sizes
          (λ x h. let c = o.size in omega (arith, o.in_range x h)) in
      let now = mark_true w.stack (key, w.state) in
      let old : (x : ℕ) → get_or state x 0 ≡ 2 → IsTrue (key, w.state) x =
        λ x h. (o.done_kept x h, k.good x h) in
      (
        record {
          swept = record {
            key_all = a.key_size ∙ k.key_all;
            state_all = a.state_size ∙ (o.size ∙ k.state_all);
            good = λ x h. elim (a.others x) [
              | inr i ↦ (a.settled x i).1
              | inl e ↦ (a.kept x (old x (o.done_same x (sym e ∙ h)))).1
            ];
            clean = λ x. elim (a.others x) [
              | inr i ↦ inr (a.settled x i).0
              | inl e ↦ elim (Bool-cases (get_or w.state x 0 == 1)) [
                | inl b ↦ inr (a.settled x (o.on_stack x (ground arith))).0
                | inr b ↦ elim (Bool-cases (get_or w.state x 0 == 0)) [
                  | inl z ↦ inl (ground arith)
                  | inr z ↦ let m = o.small x in inr (ground arith)
                ]
              ]
            ];
          };
          done = λ x h. (a.kept x (old x h)).0;
          same_penalty = a.penalty;
        },
        λ z. (a.settled s (o.starts z)).0,
      )

  start_way :
      (key state : List ℕ) (s : ℕ)
      → Swept (key, state)
      → s < length t.entries
      → OnWay t v key state [] s
  start_way key state s k l = record {
    good = k.good;
    marks = λ x. elim (k.clean x) [ inl z ↦ omega arith | inr z ↦ omega arith ];
    ones = λ x h. elim (k.clean x) [ inl z ↦ absurd (omega arith) | inr z ↦ absurd (omega arith) ];
    ranged = λ x h. absurd h;
    leads = tt;
    here = let e = k.state_all in omega arith;
    all_slots = k.state_all;
  }

  -- One slot of a sweep: afterwards it is done, unless it is dead.
  sweep_slot-Onward :
      (key state : List ℕ) (s : ℕ)
      → Swept (key, state)
      → s < length t.entries
      → Onward (key, state) (sweep_slot t s (key, state))
        × (dead_at t s ≡ false → get_or (sweep_slot t s (key, state)).1 s 0 ≡ 2)
  unfolding sweep_slot
  sweep_slot-Onward key state s k l = elim (Bool-cases (get_or state s 0 == 0)) [
    | inr b ↦
        let two : get_or state s 0 ≡ 2 = elim (k.clean s) [ inl z ↦ ground arith | inr z ↦ z ] in
        rw b (stay, λ _. two)
    | inl b ↦ elim (Bool-cases (dead_at t s)) [
      | inl d ↦ rw (b, d) (stay, λ no. ground arith)
      | inr d ↦
          let w = walk t key (length t.entries + 1) state [] s in
          let few = unmarked-le state in
          let size = k.state_all in
          let o =
            walk-Outcome t v key (length t.entries + 1) state [] s (start_way key state s k l)
              (omega arith) in
          let r = assign-Onward key state s k l w o in
          let e = assign-mark_true key state s w o in
          let z : get_or state s 0 ≡ 0 = ground arith in
          rw (b, d)
            (subst
              (λ (ks : List ℕ × List ℕ).
                Onward (key, state) ks × (false ≡ false → get_or ks.1 s 0 ≡ 2))
              (sym e) (r.0, λ _. r.1 z))
    ]
  ]
    where
      stay : Onward (key, state) (key, state)
      stay = record { swept = k; done = λ x h. h; same_penalty = λ x. refl }

  Onward-next : (a b c : List ℕ × List ℕ) → Onward a b → Onward b c → Onward a c
  Onward-next a b c x y = record {
    swept = y.swept;
    done = λ s h. y.done s (x.done s h);
    same_penalty = λ s. y.same_penalty s ∙ x.same_penalty s;
  }

  -- The slots from `s` on: afterwards each is done that is not dead.
  pub sweep_from-Onward :
      (n s : ℕ) (ks : List ℕ × List ℕ)
      → Swept ks
      → s + n ≤ length t.entries
      → Onward ks (sweep_from t n s ks)
        × ((x : ℕ)
            → s ≤ x
            → x < s + n
            → dead_at t x ≡ false
            → get_or (sweep_from t n s ks).1 x 0 ≡ 2)
  unfolding sweep_from
  sweep_from-Onward zero s ks k l = (
    record { swept = k; done = λ x h. h; same_penalty = λ x. refl },
    λ x a b. absurd (omega arith),
  )
  sweep_from-Onward (suc n) s (key, state) k l =
      let one = sweep_slot-Onward key state s k (omega arith) in
      let mid = sweep_slot t s (key, state) in
      let rest = sweep_from-Onward n (s + 1) mid one.0.swept (omega arith) in
      (
        Onward-next (key, state) mid (sweep_from t n (s + 1) mid) one.0 rest.0,
        λ x a b d. elim (Bool-cases (x == s)) [
          | inl e ↦
              let same : x ≡ s = ground arith in rw same (rest.0.done s (one.1 (rw same at d)))
          | inr e ↦ rest.1 x (ground arith) (omega arith) d
        ],
      )
