-- ===== src/Index/Depth/Walk.antt =====
-- A walk up from an unmarked slot, and what is settled behind it.
use Prim.Native.Nat.{min}
use yspot.Prelude.{
  ℕ, zero, suc, ◌+◌, ◌%◌, ◌≤◌, ◌<◌, ◌≡◌, ◌≢◌, refl, sym, ap, ◌∙◌, inl, inr, true, false, Bool-cases,
  List, [], ◌∷◌, none, some, Option-cases, ◌==◌, if◌then◌else◌, length, get_or, set, length-set,
  arith,
}
use mathlib.Core.Path.{subst}
use yspot.Index.Table.{Table}
use yspot.Index.Table.Valid.{IsValid}
use yspot.Matching.Selector.Sorted.{In}
use yspot.Index.Depth.{Walked, walk}
use yspot.Index.Depth.Spec.{
  parent, true_depth, true_depth-end, true_depth-step, true_depth-closed, parent-lt,
}

-- ---- reads behind writes

pub get_or-set_self : (xs : List ℕ) (i v d : ℕ) → i < length xs → get_or (set xs i v) i d ≡ v
get_or-set_self [] i v d h = absurd (omega arith)
get_or-set_self (x ∷ xs) zero v d h = refl
get_or-set_self (x ∷ xs) (suc i) v d h = get_or-set_self xs i v d (omega arith)

pub get_or-set_ne : (xs : List ℕ) (i j v d : ℕ) → i ≢ j → get_or (set xs i v) j d ≡ get_or xs j d
get_or-set_ne [] i j v d h = refl
get_or-set_ne (x ∷ xs) zero zero v d h = absurd (h refl)
get_or-set_ne (x ∷ xs) zero (suc j) v d h = refl
get_or-set_ne (x ∷ xs) (suc i) zero v d h = refl
get_or-set_ne (x ∷ xs) (suc i) (suc j) v d h = get_or-set_ne xs i j v d (λ e. h (ap suc e))

pub unmarked : List ℕ → ℕ
unmarked [] = 0
unmarked (x ∷ xs) = (if x == 0 then 1 else 0) + unmarked xs

unmarked-set :
    (xs : List ℕ) (i v : ℕ)
    → i < length xs
    → get_or xs i 0 ≡ 0
    → v ≢ 0
    → unmarked (set xs i v) + 1 ≡ unmarked xs
unfolding unmarked
unmarked-set [] i v h z n = absurd (omega arith)
unmarked-set (x ∷ xs) zero v h z n =
    let a : (v == 0) ≡ false = ground arith in
    let b : (x == 0) ≡ true = ground arith in rw (a, b) (omega arith)
unmarked-set (x ∷ xs) (suc i) v h z n =
    let ih = unmarked-set xs i v (omega arith) z n in omega arith

pub unmarked-le : (xs : List ℕ) → unmarked xs ≤ length xs
unfolding unmarked
unmarked-le [] = omega arith
unmarked-le (x ∷ xs) = let ih = unmarked-le xs in ground arith

module _ (t : Table) (v : IsValid t) where
  -- Each slot's parent is the one in front of it, and that of the first is `cur`.
  abbrev pub Leads : List ℕ → ℕ → Type 0
  Leads [] cur = Unit
  Leads (x ∷ xs) cur = (parent t x ≡ some cur) × Leads xs x

  -- The depths from the first slot on.
  abbrev pub Deepens : List ℕ → ℕ → Type 0
  Deepens [] d = Unit
  Deepens (x ∷ xs) d = (true_depth t x ≡ d) × Deepens xs (min (d + 1) 127)

  Leads-Deepens :
      (stack : List ℕ) (cur : ℕ) → Leads stack cur → Deepens stack (min (true_depth t cur + 1) 127)
  Leads-Deepens [] cur h = tt
  Leads-Deepens (x ∷ xs) cur h =
      let e = true_depth-step t x cur h.0 in
      (e, subst (λ (d : ℕ). Deepens xs (min (d + 1) 127)) e (Leads-Deepens xs x h.1))

  Leads-next :
      (stack : List ℕ) (cur x : ℕ)
      → Leads stack cur
      → In cur stack
      → In x stack
      → (p : ℕ) × (parent t x ≡ some p) × In p stack
  Leads-next stack cur x h c i = from stack cur h c i (λ y k. k)
    where
      from :
          (xs : List ℕ) (cur : ℕ)
          → Leads xs cur
          → In cur stack
          → In x xs
          → ((y : ℕ) → In y xs → In y stack)
          → (p : ℕ) × (parent t x ≡ some p) × In p stack
      from [] cur h c i f = absurd i
      from (y ∷ ys) cur h c (inl e) f =
          (cur, subst (λ (k : ℕ). parent t k ≡ some cur) (sym e) h.0, c)
      from (y ∷ ys) cur h c (inr i) f = from ys y h.1 (f y (inl refl)) i (λ z k. f z (inr k))

  -- What a walk leaves behind of the marks `before`.
  pub record Outcome (before slots : List ℕ) (cur : ℕ) (w : Walked) : Type 0 where
    pub size : length w.state ≡ length before
    pub small : (x : ℕ) → get_or w.state x 0 ≤ 2
    pub done_same : (x : ℕ) → get_or w.state x 0 ≡ 2 → get_or before x 0 ≡ 2
    pub done_kept : (x : ℕ) → get_or before x 0 ≡ 2 → get_or w.state x 0 ≡ 2
    pub on_stack : (x : ℕ) → get_or w.state x 0 ≡ 1 → In x w.stack
    pub in_range : (x : ℕ) → In x w.stack → x < length before
    pub holds : (x : ℕ) → In x slots → In x w.stack
    pub starts : get_or before cur 0 ≡ 0 → In cur w.stack
    pub right : (w.cycle ≡ false) → Deepens w.stack w.first
    pub closed : (w.cycle ≡ true) → (x : ℕ) → In x w.stack → true_depth t x ≡ 127

  -- What is known of the marks on the way.
  pub record OnWay (key state stack : List ℕ) (cur : ℕ) : Type 0 where
    pub good : (x : ℕ) → get_or state x 0 ≡ 2 → get_or key x 0 % 128 ≡ true_depth t x
    pub marks : (x : ℕ) → get_or state x 0 ≤ 2
    pub ones : (x : ℕ) → get_or state x 0 ≡ 1 → In x stack
    pub ranged : (x : ℕ) → In x stack → x < length state
    pub leads : Leads stack cur
    pub here : cur < length state
    pub all_slots : length state ≡ length t.entries

  module _ (key : List ℕ) where
    at_done :
        (state stack : List ℕ) (cur : ℕ)
        → OnWay key state stack cur
        → get_or state cur 0 ≡ 2
        → Outcome state stack cur (record {
          state = state;
          stack = stack;
          first = min (get_or key cur 0 % 128 + 1) 127;
          cycle = false;
        })
    at_done state stack cur w m = record {
      size = refl;
      small = w.marks;
      done_same = λ x h. h;
      done_kept = λ x h. h;
      on_stack = w.ones;
      in_range = w.ranged;
      holds = λ x h. h;
      starts = λ z. absurd (omega arith);
      right = λ _.
          subst (λ (d : ℕ). Deepens stack (min (d + 1) 127)) (sym (w.good cur m))
            (Leads-Deepens stack cur w.leads);
      closed = λ c. ground arith;
    }

    at_cycle :
        (state stack : List ℕ) (cur : ℕ)
        → OnWay key state stack cur
        → get_or state cur 0 ≡ 1
        → Outcome state stack cur (record { state = state; stack = stack; first = 0; cycle = true })
    at_cycle state stack cur w m = record {
      size = refl;
      small = w.marks;
      done_same = λ x h. h;
      done_kept = λ x h. h;
      on_stack = w.ones;
      in_range = w.ranged;
      holds = λ x h. h;
      starts = λ z. absurd (omega arith);
      right = λ c. ground arith;
      closed = λ _ x h.
          true_depth-closed t (λ y. In y stack)
            (λ y k. Leads-next stack cur y w.leads (w.ones cur m) k) x h;
    }

    push_marks :
        (state stack : List ℕ) (cur : ℕ)
        → OnWay key state stack cur
        → (x : ℕ) → get_or (set state cur 1) x 0 ≤ 2
    push_marks state stack cur w x = elim (Bool-cases (x == cur)) [
      | inl b ↦
          let same : x ≡ cur = ground arith in
          rw same (omega (arith, get_or-set_self state cur 1 0 w.here))
      | inr b ↦
          let o = get_or-set_ne state cur x 1 0 (λ q. ground arith) in
          let m = w.marks x in omega arith
    ]

    -- The slot `cur` is put on the stack, and the walk goes on to `p`.
    push_on :
        (state stack : List ℕ) (cur p : ℕ)
        → OnWay key state stack cur
        → get_or state cur 0 ≡ 0
        → parent t cur ≡ some p
        → OnWay key (set state cur 1) (cur ∷ stack) p
    push_on state stack cur p w z e = record {
      good = λ x h. elim (Bool-cases (x == cur)) [
        | inl b ↦ let same : x ≡ cur = ground arith in absurd (omega (arith, rw same at h, self))
        | inr b ↦ w.good x (sym (other x (ground arith)) ∙ h)
      ];
      marks = push_marks state stack cur w;
      ones = λ x h. elim (Bool-cases (x == cur)) [
        | inl b ↦ inl (ground arith)
        | inr b ↦ inr (w.ones x (sym (other x (ground arith)) ∙ h))
      ];
      ranged = λ x h. elim h [
        | inl q ↦ let l = length-set state cur 1 in let c = w.here in omega arith
        | inr k ↦ let l = length-set state cur 1 in let c = w.ranged x k in omega arith
      ];
      leads = (e, w.leads);
      here =
          let l = length-set state cur 1 in
          let a = w.all_slots in omega (arith, parent-lt t v cur p e);
      all_slots = length-set state cur 1 ∙ w.all_slots;
    }
      where
        self : get_or (set state cur 1) cur 0 ≡ 1
        self = get_or-set_self state cur 1 0 w.here

        other : (x : ℕ) → x ≢ cur → get_or (set state cur 1) x 0 ≡ get_or state x 0
        other x n = get_or-set_ne state cur x 1 0 (λ q. n (sym q))

    -- What the rest of the walk leaves behind, behind the slot `cur`.
    after_push :
        (state stack : List ℕ) (cur next : ℕ) (r : Walked)
        → OnWay key state stack cur
        → get_or state cur 0 ≡ 0
        → Outcome (set state cur 1) (cur ∷ stack) next r
        → Outcome state stack cur r
    after_push state stack cur next r w z o = record {
      size = o.size ∙ length-set state cur 1;
      small = o.small;
      done_same = λ x h. elim (Bool-cases (x == cur)) [
        | inl b ↦
            let same : x ≡ cur = ground arith in
            let two : get_or (set state cur 1) cur 0 ≡ 2 = rw same at (o.done_same x h) in
            absurd (omega (arith, self, two))
        | inr b ↦ sym (other x (ground arith)) ∙ o.done_same x h
      ];
      done_kept = λ x h. elim (Bool-cases (x == cur)) [
        | inl b ↦
            let same : x ≡ cur = ground arith in
            let two = rw same at h in absurd (omega (arith, two, z))
        | inr b ↦ o.done_kept x (other x (ground arith) ∙ h)
      ];
      on_stack = o.on_stack;
      in_range = λ x h. let l = length-set state cur 1 in omega (arith, o.in_range x h);
      holds = λ x h. o.holds x (inr h);
      starts = λ _. o.holds cur (inl refl);
      right = o.right;
      closed = o.closed;
    }
      where
        self : get_or (set state cur 1) cur 0 ≡ 1
        self = get_or-set_self state cur 1 0 w.here

        other : (x : ℕ) → x ≢ cur → get_or (set state cur 1) x 0 ≡ get_or state x 0
        other x n = get_or-set_ne state cur x 1 0 (λ q. n (sym q))

    -- The walk ends at `cur`, which has no parent.
    at_end :
        (state stack : List ℕ) (cur : ℕ)
        → OnWay key state stack cur
        → get_or state cur 0 ≡ 0
        → parent t cur ≡ none
        → Outcome state stack cur
            (record { state = set state cur 1; stack = cur ∷ stack; first = 0; cycle = false })
    at_end state stack cur w z e =
        after_push state stack cur cur
          (record { state = set state cur 1; stack = cur ∷ stack; first = 0; cycle = false }) w z
          (record {
            size = refl;
            small = (push_marks state stack cur w);
            done_same = λ x h. h;
            done_kept = λ x h. h;
            on_stack = λ x h. elim (Bool-cases (x == cur)) [
              | inl b ↦ inl (ground arith)
              | inr b ↦ inr (w.ones x (sym (get_or-set_ne state cur x 1 0 (λ q. ground arith)) ∙ h))
            ];
            in_range = λ x h.
                let l = length-set state cur 1 in
                elim h [
                  | inl q ↦ let c = w.here in omega arith
                  | inr k ↦ let c = w.ranged x k in omega arith
                ];
            holds = λ x h. h;
            starts = λ k. inl refl;
            right = λ _. (
              top,
              subst (λ (d : ℕ). Deepens stack (min (d + 1) 127)) top
                  (Leads-Deepens stack cur w.leads),
            );
            closed = λ c. ground arith;
          })
      where
        top : true_depth t cur ≡ 0
        top = true_depth-end t cur e

    pub walk-Outcome :
        (fuel : ℕ) (state stack : List ℕ) (cur : ℕ)
        → OnWay key state stack cur
        → unmarked state < fuel
        → Outcome state stack cur (walk t key fuel state stack cur)
    unfolding walk
    walk-Outcome zero state stack cur w l = absurd (omega arith)
    walk-Outcome (suc fuel) state stack cur w l = elim (Bool-cases (get_or state cur 0 == 2)) [
      | inl a ↦ rw a (at_done state stack cur w (ground arith))
      | inr a ↦ elim (Bool-cases (get_or state cur 0 == 1)) [
        | inl b ↦ rw (a, b) (at_cycle state stack cur w (ground arith))
        | inr b ↦
            let m = w.marks cur in
            let z : get_or state cur 0 ≡ 0 = ground arith in
            elim (Option-cases (parent t cur)) [
              | inl e ↦ rw (a, b, e) (at_end state stack cur w z e)
              | inr (p, e) ↦
                  let fewer = unmarked-set state cur 1 w.here z (λ q. ground arith) in
                  rw (a, b, e)
                    (after_push state stack cur p
                      (walk t key fuel (set state cur 1) (cur ∷ stack) p) w z
                      (walk-Outcome fuel (set state cur 1) (cur ∷ stack) p
                        (push_on state stack cur p w z e) (omega arith)))
            ]
      ]
    ]
