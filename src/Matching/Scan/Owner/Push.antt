-- ===== src/Matching/Scan/Owner/Push.antt =====
-- A record that is pushed keeps the owner index.
use yspot.Prelude.{
  ℕ, zero, suc, ◌+◌, ◌*◌, ◌≤◌, ◌<◌, ◌≡◌, refl, sym, ap, ◌∙◌, ◌⊎◌, inl, inr, Bool-cases, List, [],
  ◌∷◌, ◌++◌, some, ltb, length, drop, get_elem?, length-append, get_elem?-append_left,
  get_elem?-append_right, lt_of_get_elem?, arith,
}
use mathlib.Core.Path.{subst}
use mathlib.Core.Option.{some-injective}
use yspot.Index.Types.{ArenaRec}
use yspot.Index.Table.Valid.{All}
use yspot.Index.Columns.{extend_owner, owner_block}
use yspot.Matching.Selector.Sorted.{In, All-In, In_of_All, In-append, In-front, In-back}
use yspot.Matching.Scan.Owner.{Ascends, Reaches, IsOwned, IsHeld}

append-Ascends :
    (rs : List ArenaRec) (n : ArenaRec)
    → Ascends rs
    → All (λ (r : ArenaRec). r.off < n.off) rs
    → Ascends (rs ++ n ∷ [])
append-Ascends [] n a h = (tt, tt)
append-Ascends (r ∷ rs) n a h = (
  All-In (λ (x : ArenaRec). r.off < x.off) (rs ++ n ∷ [])
      (λ x i. elim (In-append x rs (n ∷ []) i) [
        | inl j ↦ In_of_All (λ (x : ArenaRec). r.off < x.off) rs x a.0 j
        | inr j ↦ elim j [
          | inl e ↦
              let same : x.off ≡ n.off = ap (λ (y : ArenaRec). y.off) e in
              let lt = h.0 in omega arith
          | inr out ↦ absurd out
        ]
      ]),
  append-Ascends rs n a.1 h.1,
)

In-drop_append :
    (k : ℕ) (rs ys : List ArenaRec) (t : ArenaRec) → In t (drop k rs) → In t (drop k (rs ++ ys))
In-drop_append zero rs ys t i = In-front t rs ys i
In-drop_append (suc k) [] ys t i = absurd i
In-drop_append (suc k) (r ∷ rs) ys t i = In-drop_append k rs ys t i

last_in_drop :
    (k : ℕ) (rs : List ArenaRec) (n : ArenaRec) → k ≤ length rs → In n (drop k (rs ++ n ∷ []))
last_in_drop zero rs n h = In-back n rs (n ∷ []) (inl refl)
last_in_drop (suc k) [] n h = absurd (omega arith)
last_in_drop (suc k) (r ∷ rs) n h = last_in_drop k rs n (omega arith)

-- What the blocks behind the owners get.
pub extend_owner-covers :
    (fuel ri arena_len : ℕ) (owner : List ℕ)
    → arena_len ≤ (length owner + fuel) * owner_block
    → arena_len ≤ length (extend_owner fuel ri arena_len owner) * owner_block
unfolding extend_owner
extend_owner-covers zero ri arena_len owner h = omega arith
extend_owner-covers (suc fuel) ri arena_len owner h =
    elim (Bool-cases (ltb (length owner * owner_block) arena_len)) [
      | inl b ↦
          let e = length-append owner (ri ∷ []) in
          rw b (extend_owner-covers fuel ri arena_len (owner ++ ri ∷ []) (omega arith))
      | inr b ↦ rw b (ground arith)
    ]

pub extend_owner-elem :
    (fuel ri arena_len : ℕ) (owner : List ℕ) (b x : ℕ)
    → get_elem? (extend_owner fuel ri arena_len owner) b ≡ some x
    → (get_elem? owner b ≡ some x) ⊎ ((length owner ≤ b) × (x ≡ ri))
unfolding extend_owner
extend_owner-elem zero ri arena_len owner b x h = inl h
extend_owner-elem (suc fuel) ri arena_len owner b x h =
    elim (Bool-cases (ltb (length owner * owner_block) arena_len)) [
      | inr full ↦ inl (rw full at h)
      | inl short ↦
          elim (extend_owner-elem fuel ri arena_len (owner ++ ri ∷ []) b x (rw short at h)) [
            | inr (l, e) ↦ let n = length-append owner (ri ∷ []) in inr (omega arith, e)
            | inl g ↦ elim (Bool-cases (ltb b (length owner))) [
              | inl in_front ↦
                  inl (sym (get_elem?-append_left owner (ri ∷ []) b (ground arith)) ∙ g)
              | inr behind ↦
                  let le : length owner ≤ b = ground arith in
                  let lt = lt_of_get_elem? (owner ++ ri ∷ []) b g in
                  let n = length-append owner (ri ∷ []) in
                  let here : b ≡ length owner + 0 = omega arith in
                  let e = get_elem?-append_right owner (ri ∷ []) 0 in
                  let last : some ri ≡ some x =
                    sym e ∙ (ap (get_elem? (owner ++ ri ∷ [])) (sym here) ∙ g) in
                  inr (le, sym (some-injective _ _ last))
            ]
          ]
    ]

-- Pushing a record that starts where the arena ended, behind the fence of the first, and ends with the arena.
pub IsOwned-push :
    (old new off slot fuel : ℕ) (recs : List ArenaRec) (owner : List ℕ)
    → IsOwned old recs owner
    → old ≤ off
    → (0 < old → off ≡ old)
    → off < new
    → new ≤ fuel
    → IsOwned new
        (recs ++ (record { off = off; slot = slot }) ∷ [])
        (extend_owner fuel (length recs) new owner)
IsOwned-push old new off slot fuel recs owner o le first lt enough = record {
  ascends =
      append-Ascends recs n o.ascends
        (All-In (λ (r : ArenaRec). r.off < n.off) recs (λ r i. omega (arith, low r i)));
  below =
      All-In (λ (r : ArenaRec). r.off < new) (recs ++ n ∷ [])
        (λ r i. elim (In-append r recs (n ∷ []) i) [
          | inl j ↦ omega (arith, low r j)
          | inr j ↦ elim j [
            | inl e ↦ let same : r.off ≡ off = ap (λ (y : ArenaRec). y.off) e in omega arith
            | inr out ↦ absurd out
          ]
        ]);
  covered = extend_owner-covers fuel (length recs) new owner (omega arith);
  reaches = λ b ri h. elim (extend_owner-elem fuel (length recs) new owner b ri h) [
    | inl g ↦
        let (le, reach) = o.reaches b ri g in
        let k = size in
        (
          omega arith,
          λ t i. elim (In-append t recs (n ∷ []) i) [
            | inl j ↦ kept ri (b * owner_block) t (reach t j)
            | inr j ↦ inl (is_last ri le t j)
          ],
        )
    | inr (l, e) ↦
        let c = o.covered in
        let k = size in
        (
          omega arith,
          λ t i. elim (In-append t recs (n ∷ []) i) [
            | inl j ↦
                let lt = low t j in
                let start = first (omega arith) in
                inr (n, In-back n recs (n ∷ []) (inl refl), omega arith, omega arith)
            | inr j ↦ inl (is_last ri (omega arith) t j)
          ],
        )
  ];
}
  where
    n : ArenaRec
    n = record { off = off; slot = slot }

    low : (r : ArenaRec) → In r recs → r.off < old
    low r i = In_of_All (λ (r : ArenaRec). r.off < old) recs r o.below i

    size : length (recs ++ n ∷ []) ≡ length recs + 1
    size = length-append recs (n ∷ [])

    is_last :
        (k : ℕ) → k ≤ length recs → (t : ArenaRec) → In t (n ∷ []) → In t (drop k (recs ++ n ∷ []))
    is_last k le t (inl e) =
        subst (λ (x : ArenaRec). In x (drop k (recs ++ n ∷ []))) (sym e) (last_in_drop k recs n le)
    is_last k le t (inr out) = absurd out

    kept : (ri at : ℕ) (t : ArenaRec) → Reaches recs ri at t → Reaches (recs ++ n ∷ []) ri at t
    kept ri at t (inl i) = inl (In-drop_append ri recs (n ∷ []) t i)
    kept ri at t (inr (r, i, a, b)) = inr (r, In-front r recs (n ∷ []) i, a, b)

-- A live record is held as before, and so is the one that is pushed.
pub IsHeld-push :
    (len : ℕ) (recs : List ArenaRec) (t n : ArenaRec)
    → IsHeld recs t len
    → t.off + len < n.off
    → IsHeld (recs ++ n ∷ []) t len
IsHeld-push len recs t n h far = (
  In-front t recs (n ∷ []) h.0,
  λ r i. elim (In-append r recs (n ∷ []) i) [
    | inl j ↦ h.1 r j
    | inr j ↦ elim j [
      | inl e ↦ let same : r.off ≡ n.off = ap (λ (y : ArenaRec). y.off) e in inr (omega arith)
      | inr out ↦ absurd out
    ]
  ],
)

pub IsHeld-last :
    (len : ℕ) (recs : List ArenaRec) (n : ArenaRec)
    → ((r : ArenaRec) → In r recs → r.off < n.off)
    → IsHeld (recs ++ n ∷ []) n len
IsHeld-last len recs n low = (
  In-back n recs (n ∷ []) (inl refl),
  λ r i. elim (In-append r recs (n ∷ []) i) [
    | inl j ↦ inl (omega (arith, low r j))
    | inr j ↦ elim j [
      | inl e ↦ let same : r.off ≡ n.off = ap (λ (y : ArenaRec). y.off) e in inl (omega arith)
      | inr out ↦ absurd out
    ]
  ],
)
