-- ===== src/Matching/Selector/Sorted.antt =====
-- Insertion sort by a Boolean order: the result is sorted and has the same elements.
use yspot.Prelude.{
  ℕ, suc, ◌≡◌, refl, sym, ap, ◌∙◌, ◌⊎◌, inl, inr, Bool, true, false, Bool-cases, List, [], ◌∷◌,
  ◌++◌, length, take, drop, zero,
}
use mathlib.Core.Path.{subst}
use yspot.Index.Table.Valid.{All}
use yspot.Matching.Selector.{insert_by, sort_by}

module _ {A : Type 0} where
  abbrev pub In : A → List A → Type 0
  In x [] = ⊥
  In x (y ∷ ys) = (x ≡ y) ⊎ In x ys

  pub All-In : (P : A → Type 0) (xs : List A) → ((x : A) → In x xs → P x) → All P xs
  All-In P [] f = tt
  All-In P (x ∷ xs) f = (f x (inl refl), All-In P xs (λ y h. f y (inr h)))

  pub In-front : (x : A) (xs ys : List A) → In x xs → In x (xs ++ ys)
  In-front x [] ys h = absurd h
  In-front x (z ∷ xs) ys (inl e) = inl e
  In-front x (z ∷ xs) ys (inr h) = inr (In-front x xs ys h)

  pub In-back : (x : A) (xs ys : List A) → In x ys → In x (xs ++ ys)
  In-back x [] ys h = h
  In-back x (z ∷ xs) ys h = inr (In-back x xs ys h)

  pub In-append : (x : A) (xs ys : List A) → In x (xs ++ ys) → In x xs ⊎ In x ys
  In-append x [] ys h = inr h
  In-append x (y ∷ xs) ys (inl e) = inl (inl e)
  In-append x (y ∷ xs) ys (inr h) = elim (In-append x xs ys h) [
    | inl a ↦ inl (inr a)
    | inr b ↦ inr b
  ]

  pub In_of_All : (P : A → Type 0) (xs : List A) (x : A) → All P xs → In x xs → P x
  In_of_All P [] x a h = elim h [ ]
  In_of_All P (y ∷ ys) x a (inl e) = subst P (sym e) a.0
  In_of_All P (y ∷ ys) x a (inr h) = In_of_All P ys x a.1 h

  pub In-drop : (n : ℕ) (xs : List A) (x : A) → In x (drop n xs) → In x xs
  In-drop zero xs x h = h
  In-drop (suc n) [] x h = h
  In-drop (suc n) (y ∷ ys) x h = inr (In-drop n ys x h)

  pub In-take : (n : ℕ) (xs : List A) (x : A) → In x (take n xs) → In x xs
  In-take zero xs x h = elim h [ ]
  In-take (suc n) [] x h = h
  In-take (suc n) (y ∷ ys) x (inl e) = inl e
  In-take (suc n) (y ∷ ys) x (inr h) = inr (In-take n ys x h)

  pub In-split : (n : ℕ) (xs : List A) (x : A) → In x xs → In x (take n xs) ⊎ In x (drop n xs)
  In-split zero xs x h = inr h
  In-split (suc n) [] x h = inr h
  In-split (suc n) (y ∷ ys) x (inl e) = inl (inl e)
  In-split (suc n) (y ∷ ys) x (inr h) = elim (In-split n ys x h) [
    | inl a ↦ inl (inr a)
    | inr b ↦ inr b
  ]

-- What the order has to be: asymmetric, and incomparability with the lesser passes on.
pub record IsOrder {A : Type 0} (before : A → A → Bool) : Type 0 where
  pub asym : (a b : A) → before a b ≡ true → before b a ≡ false
  pub chain : (a b c : A) → before b a ≡ false → before c b ≡ false → before c a ≡ false

module _ {A : Type 0} (before : A → A → Bool) where
  abbrev pub NotBefore : A → A → Type 0
  NotBefore x y = before y x ≡ false

  abbrev pub IsSorted : List A → Type 0
  IsSorted [] = Unit
  IsSorted (x ∷ xs) = All (NotBefore x) xs × IsSorted xs

  pub In-insert_by : (x y : A) (xs : List A) → In y (insert_by before x xs) → (y ≡ x) ⊎ In y xs
  unfolding insert_by
  In-insert_by x y [] (inl e) = inl e
  In-insert_by x y [] (inr h) = inr h
  In-insert_by x y (z ∷ zs) h = elim (Bool-cases (before z x)) [
    | inl b ↦
        let h' : In y (z ∷ insert_by before x zs) = rw b at h in
        elim h' [
          | inl e ↦ inr (inl e)
          | inr k ↦ elim (In-insert_by x y zs k) [ inl e ↦ inl e | inr m ↦ inr (inr m) ]
        ]
    | inr b ↦ let h' : In y (x ∷ z ∷ zs) = rw b at h in h'
  ]

  pub insert_by-In : (x y : A) (xs : List A) → (y ≡ x) ⊎ In y xs → In y (insert_by before x xs)
  unfolding insert_by
  insert_by-In x y [] (inl e) = inl e
  insert_by-In x y [] (inr h) = inr h
  insert_by-In x y (z ∷ zs) h = elim (Bool-cases (before z x)) [
    | inl b ↦ rw b (elim h [
      | inl e ↦ inr (insert_by-In x y zs (inl e))
      | inr k ↦ elim k [ inl e ↦ inl e | inr m ↦ inr (insert_by-In x y zs (inr m)) ]
    ])
    | inr b ↦ rw b h
  ]

  pub length-insert_by : (x : A) (xs : List A) → length (insert_by before x xs) ≡ suc (length xs)
  unfolding insert_by
  length-insert_by x [] = refl
  length-insert_by x (z ∷ zs) = elim (Bool-cases (before z x)) [
    | inl b ↦ rw b (ap suc (length-insert_by x zs))
    | inr b ↦ rw b refl
  ]

  pub insert_by-IsSorted :
      IsOrder before → (x : A) (xs : List A) → IsSorted xs → IsSorted (insert_by before x xs)
  unfolding insert_by
  insert_by-IsSorted o x [] s = (tt, tt)
  insert_by-IsSorted o x (z ∷ zs) s = elim (Bool-cases (before z x)) [
    | inl b ↦ rw b (
      All-In (NotBefore z) (insert_by before x zs) (λ y h. elim (In-insert_by x y zs h) [
        | inl e ↦ subst (NotBefore z) (sym e) (o.asym z x b)
        | inr k ↦ In_of_All (NotBefore z) zs y s.0 k
      ]),
      insert_by-IsSorted o x zs s.1,
    )
    | inr b ↦ rw b (
      (b, All-In (NotBefore x) zs (λ y h. o.chain x z y b (In_of_All (NotBefore z) zs y s.0 h))),
      s,
    )
  ]

  pub sort_by-IsSorted : IsOrder before → (xs : List A) → IsSorted (sort_by before xs)
  unfolding sort_by
  sort_by-IsSorted o [] = tt
  sort_by-IsSorted o (x ∷ xs) = insert_by-IsSorted o x (sort_by before xs) (sort_by-IsSorted o xs)

  pub In-sort_by : (y : A) (xs : List A) → In y (sort_by before xs) → In y xs
  unfolding sort_by
  In-sort_by y [] h = h
  In-sort_by y (x ∷ xs) h = elim (In-insert_by x y (sort_by before xs) h) [
    | inl e ↦ inl e
    | inr k ↦ inr (In-sort_by y xs k)
  ]

  pub sort_by-In : (y : A) (xs : List A) → In y xs → In y (sort_by before xs)
  unfolding sort_by
  sort_by-In y [] h = h
  sort_by-In y (x ∷ xs) (inl e) = insert_by-In x y (sort_by before xs) (inl e)
  sort_by-In y (x ∷ xs) (inr h) = insert_by-In x y (sort_by before xs) (inr (sort_by-In y xs h))

  pub length-sort_by : (xs : List A) → length (sort_by before xs) ≡ length xs
  unfolding sort_by
  length-sort_by [] = refl
  length-sort_by (x ∷ xs) = length-insert_by x (sort_by before xs) ∙ ap suc (length-sort_by xs)
